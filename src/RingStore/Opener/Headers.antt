-- ===== src/RingStore/Opener/Headers.antt =====
-- The volume header of `open`: its two copies, and the test of the geometry.
use tfdb.Prelude.{ℕ, Bool, true, false, ◌&&◌, List, ◌==◌, if◌then◌else◌, same_time}
use tfdb.Status.{ErrorCode, Result, returns, fails}
use tfdb.Format.{volume_header_encoded_size, volume_header_copy_size}
use tfdb.Format.Volume.{VolumeHeader, decode_volume_header}
use tfdb.RingStore.State.{Device}
use tfdb.RingStore.Geometry.{validate_volume_geometry}
use tfdb.RingStore.Reader.Reads.{Reads, ◌>>=◌, ◌>>◌, give, lift}

abbrev pub same_volume_header : VolumeHeader → VolumeHeader → Bool
same_volume_header a b =
    a.volume_id_high == b.volume_id_high
    && a.volume_id_low == b.volume_id_low
    && a.volume_size == b.volume_size
    && a.partition_size == b.partition_size
    && a.partition_count == b.partition_count
    && a.index_region_size == b.index_region_size
    && a.max_block_payload == b.max_block_payload
    && a.persistence_quantum == b.persistence_quantum
    && same_time a.created_time_ns b.created_time_ns

-- Errors of the transfer, after which nothing can be said of the media.
abbrev pub is_transfer : ErrorCode → Bool
is_transfer ErrorCode.io_error = true
is_transfer ErrorCode.interrupted = true
is_transfer code = false

abbrev pub is_unsupported : ErrorCode → Bool
is_unsupported ErrorCode.unsupported = true
is_unsupported code = false

-- The error of two copies that both are of no use.
abbrev pub header_error : ErrorCode → ErrorCode → ErrorCode
header_error first second =
    if is_unsupported first
    then first
    else if is_unsupported second
    then second
    else if is_transfer first
    then first
    else if is_transfer second
    then second
    else ErrorCode.corrupt

unfoldable pub choose_header : Result VolumeHeader → Result VolumeHeader → Result VolumeHeader
choose_header (returns first) (returns second) =
    if same_volume_header first second then returns first else fails ErrorCode.corrupt
choose_header (returns first) (fails code) = returns first
choose_header (fails code) (returns second) = returns second
choose_header (fails first) (fails second) = fails (header_error first second)

-- A copy that was read, decoded.
abbrev pub decoded_copy : Result (List ℕ) → Result VolumeHeader
decoded_copy (returns bs) = decode_volume_header bs
decoded_copy (fails code) = fails code

unfoldable pub choose_copy : Result (List ℕ) → Result (List ℕ) → Result VolumeHeader
unfolding choose_header
choose_copy (fails first) (fails second) = fails first
choose_copy first second = choose_header (decoded_copy first) (decoded_copy second)

module _ {S : Type 0} where
  -- A step whose status is kept, and not yet returned.
  unfoldable pub attempt {ℓ} : {A : Type ℓ} → Reads S A → Reads S (Result A)
  attempt m = λ s. let (r, s') = m s in (returns r, s')

  unfoldable pub backend_size : Device S → Reads S ℕ
  backend_size dev = λ s. (returns (dev.size s), s)

  unfoldable pub read_volume : Device S → Reads S VolumeHeader
  unfolding choose_copy
  read_volume dev = do
    first ← attempt (dev.read 0 volume_header_encoded_size)
    second ← attempt (dev.read volume_header_copy_size volume_header_encoded_size)
    v ← lift (choose_copy first second)
    size ← backend_size dev
    lift (validate_volume_geometry v size)
    give v
