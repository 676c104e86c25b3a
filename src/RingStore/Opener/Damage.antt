-- ===== src/RingStore/Opener/Damage.antt =====
-- `open` at a slot without a valid header: is there evidence of the current volume?
use tfdb.Prelude.{ℕ, Bool, true, false, ◌&&◌, ◌||◌, List, ◌==◌, if◌then◌else◌}
use tfdb.Status.{ErrorCode, Result, returns, fails}
use tfdb.Bytes.{get64}
use tfdb.Format.{
  partition_header_region_size, partition_header_encoded_size, partition_footer_encoded_size,
  block_header_encoded_size, partition_magic, magic_is, all_zero,
}
use tfdb.Format.Volume.{VolumeHeader}
use tfdb.Format.Footer.{PartitionFooter, decode_partition_footer}
use tfdb.Format.Block.{BlockHeader, decode_block_header}
use tfdb.RingStore.State.{Device, partition_base, footer_offset, add64}
use tfdb.RingStore.Reader.Reads.{Reads, ◌>>=◌, ◌>>◌, give, reject}
use tfdb.RingStore.Opener.Headers.{is_transfer, is_unsupported}

abbrev pub header_evidence : VolumeHeader → List ℕ → Bool
header_evidence v raw =
    magic_is raw partition_magic
    && get64 raw 16 == v.volume_id_high
    && get64 raw 24 == v.volume_id_low

abbrev pub footer_evidence : VolumeHeader → ℕ → Result PartitionFooter → Bool
footer_evidence v slot (fails code) = false
footer_evidence v slot (returns f) =
    f.slot == slot && f.volume_id_high == v.volume_id_high && f.volume_id_low == v.volume_id_low

abbrev pub block_evidence : VolumeHeader → ℕ → Result BlockHeader → Bool
block_evidence v slot (fails code) = false
block_evidence v slot (returns b) =
    b.slot == slot && b.volume_id_high == v.volume_id_high && b.volume_id_low == v.volume_id_low

module _ {S : Type 0} (dev : Device S) (v : VolumeHeader) where
  -- In the footer and the first block.
  unfoldable pub look_further : ℕ → Reads S Bool
  look_further slot = do
    footer_bytes ←
        dev.read (add64 (partition_base v slot) (footer_offset v)) partition_footer_encoded_size
    block_bytes ←
        dev.read (add64 (partition_base v slot) partition_header_region_size)
          block_header_encoded_size
    give (
        footer_evidence v slot (decode_partition_footer footer_bytes)
        || block_evidence v slot (decode_block_header block_bytes))

  unfoldable pub find_evidence : ℕ → Reads S Bool
  unfolding look_further get64
  find_evidence slot = do
    raw ← dev.read (partition_base v slot) partition_header_encoded_size
    if all_zero raw
        then give false
        else if header_evidence v raw
        then give true
        else look_further slot

  -- Whether the slot is one of the damaged ones, after the error of its header.
  unfoldable pub assess_slot : Bool → ℕ → ErrorCode → Reads S Bool
  unfolding find_evidence
  assess_slot verify slot code = do
    reject (is_transfer code) code
    evidence ← find_evidence slot
    reject (evidence && (is_unsupported code || verify)) code
    give evidence
