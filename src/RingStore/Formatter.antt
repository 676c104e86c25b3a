-- ===== src/RingStore/Formatter.antt =====
-- `RingStore::format`, with `random_nonzero_id`.
use tfdb.Prelude.{
  ℕ, zero, suc, ◌+◌, ◌-◌, ◌/◌, ◌%◌, ◌^◌, Bool, not, ◌&&◌, ◌||◌, Option, none, some, List, [], ◌++◌,
  ltb, ◌==◌, if◌then◌else◌, length, ℤ,
}
use tfdb.Status.{ErrorCode, Status, error, Result, returns, fails}
use tfdb.Bytes.{get64}
use tfdb.Format.{
  volume_prefix_size, volume_header_copy_size, partition_header_region_size,
  partition_footer_region_size, index_entry_encoded_size,
}
use tfdb.Format.Volume.{VolumeHeader, encode_volume_header}
use tfdb.RingStore.State.{Device, sub64, ◌>=>◌}
use tfdb.RingStore.Geometry.{is_power_of_two, fixed_size, maximum_span}

pub record VolumeOptions : Type 0 where
  pub partition_size : ℕ
  pub index_region_size : ℕ
  pub max_block_payload : ℕ
  pub persistence_quantum : ℕ
  pub volume_id_high : ℕ
  pub volume_id_low : ℕ
  pub allow_explicit_volume_id_for_testing : Bool
  pub created_time_ns : ℤ

-- What a call of `getrandom` comes to.
pub data Draw : Type 0 where
  drew : List ℕ → Draw
  interrupted failed : Draw

abbrev pub bad_geometry : VolumeOptions → ℕ → Bool
bad_geometry o size =
    ltb size volume_prefix_size
    || o.partition_size == 0
    || not (is_power_of_two o.persistence_quantum)
    || ltb partition_header_region_size o.persistence_quantum
    || o.max_block_payload == 0
    || ltb o.index_region_size index_entry_encoded_size
    || not (volume_prefix_size % o.persistence_quantum == 0)
    || not (partition_header_region_size % o.persistence_quantum == 0)
    || not (o.partition_size % o.persistence_quantum == 0)
    || not (o.index_region_size % o.persistence_quantum == 0)
    || ltb o.partition_size (fixed_size o.index_region_size + o.persistence_quantum)

-- The partitions that fit.
abbrev pub count64 : VolumeOptions → ℕ → ℕ
count64 o size = sub64 size volume_prefix_size / o.partition_size

abbrev pub bad_count : ℕ → Bool
bad_count n = ltb n 2 || ltb (2 ^ 32 - 1) n

abbrev pub block_cannot_fit : VolumeOptions → Bool
block_cannot_fit o =
    let (span, overflow) = maximum_span o.max_block_payload o.persistence_quantum in
    overflow
    || ltb
        (sub64
          (sub64 (sub64 o.partition_size partition_header_region_size) partition_footer_region_size)
          o.index_region_size)
        span

abbrev pub volume_of : VolumeOptions → ℕ → ℕ × ℕ → VolumeHeader
volume_of o size (high, low) = record {
  volume_id_high = high;
  volume_id_low = low;
  volume_size = size;
  partition_size = o.partition_size;
  partition_count = count64 o size % 2 ^ 32;
  index_region_size = o.index_region_size;
  max_block_payload = o.max_block_payload;
  persistence_quantum = o.persistence_quantum;
  created_time_ns = o.created_time_ns;
}

module _ {S : Type 0} (dev : Device S) (getrandom : ℕ → S → Draw × S) where
  -- The inner loop, which fills 16 bytes; `none` stands for a loop that has not ended in its rounds.
  unfoldable pub fill_random : ℕ → List ℕ → S → Option (Result (List ℕ) × S)
  fill_random zero bs s = if length bs == 16 then some (returns bs, s) else none
  fill_random (suc rounds) bs s =
      if length bs == 16
      then some (returns bs, s)
      else let (draw, s') = getrandom (16 - length bs) s in
        elim draw [
          | interrupted ↦ fill_random rounds bs s'
          | failed ↦ some (fails ErrorCode.io_error, s')
          | drew more ↦
              if length more == 0
              then some (fails ErrorCode.io_error, s')
              else fill_random rounds (bs ++ more) s'
        ]

  abbrev pub is_zero_id : List ℕ → Bool
  is_zero_id bs = get64 bs 0 == 0 && get64 bs 8 == 0

  abbrev pub id_or :
      Option (Result (List ℕ) × S) → (S → Option (Result (ℕ × ℕ) × S)) → Option (Result (ℕ × ℕ) × S)
  id_or none again = none
  id_or (some (fails code, s)) again = some (fails code, s)
  id_or (some (returns bs, s)) again =
      if is_zero_id bs then again s else some (returns (get64 bs 0, get64 bs 8), s)

  -- The outer loop. Each draw is given the rounds that are left for its inner loop.
  unfoldable pub random_nonzero_id : ℕ → S → Option (Result (ℕ × ℕ) × S)
  unfolding fill_random get64
  random_nonzero_id zero s = none
  random_nonzero_id (suc rounds) s =
      id_or (fill_random (suc rounds) [] s) (random_nonzero_id rounds)

  unfoldable pub choose_id : ℕ → VolumeOptions → S → Option (Result (ℕ × ℕ) × S)
  unfolding random_nonzero_id
  choose_id rounds o s =
      if not (o.volume_id_high == 0) || not (o.volume_id_low == 0)
      then some (
        if not o.allow_explicit_volume_id_for_testing
            then fails ErrorCode.invalid_argument
            else returns (o.volume_id_high, o.volume_id_low),
        s,
      )
      else random_nonzero_id rounds s

  -- Both copies of the header, and a flush.
  unfoldable pub write_headers : List ℕ → S → Status × S
  unfolding ◌>=>◌
  write_headers bs s = dev.write 0 bs s >=> dev.write volume_header_copy_size bs >=> dev.flush

  abbrev pub format_with : VolumeOptions → ℕ → Option (Result (ℕ × ℕ) × S) → Option (Status × S)
  format_with o size none = none
  format_with o size (some (fails code, s)) = some (error code, s)
  format_with o size (some (returns id, s)) =
      some (write_headers (encode_volume_header (volume_of o size id)) s)

  unfoldable pub format : ℕ → VolumeOptions → S → Option (Status × S)
  unfolding is_power_of_two choose_id write_headers
  format rounds o s =
      if not (dev.is_writable s)
      then some (error ErrorCode.invalid_argument, s)
      else if bad_geometry o (dev.size s)
      then some (error ErrorCode.invalid_argument, s)
      else if bad_count (count64 o (dev.size s))
      then some (error ErrorCode.invalid_argument, s)
      else if block_cannot_fit o
      then some (error ErrorCode.invalid_argument, s)
      else format_with o (dev.size s) (choose_id rounds o s)
