-- ===== src/Tests/Append.antt =====
-- Appending to a store whose partition has a record format.
use tfdb.Prelude.{◌≡◌, refl, not, ◌&&◌, ◌||◌, [], ◌∷◌, arith, ltb, pos, negsuc, pos_part, ltb_ℤ}
use tfdb.Status.{ok}
use tfdb.Bytes.{bytes}
use tfdb.Format.{align_up}
use tfdb.Format.Partition.{PartitionOptions}
use tfdb.RingStore.State.{Impl, ◌>=>◌, find_at, index_begin}
use tfdb.RingStore.Rotate.{header_for, new_partition, ensure_empty_builder_capacity}
use tfdb.RingStore.Append.{AppendContract, append_checked, delta_exceeds}
use tfdb.RingStore.Contract.{Takes, append_checked-contract}
use tfdb.RingStore.Skew.{distance, delta_exceeds-distance}
use tfdb.Tests.RingStore.{Log, log_device, empty_store, small_volume, plain_options}

-- `plain_options` with a record format, the store that has it, and the contract for it.
abbrev framed_options : PartitionOptions
framed_options = record plain_options { record_format_id = 8; record_format_version = 1 }

abbrev framed_store : Impl Log
framed_store = record empty_store {
  partitions = new_partition (header_for small_volume 0 1 framed_options) ∷ [];
}

abbrev framed_contract : AppendContract
framed_contract = record { record_format_id = 8; record_format_version = 1; time_domain_id = 1 }

append_checked_accepts :
    (append_checked log_device (bytes (4 ∷ 5 ∷ [])) (pos 3) framed_contract 0 framed_store).0 ≡ ok
unfolding append_checked ◌>=>◌ ensure_empty_builder_capacity find_at align_up index_begin
append_checked_accepts = refl

append_checked-contract_example :
    Takes log_device framed_contract
      (4 ∷ 5 ∷ [])
      (append_checked log_device (bytes (4 ∷ 5 ∷ [])) (pos 3) framed_contract 0 framed_store).1
append_checked-contract_example =
    append_checked-contract log_device (bytes (4 ∷ 5 ∷ [])) (pos 3) framed_contract 0 framed_store
      refl append_checked_accepts

delta_exceeds-distance_example : delta_exceeds (negsuc 4) (pos 7) (pos 11) ≡ (
    not (ltb_ℤ (pos 11) (pos 0))
    && (ltb_ℤ (pos 7) (negsuc 4) || ltb (pos_part (pos 11)) (distance (negsuc 4) (pos 7))))
delta_exceeds-distance_example =
    delta_exceeds-distance (negsuc 4) (pos 7) (pos 11) (omega arith) (omega arith) (omega arith)
