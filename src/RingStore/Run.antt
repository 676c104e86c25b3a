-- ===== src/RingStore/Run.antt =====
-- The calls that a client makes of one writer, in the order in which they take the mutex.
use tfdb.Prelude.{ℕ, List, [], ◌∷◌, ℤ}
use tfdb.Status.{Status}
use tfdb.Bytes.{ByteView}
use tfdb.Format.Partition.{PartitionOptions}
use tfdb.RingStore.State.{Device, Impl}
use tfdb.RingStore.Append.{
  AppendContract, append, append_checked, publish, checkpoint, close, rotate,
  set_next_partition_options,
}

pub data Call : Type 0 where
  call_append : ByteView → ℤ → ℕ → Call
  call_append_checked : ByteView → ℤ → AppendContract → ℕ → Call
  call_publish call_checkpoint call_close : Call
  call_rotate call_set_next : PartitionOptions → Call

module _ {S : Type 0} (dev : Device S) where
  unfoldable pub run : Call → Impl S → Status × Impl S
  unfolding append append_checked publish checkpoint close rotate set_next_partition_options
  run (call_append view time flags) = append dev view time flags
  run (call_append_checked view time expected flags) = append_checked dev view time expected flags
  run call_publish = publish dev
  run call_checkpoint = checkpoint dev
  run call_close = close dev
  run (call_rotate next) = rotate dev next
  run (call_set_next options) = set_next_partition_options dev options

  unfoldable pub run_all : List Call → Impl S → Impl S
  unfolding run
  run_all [] s = s
  run_all (c ∷ cs) s = run_all cs (run c s).1
