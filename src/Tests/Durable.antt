-- ===== src/Tests/Durable.antt =====
-- A checkpoint and a rotation on a device that marks its flushes in the log of the writes.
use tfdb.Prelude.{false, ℕ, ◌≡◌, refl, ◌⊎◌, inl, inr, List, [], ◌∷◌}
use tfdb.Status.{ok}
use tfdb.RingStore.State.{
  put_at, validate_partition_options, index_begin, codec_for, find_at, ◌>=>◌, Device,
}
use tfdb.RingStore.Medium.{Medium}
use tfdb.RingStore.Append.{rotate}
use tfdb.RingStore.Durable.{rotate-durable}
use mathlib.Core.Bool.{xor}
use tfdb.RingStore.Rotate.{rotate_internal}
use tfdb.Tests.RingStore.{Log, log_device, waiting_store, waiting_store-IsConsistent, plain_options}
use tfdb.RingStore.Emit.{emit_builder}
use tfdb.Codec.{built_in_codec}
use tfdb.Format.{align_up}
use tfdb.RingStore.Media.{sync_media}
use tfdb.Format.Index.{encode_index}

abbrev Kept : ℕ → List ℕ → Log → Type 0
Kept offset bs [] = ⊥
Kept offset bs (entry ∷ log) = (entry ≡ (offset, bs)) ⊎ Kept offset bs log

-- A flush is marked by a write of nothing.
abbrev Flushed : Log → Type 0
Flushed [] = Unit {0}
Flushed (entry ∷ log) = entry.1 ≡ []

abbrev pub marking_device : Device Log
marking_device = record log_device { flush = λ log. (ok, (0, []) ∷ log) }

abbrev pub marking_medium : Medium marking_device
marking_medium = record {
  Holds = Kept;
  IsFlushed = Flushed;
  write-Holds = λ offset bs log e. inl refl;
  flush-Holds = λ offset bs log h. inr h;
  flush-IsFlushed = λ log e. refl;
  now-Holds = λ offset bs log h. h;
  now-IsFlushed = λ log h. h;
}

rotate_writes : (rotate marking_device plain_options waiting_store).0 ≡ ok
unfolding rotate ◌>=>◌ emit_builder find_at codec_for built_in_codec align_up index_begin sync_media
    validate_partition_options xor rotate_internal put_at encode_index
rotate_writes = refl

rotate-durable_example :
    Flushed (rotate marking_device plain_options waiting_store).1.storage
    × ((rotate marking_device plain_options waiting_store).1.builder ≡ [])
    × ((rotate marking_device plain_options waiting_store).1.dirty ≡ false)
    × ((rotate marking_device plain_options waiting_store).1.have_undurable_records ≡ false)
    × ((rotate marking_device plain_options waiting_store).1.metrics.durable_records ≡ 1)
    × ((rotate marking_device plain_options waiting_store).1.metrics.durable_blocks
        ≡ (rotate marking_device plain_options waiting_store).1.metrics.published_blocks)
rotate-durable_example =
    rotate-durable marking_device marking_medium plain_options waiting_store
      waiting_store-IsConsistent (inr (inr tt)) rotate_writes
