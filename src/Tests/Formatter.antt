-- ===== src/Tests/Formatter.antt =====
-- A small volume formatted on a log of the writes, and what the test of `open` says of it.
use tfdb.Prelude.{ℕ, ◌+◌, ◌*◌, ◌≡◌, refl, true, some, List, [], ◌∷◌, arith, pos}
use tfdb.Status.{ok}
use tfdb.Format.{align_up}
use tfdb.Format.Volume.{encode_volume_header}
use tfdb.RingStore.State.{Device, ◌>=>◌}
use tfdb.RingStore.Formatter.{VolumeOptions, Draw, interrupted, format, volume_of}
use tfdb.RingStore.Formatted.{HasFormatted, format-HasFormatted}
use tfdb.Tests.RingStore.{Log, log_device}

abbrev blank : Device Log
blank = record log_device { size = λ log. 8192 + 2 * 65536 }

abbrev pub no_random : ℕ → Log → Draw × Log
no_random n log = (interrupted, log)

abbrev pub small_options : VolumeOptions
small_options = record {
  partition_size = 65536;
  index_region_size = 4096;
  max_block_payload = 1024;
  persistence_quantum = 512;
  volume_id_high = 7;
  volume_id_low = 9;
  allow_explicit_volume_id_for_testing = true;
  created_time_ns = pos 0;
}

abbrev header_bytes : List ℕ
header_bytes = encode_volume_header (volume_of small_options (8192 + 2 * 65536) (7, 9))

abbrev pub formatted_log : Log
formatted_log = (4096, header_bytes) ∷ (0, header_bytes) ∷ []

formats : format blank no_random 1 small_options [] ≡ some (ok, formatted_log)
unfolding format ◌>=>◌ align_up
formats = refl

format-HasFormatted_example :
    HasFormatted blank no_random small_options (8192 + 2 * 65536) formatted_log
format-HasFormatted_example =
    format-HasFormatted blank no_random 1 small_options [] formatted_log
      (record {
        size_fits = omega arith;
        partition_fits = omega arith;
        index_fits = omega arith;
        quantum_fits = omega arith;
      })
      formats
