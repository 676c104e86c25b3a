-- ===== src/Tests/Opener.antt =====
-- The small volume opened after its format, for reading and for writing.
use tfdb.Prelude.{
  inr, arith, ◌==◌, if◌then◌else◌, ◌+◌, ◌*◌, ◌≡◌, refl, true, false, Option, some, [],
}
use tfdb.Status.{ErrorCode, Result, returns, fails}
use tfdb.RingStore.State.{
  ◌>=>◌, find_at, codec_for, validate_partition_options, partition_base, Device, Impl,
}
use tfdb.RingStore.Opener.Assemble.{
  ready_active, ready, adopt, recover_store, open_volume, choose_writer, OpenOptions, open_store,
}
use tfdb.Tests.RingStore.{empty_store, Log, plain_options}
use tfdb.Tests.Reader.{disk}
use tfdb.Tests.Formatter.{small_options, no_random, formatted_log}
use tfdb.RingStore.Opener.Headers.{choose_header, choose_copy, backend_size, attempt, read_volume}
use tfdb.RingStore.Opener.Opened.{open_store-IsOpened, IsOpened}
use tfdb.RingStore.Reader.Reads.{◌>>=◌, ◌>>◌, after_read, lift, give}
use tfdb.RingStore.Geometry.{is_power_of_two, validate_volume_geometry}
use tfdb.Format.Volume.{
  VolumeHeader, encode_volume_header, load_volume_header, decode_volume_header,
}
use tfdb.Format.{
  volume_header_encoded_size, volume_header_copy_size, align_up, all_zero, magic_is, same_bytes,
  common_check,
}
use tfdb.Bytes.{get16, get64, gather}
use mathlib.Core.Bool.{xor}
use tfdb.Crc.{crc32c_with_zeroed_field, crc32c_step, crc32c}
use tfdb.RingStore.Opener.Recover.{trim_history, arrange, recover_slot, recover_slots}
use tfdb.RingStore.Reader.Slots.{read_partition_header}
use tfdb.Format.Partition.Decode.{decode_partition_header}
use tfdb.RingStore.Opener.Damage.{find_evidence, assess_slot}
use tfdb.Codec.{built_in_codec}
use tfdb.RingStore.Rotate.{
  remove_slot, without_slot, install_partition, write_or_fail, create_partition,
  insert_by_generation, sort_by_generation,
}
use tfdb.RingStore.Media.{sync_media}
use tfdb.Format.Partition.{encode_partition_header}
use tfdb.RingStore.Opener.Survives.{read_volume-survives}
use tfdb.RingStore.Formatter.{volume_of}

abbrev formatted_disk : Device Log
formatted_disk = record disk { size = λ log. 8192 + 2 * 65536 }

abbrev reading : OpenOptions
reading = record {
  open_writable = false;
  verify_payloads_on_open = true;
  next_partition = plain_options;
  open_codecs = [];
  open_writer_high = 0;
  open_writer_low = 0;
  allow_explicit_writer_id_for_testing = false;
}

abbrev writing : OpenOptions
writing = record reading {
  open_writable = true;
  open_writer_high = 5;
  open_writer_low = 6;
  allow_explicit_writer_id_for_testing = true;
}

abbrev write_open : Option (Result (Impl Log) × Log)
write_open = open_store formatted_disk no_random 1 writing formatted_log

abbrev opened_or : Impl Log → Option (Result (Impl Log) × Log) → Impl Log
opened_or other (some (returns m, log)) = m
opened_or other outcome = other

abbrev first_store : Impl Log
first_store = opened_or empty_store write_open

write_opens : write_open ≡ some (returns first_store, first_store.storage)
unfolding open_store read_volume ◌>>=◌ ◌>>◌ give lift attempt backend_size choose_copy choose_header
    decode_volume_header common_check same_bytes magic_is all_zero load_volume_header gather get64
    crc32c crc32c_step crc32c_with_zeroed_field validate_volume_geometry is_power_of_two align_up
    after_read choose_writer open_volume recover_store recover_slots recover_slot
    read_partition_header partition_base decode_partition_header assess_slot find_evidence
    validate_partition_options codec_for built_in_codec arrange trim_history sort_by_generation
    insert_by_generation adopt ready ready_active create_partition find_at ◌>=>◌ write_or_fail
    sync_media install_partition without_slot remove_slot encode_partition_header
    encode_volume_header get16 xor
write_opens = refl

open_store-IsOpened_example : IsOpened writing first_store
open_store-IsOpened_example =
    open_store-IsOpened formatted_disk writing no_random 1 formatted_log first_store.storage
      first_store write_opens

abbrev broken_disk : Device Log
broken_disk = record formatted_disk {
  read = λ offset n log.
      if offset == 0 then (fails ErrorCode.io_error, log) else disk.read offset n log;
}

abbrev small_header : VolumeHeader
small_header = volume_of small_options (8192 + 2 * 65536) (7, 9)

geometry_passes : validate_volume_geometry small_header (8192 + 2 * 65536) ≡ returns tt
unfolding validate_volume_geometry is_power_of_two align_up
geometry_passes = refl

second_copy :
    disk.read volume_header_copy_size volume_header_encoded_size formatted_log
    ≡ (returns (encode_volume_header small_header), formatted_log)
unfolding encode_volume_header
second_copy = refl

read_volume-survives_example :
    read_volume broken_disk formatted_log ≡ (returns small_header, formatted_log)
read_volume-survives_example =
    read_volume-survives broken_disk small_header (fails ErrorCode.io_error)
      (returns (encode_volume_header small_header)) formatted_log formatted_log formatted_log
      (omega arith) geometry_passes refl second_copy (inr ((ErrorCode.io_error, refl), refl))
