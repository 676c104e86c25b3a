-- ===== src/Tests/Format.antt =====
-- The media format at fixed inputs.
use tfdb.Prelude.{◌≡◌, refl, [], ◌∷◌, arith, pos, negsuc}
use tfdb.Status.{ErrorCode, returns, fails}
use tfdb.Crc.Laws.{crc32c_with_zeroed_field-store}
use tfdb.Bytes.{store}
use tfdb.Crc.{crc32c_with_zeroed_field, crc32c, crc32c_step}
use tfdb.Format.Volume.{VolumeHeader, encode_volume_header, decode_volume_header}
use tfdb.Format.Volume.RoundTrip.{decode_volume_header-encode}
use tfdb.Format.Block.{BlockHeader, encode_block_header, decode_block_header}
use tfdb.Format.Block.RoundTrip.{decode_block_header-encode}
use tfdb.Format.Index.{IndexEntry, encode_index, decode_index}
use tfdb.Format.Index.RoundTrip.{decode_index-encode, without_writer}
use tfdb.Format.Footer.{PartitionFooter, encode_partition_footer, decode_partition_footer}
use tfdb.Format.Footer.RoundTrip.{decode_partition_footer-encode}
use tfdb.Format.Partition.Loads.{IsEncodable}
use tfdb.Format.Partition.{
  encoder_features, PartitionHeader, PartitionOptions, encode_partition_header,
}
use tfdb.Format.Partition.Decode.{decode_partition_header}
use tfdb.Format.Partition.RoundTrip.{decode_partition_header-encode}

-- The check value of CRC32C, over "123456789".
crc32c_check : crc32c (49 ∷ 50 ∷ 51 ∷ 52 ∷ 53 ∷ 54 ∷ 55 ∷ 56 ∷ 57 ∷ []) ≡ 0xe306_9283
unfolding crc32c crc32c_step
crc32c_check = refl

abbrev volume : VolumeHeader
volume = record {
  volume_id_high = 1;
  volume_id_low = 2;
  volume_size = 1_048_576;
  partition_size = 65_536;
  partition_count = 15;
  index_region_size = 4096;
  max_block_payload = 4096;
  persistence_quantum = 512;
  created_time_ns = negsuc 4;
}

decode_volume_header-encode_example :
    decode_volume_header (encode_volume_header volume) ≡ returns volume
decode_volume_header-encode_example = decode_volume_header-encode volume (omega arith)

abbrev block : BlockHeader
block = record {
  generation = 7;
  slot = 3;
  sequence = 2;
  flags = 0x1_0002;
  record_count = 5;
  stored_size = 300;
  raw_size = 400;
  frame_span = 512;
  min_time_ns = negsuc 9;
  max_time_ns = pos 1000;
  compression = 1;
  compression_version = 1;
  payload_crc = 0xdead_beef;
  volume_id_low = 2;
  volume_id_high = 1;
  writer_id_high = 8;
  writer_id_low = 9;
  previous_writer_id_high = 8;
  previous_writer_id_low = 9;
}

decode_block_header-encode_example : decode_block_header (encode_block_header block) ≡ returns block
decode_block_header-encode_example = decode_block_header-encode block (omega arith)

-- A header without records is refused.
decode_block_header_empty :
    decode_block_header (encode_block_header (record block { record_count = 0 }))
    ≡ fails ErrorCode.corrupt
decode_block_header_empty =
    decode_block_header-encode (record block { record_count = 0 }) (omega arith)

abbrev entry : IndexEntry
entry = record {
  offset = 4096;
  frame_size = 428;
  frame_span = 512;
  sequence = 0;
  record_count = 5;
  min_time_ns = negsuc 9;
  max_time_ns = pos 1000;
  flags = 2;
  raw_size = 400;
  writer_id_high = 8;
  writer_id_low = 9;
}

decode_index-encode_example :
    decode_index (encode_index (entry ∷ entry ∷ []))
    ≡ returns (without_writer entry ∷ without_writer entry ∷ [])
decode_index-encode_example = decode_index-encode (entry ∷ entry ∷ []) (omega arith)

abbrev footer : PartitionFooter
footer = record {
  volume_id_high = 1;
  volume_id_low = 2;
  generation = 7;
  slot = 3;
  flags = 2;
  block_count = 2;
  index_offset = 57_344;
  index_size = 96;
  data_end = 5120;
  min_time_ns = negsuc 9;
  max_time_ns = pos 1000;
  index_crc = 77;
}

decode_partition_footer-encode_example :
    decode_partition_footer (encode_partition_footer footer) ≡ returns footer
decode_partition_footer-encode_example = decode_partition_footer-encode footer (omega arith)

abbrev options : PartitionOptions
options = record {
  compression = 2;
  compression_version = 1;
  record_format_id = 0x5446_4442_5246_5631;
  record_format_version = 1;
  time_domain_id = 1;
  allowed_backward_skew_ns = negsuc 0;
  allowed_forward_step_ns = pos 1_000_000;
}

abbrev partition : PartitionHeader
partition = record {
  volume_id_high = 1;
  volume_id_low = 2;
  generation = 7;
  slot = 3;
  created_time_ns = pos 0;
  max_block_payload = 4096;
  persistence_quantum = 512;
  options = options;
  features = [];
}

partition_fits : IsEncodable partition
partition_fits = grind arith

decode_partition_header-encode_example :
    decode_partition_header (encode_partition_header partition 65_536 4096)
    ≡ returns (record partition { features = encoder_features options 65_536 4096 })
decode_partition_header-encode_example =
    decode_partition_header-encode partition 65_536 4096 partition_fits (omega arith) (omega arith)

crc32c_with_zeroed_field-store_example :
    crc32c_with_zeroed_field (store (9 ∷ 9 ∷ 9 ∷ 9 ∷ 9 ∷ []) 1 (1 ∷ 2 ∷ 3 ∷ 4 ∷ [])) 1
    ≡ crc32c (store (9 ∷ 9 ∷ 9 ∷ 9 ∷ 9 ∷ []) 1 (0 ∷ 0 ∷ 0 ∷ 0 ∷ []))
crc32c_with_zeroed_field-store_example =
    crc32c_with_zeroed_field-store (9 ∷ 9 ∷ 9 ∷ 9 ∷ 9 ∷ []) 1 1 2 3 4 (omega arith)
