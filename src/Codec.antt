-- ===== src/Codec.antt =====
-- src/codec.cpp: the built-in block codecs. A codec is a record of its operations, as a
-- `CompressionCodec` is an object with virtual functions. An output object is always given, and is
-- replaced only on success, so the operations return the new output.
pub mod PackBits
pub mod Lz4
use tfdb.Codec.PackBits
use tfdb.Codec.Lz4
use tfdb.Prelude.{
  ℕ, ◌-◌, ◌^◌, Bool, not, ◌==◌, List, length, Option, none, some, if◌then◌else◌, ltb, ◌+◌,
}
use tfdb.Status.{ErrorCode, Result, returns, ◌>>=◌, ◌>>◌, reject_if}
use tfdb.Bytes.{ByteView, valid, contents, size}

pub record CompressionCodec : Type 0 where
  pub id : ℕ
  pub version : ℕ
  pub max_compressed_size : ℕ → ℕ
  pub compress : ByteView → Result (List ℕ)
  pub decompress : ByteView → ℕ → Result (List ℕ)

-- `CompressionId`
abbrev pub none_id : ℕ
none_id = 0

abbrev pub packbits_id : ℕ
packbits_id = 1

abbrev pub lz4_block_id : ℕ
lz4_block_id = 2

abbrev pub none_compress : ByteView → Result (List ℕ)
none_compress input = do
  reject_if (not (valid input)) ErrorCode.invalid_argument
  returns (contents input)

abbrev pub none_decompress : ByteView → ℕ → Result (List ℕ)
none_decompress input expected_size = do
  reject_if (not (valid input)) ErrorCode.invalid_argument
  reject_if (not (size input == expected_size)) ErrorCode.corrupt
  returns (contents input)

-- `NoneCodec`
unfoldable pub none_codec : CompressionCodec
none_codec = record {
  id = none_id;
  version = 1;
  max_compressed_size = λ input_size. input_size;
  compress = none_compress;
  decompress = none_decompress;
}

-- `PackBitsCodec`
unfoldable pub packbits_codec : CompressionCodec
packbits_codec = record {
  id = packbits_id;
  version = 1;
  max_compressed_size = PackBits.max_compressed_size;
  compress = PackBits.compress;
  decompress = PackBits.decompress;
}

-- `Lz4BlockCodec`
unfoldable pub lz4_block_codec : CompressionCodec
lz4_block_codec = record {
  id = lz4_block_id;
  version = 1;
  max_compressed_size = Lz4.max_compressed_size;
  compress = Lz4.compress;
  decompress = Lz4.Decode.decompress;
}

unfoldable pub built_in_codec : ℕ → Option CompressionCodec
unfolding none_codec packbits_codec lz4_block_codec
built_in_codec id =
    if id == none_id
    then some none_codec
    else if id == packbits_id
    then some packbits_codec
    else if id == lz4_block_id
    then some lz4_block_codec
    else none
