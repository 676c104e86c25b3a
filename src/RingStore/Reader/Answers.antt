-- ===== src/RingStore/Reader/Answers.antt =====
-- What `read_block` returns is the block that the entry names.
use tfdb.Prelude.{
  negsuc, neither, same, not_below, positive, same_time, ℕ, ◌+◌, ◌≤◌, ◌≡◌, refl, ap, Bool, true,
  false, not, Option, none, some, List, arith, ◌==◌, length, ℤ, pos,
}
use tfdb.Crc.{crc32c}
use tfdb.Format.{block_header_encoded_size}
use tfdb.Format.Volume.{VolumeHeader}
use tfdb.Format.Block.{BlockHeader, decode_block_header}
use tfdb.Format.Index.{IndexEntry}
use tfdb.Codec.{CompressionCodec}
use tfdb.RingStore.State.{Device, PartitionState, partition_base, add64}
use tfdb.RingStore.Reader.Reads.{◌>>=◌, ◌>>◌, give, stop, lift, catch}
use tfdb.RingStore.Reader.Scan.{span_is}
use tfdb.RingStore.Reader.Block.{
  BlockMetadata, other_block, disagrees, metadata_of, agree, same_generation, decode_stored,
  read_block_header, read_block, classified,
}
use tfdb.RingStore.Reader.Ends.{Ends, well, badly, after-Ends, reject-Ends, then-Ends}
use tfdb.RingStore.Reader.Reads.{handled}

pub same_time_eq : (a b : ℤ) → (same_time a b ≡ true) → a ≡ b
same_time_eq (pos m) (pos n) h = ap pos (ground arith)
same_time_eq (pos m) (negsuc n) h = absurd (ground arith)
same_time_eq (negsuc m) (pos n) h = absurd (ground arith)
same_time_eq (negsuc m) (negsuc n) h = ap negsuc (ground arith)

module _ (v : VolumeHeader) (p : PartitionState) (e : IndexEntry) where
  -- The bytes have the size that the block header states, the header has the partition's identity
  -- and codec, and its count, times and flags are the entry's.
  pub record IsBlockOf (m : BlockMetadata) (decoded : List ℕ) : Type 0 where
    pub slot_same : m.partition_slot ≡ p.header.slot
    pub generation_same : m.partition_generation ≡ p.header.generation
    pub domain_same : m.time_domain_id ≡ p.header.options.time_domain_id
    pub sequence_same : m.block_sequence ≡ e.sequence
    pub count_same : m.record_count ≡ e.record_count
    pub min_same : m.min_time_ns ≡ e.min_time_ns
    pub max_same : m.max_time_ns ≡ e.max_time_ns
    pub flags_same : m.flags ≡ e.flags
    pub size_same : length decoded ≡ m.raw_size
    pub raw_same : m.raw_size ≡ e.raw_size
    pub size_bounded : m.raw_size ≤ v.max_block_payload

  pub record Agrees (b : BlockHeader) : Type 0 where
    pub sequence_agrees : b.sequence ≡ e.sequence
    pub count_agrees : b.record_count ≡ e.record_count
    pub raw_agrees : b.raw_size ≡ e.raw_size
    pub raw_bounded : b.raw_size ≤ v.max_block_payload
    pub min_agrees : same_time b.min_time_ns e.min_time_ns ≡ true
    pub max_agrees : same_time b.max_time_ns e.max_time_ns ≡ true
    pub flags_agree : b.flags ≡ e.flags

  other_block-sequence : (b : BlockHeader) → (other_block v p e b ≡ false) → b.sequence ≡ e.sequence
  other_block-sequence b h =
      let (h4, writer) = neither h in
      let (h3, high) = neither h4 in
      let (h2, low) = neither h3 in let (h1, sequence) = neither h2 in same sequence

  disagrees-Agrees :
      (b : BlockHeader) → b.sequence ≡ e.sequence → (disagrees v p e b ≡ false) → Agrees b
  disagrees-Agrees b same_sequence h0 =
      let (h1, codec) = neither h0 in
      let (h2, flags) = neither h1 in
      let (h3, most) = neither h2 in
      let (h4, least) = neither h3 in
      let (h5, size) = neither h4 in
      let (h6, count) = neither h5 in
      let (h7, order) = neither h6 in
      let (h8, empty) = neither h7 in
      let (h9, stored) = neither h8 in
      let (h10, raw) = neither h9 in
      record {
        sequence_agrees = same_sequence;
        count_agrees = same count;
        raw_agrees = same size;
        raw_bounded = not_below raw;
        min_agrees = positive least;
        max_agrees = positive most;
        flags_agree = same flags;
      }

  block_is :
      (b : BlockHeader) (decoded : List ℕ)
      → Agrees b
      → length decoded ≡ b.raw_size
      → IsBlockOf (metadata_of v p e b) decoded
  block_is b decoded a sized = record {
    slot_same = refl;
    generation_same = refl;
    domain_same = refl;
    sequence_same = a.sequence_agrees;
    count_same = a.count_agrees;
    min_same = same_time_eq b.min_time_ns e.min_time_ns a.min_agrees;
    max_same = same_time_eq b.max_time_ns e.max_time_ns a.max_agrees;
    flags_same = a.flags_agree;
    size_same = sized;
    raw_same = a.raw_agrees;
    size_bounded = a.raw_bounded;
  }

  module _ {S : Type 0} (dev : Device S) (codecs : List CompressionCodec) where
    agree-Ends : (t : Bool) (s : S) → Ends (λ u. t ≡ false) (agree dev v codecs p t s)
    unfolding classified give
    agree-Ends true s = badly
    agree-Ends false s = well refl

    read_block_header-Ends : (s : S) → Ends Agrees (read_block_header dev v codecs p e s)
    unfolding read_block_header ◌>>=◌ ◌>>◌ catch lift give
    read_block_header-Ends s =
        then-Ends
          (dev.read (add64 (partition_base v p.header.slot) e.offset) block_header_encoded_size s)
          (λ bs s1.
            then-Ends (handled (decode_block_header bs, s1) (classified dev v codecs p)) (λ b s2.
              after-Ends (agree-Ends (other_block v p e b) s2) (λ u s3 mine.
                after-Ends (agree-Ends (disagrees v p e b) s3) (λ u' s4 agreed.
                  then-Ends
                    (agree dev v codecs p
                      (not (span_is v (block_header_encoded_size + b.stored_size) b.frame_span)) s4)
                    (λ u'' s5. well (disagrees-Agrees b (other_block-sequence b mine) agreed))))))

    decode_stored-Ends :
        (b : BlockHeader) (stored : List ℕ) (codec : Option CompressionCodec) (s : S)
        → Ends
            (λ decoded. length decoded ≡ b.raw_size)
            (decode_stored dev v codecs b stored codec s)
    unfolding decode_stored ◌>>=◌ ◌>>◌ lift give stop
    decode_stored-Ends b stored none s = badly
    decode_stored-Ends b stored (some codec) s = then-Ends _ (λ decoded s1.
        after-Ends (reject-Ends (not (length decoded == b.raw_size)) _)
          (λ u s2 sized. well (same sized)))

    pub read_block-Ends :
        (s : S) → Ends (λ block. IsBlockOf block.0 block.1) (read_block dev v codecs p e s)
    unfolding read_block ◌>>=◌ ◌>>◌ give
    read_block-Ends s = then-Ends _ (λ u0 s1. after-Ends (read_block_header-Ends s1) (λ b s2 agreed.
        then-Ends _ (λ stored s3. then-Ends (same_generation dev v codecs p s3) (λ u1 s4.
          then-Ends (agree dev v codecs p (not (crc32c stored == b.payload_crc)) s4) (λ u2 s5.
            after-Ends (decode_stored-Ends b stored _ s5)
              (λ decoded s6 sized. well (block_is b decoded agreed sized)))))))
