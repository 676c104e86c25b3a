-- ===== src/Tests/Codec.antt =====
-- The block codecs at fixed inputs.
use tfdb.Prelude.{ℕ, ◌≤◌, ◌≡◌, refl, List, [], ◌∷◌, arith, length}
use tfdb.Status.{returns, ◌>>=◌}
use tfdb.Bytes.{bytes}
use tfdb.Codec.PackBits.{compress, decompress, max_compressed_size}
use tfdb.Codec.PackBits.RoundTrip.{decompress-compress}
use tfdb.Codec.PackBits.Size.{compress-le-max}
use tfdb.Codec.Lz4.Decode
use tfdb.Codec.PackBits.Unpacked.{Answer, decompress-Answer}

-- Two literals, and a run of four.
abbrev mixed : List ℕ
mixed = 1 ∷ 2 ∷ 9 ∷ 9 ∷ 9 ∷ 9 ∷ []

compress_mixed : compress (bytes mixed) ≡ returns (1 ∷ 1 ∷ 2 ∷ 0x81 ∷ 9 ∷ [])
unfolding compress
compress_mixed = refl

decompress-compress_example :
    (compress (bytes mixed) >>= λ encoded. decompress (bytes encoded) 6) ≡ returns mixed
decompress-compress_example = decompress-compress mixed

compress-le-max_example :
    (encoded : List ℕ) × (compress (bytes mixed) ≡ returns encoded)
    × (length encoded ≤ max_compressed_size 6)
compress-le-max_example = compress-le-max mixed (omega arith)

-- Two literals and a run of four are unpacked.
decompress-Answer_example :
    Answer 6 (1 ∷ 1 ∷ 2 ∷ 0x81 ∷ 9 ∷ []) [] (decompress (bytes (1 ∷ 1 ∷ 2 ∷ 0x81 ∷ 9 ∷ [])) 6)
decompress-Answer_example = decompress-Answer (1 ∷ 1 ∷ 2 ∷ 0x81 ∷ 9 ∷ []) 6

-- Two literals, and the end of the stream.
lz4_literals : Decode.decompress (bytes (0x20 ∷ 7 ∷ 8 ∷ [])) 2 ≡ returns (7 ∷ 8 ∷ [])
unfolding Decode.decompress Decode.take_literals
lz4_literals = refl
