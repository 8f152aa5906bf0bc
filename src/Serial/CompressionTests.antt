-- ===== src/Serial/CompressionTests.antt =====
-- The compression with libraries that mark what they write, and the theorem at an input where its
-- hypotheses hold.
use commlib_py.Prelude.{ℕ, ◌≡◌, refl, true, false, Option, none, some}
use commlib_py.Serial.Compression.{
  CompressionType, default_compression, is_none, inflate_str, deflate, deflate-inflate_str,
}

program : Unit {0}
unfolding is_none inflate_str deflate
program = tt

data Marked : Type 0 where
  plain : ℕ → Marked
  by_zlib by_lz4 : Marked → Marked

abbrev zlib_compress : CompressionType → Marked → Marked
zlib_compress level b = by_zlib b

abbrev zlib_decompress : Marked → Option Marked
zlib_decompress (plain n) = none
zlib_decompress (by_zlib b) = some b
zlib_decompress (by_lz4 b) = none

abbrev lz4_decompress : Marked → Option Marked
lz4_decompress (plain n) = none
lz4_decompress (by_zlib b) = none
lz4_decompress (by_lz4 b) = some b

-- The sender has lz4, and the receiver has not.
deflate-inflate_str_example :
    deflate zlib_compress zlib_decompress by_lz4 lz4_decompress false (
      inflate_str zlib_compress zlib_decompress by_lz4 lz4_decompress true
        (plain 3)
        default_compression)
    ≡ none
unfolding program
deflate-inflate_str_example =
    deflate-inflate_str zlib_compress zlib_decompress by_lz4 lz4_decompress true false (plain 3)
      default_compression (λ level b. refl) (λ b. refl) (λ level b. refl) (λ b. refl)
