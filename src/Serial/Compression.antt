-- ===== src/Serial/Compression.antt =====
-- commlib/compression.py, over zlib and lz4. Their `decompress` is `none` where it raises; a text is
-- its encoding.
use commlib_py.Prelude.{◌≡◌, Bool, true, false, not, ◌&&◌, Option, none, some, if◌then◌else◌, arith}

-- CompressionType, by the level that zlib is given
pub data CompressionType : Type 0 where
  no_compression best_speed best_compression default_compression : CompressionType

-- `compression_type == CompressionType.NO_COMPRESSION`
unfoldable pub is_none : CompressionType → Bool
is_none no_compression = true
is_none best_speed = false
is_none best_compression = false
is_none default_compression = false

module _ {Bytes : Type 0} (zlib_compress : CompressionType → Bytes → Bytes)
    (zlib_decompress : Bytes → Option Bytes) (lz4_compress : Bytes → Bytes)
    (lz4_decompress : Bytes → Option Bytes) where
  -- inflate_str, where `HAS_LZ4` is true or not
  unfoldable pub inflate_str : Bool → Bytes → CompressionType → Bytes
  unfolding is_none
  inflate_str has_lz4 s c =
      if is_none c
      then zlib_compress no_compression s
      else if has_lz4
      then lz4_compress s
      else zlib_compress c s

  -- deflate
  unfoldable pub deflate : Bool → Bytes → Option Bytes
  deflate has_lz4 bytes =
      if has_lz4
      then elim (lz4_decompress bytes) [ some s ↦ some s | none ↦ zlib_decompress bytes ]
      else zlib_decompress bytes

  -- What one side compresses the other one reads as it was, at every level, except where the first one has
  -- lz4 and the other one has not, and some compression is asked for: then reading raises. Each library
  -- reads what it has written, and neither reads what the other one has.
  pub deflate-inflate_str :
      (sender_has_lz4 receiver_has_lz4 : Bool) (s : Bytes) (c : CompressionType)
      → ((level : CompressionType) (b : Bytes) → zlib_decompress (zlib_compress level b) ≡ some b)
      → ((b : Bytes) → lz4_decompress (lz4_compress b) ≡ some b)
      → ((level : CompressionType) (b : Bytes) → lz4_decompress (zlib_compress level b) ≡ none)
      → ((b : Bytes) → zlib_decompress (lz4_compress b) ≡ none)
      → deflate receiver_has_lz4 (inflate_str sender_has_lz4 s c)
        ≡ (if sender_has_lz4 && not receiver_has_lz4 && not (is_none c) then none else some s)
  unfolding deflate inflate_str
  deflate-inflate_str sender receiver s c zlib lz4 apart apart2 =
      ground
        (arith, zlib no_compression s, zlib c s, lz4 s, apart no_compression s, apart c s, apart2 s)
