-- ===== src/Sample.antt =====
-- Concrete settings for the tests: a compressor that copies, 16-bit words in both byte orders, and
-- a small file.
use native.Mathlib.Nat.{pow-suc}
use backhand.Common.{
  ℕ, zero, suc, ◌+◌, ◌*◌, ◌/◌, ◌%◌, ◌^◌, ◌<◌, ◌≡◌, refl, ap, none, List, [], ◌∷◌, length, arith,
}
use backhand.Compressor.{xz}
use backhand.Compressor.Config.{FilesystemCompressor}
use backhand.Error.{ok}
use backhand.Kinds.{Endian, little, big, CompressionAction, Kind, WordCodec, IsLossless}
use backhand.NodeHeader.{NodeHeader}
use backhand.Superblock
use backhand.Superblock.{SuperBlock}

abbrev pub copying : CompressionAction
copying = record { compress = λ fc n xs. ok xs; decompress = λ c n xs. ok xs }

abbrev pub sample_kind : Kind
sample_kind = record {
  magic = b'h' ∷ b's' ∷ b'q' ∷ b's' ∷ [];
  type_endian = little;
  data_endian = big;
  version_major = 4;
  version_minor = 0;
  compressor = copying;
}

abbrev pub sample_fc : FilesystemCompressor
sample_fc = record { id = xz; stored = none; tuning = none }

abbrev pub copying_lossless : (b n : ℕ) → IsLossless copying sample_fc b n
copying_lossless b n = record {
  packed = λ xs. xs;
  compress_packed = λ xs h. refl;
  decompress_packed = λ xs h. refl;
}

-- Two bytes of a number, in their order
unfoldable pub word_bytes : Endian → ℕ → List ℕ
word_bytes little n = n % 256 ∷ (n / 256) % 256 ∷ []
word_bytes big n = (n / 256) % 256 ∷ n % 256 ∷ []

unfoldable pub word_of : Endian → List ℕ → ℕ
word_of little (a ∷ b ∷ bs) = a + 256 * b
word_of big (a ∷ b ∷ bs) = 256 * a + b
word_of e bs = 0

pub length-word_bytes : (e : Endian) (n : ℕ) → length (word_bytes e n) ≡ 2
unfolding word_bytes
length-word_bytes little n = refl
length-word_bytes big n = refl

pub word_of-word_bytes : (e : Endian) (n : ℕ) → n < 256 ^ 2 → word_of e (word_bytes e n) ≡ n
unfolding word_of word_bytes
word_of-word_bytes little n h = omega arith
word_of-word_bytes big n h = omega arith

abbrev pub sample_u16 : WordCodec 2
sample_u16 = record {
  to_writer = word_bytes;
  from_reader = word_of;
  length-to_writer = length-word_bytes;
  from_reader-to_writer = word_of-word_bytes;
}

abbrev pub sample_superblock : SuperBlock
sample_superblock = Superblock.new xz sample_kind

abbrev pub sample_header : NodeHeader
sample_header = record { permissions = 0o755; uid = 1000; gid = 100; mtime = 7 }

-- A number's lowest bytes, the lowest first
unfoldable pub low_bytes : ℕ → ℕ → List ℕ
low_bytes zero n = []
low_bytes (suc width) n = n % 256 ∷ low_bytes width (n / 256)

unfoldable pub of_bytes : List ℕ → ℕ
of_bytes [] = 0
of_bytes (b ∷ bs) = b + 256 * of_bytes bs

pub length-low_bytes : (width n : ℕ) → length (low_bytes width n) ≡ width
unfolding low_bytes
length-low_bytes zero n = refl
length-low_bytes (suc width) n = ap suc (length-low_bytes width (n / 256))

pub of_bytes-low_bytes : (width n : ℕ) → n < 256 ^ width → of_bytes (low_bytes width n) ≡ n
unfolding low_bytes of_bytes
of_bytes-low_bytes zero n h = omega arith
of_bytes-low_bytes (suc width) n h = omega (
  arith,
  pow-suc 256 width,
  of_bytes-low_bytes width (n / 256) (omega (arith, pow-suc 256 width)),
)

abbrev pub sample_word : (width : ℕ) → WordCodec width
sample_word width = record {
  to_writer = λ e n. low_bytes width n;
  from_reader = λ e bs. of_bytes bs;
  length-to_writer = λ e n. length-low_bytes width n;
  from_reader-to_writer = λ e n h. of_bytes-low_bytes width n h;
}
