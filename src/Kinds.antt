-- ===== src/Kinds.antt =====
-- The kinds of images, backhand/src/kinds.rs, and the interfaces behind them: the trait
-- `CompressionAction` of backhand/src/compressor.rs as a record of functions, and the word codecs
-- of the deku crate, whose code is not in the repository, as a record with its laws.
pub mod Targets
use backhand.Common.{ℕ, ◌^◌, ◌<◌, ◌≤◌, ◌≡◌, List, [], ◌∷◌, length}
use backhand.Compressor.{Compressor}
use backhand.Compressor.Config.{FilesystemCompressor}
use backhand.Error.{Result, ok}

pub data Magic : Type 0 where
  little_magic big_magic : Magic

pub data Endian : Type 0 where
  little big : Endian

-- `compress` is given the options and the block size. `decompress` is given the capacity of the
-- empty buffer that it fills, and returns what that buffer holds then.
pub record CompressionAction : Type 0 where
  pub compress : FilesystemCompressor → ℕ → List ℕ → Result (List ℕ)
  pub decompress : Compressor → ℕ → List ℕ → Result (List ℕ)

pub record Kind : Type 0 where
  pub magic : List ℕ
  pub type_endian : Endian
  pub data_endian : Endian
  pub version_major : ℕ
  pub version_minor : ℕ
  pub compressor : CompressionAction

-- deku's `to_writer` and `from_reader_with_ctx` at an unsigned type of `width` bytes.
pub record WordCodec (width : ℕ) : Type 0 where
  pub to_writer : Endian → ℕ → List ℕ
  pub from_reader : Endian → List ℕ → ℕ
  pub length-to_writer : (e : Endian) (n : ℕ) → length (to_writer e n) ≡ width
  pub from_reader-to_writer :
      (e : Endian) (n : ℕ) → n < 256 ^ width → from_reader e (to_writer e n) ≡ n

-- A compressor does its duty at these options on every input of up to `capacity` bytes: it returns
-- bytes from which the decompressor, given that much room, makes the input again.
pub record IsLossless (c : CompressionAction) (fc : FilesystemCompressor) (block_size capacity : ℕ)
    : Type 0 where
  pub packed : List ℕ → List ℕ
  pub compress_packed :
      (xs : List ℕ) → length xs ≤ capacity → c.compress fc block_size xs ≡ ok (packed xs)
  pub decompress_packed :
      (xs : List ℕ) → length xs ≤ capacity → c.decompress fc.id capacity (packed xs) ≡ ok xs
