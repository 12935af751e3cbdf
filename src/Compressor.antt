-- ===== src/Compressor.antt =====
-- Compressor ids and their options, the data types of backhand/src/compressor.rs.
pub mod Config
pub mod Default
pub mod Laws
mod Tests
use backhand.Common.{ℕ, ◌==◌, bit_and, Bool, Option}

pub data Compressor : Type 0 where
  uncompressed gzip lzma lzo xz lz4 zstd : Compressor

pub Compressor-discrete : Discrete Compressor
Compressor-discrete = hlevel

pub record Gzip : Type 0 where
  pub compression_level : ℕ
  pub window_size : ℕ
  pub strategies : ℕ

pub record Lzo : Type 0 where
  pub algorithm : ℕ
  pub compression_level : ℕ

pub record XzFilter : Type 0 where
  pub bits : ℕ

pub x86 : XzFilter → Bool
x86 f = bit_and f.bits 0x0001 == 0x0001

pub powerpc : XzFilter → Bool
powerpc f = bit_and f.bits 0x0002 == 0x0002

pub ia64 : XzFilter → Bool
ia64 f = bit_and f.bits 0x0004 == 0x0004

pub arm : XzFilter → Bool
arm f = bit_and f.bits 0x0008 == 0x0008

pub armthumb : XzFilter → Bool
armthumb f = bit_and f.bits 0x0010 == 0x0010

pub sparc : XzFilter → Bool
sparc f = bit_and f.bits 0x0020 == 0x0020

pub record Xz : Type 0 where
  pub dictionary_size : ℕ
  pub filters : XzFilter
  pub bit_opts : Option ℕ
  pub fb : Option ℕ

pub record Lz4 : Type 0 where
  pub version : ℕ
  pub flags : ℕ

pub record Zstd : Type 0 where
  pub compression_level : ℕ

pub data CompressionOptions : Type 0 where
  gzip_options : Gzip → CompressionOptions
  lzo_options : Lzo → CompressionOptions
  xz_options : Xz → CompressionOptions
  lz4_options : Lz4 → CompressionOptions
  zstd_options : Zstd → CompressionOptions
  lzma_options : CompressionOptions
