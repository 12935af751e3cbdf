-- ===== src/DataSize.antt =====
-- The size word of a data block, `DataSize` of backhand/src/data.rs: a length, and one bit that
-- says that the block is stored as it is.
pub mod Create
pub mod Bit
mod Tests
use backhand.Common.{ℕ, ◌==◌, bit_and, bit_or, Bool, not}

-- `1 << 24`
abbrev pub data_stored_uncompressed : ℕ
data_stored_uncompressed = 0x100_0000

-- `!DATA_STORED_UNCOMPRESSED` at 32 bits
abbrev pub not_data_stored_uncompressed : ℕ
not_data_stored_uncompressed = 0xfeff_ffff

pub record DataSize : Type 0 where
  pub bits : ℕ

unfoldable pub uncompressed : DataSize → Bool
uncompressed d = not (bit_and d.bits data_stored_uncompressed == 0)

unfoldable pub set_uncompressed : DataSize → DataSize
set_uncompressed d = record { bits = bit_or d.bits data_stored_uncompressed }

unfoldable pub set_compressed : DataSize → DataSize
set_compressed d = record { bits = bit_and d.bits not_data_stored_uncompressed }

unfoldable pub size : DataSize → ℕ
size d = bit_and d.bits not_data_stored_uncompressed
