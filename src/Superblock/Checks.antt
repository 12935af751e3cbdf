-- ===== src/Superblock/Checks.antt =====
-- The checks on a superblock that has been read, backhand/src/squashfs.rs: the block size, and that
-- every table lies inside the image.
use backhand.Common.{
  ℕ, ◌-◌, ◌^◌, ◌≤◌, ◌==◌, ◌≡◌, ◌⊎◌, ◌↔◌, bit_and_pow_pred, leb, bit_and, Bool, not, ◌&&◌, ◌||◌,
  arith,
}
use backhand.Error.{Result, ok, err, ◌>>◌, require, corrupted_or_invalid_squashfs}
use backhand.Superblock.{SuperBlock, min_block_size, max_block_size, not_set}

power_of_two : ℕ → Bool
power_of_two n = not (n == 0) && (bit_and n (n - 1) == 0)

-- The test in `superblock_and_compression_options`. The logarithm, which the source takes in `f32`,
-- is exact at a power of two, and no other size gets so far: it is compared by the power.
unfoldable pub check_block_size : SuperBlock → Result (Unit {0})
unfolding power_of_two
check_block_size s = do
  require
      (leb min_block_size s.block_size
        && leb s.block_size max_block_size
        && power_of_two s.block_size)
      corrupted_or_invalid_squashfs
  require (s.block_size == 2 ^ s.block_log) corrupted_or_invalid_squashfs

inside : ℕ → ℕ → Bool
inside total_length position = leb position total_length

absent_or_inside : ℕ → ℕ → Bool
absent_or_inside total_length position = position == not_set || leb position total_length

-- The tests in `inner_from_reader_with_offset_and_kind`, in the order of the source.
unfoldable pub check_tables : ℕ → SuperBlock → Result (Unit {0})
unfolding inside absent_or_inside
check_tables total_length s = do
  require (inside total_length s.bytes_used) corrupted_or_invalid_squashfs
  require (inside total_length s.id_table) corrupted_or_invalid_squashfs
  require (inside total_length s.inode_table) corrupted_or_invalid_squashfs
  require (inside total_length s.dir_table) corrupted_or_invalid_squashfs
  require (absent_or_inside total_length s.xattr_table) corrupted_or_invalid_squashfs
  require (absent_or_inside total_length s.frag_table) corrupted_or_invalid_squashfs
  require (absent_or_inside total_length s.export_table) corrupted_or_invalid_squashfs

abbrev pub AbsentOrInside : ℕ → ℕ → Type 0
AbsentOrInside total_length position = (position ≡ not_set) ⊎ (position ≤ total_length)

pub record TablesInside (total_length : ℕ) (s : SuperBlock) : Type 0 where
  pub used : s.bytes_used ≤ total_length
  pub ids : s.id_table ≤ total_length
  pub inodes : s.inode_table ≤ total_length
  pub dirs : s.dir_table ≤ total_length
  pub xattrs : AbsentOrInside total_length s.xattr_table
  pub frags : AbsentOrInside total_length s.frag_table
  pub exports : AbsentOrInside total_length s.export_table

-- The table checks pass exactly when the bytes used are no more than the image has, and the places
-- of the ids, inodes and directories, and of those of the other three tables that are set, are no
-- greater than its length, which itself is let through; else the result is the one error, never
-- another outcome.
pub check_tables_iff :
    (n : ℕ) (s : SuperBlock)
    → ((check_tables n s ≡ ok tt) ↔ TablesInside n s)
      × ((check_tables n s ≡ ok tt) ⊎ (check_tables n s ≡ err corrupted_or_invalid_squashfs))
unfolding check_tables
check_tables_iff n s = ((λ h. ground arith, λ h. ground arith), ground arith)

-- The block size check passes exactly for a power of two from 4 KiB to 1 MiB whose logarithm is
-- the one that the superblock states; else the result is the one error.
pub check_block_size_iff :
    (s : SuperBlock)
    → ((check_block_size s ≡ ok tt) ↔ (
        (min_block_size ≤ s.block_size)
        × (s.block_size ≤ max_block_size)
        × (s.block_size ≡ 2 ^ s.block_log)))
      × ((check_block_size s ≡ ok tt) ⊎ (check_block_size s ≡ err corrupted_or_invalid_squashfs))
unfolding check_block_size
check_block_size_iff s =
    ((λ h. ground arith, λ h. ground (arith, bit_and_pow_pred s.block_log)), ground arith)
