-- ===== src/Superblock/Flags.antt =====
-- Flags of the superblock of backhand/src/squashfs.rs: setting one sets that one and no other.
use backhand.Common.{
  ℕ, ◌^◌, ◌==◌, ◌≡◌, inl, inr, refl, bit_and, false, ◌||◌, Bool-cases, arith, bit_and-bit_or,
  le-bit_or, bit_and_pow_self, bit_and_pow_ne, bit_or-zero,
}
use backhand.Superblock.{
  SuperBlock, Flag, inodes_stored_uncompressed, data_block_stored_uncompressed, unused,
  fragments_stored_uncompressed, fragments_are_not_used, fragments_are_always_generated,
  data_has_been_deduplicated, nfs_export_table_exists, xattrs_are_stored_uncompressed,
  no_xattrs_in_archive, compressor_options_are_present, flag_bits, flag_set, add_flag,
}

-- The place of a flag's bit.
pub place : Flag → ℕ
place inodes_stored_uncompressed = 0
place data_block_stored_uncompressed = 1
place unused = 2
place fragments_stored_uncompressed = 3
place fragments_are_not_used = 4
place fragments_are_always_generated = 5
place data_has_been_deduplicated = 6
place nfs_export_table_exists = 7
place xattrs_are_stored_uncompressed = 8
place no_xattrs_in_archive = 9
place compressor_options_are_present = 10

flag_bits_pow : (f : Flag) → flag_bits f ≡ 2 ^ place f
unfolding flag_bits place
flag_bits_pow inodes_stored_uncompressed = refl
flag_bits_pow _ = refl

flag_bits_pos : (f : Flag) → (flag_bits f == 0) ≡ false
unfolding flag_bits
flag_bits_pos inodes_stored_uncompressed = refl
flag_bits_pos _ = refl

-- Reading any flag after setting one: the flag that was set reads as set, and every other flag
-- reads as before.
pub flag_set-add_flag :
    (f g : Flag) (s : SuperBlock)
    → flag_set f (add_flag g s) ≡ ((place g == place f) || flag_set f s)
unfolding flag_set add_flag
flag_set-add_flag f g s = elim (Bool-cases (place g == place f)) [
  | inl same ↦ ground (
    arith,
    bit_and-bit_or s.flags (flag_bits g) (flag_bits f),
    le-bit_or (bit_and s.flags (flag_bits f)) (bit_and (flag_bits g) (flag_bits f)),
    bit_and_pow_self (place f),
    flag_bits_pow f,
    flag_bits_pow g,
    flag_bits_pos f,
  )
  | inr differ ↦ ground (
    arith,
    bit_and-bit_or s.flags (flag_bits g) (flag_bits f),
    bit_and_pow_ne (place g) (place f) (λ e. ground (arith, e)),
    bit_or-zero (bit_and s.flags (flag_bits f)),
    flag_bits_pow f,
    flag_bits_pow g,
  )
]
