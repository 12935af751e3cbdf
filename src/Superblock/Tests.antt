-- ===== src/Superblock/Tests.antt =====
-- Tests of the superblock of backhand/src/squashfs.rs.
use backhand.Common.{◌^◌, ◌==◌, ◌≤◌, ◌≡◌, ◌⊎◌, ◌↔◌, ◌||◌, refl, [], ◌∷◌, ◌++◌, arith}
use backhand.Error.{ok, err, corrupted_or_invalid_squashfs}
use backhand.Sample.{sample_superblock, sample_kind, sample_word}
use backhand.Superblock
use backhand.Superblock.{
  min_block_size, max_block_size, unused, data_has_been_deduplicated, flag_set, add_flag,
}
use backhand.Superblock.Bytes.{
  superblock_bytes, superblock_from_reader, Fits, superblock_from_reader-bytes,
}
use backhand.Superblock.Checks.{
  check_block_size, check_tables, TablesInside, check_block_size_iff, check_tables_iff,
}
use backhand.Superblock.Flags.{place, flag_set-add_flag}

check_tables_iff_example :
    ((check_tables 96 sample_superblock ≡ ok tt) ↔ TablesInside 96 sample_superblock)
    × ((check_tables 96 sample_superblock ≡ ok tt)
        ⊎ (check_tables 96 sample_superblock ≡ err corrupted_or_invalid_squashfs))
check_tables_iff_example = check_tables_iff 96 sample_superblock

check_block_size_iff_example :
    ((check_block_size sample_superblock ≡ ok tt) ↔ (
      (min_block_size ≤ sample_superblock.block_size)
      × (sample_superblock.block_size ≤ max_block_size)
      × (sample_superblock.block_size ≡ 2 ^ sample_superblock.block_log)))
    × ((check_block_size sample_superblock ≡ ok tt)
        ⊎ (check_block_size sample_superblock ≡ err corrupted_or_invalid_squashfs))
check_block_size_iff_example = check_block_size_iff sample_superblock

flag_set-add_flag_example :
    flag_set unused (add_flag data_has_been_deduplicated sample_superblock)
    ≡ ((place data_has_been_deduplicated == place unused) || flag_set unused sample_superblock)
flag_set-add_flag_example = flag_set-add_flag unused data_has_been_deduplicated sample_superblock

-- A superblock with the magic and the version of its kind, and no tables
sample-Fits : Fits sample_kind sample_superblock
unfolding Superblock.new
sample-Fits = record {
  four = refl;
  magic = refl;
  version_major = refl;
  version_minor = refl;
  inode_count_fits = omega arith;
  mod_time_fits = omega arith;
  block_size_fits = omega arith;
  frag_count_fits = omega arith;
  block_log_fits = omega arith;
  flags_fits = omega arith;
  id_count_fits = omega arith;
  version_major_fits = omega arith;
  version_minor_fits = omega arith;
  root_inode_fits = omega arith;
  bytes_used_fits = omega arith;
  id_table_fits = omega arith;
  xattr_table_fits = omega arith;
  inode_table_fits = omega arith;
  dir_table_fits = omega arith;
  frag_table_fits = omega arith;
  export_table_fits = omega arith;
}

superblock_from_reader-bytes_example :
    superblock_from_reader (sample_word 2) (sample_word 4) (sample_word 8) sample_kind (
      superblock_bytes
        (sample_word 2)
        (sample_word 4)
        (sample_word 8)
        sample_kind.type_endian
        sample_superblock
      ++ 5 ∷ [])
    ≡ ok (sample_superblock, 5 ∷ [])
superblock_from_reader-bytes_example =
    superblock_from_reader-bytes (sample_word 2) (sample_word 4) (sample_word 8) sample_kind
      sample_superblock (5 ∷ []) sample-Fits
