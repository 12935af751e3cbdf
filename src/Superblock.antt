-- ===== src/Superblock.antt =====
-- The superblock of backhand/src/squashfs.rs: its fields, its flags, and the checks that an image
-- passes before anything else of it is read.
pub mod Bytes
pub mod Flags
pub mod Checks
mod Tests
use backhand.Common.{ℕ, ◌==◌, bit_and, bit_or, Bool, not, List}
use backhand.Compressor.{Compressor}
use backhand.Kinds.{Kind}

abbrev pub default_block_size : ℕ
default_block_size = 0x2_0000

abbrev pub default_pad_len : ℕ
default_pad_len = 0x1000

abbrev pub default_block_log : ℕ
default_block_log = 0x11

abbrev pub max_block_size : ℕ
max_block_size = 0x10_0000

abbrev pub min_block_size : ℕ
min_block_size = 0x1000

abbrev pub not_set : ℕ
not_set = 0xffff_ffff_ffff_ffff

pub record SuperBlock : Type 0 where
  pub magic : List ℕ
  pub inode_count : ℕ
  pub mod_time : ℕ
  pub block_size : ℕ
  pub frag_count : ℕ
  pub compressor : Compressor
  pub block_log : ℕ
  pub flags : ℕ
  pub id_count : ℕ
  pub version_major : ℕ
  pub version_minor : ℕ
  pub root_inode : ℕ
  pub bytes_used : ℕ
  pub id_table : ℕ
  pub xattr_table : ℕ
  pub inode_table : ℕ
  pub dir_table : ℕ
  pub frag_table : ℕ
  pub export_table : ℕ

-- `SuperBlock::new`
unfoldable pub new : Compressor → Kind → SuperBlock
new c kind = record {
  magic = kind.magic;
  inode_count = 0;
  mod_time = 0;
  block_size = default_block_size;
  frag_count = 0;
  compressor = c;
  block_log = default_block_log;
  flags = 0;
  id_count = 0;
  version_major = kind.version_major;
  version_minor = kind.version_minor;
  root_inode = 0;
  bytes_used = 0;
  id_table = 0;
  xattr_table = not_set;
  inode_table = 0;
  dir_table = 0;
  frag_table = not_set;
  export_table = not_set;
}

pub data Flag : Type 0 where
  inodes_stored_uncompressed data_block_stored_uncompressed unused : Flag
  fragments_stored_uncompressed fragments_are_not_used fragments_are_always_generated : Flag
  data_has_been_deduplicated nfs_export_table_exists xattrs_are_stored_uncompressed : Flag
  no_xattrs_in_archive compressor_options_are_present : Flag

-- `Flags::… as u16`
unfoldable pub flag_bits : Flag → ℕ
flag_bits inodes_stored_uncompressed = 0b0000_0000_0000_0001
flag_bits data_block_stored_uncompressed = 0b0000_0000_0000_0010
flag_bits unused = 0b0000_0000_0000_0100
flag_bits fragments_stored_uncompressed = 0b0000_0000_0000_1000
flag_bits fragments_are_not_used = 0b0000_0000_0001_0000
flag_bits fragments_are_always_generated = 0b0000_0000_0010_0000
flag_bits data_has_been_deduplicated = 0b0000_0000_0100_0000
flag_bits nfs_export_table_exists = 0b0000_0000_1000_0000
flag_bits xattrs_are_stored_uncompressed = 0b0000_0001_0000_0000
flag_bits no_xattrs_in_archive = 0b0000_0010_0000_0000
flag_bits compressor_options_are_present = 0b0000_0100_0000_0000

-- The ten methods that read one flag each.
unfoldable pub flag_set : Flag → SuperBlock → Bool
unfolding flag_bits
flag_set f s = not (bit_and s.flags (flag_bits f) == 0)

-- `flags |= … as u16`
unfoldable pub add_flag : Flag → SuperBlock → SuperBlock
unfolding flag_bits
add_flag f s = record s { flags = bit_or s.flags (flag_bits f) }
