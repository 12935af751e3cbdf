-- ===== src/Inode.antt =====
-- Index nodes, backhand/src/inode.rs and the header types of backhand/src/dir.rs: the data that an
-- image keeps for a file, a directory, a link, a device, a pipe or a socket.
use backhand.Common.{ℕ, ◌+◌, ◌-◌, ◌/◌, ◌^◌, ◌==◌, if◌then◌else◌, List}
use backhand.DataSize.{DataSize}

pub data InodeId : Type 0 where
  basic_directory basic_file basic_symlink basic_block_device basic_character_device : InodeId
  basic_named_pipe basic_socket extended_directory extended_file : InodeId

unfoldable pub into_base_type : InodeId → InodeId
into_base_type extended_directory = basic_directory
into_base_type extended_file = basic_file
into_base_type t = t

pub record InodeHeader : Type 0 where
  pub permissions : ℕ
  pub uid : ℕ
  pub gid : ℕ
  pub mtime : ℕ
  pub inode_number : ℕ

pub record DirectoryIndex : Type 0 where
  pub index : ℕ
  pub start : ℕ
  pub name_size : ℕ
  pub name : List ℕ

pub record BasicDirectory : Type 0 where
  pub block_index : ℕ
  pub link_count : ℕ
  pub file_size : ℕ
  pub block_offset : ℕ
  pub parent_inode : ℕ

pub record ExtendedDirectory : Type 0 where
  pub link_count : ℕ
  pub file_size : ℕ
  pub block_index : ℕ
  pub parent_inode : ℕ
  pub index_count : ℕ
  pub block_offset : ℕ
  pub xattr_index : ℕ
  pub dir_index : List DirectoryIndex

pub record BasicFile : Type 0 where
  pub blocks_start : ℕ
  pub frag_index : ℕ
  pub block_offset : ℕ
  pub file_size : ℕ
  pub block_sizes : List DataSize

pub record ExtendedFile : Type 0 where
  pub blocks_start : ℕ
  pub file_size : ℕ
  pub sparse : ℕ
  pub link_count : ℕ
  pub frag_index : ℕ
  pub block_offset : ℕ
  pub xattr_index : ℕ
  pub block_sizes : List DataSize

pub record BasicSymlink : Type 0 where
  pub link_count : ℕ
  pub target_size : ℕ
  pub target_path : List ℕ

pub record BasicDeviceSpecialFile : Type 0 where
  pub link_count : ℕ
  pub device_number : ℕ

pub record IpcNode : Type 0 where
  pub link_count : ℕ

-- Two constructors carry the name of their payload's type in the source.
pub data InodeInner : Type 0 where
  directory : BasicDirectory → InodeInner
  file : BasicFile → InodeInner
  symlink : BasicSymlink → InodeInner
  block_device : BasicDeviceSpecialFile → InodeInner
  character_device : BasicDeviceSpecialFile → InodeInner
  named_pipe : IpcNode → InodeInner
  socket : IpcNode → InodeInner
  large_directory : ExtendedDirectory → InodeInner
  large_file : ExtendedFile → InodeInner

pub record Inode : Type 0 where
  pub id : InodeId
  pub header : InodeHeader
  pub inner : InodeInner

abbrev pub no_fragment : ℕ
no_fragment = 0xffff_ffff

-- How many size words follow a file's inode. `>> block_log` is division by `2 ^ block_log`.
unfoldable pub block_count : ℕ → ℕ → ℕ → ℕ → ℕ
block_count block_size block_log fragment file_size =
    if fragment == no_fragment
    then (file_size + block_size - 1) / 2 ^ block_log
    else file_size / 2 ^ block_log
