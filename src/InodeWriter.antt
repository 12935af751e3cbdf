-- ===== src/InodeWriter.antt =====
-- Writing inodes: the constructors of `Entry` in backhand/src/entry.rs, one for each kind of node,
-- and `Inode::to_bytes` of backhand/src/inode.rs.
--
-- deku makes an inode's bytes: `inode_bytes` stands for its `to_writer`, which has none where an
-- assertion on a field fails, as on the length of a link.
pub mod Ends
use backhand.Common.{
  ℕ, ◌+◌, ◌-◌, ◌%◌, ◌^◌, ltb, leb, if◌then◌else◌, Option, none, some, List, [], length,
}
use backhand.Data.{Added, data_added, fragment_added}
use backhand.Directory.{Entry}
use backhand.Error.{Result, ok, err, panics, diverges, ◌>>=◌, ◌>>◌, assert}
use backhand.Inode.{
  InodeId, basic_directory, basic_file, basic_symlink, basic_block_device, basic_character_device,
  basic_named_pipe, basic_socket, extended_directory, InodeInner, directory, file, symlink,
  block_device, character_device, named_pipe, socket, large_directory, Inode, BasicFile,
  no_fragment,
}
use backhand.Kinds.{Kind, Endian}
use backhand.Metadata.{MetadataWriter, write_all}
use backhand.NodeHeader.{NodeHeader, OwnerId, inode_header}
use backhand.Superblock.{SuperBlock}

-- `.unwrap()` of a result
abbrev pub unwrap {ℓ} : {A : Type ℓ} → Result A → Result A
unwrap (ok a) = ok a
unwrap (err e) = panics
unwrap panics = panics
unwrap diverges = diverges

-- `.unwrap()` of bytes that deku made
abbrev pub expect {ℓ} : {A : Type ℓ} → Option A → Result A
expect none = panics
expect (some a) = ok a

-- `try_into().unwrap()` to a number of `width` bits
abbrev pub try_into : ℕ → ℕ → Result ℕ
try_into width n = do assert (ltb n (2 ^ width)); ok n

-- The inode of a file, from where its bytes went.
unfoldable pub file_inode : ℕ → Added → Result BasicFile
file_inode file_size (data_added start sizes) = do
  n ← try_into 32 file_size
  ok (record {
    blocks_start = start;
    frag_index = no_fragment;
    block_offset = 0;
    file_size = n;
    block_sizes = sizes;
  })
file_inode file_size (fragment_added index offset) = do
  n ← try_into 32 file_size
  ok (record {
    blocks_start = 0;
    frag_index = index;
    block_offset = offset;
    file_size = n;
    block_sizes = [];
  })

-- The inode of a directory whose listing has `file_size` bytes.
unfoldable pub directory_inode : ℕ → ℕ → ℕ → ℕ → ℕ → Result (InodeId × InodeInner)
directory_inode children_num parent_inode file_size block_offset block_index =
    if ltb 0xffff file_size
    then (do
      children ← try_into 32 children_num
      links ← try_into 32 (2 + children)
      n ← try_into 32 file_size
      ok (
        extended_directory,
        large_directory (record {
          link_count = links;
          file_size = n;
          block_index = block_index;
          parent_inode = parent_inode;
          index_count = 0;
          block_offset = block_offset;
          xattr_index = 0xffff_ffff;
          dir_index = [];
        }),
      ))
    else (do
      children ← try_into 32 children_num
      links ← try_into 32 (2 + children)
      n ← try_into 16 file_size
      ok (
        basic_directory,
        directory (record {
          block_index = block_index;
          link_count = links;
          file_size = n;
          block_offset = block_offset;
          parent_inode = parent_inode;
        }),
      ))

module _ (inode_bytes : Endian → ℕ → ℕ → Inode → Option (List ℕ)) (superblock : SuperBlock)
    (kind : Kind) where
  -- `Inode::to_bytes`, with the writer afterwards
  unfoldable pub to_bytes : Inode → List ℕ → MetadataWriter → Result (Entry × MetadataWriter)
  unfolding write_all
  to_bytes inode name m_writer = do
    bytes ← expect (inode_bytes kind.type_endian superblock.block_size superblock.block_log inode)
    m_writer' ← unwrap (write_all m_writer bytes)
    assert (leb 1 (length name % 2 ^ 16))
    ok (
      record {
        start = m_writer.metadata_start;
        offset = length m_writer.uncompressed_bytes % 2 ^ 16;
        inode = inode.header.inode_number;
        t = inode.id;
        name_size = length name % 2 ^ 16 - 1;
        name = name;
      },
      m_writer',
    )

  module _ (name : List ℕ) (header : NodeHeader) (inode : ℕ) (id_table : List OwnerId)
      (m_writer : MetadataWriter) where
    -- The header, then the inode, then its bytes: what all constructors do.
    unfoldable pub entry_of : Result (InodeId × InodeInner) → Result (Entry × MetadataWriter)
    unfolding inode_header to_bytes
    entry_of made = do
      h ← inode_header header inode id_table
      (id, inner) ← made
      to_bytes (record { id = id; header = h; inner = inner }) name m_writer

    -- `Entry::path`
    unfoldable pub path : ℕ → ℕ → ℕ → ℕ → ℕ → Result (Entry × MetadataWriter)
    unfolding entry_of directory_inode
    path children_num parent_inode file_size block_offset block_index =
        entry_of (directory_inode children_num parent_inode file_size block_offset block_index)

    -- `Entry::file`
    unfoldable pub file_entry : ℕ → Added → Result (Entry × MetadataWriter)
    unfolding entry_of file_inode
    file_entry file_size added =
        entry_of (file_inode file_size added >>= λ f. ok (basic_file, file f))

    -- `Entry::symlink`
    unfoldable pub symlink_entry : List ℕ → Result (Entry × MetadataWriter)
    unfolding entry_of
    symlink_entry link = entry_of (do
      n ← try_into 32 (length link)
      ok (basic_symlink, symlink (record { link_count = 1; target_size = n; target_path = link })))

    -- `Entry::char`
    unfoldable pub char : ℕ → Result (Entry × MetadataWriter)
    unfolding entry_of
    char device_number = entry_of (
        ok (
          basic_character_device,
          character_device (record { link_count = 1; device_number = device_number }),
        ))

    -- `Entry::block_device`
    unfoldable pub block_device_entry : ℕ → Result (Entry × MetadataWriter)
    unfolding entry_of
    block_device_entry device_number = entry_of (
        ok (
          basic_block_device,
          block_device (record { link_count = 1; device_number = device_number }),
        ))

    -- `Entry::named_pipe`
    unfoldable pub named_pipe_entry : Result (Entry × MetadataWriter)
    unfolding entry_of
    named_pipe_entry = entry_of (ok (basic_named_pipe, named_pipe (record { link_count = 1 })))

    -- `Entry::socket`
    unfoldable pub socket_entry : Result (Entry × MetadataWriter)
    unfolding entry_of
    socket_entry = entry_of (ok (basic_socket, socket (record { link_count = 1 })))
