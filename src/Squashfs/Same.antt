-- ===== src/Squashfs/Same.antt =====
-- The equality of inodes that backhand/src/inode.rs derives, field by field.
use backhand.Common.{same_bytes, ℕ, Bool, List, [], ◌∷◌, length, map, concat}
use backhand.DataSize.{DataSize}
use backhand.Directory.Bytes.{inode_id_number}
use backhand.Inode
use backhand.Inode.{Inode, InodeInner, InodeHeader, DirectoryIndex}

-- The fields of a value in their order, each list behind its length, and each variant behind its
-- number.
abbrev index_fields : DirectoryIndex → List ℕ
index_fields d = d.index ∷ d.start ∷ d.name_size ∷ length d.name ∷ d.name

abbrev sizes_fields : List DataSize → List ℕ
sizes_fields sizes = length sizes ∷ map (λ (d : DataSize). d.bits) sizes

unfoldable pub inner_fields : InodeInner → List ℕ
inner_fields (Inode.directory d) =
    0 ∷ d.block_index ∷ d.link_count ∷ d.file_size ∷ d.block_offset ∷ d.parent_inode ∷ []
inner_fields (Inode.file f) =
    1 ∷ f.blocks_start ∷ f.frag_index ∷ f.block_offset ∷ f.file_size ∷ sizes_fields f.block_sizes
inner_fields (Inode.symlink l) = 2 ∷ l.link_count ∷ l.target_size ∷ l.target_path
inner_fields (Inode.block_device b) = 3 ∷ b.link_count ∷ b.device_number ∷ []
inner_fields (Inode.character_device c) = 4 ∷ c.link_count ∷ c.device_number ∷ []
inner_fields (Inode.named_pipe p) = 5 ∷ p.link_count ∷ []
inner_fields (Inode.socket s) = 6 ∷ s.link_count ∷ []
inner_fields (Inode.large_directory d) =
    7
    ∷ d.link_count
    ∷ d.file_size
    ∷ d.block_index
    ∷ d.parent_inode
    ∷ d.index_count
    ∷ d.block_offset
    ∷ d.xattr_index
    ∷ length d.dir_index
    ∷ concat (map index_fields d.dir_index)
inner_fields (Inode.large_file f) =
    8
    ∷ f.blocks_start
    ∷ f.file_size
    ∷ f.sparse
    ∷ f.link_count
    ∷ f.frag_index
    ∷ f.block_offset
    ∷ f.xattr_index
    ∷ sizes_fields f.block_sizes

unfoldable pub inode_fields : Inode → List ℕ
inode_fields i =
    inode_id_number i.id
    ∷ i.header.permissions
    ∷ i.header.uid
    ∷ i.header.gid
    ∷ i.header.mtime
    ∷ i.header.inode_number
    ∷ inner_fields i.inner

-- `found_inode == dir_inode`
unfoldable pub same_inode : Inode → Inode → Bool
same_inode a b = same_bytes (inode_fields a) (inode_fields b)
