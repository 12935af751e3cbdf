-- ===== src/Writer/Image/Ends.antt =====
-- The walk over the nodes that makes their inodes and listings, `write_inode_dir` of
-- backhand/src/filesystem/writer.rs, ends: it enters each node from one with a lesser number.
use backhand.Common.{
  Option, ℕ, zero, suc, ◌+◌, ◌-◌, ◌≤◌, ◌<◌, ◌^◌, ltb, ◌≡◌, refl, Bool-cases, inl, inr, none, List,
  [], ◌∷◌, length, get_elem?, ltb→lt, ltb→le, arith,
}
use backhand.Compressor.Config.{FilesystemCompressor}
use backhand.Directory.{Entry, Dir, into_dir}
use backhand.Directory.Bytes.{dir_bytes}
use backhand.Error.{
  Result, ok, panics, ◌>>◌, assert, through_io, Any, Ends, after-Ends, Ends->>=, and_then-Ends,
  through_io-Ends,
}
use backhand.Inode
use backhand.Inode.{
  into_base_type, Inode, InodeId, InodeInner, basic_character_device, basic_block_device,
  basic_named_pipe, basic_socket,
}
use backhand.InodeWriter.{
  try_into, file_inode, entry_of, path, file_entry, symlink_entry, char, block_device_entry,
  named_pipe_entry, socket_entry,
}
use backhand.Directory.Ends.{into_dir-Ends}
use backhand.InodeWriter.Ends.{
  try_into-Ends, file_inode-Ends, directory_inode-Ends, Kept, entry_of-Ends,
}
use backhand.Kinds.{Endian, Kind, WordCodec}
use backhand.Metadata.{MetadataWriter, write_all}
use backhand.Metadata.Ends.{IsOfKind, write_all-Ends}
use backhand.NodeHeader.{NodeHeader, OwnerId}
use backhand.Superblock.{SuperBlock}
use backhand.Tree.{
  PathBuf, parent, Node, InnerNode, file, symlink, dir, character_device, block_device, named_pipe,
  socket, inner_children_of,
}
use backhand.Writer.{SquashfsFileWriter, user_defined, squashfs_file, consumed}
use backhand.Writer.Image.{
  with_inodes, file_name, Tables, is_parent, direct_children, node, or_none, write_dirs,
  write_directory, write_leaf, write_children, write_inode_dir,
}

get_elem?-behind {ℓ} : {A : Type ℓ} (xs : List A) (i : ℕ) → length xs ≤ i → get_elem? xs i ≡ none
get_elem?-behind [] i h = refl
get_elem?-behind (x ∷ xs) zero h = absurd (omega arith)
get_elem?-behind (x ∷ xs) (suc i) h = get_elem?-behind xs i (omega arith)

module _ (kind : Kind)
    (packs : (fc : FilesystemCompressor) (b : ℕ) (bytes : List ℕ)
      → Ends Any (kind.compressor.compress fc b bytes)) where
  -- Both writers are for this kind of image.
  abbrev pub TablesOfKind : Tables → Type 0
  TablesOfKind t = IsOfKind kind packs t.inode_writer × IsOfKind kind packs t.dir_writer

  abbrev pub Done {ℓ} : {A : Type ℓ} → A × Tables → Type 0
  Done (a, t) = TablesOfKind t

  module _ (u16 : WordCodec 2) (u32 : WordCodec 4)
      (inode_bytes : Endian → ℕ → ℕ → Inode → Option (List ℕ))
      (nodes : List (Node SquashfsFileWriter)) (superblock : SuperBlock)
      (id_table : List OwnerId) where
    with_inodes-Ends :
        (t : Tables) (r : Result (Entry × MetadataWriter))
        → IsOfKind kind packs t.dir_writer
        → Ends (Kept kind packs inode_bytes superblock) r
        → Ends Done (with_inodes t r)
    with_inodes-Ends t r k h =
        Ends->>= {Y = Entry × Tables} (Kept kind packs inode_bytes superblock) Done r _ h
          (λ (e, w) _ k'. (k', k))

    write_dirs-Ends :
        (ds : List Dir) (w : MetadataWriter) (size : ℕ)
        → IsOfKind kind packs w
        → Ends
            (λ (r : MetadataWriter × ℕ). IsOfKind kind packs r.0)
            (write_dirs u16 u32 inode_bytes nodes superblock kind id_table ds w size)
    unfolding write_dirs
    write_dirs-Ends [] w size k = k
    write_dirs-Ends (d ∷ ds) w size k =
        let bytes = dir_bytes u16 u32 kind.type_endian d in
        Ends->>= {Y = MetadataWriter × ℕ} (IsOfKind kind packs)
          (λ (r : MetadataWriter × ℕ). IsOfKind kind packs r.0) (through_io (write_all w bytes)) _
          (through_io-Ends (IsOfKind kind packs) (write_all w bytes)
            (write_all-Ends kind packs w bytes k))
          (λ w' _ k'. write_dirs-Ends ds w' (size + length bytes) k')

    write_directory-Ends :
        (n : Node SquashfsFileWriter) (node_id parent_node_id : ℕ) (es : List Entry) (t : Tables)
        → TablesOfKind t
        → Ends Done (
            write_directory u16 u32 inode_bytes nodes superblock kind id_table n node_id
              parent_node_id es t)
    unfolding write_directory path
    write_directory-Ends n node_id parent_node_id es t k =
        Ends->>= {Y = Entry × Tables} Any Done (into_dir es) _ (into_dir-Ends es) (λ dirs _ _.
          Ends->>= {Y = Entry × Tables} (λ (r : MetadataWriter × ℕ). IsOfKind kind packs r.0) Done
            (write_dirs u16 u32 inode_bytes nodes superblock kind id_table dirs t.dir_writer 3) _
            (write_dirs-Ends dirs t.dir_writer 3 k.1)
            (λ (w, size) _ k'. after-Ends Done (ltb node_id (2 ^ 32)) _ (
              with_inodes-Ends (record t { dir_writer = w }) _ k'
                (entry_of-Ends kind packs inode_bytes superblock (file_name n.fullpath) n.header
                  node_id id_table t.inode_writer _ k.0
                  (directory_inode-Ends (length es) parent_node_id size _ _)))))

    -- An inode that is made of what `made` gives, and put in the tables.
    leaf-Ends :
        (name : List ℕ) (h : NodeHeader) (node_id : ℕ) (t : Tables)
        (made : Result (InodeId × InodeInner))
        → TablesOfKind t
        → Ends Any made
        → Ends Done (
            assert (ltb node_id (2 ^ 32))
            >> with_inodes t
                (entry_of inode_bytes superblock kind name h node_id id_table t.inode_writer made))
    leaf-Ends name h node_id t made k m = after-Ends Done (ltb node_id (2 ^ 32)) _ (
        with_inodes-Ends t _ k.1 (
          entry_of-Ends kind packs inode_bytes superblock name h node_id id_table t.inode_writer
            made k.0 m))

    write_leaf-Ends :
        (n : Node SquashfsFileWriter) (node_id : ℕ) (t : Tables)
        (directory : Result (Entry × Tables)) (inner : InnerNode SquashfsFileWriter)
        → TablesOfKind t
        → Ends Done directory
        → Ends Done (
            write_leaf u16 u32 inode_bytes nodes superblock kind id_table n node_id t directory
              inner)
    unfolding write_leaf file_entry symlink_entry char block_device_entry named_pipe_entry
        socket_entry
    write_leaf-Ends n node_id t directory (file (consumed size added)) k h =
        leaf-Ends (file_name n.fullpath) n.header node_id t _ k (
          and_then-Ends {Y = InodeId × InodeInner} (file_inode size added) _
            (file_inode-Ends size added) (λ _ _. tt))
    write_leaf-Ends n node_id t directory (file (user_defined events)) k h = tt
    write_leaf-Ends n node_id t directory (file (squashfs_file handle)) k h = tt
    write_leaf-Ends n node_id t directory (symlink link) k h =
        leaf-Ends (file_name n.fullpath) n.header node_id t _ k (
          and_then-Ends {Y = InodeId × InodeInner} (try_into 32 (length link)) _
            (try_into-Ends 32 (length link)) (λ _ _. tt))
    write_leaf-Ends n node_id t directory (character_device number) k h =
        leaf-Ends (file_name n.fullpath) n.header node_id t
          (ok (
            basic_character_device,
            Inode.character_device (record { link_count = 1; device_number = number }),
          ))
          k tt
    write_leaf-Ends n node_id t directory (block_device number) k h =
        leaf-Ends (file_name n.fullpath) n.header node_id t
          (ok (
            basic_block_device,
            Inode.block_device (record { link_count = 1; device_number = number }),
          ))
          k tt
    write_leaf-Ends n node_id t directory named_pipe k h =
        leaf-Ends (file_name n.fullpath) n.header node_id t
          (ok (basic_named_pipe, Inode.named_pipe (record { link_count = 1 }))) k tt
    write_leaf-Ends n node_id t directory socket k h =
        leaf-Ends (file_name n.fullpath) n.header node_id t
          (ok (basic_socket, Inode.socket (record { link_count = 1 }))) k tt
    write_leaf-Ends n node_id t directory dir k h = h

    -- All numbers of a directory's children are greater than its own.
    abbrev From : ℕ → List ℕ → Type 0
    From first [] = Unit
    From first (i ∷ is) = (first ≤ i) × From first is

    From-weaken : (a b : ℕ) (is : List ℕ) → a ≤ b → From b is → From a is
    From-weaken a b [] h f = tt
    From-weaken a b (i ∷ is) h f = (omega arith, From-weaken a b is h f.1)

    direct_children-From :
        (p : PathBuf) (first : ℕ) (ns : List (Node SquashfsFileWriter))
        → From first (direct_children p first ns)
    unfolding direct_children
    direct_children-From p first [] = tt
    direct_children-From p first (n ∷ ns) =
        let rest =
          From-weaken first (suc first) (direct_children p (suc first) ns) (omega arith)
            (direct_children-From p (suc first) ns) in
        elim (Bool-cases (is_parent p (parent n.fullpath))) [
          | inl h ↦ rw (h, direct_children) (omega arith, rest)
          | inr h ↦ rw (h, direct_children) rest
        ]

    write_children-Ends :
        (write_child : ℕ → Tables → Result (Entry × Tables)) (first : ℕ) (is : List ℕ) (t : Tables)
        → ((i : ℕ) (t : Tables) → first ≤ i → TablesOfKind t → Ends Done (write_child i t))
        → From first is
        → TablesOfKind t
        → Ends Done
            (write_children u16 u32 inode_bytes nodes superblock kind id_table write_child is t)
    unfolding write_children
    write_children-Ends write_child first [] t each f k = k
    write_children-Ends write_child first (i ∷ is) t each f k =
        Ends->>= {Y = List Entry × Tables} Done Done (write_child i t) _ (each i t f.0 k)
          (λ (e, t') _ k'.
            Ends->>= {Y = List Entry × Tables} Done Done
              (write_children u16 u32 inode_bytes nodes superblock kind id_table write_child is t')
              _ (write_children-Ends write_child first is t' each f.1 k') (λ _ _ k''. k''))

    -- A node that is not there is a panic.
    node-behind : (i : ℕ) → length nodes < i → node i nodes ≡ panics
    unfolding node
    node-behind i h = rw (get_elem?-behind nodes (i - 1) (omega arith), node) refl

    node-Ends : (i : ℕ) → Ends Any (node i nodes)
    unfolding node
    node-Ends i = ground arith

    -- If the compressor ends on all bytes and both writers are for its kind of image, write_inode_dir
    -- ends for every node and parent, with more rounds of fuel than there are nodes from that one on,
    -- and at least one; where it returns a value, both writers are still for that kind of image.
    pub write_inode_dir-Ends :
        (fuel parent_node_id node_id : ℕ) (t : Tables)
        → length nodes + 1 < fuel + node_id
        → 0 < fuel
        → TablesOfKind t
        → Ends Done (
            write_inode_dir u16 u32 inode_bytes nodes superblock kind id_table fuel parent_node_id
              node_id t)
    unfolding write_inode_dir
    write_inode_dir-Ends zero parent_node_id node_id t enough positive k = absurd (omega arith)
    write_inode_dir-Ends (suc fuel) parent_node_id node_id t enough positive k =
        elim (Bool-cases (ltb (length nodes) node_id)) [
          | inl h ↦ rw (node-behind node_id (ltb→lt (length nodes) node_id h), write_inode_dir) tt
          | inr h ↦
              Ends->>= {Y = Entry × Tables} Any Done (node node_id nodes) _ (node-Ends node_id)
                (λ n _ _.
                  let below =
                    direct_children n.fullpath (suc node_id)
                      (or_none (inner_children_of (node_id - 1) nodes)) in
                  let here = ltb→le (length nodes) node_id h in
                  write_leaf-Ends n node_id t _ n.inner k (
                    Ends->>= {Y = Entry × Tables} Done Done
                      (write_children u16 u32 inode_bytes nodes superblock kind id_table
                        (write_inode_dir u16 u32 inode_bytes nodes superblock kind id_table fuel
                          node_id)
                        below t)
                      _
                      (write_children-Ends _ (suc node_id) below t
                        (λ i t' less k'.
                          write_inode_dir-Ends fuel node_id i t' (omega arith) (omega arith) k')
                        (direct_children-From n.fullpath (suc node_id) _) k)
                      (λ (es, t') _ k'. write_directory-Ends n node_id parent_node_id es t' k')))
        ]
