-- ===== src/Writer/Image.antt =====
-- Writing an image, `write_inode_dir` and `write` of backhand/src/filesystem/writer.rs: the files' data,
-- then an inode for each node and a listing for each directory, then the tables and the superblock.
pub mod Ends
use backhand.Common.{
  ℕ, zero, suc, ◌+◌, ◌-◌, ◌*◌, ◌%◌, ◌^◌, ltb, if◌then◌else◌, Bool, true, false, Option, none, some,
  List, [], ◌∷◌, ◌++◌, length, get_elem?, replicate,
}
use backhand.Compressor.Config.{FilesystemCompressor}
use backhand.Data
use backhand.Data.{Fragment}
use backhand.Directory.{Entry, Dir, into_dir}
use backhand.Directory.Bytes.{dir_bytes}
use backhand.Error.{Result, ok, err, panics, diverges, ◌>>=◌, ◌>>◌, assert, through_io}
use backhand.ImageReader.{Element}
use backhand.Inode.{Inode}
use backhand.InodeWriter.{
  path, file_entry, symlink_entry, char, block_device_entry, named_pipe_entry, socket_entry,
}
use backhand.Kinds.{Endian, Kind, WordCodec}
use backhand.Metadata
use backhand.Metadata.{MetadataWriter, write_all}
use backhand.NodeHeader.{OwnerId}
use backhand.Superblock
use backhand.Superblock.{SuperBlock, add_flag, data_has_been_deduplicated}
use backhand.Superblock.Bytes.{superblock_bytes}
use backhand.Tree.{
  Name, PathBuf, parent, cmp, less, equal, greater, InnerNode, file, symlink, dir, character_device,
  block_device, named_pipe, socket, Node, inner_children_of,
}
use backhand.Writer.{SquashfsFileWriter, consumed, FilesystemWriter, finalize}
use backhand.Writer.Files.{write_data}
use backhand.Writer.Lookup.{write_lookup_table}

-- The two metadata writers, of inodes and of directories
pub record Tables : Type 0 where
  pub inode_writer : MetadataWriter
  pub dir_writer : MetadataWriter

-- `fullpath.file_name().unwrap_or("/")`
unfoldable pub file_name : PathBuf → Name
file_name [] = b'/' ∷ []
file_name (c ∷ []) = c
file_name (c ∷ d ∷ cs) = file_name (d ∷ cs)

unfoldable pub is_parent : PathBuf → Option PathBuf → Bool
is_parent p none = false
is_parent p (some q) = elim (cmp q p) [ less ↦ false | equal ↦ true | greater ↦ false ]

-- The numbers of those nodes that stand right in a directory. Node `first` is the first of the list.
unfoldable pub direct_children : PathBuf → ℕ → List (Node SquashfsFileWriter) → List ℕ
unfolding is_parent
direct_children p first [] = []
direct_children p first (n ∷ ns) =
    let rest = direct_children p (suc first) ns in
    if is_parent p (parent n.fullpath) then first ∷ rest else rest

-- `self.root.node(node_id).unwrap()`, by a number from 1 on
unfoldable pub node : ℕ → List (Node SquashfsFileWriter) → Result (Node SquashfsFileWriter)
node node_id nodes = elim (get_elem? nodes (node_id - 1)) [ none ↦ panics | some n ↦ ok n ]

-- `.unwrap_or(&[])` of the nodes below a node
abbrev pub or_none : Result (List (Node SquashfsFileWriter)) → List (Node SquashfsFileWriter)
or_none (ok ns) = ns
or_none (err e) = []
or_none panics = []
or_none diverges = []

abbrev pub with_inodes : Tables → Result (Entry × MetadataWriter) → Result (Entry × Tables)
with_inodes t r =
    r >>= λ (entry, inode_writer'). ok (entry, record t { inode_writer = inode_writer' })

module _ (u16 : WordCodec 2) (u32 : WordCodec 4)
    (inode_bytes : Endian → ℕ → ℕ → Inode → Option (List ℕ))
    (nodes : List (Node SquashfsFileWriter)) (superblock : SuperBlock) (kind : Kind)
    (id_table : List OwnerId) where
  -- The loop over the `Dir`s of a listing: the directories' writer and the size afterwards
  unfoldable pub write_dirs : List Dir → MetadataWriter → ℕ → Result (MetadataWriter × ℕ)
  write_dirs [] dir_writer total_size = ok (dir_writer, total_size)
  write_dirs (d ∷ ds) dir_writer total_size =
      let bytes = dir_bytes u16 u32 kind.type_endian d in
      through_io (write_all dir_writer bytes) >>= λ dir_writer'.
      write_dirs ds dir_writer' (total_size + length bytes)

  -- The end of `write_inode_dir` for a directory: its listing, and then its own inode.
  unfoldable pub write_directory :
      Node SquashfsFileWriter → ℕ → ℕ → List Entry → Tables → Result (Entry × Tables)
  write_directory n node_id parent_node_id entries t = do
    let block_index = t.dir_writer.metadata_start
    let block_offset = length t.dir_writer.uncompressed_bytes % 2 ^ 16
    dirs ← into_dir entries
    (dir_writer, total_size) ← write_dirs dirs t.dir_writer 3
    assert (ltb node_id (2 ^ 32))
    with_inodes (record t { dir_writer = dir_writer })
        (path inode_bytes superblock kind (file_name n.fullpath) n.header node_id id_table
          t.inode_writer (length entries) parent_node_id total_size block_offset block_index)

  -- What a node that is no directory adds.
  unfoldable pub write_leaf :
      Node SquashfsFileWriter
      → ℕ
      → Tables
      → Result (Entry × Tables)
      → InnerNode SquashfsFileWriter
      → Result (Entry × Tables)
  write_leaf n node_id t directory (file (consumed filesize added)) =
      assert (ltb node_id (2 ^ 32))
      >> with_inodes t (
          file_entry inode_bytes superblock kind (file_name n.fullpath) n.header node_id id_table
            t.inode_writer filesize added)
  write_leaf n node_id t directory (file f) = panics
  write_leaf n node_id t directory (symlink link) =
      assert (ltb node_id (2 ^ 32))
      >> with_inodes t (
          symlink_entry inode_bytes superblock kind (file_name n.fullpath) n.header node_id id_table
            t.inode_writer link)
  write_leaf n node_id t directory (character_device number) =
      assert (ltb node_id (2 ^ 32))
      >> with_inodes t (
          char inode_bytes superblock kind (file_name n.fullpath) n.header node_id id_table
            t.inode_writer number)
  write_leaf n node_id t directory (block_device number) =
      assert (ltb node_id (2 ^ 32))
      >> with_inodes t (
          block_device_entry inode_bytes superblock kind (file_name n.fullpath) n.header node_id
            id_table t.inode_writer number)
  write_leaf n node_id t directory named_pipe =
      assert (ltb node_id (2 ^ 32))
      >> with_inodes t (
          named_pipe_entry inode_bytes superblock kind (file_name n.fullpath) n.header node_id
            id_table t.inode_writer)
  write_leaf n node_id t directory socket =
      assert (ltb node_id (2 ^ 32))
      >> with_inodes t (
          socket_entry inode_bytes superblock kind (file_name n.fullpath) n.header node_id id_table
            t.inode_writer)
  write_leaf n node_id t directory dir = directory

  -- The entries of a directory's children, by what writes one of them
  unfoldable pub write_children :
      (ℕ → Tables → Result (Entry × Tables)) → List ℕ → Tables → Result (List Entry × Tables)
  write_children write_child [] t = ok ([], t)
  write_children write_child (child_id ∷ others) t = write_child child_id t >>= λ (entry, t').
      write_children write_child others t' >>= λ (entries, t''). ok (entry ∷ entries, t'')

  -- `write_inode_dir`. A child's number is greater than that of its directory, so that the number of
  -- nodes is fuel enough.
  unfoldable pub write_inode_dir : ℕ → ℕ → ℕ → Tables → Result (Entry × Tables)
  write_inode_dir zero parent_node_id node_id t = diverges
  write_inode_dir (suc fuel) parent_node_id node_id t = node node_id nodes >>= λ n.
      write_leaf n node_id t
        (write_children (write_inode_dir fuel node_id)
            (direct_children n.fullpath (suc node_id)
              (or_none (inner_children_of (node_id - 1) nodes)))
            t
          >>= λ (entries, t'). write_directory n node_id parent_node_id entries t')
        n.inner

-- The third method of `CompressionAction`: the options to be stored, with their flag.
abbrev pub Options : Type 0
Options = SuperBlock → Kind → FilesystemCompressor → Result (SuperBlock × List ℕ)

module _ (u16 : WordCodec 2) (u32 : WordCodec 4) (u64 : WordCodec 8)
    (inode_bytes : Endian → ℕ → ℕ → Inode → Option (List ℕ)) (fragment : Element Fragment 16)
    (id : Element OwnerId 4) (xxh64 : List ℕ → ℕ) (compression_options : Options) where
  -- The superblock, and an output that has room for it
  unfoldable pub begin_image : FilesystemWriter → Result (SuperBlock × List ℕ)
  begin_image w = do
    let s = Superblock.new w.fs_compressor.id w.kind
    let s' = if w.no_duplicate_files then add_flag data_has_been_deduplicated s else s
    let out : List ℕ = replicate 96 0
    if w.emit_compression_options
        then (do
          (s'', options) ← compression_options s' w.kind w.fs_compressor
          ok (s'', out ++ options))
        else ok (s', out)

  -- The tables behind the data, in the order of the source. `root_inode` is the start of the root's
  -- inode shifted by 16 bits, and its offset in them.
  unfoldable pub write_tables :
      FilesystemWriter
      → SuperBlock
      → Entry
      → Tables
      → List Fragment
      → List ℕ
      → Result (SuperBlock × List ℕ)
  write_tables w superblock root t fragment_table out = do
    assert (ltb (length w.root) (2 ^ 32))
    let inode_table = length out
    (inode_writer, out) ← Metadata.finalize u16 t.inode_writer out
    let dir_table = length out
    (dir_writer, out) ← Metadata.finalize u16 t.dir_writer out
    let ((frag_table, frag_count), out) =
        write_lookup_table u16 fragment u64 w.kind fragment_table 16 out
    let ((id_position, id_count), out) = write_lookup_table u16 id u64 w.kind w.id_table 4 out
    assert (ltb id_count (2 ^ 16))
    ok (
      record superblock {
        root_inode = root.start * 2 ^ 16 + root.offset % 2 ^ 16;
        inode_count = length w.root;
        block_size = w.block_size;
        block_log = w.block_log;
        mod_time = w.mod_time;
        inode_table = inode_table;
        dir_table = dir_table;
        frag_table = frag_table;
        frag_count = frag_count;
        id_table = id_position;
        id_count = id_count;
      },
      out,
    )

  -- `write`, on an output that is empty: the superblock and the length that it returns, the image,
  -- and the writer afterwards.
  unfoldable pub write : FilesystemWriter → Result ((SuperBlock × ℕ) × List ℕ × FilesystemWriter)
  write w = do
    (superblock, out) ← begin_image w
    let data_writer = Data.new w.kind.compressor w.fs_compressor w.block_size w.no_duplicate_files
    let metadata_writer = Metadata.new w.fs_compressor w.block_size w.kind
    (nodes, data_writer, out) ← write_data xxh64 w.fs_compressor w.block_size w.root data_writer out
    (data_writer, out) ← Data.finalize data_writer out
    (root, tables) ←
        write_inode_dir u16 u32 inode_bytes nodes superblock w.kind w.id_table (suc (length nodes))
          0 1 (record { inode_writer = metadata_writer; dir_writer = metadata_writer })
    (superblock, out) ← write_tables w superblock root tables data_writer.fragment_table out
    (bytes_written, superblock, image) ←
        finalize (superblock_bytes u16 u32 u64 w.kind.type_endian) w superblock out
    ok ((superblock, bytes_written), image, record w { root = nodes })
