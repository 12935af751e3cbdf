-- ===== src/Squashfs/Walk.antt =====
-- The walk from the root through the directories, `extract_dir` of backhand/src/squashfs.rs, and
-- the tree of nodes that `into_filesystem_reader` makes of it.
use backhand.Common.{ℕ, zero, suc, Bool, not, Option, none, some, List, [], ◌∷◌, ◌++◌, lookup}
use backhand.Compressor.{Compressor, CompressionOptions}
use backhand.Data.{Fragment}
use backhand.Directory.{DirEntry, Dir}
use backhand.Error.{
  Result, ok, err, diverges, ◌>>=◌, ◌>>◌, require, unexpected_inode, unsupported_inode,
  corrupted_or_invalid_squashfs,
}
use backhand.FileReader.{SquashfsFileReader, basic, extended}
use backhand.Inode
use backhand.Inode.{
  Inode, InodeInner, InodeId, basic_directory, basic_file, basic_symlink, basic_block_device,
  basic_character_device, basic_named_pipe, basic_socket, extended_directory, extended_file,
}
use backhand.Kinds.{Kind, WordCodec}
use backhand.NodeHeader.{OwnerId, from_inode}
use backhand.Squashfs.{
  Squashfs, ok_or, listing, name, push, inode_key, symlink_target_path, char_device_number,
  block_device_number,
}
use backhand.Squashfs.Same.{same_inode}
use backhand.Superblock.{flag_set, data_has_been_deduplicated}
use backhand.Tree
use backhand.Tree.{
  PathBuf, pop, cmp, less, equal, greater, InnerNode, Node, dir, character_device, block_device,
  named_pipe, socket, new_root,
}

-- The path of the directory that is read, and the nodes made up to now
abbrev pub Walk : Type 0
Walk = PathBuf × List (Node SquashfsFileReader)

unfoldable pub file_of : InodeInner → Result (InnerNode SquashfsFileReader)
file_of (Inode.file f) = ok (Tree.file (basic f))
file_of (Inode.large_file f) = ok (Tree.file (extended f))
file_of inner = err (unexpected_inode inner)

-- The call of `extract_dir` on a directory that an entry refers to, by what reads it.
unfoldable pub enter : (Walk → Inode → Result Walk) → Inode → Inode → Walk → Result Walk
enter extract dir_inode found w = do
  require (not (same_inode found dir_inode)) (unexpected_inode dir_inode.inner)
  extract w found

-- `match entry.t`, with the walk afterwards
unfoldable pub inner_of :
    (Walk → Inode → Result Walk)
    → Inode
    → InodeId
    → Inode
    → Walk
    → Result (InnerNode SquashfsFileReader × Walk)
inner_of extract dir_inode basic_directory found w =
    enter extract dir_inode found w >>= λ w'. ok (dir, w')
inner_of extract dir_inode extended_directory found w =
    enter extract dir_inode found w >>= λ w'. ok (dir, w')
inner_of extract dir_inode basic_file found w = file_of found.inner >>= λ inner. ok (inner, w)
inner_of extract dir_inode basic_symlink found w =
    symlink_target_path found.inner >>= λ link. ok (Tree.symlink link, w)
inner_of extract dir_inode basic_character_device found w =
    char_device_number found.inner >>= λ n. ok (character_device n, w)
inner_of extract dir_inode basic_block_device found w =
    block_device_number found.inner >>= λ n. ok (block_device n, w)
inner_of extract dir_inode basic_named_pipe found w = ok (named_pipe, w)
inner_of extract dir_inode basic_socket found w = ok (socket, w)
inner_of extract dir_inode extended_file found w = err (unsupported_inode found.inner)

-- One entry: the nodes below it, then its own, and the path goes back up.
unfoldable pub extract_entry :
    (Walk → Inode → Result Walk) → Squashfs → Inode → Dir → DirEntry → Walk → Result Walk
extract_entry extract s dir_inode d entry (fullpath, nodes) = do
  key ← inode_key d entry
  found ← ok_or corrupted_or_invalid_squashfs (lookup key s.inodes)
  n ← name entry
  (inner, (path, more)) ← inner_of extract dir_inode entry.t found (push fullpath n, nodes)
  header ← from_inode found.header s.id
  let node : Node SquashfsFileReader = record { fullpath = path; header = header; inner = inner }
  ok (pop path, more ++ node ∷ [])

unfoldable pub extract_entries :
    (Walk → Inode → Result Walk) → Squashfs → Inode → Dir → List DirEntry → Walk → Result Walk
extract_entries extract s dir_inode d [] w = ok w
extract_entries extract s dir_inode d (entry ∷ entries) w =
    extract_entry extract s dir_inode d entry w >>= λ w'.
    extract_entries extract s dir_inode d entries w'

unfoldable pub extract_dirs :
    (Walk → Inode → Result Walk) → Squashfs → Inode → List Dir → Walk → Result Walk
extract_dirs extract s dir_inode [] w = ok w
extract_dirs extract s dir_inode (d ∷ ds) w =
    extract_entries extract s dir_inode d d.dir_entries w >>= λ w'.
    extract_dirs extract s dir_inode ds w'

-- `if let Some(dirs) = dirs`
unfoldable pub extract_listing :
    (Walk → Inode → Result Walk) → Squashfs → Inode → Option (List Dir) → Walk → Result Walk
extract_listing extract s dir_inode none w = ok w
extract_listing extract s dir_inode (some dirs) w = extract_dirs extract s dir_inode dirs w

module _ {T : Type 0} where
  -- A place for a node among sorted ones: before the first that is greater.
  unfoldable pub sort_in : Node T → List (Node T) → List (Node T)
  sort_in n [] = n ∷ []
  sort_in n (m ∷ ms) =
      let rest = sort_in n ms in
      elim (cmp m.fullpath n.fullpath) [
        | less ↦ m ∷ rest
        | equal ↦ n ∷ m ∷ ms
        | greater ↦ n ∷ m ∷ ms
      ]

  -- `root.nodes.sort()`, the stable sort by path of the standard library: each node goes before
  -- those behind it that have its path.
  unfoldable pub sort : List (Node T) → List (Node T)
  unfolding sort_in
  sort [] = []
  sort (n ∷ ns) = sort_in n (sort ns)

-- `FilesystemReader` of backhand/src/filesystem/reader.rs, without its locks and its cache
pub record FilesystemReader : Type 0 where
  pub kind : Kind
  pub block_size : ℕ
  pub block_log : ℕ
  pub compressor : Compressor
  pub compression_options : Option CompressionOptions
  pub mod_time : ℕ
  pub id_table : List OwnerId
  pub fragments : Option (List Fragment)
  pub root : List (Node SquashfsFileReader)
  pub reader : List ℕ
  pub no_duplicate_files : Bool

module _ (u16 : WordCodec 2) (u32 : WordCodec 4) where
  -- `extract_dir`. The fuel is the depth of directories that are read inside each other; the source
  -- sets no bound to it.
  unfoldable pub extract_dir : ℕ → Squashfs → Walk → Inode → Result Walk
  extract_dir zero s w dir_inode = diverges
  extract_dir (suc fuel) s w dir_inode = listing u16 u32 s dir_inode.inner >>= λ found.
      extract_listing (extract_dir fuel s) s dir_inode found w

  -- The nodes that `into_filesystem_reader` puts in its tree
  unfoldable pub extract_root : ℕ → Squashfs → Result (List (Node SquashfsFileReader))
  extract_root fuel s = do
    header ← from_inode s.root_inode.header s.id
    (path, nodes) ← extract_dir fuel s ([], new_root header) s.root_inode
    ok (sort nodes)

  -- `into_filesystem_reader`
  unfoldable pub into_filesystem_reader : ℕ → Squashfs → Result FilesystemReader
  into_filesystem_reader fuel s = do
    nodes ← extract_root fuel s
    ok (record {
      kind = s.kind;
      block_size = s.superblock.block_size;
      block_log = s.superblock.block_log;
      compressor = s.superblock.compressor;
      compression_options = s.compression_options;
      mod_time = s.superblock.mod_time;
      id_table = s.id;
      fragments = s.fragments;
      root = nodes;
      reader = s.file;
      no_duplicate_files = flag_set data_has_been_deduplicated s.superblock;
    })
