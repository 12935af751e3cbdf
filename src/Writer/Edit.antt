-- ===== src/Writer/Edit.antt =====
-- Changing a tree before it is written, backhand/src/filesystem/writer.rs: a writer that begins empty or
-- with the tree of another image, and a file whose bytes are replaced.
pub mod Replace
use backhand.Common.{ℕ, Bool, true, false, Option, none, some, List, [], ◌∷◌, map}
use backhand.Compressor.{xz}
use backhand.Compressor.Config.{FilesystemCompressor, new_compressor}
use backhand.Data.{ReadEvent}
use backhand.Error.{Result, ok, err, panics, diverges, ◌>>=◌, file_not_found}
use backhand.FileReader.{System, Handle, SquashfsFileReader}
use backhand.Kinds.{Kind}
use backhand.NodeHeader.{NodeHeader}
use backhand.Squashfs.Walk.{FilesystemReader, sort}
use backhand.Superblock.{default_block_size, default_pad_len}
use backhand.Tree.{
  Component, PathBuf, normalize_squashfs_path, cmp, less, equal, greater, InnerNode, file, symlink,
  dir, character_device, block_device, named_pipe, socket, Node, new_root, find,
}
use backhand.Writer.{
  SquashfsFileWriter, user_defined, squashfs_file, FilesystemWriter, root_ids, log2_below,
}

-- `FilesystemWriter::default`, with the kind `LE_V4_0`
unfoldable pub default_writer : Kind → FilesystemWriter
unfolding root_ids new_root log2_below
default_writer le_v4_0 = record {
  kind = le_v4_0;
  block_size = default_block_size;
  mod_time = 0;
  id_table = root_ids;
  fs_compressor = record { id = xz; stored = none; tuning = none };
  root = new_root (record { permissions = 0; uid = 0; gid = 0; mtime = 0 });
  block_log = log2_below 20 default_block_size;
  pad_len = default_pad_len;
  no_duplicate_files = true;
  emit_compression_options = true;
}

-- What a file handle uses of a reader.
unfoldable pub system_of : FilesystemReader → System
system_of r = record {
  kind = r.kind;
  block_size = r.block_size;
  compressor = r.compressor;
  compression_options = r.compression_options;
  fragments = r.fragments;
  image = r.reader;
}

-- A node of the reader as one of the writer: a file is a handle on the reader.
unfoldable pub writer_inner :
    FilesystemReader → InnerNode SquashfsFileReader → InnerNode SquashfsFileWriter
unfolding system_of
writer_inner r (file f) = file (squashfs_file (record { system = system_of r; file = f }))
writer_inner r (symlink x) = symlink x
writer_inner r dir = dir
writer_inner r (character_device x) = character_device x
writer_inner r (block_device x) = block_device x
writer_inner r named_pipe = named_pipe
writer_inner r socket = socket

unfoldable pub writer_node : FilesystemReader → Node SquashfsFileReader → Node SquashfsFileWriter
unfolding writer_inner
writer_node r n = record {
  fullpath = n.fullpath;
  header = n.header;
  inner = writer_inner r n.inner;
}

-- `FilesystemWriter::from_fs_reader`
unfoldable pub from_fs_reader : FilesystemReader → Result FilesystemWriter
unfolding writer_node sort new_compressor
from_fs_reader r = do
  fs_compressor ← new_compressor r.compressor r.compression_options
  ok (record {
    kind = r.kind;
    block_size = r.block_size;
    mod_time = r.mod_time;
    id_table = r.id_table;
    fs_compressor = fs_compressor;
    root = sort (map (writer_node r) r.root);
    block_log = r.block_log;
    pad_len = default_pad_len;
    no_duplicate_files = r.no_duplicate_files;
    emit_compression_options = true;
  })

abbrev pub is_file : InnerNode SquashfsFileWriter → Bool
is_file (file f) = true
is_file inner = false

-- The nodes with another value for the file of a path, as `mut_file` finds it and gives it out to be
-- changed. Where the path has no node, or one that is no file, there is nothing to change.
unfoldable pub change_file :
    PathBuf
    → SquashfsFileWriter
    → List (Node SquashfsFileWriter)
    → Option (List (Node SquashfsFileWriter))
unfolding cmp
change_file p new [] = none
change_file p new (n ∷ ns) =
    let rest = change_file p new ns in
    elim (cmp n.fullpath p) [
      | less ↦ elim rest [ none ↦ none | some ns' ↦ some (n ∷ ns') ]
      | equal ↦ elim (is_file n.inner) [
        | true ↦ some (record n { inner = file new } ∷ ns)
        | false ↦ none
      ]
      | greater ↦ none
    ]

-- `mut_file`, and what is put in its place; a path that cannot be normalized has no file.
unfoldable pub mut_file :
    List Component
    → SquashfsFileWriter
    → List (Node SquashfsFileWriter)
    → Option (List (Node SquashfsFileWriter))
unfolding change_file normalize_squashfs_path
mut_file path new nodes = elim (normalize_squashfs_path path) [
  | ok p ↦ change_file p new nodes
  | err e ↦ none
  | panics ↦ none
  | diverges ↦ none
]

-- `replace_file`
unfoldable pub replace_file :
    List Component → List ReadEvent → FilesystemWriter → Result FilesystemWriter
unfolding mut_file
replace_file find_path reader w = elim (mut_file find_path (user_defined reader) w.root) [
  | none ↦ err file_not_found
  | some nodes ↦ ok (record w { root = nodes })
]
