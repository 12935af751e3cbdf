-- ===== src/Writer/Files.antt =====
-- Writing the files of a tree, `write_data` of backhand/src/filesystem/writer.rs: each file's bytes go
-- through the data writer, in the order of the nodes, and the file's place takes its stead.
pub mod Places
pub mod Sizes
use backhand.Common.{
  same_bytes, ℕ, zero, suc, ◌==◌, ◌&&◌, if◌then◌else◌, Bool, true, false, Option, none, some, List,
  [], ◌∷◌, ◌++◌,
}
use backhand.Compressor.{
  Compressor, CompressionOptions, gzip_options, lzo_options, xz_options, lz4_options, zstd_options,
  lzma_options,
}
use backhand.Compressor.Config.{FilesystemCompressor}
use backhand.Data.{ReadEvent, bytes, fails, aborts, Added, DataWriter, add_bytes}
use backhand.Data.Copy.{just_copy_it}
use backhand.Error.{Result, ok, err, panics, diverges, ◌>>=◌, into_io_error}
use backhand.FileReader.{Handle, System, ReadFile, raw_data, into_reader, file_len, read}
use backhand.Superblock.Bytes.{compressor_number}
use backhand.Tree.{
  InnerNode, file, symlink, dir, character_device, block_device, named_pipe, socket, Node,
}
use backhand.Writer.{SquashfsFileWriter, user_defined, squashfs_file, consumed}

abbrev maybe : Option ℕ → List ℕ
maybe none = 0 ∷ []
maybe (some n) = 1 ∷ n ∷ []

-- The fields of options, behind the number of their variant
unfoldable pub options_fields : Option CompressionOptions → List ℕ
options_fields none = []
options_fields (some (gzip_options g)) = 1 ∷ g.compression_level ∷ g.window_size ∷ g.strategies ∷ []
options_fields (some (lzo_options l)) = 2 ∷ l.algorithm ∷ l.compression_level ∷ []
options_fields (some (xz_options x)) =
    3 ∷ x.dictionary_size ∷ x.filters.bits ∷ (maybe x.bit_opts ++ maybe x.fb)
options_fields (some (lz4_options l)) = 4 ∷ l.version ∷ l.flags ∷ []
options_fields (some (zstd_options z)) = 5 ∷ z.compression_level ∷ []
options_fields (some lzma_options) = 6 ∷ []

-- Whether the source image was packed as the new one will be.
unfoldable pub same_settings : System → FilesystemCompressor → ℕ → Bool
unfolding options_fields compressor_number
same_settings s c block_size =
    (compressor_number s.compressor == compressor_number c.id)
    && same_bytes (options_fields s.compression_options) (options_fields c.stored)
    && (s.block_size == block_size)

-- What the `read` calls on a file's reader answer, one block after the other.
unfoldable pub events : ℕ → ReadFile → List ReadEvent
events zero f = []
events (suc fuel) f = elim (read f.bytes_available f) [
  | ok (got, f') ↦ elim got [ [] ↦ [] | b ∷ bs ↦ bytes (b ∷ bs) ∷ events fuel f' ]
  | err e ↦ fails (into_io_error e) ∷ []
  | panics ↦ aborts ∷ []
  | diverges ↦ aborts ∷ []
]

module _ (xxh64 : List ℕ → ℕ) (compressor : FilesystemCompressor) (block_size : ℕ) where
  -- A file of another image: it is copied where the settings are the same, and else read. The cache
  -- of fragments begins empty for each file; it spares reading a fragment twice.
  unfoldable pub write_squashfs_file :
      Handle → DataWriter → List ℕ → Result (DataWriter × List ℕ × (ℕ × Added))
  write_squashfs_file h data_writer out = raw_data h [] >>= λ raw.
      if same_settings h.system compressor block_size
      then just_copy_it data_writer raw out
      else add_bytes xxh64 data_writer (events (suc (file_len h.file)) (into_reader raw)) out

  -- `match file`; a file that was written before is `unreachable!`.
  unfoldable pub write_file :
      SquashfsFileWriter → DataWriter → List ℕ → Result (DataWriter × List ℕ × (ℕ × Added))
  write_file (user_defined source) data_writer out = add_bytes xxh64 data_writer source out
  write_file (squashfs_file h) data_writer out = write_squashfs_file h data_writer out
  write_file (consumed filesize added) data_writer out = panics

  -- One node: a file becomes the place of its bytes, and all else stays.
  unfoldable pub write_node :
      InnerNode SquashfsFileWriter
      → DataWriter
      → List ℕ
      → Result (InnerNode SquashfsFileWriter × DataWriter × List ℕ)
  write_node (file f) data_writer out =
      write_file f data_writer out >>= λ (data_writer', out', (filesize, added)).
      ok (file (consumed filesize added), data_writer', out')
  write_node inner data_writer out = ok (inner, data_writer, out)

  -- `write_data`. The nodes that a call leaves when it fails are not kept.
  unfoldable pub write_data :
      List (Node SquashfsFileWriter)
      → DataWriter
      → List ℕ
      → Result (List (Node SquashfsFileWriter) × DataWriter × List ℕ)
  write_data [] data_writer out = ok ([], data_writer, out)
  write_data (n ∷ ns) data_writer out =
      write_node n.inner data_writer out >>= λ (inner, data_writer', out').
      write_data ns data_writer' out' >>= λ (ns', data_writer'', out'').
      ok (record n { inner = inner } ∷ ns', data_writer'', out'')
