-- ===== src/Writer/Files/Sizes.antt =====
-- What `write_data` of backhand/src/filesystem/writer.rs records of the files that a program gave as
-- readers: their length, and the place that the data writer returned for their bytes.
use backhand.Common.{ℕ, ◌≡◌, List, [], ◌∷◌, length}
use backhand.Compressor.Config.{FilesystemCompressor}
use backhand.Data.{ReadEvent, Added, DataWriter, add_bytes}
use backhand.Data.Chunks.{IsSteady, content}
use backhand.Data.Sizes.{Plain}
use backhand.Error.{ok}
use backhand.Tree.{InnerNode, file, Node}
use backhand.Writer.{SquashfsFileWriter, user_defined, squashfs_file, consumed}

-- A file is one of the program's own, whose source does not fail.
abbrev pub OwnInner : InnerNode SquashfsFileWriter → Type 0
OwnInner (file (user_defined source)) = IsSteady source
OwnInner (file (squashfs_file h)) = ⊥
OwnInner (file (consumed n added)) = ⊥
OwnInner inner = Unit

abbrev pub OwnFiles : List (Node SquashfsFileWriter) → Type 0
OwnFiles [] = Unit
OwnFiles (n ∷ ns) = OwnInner n.inner × OwnFiles ns

module _ (xxh64 : List ℕ → ℕ) (compressor : FilesystemCompressor) (block_size b : ℕ) where
  -- `add_bytes` returned this place for a file of that source.
  pub record PlacedAt (source : List ReadEvent) (added : Added) : Type 0 where
    pub before : DataWriter
    pub after : DataWriter
    pub out : List ℕ
    pub out' : List ℕ
    pub plain : Plain b before
    pub adds :
        add_bytes xxh64 before source out ≡ ok (after, out', (length (content source), added))

  -- A file of that source has become its length and its place; all else is as it was.
  abbrev pub SizedInner : InnerNode SquashfsFileWriter → InnerNode SquashfsFileWriter → Type 0
  SizedInner (file (user_defined source)) inner' =
      (added : Added) × (inner' ≡ file (consumed (length (content source)) added))
      × PlacedAt source added
  SizedInner inner inner' = inner' ≡ inner

  abbrev pub SizedNodes : List (Node SquashfsFileWriter) → List (Node SquashfsFileWriter) → Type 0
  SizedNodes [] [] = Unit
  SizedNodes [] (m ∷ ms) = ⊥
  SizedNodes (n ∷ ns) [] = ⊥
  SizedNodes (n ∷ ns) (m ∷ ms) =
      (m.fullpath ≡ n.fullpath)
      × (m.header ≡ n.header)
      × SizedInner n.inner m.inner
      × SizedNodes ns ms

  abbrev NodeDone :
      InnerNode SquashfsFileWriter → InnerNode SquashfsFileWriter × DataWriter × List ℕ → Type 0
  NodeDone inner (inner', d, out) = SizedInner inner inner' × Plain b d

  abbrev pub AllDone :
      List (Node SquashfsFileWriter) → List (Node SquashfsFileWriter) × DataWriter × List ℕ → Type 0
  AllDone ns (ns', d, out) = SizedNodes ns ns' × Plain b d
