-- ===== src/Writer/Files/Places.antt =====
-- What `write_data` of backhand/src/filesystem/writer.rs leaves of a tree: every file is
-- consumed, so that a tree is written only once.
use backhand.Common.{ℕ, ◌≡◌, refl, ◌⊎◌, inl, inr, List, [], ◌∷◌}
use backhand.Compressor.Config.{FilesystemCompressor}
use backhand.Data.{Added, DataWriter}
use mathlib.Core.Path.{subst}
use backhand.Error.{ok, panics, IfOk, IfOk->>=, IfOk-then, IfOk-weaken}
use backhand.Tree.{
  InnerNode, file, symlink, dir, character_device, block_device, named_pipe, socket, Node,
}
use backhand.Writer.{SquashfsFileWriter, consumed}
use backhand.Writer.Files.{write_file, write_node, write_data}

-- A file has been written; anything else is as it was.
abbrev pub WrittenInner : InnerNode SquashfsFileWriter → InnerNode SquashfsFileWriter → Type 0
WrittenInner (file f) inner' =
    (filesize : ℕ) × (added : Added) × (inner' ≡ file (consumed filesize added))
WrittenInner inner inner' = inner' ≡ inner

abbrev pub WrittenNodes : List (Node SquashfsFileWriter) → List (Node SquashfsFileWriter) → Type 0
WrittenNodes [] [] = Unit
WrittenNodes [] (m ∷ ms) = ⊥
WrittenNodes (n ∷ ns) [] = ⊥
WrittenNodes (n ∷ ns) (m ∷ ms) =
    (m.fullpath ≡ n.fullpath)
    × (m.header ≡ n.header)
    × WrittenInner n.inner m.inner
    × WrittenNodes ns ms

-- Whether there is a file among the nodes.
abbrev pub HasFile : List (Node SquashfsFileWriter) → Type 0
HasFile [] = ⊥
HasFile (n ∷ ns) = ((f : SquashfsFileWriter) × (n.inner ≡ file f)) ⊎ HasFile ns

module _ (xxh64 : List ℕ → ℕ) (compressor : FilesystemCompressor) (block_size : ℕ) where
  write_node-Written :
      (inner : InnerNode SquashfsFileWriter) (d : DataWriter) (out : List ℕ)
      → IfOk
          (λ (r : InnerNode SquashfsFileWriter × DataWriter × List ℕ). WrittenInner inner r.0)
          (write_node xxh64 compressor block_size inner d out)
  unfolding write_node
  write_node-Written (file f) d out =
      IfOk-then
        (λ (r : InnerNode SquashfsFileWriter × DataWriter × List ℕ). WrittenInner (file f) r.0)
        (write_file xxh64 compressor block_size f d out) _
        (λ (d', out', (filesize, added)). (filesize, added, refl))
  write_node-Written (symlink l) d out = refl
  write_node-Written dir d out = refl
  write_node-Written (character_device n) d out = refl
  write_node-Written (block_device n) d out = refl
  write_node-Written named_pipe d out = refl
  write_node-Written socket d out = refl

  -- When `write_data` returns, the nodes are those that were given, with the same paths and headers
  -- in the same order; each file is consumed, and all else is as it was.
  pub write_data-Written :
      (ns : List (Node SquashfsFileWriter)) (d : DataWriter) (out : List ℕ)
      → IfOk
          (λ (r : List (Node SquashfsFileWriter) × DataWriter × List ℕ). WrittenNodes ns r.0)
          (write_data xxh64 compressor block_size ns d out)
  unfolding write_data
  write_data-Written [] d out = tt
  write_data-Written (n ∷ ns) d out =
      IfOk->>=
        (λ (r : InnerNode SquashfsFileWriter × DataWriter × List ℕ). WrittenInner n.inner r.0)
        (λ (r : List (Node SquashfsFileWriter) × DataWriter × List ℕ). WrittenNodes (n ∷ ns) r.0)
        (write_node xxh64 compressor block_size n.inner d out) _ (write_node-Written n.inner d out)
        (λ (inner, d', out') _ here.
          IfOk->>=
            (λ (r : List (Node SquashfsFileWriter) × DataWriter × List ℕ). WrittenNodes ns r.0)
            (λ (r : List (Node SquashfsFileWriter) × DataWriter × List ℕ).
              WrittenNodes (n ∷ ns) r.0)
            (write_data xxh64 compressor block_size ns d' out') _ (write_data-Written ns d' out')
            (λ _ _ later. (refl, refl, here, later)))

  again :
      (inner inner' : InnerNode SquashfsFileWriter) (d : DataWriter) (out : List ℕ)
      → WrittenInner inner inner'
      → (write_node xxh64 compressor block_size inner' d out ≡ panics)
        ⊎ (write_node xxh64 compressor block_size inner' d out ≡ ok (inner', d, out))
  unfolding write_node write_file
  again (file f) inner' d out (filesize, added, e) = rw e (inl refl)
  again (symlink l) inner' d out e = rw e (inr refl)
  again dir inner' d out e = rw e (inr refl)
  again (character_device n) inner' d out e = rw e (inr refl)
  again (block_device n) inner' d out e = rw e (inr refl)
  again named_pipe inner' d out e = rw e (inr refl)
  again socket inner' d out e = rw e (inr refl)

  again_file :
      (f : SquashfsFileWriter) (inner inner' : InnerNode SquashfsFileWriter) (d : DataWriter)
      (out : List ℕ)
      → inner ≡ file f
      → WrittenInner inner inner'
      → write_node xxh64 compressor block_size inner' d out ≡ panics
  unfolding write_node write_file
  again_file f inner inner' d out is w = written (subst (λ i. WrittenInner i inner') is w)
    where
      written :
          WrittenInner (file f) inner'
          → write_node xxh64 compressor block_size inner' d out ≡ panics
      written (filesize, added, e) = rw e refl

  consumed-panics :
      (ns ns' : List (Node SquashfsFileWriter)) (d : DataWriter) (out : List ℕ)
      → WrittenNodes ns ns'
      → HasFile ns
      → write_data xxh64 compressor block_size ns' d out ≡ panics
  unfolding write_data
  consumed-panics [] ns' d out w h = absurd h
  consumed-panics (n ∷ ns) [] d out w h = absurd w
  consumed-panics (n ∷ ns) (m ∷ ms) d out (p, q, here, later) (inl (f, is)) =
      rw (again_file f n.inner m.inner d out is here, write_data) refl
  consumed-panics (n ∷ ns) (m ∷ ms) d out (p, q, here, later) (inr more) =
      elim (again n.inner m.inner d out here) [
        | inl stops ↦ rw (stops, write_data) refl
        | inr goes ↦ rw (goes, write_data) (rw (consumed-panics ns ms d out later more) refl)
      ]

  -- Let `write_data` return the nodes of a tree that has a file among its nodes. A second call, with
  -- the nodes that the first one left, panics, whatever the data writer and the output are.
  pub write_data-twice :
      (ns : List (Node SquashfsFileWriter)) (d d' : DataWriter) (out out' : List ℕ)
      → HasFile ns
      → IfOk
          (λ (r : List (Node SquashfsFileWriter) × DataWriter × List ℕ).
            write_data xxh64 compressor block_size r.0 d' out' ≡ panics)
          (write_data xxh64 compressor block_size ns d out)
  write_data-twice ns d d' out out' h =
      IfOk-weaken
        (λ (r : List (Node SquashfsFileWriter) × DataWriter × List ℕ). WrittenNodes ns r.0)
        (λ (r : List (Node SquashfsFileWriter) × DataWriter × List ℕ).
          write_data xxh64 compressor block_size r.0 d' out' ≡ panics)
        (write_data xxh64 compressor block_size ns d out)
        (λ r w. consumed-panics ns r.0 d' out' w h) (write_data-Written ns d out)
