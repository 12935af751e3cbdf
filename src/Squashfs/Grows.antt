-- ===== src/Squashfs/Grows.antt =====
-- The walk of backhand/src/squashfs.rs adds nodes behind those that are there, each in a directory
-- that has a node too, and comes back to the path where it began.
use mathlib.Core.Path.{subst}
use backhand.Common.{
  ℕ, zero, suc, ◌≡◌, refl, sym, true, ◌⊎◌, inl, inr, Option, none, some, List, [], ◌∷◌, ◌++◌,
  lookup, not, ◌≢◌,
}
use backhand.Directory.{DirEntry, Dir}
use backhand.Error.{
  Result, ok, err, panics, diverges, ◌>>=◌, require, IfOk, IfOk->>=, IfOk-always, IfOk-then,
  IfOk-weaken, unexpected_inode, corrupted_or_invalid_squashfs,
}
use backhand.FileReader.{SquashfsFileReader}
use backhand.Inode.{
  Inode, InodeId, basic_directory, basic_file, basic_symlink, basic_block_device,
  basic_character_device, basic_named_pipe, basic_socket, extended_directory, extended_file,
}
use backhand.Kinds.{WordCodec}
use backhand.NodeHeader.{from_inode}
use backhand.Squashfs.{
  Squashfs, ok_or, ok_or-some, listing, EntryName, root, simple, name, push, inode_key,
  symlink_target_path, char_device_number, block_device_number,
}
use backhand.Squashfs.Same.{same_inode}
use backhand.Squashfs.Walk.{
  Walk, file_of, enter, inner_of, extract_entry, extract_entries, extract_dirs, extract_listing,
  extract_dir,
}
use backhand.Tree
use backhand.Tree.{PathBuf, parent, pop, InnerNode, dir, is_dir, Node}
use backhand.Squashfs.Nodes.{
  FileNode, Added, Added-nothing, Added-then, Added-directory, Added-leaf,
}

-- What `match entry.t` leaves: a directory and what is in it, or another node.
abbrev Inner : Walk → InnerNode SquashfsFileReader × Walk → Type 0
Inner w (inner, w') = (is_dir inner ≡ true) × Added w.0 w.1 w' ⊎ (w' ≡ w)

-- No entry has the root's name.
abbrev pub EntriesNamed : List DirEntry → Type 0
EntriesNamed [] = Unit
EntriesNamed (e ∷ es) = (name e ≢ ok root) × EntriesNamed es

abbrev pub DirsNamed : List Dir → Type 0
DirsNamed [] = Unit
DirsNamed (d ∷ ds) = EntriesNamed d.dir_entries × DirsNamed ds

module _ (extract : Walk → Inode → Result Walk) (s : Squashfs) (i : Inode) where
  abbrev Recurs : Type 0
  Recurs =
      (w : Walk) (key : ℕ) (found : Inode)
      → lookup key s.inodes ≡ some found
      → IfOk (Added w.0 w.1) (extract w found)

  enter-Added :
      Recurs
      → (key : ℕ) (found : Inode) (w : Walk) → lookup key s.inodes ≡ some found
      → IfOk (Added w.0 w.1) (enter extract i found w)
  unfolding enter
  enter-Added rec key found w f =
      IfOk-then (Added w.0 w.1) (require (not (same_inode found i)) (unexpected_inode i.inner)) _
        (λ _. rec w key found f)

  -- A step before a node that is no directory
  leaf-Inner {ℓ} :
      {X : Type ℓ} (first : Result X) (make : X → InnerNode SquashfsFileReader) (w : Walk)
      → IfOk (Inner w) (first >>= λ x. ok (make x, w))
  leaf-Inner (ok x) make w = inr refl
  leaf-Inner (err e) make w = tt
  leaf-Inner panics make w = tt
  leaf-Inner diverges make w = tt

  inner_of-Inner :
      Recurs
      → (t : InodeId) (key : ℕ) (found : Inode) (w : Walk) → lookup key s.inodes ≡ some found
      → IfOk (Inner w) (inner_of extract i t found w)
  unfolding inner_of is_dir
  inner_of-Inner rec basic_directory key found w f =
      IfOk->>= (Added w.0 w.1) (Inner w) (enter extract i found w) _ (enter-Added rec key found w f)
        (λ w' _ a. inl (refl, a))
  inner_of-Inner rec extended_directory key found w f =
      IfOk->>= (Added w.0 w.1) (Inner w) (enter extract i found w) _ (enter-Added rec key found w f)
        (λ w' _ a. inl (refl, a))
  inner_of-Inner rec basic_file key found w f = leaf-Inner (file_of found.inner) (λ inner. inner) w
  inner_of-Inner rec basic_symlink key found w f =
      leaf-Inner (symlink_target_path found.inner) Tree.symlink w
  inner_of-Inner rec basic_character_device key found w f =
      leaf-Inner (char_device_number found.inner) Tree.character_device w
  inner_of-Inner rec basic_block_device key found w f =
      leaf-Inner (block_device_number found.inner) Tree.block_device w
  inner_of-Inner rec basic_named_pipe key found w f = inr refl
  inner_of-Inner rec basic_socket key found w f = inr refl
  inner_of-Inner rec extended_file key found w f = tt

  added_node :
      (p : PathBuf) (c : List ℕ) (nodes : List FileNode) (w' : Walk) (n : FileNode)
      → n.fullpath ≡ w'.0
      → Inner (p ++ c ∷ [], nodes) (n.inner, w')
      → Added p nodes (pop w'.0, w'.1 ++ n ∷ [])
  added_node p c nodes w' n path (inl (d, a)) = Added-directory p c nodes w' n a path d
  added_node p c nodes w' n path (inr e) =
      subst (λ (v : Walk). n.fullpath ≡ v.0 → Added p nodes (pop v.0, v.1 ++ n ∷ [])) (sym e)
        (Added-leaf p c nodes n) path

  extract_entry-Added :
      Recurs
      → (d : Dir) (e : DirEntry) (w : Walk) → name e ≢ ok root
      → IfOk (Added w.0 w.1) (extract_entry extract s i d e w)
  unfolding extract_entry push
  extract_entry-Added rec d e (p, nodes) h = IfOk-then (Added p nodes) (inode_key d e) _ (λ key.
      IfOk->>= (λ _. Unit {0}) (Added p nodes)
        (ok_or corrupted_or_invalid_squashfs (lookup key s.inodes)) _
        (IfOk-always (λ _. Unit {0}) (ok_or corrupted_or_invalid_squashfs (lookup key s.inodes))
          (λ _. tt))
        (λ found f _.
          IfOk->>= (λ _. Unit {0}) (Added p nodes) (name e) _
            (IfOk-always (λ _. Unit {0}) (name e) (λ _. tt))
            (λ n is _.
              named n is key found
                (ok_or-some corrupted_or_invalid_squashfs (lookup key s.inodes) f))))
    where
      named :
          (n : EntryName)
          → name e ≡ ok n
          → (key : ℕ) (found : Inode) → lookup key s.inodes ≡ some found
          → IfOk (Added p nodes) (
              inner_of extract i e.t found (push p n, nodes) >>= λ (inner, (path, more)).
              from_inode found.header s.id >>= λ header.
              ok
                (pop path, more ++ record { fullpath = path; header = header; inner = inner } ∷ []))
      named root is key found f = absurd (h is)
      named (simple c) is key found f =
          IfOk->>= (Inner (p ++ c ∷ [], nodes)) (Added p nodes)
            (inner_of extract i e.t found (p ++ c ∷ [], nodes)) _
            (inner_of-Inner rec e.t key found (p ++ c ∷ [], nodes) f)
            (λ (inner, w') _ made.
              IfOk-then (Added p nodes) (from_inode found.header s.id) _ (λ header.
                added_node p c nodes w' (record { fullpath = w'.0; header = header; inner = inner })
                  refl made))

  extract_entries-Added :
      Recurs
      → (d : Dir) (es : List DirEntry) (w : Walk) → EntriesNamed es
      → IfOk (Added w.0 w.1) (extract_entries extract s i d es w)
  unfolding extract_entries
  extract_entries-Added rec d [] w h = Added-nothing w.0 w.1
  extract_entries-Added rec d (e ∷ es) w (h, hs) =
      IfOk->>= (Added w.0 w.1) (Added w.0 w.1) (extract_entry extract s i d e w) _
        (extract_entry-Added rec d e w h)
        (λ w' _ a.
          IfOk-weaken (Added w'.0 w'.1) (Added w.0 w.1) (extract_entries extract s i d es w')
            (λ w''. Added-then w.0 w.1 w' w'' a) (extract_entries-Added rec d es w' hs))

  extract_dirs-Added :
      Recurs
      → (ds : List Dir) (w : Walk) → DirsNamed ds
      → IfOk (Added w.0 w.1) (extract_dirs extract s i ds w)
  unfolding extract_dirs
  extract_dirs-Added rec [] w h = Added-nothing w.0 w.1
  extract_dirs-Added rec (d ∷ ds) w (h, hs) =
      IfOk->>= (Added w.0 w.1) (Added w.0 w.1) (extract_entries extract s i d d.dir_entries w) _
        (extract_entries-Added rec d d.dir_entries w h)
        (λ w' _ a.
          IfOk-weaken (Added w'.0 w'.1) (Added w.0 w.1) (extract_dirs extract s i ds w')
            (λ w''. Added-then w.0 w.1 w' w'' a) (extract_dirs-Added rec ds w' hs))

module _ (u16 : WordCodec 2) (u32 : WordCodec 4) (s : Squashfs) where
  -- An inode that the walk may read
  abbrev pub Known : Inode → Type 0
  Known i = (i ≡ s.root_inode) ⊎ ((key : ℕ) × (lookup key s.inodes ≡ some i))

  -- No directory of the image has an entry with the root's name.
  abbrev pub Named : Type 0
  Named =
      (i : Inode) (dirs : List Dir)
      → Known i
      → listing u16 u32 s i.inner ≡ ok (some dirs)
      → DirsNamed dirs

  -- In an image in which no entry has the root's name, a walk into a directory that ends well comes
  -- back to the path where it began, keeps the nodes that were there, and adds nodes behind them
  -- that each stand in that path or in a directory that is among the nodes added.
  pub extract_dir-Added :
      (fuel : ℕ) (i : Inode) (w : Walk)
      → Named
      → Known i
      → IfOk (Added w.0 w.1) (extract_dir u16 u32 fuel s w i)
  unfolding extract_dir extract_listing
  extract_dir-Added zero i w h k = tt
  extract_dir-Added (suc fuel) i w h k =
      IfOk->>= (λ _. Unit {0}) (Added w.0 w.1) (listing u16 u32 s i.inner) _
        (IfOk-always (λ _. Unit {0}) (listing u16 u32 s i.inner) (λ _. tt))
        (λ found is _.
          listed (λ w' key found' f. extract_dir-Added fuel found' w' h (inr (key, f))) found is)
    where
      listed :
          Recurs (extract_dir u16 u32 fuel s) s i
          → (found : Option (List Dir)) → listing u16 u32 s i.inner ≡ ok found
          → IfOk (Added w.0 w.1) (extract_listing (extract_dir u16 u32 fuel s) s i found w)
      listed rec none is = Added-nothing w.0 w.1
      listed rec (some dirs) is =
          extract_dirs-Added (extract_dir u16 u32 fuel s) s i rec dirs w (h i dirs k is)
