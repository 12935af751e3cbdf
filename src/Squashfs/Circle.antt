-- ===== src/Squashfs/Circle.antt =====
-- A circle of directories in an image: the walk of backhand/src/squashfs.rs goes round in it without
-- end. The check in `extract_dir` finds a directory that lists itself, and no longer circle.
use backhand.Common.{ℕ, zero, suc, ◌≡◌, refl, false, some, List, ◌∷◌, lookup}
use backhand.Directory.{DirEntry, Dir}
use backhand.Error.{ok, diverges}
use backhand.Inode.{Inode, basic_directory}
use backhand.Kinds.{WordCodec}
use backhand.Squashfs.{Squashfs, listing, EntryName, name, push, inode_key}
use backhand.Squashfs.Same.{same_inode}
use backhand.Squashfs.Walk.{
  Walk, enter, inner_of, extract_entry, extract_entries, extract_dirs, extract_listing, extract_dir,
}

module _ (u16 : WordCodec 2) (u32 : WordCodec 4) (s : Squashfs) where
  -- The first entry of a directory is another directory.
  pub record OpensWith (i next : Inode) : Type 0 where
    pub d : Dir
    pub ds : List Dir
    pub e : DirEntry
    pub es : List DirEntry
    pub n : EntryName
    pub key : ℕ
    pub is_listing : listing u16 u32 s i.inner ≡ ok (some (d ∷ ds))
    pub is_entries : d.dir_entries ≡ e ∷ es
    pub is_directory : e.t ≡ basic_directory
    pub is_name : name e ≡ ok n
    pub is_key : inode_key d e ≡ ok key
    pub is_found : lookup key s.inodes ≡ some next
    pub differs : same_inode next i ≡ false

  -- Directories each of which opens with the next, without end, as in a circle of them: the walk
  -- into the first goes on for ever, that is, uses up every fuel.
  pub extract_dir-circle :
      (chain : ℕ → Inode)
      → ((k : ℕ) → OpensWith (chain k) (chain (suc k)))
      → (fuel k : ℕ) (w : Walk) → extract_dir u16 u32 fuel s w (chain k) ≡ diverges
  unfolding extract_dir extract_listing extract_dirs extract_entries extract_entry inner_of enter
      inode_key
  extract_dir-circle chain opens zero k w = refl
  extract_dir-circle chain opens (suc fuel) k (path, nodes) =
      let o = opens k in
      rw
        (
          o.is_listing,
          o.is_entries,
          o.is_key,
          o.is_found,
          o.is_name,
          o.is_directory,
          o.differs,
          extract_dir-circle chain opens fuel (suc k) (push path o.n, nodes),
        )
        refl
