-- ===== src/Squashfs/Termination.antt =====
-- Whether the walk of backhand/src/squashfs.rs ends: it does where the directories refer to each
-- other in no circle, and it does not in a circle of two directories, since `extract_dir` only looks
-- for a directory that refers to itself.
use backhand.Common.{
  ℕ, zero, suc, ◌<◌, ◌≡◌, refl, ltb, Bool, true, false, not, Bool-cases, inl, inr, Option, none,
  some, List, [], ◌∷◌, length, lookup, arith,
}
use backhand.Directory.{DirEntry, Dir}
use backhand.Directory.Bytes.Ends.{dirs_from_reader-Ends}
use backhand.Error.{
  BackhandError, unexpected_inode, corrupted_or_invalid_squashfs, Result, ok, require, Ends, Any,
  and_then-Ends,
}
use backhand.FileReader.{SquashfsFileReader}
use backhand.Inode
use backhand.Inode.{
  Inode, InodeInner, InodeId, InodeHeader, basic_directory, basic_file, basic_symlink,
  basic_block_device, basic_character_device, basic_named_pipe, basic_socket, extended_directory,
  extended_file,
}
use backhand.Kinds.{WordCodec}
use backhand.NodeHeader.{OwnerId, from_inode, ok_or_invalid}
use backhand.Squashfs.{
  Squashfs, ok_or, ok_or-some, get_from, listing_bytes, dirs_at, dir_from_index, listing, name,
  push, inode_key, symlink_target_path, char_device_number, block_device_number,
}
use backhand.Squashfs.Same.{same_inode}
use backhand.Squashfs.Walk.{
  Walk, file_of, enter, inner_of, extract_entry, extract_entries, extract_dirs, extract_listing,
  extract_dir,
}
use backhand.Tree.{InnerNode}

require-Ends : (b : Bool) (e : BackhandError) → Ends Any (require b e)
require-Ends true e = tt
require-Ends false e = tt

ok_or-Ends {ℓ} : {A : Type ℓ} (e : BackhandError) (o : Option A) → Ends Any (ok_or e o)
ok_or-Ends e none = tt
ok_or-Ends e (some a) = tt

listing_bytes-Ends : (block : List ℕ) (o n : ℕ) → Ends Any (listing_bytes block o n)
unfolding listing_bytes
listing_bytes-Ends block o n = ground arith

name-Ends : (e : DirEntry) → Ends Any (name e)
unfolding name
name-Ends e = ground arith

inode_key-Ends : (d : Dir) (e : DirEntry) → Ends Any (inode_key d e)
unfolding inode_key
inode_key-Ends d e = ground arith

ok_or_invalid-Ends : (o : Option OwnerId) → Ends Any (ok_or_invalid o)
ok_or_invalid-Ends none = tt
ok_or_invalid-Ends (some i) = tt

from_inode-Ends : (h : InodeHeader) (ids : List OwnerId) → Ends Any (from_inode h ids)
unfolding from_inode
from_inode-Ends h ids = ground arith

file_of-Ends : (i : InodeInner) → Ends Any (file_of i)
unfolding file_of
file_of-Ends i = ground arith

symlink_target_path-Ends : (i : InodeInner) → Ends Any (symlink_target_path i)
unfolding symlink_target_path
symlink_target_path-Ends i = ground arith

char_device_number-Ends : (i : InodeInner) → Ends Any (char_device_number i)
unfolding char_device_number
char_device_number-Ends i = ground arith

block_device_number-Ends : (i : InodeInner) → Ends Any (block_device_number i)
unfolding block_device_number
block_device_number-Ends i = ground arith

module _ (u16 : WordCodec 2) (u32 : WordCodec 4) (s : Squashfs) where
  dirs_at-Ends :
      (block_index file_size o : ℕ) → Ends Any (dirs_at u16 u32 s block_index file_size o)
  unfolding dirs_at
  dirs_at-Ends block_index file_size o =
      let missing = corrupted_or_invalid_squashfs in
      and_then-Ends {Y = List Dir} (ok_or missing (lookup block_index s.dir_blocks.0)) _
        (ok_or-Ends missing (lookup block_index s.dir_blocks.0))
        (λ offset _.
          and_then-Ends {Y = List Dir} (ok_or missing (get_from s.dir_blocks.1 offset)) _
            (ok_or-Ends missing (get_from s.dir_blocks.1 offset))
            (λ block _.
              and_then-Ends {Y = List Dir} (listing_bytes block o file_size) _
                (listing_bytes-Ends block o file_size)
                (λ bytes _.
                  dirs_from_reader-Ends u16 s.kind.type_endian u32 (suc (length bytes)) bytes
                    (omega arith))))

  dir_from_index-Ends :
      (block_index file_size o : ℕ) → Ends Any (dir_from_index u16 u32 s block_index file_size o)
  unfolding dir_from_index
  dir_from_index-Ends block_index file_size o = elim (Bool-cases (ltb file_size 4)) [
    | inl h ↦ rw (h, dir_from_index) tt
    | inr h ↦
        rw (h, dir_from_index)
          (and_then-Ends {Y = Option (List Dir)} (dirs_at u16 u32 s block_index file_size o) _
            (dirs_at-Ends block_index file_size o) (λ _ _. tt))
  ]

  listing-Ends : (i : InodeInner) → Ends Any (listing u16 u32 s i)
  unfolding listing
  listing-Ends (Inode.directory d) = dir_from_index-Ends d.block_index d.file_size d.block_offset
  listing-Ends (Inode.large_directory d) =
      dir_from_index-Ends d.block_index d.file_size d.block_offset
  listing-Ends (Inode.file f) = tt
  listing-Ends (Inode.symlink l) = tt
  listing-Ends (Inode.block_device b) = tt
  listing-Ends (Inode.character_device c) = tt
  listing-Ends (Inode.named_pipe p) = tt
  listing-Ends (Inode.socket k) = tt
  listing-Ends (Inode.large_file f) = tt

-- The types of entries that `extract_dir` calls itself for
abbrev pub is_directory : InodeId → Bool
is_directory basic_directory = true
is_directory extended_directory = true
is_directory t = false

module _ (s : Squashfs) (rank : Inode → ℕ) where
  -- A directory that an entry refers to has a lesser rank than the directory that the entry is in.
  abbrev pub EntryDescends : Inode → Dir → DirEntry → Type 0
  EntryDescends i d e =
      is_directory e.t ≡ true
      → (key : ℕ) (found : Inode) → inode_key d e ≡ ok key
      → lookup key s.inodes ≡ some found
      → rank found < rank i

  abbrev pub EntriesDescend : Inode → Dir → List DirEntry → Type 0
  EntriesDescend i d [] = Unit
  EntriesDescend i d (e ∷ es) = EntryDescends i d e × EntriesDescend i d es

  abbrev pub DirsDescend : Inode → List Dir → Type 0
  DirsDescend i [] = Unit
  DirsDescend i (d ∷ ds) = EntriesDescend i d d.dir_entries × DirsDescend i ds

  module _ (extract : Walk → Inode → Result Walk) (i : Inode) where
    -- The calls for directories of a lesser rank end.
    abbrev Recurs : Type 0
    Recurs = (w : Walk) (found : Inode) → rank found < rank i → Ends Any (extract w found)

    enter-Ends :
        Recurs
        → (found : Inode) (w : Walk) → rank found < rank i
        → Ends Any (enter extract i found w)
    unfolding enter
    enter-Ends rec found w h =
        and_then-Ends {Y = Walk} (require (not (same_inode found i)) (unexpected_inode i.inner)) _
          (require-Ends (not (same_inode found i)) (unexpected_inode i.inner))
          (λ _ _. rec w found h)

    inner_of-Ends :
        Recurs
        → (t : InodeId) (found : Inode) (w : Walk) → (is_directory t ≡ true → rank found < rank i)
        → Ends Any (inner_of extract i t found w)
    unfolding inner_of
    inner_of-Ends rec basic_directory found w h =
        and_then-Ends {Y = InnerNode SquashfsFileReader × Walk} (enter extract i found w) _
          (enter-Ends rec found w (h refl)) (λ _ _. tt)
    inner_of-Ends rec extended_directory found w h =
        and_then-Ends {Y = InnerNode SquashfsFileReader × Walk} (enter extract i found w) _
          (enter-Ends rec found w (h refl)) (λ _ _. tt)
    inner_of-Ends rec basic_file found w h =
        and_then-Ends {Y = InnerNode SquashfsFileReader × Walk} (file_of found.inner) _
          (file_of-Ends found.inner) (λ _ _. tt)
    inner_of-Ends rec basic_symlink found w h =
        and_then-Ends {Y = InnerNode SquashfsFileReader × Walk} (symlink_target_path found.inner) _
          (symlink_target_path-Ends found.inner) (λ _ _. tt)
    inner_of-Ends rec basic_character_device found w h =
        and_then-Ends {Y = InnerNode SquashfsFileReader × Walk} (char_device_number found.inner) _
          (char_device_number-Ends found.inner) (λ _ _. tt)
    inner_of-Ends rec basic_block_device found w h =
        and_then-Ends {Y = InnerNode SquashfsFileReader × Walk} (block_device_number found.inner) _
          (block_device_number-Ends found.inner) (λ _ _. tt)
    inner_of-Ends rec basic_named_pipe found w h = tt
    inner_of-Ends rec basic_socket found w h = tt
    inner_of-Ends rec extended_file found w h = tt

    extract_entry-Ends :
        Recurs
        → (d : Dir) (e : DirEntry) (w : Walk) → EntryDescends i d e
        → Ends Any (extract_entry extract s i d e w)
    unfolding extract_entry
    extract_entry-Ends rec d e (fullpath, nodes) h =
        let missing = corrupted_or_invalid_squashfs in
        and_then-Ends {Y = Walk} (inode_key d e) _ (inode_key-Ends d e) (λ key k.
          and_then-Ends {Y = Walk} (ok_or missing (lookup key s.inodes)) _
            (ok_or-Ends missing (lookup key s.inodes))
            (λ found f. and_then-Ends {Y = Walk} (name e) _ (name-Ends e) (λ n _.
              and_then-Ends {Y = Walk} (inner_of extract i e.t found (push fullpath n, nodes)) _
                (inner_of-Ends rec e.t found (push fullpath n, nodes)
                  (λ is. h is key found k (ok_or-some missing (lookup key s.inodes) f)))
                (λ _ _.
                  and_then-Ends {Y = Walk} (from_inode found.header s.id) _
                    (from_inode-Ends found.header s.id) (λ _ _. tt)))))

    extract_entries-Ends :
        Recurs
        → (d : Dir) (es : List DirEntry) (w : Walk) → EntriesDescend i d es
        → Ends Any (extract_entries extract s i d es w)
    unfolding extract_entries
    extract_entries-Ends rec d [] w h = tt
    extract_entries-Ends rec d (e ∷ es) w (h, hs) =
        and_then-Ends {Y = Walk} (extract_entry extract s i d e w) _
          (extract_entry-Ends rec d e w h) (λ w' _. extract_entries-Ends rec d es w' hs)

    extract_dirs-Ends :
        Recurs
        → (ds : List Dir) (w : Walk) → DirsDescend i ds
        → Ends Any (extract_dirs extract s i ds w)
    unfolding extract_dirs
    extract_dirs-Ends rec [] w h = tt
    extract_dirs-Ends rec (d ∷ ds) w (h, hs) =
        and_then-Ends {Y = Walk} (extract_entries extract s i d d.dir_entries w) _
          (extract_entries-Ends rec d d.dir_entries w h) (λ w' _. extract_dirs-Ends rec ds w' hs)

module _ (u16 : WordCodec 2) (u32 : WordCodec 4) (s : Squashfs) (rank : Inode → ℕ) where
  -- The references from directory to directory go down in rank, so that they make no circle.
  abbrev pub Descends : Type 0
  Descends =
      (i : Inode) (dirs : List Dir)
      → listing u16 u32 s i.inner ≡ ok (some dirs)
      → DirsDescend s rank i dirs

  -- In an image whose directories refer to each other in no circle, as a rank that falls shows,
  -- `extract_dir` ends for every inode, when the depth that it may go to is greater than its rank.
  pub extract_dir-Ends :
      (fuel : ℕ) (i : Inode) (w : Walk)
      → Descends
      → rank i < fuel
      → Ends Any (extract_dir u16 u32 fuel s w i)
  unfolding extract_dir extract_listing
  extract_dir-Ends zero i w down h = absurd (omega arith)
  extract_dir-Ends (suc fuel) i w down h =
      let rec : Recurs s rank (extract_dir u16 u32 fuel s) i =
        λ w' found less. extract_dir-Ends fuel found w' down (omega arith) in
      and_then-Ends {Y = Walk} (listing u16 u32 s i.inner) _ (listing-Ends u16 u32 s i.inner)
        (λ found l. listed rec found l)
    where
      listed :
          Recurs s rank (extract_dir u16 u32 fuel s) i
          → (found : Option (List Dir)) → listing u16 u32 s i.inner ≡ ok found
          → Ends Any (extract_listing (extract_dir u16 u32 fuel s) s i found w)
      listed rec none l = tt
      listed rec (some dirs) l =
          extract_dirs-Ends s rank (extract_dir u16 u32 fuel s) i rec dirs w (down i dirs l)
