-- ===== src/Squashfs/Tests.antt =====
-- Tests of the walk through an image, backhand/src/squashfs.rs: a root with one empty directory, and
-- two directories that list each other.
use backhand.Common.{
  ℕ, zero, suc, ◌+◌, ◌^◌, ◌≤◌, ◌<◌, ◌==◌, ◌≡◌, ◌≢◌, ◌↔◌, refl, sym, ◌∙◌, true, false, Bool-cases,
  inl, inr, Option, none, some, List, [], ◌∷◌, ◌++◌, length, length-append, lookup, arith,
}
use mathlib.Core.Option.{none-ne-some, some-injective}
use mathlib.Core.Path.{subst}
use backhand.Directory.{DirEntry, Dir}
use backhand.Directory.Bytes.{dir_bytes}
use backhand.Directory.Bytes.RoundTrip.{DirsFit}
use backhand.Error.{Any, Result, ok, err, panics, diverges, Ends, IfOk, ok-injective}
use backhand.Inode
use backhand.Inode.{Inode, basic_directory}
use backhand.Sample.{sample_word, sample_kind, sample_superblock, low_bytes, of_bytes}
use backhand.Squashfs
use backhand.Squashfs.{Squashfs, listing, inode_key}
use backhand.Squashfs.Grows.{Named, DirsNamed, extract_dir-Added}
use backhand.Squashfs.Listing.{listing_bytes-panics_iff, dir_from_index-dir_bytes}
use backhand.Squashfs.Nodes.{Added}
use backhand.Squashfs.Rooted.{IsRooted, extract_root-IsRooted}
use backhand.Squashfs.Circle.{OpensWith, extract_dir-circle}
use backhand.Squashfs.Same
use backhand.Squashfs.Termination.{Descends, EntriesDescend, DirsDescend, extract_dir-Ends}
use backhand.Squashfs.Walk.{extract_dir, extract_root}

-- A directory that lists the inode of one number under a name of one byte.
abbrev one_entry : ℕ → ℕ → Dir
one_entry number letter = record {
  count = 0;
  start = 0;
  inode_num = number;
  dir_entries =
      record {
        offset = 0;
        inode_offset = 0;
        t = basic_directory;
        name_size = 0;
        name = letter ∷ [];
      }
      ∷ [];
}

abbrev directory_at : ℕ → ℕ → ℕ → Inode
directory_at number size offset = record {
  id = basic_directory;
  header = record { permissions = 0o755; uid = 0; gid = 0; mtime = 7; inode_number = number };
  inner = Inode.directory (record {
    block_index = 0;
    link_count = 2;
    file_size = size;
    block_offset = offset;
    parent_inode = 1;
  });
}

abbrev image_of : Inode → List (ℕ × Inode) → List ℕ → Squashfs
image_of root_inode inodes table = record {
  kind = sample_kind;
  superblock = sample_superblock;
  compression_options = none;
  inodes = inodes;
  root_inode = root_inode;
  dir_blocks = ((0, 0) ∷ [], table);
  fragments = none;
  export = none;
  id = record { num = 0 } ∷ [];
  file = [];
}

abbrev bytes_of : Dir → List ℕ
bytes_of d = dir_bytes (sample_word 2) (sample_word 4) sample_kind.type_endian d

abbrev root_dir : Inode
root_dir = directory_at 1 24 0

abbrev empty_dir : Inode
empty_dir = directory_at 2 3 0

-- `/` with `/b`
abbrev small : Squashfs
small = image_of root_dir ((2, empty_dir) ∷ []) (bytes_of (one_entry 2 b'b'))

root_listing :
    listing (sample_word 2) (sample_word 4) small root_dir.inner ≡ ok (some (one_entry 2 b'b' ∷ []))
unfolding listing Squashfs.dir_from_index Squashfs.dirs_at Squashfs.listing_bytes
    backhand.Common.lookup backhand.Directory.Bytes.dirs_from_reader
    backhand.Directory.Bytes.dir_from_reader backhand.Directory.Bytes.entries_from_reader
    backhand.Directory.Bytes.entry_from_reader backhand.Directory.Bytes.inode_id_of
    backhand.Directory.Bytes.inode_id_number backhand.Deku.read_word backhand.Deku.read_bytes
    backhand.Directory.Bytes.dir_bytes backhand.Directory.Bytes.entry_bytes low_bytes of_bytes
root_listing = refl

-- A directory that has a listing is above one that has none.
abbrev depth : Result (Option (List Dir)) → ℕ
depth (ok none) = 0
depth (ok (some dirs)) = 1
depth (err e) = 0
depth panics = 0
depth diverges = 0

rank : Inode → ℕ
rank i = depth (listing (sample_word 2) (sample_word 4) small i.inner)

empty_dir-rank : rank empty_dir ≡ 0
unfolding rank listing Squashfs.dir_from_index
empty_dir-rank = refl

only_empty : (key : ℕ) (found : Inode) → lookup key small.inodes ≡ some found → rank found ≡ 0
unfolding backhand.Common.lookup
only_empty key found e = elim (Bool-cases (2 == key)) [
  | inl same ↦
      subst (λ i. rank i ≡ 0) (some-injective empty_dir found (sym (here same) ∙ e)) empty_dir-rank
  | inr other ↦ absurd (none-ne-some found (sym (absent other) ∙ e))
]
  where
    here : (2 == key) ≡ true → lookup key small.inodes ≡ some empty_dir
    here same = rw (same, backhand.Common.lookup) refl

    absent : (2 == key) ≡ false → lookup key small.inodes ≡ none
    absent other = rw (other, backhand.Common.lookup) refl

entries_descend :
    (i : Inode) (d : Dir) (es : List DirEntry) → rank i ≡ 1 → EntriesDescend small rank i d es
entries_descend i d [] e = tt
entries_descend i d (entry ∷ es) e =
    (λ is key found k f. omega (arith, only_empty key found f, e), entries_descend i d es e)

dirs_descend : (i : Inode) (ds : List Dir) → rank i ≡ 1 → DirsDescend small rank i ds
dirs_descend i [] e = tt
dirs_descend i (d ∷ ds) e = (entries_descend i d d.dir_entries e, dirs_descend i ds e)

small-Descends : Descends (sample_word 2) (sample_word 4) small rank
unfolding rank
small-Descends i dirs e = dirs_descend i dirs (rw e refl)

root_dir-rank : rank root_dir < 2
unfolding rank
root_dir-rank = rw root_listing (omega arith)

extract_dir-Ends_example :
    Ends Any (extract_dir (sample_word 2) (sample_word 4) 2 small ([], []) root_dir)
extract_dir-Ends_example =
    extract_dir-Ends (sample_word 2) (sample_word 4) small rank 2 root_dir ([], []) small-Descends
      root_dir-rank

-- `/` with `/b`, in which `a` is `/` again
abbrev upper : Inode
upper = directory_at 1 24 0

abbrev lower : Inode
lower = directory_at 2 24 21

abbrev circle : Squashfs
circle =
    image_of upper ((1, upper) ∷ (2, lower) ∷ [])
      (bytes_of (one_entry 2 b'b') ++ bytes_of (one_entry 1 b'a'))

down : OpensWith (sample_word 2) (sample_word 4) circle upper lower
unfolding listing Squashfs.dir_from_index Squashfs.dirs_at Squashfs.listing_bytes
    backhand.Common.lookup backhand.Directory.Bytes.dirs_from_reader
    backhand.Directory.Bytes.dir_from_reader backhand.Directory.Bytes.entries_from_reader
    backhand.Directory.Bytes.entry_from_reader backhand.Directory.Bytes.inode_id_of
    backhand.Directory.Bytes.inode_id_number backhand.Deku.read_word backhand.Deku.read_bytes
    backhand.Directory.Bytes.dir_bytes backhand.Directory.Bytes.entry_bytes low_bytes of_bytes
    Squashfs.name Squashfs.is_file_name Squashfs.has_slash inode_key Same.same_inode
    Same.inode_fields Same.inner_fields
down = record {
  d = one_entry 2 b'b';
  ds = [];
  e = record { offset = 0; inode_offset = 0; t = basic_directory; name_size = 0; name = b'b' ∷ [] };
  es = [];
  n = Squashfs.simple (b'b' ∷ []);
  key = 2;
  is_listing = refl;
  is_entries = refl;
  is_directory = refl;
  is_name = refl;
  is_key = refl;
  is_found = refl;
  differs = refl;
}

up : OpensWith (sample_word 2) (sample_word 4) circle lower upper
unfolding listing Squashfs.dir_from_index Squashfs.dirs_at Squashfs.listing_bytes
    backhand.Common.lookup backhand.Directory.Bytes.dirs_from_reader
    backhand.Directory.Bytes.dir_from_reader backhand.Directory.Bytes.entries_from_reader
    backhand.Directory.Bytes.entry_from_reader backhand.Directory.Bytes.inode_id_of
    backhand.Directory.Bytes.inode_id_number backhand.Deku.read_word backhand.Deku.read_bytes
    backhand.Directory.Bytes.dir_bytes backhand.Directory.Bytes.entry_bytes low_bytes of_bytes
    Squashfs.name Squashfs.is_file_name Squashfs.has_slash inode_key Same.same_inode
    Same.inode_fields Same.inner_fields
up = record {
  d = one_entry 1 b'a';
  ds = [];
  e = record { offset = 0; inode_offset = 0; t = basic_directory; name_size = 0; name = b'a' ∷ [] };
  es = [];
  n = Squashfs.simple (b'a' ∷ []);
  key = 1;
  is_listing = refl;
  is_entries = refl;
  is_directory = refl;
  is_name = refl;
  is_key = refl;
  is_found = refl;
  differs = refl;
}

abbrev round : ℕ → Inode
round zero = upper
round (suc zero) = lower
round (suc (suc k)) = round k

round-OpensWith :
    (k : ℕ) → OpensWith (sample_word 2) (sample_word 4) circle (round k) (round (suc k))
round-OpensWith zero = down
round-OpensWith (suc zero) = up
round-OpensWith (suc (suc k)) = round-OpensWith k

extract_dir-circle_example :
    extract_dir (sample_word 2) (sample_word 4) 1000 circle ([], []) upper ≡ diverges
extract_dir-circle_example =
    extract_dir-circle (sample_word 2) (sample_word 4) circle round round-OpensWith 1000 0 ([], [])

named_b :
    Squashfs.name (record {
      offset = 0;
      inode_offset = 0;
      t = basic_directory;
      name_size = 0;
      name = b'b' ∷ [];
    })
    ≡ ok (Squashfs.simple (b'b' ∷ []))
unfolding Squashfs.name Squashfs.is_file_name Squashfs.has_slash
named_b = refl

not_root :
    {c : List ℕ} (r : Result Squashfs.EntryName) → r ≡ ok (Squashfs.simple c) → r ≢ ok Squashfs.root
not_root r e f = ground arith

some_is :
    {a b : List Dir} (r : Result (Option (List Dir))) → r ≡ ok (some a) → r ≡ ok (some b) → a ≡ b
some_is r e f = some-injective _ _ (ok-injective (sym e ∙ f))

none_is : {b : List Dir} (r : Result (Option (List Dir))) → r ≡ ok none → r ≢ ok (some b)
none_is {b} r e f = none-ne-some b (ok-injective (sym e ∙ f))

empty_listing : listing (sample_word 2) (sample_word 4) small empty_dir.inner ≡ ok none
unfolding listing Squashfs.dir_from_index
empty_listing = refl

is_empty_dir : (key : ℕ) (i : Inode) → lookup key small.inodes ≡ some i → empty_dir ≡ i
unfolding backhand.Common.lookup
is_empty_dir key i e = elim (Bool-cases (2 == key)) [
  | inl same ↦ some-injective empty_dir i (sym (rw (same, backhand.Common.lookup) refl) ∙ e)
  | inr other ↦ absurd (none-ne-some i (sym (rw (other, backhand.Common.lookup) refl) ∙ e))
]

small-Named : Named (sample_word 2) (sample_word 4) small
small-Named i dirs (inl e) l =
    let dirs_are : one_entry 2 b'b' ∷ [] ≡ dirs =
      some_is (listing (sample_word 2) (sample_word 4) small root_dir.inner) root_listing
        (subst (λ k. listing (sample_word 2) (sample_word 4) small k.inner ≡ ok (some dirs)) e l) in
    subst DirsNamed dirs_are ((not_root _ named_b, tt), tt)
small-Named i dirs (inr (key, f)) l = absurd (
    none_is (listing (sample_word 2) (sample_word 4) small i.inner)
      (subst (λ k. listing (sample_word 2) (sample_word 4) small k.inner ≡ ok none)
        (is_empty_dir key i f) empty_listing)
      l)

extract_root-IsRooted_example : IfOk IsRooted (extract_root (sample_word 2) (sample_word 4) 3 small)
extract_root-IsRooted_example =
    extract_root-IsRooted (sample_word 2) (sample_word 4) 3 small small-Named

extract_dir-Added_example :
    IfOk (Added [] []) (extract_dir (sample_word 2) (sample_word 4) 3 small ([], []) root_dir)
extract_dir-Added_example =
    extract_dir-Added (sample_word 2) (sample_word 4) small 3 root_dir ([], []) small-Named
      (inl refl)

listing_bytes-panics_iff_example :
    (Squashfs.listing_bytes (1 ∷ 2 ∷ 3 ∷ []) 0xffff 0xffff_ffff ≡ panics)
    ↔ (2 ^ 32 ≤ 0xffff + 0xffff_ffff)
listing_bytes-panics_iff_example =
    listing_bytes-panics_iff (1 ∷ 2 ∷ 3 ∷ []) 0xffff 0xffff_ffff (omega arith)

b_fits : DirsFit (one_entry 2 b'b' ∷ [])
b_fits = (
  (
    omega arith,
    omega arith,
    omega arith,
    omega arith,
    ((omega arith, omega arith, omega arith, omega arith), tt),
  ),
  tt,
)

length-b : length (bytes_of (one_entry 2 b'b') ++ []) ≡ 21
unfolding backhand.Directory.Bytes.dir_bytes backhand.Directory.Bytes.entry_bytes low_bytes
    backhand.Directory.Bytes.inode_id_number
length-b = refl

-- The listing stands at offset 2 of the second block, behind a byte.
abbrev behind : Squashfs
behind = record small {
  dir_blocks = ((0, 0) ∷ (40, 1) ∷ [], 9 ∷ 8 ∷ 8 ∷ (bytes_of (one_entry 2 b'b') ++ [] ++ 7 ∷ []));
}

dir_from_index-dir_bytes_example :
    Squashfs.dir_from_index
      (sample_word 2)
      (sample_word 4)
      behind
      40
      (length (bytes_of (one_entry 2 b'b') ++ []) + 3)
      2
    ≡ ok (some (one_entry 2 b'b' ∷ []))
unfolding backhand.Common.lookup
dir_from_index-dir_bytes_example =
    dir_from_index-dir_bytes (sample_word 2) (sample_word 4) behind (one_entry 2 b'b' ∷ []) (9 ∷ [])
      (8 ∷ 8 ∷ []) (7 ∷ []) 40 b_fits (omega (arith, length-b)) refl refl
      (omega (arith, length-b, length-append (bytes_of (one_entry 2 b'b') ++ []) (7 ∷ [])))
