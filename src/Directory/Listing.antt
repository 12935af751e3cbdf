-- ===== src/Directory/Listing.antt =====
-- The directory listing of backhand/src/entry.rs keeps every entry: what a reader of the `Dir`s
-- makes of them is the list of entries, in its order.
use mathlib.Core.List.{map-append}
use mathlib.Core.Path.{subst}
use backhand.Common.{
  ◌-◌, ℕ, ◌+◌, ◌^◌, ◌≤◌, ◌<◌, ◌≡◌, refl, sym, ap, ◌∙◌, ltb, true, false, Bool-cases, inl, inr, List,
  [], ◌∷◌, ◌++◌, map, length, length-append, append_assoc, append-nil, arith, le→leb, lt→ltb,
}
use backhand.Directory.{
  Entry, DirEntry, Dir, push, push_entries, create_dir, lower, u32_max, splits, dirs_from, into_dir,
  in_reach,
}
use backhand.Error.{Result, ok, ◌>>=◌}
use backhand.Inode.{InodeId, into_base_type}
use backhand.Squashfs.{inode_key}

-- What a reader learns of one file: where its inode is, its number, its type and its name.
pub record Listed : Type 0 where
  pub start : ℕ
  pub offset : ℕ
  pub inode : ℕ
  pub t : InodeId
  pub name_size : ℕ
  pub name : List ℕ

abbrev pub listed : Entry → Listed
listed e = record {
  start = e.start;
  offset = e.offset;
  inode = e.inode;
  t = into_base_type e.t;
  name_size = e.name_size;
  name = e.name;
}

-- What the reader learns where it can add the difference to the header's number.
abbrev pub read_entry : ℕ → ℕ → DirEntry → Listed
read_entry start inode_num e = record {
  start = start;
  offset = e.offset;
  inode = inode_num + e.inode_offset;
  t = e.t;
  name_size = e.name_size;
  name = e.name;
}

abbrev pub read_dir : Dir → List Listed
read_dir d = map (read_entry d.start d.inode_num) d.dir_entries

abbrev pub read_dirs : List Dir → List Listed
read_dirs [] = []
read_dirs (d ∷ ds) = read_dir d ++ read_dirs ds

-- The differences fit an `i16`.
abbrev pub AllNear : List DirEntry → Type 0
AllNear [] = Unit
AllNear (e ∷ es) = (e.inode_offset ≤ 0x7fff) × AllNear es

-- A header that stands before its entries: their number less one, and 256 of them at most.
abbrev pub WellFormed : Dir → Type 0
WellFormed d =
    (d.count + 1 ≡ length d.dir_entries) × (length d.dir_entries ≤ 256) × AllNear d.dir_entries

-- The entries of a directory by the way that `extract_dir` takes: `inode_key` adds the numbers.
abbrev pub key_entries : Dir → List DirEntry → Result (List Listed)
key_entries d [] = ok []
key_entries d (e ∷ es) = inode_key d e >>= λ inode. key_entries d es >>= λ rest. ok (
    record {
      start = d.start;
      offset = e.offset;
      inode = inode;
      t = e.t;
      name_size = e.name_size;
      name = e.name;
    }
    ∷ rest)

abbrev pub key_dirs : List Dir → Result (List Listed)
key_dirs [] = ok []
key_dirs (d ∷ ds) =
    key_entries d d.dir_entries >>= λ here. key_dirs ds >>= λ rest. ok (here ++ rest)

abbrev pub AllWellFormed : List Dir → Type 0
AllWellFormed [] = Unit
AllWellFormed (d ∷ ds) = WellFormed d × AllWellFormed ds

-- Inode numbers that fit an `i32` and do not fall.
abbrev pub Rising : ℕ → List Entry → Type 0
Rising low [] = Unit
Rising low (e ∷ es) = (low ≤ e.inode) × (e.inode < 2 ^ 31) × Rising e.inode es

-- A group of entries that share a `Dir`.
abbrev Together : ℕ → ℕ → List Entry → Type 0
Together start lowest [] = Unit
Together start lowest (e ∷ es) =
    (e.start ≡ start)
    × (lowest ≤ e.inode)
    × (e.inode ≤ lowest + 0x7fff)
    × (e.inode < 2 ^ 31)
    × Together start lowest es

abbrev made : ℕ → Entry → DirEntry
made lowest e = record {
  offset = e.offset;
  inode_offset = e.inode - lowest;
  t = into_base_type e.t;
  name_size = e.name_size;
  name = e.name;
}

-- The number that the entry stores is the one that the reader adds up to.
read_entry-made :
    (start lowest : ℕ) (e : Entry)
    → e.start ≡ start
    → lowest ≤ e.inode
    → e.inode < 2 ^ 31
    → read_entry start lowest (made lowest e) ≡ listed e
read_entry-made start lowest e s l h =
    let sum : lowest + (e.inode - lowest) ≡ e.inode = omega arith in
    λ i. record {
      start = sym s i;
      offset = e.offset;
      inode = sum i;
      t = into_base_type e.t;
      name_size = e.name_size;
      name = e.name;
    }

read-push :
    (start lowest : ℕ) (d : Dir) (e : Entry)
    → d.start ≡ start
    → d.inode_num ≡ lowest
    → e.start ≡ start
    → lowest ≤ e.inode
    → e.inode < 2 ^ 31
    → read_dir (push d (made lowest e)) ≡ read_dir d ++ listed e ∷ []
unfolding push
read-push start lowest d e s n es l h =
    rw (s, n)
      (map-append (read_entry start lowest) d.dir_entries (made lowest e ∷ [])
        ∙ rw (read_entry-made start lowest e es l h))

in_reach-close : (a b : ℕ) → b ≤ a → a ≤ b + 0x7fff → in_reach a b ≡ true
in_reach-close a b h g = rw (le→leb b a h, le→leb (a - b) 0x7fff (omega arith)) refl

AllNear-append :
    (es : List DirEntry) (e : DirEntry)
    → AllNear es
    → e.inode_offset ≤ 0x7fff
    → AllNear (es ++ e ∷ [])
AllNear-append [] e h g = (g, tt)
AllNear-append (x ∷ es) e h g = (h.0, AllNear-append es e h.1 g)

record Pushed (start lowest : ℕ) (d : Dir) (es : List Entry) (r : Result Dir) : Type 0 where
  dir : Dir
  returns : r ≡ ok dir
  counted : dir.count + 1 ≡ length dir.dir_entries
  grown : length dir.dir_entries ≡ length d.dir_entries + length es
  near : AllNear dir.dir_entries
  reads : read_dir dir ≡ read_dir d ++ map listed es

push_entries-Pushed :
    (start lowest : ℕ) (d : Dir) (es : List Entry)
    → d.start ≡ start
    → d.inode_num ≡ lowest
    → d.count + 1 ≡ length d.dir_entries
    → length d.dir_entries + length es ≤ 256
    → AllNear d.dir_entries
    → Together start lowest es
    → Pushed start lowest d es (push_entries d es lowest)
unfolding push_entries
push_entries-Pushed start lowest d [] s n c room ns g = record {
  dir = d;
  returns = refl;
  counted = c;
  grown = omega arith;
  near = ns;
  reads = sym (append-nil (read_dir d));
}
push_entries-Pushed start lowest d (e ∷ es) s n c room ns (at, low, near, small, more) =
    let d' = push d (made lowest e) in
    let size = length-append d.dir_entries (made lowest e ∷ []) in
    let p =
      push_entries-Pushed start lowest d' es s n (omega (arith, size)) (omega (arith, size))
        (AllNear-append d.dir_entries (made lowest e) ns (omega arith)) more in
    let close = in_reach-close e.inode lowest low near in
    record {
      dir = p.dir;
      returns = rw close p.returns;
      counted = p.counted;
      grown = omega (arith, p.grown, size);
      near = p.near;
      reads =
          p.reads
          ∙ rw (read-push start lowest d e s n at low small)
              (append_assoc (read_dir d) (listed e ∷ []) (map listed es));
    }

record Created (start : ℕ) (es : List Entry) (r : Result Dir) : Type 0 where
  dir : Dir
  returns : r ≡ ok dir
  formed : WellFormed dir
  reads : read_dir dir ≡ map listed es

create_dir-Created :
    (start lowest : ℕ) (e : Entry) (es : List Entry)
    → length (e ∷ es) ≤ 255
    → Together start lowest (e ∷ es)
    → Created start (e ∷ es) (create_dir (e ∷ es) start lowest)
unfolding create_dir
create_dir-Created start lowest e es room (at, low, near, small, more) =
    let d : Dir = record {
      count = length (e ∷ es);
      start = start;
      inode_num = lowest;
      dir_entries = [];
    } in
    let d' = push d (made lowest e) in
    let p =
      push_entries-Pushed start lowest d' es refl refl (omega arith) (omega arith) (omega arith, tt)
        more in
    let few : ltb (length (e ∷ es)) 256 ≡ true = lt→ltb _ 256 (omega arith) in
    let close = in_reach-close e.inode lowest low near in
    record {
      dir = p.dir;
      returns = rw few (rw close p.returns);
      formed = (p.counted, omega (arith, p.grown), p.near);
      reads =
          p.reads
          ∙ ap (λ t. t ++ map listed es) (read-push start lowest d e refl refl at low small);
    }

Together-append :
    (start lowest : ℕ) (es : List Entry) (e : Entry)
    → Together start lowest es
    → Together start lowest (e ∷ [])
    → Together start lowest (es ++ e ∷ [])
Together-append start lowest [] e h g = g
Together-append start lowest (x ∷ es) e (a, b, c, d, h) g =
    (a, b, c, d, Together-append start lowest es e h g)

record Listing (es : List Entry) (r : Result (List Dir)) : Type 0 where
  dirs : List Dir
  returns : r ≡ ok dirs
  formed : AllWellFormed dirs
  reads : read_dirs dirs ≡ map listed es

-- The entry after a group either joins it, or opens a new one.
splits-cases :
    (group : List Entry) (start lowest : ℕ) (next : Entry)
    → lowest ≤ next.inode
    → splits group start lowest next ≡ false
    → (next.start ≡ start) × (next.inode ≤ lowest + 0x7fff) × (length group < 255)
unfolding splits
splits-cases group start lowest next low h = ground arith

lower-Rising : (lowest : ℕ) (e : Entry) → lowest ≤ e.inode → lower lowest e ≡ lowest
lower-Rising lowest e h = ground arith

lower-u32_max : (e : Entry) → e.inode < 2 ^ 31 → lower u32_max e ≡ e.inode
lower-u32_max e h = ground arith

dirs_from-Listing :
    (rest group : List Entry) (e : Entry) (start lowest last : ℕ)
    → length (e ∷ group) ≤ 255
    → Together start lowest (e ∷ group)
    → lowest ≤ last
    → Rising last rest
    → Listing ((e ∷ group) ++ rest) (dirs_from (e ∷ group) start lowest rest)
unfolding dirs_from
dirs_from-Listing [] group e start lowest last room near low up =
    let c = create_dir-Created start lowest e group room near in
    record {
      dirs = c.dir ∷ [];
      returns = rw c.returns;
      formed = (c.formed, tt);
      reads =
          append-nil (read_dir c.dir) ∙ c.reads ∙ ap (map listed) (sym (append-nil (e ∷ group)));
    }
dirs_from-Listing (next ∷ rest) group e start lowest last room near low (above, small, up) =
    elim (Bool-cases (splits (e ∷ group) start lowest next)) [
      | inl opens ↦
          let c = create_dir-Created start lowest e group room near in
          let d =
            dirs_from-Listing rest [] next next.start next.inode next.inode (omega arith)
              (refl, omega arith, omega arith, small, tt) (omega arith) up in
          record {
            dirs = c.dir ∷ d.dirs;
            returns =
                rw (opens, dirs_from) (rw (c.returns, lower-u32_max next small) (rw d.returns));
            formed = (c.formed, d.formed);
            reads = rw (c.reads, d.reads) (sym (map-append listed (e ∷ group) (next ∷ rest)));
          }
      | inr joins ↦
          let (same, close, few) = splits-cases (e ∷ group) start lowest next (omega arith) joins in
          let d =
            dirs_from-Listing rest (group ++ next ∷ []) e start lowest next.inode
              (omega (arith, length-append group (next ∷ [])))
              (Together-append start lowest (e ∷ group) next near
                (same, omega arith, close, small, tt))
              (omega arith) up in
          record {
            dirs = d.dirs;
            returns = rw (joins, dirs_from) (rw (lower-Rising lowest next (omega arith)) d.returns);
            formed = d.formed;
            reads = d.reads ∙ ap (map listed) (append_assoc (e ∷ group) (next ∷ []) rest);
          }
    ]

-- All of these numbers fit an `i32`.
abbrev Small : List Listed → Type 0
Small [] = Unit
Small (l ∷ ls) = (l.inode < 2 ^ 31) × Small ls

Small-listed : (low : ℕ) (es : List Entry) → Rising low es → Small (map listed es)
Small-listed low [] up = tt
Small-listed low (e ∷ es) (above, small, up) = (small, Small-listed e.inode es up)

Small-append : (xs ys : List Listed) → Small (xs ++ ys) → Small xs × Small ys
Small-append [] ys h = (tt, h)
Small-append (x ∷ xs) ys (h, hs) = let (left, right) = Small-append xs ys hs in ((h, left), right)

-- The reader's sum is the plain one where that fits an `i32` and the difference is not negative.
inode_key-near :
    (d : Dir) (e : DirEntry)
    → e.inode_offset ≤ 0x7fff
    → d.inode_num + e.inode_offset < 2 ^ 31
    → inode_key d e ≡ ok (d.inode_num + e.inode_offset)
unfolding inode_key
inode_key-near d e near small = ground arith

key_entries-near :
    (d : Dir) (es : List DirEntry)
    → AllNear es
    → Small (map (read_entry d.start d.inode_num) es)
    → key_entries d es ≡ ok (map (read_entry d.start d.inode_num) es)
key_entries-near d [] near small = refl
key_entries-near d (e ∷ es) (near, nears) (small, smalls) =
    rw (inode_key-near d e near small, key_entries-near d es nears smalls) refl

key_dirs-near :
    (ds : List Dir) → AllWellFormed ds → Small (read_dirs ds) → key_dirs ds ≡ ok (read_dirs ds)
key_dirs-near [] formed small = refl
key_dirs-near (d ∷ ds) ((counted, few, near), formed) small =
    let (here, later) = Small-append (read_dir d) (read_dirs ds) small in
    rw (key_entries-near d d.dir_entries near here, key_dirs-near ds formed later) refl

into_dir-Listing : (es : List Entry) → Rising 0 es → Listing es (into_dir es)
unfolding into_dir
into_dir-Listing [] up = record { dirs = []; returns = refl; formed = tt; reads = refl }
into_dir-Listing (e ∷ es) (above, small, up) =
    let d =
      dirs_from-Listing es [] e e.start e.inode e.inode (omega arith)
        (refl, omega arith, omega arith, small, tt) (omega arith) up in
    record {
      dirs = d.dirs;
      returns = rw (lower-u32_max e small) d.returns;
      formed = d.formed;
      reads = d.reads;
    }

-- For entries whose inode numbers fit an `i32` and do not fall, `into_dir` does not panic; the
-- `Dir`s that it returns hold 256 entries at most, each with a count one under the number of its
-- entries and differences that fit an `i16`; and the sums that `extract_dir` makes of them, with
-- their overflow checks, give back every entry: its inode's place, its number, its basic type and
-- its name, in the order of the entries.
pub into_dir-lists :
    (es : List Entry)
    → Rising 0 es
    → (dirs : List Dir) × (into_dir es ≡ ok dirs)
      × AllWellFormed dirs
      × (key_dirs dirs ≡ ok (map listed es))
into_dir-lists es up =
    let d = into_dir-Listing es up in
    (
      d.dirs,
      d.returns,
      d.formed,
      key_dirs-near d.dirs d.formed (subst Small (sym d.reads) (Small-listed 0 es up))
          ∙ ap ok d.reads,
    )
