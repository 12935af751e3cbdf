-- ===== src/Directory/Bytes/RoundTrip.antt =====
-- A directory table that is written entry by entry and header by header, as in
-- backhand/src/filesystem/writer.rs, is read back as it was by the loop of backhand/src/squashfs.rs.
use backhand.Common.{
  ℕ, zero, suc, ◌+◌, ◌*◌, ◌^◌, ◌≤◌, ◌<◌, ◌≡◌, refl, sym, ap, ◌∙◌, leb, le→leb, List, [], ◌∷◌, ◌++◌,
  length, take, drop, concat, map, append_assoc, append-nil, length-append, take-append,
  drop-append, arith,
}
use backhand.Deku.{read_bytes, read_word, read_bytes-append, read_word-append}
use backhand.Directory.{DirEntry, Dir}
use backhand.Directory.Bytes.{
  inode_id_number, inode_id_of, entry_bytes, entry_from_reader, entries_from_reader, dir_bytes,
  dir_from_reader, dirs_from_reader,
}
use backhand.Error.{Result, ok}
use backhand.Inode.{
  InodeId, basic_directory, basic_file, basic_symlink, basic_block_device, basic_character_device,
  basic_named_pipe, basic_socket, extended_directory, extended_file,
}
use backhand.Kinds.{Endian, WordCodec}

inode_id_of-number : (t : InodeId) → inode_id_of (inode_id_number t) ≡ ok t
unfolding inode_id_of inode_id_number backhand.Common.lookup
inode_id_of-number basic_directory = refl
inode_id_of-number basic_file = refl
inode_id_of-number basic_symlink = refl
inode_id_of-number basic_block_device = refl
inode_id_of-number basic_character_device = refl
inode_id_of-number basic_named_pipe = refl
inode_id_of-number basic_socket = refl
inode_id_of-number extended_directory = refl
inode_id_of-number extended_file = refl

inode_id_number-fits : (t : InodeId) → inode_id_number t < 256 ^ 2
unfolding inode_id_number
inode_id_number-fits t = ground arith

-- Numbers of an entry that fit their fields, and a name of the stated length.
abbrev pub EntryFits : DirEntry → Type 0
EntryFits d =
    (d.offset < 256 ^ 2)
    × (d.inode_offset < 256 ^ 2)
    × (d.name_size ≤ 0xfffe)
    × (d.name_size + 1 ≡ length d.name)

abbrev pub EntriesFit : List DirEntry → Type 0
EntriesFit [] = Unit
EntriesFit (d ∷ ds) = EntryFits d × EntriesFit ds

abbrev pub DirFits : Dir → Type 0
DirFits d =
    (d.start < 256 ^ 4)
    × (d.inode_num < 256 ^ 4)
    × (d.count ≤ 256)
    × (d.count + 1 ≡ length d.dir_entries)
    × EntriesFit d.dir_entries

abbrev pub DirsFit : List Dir → Type 0
DirsFit [] = Unit
DirsFit (d ∷ ds) = DirFits d × DirsFit ds

module _ (u16 : WordCodec 2) (e : Endian) where
  entry_bytes-append :
      (d : DirEntry) (rest : List ℕ)
      → entry_bytes u16 e d ++ rest
        ≡ u16.to_writer e d.offset
          ++ (u16.to_writer e d.inode_offset
              ++ (u16.to_writer e (inode_id_number d.t)
                  ++ (u16.to_writer e d.name_size ++ (d.name ++ rest))))
  unfolding entry_bytes
  entry_bytes-append d rest = simp append_assoc refl

  pub entry_from_reader-bytes :
      (d : DirEntry) (rest : List ℕ)
      → EntryFits d
      → entry_from_reader u16 e (entry_bytes u16 e d ++ rest) ≡ ok (d, rest)
  unfolding entry_from_reader
  entry_from_reader-bytes d rest (a, b, c, n) =
      let size = u16.to_writer e d.name_size ++ (d.name ++ rest) in
      let t = u16.to_writer e (inode_id_number d.t) ++ size in
      let inode_offset = u16.to_writer e d.inode_offset ++ t in
      rw (entry_bytes-append d rest) (
        rw
          (
            read_word-append u16 e d.offset inode_offset a,
            read_word-append u16 e d.inode_offset t b,
            read_word-append u16 e (inode_id_number d.t) size (inode_id_number-fits d.t),
            inode_id_of-number d.t,
            read_word-append u16 e d.name_size (d.name ++ rest) (omega arith),
            le→leb d.name_size 0xfffe c,
            read_bytes-append d.name rest (suc d.name_size) (omega arith),
          )
          refl)

  pub entries_from_reader-bytes :
      (ds : List DirEntry) (rest : List ℕ)
      → EntriesFit ds
      → entries_from_reader u16 (length ds) e (concat (map (entry_bytes u16 e) ds) ++ rest)
        ≡ ok (ds, rest)
  unfolding entries_from_reader
  entries_from_reader-bytes [] rest h = refl
  entries_from_reader-bytes (d ∷ ds) rest (f, fs) =
      let others = concat (map (entry_bytes u16 e) ds) in
      rw (append_assoc (entry_bytes u16 e d) others rest) (
        rw (entry_from_reader-bytes d (others ++ rest) f)
          (rw (entries_from_reader-bytes ds rest fs) refl))

  module _ (u32 : WordCodec 4) where
    dir_bytes-append :
        (d : Dir) (rest : List ℕ)
        → dir_bytes u16 u32 e d ++ rest
          ≡ u32.to_writer e d.count
            ++ (u32.to_writer e d.start
                ++ (u32.to_writer e d.inode_num
                    ++ (concat (map (entry_bytes u16 e) d.dir_entries) ++ rest)))
    unfolding dir_bytes
    dir_bytes-append d rest = simp append_assoc refl

    pub dir_from_reader-bytes :
        (d : Dir) (rest : List ℕ)
        → DirFits d
        → dir_from_reader u16 u32 e (dir_bytes u16 u32 e d ++ rest) ≡ ok (d, rest)
    unfolding dir_from_reader
    dir_from_reader-bytes d rest (s, i, few, n, fit) =
        let entries = concat (map (entry_bytes u16 e) d.dir_entries) ++ rest in
        let inode = u32.to_writer e d.inode_num ++ entries in
        let n' : suc d.count ≡ length d.dir_entries = omega arith in
        rw (dir_bytes-append d rest) (
          rw
            (
              read_word-append u32 e d.count (u32.to_writer e d.start ++ inode) (omega arith),
              le→leb d.count 256 few,
              read_word-append u32 e d.start inode s,
              read_word-append u32 e d.inode_num entries i,
            )
            (rw n' (rw (entries_from_reader-bytes d.dir_entries rest fit) refl)))

    length-dir_bytes : (d : Dir) → 12 ≤ length (dir_bytes u16 u32 e d)
    unfolding dir_bytes
    length-dir_bytes d =
        let count = u32.to_writer e d.count in
        let start = u32.to_writer e d.start in
        let inode = u32.to_writer e d.inode_num in
        omega (
          arith,
          length-append (count ++ start ++ inode) (concat (map (entry_bytes u16 e) d.dir_entries)),
          length-append (count ++ start) inode,
          length-append count start,
          u32.length-to_writer e d.count,
          u32.length-to_writer e d.start,
          u32.length-to_writer e d.inode_num,
        )

    read_end : dir_from_reader u16 u32 e [] ≡ backhand.Error.err backhand.Error.deku
    unfolding dir_from_reader read_word read_bytes
    read_end = refl

    -- Whatever `Dir`s fit their fields, the loop reads them back from their bytes.
    pub dirs_from_reader-bytes :
        (ds : List Dir) (fuel : ℕ)
        → DirsFit ds
        → length (concat (map (dir_bytes u16 u32 e) ds)) < fuel
        → dirs_from_reader u16 u32 fuel e (concat (map (dir_bytes u16 u32 e) ds)) ≡ ok ds
    unfolding dirs_from_reader
    dirs_from_reader-bytes [] zero h f = absurd (omega arith)
    dirs_from_reader-bytes [] (suc fuel) h f = rw (read_end, dirs_from_reader) refl
    dirs_from_reader-bytes (d ∷ ds) zero h f = absurd (omega arith)
    dirs_from_reader-bytes (d ∷ ds) (suc fuel) (h, hs) f =
        let others = concat (map (dir_bytes u16 u32 e) ds) in
        let f' : length others < fuel =
          omega (arith, f, length-append (dir_bytes u16 u32 e d) others, length-dir_bytes d) in
        rw (dir_from_reader-bytes d others h, dirs_from_reader)
          (rw (dirs_from_reader-bytes ds fuel hs f') refl)
