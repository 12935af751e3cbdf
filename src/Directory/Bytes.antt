-- ===== src/Directory/Bytes.antt =====
-- The bytes of a directory table, as deku reads and writes `Dir` and `DirEntry` of
-- backhand/src/dir.rs: the fields in their order, with the attributes of their declarations.
pub mod Ends
pub mod RoundTrip
use backhand.Common.{
  ℕ, zero, suc, ◌+◌, leb, if◌then◌else◌, Option, none, some, lookup, List, [], ◌∷◌, ◌++◌, length,
  take, drop, concat, map,
}
use backhand.Deku.{read_bytes, read_word}
use backhand.Directory.{DirEntry, Dir}
use backhand.Error.{Result, ok, err, panics, diverges, ◌>>=◌, ◌>>◌, assert, require, deku}
use backhand.Inode.{
  InodeId, basic_directory, basic_file, basic_symlink, basic_block_device, basic_character_device,
  basic_named_pipe, basic_socket, extended_directory, extended_file,
}
use backhand.Kinds.{Endian, WordCodec}

-- The discriminants of `InodeId`
unfoldable pub inode_id_number : InodeId → ℕ
inode_id_number basic_directory = 1
inode_id_number basic_file = 2
inode_id_number basic_symlink = 3
inode_id_number basic_block_device = 4
inode_id_number basic_character_device = 5
inode_id_number basic_named_pipe = 6
inode_id_number basic_socket = 7
inode_id_number extended_directory = 8
inode_id_number extended_file = 9

abbrev pub inode_ids : List (ℕ × InodeId)
inode_ids =
    (1, basic_directory)
    ∷ (2, basic_file)
    ∷ (3, basic_symlink)
    ∷ (4, basic_block_device)
    ∷ (5, basic_character_device)
    ∷ (6, basic_named_pipe)
    ∷ (7, basic_socket)
    ∷ (8, extended_directory)
    ∷ (9, extended_file)
    ∷ []

abbrev pub ok_or_deku : Option InodeId → Result InodeId
ok_or_deku none = err deku
ok_or_deku (some t) = ok t

-- `InodeId::from_reader_with_ctx`, from the number read; another number is an error.
unfoldable pub inode_id_of : ℕ → Result InodeId
unfolding lookup
inode_id_of n = ok_or_deku (lookup n inode_ids)

module _ (u16 : WordCodec 2) where
  -- `DirEntry::to_writer`
  unfoldable pub entry_bytes : Endian → DirEntry → List ℕ
  unfolding inode_id_number
  entry_bytes e entry =
      u16.to_writer e entry.offset
      ++ u16.to_writer e entry.inode_offset
      ++ u16.to_writer e (inode_id_number entry.t)
      ++ u16.to_writer e entry.name_size
      ++ entry.name

  -- `DirEntry::from_reader_with_ctx`. The count `*name_size + 1` is computed in 16 bits, and panics
  -- where it overflows.
  unfoldable pub entry_from_reader : Endian → List ℕ → Result (DirEntry × List ℕ)
  entry_from_reader e bytes = do
    (offset, bytes) ← read_word u16 e bytes
    (inode_offset, bytes) ← read_word u16 e bytes
    (id, bytes) ← read_word u16 e bytes
    t ← inode_id_of id
    (name_size, bytes) ← read_word u16 e bytes
    assert (leb name_size 0xfffe)
    (name, bytes) ← read_bytes (suc name_size) bytes
    ok (
      record {
        offset = offset;
        inode_offset = inode_offset;
        t = t;
        name_size = name_size;
        name = name;
      },
      bytes,
    )

  -- `count = "*count + 1"`
  unfoldable pub entries_from_reader : ℕ → Endian → List ℕ → Result (List DirEntry × List ℕ)
  entries_from_reader zero e bytes = ok ([], bytes)
  entries_from_reader (suc n) e bytes = entry_from_reader e bytes >>= λ (entry, rest).
      entries_from_reader n e rest >>= λ (entries, rest'). ok (entry ∷ entries, rest')

  module _ (u32 : WordCodec 4) where
    -- `Dir::to_writer`
    unfoldable pub dir_bytes : Endian → Dir → List ℕ
    dir_bytes e d =
        u32.to_writer e d.count
        ++ u32.to_writer e d.start
        ++ u32.to_writer e d.inode_num
        ++ concat (map (entry_bytes e) d.dir_entries)

    -- `Dir::from_reader_with_ctx`, with `assert = "*count <= 256"`
    unfoldable pub dir_from_reader : Endian → List ℕ → Result (Dir × List ℕ)
    dir_from_reader e bytes = do
      (count, bytes) ← read_word u32 e bytes
      require (leb count 256) deku
      (start, bytes) ← read_word u32 e bytes
      (inode_num, bytes) ← read_word u32 e bytes
      (dir_entries, bytes) ← entries_from_reader (suc count) e bytes
      ok (
        record { count = count; start = start; inode_num = inode_num; dir_entries = dir_entries },
        bytes,
      )

    -- `while let Ok(t) = Dir::from_reader_with_ctx(…)`. A directory takes twelve bytes at least, so
    -- that the number of bytes is fuel enough.
    unfoldable pub dirs_from_reader : ℕ → Endian → List ℕ → Result (List Dir)
    dirs_from_reader zero e bytes = diverges
    dirs_from_reader (suc fuel) e bytes = elim (dir_from_reader e bytes) [
      | ok (d, rest) ↦ dirs_from_reader fuel e rest >>= λ ds. ok (d ∷ ds)
      | err why ↦ ok []
      | panics ↦ panics
      | diverges ↦ diverges
    ]
