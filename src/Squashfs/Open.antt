-- ===== src/Squashfs/Open.antt =====
-- Reading an image, backhand/src/squashfs.rs and `inodes` of backhand/src/reader.rs: the superblock
-- with the compression options, the checks, the table of inodes, and the other tables behind each
-- other.
use backhand.Common.{
  ℕ, zero, suc, ◌+◌, ◌/◌, ◌%◌, ◌^◌, ◌==◌, not, ◌&&◌, if◌then◌else◌, Bool, true, false, Option, none,
  some, List, [], ◌∷◌, length, drop, insert, lookup,
}
use backhand.Compressor.{Compressor, uncompressed, CompressionOptions}
use backhand.Data.{Fragment}
use backhand.Error.{Result, ok, diverges, ◌>>=◌, ◌>>◌, require, corrupted_or_invalid_squashfs}
use backhand.ImageReader
use backhand.ImageReader.{uncompress_metadatas, Element}
use backhand.Inode.{Inode}
use backhand.Kinds.{Endian, Kind, WordCodec}
use backhand.Metadata.{Reader, read_block}
use backhand.NodeHeader.{OwnerId}
use backhand.Squashfs.{Export, Squashfs, ok_or}
use backhand.Squashfs.Walk.{FilesystemReader, into_filesystem_reader}
use backhand.Superblock.{SuperBlock, flag_set, compressor_options_are_present}
use backhand.Superblock.Bytes.{superblock_from_reader}
use backhand.Superblock.Checks.{check_block_size, check_tables}

-- What deku reads: numbers, entries of the tables, an inode from the front of bytes, and compression
-- options from all of some bytes, if they are that.
pub record Formats : Type 0 where
  pub u16 : WordCodec 2
  pub u32 : WordCodec 4
  pub u64 : WordCodec 8
  pub fragment : Element Fragment 16
  pub export : Element Export 8
  pub id : Element OwnerId 4
  pub inode_from_reader : SuperBlock → Kind → List ℕ → Result (Inode × List ℕ)
  pub options_from_reader : Endian → Compressor → List ℕ → Option CompressionOptions

module _ (f : Formats) where
  -- A reader moves on over a superblock.
  unfoldable pub read_superblock : Kind → Reader → Result (SuperBlock × Reader)
  read_superblock kind r = do
    (superblock, rest) ← superblock_from_reader f.u16 f.u32 f.u64 kind (drop r.pos r.image)
    ok (superblock, record r { pos = r.pos + 96 })

  unfoldable pub has_options : SuperBlock → Bool
  has_options s = not (is_none s.compressor) && flag_set compressor_options_are_present s
    where
      is_none : Compressor → Bool
      is_none uncompressed = true
      is_none c = false

  -- The options behind the superblock. Those that cannot be read are left out, without an error.
  unfoldable pub compression_options :
      SuperBlock → Kind → Reader → Result (Option CompressionOptions × Reader)
  compression_options superblock kind r =
      if has_options superblock
      then (do
        (bytes, r) ← read_block f.u16 superblock kind r
        ok (f.options_from_reader kind.type_endian superblock.compressor bytes, r))
      else ok (none, r)

  unfoldable pub superblock_and_compression_options :
      Kind → Reader → Result (SuperBlock × Option CompressionOptions × Reader)
  superblock_and_compression_options kind r = do
    (superblock, r) ← read_superblock kind r
    check_block_size superblock
    (options, r) ← compression_options superblock kind r
    ok (superblock, options, r)

  -- `while reader.bits_read != byte_len * 8`. An inode takes a byte at least.
  unfoldable pub inodes_loop :
      ℕ → SuperBlock → Kind → List ℕ → List (ℕ × Inode) → Result (List (ℕ × Inode))
  inodes_loop fuel superblock kind [] inodes = ok inodes
  inodes_loop zero superblock kind (b ∷ bs) inodes = diverges
  inodes_loop (suc fuel) superblock kind (b ∷ bs) inodes =
      f.inode_from_reader superblock kind (b ∷ bs) >>= λ (inode, rest).
      inodes_loop fuel superblock kind rest (insert inode.header.inode_number inode inodes)

  -- `inodes`: the root's inode, and all inodes by their numbers. `root_inode` holds where its block
  -- starts, and in the low 16 bits where it is in the block.
  unfoldable pub inodes : SuperBlock → Kind → Reader → Result (Inode × List (ℕ × Inode))
  inodes superblock kind r = do
    (found, bytes) ←
        uncompress_metadatas f.u16 superblock kind superblock.inode_table superblock.dir_table r
    table ← inodes_loop (length bytes) superblock kind bytes []
    require (length table == superblock.inode_count) corrupted_or_invalid_squashfs
    root_offset ←
        ok_or corrupted_or_invalid_squashfs (lookup (superblock.root_inode / 2 ^ 16) found)
    (root, rest) ←
        f.inode_from_reader superblock kind
          (drop (root_offset + superblock.root_inode % 2 ^ 16) bytes)
    ok (root, table)

  abbrev pub position {ℓ} : {T : Type ℓ} → Option (ℕ × T) → Option ℕ
  position none = none
  position (some (ptr, table)) = some ptr

  abbrev pub table_of {ℓ} : {T : Type ℓ} → Option (ℕ × T) → Option T
  table_of none = none
  table_of (some (ptr, table)) = some table

  -- Where the table of directories ends: at the first table behind it that is there.
  unfoldable pub last_dir_position : Option ℕ → Option ℕ → ℕ → ℕ
  last_dir_position (some fragment_ptr) export_ptr id_ptr = fragment_ptr
  last_dir_position none (some export_ptr) id_ptr = export_ptr
  last_dir_position none none id_ptr = id_ptr

  -- `inner_from_reader_with_offset_and_kind`. All tables are read from places of their own, so that
  -- where the reader stands after one of them does not matter to the next.
  unfoldable pub inner_from_reader : Reader → Kind → Result Squashfs
  inner_from_reader r kind = do
    (superblock, options, r) ← superblock_and_compression_options kind r
    check_tables (length r.image) superblock
    (root_inode, inodes) ← inodes superblock kind r
    fragments ← ImageReader.fragments f.u16 f.fragment f.u64 superblock kind r
    export ← ImageReader.export f.u16 f.export f.u64 superblock kind r
    (id_ptr, ids) ← ImageReader.id f.u16 f.id f.u64 superblock kind r
    dir_blocks ←
        uncompress_metadatas f.u16 superblock kind superblock.dir_table
          (last_dir_position (position fragments) (position export) id_ptr) r
    ok (record {
      kind = kind;
      superblock = superblock;
      compression_options = options;
      inodes = inodes;
      root_inode = root_inode;
      dir_blocks = dir_blocks;
      fragments = table_of fragments;
      export = table_of export;
      id = ids;
      file = r.image;
    })

  -- `from_reader_with_offset_and_kind`, where the image is what stands behind the offset.
  unfoldable pub from_reader_with_offset_and_kind : List ℕ → ℕ → Kind → Result Squashfs
  from_reader_with_offset_and_kind file offset kind =
      inner_from_reader (record { image = drop offset file; pos = 0 }) kind

  -- `FilesystemReader::from_reader_with_offset_and_kind` of backhand/src/filesystem/reader.rs
  unfoldable pub open_filesystem : ℕ → List ℕ → ℕ → Kind → Result FilesystemReader
  open_filesystem fuel file offset kind = do
    squashfs ← from_reader_with_offset_and_kind file offset kind
    into_filesystem_reader f.u16 f.u32 fuel squashfs
