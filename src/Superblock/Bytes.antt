-- ===== src/Superblock/Bytes.antt =====
-- The bytes of a superblock, as deku reads and writes `SuperBlock` of backhand/src/squashfs.rs: the
-- fields in their order, the magic and the version asserted.
use backhand.Common.{
  same_bytes, same_bytes_refl, ℕ, ◌^◌, ◌<◌, ◌≡◌, refl, ◌==◌, ==_refl, sym, Option, none, some, List,
  [], ◌∷◌, ◌++◌, length, lookup, append_assoc, arith,
}
use backhand.Compressor.{Compressor, uncompressed, gzip, lzma, lzo, xz, lz4, zstd}
use backhand.Deku.{read_bytes, read_word, read_bytes-append, read_word-append}
use backhand.Error.{Result, ok, err, ◌>>=◌, ◌>>◌, require, deku}
use backhand.Kinds.{Endian, WordCodec, Kind}
use backhand.Superblock.{SuperBlock}

-- The discriminants of `Compressor`
unfoldable pub compressor_number : Compressor → ℕ
compressor_number uncompressed = 0
compressor_number gzip = 1
compressor_number lzma = 2
compressor_number lzo = 3
compressor_number xz = 4
compressor_number lz4 = 5
compressor_number zstd = 6

abbrev pub compressors : List (ℕ × Compressor)
compressors =
    (0, uncompressed) ∷ (1, gzip) ∷ (2, lzma) ∷ (3, lzo) ∷ (4, xz) ∷ (5, lz4) ∷ (6, zstd) ∷ []

abbrev known : Option Compressor → Result Compressor
known none = err deku
known (some c) = ok c

unfoldable pub compressor_of : ℕ → Result Compressor
unfolding lookup
compressor_of n = known (lookup n compressors)

module _ (u16 : WordCodec 2) (u32 : WordCodec 4) (u64 : WordCodec 8) where
  -- `SuperBlock::to_writer`
  unfoldable pub superblock_bytes : Endian → SuperBlock → List ℕ
  unfolding compressor_number
  superblock_bytes e s =
      s.magic
      ++ u32.to_writer e s.inode_count
      ++ u32.to_writer e s.mod_time
      ++ u32.to_writer e s.block_size
      ++ u32.to_writer e s.frag_count
      ++ u16.to_writer e (compressor_number s.compressor)
      ++ u16.to_writer e s.block_log
      ++ u16.to_writer e s.flags
      ++ u16.to_writer e s.id_count
      ++ u16.to_writer e s.version_major
      ++ u16.to_writer e s.version_minor
      ++ u64.to_writer e s.root_inode
      ++ u64.to_writer e s.bytes_used
      ++ u64.to_writer e s.id_table
      ++ u64.to_writer e s.xattr_table
      ++ u64.to_writer e s.inode_table
      ++ u64.to_writer e s.dir_table
      ++ u64.to_writer e s.frag_table
      ++ u64.to_writer e s.export_table

  -- `SuperBlock::from_reader_with_ctx`
  unfoldable pub superblock_from_reader : Kind → List ℕ → Result (SuperBlock × List ℕ)
  superblock_from_reader kind bytes = do
    let e = kind.type_endian
    (magic, bytes) ← read_bytes 4 bytes
    require (same_bytes magic kind.magic) deku
    (inode_count, bytes) ← read_word u32 e bytes
    (mod_time, bytes) ← read_word u32 e bytes
    (block_size, bytes) ← read_word u32 e bytes
    (frag_count, bytes) ← read_word u32 e bytes
    (number, bytes) ← read_word u16 e bytes
    compressor ← compressor_of number
    (block_log, bytes) ← read_word u16 e bytes
    (flags, bytes) ← read_word u16 e bytes
    (id_count, bytes) ← read_word u16 e bytes
    (version_major, bytes) ← read_word u16 e bytes
    require (version_major == kind.version_major) deku
    (version_minor, bytes) ← read_word u16 e bytes
    require (version_minor == kind.version_minor) deku
    (root_inode, bytes) ← read_word u64 e bytes
    (bytes_used, bytes) ← read_word u64 e bytes
    (id_table, bytes) ← read_word u64 e bytes
    (xattr_table, bytes) ← read_word u64 e bytes
    (inode_table, bytes) ← read_word u64 e bytes
    (dir_table, bytes) ← read_word u64 e bytes
    (frag_table, bytes) ← read_word u64 e bytes
    (export_table, bytes) ← read_word u64 e bytes
    ok (
      record {
        magic = magic;
        inode_count = inode_count;
        mod_time = mod_time;
        block_size = block_size;
        frag_count = frag_count;
        compressor = compressor;
        block_log = block_log;
        flags = flags;
        id_count = id_count;
        version_major = version_major;
        version_minor = version_minor;
        root_inode = root_inode;
        bytes_used = bytes_used;
        id_table = id_table;
        xattr_table = xattr_table;
        inode_table = inode_table;
        dir_table = dir_table;
        frag_table = frag_table;
        export_table = export_table;
      },
      bytes,
    )

compressor_of-number : (c : Compressor) → compressor_of (compressor_number c) ≡ ok c
unfolding compressor_of compressor_number lookup
compressor_of-number uncompressed = refl
compressor_of-number gzip = refl
compressor_of-number lzma = refl
compressor_of-number lzo = refl
compressor_of-number xz = refl
compressor_of-number lz4 = refl
compressor_of-number zstd = refl

compressor_number-fits : (c : Compressor) → compressor_number c < 256 ^ 2
unfolding compressor_number
compressor_number-fits c = ground arith

-- Every number fits its field, and the magic and the version are those of the kind.
pub record Fits (kind : Kind) (s : SuperBlock) : Type 0 where
  pub four : length s.magic ≡ 4
  pub magic : s.magic ≡ kind.magic
  pub version_major : s.version_major ≡ kind.version_major
  pub version_minor : s.version_minor ≡ kind.version_minor
  pub inode_count_fits : s.inode_count < 256 ^ 4
  pub mod_time_fits : s.mod_time < 256 ^ 4
  pub block_size_fits : s.block_size < 256 ^ 4
  pub frag_count_fits : s.frag_count < 256 ^ 4
  pub block_log_fits : s.block_log < 256 ^ 2
  pub flags_fits : s.flags < 256 ^ 2
  pub id_count_fits : s.id_count < 256 ^ 2
  pub version_major_fits : s.version_major < 256 ^ 2
  pub version_minor_fits : s.version_minor < 256 ^ 2
  pub root_inode_fits : s.root_inode < 256 ^ 8
  pub bytes_used_fits : s.bytes_used < 256 ^ 8
  pub id_table_fits : s.id_table < 256 ^ 8
  pub xattr_table_fits : s.xattr_table < 256 ^ 8
  pub inode_table_fits : s.inode_table < 256 ^ 8
  pub dir_table_fits : s.dir_table < 256 ^ 8
  pub frag_table_fits : s.frag_table < 256 ^ 8
  pub export_table_fits : s.export_table < 256 ^ 8

module _ (u16 : WordCodec 2) (u32 : WordCodec 4) (u64 : WordCodec 8) (e : Endian) where
  -- What follows a field
  abbrev from_export_table : SuperBlock → List ℕ → List ℕ
  from_export_table s rest = u64.to_writer e s.export_table ++ rest

  abbrev from_frag_table : SuperBlock → List ℕ → List ℕ
  from_frag_table s rest = u64.to_writer e s.frag_table ++ from_export_table s rest

  abbrev from_dir_table : SuperBlock → List ℕ → List ℕ
  from_dir_table s rest = u64.to_writer e s.dir_table ++ from_frag_table s rest

  abbrev from_inode_table : SuperBlock → List ℕ → List ℕ
  from_inode_table s rest = u64.to_writer e s.inode_table ++ from_dir_table s rest

  abbrev from_xattr_table : SuperBlock → List ℕ → List ℕ
  from_xattr_table s rest = u64.to_writer e s.xattr_table ++ from_inode_table s rest

  abbrev from_id_table : SuperBlock → List ℕ → List ℕ
  from_id_table s rest = u64.to_writer e s.id_table ++ from_xattr_table s rest

  abbrev from_bytes_used : SuperBlock → List ℕ → List ℕ
  from_bytes_used s rest = u64.to_writer e s.bytes_used ++ from_id_table s rest

  abbrev from_root_inode : SuperBlock → List ℕ → List ℕ
  from_root_inode s rest = u64.to_writer e s.root_inode ++ from_bytes_used s rest

  abbrev from_version_minor : SuperBlock → List ℕ → List ℕ
  from_version_minor s rest = u16.to_writer e s.version_minor ++ from_root_inode s rest

  abbrev from_version_major : SuperBlock → List ℕ → List ℕ
  from_version_major s rest = u16.to_writer e s.version_major ++ from_version_minor s rest

  abbrev from_id_count : SuperBlock → List ℕ → List ℕ
  from_id_count s rest = u16.to_writer e s.id_count ++ from_version_major s rest

  abbrev from_flags : SuperBlock → List ℕ → List ℕ
  from_flags s rest = u16.to_writer e s.flags ++ from_id_count s rest

  abbrev from_block_log : SuperBlock → List ℕ → List ℕ
  from_block_log s rest = u16.to_writer e s.block_log ++ from_flags s rest

  abbrev from_compressor : SuperBlock → List ℕ → List ℕ
  from_compressor s rest = u16.to_writer e (compressor_number s.compressor) ++ from_block_log s rest

  abbrev from_frag_count : SuperBlock → List ℕ → List ℕ
  from_frag_count s rest = u32.to_writer e s.frag_count ++ from_compressor s rest

  abbrev from_block_size : SuperBlock → List ℕ → List ℕ
  from_block_size s rest = u32.to_writer e s.block_size ++ from_frag_count s rest

  abbrev from_mod_time : SuperBlock → List ℕ → List ℕ
  from_mod_time s rest = u32.to_writer e s.mod_time ++ from_block_size s rest

  abbrev from_inode_count : SuperBlock → List ℕ → List ℕ
  from_inode_count s rest = u32.to_writer e s.inode_count ++ from_mod_time s rest

  superblock_bytes-append :
      (s : SuperBlock) (rest : List ℕ)
      → superblock_bytes u16 u32 u64 e s ++ rest ≡ s.magic ++ from_inode_count s rest
  unfolding superblock_bytes
  superblock_bytes-append s rest = simp append_assoc refl

-- A superblock whose numbers fit their fields, with the magic and the version of a kind, is read
-- back as it was written, and the bytes behind it are left.
pub superblock_from_reader-bytes :
    (u16 : WordCodec 2) (u32 : WordCodec 4) (u64 : WordCodec 8) (kind : Kind) (s : SuperBlock)
    (rest : List ℕ)
    → Fits kind s
    → superblock_from_reader u16 u32 u64 kind
        (superblock_bytes u16 u32 u64 kind.type_endian s ++ rest)
      ≡ ok (s, rest)
unfolding superblock_from_reader
superblock_from_reader-bytes u16 u32 u64 kind s rest h =
    let e = kind.type_endian in
    rw (superblock_bytes-append u16 u32 u64 e s rest) (
      rw
        (
          read_bytes-append s.magic (from_inode_count u16 u32 u64 e s rest) 4 (sym h.four),
          h.magic,
          same_bytes_refl kind.magic,
          read_word-append u32 e s.inode_count (from_mod_time u16 u32 u64 e s rest)
              h.inode_count_fits,
          read_word-append u32 e s.mod_time (from_block_size u16 u32 u64 e s rest) h.mod_time_fits,
          read_word-append u32 e s.block_size (from_frag_count u16 u32 u64 e s rest)
              h.block_size_fits,
          read_word-append u32 e s.frag_count (from_compressor u16 u32 u64 e s rest)
              h.frag_count_fits,
          read_word-append u16 e (compressor_number s.compressor)
              (from_block_log u16 u32 u64 e s rest) (compressor_number-fits s.compressor),
          compressor_of-number s.compressor,
          read_word-append u16 e s.block_log (from_flags u16 u32 u64 e s rest) h.block_log_fits,
          read_word-append u16 e s.flags (from_id_count u16 u32 u64 e s rest) h.flags_fits,
          read_word-append u16 e s.id_count (from_version_major u16 u32 u64 e s rest)
              h.id_count_fits,
          read_word-append u16 e s.version_major (from_version_minor u16 u32 u64 e s rest)
              h.version_major_fits,
          h.version_major,
          ==_refl kind.version_major,
          read_word-append u16 e s.version_minor (from_root_inode u16 u32 u64 e s rest)
              h.version_minor_fits,
          h.version_minor,
          ==_refl kind.version_minor,
          read_word-append u64 e s.root_inode (from_bytes_used u16 u32 u64 e s rest)
              h.root_inode_fits,
          read_word-append u64 e s.bytes_used (from_id_table u16 u32 u64 e s rest)
              h.bytes_used_fits,
          read_word-append u64 e s.id_table (from_xattr_table u16 u32 u64 e s rest) h.id_table_fits,
          read_word-append u64 e s.xattr_table (from_inode_table u16 u32 u64 e s rest)
              h.xattr_table_fits,
          read_word-append u64 e s.inode_table (from_dir_table u16 u32 u64 e s rest)
              h.inode_table_fits,
          read_word-append u64 e s.dir_table (from_frag_table u16 u32 u64 e s rest)
              h.dir_table_fits,
          read_word-append u64 e s.frag_table (from_export_table u16 u32 u64 e s rest)
              h.frag_table_fits,
          read_word-append u64 e s.export_table rest h.export_table_fits,
        )
        refl)
