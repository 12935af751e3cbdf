-- ===== src/Compressor/Default.antt =====
-- `DefaultCompressor` of backhand/src/compressor.rs: which library packs and unpacks for which id,
-- with which options, and the options that an image keeps. All features are taken to be on.
use backhand.Common.{ℕ, if◌then◌else◌, Bool, Option, none, some, List, [], ◌∷◌, ◌++◌}
use backhand.Compressor.{
  Compressor, uncompressed, gzip, lzo, xz, zstd, XzFilter, Xz, CompressionOptions, gzip_options,
  xz_options, zstd_options, lzma_options, x86, powerpc, ia64, arm, armthumb, sparc,
}
use backhand.Compressor.Config.{FilesystemCompressor, CompressionExtra, xz_extra}
use backhand.Error.{
  Result, ok, err, panics, ◌>>=◌, corrupted_or_invalid_squashfs, unsupported_compression,
  through_io,
}
use backhand.Kinds.{Endian, Kind, CompressionAction, WordCodec}
use backhand.Metadata
use backhand.Metadata.{write_all, finalize}
use backhand.Superblock.{SuperBlock, add_flag, compressor_options_are_present}

-- The branch filters of liblzma
pub data BranchFilter : Type 0 where
  x86_filter powerpc_filter ia64_filter arm_filter arm_thumb_filter sparc_filter : BranchFilter

-- What an encoder of liblzma is made with: the preset, the size of its dictionary, and the filters
-- before `lzma2`.
pub record XzSettings : Type 0 where
  pub preset : ℕ
  pub dict_size : ℕ
  pub filters : List BranchFilter

-- The libraries: flate2, liblzma, rust_lzo and zstd. A decoder of the last two fills a buffer with
-- room for so many bytes; an error of lzo is a value, and those of the others are of `io`. liblzma has
-- no encoder for some settings, as for a preset or a dictionary size that it does not know.
pub record Libraries : Type 0 where
  pub zlib_decode : List ℕ → Result (List ℕ)
  pub zlib_encode : ℕ → List ℕ → Result (List ℕ)
  pub xz_decode : List ℕ → Result (List ℕ)
  pub xz_encoder : XzSettings → Option (List ℕ → Result (List ℕ))
  pub lzo_decode : ℕ → List ℕ → Option (List ℕ)
  pub lzo_encode : List ℕ → Option (List ℕ)
  pub zstd_decode : ℕ → List ℕ → Result (List ℕ)
  pub zstd_encode : ℕ → List ℕ → Result (List ℕ)

abbrev pub no_error : Option (List ℕ) → Result (List ℕ)
no_error none = err corrupted_or_invalid_squashfs
no_error (some xs) = ok xs

-- `LzmaOptions::new_preset(level).unwrap()` and `.encoder().unwrap()`, then `read_to_end`
abbrev pub run_encoder : Option (List ℕ → Result (List ℕ)) → List ℕ → Result (List ℕ)
run_encoder none bytes = panics
run_encoder (some encode) bytes = through_io (encode bytes)

-- `LZMA_DEFAULT`, unless the writer was given a level
unfoldable pub xz_level : Option CompressionExtra → ℕ
xz_level none = 6
xz_level (some (xz_extra x)) = elim x.preset [ none ↦ 6 | some n ↦ n ]

abbrev when : Bool → BranchFilter → List BranchFilter
when b f = if b then f ∷ [] else []

unfoldable pub branch_filters : XzFilter → List BranchFilter
branch_filters f =
    when (x86 f) x86_filter
    ++ when (powerpc f) powerpc_filter
    ++ when (ia64 f) ia64_filter
    ++ when (arm f) arm_filter
    ++ when (armthumb f) arm_thumb_filter
    ++ when (sparc f) sparc_filter

unfoldable pub xz_settings : Xz → Option CompressionExtra → XzSettings
xz_settings x extra = record {
  preset = xz_level extra;
  dict_size = x.dictionary_size;
  filters = branch_filters x.filters;
}

unfoldable pub xz_defaults : ℕ → Option CompressionExtra → XzSettings
xz_defaults block_size extra = record {
  preset = xz_level extra;
  dict_size = block_size;
  filters = [];
}

module _ (libraries : Libraries) where
  -- `decompress`, into an empty buffer with room for `capacity` bytes
  unfoldable pub decompress : Compressor → ℕ → List ℕ → Result (List ℕ)
  decompress uncompressed capacity bytes = ok bytes
  decompress gzip capacity bytes = through_io (libraries.zlib_decode bytes)
  decompress xz capacity bytes = through_io (libraries.xz_decode bytes)
  decompress lzo capacity bytes = no_error (libraries.lzo_decode capacity bytes)
  decompress zstd capacity bytes = through_io (libraries.zstd_decode capacity bytes)
  decompress c capacity bytes = err (unsupported_compression c)

  -- `match (fc.id, fc.options, fc.extra)`
  unfoldable pub compress_with :
      Compressor
      → Option CompressionOptions
      → Option CompressionExtra
      → ℕ
      → List ℕ
      → Result (List ℕ)
  compress_with uncompressed none extra block_size bytes = ok bytes
  compress_with xz none extra block_size bytes =
      run_encoder (libraries.xz_encoder (xz_defaults block_size extra)) bytes
  compress_with xz (some (xz_options x)) extra block_size bytes =
      run_encoder (libraries.xz_encoder (xz_settings x extra)) bytes
  compress_with gzip none extra block_size bytes = through_io (libraries.zlib_encode 9 bytes)
  compress_with gzip (some (gzip_options g)) extra block_size bytes =
      through_io (libraries.zlib_encode g.compression_level bytes)
  compress_with lzo options extra block_size bytes = no_error (libraries.lzo_encode bytes)
  compress_with zstd none extra block_size bytes = through_io (libraries.zstd_encode 3 bytes)
  compress_with zstd (some (zstd_options z)) extra block_size bytes =
      through_io (libraries.zstd_encode z.compression_level bytes)
  compress_with id options extra block_size bytes = err (unsupported_compression id)

  -- `compress`
  unfoldable pub compress : FilesystemCompressor → ℕ → List ℕ → Result (List ℕ)
  compress fc block_size bytes = compress_with fc.id fc.stored fc.tuning block_size bytes

  -- `impl CompressionAction for DefaultCompressor`
  abbrev pub default_compressor : CompressionAction
  default_compressor = record { compress = compress; decompress = decompress }

-- The bytes of options are deku's. There are none of `Lzma`.
module _ (u16 : WordCodec 2) (options_bytes : Endian → CompressionOptions → List ℕ) where
  unfoldable pub written_options : Endian → CompressionOptions → List ℕ
  written_options e lzma_options = []
  written_options e options = options_bytes e options

  -- `compression_options`: the options, if there are any, in a metadata block of their own, and the
  -- flag that says so.
  unfoldable pub compression_options :
      SuperBlock → Kind → FilesystemCompressor → Result (SuperBlock × List ℕ)
  compression_options superblock kind fc = elim fc.stored [
    | none ↦ ok (superblock, [])
    | some options ↦
        let bytes = written_options kind.type_endian options in
        through_io (write_all (Metadata.new fc superblock.block_size kind) bytes) >>= λ metadata.
        finalize u16 metadata [] >>= λ (metadata', out).
        ok (add_flag compressor_options_are_present superblock, out)
  ]
