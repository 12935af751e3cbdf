-- ===== src/Compressor/Config.antt =====
-- `FilesystemCompressor` and `ExtraXz` of backhand/src/filesystem/writer.rs: which compressor a
-- writer uses, and which options go with it.
use backhand.Common.{ℕ, ltb, if◌then◌else◌, Option, none, some}
use backhand.Compressor.{
  Compressor, gzip, lzma, lzo, xz, lz4, zstd, CompressionOptions, gzip_options, lzo_options,
  xz_options, lz4_options, zstd_options, lzma_options,
}
use backhand.Error.{Result, ok, err, invalid_compression_option}

pub record ExtraXz : Type 0 where
  pub preset : Option ℕ

pub data CompressionExtra : Type 0 where
  xz_extra : ExtraXz → CompressionExtra

pub record FilesystemCompressor : Type 0 where
  pub id : Compressor
  pub stored : Option CompressionOptions
  pub tuning : Option CompressionExtra

abbrev accepted : Compressor → Option CompressionOptions → Result FilesystemCompressor
accepted id options = ok (record { id = id; stored = options; tuning = none })

-- `FilesystemCompressor::new`
unfoldable pub new_compressor : Compressor → Option CompressionOptions → Result FilesystemCompressor
new_compressor lz4 none = err invalid_compression_option
new_compressor id none = accepted id none
new_compressor gzip (some (gzip_options o)) = accepted gzip (some (gzip_options o))
new_compressor lzma (some lzma_options) = accepted lzma (some lzma_options)
new_compressor lzo (some (lzo_options o)) = accepted lzo (some (lzo_options o))
new_compressor xz (some (xz_options o)) = accepted xz (some (xz_options o))
new_compressor lz4 (some (lz4_options o)) = accepted lz4 (some (lz4_options o))
new_compressor zstd (some (zstd_options o)) = accepted zstd (some (zstd_options o))
new_compressor id (some o) = err invalid_compression_option

-- `FilesystemCompressor::options`: the options are not looked at.
unfoldable pub set_options : CompressionOptions → FilesystemCompressor → Result FilesystemCompressor
set_options options fc = ok (record fc { stored = some options })

is_xz : Compressor → CompressionExtra → FilesystemCompressor → Result FilesystemCompressor
is_xz xz extra fc = ok (record fc { tuning = some extra })
is_xz other extra fc = err invalid_compression_option

-- `FilesystemCompressor::extra`
unfoldable pub set_extra : CompressionExtra → FilesystemCompressor → Result FilesystemCompressor
unfolding is_xz
set_extra extra fc = is_xz fc.id extra fc

-- `ExtraXz::level`
unfoldable pub set_level : ℕ → ExtraXz → Result ExtraXz
set_level n x =
    if ltb 9 n then err invalid_compression_option else ok (record x { preset = some n })
