-- ===== src/Compressor/Tests.antt =====
-- A test of `FilesystemCompressor::new`, backhand/src/filesystem/writer.rs.
use backhand.Common.{◌≡◌, ◌⊎◌, none, some}
use backhand.Compressor.{xz, lzma_options}
use backhand.Compressor.Config.{new_compressor}
use backhand.Compressor.Laws.{Fits, new_compressor_iff}
use backhand.Error.{ok, err, invalid_compression_option}

new_compressor_iff_example :
    Fits xz (some lzma_options)
      × (new_compressor xz (some lzma_options)
          ≡ ok (record { id = xz; stored = some lzma_options; tuning = none }))
    ⊎ ¬ Fits xz (some lzma_options)
      × (new_compressor xz (some lzma_options) ≡ err invalid_compression_option)
new_compressor_iff_example = new_compressor_iff xz (some lzma_options)
