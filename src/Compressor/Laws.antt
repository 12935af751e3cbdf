-- ===== src/Compressor/Laws.antt =====
-- What `FilesystemCompressor` of backhand/src/filesystem/writer.rs accepts.
use backhand.Common.{◌≡◌, refl, ◌⊎◌, inl, inr, Option, none, some, arith}
use backhand.Compressor.{
  Compressor, Compressor-discrete, uncompressed, gzip, lzma, lzo, xz, lz4, zstd, CompressionOptions,
  gzip_options, lzo_options, xz_options, lz4_options, zstd_options, lzma_options,
}
use backhand.Compressor.Config.{new_compressor}
use backhand.Error.{ok, err, invalid_compression_option}

-- The compressor that a block of options is for.
pub owner : CompressionOptions → Compressor
owner (gzip_options o) = gzip
owner (lzo_options o) = lzo
owner (xz_options o) = xz
owner (lz4_options o) = lz4
owner (zstd_options o) = zstd
owner lzma_options = lzma

abbrev pub Fits : Compressor → Option CompressionOptions → Type 0
Fits id (some o) = id ≡ owner o
Fits id none = ¬ (id ≡ lz4)

accepts :
    (id : Compressor) (o : Option CompressionOptions)
    → (Fits id o → new_compressor id o ≡ ok (record { id = id; stored = o; tuning = none }))
      × ((Fits id o → ⊥) → new_compressor id o ≡ err invalid_compression_option)
unfolding new_compressor owner
accepts uncompressed none = ground arith
accepts gzip none = ground arith
accepts lzma none = ground arith
accepts lzo none = ground arith
accepts xz none = ground arith
accepts lz4 none = ((λ h. absurd (h refl)), λ h. refl)
accepts zstd none = ground arith
accepts id (some (gzip_options g)) = ground arith
accepts id (some (lzo_options g)) = ground arith
accepts id (some (xz_options g)) = ground arith
accepts id (some (lz4_options g)) = ground arith
accepts id (some (zstd_options g)) = ground arith
accepts id (some lzma_options) = ground arith

-- Options are accepted exactly when they are for that compressor, and no options exactly when the
-- compressor is not Lz4; what is accepted is stored unchanged, and all else is the same error.
pub new_compressor_iff :
    (id : Compressor) (o : Option CompressionOptions)
    → Fits id o × (new_compressor id o ≡ ok (record { id = id; stored = o; tuning = none }))
      ⊎ ¬ Fits id o × (new_compressor id o ≡ err invalid_compression_option)
new_compressor_iff id none = elim (Compressor-discrete id lz4) [
  | yes e ↦ inr (λ f. f e, (accepts id none).1 (λ f. f e))
  | no f ↦ inl (f, (accepts id none).0 f)
]
new_compressor_iff id (some o) = elim (Compressor-discrete id (owner o)) [
  | yes e ↦ inl (e, (accepts id (some o)).0 e)
  | no f ↦ inr (f, (accepts id (some o)).1 f)
]
