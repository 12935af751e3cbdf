-- ===== src/Metadata/Ends.antt =====
-- The loops of the writer of backhand/src/metadata.rs end: each round takes a byte at least.
use backhand.Common.{
  drop, Bool, ltb, ◌+◌, ◌%◌, ◌^◌, ℕ, zero, suc, ◌≤◌, ◌<◌, min, leb, ◌≡◌, inl, inr, Bool-cases, List,
  [], ◌∷◌, ◌++◌, length, take, length-drop, ==_ne, leb→le, arith,
}
use backhand.Compressor.Config.{FilesystemCompressor}
use backhand.Error.{after-Ends, ◌>>=◌, Any, Ends, Ends->>=, through_io-Ends}
use backhand.Kinds.{Kind}
use backhand.Metadata.{
  MetadataWriter, metadata_maxsize, keep_smaller, push_block, add_block, add_blocks, write,
  write_all,
}

module _ (kind : Kind)
    (packs : (fc : FilesystemCompressor) (b : ℕ) (bytes : List ℕ)
      → Ends Any (kind.compressor.compress fc b bytes)) where
  -- A writer of this kind of image
  abbrev pub IsOfKind : MetadataWriter → Type 0
  IsOfKind w = w.kind ≡ kind

  -- What is left of the bytes after a round
  abbrev Shorter : MetadataWriter → MetadataWriter → Type 0
  Shorter w w' = IsOfKind w' × (length w'.uncompressed_bytes < length w.uncompressed_bytes)

  push_block-Shorter :
      (w : MetadataWriter) (n : ℕ) (b : Bool × List ℕ)
      → IsOfKind w
      → length (drop n w.uncompressed_bytes) < length w.uncompressed_bytes
      → Ends (Shorter w) (push_block w n b)
  unfolding push_block
  push_block-Shorter w n (c, block) k h =
      after-Ends (Shorter w) (ltb (w.metadata_start + (2 + length block % 2 ^ 32)) (2 ^ 32)) _
        (k, h)

  add_block-Ends :
      (w : MetadataWriter)
      → IsOfKind w
      → 0 < length w.uncompressed_bytes
      → Ends (Shorter w) (add_block w)
  unfolding add_block
  add_block-Ends w k h =
      let n = min (length w.uncompressed_bytes) metadata_maxsize in
      let chunk = take n w.uncompressed_bytes in
      rw (==_ne n 0 (omega arith)) (
        through_io-Ends (Shorter w)
          (w.kind.compressor.compress w.compressor w.block_size chunk >>= λ packed.
            push_block w n (keep_smaller chunk packed))
          (Ends->>= {Y = MetadataWriter} Any (Shorter w)
            (w.kind.compressor.compress w.compressor w.block_size chunk) _
            (rw k (packs w.compressor w.block_size chunk))
            (λ packed _ _.
              push_block-Shorter w n (keep_smaller chunk packed) k
                (omega (arith, length-drop n w.uncompressed_bytes)))))

  -- The loop ends where its fuel is the number of bytes.
  pub add_blocks-Ends :
      (fuel limit : ℕ) (w : MetadataWriter)
      → IsOfKind w
      → 0 < limit
      → length w.uncompressed_bytes ≤ fuel
      → Ends IsOfKind (add_blocks fuel limit w)
  unfolding add_blocks
  add_blocks-Ends zero limit w k positive enough =
      elim (Bool-cases (leb limit (length w.uncompressed_bytes))) [
        | inl h ↦ absurd (omega (arith, leb→le limit (length w.uncompressed_bytes) h))
        | inr h ↦ rw h k
      ]
  add_blocks-Ends (suc fuel) limit w k positive enough =
      elim (Bool-cases (leb limit (length w.uncompressed_bytes))) [
        | inl h ↦
            let some_left : 0 < length w.uncompressed_bytes =
              omega (arith, leb→le limit (length w.uncompressed_bytes) h) in
            rw (h, add_blocks)
              (Ends->>= {Y = MetadataWriter} (Shorter w) IsOfKind (add_block w) _
                (add_block-Ends w k some_left)
                (λ w' _ s. add_blocks-Ends fuel limit w' s.0 positive (omega arith)))
        | inr h ↦ rw (h, add_blocks) k
      ]

  pub write_all-Ends :
      (w : MetadataWriter) (bytes : List ℕ) → IsOfKind w → Ends IsOfKind (write_all w bytes)
  unfolding write_all write
  write_all-Ends w [] k = k
  write_all-Ends w (b ∷ bs) k =
      add_blocks-Ends (length (w.uncompressed_bytes ++ b ∷ bs)) metadata_maxsize
        (record w { uncompressed_bytes = w.uncompressed_bytes ++ b ∷ bs }) k (omega arith)
        (omega arith)
