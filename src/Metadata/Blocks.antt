-- ===== src/Metadata/Blocks.antt =====
-- What a list of metadata blocks stands for, and what the writer of backhand/src/metadata.rs makes
-- of one chunk when its compressor is lossless.
use backhand.Common.{
  ◌∙◌, ℕ, ◌+◌, ◌^◌, ◌≤◌, ◌<◌, min, ltb, ◌≡◌, refl, ap, sym, inl, inr, Bool, true, false, Bool-cases,
  List, [], ◌∷◌, ◌++◌, length, take, drop, length-append, length-take, append_assoc, arith, ==_ne,
  ltb→le, lt→ltb, le→ltb,
}
use backhand.Compressor.{Compressor}
use backhand.Compressor.Config.{FilesystemCompressor}
use backhand.Error.{Result, ok, err, panics, diverges}
use backhand.Kinds.{Kind, CompressionAction, IsLossless, WordCodec}
use backhand.Metadata.{
  length_word, MetadataWriter, metadata_maxsize, keep_smaller, push_block, add_block, advance,
  block_bytes, blocks_bytes,
}

abbrev pub or_empty : Result (List ℕ) → List ℕ
or_empty (ok xs) = xs
or_empty (err e) = []
or_empty panics = []
or_empty diverges = []

abbrev pub All {ℓ} : {A : Type ℓ} → (A → Type 0) → List A → Type 0
All P [] = Unit
All P (x ∷ xs) = P x × All P xs

pub All-append {ℓ} :
    {A : Type ℓ} (P : A → Type 0) (xs ys : List A) → All P xs → All P ys → All P (xs ++ ys)
All-append P [] ys h g = g
All-append P (x ∷ xs) ys h g = (h.0, All-append P xs ys h.1 g)

module _ (c : CompressionAction) (id : Compressor) where
  abbrev pub decoded : Bool × List ℕ → Result (List ℕ)
  decoded (true, block) = c.decompress id metadata_maxsize block
  decoded (false, block) = ok block

  -- The bytes that a block stands for.
  abbrev pub contents : Bool × List ℕ → List ℕ
  contents b = or_empty (decoded b)

  -- A block that the reader accepts.
  abbrev pub IsGood : Bool × List ℕ → Type 0
  IsGood b = (length b.1 ≤ metadata_maxsize) × (decoded b ≡ ok (contents b))

  abbrev pub stream : List (Bool × List ℕ) → List ℕ
  stream [] = []
  stream (b ∷ bs) = contents b ++ stream bs

  pub stream-append : (xs ys : List (Bool × List ℕ)) → stream (xs ++ ys) ≡ stream xs ++ stream ys
  stream-append [] ys = refl
  stream-append (x ∷ xs) ys =
      ap (λ t. contents x ++ t) (stream-append xs ys)
      ∙ sym (append_assoc (contents x) (stream xs) (stream ys))

-- The room that the blocks take in the image: a length word and the bytes, each.
abbrev pub frames : List (Bool × List ℕ) → ℕ
frames [] = 0
frames (b ∷ bs) = 2 + length b.1 + frames bs

pub frames-append : (xs ys : List (Bool × List ℕ)) → frames (xs ++ ys) ≡ frames xs + frames ys
frames-append [] ys = omega arith
frames-append (x ∷ xs) ys = omega (arith, frames-append xs ys)

module _ (u16 : WordCodec 2) (kind : Kind) where
  pub length-blocks_bytes :
      (bs : List (Bool × List ℕ)) → length (blocks_bytes u16 kind bs) ≡ frames bs
  unfolding blocks_bytes
  length-blocks_bytes [] = refl
  length-blocks_bytes ((c, b) ∷ bs) = omega (
    arith,
    length-append (block_bytes u16 kind (c, b)) (blocks_bytes u16 kind bs),
    length-append (u16.to_writer kind.data_endian (length_word c b)) b,
    u16.length-to_writer kind.data_endian (length_word c b),
    length-blocks_bytes bs,
  )

module _ (kind : Kind) (fc : FilesystemCompressor) (block_size : ℕ)
    (lossless : IsLossless kind.compressor fc block_size metadata_maxsize) where
  open lossless use {packed, compress_packed, decompress_packed}

  -- A writer with these settings.
  abbrev pub at : ℕ → List ℕ → List (Bool × List ℕ) → MetadataWriter
  at start u blocks = record {
    compressor = fc;
    block_size = block_size;
    metadata_start = start;
    uncompressed_bytes = u;
    final_bytes = blocks;
    kind = kind;
  }

  abbrev pub block_of : List ℕ → Bool × List ℕ
  block_of chunk = keep_smaller chunk (packed chunk)

  -- A chunk's block is accepted by the reader, and stands for the chunk.
  pub block_of-IsGood :
      (chunk : List ℕ)
      → length chunk ≤ metadata_maxsize
      → IsGood kind.compressor fc.id (block_of chunk)
        × (contents kind.compressor fc.id (block_of chunk) ≡ chunk)
  unfolding keep_smaller
  block_of-IsGood chunk h = elim (Bool-cases (ltb (length chunk) (length (packed chunk)))) [
    | inl longer ↦ rw longer ((h, refl), refl)
    | inr fits ↦ rw fits (
        rw (decompress_packed chunk h)
          ((omega (arith, ltb→le (length chunk) (length (packed chunk)) fits), refl), refl))
  ]

  -- A block is no longer than its chunk.
  pub length-block_of : (chunk : List ℕ) → length (block_of chunk).1 ≤ length chunk
  unfolding keep_smaller
  length-block_of chunk = elim (Bool-cases (ltb (length chunk) (length (packed chunk)))) [
    | inl longer ↦ rw longer (omega arith)
    | inr fits ↦ rw fits (ltb→le (length chunk) (length (packed chunk)) fits)
  ]

  -- One round with bytes at hand takes a chunk of them and adds its block, while the blocks' bytes
  -- fit 32 bits.
  pub add_block-at :
      (start : ℕ) (u : List ℕ) (blocks : List (Bool × List ℕ))
      → 0 < length u
      → let chunk = take (min (length u) metadata_maxsize) u in
        advance start (block_of chunk).1 < 2 ^ 32
        → add_block (at start u blocks)
          ≡ ok (
              at
                (advance start (block_of chunk).1)
                (drop (min (length u) metadata_maxsize) u)
                (blocks ++ block_of chunk ∷ []))
  unfolding add_block push_block
  add_block-at start u blocks h small =
      let n = min (length u) metadata_maxsize in
      let room : length (take n u) ≤ metadata_maxsize = omega (arith, length-take n u) in
      rw (==_ne n 0 (omega arith))
        (rw (compress_packed (take n u) room) (rw (lt→ltb _ (2 ^ 32) small) refl))

  -- A round that makes them more panics.
  pub add_block-over :
      (start : ℕ) (u : List ℕ) (blocks : List (Bool × List ℕ))
      → 0 < length u
      → let chunk = take (min (length u) metadata_maxsize) u in
        2 ^ 32 ≤ advance start (block_of chunk).1 → add_block (at start u blocks) ≡ panics
  unfolding add_block push_block
  add_block-over start u blocks h big =
      let n = min (length u) metadata_maxsize in
      let room : length (take n u) ≤ metadata_maxsize = omega (arith, length-take n u) in
      rw (==_ne n 0 (omega arith))
        (rw (compress_packed (take n u) room) (rw (le→ltb _ (2 ^ 32) big) refl))
