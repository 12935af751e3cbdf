-- ===== src/Data/Copy/Blocks.antt =====
-- What `just_copy_it` of backhand/src/data.rs writes for a file of blocks: the stored bytes of each,
-- and for a block that is a hole, which has no stored bytes, a whole block of zeros.
use backhand.Common.{
  ℕ, zero, suc, ◌+◌, ◌%◌, ◌^◌, ◌<◌, ◌==◌, ◌≡◌, refl, sym, ap, ◌∙◌, if◌then◌else◌, true, false,
  Bool-cases, inl, inr, Bool, none, some, List, [], ◌∷◌, ◌++◌, length, replicate, append_assoc,
  append-nil, length-append, ==_iff, arith,
}
use backhand.Data.{data_added, DataWriter}
use backhand.Data.Copy.{copy_blocks, copy_data, just_copy_it}
use backhand.DataSize
use backhand.DataSize.{DataSize}
use backhand.Error.{ok}
use backhand.FileReader
use backhand.FileReader.{
  Handle, RawData, RawDataBlock, FragmentCache, block_sizes, file_len, next_block,
}
use backhand.ImageReader.Block.{read_exact-at}
use backhand.Metadata.Blocks.{All}

-- A block as the source image stores it, with its size word. A hole has a size of 0.
abbrev pub Stored : Type 0
Stored = List ℕ × DataSize

abbrev pub IsStored : Stored → Type 0
IsStored (xs, d) = DataSize.size d ≡ length xs

-- What is written for a block.
abbrev pub copied : ℕ → Stored → List ℕ
copied block_size (xs, d) = if DataSize.size d == 0 then replicate block_size 0 else xs

abbrev pub words : List Stored → List DataSize
words [] = []
words ((xs, d) ∷ ps) = d ∷ words ps

abbrev pub stored_bytes : List Stored → List ℕ
stored_bytes [] = []
stored_bytes ((xs, d) ∷ ps) = xs ++ stored_bytes ps

abbrev pub copies : ℕ → List Stored → List ℕ
copies block_size [] = []
copies block_size (p ∷ ps) = copied block_size p ++ copies block_size ps

length-words : (ps : List Stored) → length (words ps) ≡ length ps
length-words [] = refl
length-words (p ∷ ps) = ap suc (length-words ps)

module _ (h : Handle) (cache : FragmentCache) where
  -- A reader of the handle's file, with blocks to come and no fragment
  abbrev pub reader_at : List DataSize → ℕ → RawData
  reader_at ds pos = record {
    handle = h;
    current_block = record { blocks = ds; last = none };
    pos = pos;
    cache = cache;
  }

  -- A block of the reader, hole or not, is not a fragment, and gives what is copied for it.
  record Follows (p : Stored) (ds : List DataSize) (pos : ℕ) : Type 0 where
    uncompressed : Bool
    returns :
        next_block (reader_at (p.1 ∷ ds) pos)
        ≡ ok (
          some (
            copied h.system.block_size p,
            record { is_fragment = false; uncompressed = uncompressed },
          ),
          reader_at ds (pos + length p.0),
        )

  next_block-Follows :
      (p : Stored) (ds : List DataSize) (before after : List ℕ) (pos : ℕ)
      → IsStored p
      → h.system.image ≡ before ++ (p.0 ++ after)
      → pos ≡ length before
      → Follows p ds pos
  unfolding next_block FileReader.next FileReader.read_raw_data FileReader.next_of
      FileReader.read_block
  next_block-Follows (xs, d) ds before after pos sized e at =
      elim (Bool-cases (DataSize.size d == 0)) [
        | inl hole ↦
            let stays : pos ≡ pos + length xs =
              omega (arith, sized, (==_iff (DataSize.size d) 0).0 hole) in
            record {
              uncompressed = true;
              returns =
                  rw (hole, next_block)
                    (ap
                      (λ (t : ℕ). ok (
                        some (
                          replicate h.system.block_size 0,
                          record { is_fragment = false; uncompressed = true },
                        ),
                        reader_at ds t,
                      ))
                      stays);
            }
        | inr full ↦ record {
          uncompressed = DataSize.uncompressed d;
          returns =
              rw
                (
                  full,
                  read_exact-at h.system.image before xs after pos (DataSize.size d) e at sized,
                  sized,
                  next_block,
                )
                refl;
        }
      ]

  ended : (pos : ℕ) → next_block (reader_at [] pos) ≡ ok (none, reader_at [] pos)
  unfolding next_block FileReader.next FileReader.next_of
  ended pos = refl

  copy_blocks-stored :
      (d : DataWriter) (ps : List Stored) (fuel : ℕ) (before after : List ℕ) (pos : ℕ)
      (out : List ℕ) (sizes : List DataSize)
      → All IsStored ps
      → h.system.image ≡ before ++ (stored_bytes ps ++ after)
      → pos ≡ length before
      → length ps < fuel
      → copy_blocks fuel d (reader_at (words ps) pos) out sizes
        ≡ ok (out ++ copies h.system.block_size ps, sizes)
  unfolding copy_blocks
  copy_blocks-stored d ps zero before after pos out sizes good e at room = absurd (omega arith)
  copy_blocks-stored d [] (suc fuel) before after pos out sizes good e at room =
      rw (ended pos, copy_blocks) (ap (λ t. ok (t, sizes)) (sym (append-nil out)))
  copy_blocks-stored d (p ∷ ps) (suc fuel) before after pos out sizes (g, gs) e at room =
      let split : h.system.image ≡ before ++ (p.0 ++ (stored_bytes ps ++ after)) =
        e ∙ ap (λ t. before ++ t) (append_assoc p.0 (stored_bytes ps) after) in
      let n = next_block-Follows p (words ps) before (stored_bytes ps ++ after) pos g split at in
      rw (n.returns, copy_blocks)
        (copy_blocks-stored d ps fuel (before ++ p.0) after (pos + length p.0)
            (out ++ copied h.system.block_size p) sizes gs
            (split ∙ sym (append_assoc before p.0 (stored_bytes ps ++ after)))
            (omega (arith, length-append before p.0)) (omega arith)
          ∙ ap (λ t. ok (t, sizes))
              (append_assoc out (copied h.system.block_size p) (copies h.system.block_size ps)))

  -- A file of blocks without a fragment is copied thus, where its blocks stand behind each other in
  -- the source image: the stored bytes of each go to the end of the output, but a whole block of
  -- zeros goes there for a hole, which has no stored bytes; the size words and the length of the
  -- file stay as they are, and the writer too.
  pub just_copy_it-stored :
      (d : DataWriter) (p : Stored) (ps : List Stored) (before after : List ℕ) (pos : ℕ)
      (out : List ℕ)
      → All IsStored (p ∷ ps)
      → block_sizes h.file ≡ words (p ∷ ps)
      → h.system.image ≡ before ++ (stored_bytes (p ∷ ps) ++ after)
      → pos ≡ length before
      → just_copy_it d (reader_at (words (p ∷ ps)) pos) out
        ≡ ok (
          d,
          out ++ copies h.system.block_size (p ∷ ps),
          (file_len h.file, data_added (length out % 2 ^ 32) (words (p ∷ ps))),
        )
  unfolding just_copy_it copy_data
  just_copy_it-stored d p ps before after pos out (g, gs) sizes e at =
      let split : h.system.image ≡ before ++ (p.0 ++ (stored_bytes ps ++ after)) =
        e ∙ ap (λ t. before ++ t) (append_assoc p.0 (stored_bytes ps) after) in
      let n = next_block-Follows p (words ps) before (stored_bytes ps ++ after) pos g split at in
      let count : length (words (p ∷ ps)) ≡ length (p ∷ ps) = length-words (p ∷ ps) in
      rw (n.returns, just_copy_it)
        (rw sizes (
          rw
            (
              copy_blocks-stored d ps (suc (suc (length (words (p ∷ ps))))) (before ++ p.0) after
                  (pos + length p.0) (out ++ copied h.system.block_size p) (words (p ∷ ps)) gs
                  (split ∙ sym (append_assoc before p.0 (stored_bytes ps ++ after)))
                  (omega (arith, length-append before p.0)) (omega arith),
              append_assoc out (copied h.system.block_size p) (copies h.system.block_size ps),
            )
            refl))
