-- ===== src/ImageReader/Metadatas.antt =====
-- `uncompress_metadatas` of backhand/src/reader.rs on the blocks that a metadata writer wrote: the
-- bytes are the stream, and the map sends the place of each block to the place of its contents.
use backhand.Common.{
  ℕ, zero, suc, ◌+◌, ◌-◌, ◌≤◌, ◌==◌, ◌≡◌, refl, sym, ap, ◌∙◌, ==_ne, Bool, true, false, List, [],
  ◌∷◌, ◌++◌, length, length-append, append_assoc, append-nil, arith, insert,
}
use backhand.Error.{ok}
use backhand.Kinds.{Kind, WordCodec}
use backhand.ImageReader.{metadatas_loop, uncompress_metadatas}
use backhand.ImageReader.Block.{reader_at, read_block-block_bytes}
use backhand.Metadata.{length_word, block_bytes, blocks_bytes}
use backhand.Metadata.Blocks.{All, IsGood, contents, stream, frames, length-blocks_bytes}
use backhand.Superblock.{SuperBlock}

module _ (u16 : WordCodec 2) (kind : Kind) (superblock : SuperBlock) where
  -- The map that the loop leaves, from the place and the offset of the first block.
  unfoldable pub mapped : ℕ → ℕ → List (Bool × List ℕ) → List (ℕ × ℕ) → List (ℕ × ℕ)
  mapped place offset [] found = found
  mapped place offset (b ∷ bs) found =
      mapped (place + (2 + length b.1))
        (offset + length (contents kind.compressor superblock.compressor b)) bs
        (insert place offset found)

  -- The loop over blocks that stand in the image from the position on.
  metadatas_loop-blocks :
      (bs : List (Bool × List ℕ)) (fuel start end_ptr pos : ℕ) (image before after : List ℕ)
      (found : List (ℕ × ℕ)) (all_bytes : List ℕ)
      → image ≡ before ++ (blocks_bytes u16 kind bs ++ after)
      → pos ≡ length before
      → start ≤ pos
      → end_ptr ≡ pos + frames bs
      → frames bs ≤ fuel
      → All (IsGood kind.compressor superblock.compressor) bs
      → metadatas_loop u16 fuel superblock kind start end_ptr (reader_at image pos) found all_bytes
        ≡ ok (
          mapped (pos - start) (length all_bytes) bs found,
          all_bytes ++ stream kind.compressor superblock.compressor bs,
        )
  unfolding metadatas_loop mapped blocks_bytes block_bytes
  metadatas_loop-blocks [] zero start end_ptr pos image before after found all_bytes e p s d f g =
      let t : (pos == end_ptr) ≡ true = ground arith in rw (append-nil all_bytes, t)
  metadatas_loop-blocks [] (suc fuel) start end_ptr pos image before after found all_bytes e p s d f
        g =
      let t : (pos == end_ptr) ≡ true = ground arith in
      rw (append-nil all_bytes) (rw (t, metadatas_loop))
  metadatas_loop-blocks ((c, b) ∷ bs) zero start end_ptr pos image before after found all_bytes e p
        s d f g =
      absurd (omega arith)
  metadatas_loop-blocks ((c, b) ∷ bs) (suc fuel) start end_ptr pos image before after found
        all_bytes e p s d f g =
      let here = block_bytes u16 kind (c, b) in
      let rest = blocks_bytes u16 kind bs in
      let xs = contents kind.compressor superblock.compressor (c, b) in
      let more : (pos == end_ptr) ≡ false = ==_ne pos end_ptr (omega arith) in
      let size : length here ≡ 2 + length b = omega (
        arith,
        length-append (u16.to_writer kind.data_endian (length_word c b)) b,
        u16.length-to_writer kind.data_endian (length_word c b),
      ) in
      let tail =
        metadatas_loop-blocks bs fuel start end_ptr (pos + (2 + length b)) image (before ++ here)
          after (insert (pos - start) (length all_bytes) found) (all_bytes ++ xs)
          (e
            ∙ ap (λ t. before ++ t) (append_assoc here rest after)
            ∙ sym (append_assoc before here (rest ++ after)))
          (omega (arith, length-append before here)) (omega arith) (omega arith) (omega arith)
          g.1 in
      let place : pos + (2 + length b) - start ≡ pos - start + (2 + length b) = omega arith in
      rw (more, metadatas_loop)
        (rw
          (read_block-block_bytes u16 kind superblock image before (rest ++ after) c b pos
            (e ∙ ap (λ t. before ++ t) (append_assoc here rest after)) p g.0)
          (tail
            ∙ rw (
              place,
              length-append all_bytes xs,
              append_assoc all_bytes xs (stream kind.compressor superblock.compressor bs),
            )))

  -- The whole call: blocks behind `before`, up to where they end.
  pub uncompress_metadatas-blocks :
      (bs : List (Bool × List ℕ)) (image before after : List ℕ) (pos : ℕ)
      → image ≡ before ++ (blocks_bytes u16 kind bs ++ after)
      → All (IsGood kind.compressor superblock.compressor) bs
      → uncompress_metadatas u16 superblock kind
          (length before)
          (length before + frames bs)
          (reader_at image pos)
        ≡ ok (mapped 0 0 bs [], stream kind.compressor superblock.compressor bs)
  unfolding uncompress_metadatas
  uncompress_metadatas-blocks bs image before after pos e g =
      let here = blocks_bytes u16 kind bs in
      let room : frames bs ≤ suc (length image) = rw e (
        omega (
          arith,
          length-append before (here ++ after),
          length-append here after,
          length-blocks_bytes u16 kind bs,
        )) in
      let zeroed : length before - length before ≡ 0 = omega arith in
      metadatas_loop-blocks bs (suc (length image)) (length before) (length before + frames bs)
        (length before) image before after [] [] e refl (omega arith) refl room g
      ∙ rw zeroed
