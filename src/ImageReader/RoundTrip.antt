-- ===== src/ImageReader/RoundTrip.antt =====
-- What `MetadataWriter` of backhand/src/metadata.rs writes, `uncompress_metadatas` of
-- backhand/src/reader.rs reads.
use mathlib.Core.Path.{subst}
use backhand.Common.{
  ℕ, ◌+◌, ◌*◌, ◌^◌, ◌≤◌, ◌<◌, ◌≡◌, refl, sym, ap, ◌∙◌, Bool, List, [], ◌∷◌, ◌++◌, length, concat,
  length-append, append_assoc, append-nil, arith,
}
use backhand.Compressor.Config.{FilesystemCompressor}
use backhand.Error.{Result, ok, panics, ◌>>=◌}
use backhand.Kinds.{Kind, WordCodec, IsLossless}
use backhand.ImageReader.{uncompress_metadatas}
use backhand.ImageReader.Block.{reader_at}
use backhand.ImageReader.Metadatas.{mapped, uncompress_metadatas-blocks}
use backhand.Metadata.{MetadataWriter, new, finalize, blocks_bytes, metadata_maxsize}
use backhand.Metadata.Blocks.{
  All, All-append, IsGood, stream, stream-append, frames, length-blocks_bytes, at,
}
use backhand.Metadata.Stream.{write_each, write_each-Moved, flush-Moved}
use backhand.Superblock.{SuperBlock}

module _ (u16 : WordCodec 2) (kind : Kind) (fc : FilesystemCompressor) (block_size : ℕ)
    (lossless : IsLossless kind.compressor fc block_size metadata_maxsize) where
  -- Where `finalize` leaves a writer that holds `u`, and what it writes, where the blocks' bytes fit
  -- 32 bits; it panics where they do not.
  pub record Finished (start : ℕ) (u : List ℕ) (blocks : List (Bool × List ℕ)) (before : List ℕ)
      (r : Result (MetadataWriter × List ℕ)) : Type 0 where
    pub writer : MetadataWriter
    pub more : List (Bool × List ℕ)
    pub returns :
        start + frames more < 2 ^ 32
        → r ≡ ok (writer, before ++ blocks_bytes u16 kind (blocks ++ more))
    pub over : start < 2 ^ 32 → 2 ^ 32 ≤ start + frames more → r ≡ panics
    pub good : All (IsGood kind.compressor fc.id) more
    pub kept : stream kind.compressor fc.id more ≡ u
    pub tight : frames more ≤ 3 * length u

  pub finalize-Finished :
      (start : ℕ) (u : List ℕ) (blocks : List (Bool × List ℕ)) (before : List ℕ)
      → Finished start u blocks before
          (finalize u16 (at kind fc block_size lossless start u blocks) before)
  unfolding finalize
  finalize-Finished start u blocks before =
      let m = flush-Moved kind fc block_size lossless start u blocks in
      let none_left : m.left ≡ [] = empty m.left m.below in
      record {
        writer = at kind fc block_size lossless m.start' m.left (blocks ++ m.more);
        more = m.more;
        returns = λ small. rw (m.returns (omega (arith, m.started)));
        over = λ small big. rw (m.over small (omega (arith, m.started))) refl;
        good = m.good;
        kept =
            sym (append-nil (stream kind.compressor fc.id m.more))
            ∙ rw none_left at m.kept
            ∙ append-nil u;
        tight = omega (arith, m.tight);
      }
    where
      empty : (xs : List ℕ) → length xs < 1 → xs ≡ []
      empty [] h = refl
      empty (x ∷ xs) h = absurd (omega arith)

  -- The reader on an image that holds good blocks behind `before`.
  pub reads-blocks :
      (superblock : SuperBlock) (bs : List (Bool × List ℕ)) (before after : List ℕ) (pos : ℕ)
      → superblock.compressor ≡ fc.id
      → All (IsGood kind.compressor fc.id) bs
      → let out = before ++ blocks_bytes u16 kind bs in
        uncompress_metadatas u16 superblock kind
          (length before)
          (length out)
          (reader_at (out ++ after) pos)
        ≡ ok (mapped u16 kind superblock 0 0 bs [], stream kind.compressor fc.id bs)
  reads-blocks superblock bs before after pos same good =
      let here = blocks_bytes u16 kind bs in
      let end : length (before ++ here) ≡ length before + frames bs =
        omega (arith, length-append before here, length-blocks_bytes u16 kind bs) in
      rw end (
        uncompress_metadatas-blocks u16 kind superblock bs ((before ++ here) ++ after) before after
          pos (append_assoc before here after)
          (subst (λ c. All (IsGood kind.compressor c) bs) (sym same) good)
        ∙ ap (λ c. ok (mapped u16 kind superblock 0 0 bs [], stream kind.compressor c bs)) same)

  -- With a lossless compressor, whatever buffers are given to `write_all` of a new metadata writer,
  -- of less than 2^32 / 3 bytes in all: the writes and `finalize` succeed, and
  -- `uncompress_metadatas` reads, from where the blocks begin to where they end, the buffers' bytes
  -- in their order, whatever follows in the image.
  pub uncompress_metadatas-finalize :
      (superblock : SuperBlock) (bufs : List (List ℕ)) (before after : List ℕ) (pos : ℕ)
      → superblock.compressor ≡ fc.id
      → 3 * length (concat bufs) < 2 ^ 32
      → (w : MetadataWriter) × (out : List ℕ) × (found : List (ℕ × ℕ)) × ((write_each
              (new fc block_size kind)
              bufs
            >>= λ w'. finalize u16 w' before)
          ≡ ok (w, out))
        × (uncompress_metadatas u16 superblock kind
              (length before)
              (length out)
              (reader_at (out ++ after) pos)
            ≡ ok (found, concat bufs))
  unfolding new
  uncompress_metadatas-finalize superblock bufs before after pos same few =
      let m = write_each-Moved kind fc block_size lossless 0 [] bufs [] (omega arith) in
      let f = finalize-Finished m.start' m.left m.more before in
      let bs = m.more ++ f.more in
      let whole : stream kind.compressor fc.id bs ≡ concat bufs =
        stream-append kind.compressor fc.id m.more f.more ∙ rw f.kept m.kept in
      let wrote = m.returns (omega (arith, m.started, m.tight)) in
      let flushed = f.returns (omega (arith, m.started, m.tight, f.tight)) in
      (
        f.writer,
        before ++ blocks_bytes u16 kind bs,
        mapped u16 kind superblock 0 0 bs [],
        rw wrote flushed,
        reads-blocks superblock bs before after pos same
              (All-append (IsGood kind.compressor fc.id) m.more f.more m.good f.good)
            ∙ rw whole,
      )
