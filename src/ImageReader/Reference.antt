-- ===== src/ImageReader/Reference.antt =====
-- Inode references, backhand/src/inode.rs and backhand/src/reader.rs: the start and the offset that
-- `Inode::to_bytes` takes from the metadata writer lead the reader to the bytes written next.
use mathlib.Core.Path.{subst}
use backhand.Common.{
  ◌^◌, concat, append_assoc, ℕ, ◌+◌, ◌≢◌, sym, ap, ◌∙◌, concat, ◌<◌, ◌≡◌, ◌≢◌, refl, sym, ap, ◌∙◌,
  ==_refl, ==_ne, ltb, ltb→lt, ltb→le, Bool-cases, inl, inr, Bool, some, List, [], ◌∷◌, ◌++◌,
  length, drop, length-append, drop-append, drop-append_add, arith, lookup, insert, lookup-insert,
}
use backhand.Compressor.Config.{FilesystemCompressor}
use backhand.Error.{ok, panics, ◌>>=◌, ok-ne-panics}
use backhand.Kinds.{Kind, WordCodec, IsLossless}
use backhand.ImageReader.{uncompress_metadatas}
use backhand.ImageReader.Block.{reader_at}
use backhand.ImageReader.Metadatas.{mapped}
use backhand.ImageReader.RoundTrip.{finalize-Finished, reads-blocks}
use backhand.Metadata.{MetadataWriter, new, finalize, blocks_bytes, metadata_maxsize}
use backhand.Metadata.Blocks.{All, All-append, IsGood, contents, stream, stream-append, frames, at}
use backhand.Metadata.Stream.{write_each, write_each-Moved}
use backhand.Superblock.{SuperBlock}

module _ (u16 : WordCodec 2) (kind : Kind) (superblock : SuperBlock) where
  -- Later blocks stand further on, and leave what the map has before them.
  mapped-keeps :
      (bs : List (Bool × List ℕ)) (place offset j : ℕ) (found : List (ℕ × ℕ))
      → j < place
      → lookup j (mapped u16 kind superblock place offset bs found) ≡ lookup j found
  unfolding mapped
  mapped-keeps [] place offset j found h = refl
  mapped-keeps (b ∷ bs) place offset j found h =
      mapped-keeps bs (place + (2 + length b.1)) _ j (insert place offset found) (omega arith)
      ∙ lookup-insert place j offset found
      ∙ rw (==_ne place j (omega arith))

  mapped-finds :
      (bs cs : List (Bool × List ℕ)) (c : Bool × List ℕ) (place offset : ℕ) (found : List (ℕ × ℕ))
      → lookup (place + frames bs) (mapped u16 kind superblock place offset (bs ++ c ∷ cs) found)
        ≡ some (offset + length (stream kind.compressor superblock.compressor bs))
  unfolding mapped
  mapped-finds [] cs c place offset found =
      let z : place + 0 ≡ place = omega arith in
      rw z (
        mapped-keeps cs (place + (2 + length c.1)) _ place (insert place offset found) (omega arith)
        ∙ lookup-insert place place offset found
        ∙ rw (==_refl place) (ap (λ (t : ℕ). some t) (omega arith)))
  mapped-finds (b ∷ bs) cs c place offset found =
      let xs = contents kind.compressor superblock.compressor b in
      let p : place + (2 + length b.1 + frames bs) ≡ place + (2 + length b.1) + frames bs =
        omega arith in
      rw p (
        mapped-finds bs cs c (place + (2 + length b.1)) (offset + length xs)
          (insert place offset found)
        ∙ ap (λ (t : ℕ). some t)
            (omega (arith, length-append xs (stream kind.compressor superblock.compressor bs))))

module _ (u16 : WordCodec 2) (kind : Kind) (fc : FilesystemCompressor) (block_size : ℕ)
    (lossless : IsLossless kind.compressor fc block_size metadata_maxsize) (superblock : SuperBlock)
    (same : superblock.compressor ≡ fc.id) where
  -- The place `start` and the offset `skip` lead to `next` in what the reader makes of `image`.
  abbrev pub LeadsTo : ℕ → ℕ → List ℕ → ℕ → ℕ → List ℕ → Type 0
  LeadsTo start skip next first last image =
      (found : List (ℕ × ℕ)) × (bytes : List ℕ) × (offset : ℕ) × ((pos : ℕ)
        → uncompress_metadatas u16 superblock kind first last (reader_at image pos)
          ≡ ok (found, bytes))
      × (lookup start found ≡ some offset)
      × (drop (offset + skip) bytes ≡ next)

  LeadsTo-blocks :
      (bs rest : List (Bool × List ℕ)) (left next before after : List ℕ)
      → All (IsGood kind.compressor fc.id) (bs ++ rest)
      → stream kind.compressor fc.id rest ≡ left ++ next
      → next ≢ []
      → let out = before ++ blocks_bytes u16 kind (bs ++ rest) in
        LeadsTo (frames bs) (length left) next (length before) (length out) (out ++ after)
  LeadsTo-blocks bs [] [] next before after good e some_next = absurd (some_next (sym e))
  LeadsTo-blocks bs [] (x ∷ left) next before after good e some_next = cc
  LeadsTo-blocks bs (c ∷ cs) left next before after good e some_next =
      let xs = stream kind.compressor fc.id bs in
      let here : lookup (frames bs) (mapped u16 kind superblock 0 0 (bs ++ c ∷ cs) [])
          ≡ some (length xs) =
        rw (← Prim.Native.Nat.add.zero (frames bs), ← Prim.Native.Nat.add.zero (length xs), ← same)
          (mapped-finds u16 kind superblock bs cs c 0 0 []) in
      (
        mapped u16 kind superblock 0 0 (bs ++ c ∷ cs) [],
        stream kind.compressor fc.id (bs ++ c ∷ cs),
        length xs,
        λ pos.
            reads-blocks u16 kind fc block_size lossless superblock (bs ++ c ∷ cs) before after pos
              same good,
        here,
        rw (stream-append kind.compressor fc.id bs (c ∷ cs))
            (rw (e, drop-append_add xs (left ++ next) (length left)) (drop-append left next)),
      )

  ok-injective {ℓ} : {A : Type ℓ} (a b : A) → ok a ≡ ok b → a ≡ b
  ok-injective a b e = cc

  -- Where the second run succeeds, the blocks' bytes fit 32 bits.
  reference_at :
      (bufs : List (List ℕ)) (start : ℕ) (left : List ℕ) (blocks : List (Bool × List ℕ))
      (before after out : List ℕ) (w : MetadataWriter)
      → All (IsGood kind.compressor fc.id) blocks
      → start ≡ frames blocks
      → start < 2 ^ 32
      → length left < metadata_maxsize
      → (write_each (at kind fc block_size lossless start left blocks) bufs >>= λ w'.
          finalize u16 w' before)
        ≡ ok (w, out)
      → concat bufs ≢ []
      → LeadsTo start (length left) (concat bufs) (length before) (length out) (out ++ after)
  reference_at bufs start left blocks before after out w good started small short run some_next =
      let m = write_each-Moved kind fc block_size lossless start left bufs blocks short in
      let f =
        finalize-Finished u16 kind fc block_size lossless m.start' m.left (blocks ++ m.more)
          before in
      let rest = m.more ++ f.more in
      let image = before ++ blocks_bytes u16 kind (blocks ++ rest) in
      let outcome = write_each (at kind fc block_size lossless start left blocks) bufs >>= λ w'.
      finalize u16 w' before in
      let wrote : m.start' < 2 ^ 32 = elim (Bool-cases (ltb m.start' (2 ^ 32))) [
        | inl h ↦ ltb→lt m.start' (2 ^ 32) h
        | inr h ↦
            let stops : outcome ≡ panics = rw (m.over small (ltb→le m.start' (2 ^ 32) h)) refl in
            absurd (ok-ne-panics outcome run stops)
      ] in
      let flushed : m.start' + frames f.more < 2 ^ 32 =
        elim (Bool-cases (ltb (m.start' + frames f.more) (2 ^ 32))) [
          | inl h ↦ ltb→lt _ (2 ^ 32) h
          | inr h ↦
              let stops : outcome ≡ panics =
                rw (m.returns wrote) (f.over wrote (ltb→le _ (2 ^ 32) h)) in
              absurd (ok-ne-panics outcome run stops)
        ] in
      let made : outcome ≡ ok (f.writer, image) =
        rw (m.returns wrote) (f.returns flushed ∙ rw (append_assoc blocks m.more f.more)) in
      let same_out : image ≡ out =
        ap (λ p. p.1) (ok-injective (f.writer, image) (w, out) (sym made ∙ run)) in
      subst (λ o. LeadsTo start (length left) (concat bufs) (length before) (length o) (o ++ after))
        same_out
        (subst
          (λ t.
            LeadsTo t (length left) (concat bufs) (length before) (length image) (image ++ after))
          (sym started)
          (LeadsTo-blocks blocks rest left (concat bufs) before after
            (All-append (IsGood kind.compressor fc.id) blocks rest good
              (All-append (IsGood kind.compressor fc.id) m.more f.more m.good f.good))
            (stream-append kind.compressor fc.id m.more f.more ∙ rw f.kept m.kept) some_next))

  -- Let a new metadata writer with a lossless compressor take up some buffers, and then others that
  -- are not all empty, and be finalized behind `before`, all without a panic. Then the block start
  -- and the offset that the writer had between the two lead the reader, whatever follows in the
  -- image and wherever it stood, to exactly the bytes of the later buffers; and the offset is less
  -- than 8 KiB, so that it fits the 16 bits of a reference.
  pub metadata_start-reference :
      (bufs bufs' : List (List ℕ)) (before after out : List ℕ) (w w' : MetadataWriter)
      → write_each (new fc block_size kind) bufs ≡ ok w
      → (write_each w bufs' >>= λ v. finalize u16 v before) ≡ ok (w', out)
      → concat bufs' ≢ []
      → LeadsTo w.metadata_start
          (length w.uncompressed_bytes)
          (concat bufs')
          (length before)
          (length out)
          (out ++ after)
        × (length w.uncompressed_bytes < metadata_maxsize)
  unfolding new
  metadata_start-reference bufs bufs' before after out w w' first second some_next =
      let m = write_each-Moved kind fc block_size lossless 0 [] bufs [] (omega arith) in
      let v = at kind fc block_size lossless m.start' m.left m.more in
      let small : m.start' < 2 ^ 32 = elim (Bool-cases (ltb m.start' (2 ^ 32))) [
        | inl h ↦ ltb→lt m.start' (2 ^ 32) h
        | inr h ↦ absurd (
            ok-ne-panics (write_each (new fc block_size kind) bufs) first
              (m.over (omega arith) (ltb→le m.start' (2 ^ 32) h)))
      ] in
      let same_w : v ≡ w = ok-injective v w (sym (m.returns small) ∙ first) in
      subst
        (λ u.
          LeadsTo u.metadata_start (length u.uncompressed_bytes) (concat bufs') (length before)
            (length out) (out ++ after)
          × (length u.uncompressed_bytes < metadata_maxsize))
        same_w
        (
          reference_at bufs' m.start' m.left m.more before after out w' m.good
              (omega (arith, m.started)) small m.below
              (subst (λ u. (write_each u bufs' >>= λ x. finalize u16 x before) ≡ ok (w', out))
                (sym same_w) second)
              some_next,
          m.below,
        )
