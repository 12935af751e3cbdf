-- ===== src/Metadata/Stream.antt =====
-- The writer's loops, backhand/src/metadata.rs: what is written is in the blocks and in the bytes
-- that still wait, in order, and nothing else is.
use backhand.Common.{
  ℕ, zero, suc, ◌+◌, ◌*◌, ◌^◌, ◌≤◌, ◌<◌, min, ltb, leb, ltb→lt, ltb→le, length-append, ◌≡◌, refl,
  ap, sym, ◌∙◌, inl, inr, Bool, Bool-cases, List, [], ◌∷◌, ◌++◌, length, take, drop, concat,
  length-take, length-drop, take-append-drop, append_assoc, append-nil, arith, leb→le, leb→lt,
  lt→leb,
}
use backhand.Compressor.Config.{FilesystemCompressor}
use backhand.Error.{Result, ok, panics, ◌>>=◌}
use backhand.Kinds.{Kind, IsLossless}
use backhand.Metadata.{MetadataWriter, metadata_maxsize, advance, add_block, add_blocks, write_all}
use backhand.Metadata.Blocks.{
  All, All-append, IsGood, contents, stream, stream-append, frames, frames-append, at, block_of,
  block_of-IsGood, length-block_of, add_block-at, add_block-over,
}

-- A program's calls of `write_all`, one after another.
abbrev pub write_each : MetadataWriter → List (List ℕ) → Result MetadataWriter
write_each w [] = ok w
write_each w (buf ∷ bufs) = write_all w buf >>= λ w'. write_each w' bufs

module _ (kind : Kind) (fc : FilesystemCompressor) (block_size : ℕ)
    (lossless : IsLossless kind.compressor fc block_size metadata_maxsize) where
  -- The writer went from `start`, `u` and `blocks` on, and took up the bytes `given`. It returns
  -- where the blocks' bytes fit 32 bits, and panics where they do not.
  pub record Moved (start : ℕ) (u given : List ℕ) (blocks : List (Bool × List ℕ)) (limit : ℕ)
      (r : Result MetadataWriter) : Type 0 where
    pub start' : ℕ
    pub left : List ℕ
    pub more : List (Bool × List ℕ)
    pub returns :
        start' < 2 ^ 32 → r ≡ ok (at kind fc block_size lossless start' left (blocks ++ more))
    pub over : start < 2 ^ 32 → 2 ^ 32 ≤ start' → r ≡ panics
    pub below : length left < limit
    pub good : All (IsGood kind.compressor fc.id) more
    pub kept : stream kind.compressor fc.id more ++ left ≡ u ++ given
    pub started : start' ≡ start + frames more
    pub tight : frames more + 3 * length left ≤ 3 * (length u + length given)

  stays-Moved :
      (start : ℕ) (u : List ℕ) (blocks : List (Bool × List ℕ)) (limit : ℕ)
      (r : Result MetadataWriter)
      → length u < limit
      → r ≡ ok (at kind fc block_size lossless start u blocks)
      → Moved start u [] blocks limit r
  stays-Moved start u blocks limit r short e = record {
    start' = start;
    left = u;
    more = [];
    returns = λ _. rw (append-nil blocks) e;
    over = λ small big. absurd (omega arith);
    below = short;
    good = tt;
    kept = sym (append-nil u);
    started = omega arith;
    tight = omega arith;
  }

  -- One block of at least a byte was cut off, and the rest of the loop went on from there.
  steps-Moved :
      (start : ℕ) (u : List ℕ) (blocks : List (Bool × List ℕ)) (limit : ℕ)
      (next : MetadataWriter → Result MetadataWriter)
      → 0 < length u
      → let n = min (length u) metadata_maxsize in
        let b = block_of kind fc block_size lossless (take n u) in
        Moved
          (advance start b.1)
          (drop n u)
          []
          (blocks ++ b ∷ [])
          limit
          (next (at kind fc block_size lossless (advance start b.1) (drop n u) (blocks ++ b ∷ [])))
        → Moved start u [] blocks limit
            (add_block (at kind fc block_size lossless start u blocks) >>= next)
  steps-Moved start u blocks limit next some_left m =
      let n = min (length u) metadata_maxsize in
      let taken = length-take n u in
      let room : length (take n u) ≤ metadata_maxsize = omega (arith, taken) in
      let b = block_of kind fc block_size lossless (take n u) in
      let thin = length-block_of kind fc block_size lossless (take n u) in
      let (good, same) = block_of-IsGood kind fc block_size lossless (take n u) room in
      record {
        start' = m.start';
        left = m.left;
        more = b ∷ m.more;
        returns = λ small.
            rw
              (add_block-at kind fc block_size lossless start u blocks some_left
                (omega (arith, m.started)))
              (m.returns small
                ∙ ap (λ t. ok (at kind fc block_size lossless m.start' m.left t))
                    (append_assoc blocks (b ∷ []) m.more));
        over = λ small big. elim (Bool-cases (ltb (advance start b.1) (2 ^ 32))) [
          | inl h ↦
              let fits : advance start b.1 < 2 ^ 32 = ltb→lt _ (2 ^ 32) h in
              rw (add_block-at kind fc block_size lossless start u blocks some_left fits)
                (m.over fits big)
          | inr h ↦
              rw
                (add_block-over kind fc block_size lossless start u blocks some_left
                  (ltb→le _ (2 ^ 32) h))
                refl
        ];
        below = m.below;
        good = (good, m.good);
        kept =
            append_assoc (contents kind.compressor fc.id b) (stream kind.compressor fc.id m.more)
              m.left
            ∙ rw (same, m.kept, append-nil (drop n u), append-nil u) (take-append-drop n u);
        started = omega (arith, m.started, thin, room);
        tight = omega (arith, m.tight, thin, taken, length-drop n u);
      }

  pub add_blocks-Moved :
      (fuel limit start : ℕ) (u : List ℕ) (blocks : List (Bool × List ℕ))
      → 0 < limit
      → length u ≤ fuel
      → Moved start u [] blocks limit
          (add_blocks fuel limit (at kind fc block_size lossless start u blocks))
  unfolding add_blocks
  add_blocks-Moved zero limit start u blocks pos enough =
      stays-Moved start u blocks limit _ (omega arith) (rw (lt→leb limit (length u) (omega arith)))
  add_blocks-Moved (suc fuel) limit start u blocks pos enough =
      elim (Bool-cases (leb limit (length u))) [
        | inl long ↦
            let n = min (length u) metadata_maxsize in
            let some_left : 0 < length u = omega (arith, leb→le limit (length u) long) in
            rw (long, add_blocks)
              (steps-Moved start u blocks limit (λ w. add_blocks fuel limit w) some_left
                (add_blocks-Moved fuel limit _ (drop n u) _ pos (omega (arith, length-drop n u))))
        | inr short ↦
            stays-Moved start u blocks limit _ (leb→lt limit (length u) short)
              (rw (short, add_blocks))
      ]

  -- Bytes that come in join those that wait.
  joins-Moved :
      (start : ℕ) (u buf : List ℕ) (blocks : List (Bool × List ℕ)) (limit : ℕ)
      (r : Result MetadataWriter)
      → Moved start (u ++ buf) [] blocks limit r
      → Moved start u buf blocks limit r
  joins-Moved start u buf blocks limit r m = record {
    start' = m.start';
    left = m.left;
    more = m.more;
    returns = m.returns;
    over = m.over;
    below = m.below;
    good = m.good;
    kept = m.kept ∙ append-nil (u ++ buf);
    started = m.started;
    tight = omega (arith, m.tight, length-append u buf);
  }

  pub write_all-Moved :
      (start : ℕ) (u buf : List ℕ) (blocks : List (Bool × List ℕ))
      → length u < metadata_maxsize
      → Moved start u buf blocks metadata_maxsize
          (write_all (at kind fc block_size lossless start u blocks) buf)
  unfolding write_all
  write_all-Moved start u [] blocks short =
      joins-Moved start u [] blocks metadata_maxsize _
        (rw (append-nil u) (stays-Moved start u blocks metadata_maxsize _ short refl))
  write_all-Moved start u (b ∷ bs) blocks short =
      joins-Moved start u (b ∷ bs) blocks metadata_maxsize _ (
        add_blocks-Moved (length (u ++ b ∷ bs)) metadata_maxsize start (u ++ b ∷ bs) blocks
          (omega arith) (omega arith))

  -- Two moves, one after the other.
  trans-Moved :
      (start : ℕ) (u given then : List ℕ) (blocks : List (Bool × List ℕ)) (limit limit' : ℕ)
      (r : Result MetadataWriter) (next : MetadataWriter → Result MetadataWriter)
      → (m : Moved start u given blocks limit r)
      → Moved m.start' m.left then
          (blocks ++ m.more)
          limit'
          (next (at kind fc block_size lossless m.start' m.left (blocks ++ m.more)))
      → Moved start u (given ++ then) blocks limit' (r >>= next)
  trans-Moved start u given then blocks limit limit' r next m k = record {
    start' = k.start';
    left = k.left;
    more = m.more ++ k.more;
    returns = λ small.
        rw (m.returns (omega (arith, k.started)), ← append_assoc blocks m.more k.more)
          (k.returns small);
    over = λ small big. elim (Bool-cases (ltb m.start' (2 ^ 32))) [
      | inl h ↦
          let fits : m.start' < 2 ^ 32 = ltb→lt m.start' (2 ^ 32) h in
          rw (m.returns fits) (k.over fits big)
      | inr h ↦ rw (m.over small (ltb→le m.start' (2 ^ 32) h)) refl
    ];
    below = k.below;
    good = All-append (IsGood kind.compressor fc.id) m.more k.more m.good k.good;
    kept =
        simp (stream-append, append_assoc)
          (rw (
            k.kept,
            ← append_assoc (stream kind.compressor fc.id m.more) m.left then,
            m.kept,
            append_assoc u given then,
          ));
    started = omega (arith, m.started, k.started, frames-append m.more k.more);
    tight = omega (arith, m.tight, k.tight, frames-append m.more k.more, length-append given then);
  }

  pub write_each-Moved :
      (start : ℕ) (u : List ℕ) (bufs : List (List ℕ)) (blocks : List (Bool × List ℕ))
      → length u < metadata_maxsize
      → Moved start u
          (concat bufs)
          blocks
          metadata_maxsize
          (write_each (at kind fc block_size lossless start u blocks) bufs)
  write_each-Moved start u [] blocks short =
      joins-Moved start u [] blocks metadata_maxsize _
        (rw (append-nil u) (stays-Moved start u blocks metadata_maxsize _ short refl))
  write_each-Moved start u (buf ∷ bufs) blocks short =
      let m = write_all-Moved start u buf blocks short in
      trans-Moved start u buf (concat bufs) blocks metadata_maxsize metadata_maxsize _
        (λ w. write_each w bufs) m
        (write_each-Moved m.start' m.left bufs (blocks ++ m.more) m.below)

  -- `write_all` in parts, then the loop of `finalize`: nothing is left to wait.
  pub flush-Moved :
      (start : ℕ) (u : List ℕ) (blocks : List (Bool × List ℕ))
      → Moved start u [] blocks 1
          (add_blocks (length u) 1 (at kind fc block_size lossless start u blocks))
  flush-Moved start u blocks =
      add_blocks-Moved (length u) 1 start u blocks (omega arith) (omega arith)
