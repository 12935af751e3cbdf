-- ===== src/Directory/Bytes/Ends.antt =====
-- The loop over a directory table, backhand/src/squashfs.rs: it ends for all bytes, since every
-- header that is read takes some of them.
use backhand.Common.{
  ℕ, zero, suc, ◌+◌, ◌≤◌, ◌<◌, ◌≡◌, refl, leb, leb→le, true, false, Bool-cases, inl, inr, Option,
  none, some, List, [], length, length-drop, drop, arith,
}
use mathlib.Core.Path.{subst}
use backhand.Deku.{read_bytes, read_word, Takes, read_bytes-Takes, read_word-Takes}
use backhand.Directory.Bytes.{
  inode_id_of, ok_or_deku, inode_ids, entry_from_reader, entries_from_reader, dir_from_reader,
  dirs_from_reader,
}
use backhand.Error.{Any, assert-Ends, assert, require, deku, Ends, Ends->>=, Ends-eq, Result-cases}
use backhand.Inode.{InodeId}
use backhand.Kinds.{Endian, WordCodec}

inode_id_of-Ends : (n : ℕ) → Ends Any (inode_id_of n)
unfolding inode_id_of
inode_id_of-Ends n = found (backhand.Common.lookup n inode_ids)
  where
    found : (o : Option InodeId) → Ends Any (ok_or_deku o)
    found none = tt
    found (some t) = tt

module _ (u16 : WordCodec 2) (e : Endian) where
  entry_from_reader-Takes : (bytes : List ℕ) → Ends (Takes 0 bytes) (entry_from_reader u16 e bytes)
  unfolding entry_from_reader
  entry_from_reader-Takes bytes =
      Ends->>= (Takes 2 bytes) (Takes 0 bytes) (read_word u16 e bytes) _
        (read_word-Takes u16 e bytes)
        (λ (offset, b1) _ h1.
          Ends->>= (Takes 2 b1) (Takes 0 bytes) (read_word u16 e b1) _ (read_word-Takes u16 e b1)
            (λ (inode_offset, b2) _ h2.
              Ends->>= (Takes 2 b2) (Takes 0 bytes) (read_word u16 e b2) _
                (read_word-Takes u16 e b2)
                (λ (id, b3) _ h3.
                  Ends->>= Any (Takes 0 bytes) (inode_id_of id) _ (inode_id_of-Ends id) (λ t _ _.
                    Ends->>= (Takes 2 b3) (Takes 0 bytes) (read_word u16 e b3) _
                      (read_word-Takes u16 e b3)
                      (λ (name_size, b4) _ h4.
                        Ends->>= Any (Takes 0 bytes) (assert (leb name_size 0xfffe)) _
                          (assert-Ends _)
                          (λ _ _ _.
                            Ends->>= (Takes (suc name_size) b4) (Takes 0 bytes)
                              (read_bytes (suc name_size) b4) _
                              (read_bytes-Takes (suc name_size) b4)
                              (λ (name, b5) _ h5. omega arith)))))))

  entries_from_reader-Takes :
      (n : ℕ) (bytes : List ℕ) → Ends (Takes 0 bytes) (entries_from_reader u16 n e bytes)
  unfolding entries_from_reader
  entries_from_reader-Takes zero bytes = omega arith
  entries_from_reader-Takes (suc n) bytes =
      Ends->>= (Takes 0 bytes) (Takes 0 bytes) (entry_from_reader u16 e bytes) _
        (entry_from_reader-Takes bytes)
        (λ (entry, rest) _ h1.
          Ends->>= (Takes 0 rest) (Takes 0 bytes) (entries_from_reader u16 n e rest) _
            (entries_from_reader-Takes n rest) (λ (entries, left) _ h2. omega arith))

  require-Ends : (b : backhand.Common.Bool) → Ends Any (require b deku)
  require-Ends true = tt
  require-Ends false = tt

  module _ (u32 : WordCodec 4) where
    dir_from_reader-Takes :
        (bytes : List ℕ) → Ends (Takes 12 bytes) (dir_from_reader u16 u32 e bytes)
    unfolding dir_from_reader
    dir_from_reader-Takes bytes =
        Ends->>= (Takes 4 bytes) (Takes 12 bytes) (read_word u32 e bytes) _
          (read_word-Takes u32 e bytes)
          (λ (count, b1) _ h1.
            Ends->>= Any (Takes 12 bytes) (require (leb count 256) deku) _ (require-Ends _)
              (λ _ _ _.
                Ends->>= (Takes 4 b1) (Takes 12 bytes) (read_word u32 e b1) _
                  (read_word-Takes u32 e b1)
                  (λ (start, b2) _ h2.
                    Ends->>= (Takes 4 b2) (Takes 12 bytes) (read_word u32 e b2) _
                      (read_word-Takes u32 e b2)
                      (λ (inode_num, b3) _ h3.
                        Ends->>= (Takes 0 b3) (Takes 12 bytes)
                          (entries_from_reader u16 (suc count) e b3) _
                          (entries_from_reader-Takes (suc count) b3)
                          (λ (entries, b4) _ h4. omega arith)))))

    -- The loop ends for all bytes, when it may go a round for each of them and one more.
    pub dirs_from_reader-Ends :
        (fuel : ℕ) (bytes : List ℕ)
        → length bytes < fuel
        → Ends Any (dirs_from_reader u16 u32 fuel e bytes)
    unfolding dirs_from_reader
    dirs_from_reader-Ends zero bytes h = absurd (omega arith)
    dirs_from_reader-Ends (suc fuel) bytes h =
        let taken = dir_from_reader-Takes bytes in
        elim (Result-cases (dir_from_reader u16 u32 e bytes)) [
          | inl ((d, rest), r) ↦
              let less = Ends-eq (Takes 12 bytes) r taken in
              rw (r, dirs_from_reader)
                (Ends->>= Any Any (dirs_from_reader u16 u32 fuel e rest) _
                  (dirs_from_reader-Ends fuel rest (omega arith)) (λ _ _ _. tt))
          | inr (inl (why, r)) ↦ rw (r, dirs_from_reader) tt
          | inr (inr (inl r)) ↦ rw (r, dirs_from_reader) tt
          | inr (inr (inr r)) ↦ absurd (subst (Ends (Takes 12 bytes)) r taken)
        ]
