-- ===== src/Data/Duplicates.antt =====
-- The cache of files that were added, backhand/src/data.rs: it is keyed by the length and the hash of
-- a file's first block, and a file is taken for one added before when that block is the same.
use backhand.Common.{
  ℕ, suc, ◌%◌, ◌^◌, ◌+◌, ◌≡◌, sym, ◌∙◌, ◌==◌, ==_refl, true, inl, inr, some, Option-cases, List, [],
  length, arith, lookup, insert, lookup-insert,
}
use backhand.Data.{
  total, data_added, ReadEvent, fill, ChunkReader, DupCache, DataWriter, Added, find_duplicate,
  remember, store_blocks, add_blocks, add_full, add_bytes,
}
use backhand.Error.{ok, >>=-eq-ok}

lookup-insert_self {ℓ} :
    {V : Type ℓ} (k : ℕ) (v : V) (m : List (ℕ × V)) → lookup k (insert k v m) ≡ some v
lookup-insert_self k v m = lookup-insert k k v m ∙ rw (==_refl k)

find_duplicate-remember :
    (cache : DupCache) (chunk_len hash : ℕ) (added : ℕ × Added)
    → find_duplicate (remember (some cache) chunk_len hash added) chunk_len hash ≡ some added
unfolding find_duplicate remember
find_duplicate-remember cache chunk_len hash added = elim (Option-cases (lookup chunk_len cache)) [
  | inl e ↦ ground (
    arith,
    lookup-insert_self chunk_len (insert hash added []) cache,
    lookup-insert_self hash added [],
  )
  | inr (entry, e) ↦ ground (
    arith,
    lookup-insert_self chunk_len (insert hash added entry) cache,
    lookup-insert_self hash added entry,
  )
]

module _ (xxh64 : List ℕ → ℕ) where
  -- What `add_full` leaves has the file's place in the cache, and the block size it had.
  add_full-finds :
      (d d' : DataWriter) (cache : DupCache) (chunk : List ℕ) (r : ChunkReader) (out out' : List ℕ)
      (res : ℕ × Added)
      → d.dup_cache ≡ some cache
      → add_full xxh64 d chunk r out ≡ ok (d', out', res)
      → (find_duplicate d'.dup_cache (length chunk) (xxh64 chunk) ≡ some res)
        × (d'.block_size ≡ d.block_size)
  unfolding add_full add_blocks
  add_full-finds d d' cache chunk r out out' res on run =
      elim (Option-cases (find_duplicate d.dup_cache (length chunk) (xxh64 chunk))) [
        | inl fresh ↦ stored_anew (rw (fresh, add_full) at run)
        | inr (found, hit) ↦ ground arith
      ]
    where
      stored_anew :
          add_blocks xxh64 d chunk r out ≡ ok (d', out', res)
          → (find_duplicate d'.dup_cache (length chunk) (xxh64 chunk) ≡ some res)
            × (d'.block_size ≡ d.block_size)
      stored_anew e =
          let ((r', o, sizes), ran, rest) =
            >>=-eq-ok (store_blocks (suc (total r.source)) d chunk r out []) _ e in
          let added : ℕ × Added = (r'.file_len, data_added (length out % 2 ^ 32) sizes) in
          ground (arith, find_duplicate-remember cache (length chunk) (xxh64 chunk) added)

  pub add_bytes-full :
      (d : DataWriter) (source left : List ReadEvent) (chunk out : List ℕ)
      → fill d.block_size source ≡ ok (chunk, left)
      → length chunk ≡ d.block_size
      → add_bytes xxh64 d source out
        ≡ add_full xxh64 d chunk
            (record { room = d.block_size; file_len = 0 + length chunk; source = left })
            out
  unfolding add_bytes
  add_bytes-full d source left chunk out filled full =
      let is_full : (length chunk == d.block_size) ≡ true = ground arith in rw filled (rw is_full)

  -- Duplicate checking is on, and a file was added whose first `block_size` bytes are `chunk`. Then
  -- every file with the same first `block_size` bytes, whatever follows them, is answered with that
  -- file's place and length: the writer and the output stay as they are, so nothing of the second
  -- file is stored.
  pub add_bytes-same_first_block :
      (d d' : DataWriter) (cache : DupCache) (first second left left' : List ReadEvent)
      (chunk out out' out2 : List ℕ) (res : ℕ × Added)
      → d.dup_cache ≡ some cache
      → length chunk ≡ d.block_size
      → fill d.block_size first ≡ ok (chunk, left)
      → fill d.block_size second ≡ ok (chunk, left')
      → add_bytes xxh64 d first out ≡ ok (d', out', res)
      → add_bytes xxh64 d' second out2 ≡ ok (d', out2, res)
  unfolding add_full
  add_bytes-same_first_block d d' cache first second left left' chunk out out' out2 res on full one
        two run =
      let (hit, size) =
        add_full-finds d d' cache chunk
          (record { room = d.block_size; file_len = 0 + length chunk; source = left }) out out' res
          on (sym (add_bytes-full d first left chunk out one full) ∙ run) in
      add_bytes-full d' second left' chunk out2 (rw size two) (full ∙ sym size) ∙ rw (hit, add_full)
