-- ===== src/Data/Blocks.antt =====
-- The blocks that the data writer of backhand/src/data.rs stores for a file that fills a block: one
-- for each chunk, and in the order of the chunks.
use backhand.Common.{
  ℕ, zero, suc, ◌+◌, ◌%◌, ◌^◌, ◌≤◌, ◌<◌, ◌≡◌, refl, ap, ◌∙◌, ltb, ltb→le, if◌then◌else◌, Bool-cases,
  inl, inr, Option, none, List, [], ◌∷◌, ◌++◌, length, take, drop, concat, length-append,
  length-take, length-drop, take-append-drop, append_assoc, append-nil, arith,
}
use backhand.Compressor.Config.{FilesystemCompressor}
use backhand.Data.{
  ReadEvent, bytes, retry, fails, aborts, ChunkReader, read_chunk, fill, total, DataWriter, stored,
  store_blocks, DupCache, Added, data_added, find_duplicate, remember, add_blocks, add_full,
  add_bytes,
}
use backhand.Data.Chunks.{content, IsSteady, fill-Filled}
use backhand.Data.Duplicates.{add_bytes-full}
use backhand.DataSize.{DataSize}
use backhand.DataSize.Bit.{new_plain, new_marked}
use backhand.DataSize.Create.{new_compressed, new_uncompressed}
use backhand.Error.{Result, ok}
use backhand.Kinds.{CompressionAction, IsLossless}

-- A block size is written `suc b`, since it is not 0.
module _ (kind : CompressionAction) (fc : FilesystemCompressor) (b : ℕ) (small : suc b < 2 ^ 24)
    (lossless : IsLossless kind fc (suc b) (suc b)) where
  open lossless use {packed, compress_packed}

  -- What is stored for a chunk, and its size word.
  unfoldable pub piece : List ℕ → List ℕ × DataSize
  piece chunk =
      if ltb (length chunk) (length (packed chunk))
      then (chunk, record { bits = 2 ^ 24 + length chunk })
      else (packed chunk, record { bits = length (packed chunk) })

  unfoldable pub written : List (List ℕ) → List ℕ
  written [] = []
  written (c ∷ cs) = (piece c).0 ++ written cs

  unfoldable pub words : List (List ℕ) → List DataSize
  words [] = []
  words (c ∷ cs) = (piece c).1 ∷ words cs

  -- A file cut into chunks, each full but the last.
  unfoldable pub cut : ℕ → List ℕ → List (List ℕ)
  cut zero xs = []
  cut (suc n) [] = []
  cut (suc n) (x ∷ xs) = take (suc b) (x ∷ xs) ∷ cut n (drop (suc b) (x ∷ xs))

  abbrev pub IsChunks : List (List ℕ) → Type 0
  IsChunks [] = Unit
  IsChunks (c ∷ cs) = (0 < length c) × (length c ≤ suc b) × IsChunks cs

  pub cut-IsChunks : (n : ℕ) (xs : List ℕ) → IsChunks (cut n xs)
  unfolding cut
  cut-IsChunks zero xs = tt
  cut-IsChunks (suc n) [] = tt
  cut-IsChunks (suc n) (x ∷ xs) =
      (omega arith, omega (arith, length-take (suc b) (x ∷ xs)), cut-IsChunks n (drop b xs))

  pub concat-cut : (n : ℕ) (xs : List ℕ) → length xs ≤ n → concat (cut n xs) ≡ xs
  unfolding cut
  concat-cut zero [] h = refl
  concat-cut zero (x ∷ xs) h = absurd (omega arith)
  concat-cut (suc n) [] h = refl
  concat-cut (suc n) (x ∷ xs) h =
      rw (concat-cut n (drop b xs) (omega (arith, length-drop b xs)))
        (take-append-drop (suc b) (x ∷ xs))

  -- More fuel than the file has bytes changes nothing.
  pub cut-enough : (n m : ℕ) (xs : List ℕ) → length xs ≤ n → length xs ≤ m → cut n xs ≡ cut m xs
  unfolding cut
  cut-enough zero zero [] h g = refl
  cut-enough zero (suc m) [] h g = refl
  cut-enough (suc n) zero [] h g = refl
  cut-enough (suc n) (suc m) [] h g = refl
  cut-enough zero m (x ∷ xs) h g = absurd (omega arith)
  cut-enough (suc n) zero (x ∷ xs) h g = absurd (omega arith)
  cut-enough (suc n) (suc m) (x ∷ xs) h g =
      ap (λ t. take (suc b) (x ∷ xs) ∷ t)
        (cut-enough n m (drop b xs) (omega (arith, length-drop b xs))
          (omega (arith, length-drop b xs)))

  pub stored-piece :
      (chunk : List ℕ) → length chunk ≤ suc b → stored chunk (packed chunk) ≡ ok (piece chunk)
  unfolding stored piece new_compressed new_uncompressed
  stored-piece chunk h = elim (Bool-cases (ltb (length chunk) (length (packed chunk)))) [
    | inl longer ↦
        let e : length chunk % 2 ^ 32 ≡ length chunk = omega arith in
        rw longer (rw (e, new_marked (length chunk) (omega arith)))
    | inr fits ↦
        let p = ltb→le (length chunk) (length (packed chunk)) fits in
        let e : length (packed chunk) % 2 ^ 32 ≡ length (packed chunk) = omega arith in
        rw fits (rw (e, new_plain (length (packed chunk)) (omega arith)))
  ]

  -- A data writer with these settings.
  abbrev pub writer : Option DupCache → DataWriter → DataWriter
  writer cache d = record d {
    kind = kind;
    block_size = suc b;
    fs_compressor = fc;
    dup_cache = cache;
  }

  total-content :
      (events : List ReadEvent) → IsSteady events → total events ≡ length (content events)
  total-content [] h = refl
  total-content (bytes [] ∷ events) h = absurd h
  total-content (bytes (x ∷ xs) ∷ events) h =
      omega (arith, length-append xs (content events), total-content events h)
  total-content (retry ∷ events) h = total-content events h
  total-content (fails k ∷ events) h = absurd h
  total-content (aborts ∷ events) h = absurd h

  read_chunk-at :
      (file_len : ℕ) (events left : List ReadEvent) (xs : List ℕ)
      → fill (suc b) events ≡ ok (xs, left)
      → read_chunk (record { room = suc b; file_len = file_len; source = events })
        ≡ ok (xs, record { room = suc b; file_len = file_len + length xs; source = left })
  unfolding read_chunk
  read_chunk-at file_len events left xs e = rw e

  record Stores (d : DataWriter) (n file_len : ℕ) (c out : List ℕ) (sizes : List DataSize)
      (r : Result (ChunkReader × List ℕ × List DataSize)) : Type 0 where
    reader : ChunkReader
    returns : r ≡ ok (reader, out ++ written (cut n c), sizes ++ words (cut n c))
    read_len : reader.file_len ≡ file_len + length (drop (suc b) c)

  -- The loop, from a chunk that has been read: `c` is that chunk and what the source still holds.
  store_blocks-Stores :
      (fuel n file_len : ℕ) (cache : Option DupCache) (d : DataWriter) (c out : List ℕ)
      (sizes : List DataSize) (events : List ReadEvent)
      → IsSteady events
      → content events ≡ drop (suc b) c
      → length c ≤ fuel + b
      → (0 < length c → 0 < fuel)
      → length c ≤ n
      → Stores d n file_len c out sizes (
          store_blocks fuel
            (writer cache d)
            (take (suc b) c)
            (record { room = suc b; file_len = file_len; source = events })
            out
            sizes)
  unfolding store_blocks cut written words
  store_blocks-Stores fuel zero file_len cache d [] out sizes events s e h p g = record {
    reader = record { room = suc b; file_len = file_len; source = events };
    returns = rw (append-nil out, append-nil sizes);
    read_len = omega arith;
  }
  store_blocks-Stores fuel (suc n) file_len cache d [] out sizes events s e h p g = record {
    reader = record { room = suc b; file_len = file_len; source = events };
    returns = rw (append-nil out, append-nil sizes);
    read_len = omega arith;
  }
  store_blocks-Stores fuel zero file_len cache d (x ∷ xs) out sizes events s e h p g =
      absurd (omega arith)
  store_blocks-Stores zero (suc n) file_len cache d (x ∷ xs) out sizes events s e h p g =
      absurd (omega (arith, p (omega arith)))
  store_blocks-Stores (suc fuel) (suc n) file_len cache d (x ∷ xs) out sizes events s e h p g =
      let chunk = take (suc b) (x ∷ xs) in
      let rest = drop (suc b) (x ∷ xs) in
      let room : length chunk ≤ suc b = omega (arith, length-take (suc b) (x ∷ xs)) in
      let f = fill-Filled (suc b) events s in
      let next : take (suc b) (content events) ≡ take (suc b) rest = ap (take (suc b)) e in
      let more =
        store_blocks-Stores fuel n (file_len + length (take (suc b) rest)) cache d rest
          (out ++ (piece chunk).0) (sizes ++ (piece chunk).1 ∷ []) f.left f.steady
          (f.rest ∙ ap (drop (suc b)) e) (omega (arith, length-drop b xs))
          (λ q. omega (arith, length-drop b xs)) (omega (arith, length-drop b xs)) in
      record {
        reader = more.reader;
        returns =
            rw (compress_packed chunk room, stored-piece chunk room)
              (rw
                (read_chunk-at file_len events f.left (take (suc b) rest)
                  (f.returns ∙ ap (λ t. ok (t, f.left)) next))
                (more.returns
                  ∙ rw (
                    append_assoc out (piece chunk).0 (written (cut n rest)),
                    append_assoc sizes ((piece chunk).1 ∷ []) (words (cut n rest)),
                  )));
        read_len =
            more.read_len ∙ omega (arith, length-take (suc b) rest, length-drop (suc b) rest);
      }

  pub record Kept (cache : Option DupCache) (d : DataWriter) (c out : List ℕ)
      (r : Result (DataWriter × List ℕ × (ℕ × Added))) : Type 0 where
    pub writer' : DataWriter
    pub returns :
        r
        ≡ ok (
          writer',
          out ++ written (cut (length c) c),
          (length c, data_added (length out % 2 ^ 32) (words (cut (length c) c))),
        )
    pub fragments_kept :
        (writer'.fragment_bytes ≡ d.fragment_bytes) × (writer'.fragment_table ≡ d.fragment_table)

  -- With a lossless compressor: a file of a block or more, whose source does not fail, and whose first
  -- block is not in the cache of duplicates. Behind the output stands, for each chunk of the file in
  -- order, the packed chunk, or the chunk itself where packing makes it longer; the file's length, the
  -- place of its first block in 32 bits and one size word for each chunk are returned; and what is
  -- kept for fragments stays as it was.
  pub add_bytes-Kept :
      (xxh64 : List ℕ → ℕ) (cache : Option DupCache) (d : DataWriter) (source : List ReadEvent)
      (out : List ℕ)
      → IsSteady source
      → let c = content source in
        suc b ≤ length c
        → find_duplicate cache (suc b) (xxh64 (take (suc b) c)) ≡ none
        → Kept cache d c out (add_bytes xxh64 (writer cache d) source out)
  unfolding add_full add_blocks
  add_bytes-Kept xxh64 cache d source out s long fresh =
      let c = content source in
      let f = fill-Filled (suc b) source s in
      let chunk = take (suc b) c in
      let full : length chunk ≡ suc b = omega (arith, length-take (suc b) c) in
      let m =
        store_blocks-Stores (suc (total f.left)) (length c) (0 + length chunk) cache d c out []
          f.left f.steady f.rest
          (omega (
            arith,
            total-content f.left f.steady,
            ap (λ (t : List ℕ). length t) f.rest,
            length-drop (suc b) c,
          ))
          (λ q. omega arith) (omega arith) in
      let len : m.reader.file_len ≡ length c = m.read_len ∙ omega (arith, length-drop (suc b) c) in
      record {
        writer' = record (writer cache d) {
          dup_cache =
              remember cache (suc b) (xxh64 chunk)
                (length c, data_added (length out % 2 ^ 32) (words (cut (length c) c)));
        };
        returns =
            add_bytes-full xxh64 (writer cache d) source f.left chunk out f.returns full
            ∙ rw (full, add_full) (rw (fresh, add_full) (rw m.returns (rw len (rw full))));
        fragments_kept = (refl, refl);
      }
