-- ===== src/Data/Sizes.antt =====
-- The length that `add_bytes` of backhand/src/data.rs returns for a file, on each of its branches.
use backhand.Common.{
  ℕ, zero, suc, ◌+◌, ◌-◌, ◌<◌, ◌≡◌, ◌≢◌, ◌==◌, refl, ltb, true, false, Bool-cases, inl, inr, Option,
  none, List, [], ◌∷◌, ◌++◌, length, take, drop, length-take, length-drop, arith,
}
use mathlib.Core.Path.{subst}
use backhand.Data.{
  ReadEvent, ChunkReader, DataWriter, DupCache, Added, read_chunk, store_blocks, stored, finalize,
  add_fragment, find_duplicate, remember, add_blocks, add_full, add_bytes, total,
}
use backhand.Data.Chunks.{IsSteady, content, fill-Filled}
use backhand.DataSize.{DataSize}
use backhand.Error.{ok, IfOk, IfOk->>=, IfOk-then, IfOk-weaken}

abbrev after_chunk : (r : ChunkReader) → IsSteady r.source → ChunkReader
after_chunk r s = record r {
  file_len = r.file_len + length (take r.room (content r.source));
  source = (fill-Filled r.room r.source s).left;
}

read_chunk-steady :
    (r : ChunkReader) (s : IsSteady r.source)
    → read_chunk r ≡ ok (take r.room (content r.source), after_chunk r s)
unfolding read_chunk
read_chunk-steady r s = let f = fill-Filled r.room r.source s in rw f.returns refl

-- Only an empty chunk ends the loop, and it stands for the end of the source.
store_blocks-length :
    (fuel : ℕ) (d : DataWriter) (chunk : List ℕ) (r : ChunkReader) (out : List ℕ)
    (sizes : List DataSize)
    → IsSteady r.source
    → 0 < r.room
    → (chunk ≡ [] → length (content r.source) ≡ 0)
    → IfOk
        (λ (res : ChunkReader × List ℕ × List DataSize).
          res.0.file_len ≡ r.file_len + length (content r.source))
        (store_blocks fuel d chunk r out sizes)
unfolding store_blocks
store_blocks-length fuel d [] r out sizes s room over = omega (arith, over refl)
store_blocks-length zero d (b ∷ bs) r out sizes s room over = tt
store_blocks-length (suc fuel) d (b ∷ bs) r out sizes s room over =
    let f = fill-Filled r.room r.source s in
    let chunk = take r.room (content r.source) in
    let P : ChunkReader × List ℕ × List DataSize → Type 0 =
      λ res. res.0.file_len ≡ r.file_len + length (content r.source) in
    IfOk-then P (d.kind.compress d.fs_compressor d.block_size (b ∷ bs)) _ (λ cb.
      IfOk-then P (stored (b ∷ bs) cb) _ (λ (written, size). rw (read_chunk-steady r s) (
        IfOk-weaken
          (λ (res : ChunkReader × List ℕ × List DataSize).
            res.0.file_len ≡ (after_chunk r s).file_len + length (content f.left))
          P (store_blocks fuel d chunk (after_chunk r s) (out ++ written) (sizes ++ size ∷ []))
          (λ res e. omega (arith, e, sizes_of f.left f.rest, length-take r.room (content r.source)))
          (store_blocks-length fuel d chunk (after_chunk r s) (out ++ written) (sizes ++ size ∷ [])
            f.steady room
            (λ nothing. omega (
              arith,
              sizes_of f.left f.rest,
              length-take r.room (content r.source),
              emptied nothing,
            ))))))
  where
    sizes_of :
        (left : List ReadEvent)
        → content left ≡ drop r.room (content r.source)
        → length (content left) ≡ length (content r.source) - r.room
    sizes_of left e = rw e (length-drop r.room (content r.source))

    emptied : {xs : List ℕ} → xs ≡ [] → length xs ≡ 0
    emptied e = rw e refl

-- A writer without a cache, for blocks of so many bytes
abbrev pub Plain : ℕ → DataWriter → Type 0
Plain b d = (d.block_size ≡ b) × (d.dup_cache ≡ none)

-- What a call that takes in a file of `n` bytes returns for it, and the writer afterwards
abbrev pub Sized : ℕ → ℕ → DataWriter × List ℕ × (ℕ × Added) → Type 0
Sized b n (d, out, (file_len, added)) = Plain b d × (file_len ≡ n)

finalize-Plain :
    (b : ℕ) (d : DataWriter) (out : List ℕ)
    → Plain b d
    → IfOk (λ (r : DataWriter × List ℕ). Plain b r.0) (finalize d out)
unfolding finalize
finalize-Plain b d out p =
    IfOk-then (λ (r : DataWriter × List ℕ). Plain b r.0)
      (d.kind.compress d.fs_compressor d.block_size d.fragment_bytes) _
      (λ cb.
        IfOk-then (λ (r : DataWriter × List ℕ). Plain b r.0) (stored d.fragment_bytes cb) _
          (λ (written, size). p))

add_fragment-Sized :
    (b : ℕ) (d : DataWriter) (chunk : List ℕ) (n : ℕ) (out : List ℕ)
    → Plain b d
    → IfOk (Sized b n) (add_fragment d chunk n out)
unfolding add_fragment
add_fragment-Sized b d chunk n out p =
    elim (Bool-cases (ltb d.block_size (length chunk + length d.fragment_bytes))) [
      | inl full ↦
          rw (full, add_fragment)
            (IfOk->>= (λ (r : DataWriter × List ℕ). Plain b r.0) (Sized b n) (finalize d out) _
              (finalize-Plain b d out p) (λ _ _ q. (q, refl)))
      | inr fits ↦ rw (fits, add_fragment) (p, refl)
    ]

find_duplicate-none : (o : Option DupCache) (n h : ℕ) → o ≡ none → find_duplicate o n h ≡ none
unfolding find_duplicate
find_duplicate-none o n h e = rw e refl

remember-none : (o : Option DupCache) (n h : ℕ) (a : ℕ × Added) → o ≡ none → remember o n h a ≡ none
unfolding remember
remember-none o n h a e = rw e refl

is_equal : (a b : ℕ) → (a == b) ≡ true → a ≡ b
is_equal a b h = ground arith

is_unequal : (a b : ℕ) → (a == b) ≡ false → a ≢ b
is_unequal a b h = ground arith

module _ (xxh64 : List ℕ → ℕ) where
  add_full-Sized :
      (b : ℕ) (d : DataWriter) (chunk : List ℕ) (r : ChunkReader) (out : List ℕ)
      → Plain b d
      → IsSteady r.source
      → 0 < r.room
      → 0 < length chunk
      → IfOk (Sized b (r.file_len + length (content r.source))) (add_full xxh64 d chunk r out)
  unfolding add_full add_blocks
  add_full-Sized b d chunk r out (size, no_cache) s room some_bytes =
      let n = r.file_len + length (content r.source) in
      rw (find_duplicate-none d.dup_cache (length chunk) (xxh64 chunk) no_cache, add_full)
        (IfOk->>= (λ (res : ChunkReader × List ℕ × List DataSize). res.0.file_len ≡ n) (Sized b n)
          (store_blocks (suc (total r.source)) d chunk r out []) _
          (store_blocks-length (suc (total r.source)) d chunk r out [] s room
            (λ nothing. absurd (positive nothing some_bytes)))
          (λ (r', out', sizes) _ e. ((size, remember-none d.dup_cache _ _ _ no_cache), e)))
    where
      positive : {xs : List ℕ} → xs ≡ [] → 0 < length xs → ⊥
      positive {xs} e h = empty xs e h
        where
          empty : (ys : List ℕ) → ys ≡ [] → 0 < length ys → ⊥
          empty [] e h = omega arith
          empty (y ∷ ys) e h = cc

  -- With blocks of a byte or more and no cache of duplicates: a file whose source does not fail, and
  -- which is stored without an error, is answered with its length, be it short or long; and the
  -- writer goes on with these settings.
  pub add_bytes-Sized :
      (b : ℕ) (d : DataWriter) (source : List ReadEvent) (out : List ℕ)
      → 0 < b
      → Plain b d
      → IsSteady source
      → IfOk (Sized b (length (content source))) (add_bytes xxh64 d source out)
  unfolding add_bytes
  add_bytes-Sized b d source out pos p s =
      let r : ChunkReader = record { room = d.block_size; file_len = 0; source = source } in
      let chunk = take d.block_size (content source) in
      let r' = after_chunk r s in
      let f = fill-Filled d.block_size source s in
      let taken = length-take d.block_size (content source) in
      rw (read_chunk-steady r s) (elim (Bool-cases (length chunk == d.block_size)) [
        | inl full ↦
            let whole : length chunk ≡ d.block_size = is_equal (length chunk) d.block_size full in
            let all : 0 + length chunk + length (content f.left) ≡ length (content source) =
              omega (arith, rest_of f.left f.rest) in
            rw full (
              subst (λ n. IfOk (Sized b n) (add_full xxh64 d chunk r' out)) all
                (add_full-Sized b d chunk r' out p f.steady (omega (arith, p.0))
                  (omega (arith, p.0))))
        | inr short ↦
            let part : length chunk ≢ d.block_size = is_unequal (length chunk) d.block_size short in
            let all : 0 + length chunk ≡ length (content source) = omega arith in
            rw short (
              subst (λ n. IfOk (Sized b n) (add_fragment d chunk (0 + length chunk) out)) all
                (add_fragment-Sized b d chunk (0 + length chunk) out p))
      ])
    where
      rest_of :
          (left : List ReadEvent)
          → content left ≡ drop d.block_size (content source)
          → length (content left) ≡ length (content source) - d.block_size
      rest_of left e = rw e (length-drop d.block_size (content source))
