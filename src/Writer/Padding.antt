-- ===== src/Writer/Padding.antt =====
-- The padding of `FilesystemWriter::finalize`, backhand/src/filesystem/writer.rs: how long an image
-- is at the end.
use backhand.Common.{
  ℕ, zero, suc, ◌+◌, ◌-◌, ◌*◌, ◌/◌, ◌%◌, ◌^◌, ◌≤◌, ◌<◌, ◌≡◌, refl, sym, ap, ◌∙◌, ==_ne, ltb, lt→ltb,
  if◌then◌else◌, Bool-cases, ltb→lt, ltb→le, inl, inr, List, [], ◌∷◌, ◌++◌, length, drop, replicate,
  length-append, length-replicate, length-drop, drop-append, append_assoc, append-nil, arith,
}
use native.Mathlib.Nat.{mul_comm, mul-add, div-add-mod, mod-lt, mul-mod_left}
use backhand.Error.{ok}
use backhand.Superblock.{SuperBlock}
use backhand.Writer.{FilesystemWriter, pad_bytes, padding, finalize}

abbrev zeros : ℕ → List ℕ
zeros n = replicate n 0

zeros-add : (n m : ℕ) → zeros n ++ zeros m ≡ zeros (n + m)
zeros-add zero m = ap (λ (t : ℕ). zeros t) (omega arith)
zeros-add (suc n) m =
    let e : suc n + m ≡ suc (n + m) = omega arith in
    ap (λ (t : List ℕ). 0 ∷ t) (zeros-add n m) ∙ sym (ap (λ (t : ℕ). zeros t) e)

-- The length of one piece
piece : ℕ → ℕ
piece left = if ltb left 1024 then left % 1024 else 1024

piece_bounds : (left : ℕ) → 0 < left → (0 < piece left) × (piece left ≤ left)
unfolding piece
piece_bounds left pos = elim (Bool-cases (ltb left 1024)) [
  | inl small ↦ let p = ltb→lt left 1024 small in rw small (omega arith, omega arith)
  | inr large ↦ let p = ltb→le left 1024 large in rw large (omega arith, omega arith)
]

-- The loop ends, and puts the zeros that are left behind the image.
pub pad_bytes-replicate :
    (fuel end_ pad_len total_written : ℕ) (out : List ℕ)
    → length out + (pad_len - total_written) ≡ end_
    → total_written ≤ pad_len
    → pad_len - total_written < fuel
    → pad_bytes fuel end_ pad_len total_written out ≡ ok (out ++ zeros (pad_len - total_written))
unfolding pad_bytes piece
pad_bytes-replicate zero end_ pad_len total_written out e h enough = absurd (omega arith)
pad_bytes-replicate (suc fuel) end_ pad_len total_written out e h enough =
    elim (Bool-cases (ltb (length out) end_)) [
      | inl more ↦
          let left = pad_len - total_written in
          let n = piece left in
          let pos : 0 < left = omega (arith, ltb→lt (length out) end_ more) in
          let (some_bytes, inside) = piece_bounds left pos in
          let grown : length (out ++ zeros n) ≡ length out + n =
            length-append out (zeros n) ∙ ap (λ (t : ℕ). length out + t) (length-replicate n 0) in
          let left_over : n + (pad_len - (total_written + n)) ≡ left = omega arith in
          rw more (
            pad_bytes-replicate fuel end_ pad_len (total_written + n) (out ++ zeros n)
              (omega (arith, grown)) (omega arith) (omega arith)
            ∙ ap ok (
                append_assoc out (zeros n) (zeros (pad_len - (total_written + n)))
                ∙ ap (λ t. out ++ t)
                    (zeros-add n (pad_len - (total_written + n))
                      ∙ ap (λ (t : ℕ). zeros t) left_over)))
      | inr done ↦
          let none_left : pad_len - total_written ≡ 0 =
            omega (arith, ltb→le (length out) end_ done) in
          rw done (rw none_left (rw (append-nil out) refl))
    ]

drop-append_le : (n : ℕ) (xs ys : List ℕ) → n ≤ length xs → drop n (xs ++ ys) ≡ drop n xs ++ ys
drop-append_le zero xs ys h = refl
drop-append_le (suc n) [] ys h = absurd (omega arith)
drop-append_le (suc n) (x ∷ xs) ys h = drop-append_le n xs ys (omega arith)

-- How the call ends: with an image of `total` bytes, the first of which are the superblock's, and
-- the last of which are zeros.
pub record Padded (superblock_bytes : SuperBlock → List ℕ) (w : FilesystemWriter) (s : SuperBlock)
    (out : List ℕ) : Type 0 where
  pub total : ℕ
  pub image : List ℕ
  pub returns :
      finalize superblock_bytes w s out ≡ ok (total, record s { bytes_used = length out }, image)
  pub long : length image ≡ total
  pub content : drop 96 image ≡ drop 96 out ++ zeros (total - length out)
  pub whole : total % w.pad_len ≡ 0
  pub room : (length out < total) × (total ≤ length out + w.pad_len)

-- The arithmetic of the padding
padding-rounds :
    (p n : ℕ)
    → 0 < p
    → (n < (n / p + 1) * p) × ((n / p + 1) * p ≤ n + p) × (((n / p + 1) * p) % p ≡ 0)
padding-rounds p n pos =
    let spread : (n / p + 1) * p ≡ p * (n / p) + p =
      mul_comm (n / p + 1) p
      ∙ mul-add p (n / p) 1
      ∙ ap (λ (t : ℕ). p * (n / p) + t) (omega arith) in
    let whole = div-add-mod n p in
    let short = mod-lt n pos in (omega arith, omega arith, mul-mod_left (n / p + 1) p)

-- An image of 96 bytes or more, with a padding length that is not 0, and shorter than 4 GiB by that
-- length at least: `finalize` ends without a panic. It returns the length of the image that it
-- leaves, which is a multiple of the padding length, greater than before by one byte at least and by
-- the padding length at most; and behind the superblock the image is the old one, and zeros.
pub finalize-Padded :
    (superblock_bytes : SuperBlock → List ℕ) (w : FilesystemWriter) (s : SuperBlock) (out : List ℕ)
    → ((t : SuperBlock) → length (superblock_bytes t) ≡ 96)
    → 96 ≤ length out
    → 0 < w.pad_len
    → length out + w.pad_len < 2 ^ 32
    → Padded superblock_bytes w s out
unfolding finalize padding
finalize-Padded superblock_bytes w s out sized long pos room =
    let n = length out in
    let p = w.pad_len in
    let total = (n / p + 1) * p in
    let (more, most, whole) = padding-rounds p n pos in
    let head = superblock_bytes (record s { bytes_used = n }) in
    let fills : n + ((total - n) - 0) ≡ n + (total - n) = omega arith in
    let nothing_yet : (total - n) - 0 ≡ total - n = omega arith in
    let gap : n + (total - n) ≡ total = omega arith in
    record {
      total = total;
      image = head ++ drop 96 (out ++ zeros (total - n));
      returns =
          rw
            (
              ==_ne p 0 (λ z. omega (arith, pos, z)),
              lt→ltb n (2 ^ 32) (omega arith),
              lt→ltb total (2 ^ 32) (omega arith),
            )
            (rw
              (pad_bytes-replicate (suc (total - n)) (n + (total - n)) (total - n) 0 out fills
                (omega arith) (omega arith))
              (rw (nothing_yet, gap, sized (record s { bytes_used = n })) refl));
      long =
          length-append head (drop 96 (out ++ zeros (total - n)))
          ∙ ap (λ (t : ℕ). length head + t) (length-drop 96 (out ++ zeros (total - n)))
          ∙ omega (
            arith,
            sized (record s { bytes_used = n }),
            length-append out (zeros (total - n)),
            length-replicate {A = ℕ} (total - n) 0,
          );
      content =
          ap (λ (t : ℕ). drop t (head ++ drop 96 (out ++ zeros (total - n))))
            (sym (sized (record s { bytes_used = n })))
          ∙ drop-append head (drop 96 (out ++ zeros (total - n)))
          ∙ drop-append_le 96 out (zeros (total - n)) long;
      whole = whole;
      room = (more, most);
    }
