-- ===== src/Deku.antt =====
-- Readers of bytes, as the deku crate makes them for the fields of a struct: each field takes its
-- bytes from the front of what is left, and fails where there are too few. The bytes of a number
-- are those of its codec.
use backhand.Common.{
  ℕ, ◌+◌, ◌^◌, ◌≤◌, ◌<◌, ◌≡◌, refl, sym, leb, leb→le, le→leb, if◌then◌else◌, Bool-cases, inl, inr,
  List, ◌++◌, length, length-append, length-drop, take, drop, take-append, drop-append, arith,
}
use backhand.Error.{Result, ok, err, ◌>>=◌, deku, Ends, Ends->>=}
use backhand.Kinds.{Endian, WordCodec}

-- The next bytes of a reader, which fails where there are too few.
unfoldable pub read_bytes : ℕ → List ℕ → Result (List ℕ × List ℕ)
read_bytes n bytes = if leb n (length bytes) then ok (take n bytes, drop n bytes) else err deku

unfoldable pub read_word : {width : ℕ} → WordCodec width → Endian → List ℕ → Result (ℕ × List ℕ)
unfolding read_bytes
read_word {width} word e bytes = do
  (field, rest) ← read_bytes width bytes
  ok (word.from_reader e field, rest)

-- A value is read from bytes of which at least `n` go.
abbrev pub Takes {ℓ} : {A : Type ℓ} → ℕ → List ℕ → A × List ℕ → Type 0
Takes n bytes (a, rest) = length rest + n ≤ length bytes

pub read_bytes-Takes : (n : ℕ) (bytes : List ℕ) → Ends (Takes n bytes) (read_bytes n bytes)
unfolding read_bytes
read_bytes-Takes n bytes = elim (Bool-cases (leb n (length bytes))) [
  | inl h ↦ rw h (omega (arith, leb→le n (length bytes) h, length-drop n bytes))
  | inr h ↦ rw h tt
]

pub read_word-Takes :
    {width : ℕ} (word : WordCodec width) (e : Endian) (bytes : List ℕ)
    → Ends (Takes width bytes) (read_word word e bytes)
unfolding read_word
read_word-Takes {width} word e bytes =
    Ends->>= (Takes width bytes) (Takes width bytes) (read_bytes width bytes)
      (λ (field, rest). ok (word.from_reader e field, rest)) (read_bytes-Takes width bytes)
      (λ _ _ h. h)

pub read_bytes-append :
    (xs rest : List ℕ) (n : ℕ) → n ≡ length xs → read_bytes n (xs ++ rest) ≡ ok (xs, rest)
unfolding read_bytes
read_bytes-append xs rest n e = rw e (
    rw
      (
        le→leb (length xs) (length (xs ++ rest)) (omega (arith, length-append xs rest)),
        take-append xs rest,
        drop-append xs rest,
      )
      refl)

pub read_word-append :
    {width : ℕ} (word : WordCodec width) (e : Endian) (n : ℕ) (rest : List ℕ)
    → n < 256 ^ width
    → read_word word e (word.to_writer e n ++ rest) ≡ ok (n, rest)
unfolding read_word
read_word-append {width} word e n rest h =
    rw (read_bytes-append (word.to_writer e n) rest width (sym (word.length-to_writer e n)))
      (rw (word.from_reader-to_writer e n h) refl)
