-- ===== src/Data/Chunks.antt =====
-- The chunk reader of backhand/src/data.rs against sources that answer in pieces of any size: a
-- chunk is full unless the source ends, and the chunks are the source cut up.
use backhand.Common.{
  ℕ, zero, suc, ◌-◌, ◌≤◌, ◌<◌, ◌≡◌, refl, sym, ap, ◌∙◌, leb, leb→le, leb→lt, Bool-cases, inl, inr,
  List, [], ◌∷◌, ◌++◌, length, take, drop, length-drop, arith,
}
use backhand.Data.{ReadEvent, bytes, retry, fails, aborts, fill}
use backhand.Error.{Result, ok}

-- What a source that does not fail gives until its end.
abbrev pub content : List ReadEvent → List ℕ
content [] = []
content (bytes bs ∷ events) = bs ++ content events
content (retry ∷ events) = content events
content (fails k ∷ events) = content events
content (aborts ∷ events) = content events

-- No call fails, and none but the last ones answers with no bytes.
abbrev pub IsSteady : List ReadEvent → Type 0
IsSteady [] = Unit
IsSteady (bytes [] ∷ events) = ⊥
IsSteady (bytes (b ∷ bs) ∷ events) = IsSteady events
IsSteady (retry ∷ events) = IsSteady events
IsSteady (fails k ∷ events) = ⊥
IsSteady (aborts ∷ events) = ⊥

take-long {ℓ} :
    {A : Type ℓ} (xs ys : List A) (n : ℕ)
    → length xs ≤ n
    → take n (xs ++ ys) ≡ xs ++ take (n - length xs) ys
take-long [] ys n h = let e : n - 0 ≡ n = omega arith in rw e
take-long (x ∷ xs) ys zero h = absurd (omega arith)
take-long (x ∷ xs) ys (suc n) h =
    let e : suc n - suc (length xs) ≡ n - length xs = omega arith in
    rw e (ap (λ t. x ∷ t) (take-long xs ys n (omega arith)))

drop-long {ℓ} :
    {A : Type ℓ} (xs ys : List A) (n : ℕ)
    → length xs ≤ n
    → drop n (xs ++ ys) ≡ drop (n - length xs) ys
drop-long [] ys n h = let e : n - 0 ≡ n = omega arith in rw e
drop-long (x ∷ xs) ys zero h = absurd (omega arith)
drop-long (x ∷ xs) ys (suc n) h =
    let e : suc n - suc (length xs) ≡ n - length xs = omega arith in
    rw e (drop-long xs ys n (omega arith))

take-short {ℓ} :
    {A : Type ℓ} (xs ys : List A) (n : ℕ) → n ≤ length xs → take n (xs ++ ys) ≡ take n xs
take-short xs ys zero h = refl
take-short [] ys (suc n) h = absurd (omega arith)
take-short (x ∷ xs) ys (suc n) h = ap (λ t. x ∷ t) (take-short xs ys n (omega arith))

drop-short {ℓ} :
    {A : Type ℓ} (xs ys : List A) (n : ℕ) → n ≤ length xs → drop n (xs ++ ys) ≡ drop n xs ++ ys
drop-short xs ys zero h = refl
drop-short [] ys (suc n) h = absurd (omega arith)
drop-short (x ∷ xs) ys (suc n) h = drop-short xs ys n (omega arith)

pub record Filled (room : ℕ) (events : List ReadEvent) (r : Result (List ℕ × List ReadEvent))
    : Type 0 where
  pub left : List ReadEvent
  pub returns : r ≡ ok (take room (content events), left)
  pub steady : IsSteady left
  pub rest : content left ≡ drop room (content events)

-- However a source that does not fail cuts its answers, and however often a call is interrupted:
-- filling a buffer of a given size takes that many bytes of what the source holds, or all of it if
-- it holds fewer, and leaves the rest in the source.
pub fill-Filled :
    (room : ℕ) (events : List ReadEvent) → IsSteady events → Filled room events (fill room events)
unfolding fill
fill-Filled zero events h = record { left = events; returns = refl; steady = h; rest = refl }
fill-Filled (suc room) [] h = record { left = []; returns = refl; steady = tt; rest = refl }
fill-Filled (suc room) (bytes [] ∷ events) h = absurd h
fill-Filled (suc room) (fails k ∷ events) h = absurd h
fill-Filled (suc room) (aborts ∷ events) h = absurd h
fill-Filled (suc room) (retry ∷ events) h =
    let f = fill-Filled (suc room) events h in
    record { left = f.left; returns = f.returns; steady = f.steady; rest = f.rest }
fill-Filled (suc room) (bytes (b ∷ bs) ∷ events) h = elim (Bool-cases (leb (length bs) room)) [
  | inl fits ↦
      let f = fill-Filled (room - length bs) events h in
      let enough = leb→le (length bs) room fits in
      record {
        left = f.left;
        returns = rw (fits, f.returns) (rw (take-long bs (content events) room enough));
        steady = f.steady;
        rest = f.rest ∙ sym (drop-long bs (content events) room enough);
      }
  | inr over ↦
      let more : room < length bs = leb→lt (length bs) room over in
      record {
        left = bytes (drop room bs) ∷ events;
        returns = rw over (rw (take-short bs (content events) room (omega arith)));
        steady = nonempty (drop room bs) (omega (arith, length-drop room bs));
        rest = sym (drop-short bs (content events) room (omega arith));
      }
]
  where
    nonempty : (xs : List ℕ) → 0 < length xs → IsSteady (bytes xs ∷ events)
    nonempty [] p = absurd (omega arith)
    nonempty (x ∷ xs) p = h
