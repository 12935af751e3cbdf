-- ===== src/Error.antt =====
-- Errors, backhand/src/error.rs, and the outcome of a call: a value, an error, a panic (`unwrap`,
-- `panic!`, an index out of range), or no end, which stands for a loop that used up its fuel.
use mathlib.Core.Path.{subst}
use backhand.Common.{Bool, true, false, ◌≡◌, refl, ◌⊎◌, inl, inr}
use backhand.Compressor.{Compressor}
use backhand.Inode.{InodeInner}

-- The kinds of `io::Error` that the code makes or meets.
pub data IoErrorKind : Type 0 where
  unexpected_eof invalid_data invalid_input unsupported not_found interrupted other : IoErrorKind

pub data BackhandError : Type 0 where
  std_io : IoErrorKind → BackhandError
  deku string_utf8 str_utf8 file_not_found unreachable : BackhandError
  corrupted_or_invalid_squashfs invalid_compression_option invalid_file_path : BackhandError
  undefine_file_name duplicated_file_name try_reserve_error invalid_id_table : BackhandError
  unsupported_compression : Compressor → BackhandError
  unexpected_inode unsupported_inode : InodeInner → BackhandError

-- `impl From<BackhandError> for io::Error`
unfoldable pub into_io_error : BackhandError → IoErrorKind
into_io_error (std_io io) = io
into_io_error (unsupported_compression c) = unsupported
into_io_error file_not_found = not_found
into_io_error e = invalid_data

pub data Result {ℓ} (A : Type ℓ) : Type ℓ where
  ok : A → Result A
  err : BackhandError → Result A
  panics : Result A
  diverges : Result A

-- `?`: the value goes on, and all else ends the call.
infixl 5 ◌>>=◌ ◌>>◌
abbrev pub ◌>>=◌ {ℓ κ} : {X : Type ℓ} {Y : Type κ} → Result X → (X → Result Y) → Result Y
diverges >>= next = diverges
panics >>= next = panics
err why >>= next = err why
ok x >>= next = next x

abbrev pub ◌>>◌ {ℓ} : {Y : Type ℓ} → Result (Unit {0}) → Result Y → Result Y
first >> second = first >>= λ _. second

-- `assert!`, and a test that ends in `panic!` when it fails
abbrev pub assert : Bool → Result (Unit {0})
assert true = ok tt
assert false = panics

-- A test that ends in `return Err(e)` when it fails
abbrev pub require : Bool → BackhandError → Result (Unit {0})
require true e = ok tt
require false e = err e

-- `?` where the function returns `io::Result`: the error becomes an `io::Error`, and again an
-- error of the library where that is handed on.
abbrev pub through_io {ℓ} : {A : Type ℓ} → Result A → Result A
through_io (ok a) = ok a
through_io (err e) = err (std_io (into_io_error e))
through_io panics = panics
through_io diverges = diverges

-- What holds of the value that a call returns; a call that returns none has no such fact.
abbrev pub Returns {ℓ} : {A : Type ℓ} → Result A → (A → Type 0) → Type 0
Returns (ok a) P = P a
Returns (err e) P = ⊥
Returns panics P = ⊥
Returns diverges P = ⊥

pub Returns-eq {ℓ} :
    {A : Type ℓ} (P : A → Type 0) (r : Result A) → Returns r P → (a : A) × (r ≡ ok a) × P a
Returns-eq P (ok a) h = (a, refl, h)
Returns-eq P (err e) h = absurd h
Returns-eq P panics h = absurd h
Returns-eq P diverges h = absurd h

pub >>=-eq-ok {ℓ κ} :
    {X : Type ℓ} {Y : Type κ} (first : Result X) (next : X → Result Y) {y : Y}
    → (first >>= next) ≡ ok y
    → (x : X) × (first ≡ ok x) × (next x ≡ ok y)
>>=-eq-ok diverges next e = cc
>>=-eq-ok panics next e = cc
>>=-eq-ok (err why) next e = cc
>>=-eq-ok (ok x) next e = (x, refl, e)

pub ok-injective {ℓ} : {A : Type ℓ} {a b : A} → ok a ≡ ok b → a ≡ b
ok-injective h = cc

-- A call ends, and if it returns a value, then that has a property.
abbrev pub Ends {ℓ} : {A : Type ℓ} → (A → Type 0) → Result A → Type 0
Ends P (ok a) = P a
Ends P (err e) = Unit
Ends P panics = Unit
Ends P diverges = ⊥

pub Ends->>= {ℓ κ} :
    {X : Type ℓ} {Y : Type κ} (P : X → Type 0) (Q : Y → Type 0) (first : Result X)
    (next : X → Result Y)
    → Ends P first
    → ((x : X) → first ≡ ok x → P x → Ends Q (next x))
    → Ends Q (first >>= next)
Ends->>= P Q (ok x) next h k = k x refl h
Ends->>= P Q (err e) next h k = tt
Ends->>= P Q panics next h k = tt
Ends->>= P Q diverges next h k = absurd h

abbrev pub Any {ℓ} : {A : Type ℓ} → A → Type 0
Any a = Unit

-- `first` ends, and so does all that comes after it.
pub and_then-Ends {ℓ κ} :
    {X : Type ℓ} {Y : Type κ} (first : Result X) (next : X → Result Y)
    → Ends Any first
    → ((x : X) → first ≡ ok x → Ends Any (next x))
    → Ends Any (first >>= next)
and_then-Ends first next h k = Ends->>= Any Any first next h (λ x e _. k x e)

pub assert-Ends : (b : Bool) → Ends Any (assert b)
assert-Ends true = tt
assert-Ends false = tt

-- What follows a test ends.
pub after-Ends {ℓ} :
    {A : Type ℓ} (P : A → Type 0) (b : Bool) (r : Result A) → Ends P r → Ends P (assert b >> r)
after-Ends P b r h = Ends->>= {Y = _} Any P (assert b) _ (assert-Ends b) (λ _ _ _. h)

pub through_io-Ends {ℓ} :
    {A : Type ℓ} (P : A → Type 0) (r : Result A) → Ends P r → Ends P (through_io r)
through_io-Ends P (ok a) h = h
through_io-Ends P (err e) h = tt
through_io-Ends P panics h = tt
through_io-Ends P diverges h = absurd h

pub Ends-eq {ℓ} : {A : Type ℓ} (P : A → Type 0) {r : Result A} {a : A} → r ≡ ok a → Ends P r → P a
Ends-eq P e h = subst (Ends P) e h

pub Result-cases {ℓ} :
    {A : Type ℓ} (r : Result A)
    → ((a : A) × (r ≡ ok a)) ⊎ ((e : BackhandError) × (r ≡ err e)) ⊎ (r ≡ panics) ⊎ (r ≡ diverges)
Result-cases (ok a) = inl (a, refl)
Result-cases (err e) = inr (inl (e, refl))
Result-cases panics = inr (inr (inl refl))
Result-cases diverges = inr (inr (inr refl))

-- If a call returns a value, then that has a property.
abbrev pub IfOk {ℓ} : {A : Type ℓ} → (A → Type 0) → Result A → Type 0
IfOk P (ok a) = P a
IfOk P (err e) = Unit
IfOk P panics = Unit
IfOk P diverges = Unit

pub IfOk->>= {ℓ κ} :
    {X : Type ℓ} {Y : Type κ} (P : X → Type 0) (Q : Y → Type 0) (first : Result X)
    (next : X → Result Y)
    → IfOk P first
    → ((x : X) → first ≡ ok x → P x → IfOk Q (next x))
    → IfOk Q (first >>= next)
IfOk->>= P Q (ok x) next h k = k x refl h
IfOk->>= P Q (err e) next h k = tt
IfOk->>= P Q panics next h k = tt
IfOk->>= P Q diverges next h k = tt

pub IfOk-always {ℓ} : {A : Type ℓ} (P : A → Type 0) (r : Result A) → ((a : A) → P a) → IfOk P r
IfOk-always P (ok a) h = h a
IfOk-always P (err e) h = tt
IfOk-always P panics h = tt
IfOk-always P diverges h = tt

pub IfOk-then {ℓ κ} :
    {X : Type ℓ} {Y : Type κ} (Q : Y → Type 0) (first : Result X) (next : X → Result Y)
    → ((x : X) → IfOk Q (next x))
    → IfOk Q (first >>= next)
IfOk-then Q (ok x) next k = k x
IfOk-then Q (err e) next k = tt
IfOk-then Q panics next k = tt
IfOk-then Q diverges next k = tt

pub IfOk-weaken {ℓ} :
    {A : Type ℓ} (P Q : A → Type 0) (r : Result A) → ((a : A) → P a → Q a) → IfOk P r → IfOk Q r
IfOk-weaken P Q (ok a) f h = f a h
IfOk-weaken P Q (err e) f h = tt
IfOk-weaken P Q panics f h = tt
IfOk-weaken P Q diverges f h = tt

-- Outcomes that exclude each other
pub ok-ne-panics {ℓ} : {A : Type ℓ} (r : Result A) {a : A} → r ≡ ok a → r ≡ panics → ⊥
ok-ne-panics r h g = cc

pub err-ne-panics {ℓ} : {A : Type ℓ} (r : Result A) {e : BackhandError} → r ≡ err e → r ≡ panics → ⊥
err-ne-panics r h g = cc
