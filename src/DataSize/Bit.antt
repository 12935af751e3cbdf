-- ===== src/DataSize/Bit.antt =====
-- What the size word of backhand/src/data.rs keeps: the length and the bit, each apart.
use Prim.Native.Nat.{bit_and}
use backhand.Common.{
  Bool-cases, ltb→lt, ltb→le, ltb, ◌⊎◌, inl, inr, refl, ◌≡◌, ◌<◌, ◌^◌, ℕ, ◌+◌, ◌*◌, ◌^◌, ◌<◌, ◌≡◌,
  refl, bit_or, Bool, true, false, arith, bit_and-split, bit_or-split, bit_and-mask, bit_and-zero,
  bit_or-zero, zero-bit_or, zero-bit_and,
}
use backhand.DataSize.{DataSize, uncompressed, size}
use backhand.DataSize.Create.{new}
use backhand.Error.{panics, ok}

-- The word's three fields: the bits above bit 24, bit 24, and the length below it.
and_bit : (b n : ℕ) → n < 2 ^ 24 → bit_and (b * 2 ^ 24 + n) 0x100_0000 ≡ bit_and b 1 * 2 ^ 24
and_bit b n h = omega (arith, bit_and-split 24 b 1 n 0 h (omega arith), bit_and-zero n)

and_not_bit :
    (b n : ℕ) → n < 2 ^ 24 → bit_and (b * 2 ^ 24 + n) 0xfeff_ffff ≡ bit_and b 0xfe * 2 ^ 24 + n
and_not_bit b n h =
    omega (arith, bit_and-split 24 b 0xfe n 0xff_ffff h (omega arith), bit_and-mask 24 n h)

or_bit : (b n : ℕ) → n < 2 ^ 24 → bit_or (b * 2 ^ 24 + n) 0x100_0000 ≡ bit_or b 1 * 2 ^ 24 + n
or_bit b n h = omega (arith, bit_or-split 24 b 1 n 0 h (omega arith), bit_or-zero n)

pub size_plain : (n : ℕ) → n < 2 ^ 24 → size (record { bits = n }) ≡ n
unfolding size
size_plain n h = ground (arith, and_not_bit 0 n h, zero-bit_and 0xfe)

pub size_marked : (n : ℕ) → n < 2 ^ 24 → size (record { bits = 2 ^ 24 + n }) ≡ n
unfolding size
size_marked n h = omega (arith, and_not_bit 1 n h)

pub uncompressed_plain : (n : ℕ) → n < 2 ^ 24 → uncompressed (record { bits = n }) ≡ false
unfolding uncompressed
uncompressed_plain n h = ground (arith, and_bit 0 n h, zero-bit_and 1)

pub uncompressed_marked : (n : ℕ) → n < 2 ^ 24 → uncompressed (record { bits = 2 ^ 24 + n }) ≡ true
unfolding uncompressed
uncompressed_marked n h = ground (arith, and_bit 1 n h)

-- Making a size word of a length under 16 MiB succeeds, and the word gives the length and the mark
-- back.
new_fields :
    (n : ℕ) (u : Bool)
    → n < 2 ^ 24
    → (d : DataSize) × (new n u ≡ ok d) × (size d ≡ n) × (uncompressed d ≡ u)
unfolding new
new_fields n true h = (
  record { bits = 2 ^ 24 + n },
  ground (arith, or_bit 0 n h, zero-bit_or 1),
  size_marked n h,
  uncompressed_marked n h,
)
new_fields n false h = (record { bits = n }, ground arith, size_plain n h, uncompressed_plain n h)

-- At exactly 16 MiB the guard lets the length through, and the word reads as a stored block of
-- length 0 although it was made for a compressed one.
new_at_limit :
    (u : Bool) → (d : DataSize) × (new 0x100_0000 u ≡ ok d) × (size d ≡ 0) × (uncompressed d ≡ true)
unfolding new
new_at_limit true = (
  record { bits = 2 ^ 24 + 0 },
  refl,
  size_marked 0 (omega arith),
  uncompressed_marked 0 (omega arith),
)
new_at_limit false = (
  record { bits = 2 ^ 24 + 0 },
  refl,
  size_marked 0 (omega arith),
  uncompressed_marked 0 (omega arith),
)

-- The word itself, for lengths that leave the bit free.
pub new_plain : (n : ℕ) → n < 2 ^ 24 → new n false ≡ ok (record { bits = n })
unfolding new
new_plain n h = ground arith

pub new_marked : (n : ℕ) → n < 2 ^ 24 → new n true ≡ ok (record { bits = 2 ^ 24 + n })
unfolding new
new_marked n h = ground (arith, or_bit 0 n h, zero-bit_or 1)

-- All lengths: one below 2^24 makes a word whose length and bit read back; 2^24 itself makes a word
-- that reads as no bytes, uncompressed, whatever was asked for; a longer one is a panic.
pub new_cases :
    (n : ℕ) (u : Bool)
    → (n < 2 ^ 24) × ((d : DataSize) × (new n u ≡ ok d) × (size d ≡ n) × (uncompressed d ≡ u))
      ⊎ (n ≡ 2 ^ 24) × ((d : DataSize) × (new n u ≡ ok d) × (size d ≡ 0) × (uncompressed d ≡ true))
      ⊎ (2 ^ 24 < n) × (new n u ≡ panics)
unfolding new
new_cases n u = elim (Bool-cases (ltb n (2 ^ 24))) [
  | inl below ↦ let p = ltb→lt n (2 ^ 24) below in inl (p, new_fields n u p)
  | inr above ↦ elim (Bool-cases (ltb (2 ^ 24) n)) [
    | inl over ↦ inr (inr (ltb→lt (2 ^ 24) n over, rw over refl))
    | inr at_limit ↦
        let e : n ≡ 2 ^ 24 = omega (arith, ltb→le n (2 ^ 24) above, ltb→le (2 ^ 24) n at_limit) in
        inr (inl (e, rw e (new_at_limit u)))
  ]
]
