-- ===== src/Metadata/Length.antt =====
-- The length word in front of a metadata block, backhand/src/metadata.rs: fifteen bits of length,
-- and a bit that says that the block is stored as it is.
use backhand.Common.{
  ℕ, ◌+◌, ◌*◌, ◌^◌, ◌<◌, ◌%◌, ◌≡◌, bit_and, bit_or, Bool, true, false, List, length, arith,
  bit_and-split, bit_or-split, bit_and-mask, bit_and-zero, bit_or-zero, zero-bit_or, zero-bit_and,
}
use backhand.Metadata.{is_compressed, len, length_word}

marked : (n : ℕ) → n < 2 ^ 15 → bit_or n 0x8000 ≡ 2 ^ 15 + n
marked n h = ground (arith, bit_or-split 15 0 1 n 0 h (omega arith), bit_or-zero n, zero-bit_or 1)

and_mark : (b n : ℕ) → n < 2 ^ 15 → bit_and (b * 2 ^ 15 + n) 0x8000 ≡ bit_and b 1 * 2 ^ 15
and_mark b n h = omega (arith, bit_and-split 15 b 1 n 0 h (omega arith), bit_and-zero n)

and_low : (b n : ℕ) → n < 2 ^ 15 → bit_and (b * 2 ^ 15 + n) 0x7fff ≡ n
and_low b n h =
    ground
      (arith, bit_and-split 15 b 0 n 0x7fff h (omega arith), bit_and-zero b, bit_and-mask 15 n h)

pub word_plain : (n : ℕ) → n < 2 ^ 15 → (is_compressed n ≡ true) × (len n ≡ n)
unfolding is_compressed len
word_plain n h = ground (arith, and_mark 0 n h, and_low 0 n h, zero-bit_and 1)

pub word_marked :
    (n : ℕ) → n < 2 ^ 15 → (is_compressed (2 ^ 15 + n) ≡ false) × (len (2 ^ 15 + n) ≡ n)
unfolding is_compressed len
word_marked n h = ground (arith, and_mark 1 n h, and_low 1 n h)

-- The word that `finalize` writes before a block shorter than 32 KiB gives the reader the block's
-- length and whether it was compressed, and it fits 16 bits.
pub length_word_fields :
    (compressed : Bool) (block : List ℕ)
    → length block < 2 ^ 15
    → (is_compressed (length_word compressed block) ≡ compressed)
      × (len (length_word compressed block) ≡ length block)
      × (length_word compressed block < 2 ^ 16)
length_word_fields true block h =
    ground (arith, word_plain (length block) h, bit_or-zero (length block % 2 ^ 16))
length_word_fields false block h =
    ground (arith, word_marked (length block) h, marked (length block) h)
