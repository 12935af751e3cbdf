-- ===== src/Metadata/Tests.antt =====
-- Tests of the length words of backhand/src/metadata.rs.
use backhand.Common.{◌≡◌, ◌<◌, ◌^◌, [], ◌∷◌, List, ℕ, false, arith}
use backhand.Metadata.{is_compressed, len, length_word}
use backhand.Metadata.Length.{length_word_fields}

abbrev two : List ℕ
two = 1 ∷ 2 ∷ []

length_word_fields_example :
    (is_compressed (length_word false two) ≡ false)
    × (len (length_word false two) ≡ 2)
    × (length_word false two < 2 ^ 16)
length_word_fields_example = length_word_fields false two (omega arith)
