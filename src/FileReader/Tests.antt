-- ===== src/FileReader/Tests.antt =====
-- Tests of the reader of backhand/src/filesystem/reader.rs, with blocks of four bytes.
use backhand.Common.{ℕ, refl, none, List, [], ◌∷◌, length, arith}
use backhand.Data.{ReadEvent, bytes, retry, DataWriter, add_bytes, find_duplicate}
use backhand.Data.Blocks.{writer}
use backhand.FileReader.Run.{ReadBack, read_to_end-add_bytes}
use backhand.FileReader.ShortFile.{ShortBack, read_to_end-add_fragment}
use backhand.Sample.{sample_kind, sample_fc, copying, copying_lossless}

-- A file of six bytes, in answers of one and of five
abbrev six : List ReadEvent
six = bytes (1 ∷ []) ∷ retry ∷ bytes (2 ∷ 3 ∷ 4 ∷ 5 ∷ 6 ∷ []) ∷ []

abbrev fresh_writer : DataWriter
fresh_writer = record {
  kind = copying;
  block_size = 4;
  fs_compressor = sample_fc;
  dup_cache = none;
  fragment_bytes = [];
  fragment_table = [];
}

abbrev waiting_writer : DataWriter
waiting_writer = record fresh_writer { fragment_bytes = 3 ∷ [] }

-- It is read back with a buffer of five bytes.
read_to_end-add_bytes_example :
    ReadBack sample_kind sample_fc 3
      (omega arith)
      (copying_lossless 4 4)
      (λ xs h. h)
      none
      (7 ∷ [])
      (1 ∷ 2 ∷ 3 ∷ 4 ∷ 5 ∷ 6 ∷ [])
      5
      (add_bytes
        (λ (xs : List ℕ). length xs)
        (writer copying sample_fc 3 (omega arith) (copying_lossless 4 4) none fresh_writer)
        six
        (9 ∷ []))
unfolding find_duplicate
read_to_end-add_bytes_example =
    read_to_end-add_bytes sample_kind sample_fc 3 (omega arith) (copying_lossless 4 4) (λ xs h. h)
      none (λ (xs : List ℕ). length xs) none fresh_writer six (9 ∷ []) (7 ∷ []) 5 tt (omega arith)
      (omega arith) (omega arith) refl (omega arith)

-- A file of two bytes behind one that waits, and before another.
read_to_end-add_fragment_example :
    ShortBack sample_kind sample_fc 3
      (omega arith)
      (copying_lossless 4 4)
      (λ xs h. h)
      none
      waiting_writer
      (1 ∷ 2 ∷ [])
      (5 ∷ [])
      (9 ∷ [])
      (9 ∷ 8 ∷ [])
      (7 ∷ [])
      []
      5
      (add_bytes
        (λ (xs : List ℕ). length xs)
        (writer copying sample_fc 3 (omega arith) (copying_lossless 4 4) none waiting_writer)
        (bytes (1 ∷ 2 ∷ []) ∷ [])
        (9 ∷ []))
read_to_end-add_fragment_example =
    read_to_end-add_fragment sample_kind sample_fc 3 (omega arith) (copying_lossless 4 4)
      (λ xs h. h) (λ (xs : List ℕ). length xs) none waiting_writer (bytes (1 ∷ 2 ∷ []) ∷ [])
      (5 ∷ []) (9 ∷ []) (9 ∷ 8 ∷ []) (7 ∷ []) [] 5 tt (omega arith) (omega arith) (omega arith)
      (omega arith) (omega arith)
