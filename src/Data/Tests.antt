-- ===== src/Data/Tests.antt =====
-- Tests of the data writer of backhand/src/data.rs, with blocks of four bytes.
use backhand.Common.{
  true, none, ◌++◌, lookup, insert, ℕ, ◌≡◌, refl, some, List, [], ◌∷◌, length, arith,
}
use backhand.Data
use backhand.DataSize.Create
use backhand.Data.{
  ReadEvent, bytes, retry, DataWriter, new, fill, find_duplicate, Added, data_added, add_bytes,
}
use backhand.Data.Blocks.{Kept, writer, add_bytes-Kept}
use backhand.Data.Chunks.{Filled, fill-Filled}
use backhand.Data.Duplicates.{add_bytes-same_first_block}
use backhand.Compressor.{xz}
use backhand.Data.Copy.{just_copy_it}
use backhand.Data.Copy.Blocks.{Stored, IsStored, words, copies, reader_at, just_copy_it-stored}
use backhand.DataSize
use backhand.Error.{ok}
use backhand.FileReader.{Handle, basic, block_sizes, file_len}
use backhand.Metadata.Blocks.{All}
use backhand.Sample.{sample_kind, sample_fc, copying, copying_lossless}

-- A file of six bytes, in answers of one and of five
abbrev six : List ReadEvent
six = bytes (1 ∷ []) ∷ retry ∷ bytes (2 ∷ 3 ∷ 4 ∷ 5 ∷ 6 ∷ []) ∷ []

abbrev seven : List ReadEvent
seven = bytes (1 ∷ 2 ∷ 3 ∷ 4 ∷ 7 ∷ 8 ∷ 9 ∷ []) ∷ []

-- A hash for the tests
abbrev hash : List ℕ → ℕ
hash xs = length xs

abbrev fresh_writer : DataWriter
fresh_writer = new copying sample_fc 4 true

fill-Filled_example : Filled 4 six (fill 4 six)
fill-Filled_example = fill-Filled 4 six tt

add_bytes-Kept_example :
    Kept copying sample_fc 3
      (omega arith)
      (copying_lossless 4 4)
      (some [])
      fresh_writer
      (1 ∷ 2 ∷ 3 ∷ 4 ∷ 5 ∷ 6 ∷ [])
      (9 ∷ [])
      (add_bytes hash
        (writer copying sample_fc 3 (omega arith) (copying_lossless 4 4) (some []) fresh_writer)
        six
        (9 ∷ []))
unfolding new find_duplicate lookup
add_bytes-Kept_example =
    add_bytes-Kept copying sample_fc 3 (omega arith) (copying_lossless 4 4) hash (some [])
      fresh_writer six (9 ∷ []) tt (omega arith) refl

abbrev after_six : ℕ × Added
after_six = (6, data_added 1 (record { bits = 4 } ∷ record { bits = 2 } ∷ []))

-- The writer after the file of six bytes
abbrev used_writer : DataWriter
used_writer = record {
  kind = copying;
  block_size = 4;
  fs_compressor = sample_fc;
  dup_cache = some ((4, (4, after_six) ∷ []) ∷ []);
  fragment_bytes = [];
  fragment_table = [];
}

-- A file of seven bytes is answered with the place and the length of the file of six.
add_bytes-same_first_block_example :
    add_bytes hash used_writer seven (9 ∷ 1 ∷ 2 ∷ 3 ∷ 4 ∷ 5 ∷ 6 ∷ [])
    ≡ ok (used_writer, 9 ∷ 1 ∷ 2 ∷ 3 ∷ 4 ∷ 5 ∷ 6 ∷ [], after_six)
unfolding fill Data.read_chunk add_bytes Data.add_full Data.add_blocks Data.store_blocks Data.stored
    find_duplicate Data.remember lookup insert Create.new Create.new_compressed
    Create.new_uncompressed
add_bytes-same_first_block_example =
    add_bytes-same_first_block hash (record used_writer { dup_cache = some [] }) used_writer [] six
      seven (bytes (5 ∷ 6 ∷ []) ∷ []) (bytes (7 ∷ 8 ∷ 9 ∷ []) ∷ []) (1 ∷ 2 ∷ 3 ∷ 4 ∷ []) (9 ∷ [])
      (9 ∷ 1 ∷ 2 ∷ 3 ∷ 4 ∷ 5 ∷ 6 ∷ []) (9 ∷ 1 ∷ 2 ∷ 3 ∷ 4 ∷ 5 ∷ 6 ∷ []) after_six refl refl refl
      refl refl

-- A file of a hole and a block of two stored bytes, in another image
abbrev hole : Stored
hole = ([], record { bits = 0 })

abbrev two_bytes : Stored
two_bytes = (5 ∷ 6 ∷ [], record { bits = 2 })

abbrev source : Handle
source = record {
  system = record {
    kind = sample_kind;
    block_size = 4;
    compressor = xz;
    compression_options = none;
    fragments = none;
    image = 1 ∷ 5 ∷ 6 ∷ 9 ∷ [];
  };
  file = basic (record {
    blocks_start = 1;
    frag_index = 0xffff_ffff;
    block_offset = 0;
    file_size = 8;
    block_sizes = record { bits = 0 } ∷ record { bits = 2 } ∷ [];
  });
}

sizes_are : All IsStored (hole ∷ two_bytes ∷ [])
unfolding DataSize.size
sizes_are = (refl, (refl, tt))

source-sizes : block_sizes source.file ≡ words (hole ∷ two_bytes ∷ [])
unfolding block_sizes
source-sizes = refl

just_copy_it-stored_example :
    just_copy_it fresh_writer (reader_at source [] (words (hole ∷ two_bytes ∷ [])) 1) (7 ∷ [])
    ≡ ok (
      fresh_writer,
      (7 ∷ []) ++ copies 4 (hole ∷ two_bytes ∷ []),
      (file_len source.file, data_added 1 (words (hole ∷ two_bytes ∷ []))),
    )
just_copy_it-stored_example =
    just_copy_it-stored source [] fresh_writer hole (two_bytes ∷ []) (1 ∷ []) (9 ∷ []) 1 (7 ∷ [])
      sizes_are source-sizes refl refl
