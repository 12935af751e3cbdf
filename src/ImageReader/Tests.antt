-- ===== src/ImageReader/Tests.antt =====
-- Tests of the metadata tables, backhand/src/metadata.rs and backhand/src/reader.rs.
use backhand.Common.{true, ℕ, ◌≡◌, ◌≢◌, ◌<◌, refl, List, [], ◌∷◌, ◌++◌, length, concat, arith}
use backhand.Error.{ok, ◌>>=◌}
use backhand.ImageReader.{uncompress_metadatas}
use backhand.ImageReader.Block.{reader_at}
use backhand.ImageReader.Reference.{LeadsTo, metadata_start-reference}
use backhand.ImageReader.RoundTrip.{uncompress_metadatas-finalize}
use backhand.Metadata
use backhand.Metadata.{MetadataWriter, new, finalize, metadata_maxsize}
use backhand.Metadata.Stream.{write_each}
use backhand.Sample.{
  word_bytes, sample_u16, sample_kind, sample_fc, copying_lossless, sample_superblock,
}
use backhand.Superblock

abbrev bufs : List (List ℕ)
bufs = (1 ∷ 2 ∷ []) ∷ [] ∷ (3 ∷ []) ∷ []

same_compressor : sample_superblock.compressor ≡ sample_fc.id
unfolding Superblock.new
same_compressor = refl

uncompress_metadatas-finalize_example :
    (w : MetadataWriter) × (out : List ℕ) × (found : List (ℕ × ℕ)) × ((write_each
          (new sample_fc 4096 sample_kind)
          bufs
        >>= λ w'. finalize sample_u16 w' (8 ∷ 9 ∷ []))
      ≡ ok (w, out))
    × (uncompress_metadatas sample_u16 sample_superblock sample_kind 2
          (length out)
          (reader_at (out ++ 7 ∷ []) 0)
        ≡ ok (found, concat bufs))
uncompress_metadatas-finalize_example =
    uncompress_metadatas-finalize sample_u16 sample_kind sample_fc 4096
      (copying_lossless 4096 metadata_maxsize) sample_superblock bufs (8 ∷ 9 ∷ []) (7 ∷ []) 0
      same_compressor (omega arith)

-- The writer that has taken two bytes, and the one that has written three
abbrev with_two : MetadataWriter
with_two = record {
  compressor = sample_fc;
  block_size = 4096;
  metadata_start = 0;
  uncompressed_bytes = 1 ∷ 2 ∷ [];
  final_bytes = [];
  kind = sample_kind;
}

abbrev with_three : MetadataWriter
with_three = record {
  compressor = sample_fc;
  block_size = 4096;
  metadata_start = 5;
  uncompressed_bytes = [];
  final_bytes = (true, 1 ∷ 2 ∷ 3 ∷ []) ∷ [];
  kind = sample_kind;
}

abbrev three : List ℕ
three = 3 ∷ []

not_empty : three ≢ []
not_empty e = cc

abbrev image : List ℕ
image = 8 ∷ 9 ∷ 0 ∷ 3 ∷ 1 ∷ 2 ∷ 3 ∷ []

metadata_start-reference_example :
    LeadsTo sample_u16 sample_kind sample_fc 4096
      (copying_lossless 4096 metadata_maxsize)
      sample_superblock
      same_compressor
      0
      2
      three
      2
      7
      (image ++ 7 ∷ [])
    × (2 < metadata_maxsize)
unfolding Metadata.new Metadata.write_all Metadata.write Metadata.add_blocks Metadata.add_block
    Metadata.finalize Metadata.blocks_bytes Metadata.block_bytes Metadata.keep_smaller
    Metadata.push_block word_bytes
metadata_start-reference_example =
    metadata_start-reference sample_u16 sample_kind sample_fc 4096
      (copying_lossless 4096 metadata_maxsize) sample_superblock same_compressor ((1 ∷ 2 ∷ []) ∷ [])
      (three ∷ []) (8 ∷ 9 ∷ []) (7 ∷ []) image with_two with_three refl refl not_empty
