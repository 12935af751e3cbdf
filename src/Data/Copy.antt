-- ===== src/Data/Copy.antt =====
-- Copying a file of another image without unpacking it, `just_copy_it` of backhand/src/data.rs.
pub mod Blocks
use backhand.Common.{
  ℕ, zero, suc, ◌+◌, ◌%◌, ◌^◌, if◌then◌else◌, true, false, none, some, List, [], ◌∷◌, ◌++◌, length,
}
use backhand.Data.{Added, data_added, DataWriter, stored, add_fragment}
use backhand.DataSize.{DataSize}
use backhand.Error.{Result, ok, diverges, ◌>>=◌}
use backhand.FileReader.{RawData, RawDataBlock, block_sizes, file_len, next_block, decompress}

-- `while let Some(block) = reader.next_block(…)`: the output and the size words. Each round takes a
-- block or the fragment of the file.
unfoldable pub copy_blocks :
    ℕ → DataWriter → RawData → List ℕ → List DataSize → Result (List ℕ × List DataSize)
copy_blocks zero d reader out sizes = diverges
copy_blocks (suc fuel) d reader out sizes = next_block reader >>= λ (found, reader'). elim found [
  | none ↦ ok (out, sizes)
  | some (read_buf, marks) ↦ elim marks.is_fragment [
    | true ↦ decompress reader' marks read_buf >>= λ (bytes, reader'').
        d.kind.compress d.fs_compressor d.block_size bytes >>= λ cb.
        stored bytes cb >>= λ (written, size).
        copy_blocks fuel d reader'' (out ++ written) (sizes ++ size ∷ [])
    | false ↦ copy_blocks fuel d reader' (out ++ read_buf) sizes
  ]
]

-- A file that is all in a fragment goes into the writer's fragment.
unfoldable pub copy_fragment :
    DataWriter
    → RawData
    → RawDataBlock
    → List ℕ
    → List ℕ
    → Result (DataWriter × List ℕ × (ℕ × Added))
copy_fragment d reader marks read_buf out = do
  (bytes, reader) ← decompress reader marks read_buf
  add_fragment d bytes (length bytes) out

-- The first block is copied as it is, and then the others.
unfoldable pub copy_data :
    DataWriter → RawData → List ℕ → List ℕ → Result (DataWriter × List ℕ × (ℕ × Added))
copy_data d reader read_buf out = do
  let sizes = block_sizes reader.handle.file
  (out', sizes') ← copy_blocks (suc (suc (length sizes))) d reader (out ++ read_buf) sizes
  ok (d, out', (file_len reader.handle.file, data_added (length out % 2 ^ 32) sizes'))

-- `just_copy_it`
unfoldable pub just_copy_it :
    DataWriter → RawData → List ℕ → Result (DataWriter × List ℕ × (ℕ × Added))
just_copy_it d reader out = next_block reader >>= λ (found, reader'). elim found [
  | none ↦ ok (d, out, (0, data_added (length out % 2 ^ 32) (block_sizes reader.handle.file)))
  | some (read_buf, marks) ↦
      if marks.is_fragment
      then copy_fragment d reader' marks read_buf out
      else copy_data d reader' read_buf out
]
