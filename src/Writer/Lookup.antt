-- ===== src/Writer/Lookup.antt =====
-- The lookup tables that end an image, `write_lookup_table` of backhand/src/filesystem/writer.rs:
-- metadata blocks of whole elements, stored as they are, and the places where these blocks begin.
pub mod RoundTrip
use backhand.Common.{
  ℕ, ◌+◌, ◌%◌, ◌^◌, ltb, ◌||◌, Bool, true, false, List, [], ◌∷◌, ◌++◌, length, map, concat,
}
use backhand.ImageReader.{Element}
use backhand.Kinds.{Kind, WordCodec}
use backhand.Metadata.{set_if_uncompressed, metadata_maxsize}

abbrev is_none {ℓ} : {A : Type ℓ} → List A → Bool
is_none [] = true
is_none (x ∷ xs) = false

module _ (u16 : WordCodec 2) where
  -- A block's length word and its bytes
  unfoldable pub plain_block : Kind → List ℕ → List ℕ
  plain_block kind table_bytes =
      u16.to_writer kind.data_endian (set_if_uncompressed (length table_bytes % 2 ^ 16))
      ++ table_bytes

  module _ {T : Type 0} {width : ℕ} (element : Element T width) where
    -- The loop over the elements that are left: the places of the blocks, and the output.
    -- `element_size` is the number that the caller gives for an element's bytes.
    unfoldable pub write_blocks : Kind → ℕ → List T → List ℕ → List ℕ → List ℕ × List ℕ
    write_blocks kind element_size [] table_bytes out = ([], out)
    write_blocks kind element_size (t ∷ rest) table_bytes out =
        let here = table_bytes ++ element.to_writer kind.type_endian t in
        elim (ltb metadata_maxsize (length here + element_size) || is_none rest) [
          | true ↦
              let (ptrs, out') =
                write_blocks kind element_size rest [] (out ++ plain_block kind here) in
              (length out ∷ ptrs, out')
          | false ↦ write_blocks kind element_size rest here out
        ]

    -- `write_lookup_table`: where the table of pointers begins and how many elements there are, and
    -- the output afterwards.
    unfoldable pub write_lookup_table : WordCodec 8 → Kind → List T → ℕ → List ℕ → (ℕ × ℕ) × List ℕ
    write_lookup_table u64 kind table element_size out =
        let (ptrs, out') = write_blocks kind element_size table [] out in
        (
          (length out', length table % 2 ^ 32),
          out' ++ concat (map (u64.to_writer kind.type_endian) ptrs),
        )
