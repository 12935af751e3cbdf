-- ===== src/ImageReader.antt =====
-- Reading the tables of an image, backhand/src/reader.rs: all metadata blocks between two
-- positions, and the lookup tables of fragments, exports and ids.
pub mod Block
pub mod Metadatas
pub mod RoundTrip
pub mod Reference
mod Tests
use backhand.Common.{
  ℕ, zero, suc, ◌+◌, ◌-◌, ◌*◌, ◌/◌, ◌%◌, ◌^◌, ◌==◌, ltb, leb, if◌then◌else◌, Bool, true, false, not,
  ◌&&◌, ◌||◌, Option, none, some, List, [], ◌∷◌, ◌++◌, length, take, drop, insert,
}
use backhand.Error.{Result, ok, diverges, ◌>>=◌}
use backhand.Kinds.{Kind, Endian, WordCodec}
use backhand.Metadata.{Reader, seek, read_exact, read_block, metadata_maxsize}
use backhand.Superblock.{SuperBlock, not_set, flag_set, nfs_export_table_exists}

module _ (u16 : WordCodec 2) where
  -- `while self.stream_position()? != end_ptr`. A round takes two bytes of the image at least, or
  -- fails, so that the length of the image is fuel enough.
  unfoldable pub metadatas_loop :
      ℕ
      → SuperBlock
      → Kind
      → ℕ
      → ℕ
      → Reader
      → List (ℕ × ℕ)
      → List ℕ
      → Result (List (ℕ × ℕ) × List ℕ)
  metadatas_loop zero superblock kind start end_ptr r found all_bytes =
      if r.pos == end_ptr then ok (found, all_bytes) else diverges
  metadatas_loop (suc fuel) superblock kind start end_ptr r found all_bytes =
      elim (r.pos == end_ptr) [
        | true ↦ ok (found, all_bytes)
        | false ↦ read_block u16 superblock kind r >>= λ (bytes, r').
            metadatas_loop fuel superblock kind start end_ptr r'
              (insert (r.pos - start) (length all_bytes) found) (all_bytes ++ bytes)
      ]

  unfoldable pub uncompress_metadatas :
      SuperBlock → Kind → ℕ → ℕ → Reader → Result (List (ℕ × ℕ) × List ℕ)
  unfolding metadatas_loop seek
  uncompress_metadatas superblock kind start end_ptr r =
      metadatas_loop (suc (length r.image)) superblock kind start end_ptr (seek start r) [] []

-- A value of `width` bytes, as deku writes and reads it: a struct is its fields in their order.
pub record Element (T : Type 0) (width : ℕ) : Type 0 where
  pub to_writer : Endian → T → List ℕ
  pub from_reader : Endian → List ℕ → T

-- The nearest whole number that `f32` has: a significand of 24 bits, and ties to the even one.
excess : ℕ → ℕ → ℕ
excess zero n = 0
excess (suc fuel) n = elim (ltb n (2 ^ 24)) [ true ↦ 0 | false ↦ suc (excess fuel (n / 2)) ]

round_half_even : ℕ → ℕ → ℕ → ℕ
round_half_even q r unit =
    if ltb (2 * r) unit then q else if ltb unit (2 * r) then q + 1 else q + q % 2

unfoldable pub as_f32 : ℕ → ℕ
unfolding excess round_half_even
as_f32 n =
    let unit = 2 ^ excess 64 n in
    if ltb n (2 ^ 24) then n else round_half_even (n / unit) (n % unit) unit * unit

-- `(n as f32 / d as f32).ceil() as u64` where `d` is a power of two, by which `f32` divides exactly.
unfoldable pub ceil_div_f32 : ℕ → ℕ → ℕ
unfolding as_f32
ceil_div_f32 n d = (as_f32 n + (d - 1)) / d

module _ (u16 : WordCodec 2) {T : Type 0} {width : ℕ} (element : Element T width) where
  -- `for _ in 0..count`
  unfoldable pub read_blocks : ℕ → SuperBlock → Kind → Reader → List ℕ → Result (List ℕ)
  read_blocks zero superblock kind r all_bytes = ok all_bytes
  read_blocks (suc count) superblock kind r all_bytes =
      read_block u16 superblock kind r >>= λ (bytes, r').
      read_blocks count superblock kind r' (all_bytes ++ bytes)

  -- `while let Ok(t) = T::from_reader_with_ctx(…)`: as long as there are bytes for one more.
  unfoldable pub read_elements : ℕ → Kind → List ℕ → List T
  read_elements zero kind bytes = []
  read_elements (suc fuel) kind bytes = elim (leb width (length bytes)) [
    | true ↦
        element.from_reader kind.type_endian (take width bytes)
        ∷ read_elements fuel kind (drop width bytes)
    | false ↦ []
  ]

  unfoldable pub metadata_with_count : SuperBlock → Kind → ℕ → ℕ → Reader → Result (List T)
  unfolding read_blocks read_elements seek
  metadata_with_count superblock kind position count r = do
    all_bytes ← read_blocks count superblock kind (seek position r) []
    ok (read_elements (length all_bytes) kind all_bytes)

  module _ (u64 : WordCodec 8) where
    unfoldable pub lookup_table : SuperBlock → Kind → ℕ → ℕ → Reader → Result (ℕ × List T)
    unfolding metadata_with_count seek read_exact ceil_div_f32
    lookup_table superblock kind position size r = do
      (buf, r') ← read_exact 8 (seek position r)
      let ptr = u64.from_reader kind.type_endian buf
      table ← metadata_with_count superblock kind ptr (ceil_div_f32 size metadata_maxsize) r'
      ok (ptr, table)

    -- `fragments`, with the size of a `Fragment`, 16, for the size of its element
    unfoldable pub fragments : SuperBlock → Kind → Reader → Result (Option (ℕ × List T))
    unfolding lookup_table
    fragments superblock kind r =
        if superblock.frag_count == 0 || superblock.frag_table == not_set then ok none else (do
          found ← lookup_table superblock kind superblock.frag_table (superblock.frag_count * 16) r
          ok (some found))

    unfoldable pub export : SuperBlock → Kind → Reader → Result (Option (ℕ × List T))
    unfolding lookup_table
    export superblock kind r =
        if flag_set nfs_export_table_exists superblock && not (superblock.export_table == not_set)
        then (do
          found ←
              lookup_table superblock kind superblock.export_table
                (ceil_div_f32 superblock.inode_count 1024) r
          ok (some found))
        else ok none

    unfoldable pub id : SuperBlock → Kind → Reader → Result (ℕ × List T)
    unfolding lookup_table
    id superblock kind r = lookup_table superblock kind superblock.id_table superblock.id_count r
