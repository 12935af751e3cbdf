-- ===== src/Squashfs/Listing.antt =====
-- The listing of a directory, `dir_from_index` of backhand/src/squashfs.rs: it finds the bytes that
-- were written for the directory, and its slices do not leave the block.
use backhand.Common.{
  ℕ, suc, ◌+◌, ◌-◌, ◌%◌, ◌^◌, ◌≤◌, ◌<◌, ◌≡◌, ◌↔◌, refl, leb, ltb, le→leb, lt→ltb, le→ltb, lt→leb,
  ltb→le, ltb→lt, leb→le, leb→lt, Bool-cases, inl, inr, some, List, ◌++◌, length, take, drop, map,
  concat, lookup, length-append, length-drop, take-append, drop-append, arith,
}
use backhand.Directory.{Dir}
use backhand.Directory.Bytes.{dir_bytes}
use backhand.Directory.Bytes.RoundTrip.{DirsFit, dirs_from_reader-bytes}
use backhand.Error.{ok, err, panics, ok-ne-panics, err-ne-panics, corrupted_or_invalid_squashfs}
use backhand.Kinds.{WordCodec}
use backhand.Squashfs.{Squashfs, get_from, listing_bytes, dirs_at, dir_from_index}

-- Where the tests pass
listing_bytes-eq :
    (block : List ℕ) (o n : ℕ)
    → o + n < 2 ^ 32
    → 3 ≤ n
    → o + n - 3 ≤ length block % 2 ^ 32
    → listing_bytes block o n ≡ ok (take (n - 3) (drop o block))
unfolding listing_bytes
listing_bytes-eq block o n small least inside =
    let le : length block % 2 ^ 32 ≤ length block = omega arith in
    rw
      (
        lt→ltb (o + n) (2 ^ 32) small,
        le→leb (o + n - 3) (length block % 2 ^ 32) inside,
        le→leb o (length block) (omega arith),
        le→leb (n - 3) (length (drop o block)) (omega (arith, length-drop o block)),
      )
      refl

listing_bytes-outside :
    (block : List ℕ) (o n : ℕ)
    → o + n < 2 ^ 32
    → length block % 2 ^ 32 < o + n - 3
    → listing_bytes block o n ≡ err corrupted_or_invalid_squashfs
unfolding listing_bytes
listing_bytes-outside block o n small outside =
    rw (lt→ltb (o + n) (2 ^ 32) small, lt→leb (o + n - 3) (length block % 2 ^ 32) outside) refl

-- Taking the bytes of a listing that is not empty panics exactly where the sum of the offset and
-- the size does not fit 32 bits: the slices never leave the block, whatever its length is.
pub listing_bytes-panics_iff :
    (block : List ℕ) (block_offset file_size : ℕ)
    → 4 ≤ file_size
    → (listing_bytes block block_offset file_size ≡ panics) ↔ (2 ^ 32 ≤ block_offset + file_size)
unfolding listing_bytes
listing_bytes-panics_iff block o n least = (only, λ h. rw (le→ltb (o + n) (2 ^ 32) h) refl)
  where
    only : listing_bytes block o n ≡ panics → 2 ^ 32 ≤ o + n
    only e = elim (Bool-cases (ltb (o + n) (2 ^ 32))) [
      | inr h ↦ ltb→le (o + n) (2 ^ 32) h
      | inl h ↦ elim (Bool-cases (leb (o + n - 3) (length block % 2 ^ 32))) [
        | inl g ↦ absurd (
            ok-ne-panics (listing_bytes block o n)
              (listing_bytes-eq block o n (ltb→lt (o + n) (2 ^ 32) h) (omega arith)
                (leb→le (o + n - 3) (length block % 2 ^ 32) g))
              e)
        | inr g ↦ absurd (
            err-ne-panics (listing_bytes block o n)
              (listing_bytes-outside block o n (ltb→lt (o + n) (2 ^ 32) h)
                (leb→lt (o + n - 3) (length block % 2 ^ 32) g))
              e)
      ]
    ]

module _ (u16 : WordCodec 2) (u32 : WordCodec 4) where
  abbrev pub bytes_of : Squashfs → List Dir → List ℕ
  bytes_of s dirs = concat (map (dir_bytes u16 u32 s.kind.type_endian) dirs)

  get_from-append : (xs ys : List ℕ) → get_from (xs ++ ys) (length xs) ≡ some ys
  get_from-append xs ys =
      rw
        (
          le→leb (length xs) (length (xs ++ ys)) (omega (arith, length-append xs ys)),
          drop-append xs ys,
        )
        refl

  take-middle :
      (s : Squashfs) (dirs : List Dir) (front rest : List ℕ)
      → take (length (bytes_of s dirs)) (drop (length front) (front ++ (bytes_of s dirs ++ rest)))
        ≡ bytes_of s dirs
  take-middle s dirs front rest =
      rw (drop-append front (bytes_of s dirs ++ rest)) (take-append (bytes_of s dirs) rest)

  -- At least one header, all of which fit their fields, are what `dir_from_index` returns, where the
  -- table of directories holds their bytes behind `front` in the block that the index leads to, that
  -- block and all that is behind it in the table are less than 4 GiB less 3 bytes, and the
  -- directory's size is the number of the headers' bytes plus three.
  pub dir_from_index-dir_bytes :
      (s : Squashfs) (dirs : List Dir) (before front rest : List ℕ) (block_index : ℕ)
      → DirsFit dirs
      → 0 < length (bytes_of s dirs)
      → lookup block_index s.dir_blocks.0 ≡ some (length before)
      → s.dir_blocks.1 ≡ before ++ (front ++ (bytes_of s dirs ++ rest))
      → length (front ++ (bytes_of s dirs ++ rest)) + 3 < 2 ^ 32
      → dir_from_index u16 u32 s block_index (length (bytes_of s dirs) + 3) (length front)
        ≡ ok (some dirs)
  unfolding dir_from_index dirs_at
  dir_from_index-dir_bytes s dirs before front rest block_index fit some_bytes index table small =
      let bytes = bytes_of s dirs in
      let block = front ++ (bytes ++ rest) in
      let size : length block ≡ length front + (length bytes + length rest) =
        omega (arith, length-append front (bytes ++ rest), length-append bytes rest) in
      let n : length bytes + 3 - 3 ≡ length bytes = omega arith in
      rw
        (
          le→ltb (length bytes + 3) 4 (omega arith),
          dir_from_index,
          index,
          table,
          get_from-append before block,
          listing_bytes-eq block (length front) (length bytes + 3) (omega arith) (omega arith)
              (omega arith),
          n,
          take-middle s dirs front rest,
          dirs_from_reader-bytes u16 s.kind.type_endian u32 dirs (suc (length bytes)) fit
              (omega arith),
        )
        refl
