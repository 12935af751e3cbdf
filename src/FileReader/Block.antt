-- ===== src/FileReader/Block.antt =====
-- Reading the blocks of backhand/src/filesystem/reader.rs that the data writer stored: each gives
-- back its chunk.
use backhand.Common.{
  ℕ, suc, ◌+◌, ◌^◌, ◌≤◌, ◌<◌, ◌==◌, ◌≡◌, refl, ==_ne, ltb, ltb→le, true, false, Bool-cases, Option,
  ◌⊎◌, inl, inr, none, List, ◌∷◌, ◌++◌, length, arith,
}
use backhand.Compressor.Config.{FilesystemCompressor}
use backhand.Data.{Fragment}
use backhand.Data.Blocks.{piece}
use backhand.DataSize
use backhand.DataSize.{DataSize}
use backhand.DataSize.Bit.{size_plain, size_marked, uncompressed_plain, uncompressed_marked}
use backhand.Error.{ok}
use backhand.FileReader
use backhand.FileReader.{
  System, Handle, BlockIterator, RawDataBlock, RawData, FragmentCache, SquashfsFileReader,
  next_block, decompress, ReadFile, read_next_block,
}
use backhand.ImageReader.Block.{read_exact-at}
use backhand.Kinds.{Kind, IsLossless}

module _ (kind : Kind) (fc : FilesystemCompressor) (b : ℕ) (small : suc b < 2 ^ 24)
    (lossless : IsLossless kind.compressor fc (suc b) (suc b))
    (never_empty : (xs : List ℕ) → 0 < length xs → 0 < length (lossless.packed xs))
    (frags : Option (List Fragment)) where
  open lossless use {packed, decompress_packed}

  abbrev pub system_of : List ℕ → System
  system_of image = record {
    kind = kind;
    block_size = suc b;
    compressor = fc.id;
    compression_options = none;
    fragments = frags;
    image = image;
  }

  -- A file's raw data, with blocks to come and no fragment.
  abbrev pub raw_at : List ℕ → SquashfsFileReader → FragmentCache → List DataSize → ℕ → RawData
  raw_at image file cache ds pos = record {
    handle = record { system = system_of image; file = file };
    current_block = record { blocks = ds; last = none };
    pos = pos;
    cache = cache;
  }

  -- A chunk's piece: its size word tells its length and whether it is the chunk itself.
  abbrev pub PieceOf : List ℕ → List ℕ × DataSize → Type 0
  PieceOf chunk (xs, d) =
      (DataSize.size d ≡ length xs)
      × (0 < length xs)
      × ((DataSize.uncompressed d ≡ true) × (xs ≡ chunk)
          ⊎ (DataSize.uncompressed d ≡ false)
            × (kind.compressor.decompress fc.id (suc b) xs ≡ ok chunk))

  pub piece-PieceOf :
      (chunk : List ℕ)
      → 0 < length chunk
      → length chunk ≤ suc b
      → PieceOf chunk (piece kind.compressor fc b small lossless chunk)
  unfolding piece
  piece-PieceOf chunk some_bytes room =
      elim (Bool-cases (ltb (length chunk) (length (packed chunk)))) [
        | inl longer ↦ rw longer (
          size_marked (length chunk) (omega arith),
          some_bytes,
          inl (uncompressed_marked (length chunk) (omega arith), refl),
        )
        | inr fits ↦
            let p = ltb→le (length chunk) (length (packed chunk)) fits in
            rw fits (
              size_plain (length (packed chunk)) (omega arith),
              never_empty chunk some_bytes,
              inr (
                uncompressed_plain (length (packed chunk)) (omega arith),
                decompress_packed chunk room,
              ),
            )
      ]

  -- A file's reader: what it has decompressed, how much of that it has handed out, what is still due.
  abbrev pub reading :
      List ℕ → SquashfsFileReader → FragmentCache → List DataSize → ℕ → List ℕ → ℕ → ℕ → ReadFile
  reading image file cache ds pos buf last_read due = record {
    raw = raw_at image file cache ds pos;
    buf_decompress = buf;
    last_read = last_read;
    bytes_available = due;
  }

  -- A block that stands at the position is read, decompressed, and the reader moves behind it.
  pub read_next_block-piece :
      (image before after chunk : List ℕ) (file : SquashfsFileReader) (cache : FragmentCache)
      (ds : List DataSize) (pos : ℕ) (buf : List ℕ) (last_read due : ℕ)
      → 0 < length chunk
      → length chunk ≤ suc b
      → let p = piece kind.compressor fc b small lossless chunk in
        image ≡ before ++ (p.0 ++ after)
        → pos ≡ length before
        → read_next_block (reading image file cache (p.1 ∷ ds) pos buf last_read due)
          ≡ ok (reading image file cache ds (pos + length p.0) chunk 0 due)
  unfolding read_next_block next_block decompress FileReader.next FileReader.read_raw_data
      FileReader.next_of FileReader.read_block
  read_next_block-piece image before after chunk file cache ds pos buf last_read due some_bytes room
        e at_start =
      let p = piece kind.compressor fc b small lossless chunk in
      let (sized, nonempty, how) = piece-PieceOf chunk some_bytes room in
      let not_hole : (DataSize.size p.1 == 0) ≡ false =
        ==_ne (DataSize.size p.1) 0 (λ z. omega (arith, sized, nonempty, z)) in
      let got = read_exact-at image before p.0 after pos (DataSize.size p.1) e at_start sized in
      elim how [
        | inl (plain, same) ↦ rw (not_hole, got, plain, sized, same) refl
        | inr (marked, back) ↦ rw (not_hole, got, marked, back, sized) refl
      ]
