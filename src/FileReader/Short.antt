-- ===== src/FileReader/Short.antt =====
-- Reading a file that the data writer of backhand/src/data.rs put into a fragment, through
-- backhand/src/filesystem/reader.rs.
use backhand.Common.{
  ℕ, suc, ◌+◌, ◌-◌, ◌*◌, ◌^◌, ◌≤◌, ◌<◌, ◌==◌, ◌≡◌, refl, ==_ne, le→leb, false, inl, inr, some, List,
  [], ◌++◌, length, get_elem?, lookup, insert, length-append, drop-append, take-append, append-nil,
  arith,
}
use backhand.Compressor.Config.{FilesystemCompressor}
use backhand.Data.{Fragment}
use backhand.Data.Blocks
use backhand.Data.Blocks.{piece}
use backhand.DataSize
use backhand.DataSize.{DataSize}
use backhand.Error.{ok}
use backhand.FileReader
use backhand.FileReader.{
  System, Handle, SquashfsFileReader, basic, RawData, ReadFile, FragmentCache, fragment,
  fragment_range, slice, read_next_block, next_block, decompress, raw_data, into_reader, read,
}
use backhand.FileReader.Block.{system_of, reading, piece-PieceOf}
use backhand.FileReader.Run.{
  Reads, available-Reads, read_to_end, read_to_end-Reads, read_to_end-Owes,
}
use backhand.ImageReader.Block.{read_exact-at}
use backhand.Inode.{BasicFile, no_fragment}
use backhand.Kinds.{Kind, IsLossless}

slice-middle :
    (pre c post : List ℕ) → slice (length pre, length pre + length c) (pre ++ (c ++ post)) ≡ ok c
unfolding slice
slice-middle pre c post =
    let inside =
      le→leb (length pre + length c) (length (pre ++ (c ++ post)))
        (omega (arith, length-append pre (c ++ post), length-append c post)) in
    let len : (length pre + length c) - length pre ≡ length c = omega arith in
    rw inside (rw (len, drop-append pre (c ++ post), take-append c post) refl)

module _ (kind : Kind) (fc : FilesystemCompressor) (b : ℕ) (small : suc b < 2 ^ 24)
    (lossless : IsLossless kind.compressor fc (suc b) (suc b))
    (never_empty : (xs : List ℕ) → 0 < length xs → 0 < length (lossless.packed xs))
    (table : List Fragment) where
  -- The inode of a file in a fragment
  abbrev pub node : ℕ → ℕ → ℕ → BasicFile
  node index off n = record {
    blocks_start = 0;
    frag_index = index;
    block_offset = off;
    file_size = n;
    block_sizes = [];
  }

  abbrev pub handle : List ℕ → BasicFile → Handle
  handle image file = record {
    system = system_of kind fc b small lossless never_empty (some table) image;
    file = basic file;
  }

  fragment_range-node :
      (image : List ℕ) (index off n : ℕ)
      → fragment_range (handle image (node index off n)) ≡ ok (off, off + n)
  unfolding fragment_range
  fragment_range-node image index off n =
      let none_before : n - 0 * suc b ≡ n = omega arith in
      rw (le→leb (0 * suc b) n (omega arith)) (rw none_before refl)

  pub fragment-node :
      (image : List ℕ) (index off n : ℕ) (f : Fragment)
      → (index == no_fragment) ≡ false
      → get_elem? table index ≡ some f
      → fragment (handle image (node index off n)) ≡ ok (some f)
  unfolding fragment
  fragment-node image index off n f other e = rw (other, e) refl

  unfoldable pub first_at : List ℕ → BasicFile → Fragment → ℕ → ReadFile
  first_at image file f n = record {
    raw = record {
      handle = handle image file;
      current_block = record { blocks = []; last = some f };
      pos = 0;
      cache = [];
    };
    buf_decompress = [];
    last_read = 0;
    bytes_available = n;
  }

  read_next_block-fragment :
      (image before after pre c post : List ℕ) (index : ℕ)
      → 0 < length c
      → let whole = pre ++ (c ++ post) in
        length whole ≤ suc b
        → let p = piece kind.compressor fc b small lossless whole in
          let f : Fragment = record { start = length before; size = p.1; unused = 0 } in
          image ≡ before ++ (p.0 ++ after)
          → (index == no_fragment) ≡ false
          → get_elem? table index ≡ some f
          → read_next_block (first_at image (node index (length pre) (length c)) f (length c))
            ≡ ok (
                reading kind fc b small lossless never_empty
                  (some table)
                  image
                  (basic (node index (length pre) (length c)))
                  (insert (length before) whole [])
                  []
                  0
                  c
                  0
                  (length c))
  unfolding read_next_block next_block decompress FileReader.next FileReader.read_raw_data
      FileReader.next_of FileReader.read_fragment first_at lookup
  read_next_block-fragment image before after pre c post index some_bytes room e other found =
      let whole = pre ++ (c ++ post) in
      let p = piece kind.compressor fc b small lossless whole in
      let n = length c in
      let (sized, nonempty, how) =
        piece-PieceOf kind fc b small lossless never_empty (some table) whole
          (omega (arith, length-append pre (c ++ post), length-append c post)) room in
      let got =
        read_exact-at image before p.0 after (length before) (DataSize.size p.1) e refl sized in
      let range = fragment_range-node image index (length pre) n in
      elim how [
        | inl (plain, same) ↦ rw (got, plain, range, same, slice-middle pre c post) refl
        | inr (marked, back) ↦
            rw
              (
                got,
                marked,
                back,
                fragment-node image index (length pre) n
                    (record { start = length before; size = p.1; unused = 0 }) other found,
                range,
                slice-middle pre c post,
              )
              refl
      ]

  pub read_to_end-first_at :
      (image before after pre c post : List ℕ) (index buf_len : ℕ)
      → 0 < length c
      → 0 < buf_len
      → let whole = pre ++ (c ++ post) in
        length whole ≤ suc b
        → let p = piece kind.compressor fc b small lossless whole in
          let f : Fragment = record { start = length before; size = p.1; unused = 0 } in
          image ≡ before ++ (p.0 ++ after)
          → (index == no_fragment) ≡ false
          → get_elem? table index ≡ some f
          → read_to_end
              (suc (length c))
              buf_len
              (first_at image (node index (length pre) (length c)) f (length c))
            ≡ ok c
  unfolding read first_at Blocks.written Blocks.words
  read_to_end-first_at image before after pre c post index buf_len some_bytes pos room e other
        found =
      let whole = pre ++ (c ++ post) in
      let p = piece kind.compressor fc b small lossless whole in
      let f : Fragment = record { start = length before; size = p.1; unused = 0 } in
      let file = node index (length pre) (length c) in
      let available =
        available-Reads kind fc b small lossless never_empty (some table) buf_len c image [] image
          [] (basic file) (insert (length before) whole []) c 0 pos refl tt (append-nil c)
          some_bytes in
      let first : Reads kind fc b small lossless never_empty (some table) buf_len c
          (read buf_len (first_at image file f (length c))) =
        rw (==_ne (length c) 0 (λ z. omega arith)) (
          rw
            (read_next_block-fragment image before after pre c post index some_bytes room e other
              found)
            available) in
      read_to_end-Reads kind fc b small lossless never_empty (some table) (length c) buf_len c
        (first_at image file f (length c)) some_bytes (omega arith) first
        (λ q.
          read_to_end-Owes kind fc b small lossless never_empty (some table) (length c) buf_len
            first.rest' first.f' pos q first.owes)
