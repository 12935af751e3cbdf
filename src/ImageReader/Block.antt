-- ===== src/ImageReader/Block.antt =====
-- Reading back one block of those that `MetadataWriter::finalize` of backhand/src/metadata.rs wrote.
use backhand.Common.{
  ℕ, ◌+◌, ◌≡◌, refl, sym, ap, ◌∙◌, le→leb, Bool, true, false, List, ◌++◌, length, length-append,
  take-append, drop-append, append_assoc, arith,
}
use backhand.Error.{ok}
use backhand.Kinds.{Kind, WordCodec}
use backhand.Metadata.{
  Reader, read_exact, read_length_word, read_block, block_contents, block_bytes, length_word,
  is_compressed,
}
use backhand.Metadata.Length.{length_word_fields}
use backhand.Metadata.Blocks.{IsGood, contents}
use backhand.Superblock.{SuperBlock}

abbrev pub reader_at : List ℕ → ℕ → Reader
reader_at image pos = record { image = image; pos = pos }

-- Bytes that stand at the position are read, and the position moves behind them.
pub read_exact-at :
    (image before x after : List ℕ) (pos n : ℕ)
    → image ≡ before ++ (x ++ after)
    → pos ≡ length before
    → n ≡ length x
    → read_exact n (reader_at image pos) ≡ ok (x, reader_at image (pos + n))
unfolding read_exact
read_exact-at image before x after pos n e p l =
    rw (e, p, l, drop-append before (x ++ after), take-append x after)
      (rw (le→leb (length x) (length (x ++ after)) (omega (arith, length-append x after))))

read_length_word-at :
    (image before x after : List ℕ) (pos : ℕ)
    → image ≡ before ++ (x ++ after)
    → pos ≡ length before
    → 2 ≡ length x
    → read_length_word (reader_at image pos) ≡ ok (x, reader_at image (pos + 2))
unfolding read_length_word
read_length_word-at image before x after pos e p l =
    rw (e, p, l, drop-append before (x ++ after), take-append x after)
      (rw (le→leb (length x) (length (x ++ after)) (omega (arith, length-append x after))))

module _ (u16 : WordCodec 2) (kind : Kind) (superblock : SuperBlock) where
  block_contents-IsGood :
      (c : Bool) (block : List ℕ) (word : ℕ)
      → is_compressed word ≡ c
      → IsGood kind.compressor superblock.compressor (c, block)
      → block_contents u16 superblock kind word block
        ≡ ok (contents kind.compressor superblock.compressor (c, block))
  unfolding block_contents
  block_contents-IsGood true block word e g = rw e g.1
  block_contents-IsGood false block word e g = rw e refl

  -- A block that `finalize` wrote is read as what it stands for, and the position moves behind it.
  pub read_block-block_bytes :
      (image before after : List ℕ) (c : Bool) (block : List ℕ) (pos : ℕ)
      → image ≡ before ++ (block_bytes u16 kind (c, block) ++ after)
      → pos ≡ length before
      → IsGood kind.compressor superblock.compressor (c, block)
      → read_block u16 superblock kind (reader_at image pos)
        ≡ ok (
          contents kind.compressor superblock.compressor (c, block),
          reader_at image (pos + (2 + length block)),
        )
  unfolding read_block block_bytes
  read_block-block_bytes image before after c block pos e p g =
      let word = length_word c block in
      let head = u16.to_writer kind.data_endian word in
      let (marked, short, fits) = length_word_fields c block (omega arith) in
      let split : image ≡ before ++ (head ++ (block ++ after)) =
        e ∙ ap (λ t. before ++ t) (append_assoc head block after) in
      let first =
        read_length_word-at image before head (block ++ after) pos split p
          (sym (u16.length-to_writer _ _)) in
      let second =
        read_exact-at image (before ++ head) block after (pos + 2) (length block)
          (split ∙ sym (append_assoc before head (block ++ after)))
          (omega (arith, length-append before head, u16.length-to_writer kind.data_endian word))
          refl in
      rw first (
        rw
          (
            u16.from_reader-to_writer kind.data_endian word fits,
            short,
            second,
            block_contents-IsGood c block word marked g,
          )
          (ap
            (λ (t : ℕ).
              ok (contents kind.compressor superblock.compressor (c, block), reader_at image t))
            (omega arith)))
