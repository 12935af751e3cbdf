-- ===== src/Metadata.antt =====
-- Metadata blocks, backhand/src/metadata.rs: the writer that cuts a stream of bytes into blocks of
-- 8 KiB at most, and the reader of one block.
--
-- A writer's output is the list of the bytes that it holds so far, and what is written goes to its
-- end; a reader is an image and a position. Neither fails by itself, but a read past the end does.
pub mod Length
pub mod Blocks
pub mod Stream
pub mod Ends
mod Tests
use backhand.Common.{
  ℕ, zero, suc, ◌+◌, ◌%◌, ◌^◌, min, bit_and, bit_or, ◌==◌, ltb, leb, if◌then◌else◌, Bool, true,
  false, List, [], ◌∷◌, ◌++◌, length, take, drop,
}
use backhand.Compressor.Config.{FilesystemCompressor}
use backhand.Error.{
  Result, ok, err, panics, diverges, ◌>>=◌, ◌>>◌, assert, deku, std_io, unexpected_eof, through_io,
}
use backhand.Kinds.{Kind, WordCodec}
use backhand.Superblock.{SuperBlock}

abbrev pub metadata_maxsize : ℕ
metadata_maxsize = 0x2000

-- `1 << 15`
abbrev pub metadata_uncompressed : ℕ
metadata_uncompressed = 0x8000

unfoldable pub is_compressed : ℕ → Bool
is_compressed n = bit_and n metadata_uncompressed == 0

-- `len & !METDATA_UNCOMPRESSED` at 16 bits
unfoldable pub len : ℕ → ℕ
len n = bit_and n 0x7fff

unfoldable pub set_if_uncompressed : ℕ → ℕ
set_if_uncompressed n = bit_or n metadata_uncompressed

pub record MetadataWriter : Type 0 where
  pub compressor : FilesystemCompressor
  pub block_size : ℕ
  pub metadata_start : ℕ
  pub uncompressed_bytes : List ℕ
  pub final_bytes : List (Bool × List ℕ)
  pub kind : Kind

-- `MetadataWriter::new`
unfoldable pub new : FilesystemCompressor → ℕ → Kind → MetadataWriter
new compressor block_size kind = record {
  compressor = compressor;
  block_size = block_size;
  metadata_start = 0;
  uncompressed_bytes = [];
  final_bytes = [];
  kind = kind;
}

-- The block that is kept: the packed bytes, or the bytes themselves where packing made them longer.
unfoldable pub keep_smaller : List ℕ → List ℕ → Bool × List ℕ
keep_smaller chunk packed =
    if ltb (length chunk) (length packed) then (false, chunk) else (true, packed)

-- `self.metadata_start += 2 + metadata.len() as u32`, before the check of its 32 bits
abbrev advance : ℕ → List ℕ → ℕ
advance start block = start + (2 + length block % 2 ^ 32)

unfoldable pub push_block : MetadataWriter → ℕ → Bool × List ℕ → Result MetadataWriter
push_block w n (compressed, block) = do
  let next = advance w.metadata_start block
  assert (ltb next (2 ^ 32))
  ok (record w {
    uncompressed_bytes = drop n w.uncompressed_bytes;
    metadata_start = next;
    final_bytes = w.final_bytes ++ (compressed, block) ∷ [];
  })

unfoldable pub add_block : MetadataWriter → Result MetadataWriter
unfolding keep_smaller push_block
add_block w =
    let n = min (length w.uncompressed_bytes) metadata_maxsize in
    let chunk = take n w.uncompressed_bytes in
    if n == 0
    then ok w
    else through_io (do
      packed ← w.kind.compressor.compress w.compressor w.block_size chunk
      push_block w n (keep_smaller chunk packed))

-- `while self.uncompressed_bytes.len() >= limit { self.add_block()? }`, with fuel: `write` runs it
-- with the limit 8 KiB, and `finalize` with the limit 1.
unfoldable pub add_blocks : ℕ → ℕ → MetadataWriter → Result MetadataWriter
unfolding add_block
add_blocks zero limit w = if leb limit (length w.uncompressed_bytes) then diverges else ok w
add_blocks (suc fuel) limit w = elim (leb limit (length w.uncompressed_bytes)) [
  | true ↦ add_block w >>= λ w'. add_blocks fuel limit w'
  | false ↦ ok w
]

-- `Write::write`: all of `buf` is taken. Each round takes a byte at least, so that many are enough.
unfoldable pub write : MetadataWriter → List ℕ → Result MetadataWriter
unfolding add_blocks
write w buf =
    let u = w.uncompressed_bytes ++ buf in
    add_blocks (length u) metadata_maxsize (record w { uncompressed_bytes = u })

-- `Write::write_all`: no call of `write` for an empty buffer, and one for any other.
unfoldable pub write_all : MetadataWriter → List ℕ → Result MetadataWriter
unfolding write
write_all w [] = ok w
write_all w (b ∷ bs) = write w (b ∷ bs)

-- The length word in front of a block.
abbrev pub length_word : Bool → List ℕ → ℕ
length_word compressed block =
    bit_or (length block % 2 ^ 16) (if compressed then 0 else metadata_uncompressed)

module _ (u16 : WordCodec 2) where
  unfoldable pub block_bytes : Kind → Bool × List ℕ → List ℕ
  block_bytes kind (compressed, block) =
      u16.to_writer kind.data_endian (length_word compressed block) ++ block

  unfoldable pub blocks_bytes : Kind → List (Bool × List ℕ) → List ℕ
  unfolding block_bytes
  blocks_bytes kind [] = []
  blocks_bytes kind (b ∷ bs) = block_bytes kind b ++ blocks_bytes kind bs

  -- `finalize`: the writer afterwards, and the output with all blocks behind it.
  unfoldable pub finalize : MetadataWriter → List ℕ → Result (MetadataWriter × List ℕ)
  unfolding add_blocks blocks_bytes
  finalize w out = do
    w' ← add_blocks (length w.uncompressed_bytes) 1 w
    ok (w', out ++ blocks_bytes w'.kind w'.final_bytes)

-- An image that is read from a position on.
pub record Reader : Type 0 where
  pub image : List ℕ
  pub pos : ℕ

unfoldable pub seek : ℕ → Reader → Reader
seek p r = record r { pos = p }

-- `read_exact` of `n` bytes
unfoldable pub read_exact : ℕ → Reader → Result (List ℕ × Reader)
read_exact n r =
    if leb n (length (drop r.pos r.image))
    then ok (take n (drop r.pos r.image), record r { pos = r.pos + n })
    else err (std_io unexpected_eof)

-- The two bytes of a block's length word, which deku reads: the end of the file is deku's error.
unfoldable pub read_length_word : Reader → Result (List ℕ × Reader)
read_length_word r =
    if leb 2 (length (drop r.pos r.image))
    then ok (take 2 (drop r.pos r.image), record r { pos = r.pos + 2 })
    else err deku

module _ (u16 : WordCodec 2) where
  -- What a block's bytes stand for. The buffer that is decompressed into has room for 8 KiB.
  unfoldable pub block_contents : SuperBlock → Kind → ℕ → List ℕ → Result (List ℕ)
  unfolding is_compressed
  block_contents superblock kind word buf =
      if is_compressed word
      then kind.compressor.decompress superblock.compressor metadata_maxsize buf
      else ok buf

  unfoldable pub read_block : SuperBlock → Kind → Reader → Result (List ℕ × Reader)
  unfolding read_exact read_length_word block_contents len
  read_block superblock kind r = do
    (head, r') ← read_length_word r
    let word = u16.from_reader kind.data_endian head
    (buf, r'') ← read_exact (len word) r'
    bytes ← block_contents superblock kind word buf
    ok (bytes, r'')
