-- ===== src/FileReader.antt =====
-- Reading the bytes of a file, backhand/src/filesystem/reader.rs: the iterator over a file's blocks
-- and its fragment, the reader of their raw bytes with the cache of fragments, and
-- `SquashfsReadFile`, which hands out as many bytes as a caller's buffer holds.
--
-- The image behind the lock of `FilesystemReader` is a list of bytes, and every read seeks first.
-- The cache behind the other lock is a part of the state that is handed on.
pub mod Block
pub mod Run
pub mod Short
pub mod ShortFile
mod Tests
use backhand.Common.{
  ℕ, zero, suc, ◌+◌, ◌-◌, ◌*◌, min, ◌==◌, ltb, leb, if◌then◌else◌, Bool, true, false, not, Option,
  none, some, List, [], ◌∷◌, ◌++◌, length, take, drop, replicate, get_elem?, lookup, insert,
}
use backhand.Compressor.{Compressor, CompressionOptions}
use backhand.Data.{Fragment}
use backhand.DataSize
use backhand.DataSize.{DataSize}
use backhand.Error.{Result, ok, err, panics, diverges, ◌>>=◌, ◌>>◌, assert, through_io}
use backhand.Inode.{BasicFile, ExtendedFile, no_fragment}
use backhand.Kinds.{Kind}
use backhand.Metadata.{Reader, read_exact}

-- `SquashfsFileReader` of backhand/src/filesystem/node.rs
pub data SquashfsFileReader : Type 0 where
  basic : BasicFile → SquashfsFileReader
  extended : ExtendedFile → SquashfsFileReader

unfoldable pub file_len : SquashfsFileReader → ℕ
file_len (basic f) = f.file_size
file_len (extended f) = f.file_size

unfoldable pub frag_index : SquashfsFileReader → ℕ
frag_index (basic f) = f.frag_index
frag_index (extended f) = f.frag_index

unfoldable pub block_sizes : SquashfsFileReader → List DataSize
block_sizes (basic f) = f.block_sizes
block_sizes (extended f) = f.block_sizes

unfoldable pub blocks_start : SquashfsFileReader → ℕ
blocks_start (basic f) = f.blocks_start
blocks_start (extended f) = f.blocks_start

unfoldable pub block_offset : SquashfsFileReader → ℕ
block_offset (basic f) = f.block_offset
block_offset (extended f) = f.block_offset

-- What a file handle uses of `FilesystemReader`.
pub record System : Type 0 where
  pub kind : Kind
  pub block_size : ℕ
  pub compressor : Compressor
  pub compression_options : Option CompressionOptions
  pub fragments : Option (List Fragment)
  pub image : List ℕ

-- `FilesystemReaderFile`
pub record Handle : Type 0 where
  pub system : System
  pub file : SquashfsFileReader

-- `&fragments[index]`
abbrev index_or_panic : Option Fragment → Result (Option Fragment)
index_or_panic none = panics
index_or_panic (some f) = ok (some f)

-- `FilesystemReaderFile::fragment`
unfoldable pub fragment : Handle → Result (Option Fragment)
unfolding frag_index
fragment h = if frag_index h.file == no_fragment then ok none else elim h.system.fragments [
  | none ↦ ok none
  | some fragments ↦ index_or_panic (get_elem? fragments (frag_index h.file))
]

pub data BlockFragment : Type 0 where
  block : DataSize → BlockFragment
  tail_end : Fragment → BlockFragment

pub record BlockIterator : Type 0 where
  pub blocks : List DataSize
  pub last : Option Fragment

unfoldable pub next_of : List DataSize → Option Fragment → Option (BlockFragment × BlockIterator)
next_of (d ∷ ds) last = some (block d, record { blocks = ds; last = last })
next_of [] (some f) = some (tail_end f, record { blocks = []; last = none })
next_of [] none = none

-- `BlockIterator::next`, with the iterator that it leaves
unfoldable pub next : BlockIterator → Option (BlockFragment × BlockIterator)
unfolding next_of
next it = next_of it.blocks it.last

pub record RawDataBlock : Type 0 where
  pub is_fragment : Bool
  pub uncompressed : Bool

abbrev pub FragmentCache : Type 0
FragmentCache = List (ℕ × List ℕ)

-- `SquashfsRawData`, and the cache as it is at this time
pub record RawData : Type 0 where
  pub handle : Handle
  pub current_block : BlockIterator
  pub pos : ℕ
  pub cache : FragmentCache

-- `SquashfsRawData::new`
unfoldable pub raw_data : Handle → FragmentCache → Result RawData
unfolding fragment block_sizes blocks_start
raw_data h cache = do
  last ← fragment h
  ok (record {
    handle = h;
    current_block = record { blocks = block_sizes h.file; last = last };
    pos = blocks_start h.file;
    cache = cache;
  })

-- `fragment_range`: the start and the end. `file_size` less than the blocks is an overflow.
unfoldable pub fragment_range : Handle → Result (ℕ × ℕ)
unfolding block_sizes file_len block_offset
fragment_range h = do
  let blocks_len = length (block_sizes h.file) * h.system.block_size
  assert (leb blocks_len (file_len h.file))
  ok (block_offset h.file, block_offset h.file + (file_len h.file - blocks_len))

-- The bytes of a range; out of bounds is a panic.
unfoldable pub slice : ℕ × ℕ → List ℕ → Result (List ℕ)
slice (start, end_) xs = do assert (leb end_ (length xs)); ok (take (end_ - start) (drop start xs))

-- The fragment of the file at hand, whose bytes go into the cache whole.
abbrev pub cache_fragment : RawData → Fragment → List ℕ → RawData
cache_fragment r f xs = record r { cache = insert f.start xs r.cache }

unfoldable pub read_block : RawData → DataSize → Result (List ℕ × RawDataBlock × RawData)
read_block r d =
    if DataSize.size d == 0
    then ok (
      replicate r.handle.system.block_size 0,
      record { is_fragment = false; uncompressed = true },
      r,
    )
    else (do
      (xs, after) ←
          read_exact (DataSize.size d) (record { image = r.handle.system.image; pos = r.pos })
      ok (
        xs,
        record { is_fragment = false; uncompressed = DataSize.uncompressed d },
        record r { pos = after.pos },
      ))

read_cached : RawData → List ℕ → Result (List ℕ × RawDataBlock × RawData)
unfolding fragment_range slice
read_cached r cached = do
  range ← fragment_range r.handle
  xs ← slice range cached
  ok (xs, record { is_fragment = true; uncompressed = true }, r)

-- A fragment that is stored as it is goes into the cache at once; another when it is decompressed.
read_fragment : RawData → Fragment → Result (List ℕ × RawDataBlock × RawData)
unfolding fragment_range slice
read_fragment r f = do
  (xs, _) ←
      read_exact (DataSize.size f.size) (record { image = r.handle.system.image; pos = f.start })
  if DataSize.uncompressed f.size
      then (do
        range ← fragment_range r.handle
        part ← slice range xs
        ok (part, record { is_fragment = true; uncompressed = true }, cache_fragment r f xs))
      else ok (xs, record { is_fragment = true; uncompressed = false }, r)

-- `read_raw_data`: the bytes that it leaves in `data`, and the block's two marks
unfoldable pub read_raw_data : RawData → BlockFragment → Result (List ℕ × RawDataBlock × RawData)
unfolding read_block read_cached read_fragment
read_raw_data r (block d) = read_block r d
read_raw_data r (tail_end f) = elim (lookup f.start r.cache) [
  | some cached ↦ read_cached r cached
  | none ↦ read_fragment r f
]

-- `next_block`
unfoldable pub next_block : RawData → Result (Option (List ℕ × RawDataBlock) × RawData)
unfolding next read_raw_data
next_block r = elim (next r.current_block) [
  | none ↦ ok (none, r)
  | some (what, it) ↦ read_raw_data (record r { current_block = it }) what >>= λ (xs, marks, r').
      ok (some (xs, marks), r')
]

-- `self.file.fragment().unwrap()`
abbrev unwrap : Option Fragment → Result Fragment
unwrap none = panics
unwrap (some f) = ok f

-- `SquashfsRawData::decompress` into an empty buffer with room for a block
unfoldable pub decompress : RawData → RawDataBlock → List ℕ → Result (List ℕ × RawData)
unfolding fragment fragment_range slice
decompress r marks input = if marks.uncompressed then ok (input, r) else (do
  xs ←
      r.handle.system.kind.compressor.decompress r.handle.system.compressor
        r.handle.system.block_size input
  if marks.is_fragment
      then (do
        f ← unwrap (← fragment r.handle)
        range ← fragment_range r.handle
        part ← slice range xs
        ok (part, cache_fragment r f xs))
      else ok (xs, r))

pub record ReadFile : Type 0 where
  pub raw : RawData
  pub buf_decompress : List ℕ
  pub last_read : ℕ
  pub bytes_available : ℕ

-- `into_reader`
unfoldable pub into_reader : RawData → ReadFile
unfolding file_len
into_reader r = record {
  raw = r;
  buf_decompress = [];
  last_read = 0;
  bytes_available = file_len r.handle.file;
}

abbrev pub available : ReadFile → List ℕ
available f = drop f.last_read f.buf_decompress

-- `read_next_block`
unfoldable pub read_next_block : ReadFile → Result ReadFile
unfolding next_block decompress
read_next_block f = next_block f.raw >>= λ (found, raw). elim found [
  | none ↦ ok (record f { raw = raw })
  | some (input, marks) ↦ decompress raw marks input >>= λ (xs, raw').
      ok (record f { raw = raw'; buf_decompress = xs; last_read = 0 })
]

-- `read_available`, into a buffer of `buf_len` bytes
unfoldable pub read_available : ℕ → ReadFile → List ℕ × ReadFile
read_available buf_len f =
    let read_len = min (min buf_len (length (available f))) f.bytes_available in
    (
      take read_len (available f),
      record f {
        bytes_available = f.bytes_available - read_len;
        last_read = f.last_read + read_len;
      },
    )

-- `Read::read` with a buffer of `buf_len` bytes; an error becomes an `io::Error`.
unfoldable pub read : ℕ → ReadFile → Result (List ℕ × ReadFile)
unfolding read_next_block read_available
read buf_len f = if f.bytes_available == 0 then ok ([], record f { buf_decompress = [] }) else (do
  f' ← (if length (available f) == 0 then through_io (read_next_block f) else ok f)
  ok (read_available buf_len f'))
