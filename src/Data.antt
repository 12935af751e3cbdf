-- ===== src/Data.antt =====
-- File data, backhand/src/data.rs: the data writer, which stores a file as blocks or in the
-- fragment that collects short files, and the reader that fills one block after another.
--
-- The output is the list of the bytes that it holds so far; what is written goes to its end, and
-- `stream_position` is its length. A source of bytes is the list of what its `read` calls answer.
pub mod Chunks
pub mod Duplicates
pub mod Blocks
pub mod Copy
pub mod Sizes
mod Tests
use backhand.Common.{
  ℕ, zero, suc, ◌+◌, ◌-◌, ◌%◌, ◌^◌, ◌==◌, ltb, leb, if◌then◌else◌, Bool, true, false, not, Option,
  none, some, List, [], ◌∷◌, ◌++◌, length, take, drop, lookup, insert,
}
use backhand.Compressor.Config.{FilesystemCompressor}
use backhand.DataSize.{DataSize}
use backhand.DataSize.Create.{new_compressed, new_uncompressed}
use backhand.Error.{Result, ok, err, panics, diverges, ◌>>=◌, std_io, IoErrorKind}
use backhand.Kinds.{CompressionAction}

-- `Fragment` of backhand/src/fragment.rs
pub record Fragment : Type 0 where
  pub start : ℕ
  pub size : DataSize
  pub unused : ℕ

pub data Added : Type 0 where
  data_added : ℕ → List DataSize → Added
  fragment_added : ℕ → ℕ → Added

-- The answers of `Read::read`: bytes, of which a call takes as many as its buffer has room for and
-- of which none is the end; `ErrorKind::Interrupted`; another error; or a panic. No answer left is
-- the end.
pub data ReadEvent : Type 0 where
  bytes : List ℕ → ReadEvent
  retry : ReadEvent
  fails : IoErrorKind → ReadEvent
  aborts : ReadEvent

-- The loop of `read_chunk`, for a buffer with that much room.
unfoldable pub fill : ℕ → List ReadEvent → Result (List ℕ × List ReadEvent)
fill zero events = ok ([], events)
fill (suc room) [] = ok ([], [])
fill (suc room) (retry ∷ events) = fill (suc room) events
fill (suc room) (fails k ∷ events) = err (std_io k)
fill (suc room) (aborts ∷ events) = panics
fill (suc room) (bytes [] ∷ events) = ok ([], events)
fill (suc room) (bytes (b ∷ bs) ∷ events) =
    let rest = fill (room - length bs) events in
    if leb (length bs) room
    then (rest >>= λ (more, left). ok ((b ∷ bs) ++ more, left))
    else ok (b ∷ take room bs, bytes (drop room bs) ∷ events)

-- `DataWriterChunkReader`; the length of its buffer is `room`.
pub record ChunkReader : Type 0 where
  pub room : ℕ
  pub file_len : ℕ
  pub source : List ReadEvent

unfoldable pub read_chunk : ChunkReader → Result (List ℕ × ChunkReader)
unfolding fill
read_chunk r = do
  (chunk, left) ← fill r.room r.source
  ok (chunk, record r { file_len = r.file_len + length chunk; source = left })

abbrev pub DupCache : Type 0
DupCache = List (ℕ × List (ℕ × (ℕ × Added)))

pub record DataWriter : Type 0 where
  pub kind : CompressionAction
  pub block_size : ℕ
  pub fs_compressor : FilesystemCompressor
  pub dup_cache : Option DupCache
  pub fragment_bytes : List ℕ
  pub fragment_table : List Fragment

-- `DataWriter::new`
unfoldable pub new : CompressionAction → FilesystemCompressor → ℕ → Bool → DataWriter
new kind fs_compressor block_size no_duplicate_files = record {
  kind = kind;
  block_size = block_size;
  fs_compressor = fs_compressor;
  dup_cache = if no_duplicate_files then some [] else none;
  fragment_bytes = [];
  fragment_table = [];
}

-- What is stored for a chunk: its packed bytes, or itself where packing made it longer.
unfoldable pub stored : List ℕ → List ℕ → Result (List ℕ × DataSize)
stored chunk cb =
    if ltb (length chunk) (length cb)
    then (new_uncompressed (length chunk % 2 ^ 32) >>= λ size. ok (chunk, size))
    else (new_compressed (length cb % 2 ^ 32) >>= λ size. ok (cb, size))

-- `DataWriter::finalize`
unfoldable pub finalize : DataWriter → List ℕ → Result (DataWriter × List ℕ)
unfolding stored
finalize d out = do
  cb ← d.kind.compress d.fs_compressor d.block_size d.fragment_bytes
  (written, size) ← stored d.fragment_bytes cb
  let entry : Fragment = record { start = length out; size = size; unused = 0 }
  ok (
    record d { fragment_table = d.fragment_table ++ entry ∷ []; fragment_bytes = [] },
    out ++ written,
  )

-- `while !chunk.is_empty()` of `add_bytes`. A round with a chunk takes a byte of the source at
-- least, or finds its end.
unfoldable pub store_blocks :
    ℕ
    → DataWriter
    → List ℕ
    → ChunkReader
    → List ℕ
    → List DataSize
    → Result (ChunkReader × List ℕ × List DataSize)
unfolding stored
store_blocks fuel d [] r out sizes = ok (r, out, sizes)
store_blocks zero d (b ∷ bs) r out sizes = diverges
store_blocks (suc fuel) d (b ∷ bs) r out sizes =
    d.kind.compress d.fs_compressor d.block_size (b ∷ bs) >>= λ cb.
    stored (b ∷ bs) cb >>= λ (written, size). read_chunk r >>= λ (chunk, r').
    store_blocks fuel d chunk r' (out ++ written) (sizes ++ size ∷ [])

-- How many bytes a source holds.
abbrev pub total : List ReadEvent → ℕ
total [] = 0
total (bytes bs ∷ events) = length bs + total events
total (retry ∷ events) = total events
total (fails k ∷ events) = total events
total (aborts ∷ events) = total events

-- A short file: it goes into the fragment, after the fragment that it does not fit was written.
unfoldable pub add_fragment :
    DataWriter → List ℕ → ℕ → List ℕ → Result (DataWriter × List ℕ × (ℕ × Added))
unfolding finalize
add_fragment d chunk file_len out = do
  (d', out') ←
      (if ltb d.block_size (length chunk + length d.fragment_bytes)
        then finalize d out
        else ok (d, out))
  let place = fragment_added (length d'.fragment_table % 2 ^ 32) (length d'.fragment_bytes % 2 ^ 32)
  ok (record d' { fragment_bytes = d'.fragment_bytes ++ chunk }, out', (file_len, place))

-- `dup_cache.get(&chunk_len).and_then(|c| c.get(&hash))`, where there is a cache
unfoldable pub find_duplicate : Option DupCache → ℕ → ℕ → Option (ℕ × Added)
find_duplicate none chunk_len hash = none
find_duplicate (some cache) chunk_len hash = elim (lookup chunk_len cache) [
  | none ↦ none
  | some c ↦ lookup hash c
]

unfoldable pub remember : Option DupCache → ℕ → ℕ → ℕ × Added → Option DupCache
remember none chunk_len hash added = none
remember (some cache) chunk_len hash added = elim (lookup chunk_len cache) [
  | none ↦ some (insert chunk_len (insert hash added []) cache)
  | some entry ↦ some (insert chunk_len (insert hash added entry) cache)
]

-- The hash is `xxh64` with seed 0, of the xxhash crate.
module _ (xxh64 : List ℕ → ℕ) where
  -- A file whose first chunk fills a block and is not in the cache.
  unfoldable pub add_blocks :
      DataWriter → List ℕ → ChunkReader → List ℕ → Result (DataWriter × List ℕ × (ℕ × Added))
  unfolding store_blocks remember
  add_blocks d chunk r out = do
    (r', out', sizes) ← store_blocks (suc (total r.source)) d chunk r out []
    let added : ℕ × Added = (r'.file_len, data_added (length out % 2 ^ 32) sizes)
    ok (
      record d { dup_cache = remember d.dup_cache (length chunk) (xxh64 chunk) added },
      out',
      added,
    )

  -- A file whose first chunk fills a block.
  unfoldable pub add_full :
      DataWriter → List ℕ → ChunkReader → List ℕ → Result (DataWriter × List ℕ × (ℕ × Added))
  unfolding find_duplicate add_blocks
  add_full d chunk r out = elim (find_duplicate d.dup_cache (length chunk) (xxh64 chunk)) [
    | some found ↦ ok (d, out, found)
    | none ↦ add_blocks d chunk r out
  ]

  unfoldable pub add_bytes :
      DataWriter → List ReadEvent → List ℕ → Result (DataWriter × List ℕ × (ℕ × Added))
  unfolding read_chunk add_fragment add_full
  add_bytes d source out = do
    (chunk, r) ← read_chunk (record { room = d.block_size; file_len = 0; source = source })
    if not (length chunk == d.block_size)
        then add_fragment d chunk r.file_len out
        else add_full d chunk r out
