-- ===== src/Offset.antt =====
-- Images that begin behind an offset in a file: `SquashfsReaderWithOffset` of backhand/src/reader.rs
-- and `WriterWithOffset` of backhand/src/filesystem/writer.rs, whose seeks are the same. Their other
-- methods hand the call on.
pub mod View
mod Tests
use backhand.Common.{
  ℕ, suc, ◌+◌, ◌-◌, ◌^◌, ltb, leb, if◌then◌else◌, Option, none, some, List, length,
}
use backhand.Error.{Result, ok, err, ◌>>=◌, ◌>>◌, assert, std_io, invalid_input}
use backhand.Metadata.{Reader}

-- An `i64`: `pos n` is n, and `negsuc n` is -(n + 1).
pub data ℤ : Type 0 where
  pos : ℕ → ℤ
  negsuc : ℕ → ℤ

-- `SeekFrom`
pub data SeekFrom : Type 0 where
  start : ℕ → SeekFrom
  end_ : ℤ → SeekFrom
  current : ℤ → SeekFrom

-- A place so far from another, unless that is below 0
unfoldable pub away : ℕ → ℤ → Option ℕ
away base (pos n) = some (base + n)
away base (negsuc n) = if leb (suc n) base then some (base - suc n) else none

-- The place that a seek in a file of so many bytes leads to
unfoldable pub target : SeekFrom → Reader → Option ℕ
unfolding away
target (start n) r = some n
target (end_ d) r = away (length r.image) d
target (current d) r = away r.pos d

-- `Seek::seek` of what is wrapped, a file: no place below 0 is an error.
unfoldable pub seek_to : SeekFrom → Reader → Result Reader
unfolding target
seek_to from r = elim (target from r) [
  | none ↦ err (std_io invalid_input)
  | some p ↦ ok (record r { pos = p })
]

pub record WithOffset : Type 0 where
  pub io : Reader
  pub offset : ℕ

-- `new`
unfoldable pub new : Reader → ℕ → Result WithOffset
unfolding seek_to
new io offset = seek_to (start offset) io >>= λ io'. ok (record { io = io'; offset = offset })

-- `SeekFrom::Start(start) => SeekFrom::Start(self.offset + start)`, a sum in 64 bits
unfoldable pub moved : ℕ → SeekFrom → Result SeekFrom
moved offset (start n) = do assert (ltb (offset + n) (2 ^ 64)); ok (start (offset + n))
moved offset from = ok from

-- `seek`: the position that it returns, `x - self.offset`, which panics below the offset
unfoldable pub seek : SeekFrom → WithOffset → Result (ℕ × WithOffset)
unfolding moved seek_to
seek from r = do
  from' ← moved r.offset from
  io ← seek_to from' r.io
  assert (leb r.offset io.pos)
  ok (io.pos - r.offset, record r { io = io })
