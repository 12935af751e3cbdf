-- ===== src/Offset/View.antt =====
-- A wrapped reader of backhand/src/reader.rs seeks as a reader does on the file without the bytes
-- before the offset, as long as it stays in that file.
use backhand.Common.{
  ℕ, suc, ◌+◌, ◌-◌, ◌^◌, ◌≤◌, ◌<◌, ◌≡◌, refl, leb, leb→le, leb→lt, lt→ltb, lt→leb, le→leb,
  Bool-cases, ◌⊎◌, inl, inr, length, drop, length-drop, arith,
}
use backhand.Error.{ok, err, panics, std_io, invalid_input}
use backhand.Metadata.{Reader}
use backhand.Offset.{
  ℤ, negsuc, SeekFrom, start, end_, current, away, target, seek_to, WithOffset, moved, seek,
}

-- The file behind the offset, at the same place
abbrev pub view : WithOffset → Reader
view r = record { image = drop r.offset r.io.image; pos = r.io.pos - r.offset }

-- The offset lies in the file, and the position behind it.
abbrev pub IsBehind : WithOffset → Type 0
IsBehind r = (r.offset ≤ length r.io.image) × (r.offset ≤ r.io.pos)

-- A seek whose sum stays in 64 bits
abbrev pub Reaches : ℕ → SeekFrom → Type 0
Reaches offset (start n) = offset + n < 2 ^ 64
Reaches offset from = Unit

-- How the two seeks go together: the view's reader gets to a place, and the wrapper returns it and
-- has that reader for its view; or the view's reader fails, and the wrapper panics or fails too.
abbrev pub SeeksAlike : SeekFrom → WithOffset → Type 0
SeeksAlike from r =
    ((v : Reader) × (r' : WithOffset) × (seek_to from (view r) ≡ ok v)
      × (seek from r ≡ ok (v.pos, r'))
      × (view r' ≡ v)
      × IsBehind r')
    ⊎ (seek_to from (view r) ≡ err (std_io invalid_input))
      × ((seek from r ≡ panics) ⊎ (seek from r ≡ err (std_io invalid_input)))

-- A seek that moves the wrapped file's position to `p` and its view's to `q`
lands :
    (from : SeekFrom) (r : WithOffset) (p q : ℕ)
    → IsBehind r
    → seek_to from (view r) ≡ ok (record (view r) { pos = q })
    → (seek from r ≡ ok (p - r.offset, record r { io = record r.io { pos = p } }))
    → r.offset + q ≡ p
    → SeeksAlike from r
lands from r p q (inside, behind) e f sum =
    let gap : p - r.offset ≡ q = omega arith in
    inl (
      record (view r) { pos = q },
      record r { io = record r.io { pos = p } },
      e,
      rw gap at f,
      rw gap refl,
      (inside, omega arith),
    )

-- A seek over a distance from a place in the file that is so far in its view
around :
    (from : SeekFrom) (r : WithOffset) (base shown : ℕ) (d : ℤ)
    → IsBehind r
    → target from r.io ≡ away base d
    → target from (view r) ≡ away shown d
    → moved r.offset from ≡ ok from
    → r.offset + shown ≡ base
    → SeeksAlike from r
unfolding seek seek_to away
around from r base shown (ℤ.pos n) b t u m sum =
    lands from r (base + n) (shown + n) b (rw (u, seek_to) refl)
      (rw (m, seek) (rw (t, seek_to) (rw (le→leb r.offset (base + n) (omega arith)) refl)))
      (omega arith)
around from r base shown (negsuc n) b t u m sum = elim (Bool-cases (leb (suc n) shown)) [
  | inl h ↦
      let in_view = leb→le (suc n) shown h in
      lands from r (base - suc n) (shown - suc n) b (rw (u, seek_to) (rw (h, away) refl))
        (rw (m, seek)
          (rw (t, seek_to)
            (rw (le→leb (suc n) base (omega arith))
              (rw (le→leb r.offset (base - suc n) (omega arith)) refl))))
        (omega arith)
  | inr h ↦
      let below = leb→lt (suc n) shown h in
      inr (
        rw (u, seek_to) (rw (h, away) refl),
        elim (Bool-cases (leb (suc n) base)) [
          | inl g ↦ inl (
              rw (m, seek)
                (rw (t, seek_to)
                  (rw (g, away)
                    (rw (lt→leb r.offset (base - suc n) (omega (arith, leb→le (suc n) base g)))
                      refl))))
          | inr g ↦ inr (rw (m, seek) (rw (t, seek_to) (rw (g, away) refl)))
        ],
      )
]

-- Every seek of the wrapper, back or forth, whose sum with the offset fits 64 bits, from a position
-- behind an offset in the file: where the same seek in the view gets to a place, the wrapper returns
-- that place, its view is the view's reader then, and it stays behind the offset; where the seek in
-- the view would go below 0 and fail, the wrapper panics, or fails.
pub seek-view :
    (from : SeekFrom) (r : WithOffset) → IsBehind r → Reaches r.offset from → SeeksAlike from r
unfolding seek seek_to moved target
seek-view (start n) r b small =
    lands (start n) r (r.offset + n) n b refl
      (rw (lt→ltb (r.offset + n) (2 ^ 64) small, le→leb r.offset (r.offset + n) (omega arith)) refl)
      refl
seek-view (end_ d) r b small =
    around (end_ d) r (length r.io.image) (length (drop r.offset r.io.image)) d b refl refl refl
      (omega (arith, length-drop r.offset r.io.image))
seek-view (current d) r b small =
    around (current d) r r.io.pos (r.io.pos - r.offset) d b refl refl refl (omega arith)
