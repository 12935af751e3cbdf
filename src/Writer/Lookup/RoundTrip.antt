-- ===== src/Writer/Lookup/RoundTrip.antt =====
-- A lookup table that was written is read back by `lookup_table` of backhand/src/reader.rs.
use native.Mathlib.Nat.{suc-mul}
use backhand.Common.{
  ℕ, zero, suc, ◌+◌, ◌*◌, ◌%◌, ◌^◌, ◌≤◌, ◌<◌, ◌≡◌, refl, sym, ap, ◌∙◌, ltb, lt→ltb, le→ltb, leb,
  le→leb, lt→leb, ◌||◌, Bool, true, false, List, [], ◌∷◌, ◌++◌, length, length-append, map, concat,
  take, drop, take-append, drop-append, append_assoc, append-nil, arith,
}
use backhand.Error.{ok}
use backhand.ImageReader.{
  Element, as_f32, ceil_div_f32, read_blocks, read_elements, metadata_with_count, lookup_table,
}
use backhand.ImageReader.Block.{reader_at, read_exact-at, read_block-block_bytes}
use backhand.Kinds.{Kind, Endian, WordCodec}
use backhand.Metadata.{
  seek, block_bytes, blocks_bytes, length_word, set_if_uncompressed, metadata_maxsize,
}
use backhand.Metadata.Blocks.{All}
use backhand.Superblock.{SuperBlock}
use backhand.Writer.Lookup.{is_none, plain_block, write_blocks, write_lookup_table}

-- deku's promise for a type of `width` bytes: they are as many, and a value whose numbers fit their
-- fields is read back.
pub record IsElement {T : Type 0} {width : ℕ} (element : Element T width) (Fits : T → Type 0)
    : Type 0 where
  pub length-to_writer : (e : Endian) (t : T) → length (element.to_writer e t) ≡ width
  pub from_reader-to_writer :
      (e : Endian) (t : T) → Fits t → element.from_reader e (element.to_writer e t) ≡ t

abbrev plain : List ℕ → Bool × List ℕ
plain block = (false, block)

-- Blocks that the reader takes, all but the last of them full.
abbrev Full : List (List ℕ) → Type 0
Full [] = Unit
Full (b ∷ []) = (0 < length b) × (length b ≤ metadata_maxsize)
Full (b ∷ c ∷ bs) = (length b ≡ metadata_maxsize) × Full (c ∷ bs)

module _ (u16 : WordCodec 2) {T : Type 0} {width : ℕ} (element : Element T width)
    (Fits : T → Type 0) (good : IsElement element Fits) (kind : Kind) (each : ℕ)
    (whole : suc each * width ≡ metadata_maxsize) (some_bytes : 0 < width) where
  abbrev elements_bytes : List T → List ℕ
  elements_bytes ts = concat (map (element.to_writer kind.type_endian) ts)

  -- What the loop writes for elements of which there is one at least.
  record Wrote (ts : List T) (here out : List ℕ) : Type 0 where
    first : List ℕ
    more : List (List ℕ)
    ptrs : List ℕ
    writes :
        write_blocks u16 element kind width ts here out
        ≡ (length out ∷ ptrs, out ++ blocks_bytes u16 kind (map plain (first ∷ more)))
    full : Full (first ∷ more)
    kept : concat (first ∷ more) ≡ here ++ elements_bytes ts

  plain_block-block_bytes :
      (block : List ℕ) → plain_block u16 kind block ≡ block_bytes u16 kind (false, block)
  unfolding plain_block block_bytes set_if_uncompressed
  plain_block-block_bytes block = refl

  ended : (out : List ℕ) → write_blocks u16 element kind width [] [] out ≡ ([], out)
  unfolding write_blocks
  ended out = refl

  or_true : (b : Bool) → (b || true) ≡ true
  or_true true = refl
  or_true false = refl

  -- A block that is full, or the last
  flushed :
      (t : T) (ts : List T) (here out : List ℕ)
      → let block = here ++ element.to_writer kind.type_endian t in
        (ltb metadata_maxsize (length block + width) || is_none ts) ≡ true
        → write_blocks u16 element kind width (t ∷ ts) here out ≡ (
          length out
              ∷ (write_blocks u16 element kind width ts []
                  (out ++ block_bytes u16 kind (plain block))).0,
          (write_blocks u16 element kind width ts [] (out ++ block_bytes u16 kind (plain block))).1,
        )
  unfolding write_blocks
  flushed t ts here out e =
      rw (e, write_blocks, plain_block-block_bytes (here ++ element.to_writer kind.type_endian t))
        refl

  goes_on :
      (t : T) (ts : List T) (here out : List ℕ)
      → let block = here ++ element.to_writer kind.type_endian t in
        (ltb metadata_maxsize (length block + width) || is_none ts) ≡ false
        → write_blocks u16 element kind width (t ∷ ts) here out
          ≡ write_blocks u16 element kind width ts block out
  unfolding write_blocks
  goes_on t ts here out e = rw (e, write_blocks) refl

  length-here :
      (t : T) (here : List ℕ)
      → length (here ++ element.to_writer kind.type_endian t) ≡ length here + width
  length-here t here = omega (
    arith,
    length-append here (element.to_writer kind.type_endian t),
    good.length-to_writer kind.type_endian t,
  )

  Full-cons :
      (b c : List ℕ) (bs : List (List ℕ))
      → length b ≡ metadata_maxsize
      → Full (c ∷ bs)
      → Full (b ∷ c ∷ bs)
  Full-cons b c bs e f = (e, f)

  -- `room` more elements fit the block after this one.
  write_blocks-Wrote :
      (t : T) (ts : List T) (here out : List ℕ) (room : ℕ)
      → length here + suc room * width ≡ metadata_maxsize
      → Wrote (t ∷ ts) here out
  unfolding blocks_bytes
  write_blocks-Wrote t [] here out room fits =
      let block = here ++ element.to_writer kind.type_endian t in
      let size = length-here t here in
      record {
        first = block;
        more = [];
        ptrs = [];
        writes =
            flushed t [] here out (or_true (ltb metadata_maxsize (length block + width)))
            ∙ rw
                (
                  ended (out ++ block_bytes u16 kind (plain block)),
                  append-nil (block_bytes u16 kind (plain block)),
                )
                refl;
        full = (omega arith, omega (arith, suc-mul room width));
        kept = append_assoc here (element.to_writer kind.type_endian t) [];
      }
  write_blocks-Wrote t (u ∷ us) here out zero fits =
      let block = here ++ element.to_writer kind.type_endian t in
      let size = length-here t here in
      let is_full : length block ≡ metadata_maxsize = omega (arith, suc-mul 0 width) in
      let out' = out ++ block_bytes u16 kind (plain block) in
      let w = write_blocks-Wrote u us [] out' each (omega arith) in
      record {
        first = block;
        more = w.first ∷ w.more;
        ptrs = length out' ∷ w.ptrs;
        writes =
            flushed t (u ∷ us) here out
              (rw (lt→ltb metadata_maxsize (length block + width) (omega arith)) refl)
            ∙ rw
                (
                  w.writes,
                  append_assoc out (block_bytes u16 kind (plain block))
                      (blocks_bytes u16 kind (map plain (w.first ∷ w.more))),
                )
                refl;
        full = Full-cons block w.first w.more is_full w.full;
        kept =
            rw w.kept
              (append_assoc here (element.to_writer kind.type_endian t) (elements_bytes (u ∷ us)));
      }
  write_blocks-Wrote t (u ∷ us) here out (suc room) fits =
      let block = here ++ element.to_writer kind.type_endian t in
      let size = length-here t here in
      let w = write_blocks-Wrote u us block out room (omega (arith, suc-mul (suc room) width)) in
      record {
        first = w.first;
        more = w.more;
        ptrs = w.ptrs;
        writes =
            goes_on t (u ∷ us) here out (
              rw
                (le→ltb metadata_maxsize (length block + width)
                  (omega (arith, suc-mul (suc room) width, suc-mul room width)))
                refl)
            ∙ w.writes;
        full = w.full;
        kept =
            w.kept
            ∙ append_assoc here (element.to_writer kind.type_endian t) (elements_bytes (u ∷ us));
      }

  -- How many blocks there are for so many bytes.
  Full-length :
      (bs : List (List ℕ)) (b : List ℕ)
      → Full (b ∷ bs)
      → (length (b ∷ bs) * metadata_maxsize < length (concat (b ∷ bs)) + metadata_maxsize)
        × (length (concat (b ∷ bs)) ≤ length (b ∷ bs) * metadata_maxsize)
  Full-length [] b (some, few) =
      (omega (arith, length-append b []), omega (arith, length-append b []))
  Full-length (c ∷ bs) b (e, f) =
      let (low, high) = Full-length bs c f in
      (
        omega (arith, length-append b (concat (c ∷ bs))),
        omega (arith, length-append b (concat (c ∷ bs))),
      )

  length-elements_bytes : (ts : List T) → length (elements_bytes ts) ≡ length ts * width
  length-elements_bytes [] = omega arith
  length-elements_bytes (t ∷ ts) = omega (
    arith,
    length-append (element.to_writer kind.type_endian t) (elements_bytes ts),
    good.length-to_writer kind.type_endian t,
    length-elements_bytes ts,
    suc-mul (length ts) width,
  )

  at_least : (ts : List T) → length ts ≤ length ts * width
  at_least [] = omega arith
  at_least (t ∷ ts) = omega (arith, suc-mul (length ts) width, at_least ts)

  read_elements-bytes :
      (ts : List T) (fuel : ℕ)
      → All Fits ts
      → length ts ≤ fuel
      → read_elements u16 element fuel kind (elements_bytes ts) ≡ ts
  unfolding read_elements
  read_elements-bytes [] zero fit h = refl
  read_elements-bytes [] (suc fuel) fit h = rw (lt→leb width 0 some_bytes, read_elements) refl
  read_elements-bytes (t ∷ ts) zero fit h = absurd (omega arith)
  read_elements-bytes (t ∷ ts) (suc fuel) (f, fs) h =
      let bytes = element.to_writer kind.type_endian t in
      let n : width ≡ length bytes = sym (good.length-to_writer kind.type_endian t) in
      let fits : leb width (length (bytes ++ elements_bytes ts)) ≡ true =
        le→leb width (length (bytes ++ elements_bytes ts))
          (omega (arith, length-append bytes (elements_bytes ts))) in
      let first : take width (bytes ++ elements_bytes ts) ≡ bytes =
        rw n (take-append bytes (elements_bytes ts)) in
      let later : drop width (bytes ++ elements_bytes ts) ≡ elements_bytes ts =
        rw n (drop-append bytes (elements_bytes ts)) in
      rw (fits, read_elements)
        (rw (first, later, good.from_reader-to_writer kind.type_endian t f)
          (ap (λ us. t ∷ us) (read_elements-bytes ts fuel fs (omega arith))))

  length-block_bytes : (b : List ℕ) → length (block_bytes u16 kind (plain b)) ≡ 2 + length b
  unfolding block_bytes
  length-block_bytes b = omega (
    arith,
    length-append (u16.to_writer kind.data_endian (length_word false b)) b,
    u16.length-to_writer kind.data_endian (length_word false b),
  )

  module _ (superblock : SuperBlock) (image : List ℕ) where
    -- `read_blocks` on blocks that stand behind `before`.
    read_blocks-plain :
        (b : List ℕ) (bs : List (List ℕ)) (before after acc : List ℕ) (pos : ℕ)
        → Full (b ∷ bs)
        → image ≡ before ++ (blocks_bytes u16 kind (map plain (b ∷ bs)) ++ after)
        → pos ≡ length before
        → read_blocks u16 element (length (b ∷ bs)) superblock kind (reader_at image pos) acc
          ≡ ok (acc ++ concat (b ∷ bs))
    unfolding read_blocks blocks_bytes
    read_blocks-plain b [] before after acc pos (some, few) e p =
        rw
          (
            read_block-block_bytes u16 kind superblock image before after false b pos
                (e ∙ ap (λ t. before ++ (t ++ after)) (append-nil (block_bytes u16 kind (plain b))))
                p (few, refl),
            append-nil b,
          )
          refl
    read_blocks-plain b (c ∷ bs) before after acc pos (is_full, f) e p =
        let here = block_bytes u16 kind (plain b) in
        let others = blocks_bytes u16 kind (map plain (c ∷ bs)) in
        let split : image ≡ before ++ (here ++ (others ++ after)) =
          e ∙ ap (λ t. before ++ t) (append_assoc here others after) in
        rw
          (read_block-block_bytes u16 kind superblock image before (others ++ after) false b pos
            split p (omega arith, refl))
          (read_blocks-plain c bs (before ++ here) after (acc ++ b) (pos + (2 + length b)) f
              (split ∙ sym (append_assoc before here (others ++ after)))
              (omega (arith, length-append before here, length-block_bytes b))
            ∙ ap ok (append_assoc acc b (concat (c ∷ bs))))

    metadata_with_count-plain :
        (t : T) (ts : List T) (b : List ℕ) (bs : List (List ℕ)) (before after : List ℕ) (pos : ℕ)
        → All Fits (t ∷ ts)
        → Full (b ∷ bs)
        → concat (b ∷ bs) ≡ elements_bytes (t ∷ ts)
        → image ≡ before ++ (blocks_bytes u16 kind (map plain (b ∷ bs)) ++ after)
        → metadata_with_count u16 element superblock kind
            (length before)
            (length (b ∷ bs))
            (reader_at image pos)
          ≡ ok (t ∷ ts)
    unfolding metadata_with_count seek
    metadata_with_count-plain t ts b bs before after pos fit full kept e =
        let bytes = elements_bytes (t ∷ ts) in
        rw (read_blocks-plain b bs before after [] (length before) full e refl) (
          rw kept (
            ap ok (
              read_elements-bytes (t ∷ ts) (length bytes) fit
                (omega (arith, length-elements_bytes (t ∷ ts), at_least (t ∷ ts))))))

  exact : (n : ℕ) → n < 2 ^ 24 → as_f32 n ≡ n
  unfolding as_f32
  exact n h = rw (lt→ltb n (2 ^ 24) h, as_f32) refl

  -- The reader's number of blocks
  ceil_div-Full :
      (bs : List (List ℕ)) (b : List ℕ) (n : ℕ)
      → Full (b ∷ bs)
      → length (concat (b ∷ bs)) ≡ n
      → n < 2 ^ 24
      → ceil_div_f32 n metadata_maxsize ≡ length (b ∷ bs)
  unfolding ceil_div_f32
  ceil_div-Full bs b n full size small =
      let (low, high) = Full-length bs b full in rw (exact n small) (omega arith)

  module _ (u64 : WordCodec 8) (superblock : SuperBlock) where
    written :
        (t : T) (ts : List T) (before : List ℕ)
        → (w : Wrote (t ∷ ts) [] before)
        → write_lookup_table u16 element u64 kind (t ∷ ts) width before ≡ (
          (
            length (before ++ blocks_bytes u16 kind (map plain (w.first ∷ w.more))),
            length (t ∷ ts) % 2 ^ 32,
          ),
          (before ++ blocks_bytes u16 kind (map plain (w.first ∷ w.more)))
              ++ (u64.to_writer kind.type_endian (length before)
                  ++ concat (map (u64.to_writer kind.type_endian) w.ptrs)),
        )
    unfolding write_lookup_table
    written t ts before w = rw (w.writes, write_lookup_table) refl

    -- A table of elements that fit, of which there is one at least and which take less than 16 MiB, is read
    -- back from the place that `write_lookup_table` returns, with the number of its elements times
    -- their size for its size, whatever stands behind it; and the number returned is that of its
    -- elements. Each element's size has to divide 8 KiB.
    pub lookup_table-write_lookup_table :
        (t : T) (ts : List T) (before after : List ℕ) (pos : ℕ)
        → All Fits (t ∷ ts)
        → length before < 256 ^ 8
        → length (t ∷ ts) < 2 ^ 32
        → length (t ∷ ts) * width < 2 ^ 24
        → let r = write_lookup_table u16 element u64 kind (t ∷ ts) width before in
          (r.0.1 ≡ length (t ∷ ts))
          × (lookup_table u16 element u64 superblock kind r.0.0
                (length (t ∷ ts) * width)
                (reader_at (r.1 ++ after) pos)
              ≡ ok (length before, t ∷ ts))
    unfolding lookup_table seek
    lookup_table-write_lookup_table t ts before after pos fit low count small =
        let w = write_blocks-Wrote t ts [] before each (omega (arith, whole)) in
        let blocks = blocks_bytes u16 kind (map plain (w.first ∷ w.more)) in
        let ptr = u64.to_writer kind.type_endian (length before) in
        let ptrs = concat (map (u64.to_writer kind.type_endian) w.ptrs) in
        let image = ((before ++ blocks) ++ (ptr ++ ptrs)) ++ after in
        let one : image ≡ (before ++ blocks) ++ (ptr ++ (ptrs ++ after)) =
          append_assoc (before ++ blocks) (ptr ++ ptrs) after
          ∙ ap (λ x. (before ++ blocks) ++ x) (append_assoc ptr ptrs after) in
        let two : image ≡ before ++ (blocks ++ (ptr ++ (ptrs ++ after))) =
          one ∙ append_assoc before blocks (ptr ++ (ptrs ++ after)) in
        let start = length (before ++ blocks) in
        let size : length (concat (w.first ∷ w.more)) ≡ length (t ∷ ts) * width =
          ap length w.kept ∙ length-elements_bytes (t ∷ ts) in
        rw (written t ts before w) (
          omega arith,
          rw
              (
                read_exact-at image (before ++ blocks) ptr (ptrs ++ after) start 8 one refl
                    (sym (u64.length-to_writer kind.type_endian (length before))),
                u64.from_reader-to_writer kind.type_endian (length before) low,
                ceil_div-Full w.more w.first (length (t ∷ ts) * width) w.full size small,
                metadata_with_count-plain superblock image t ts w.first w.more before
                    (ptr ++ (ptrs ++ after)) (start + 8) fit w.full w.kept two,
              )
              refl,
        )
