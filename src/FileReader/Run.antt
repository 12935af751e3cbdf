-- ===== src/FileReader/Run.antt =====
-- Reading a whole file through `SquashfsReadFile` of backhand/src/filesystem/reader.rs, for a file
-- that backhand/src/data.rs stored in blocks.
use backhand.Common.{
  ℕ, zero, suc, ◌+◌, ◌-◌, ◌%◌, ◌^◌, ◌≤◌, ◌<◌, ◌==◌, ◌≡◌, refl, sym, ap, ◌∙◌, ==_ne, ==_iff, lt→ltb,
  Bool-cases, min, false, inl, inr, Option, none, List, [], ◌∷◌, ◌++◌, length, take, drop, concat,
  append_assoc, length-append, length-take, length-drop, take-append-drop, arith,
}
use mathlib.Core.Path.{subst}
use mathlib.Core.Bool.{true≢false}
use backhand.Compressor.Config.{FilesystemCompressor}
use backhand.Data.{
  Fragment, DataWriter, DupCache, Added, data_added, ReadEvent, find_duplicate, add_bytes,
}
use backhand.Data.Chunks.{content, IsSteady}
use backhand.Inode.{BasicFile, no_fragment}
use backhand.InodeWriter.{file_inode}
use backhand.Data.Blocks.{
  writer, add_bytes-Kept, piece, written, words, IsChunks, cut, cut-IsChunks, concat-cut,
}
use backhand.Error.{Result, ok, diverges, ◌>>=◌, through_io}
use backhand.FileReader
use backhand.FileReader.{
  System, Handle, FragmentCache, SquashfsFileReader, basic, ReadFile, raw_data, into_reader, read,
  read_next_block, read_available,
}
use backhand.FileReader.Block.{system_of, reading, read_next_block-piece}
use backhand.Kinds.{Kind, IsLossless}

-- A caller that reads with buffers of `buf_len` bytes until a read returns none.
unfoldable pub read_to_end : ℕ → ℕ → ReadFile → Result (List ℕ)
read_to_end zero buf_len f = diverges
read_to_end (suc fuel) buf_len f = read buf_len f >>= λ (xs, f'). elim xs [
  | [] ↦ ok []
  | x ∷ xs ↦ read_to_end fuel buf_len f' >>= λ rest. ok ((x ∷ xs) ++ rest)
]

drop-nil : (n : ℕ) → drop {A = ℕ} n [] ≡ []
drop-nil zero = refl
drop-nil (suc n) = refl

zero_add : (m : ℕ) → 0 + m ≡ m
zero_add m = omega arith

suc_add : (n m : ℕ) → suc n + m ≡ suc (n + m)
suc_add n m = omega arith

drop-drop : (n m : ℕ) (xs : List ℕ) → drop (n + m) xs ≡ drop m (drop n xs)
drop-drop n zero [] = rw (drop-nil n) (drop-nil (n + 0))
drop-drop n (suc m) [] = rw (drop-nil n) (drop-nil (n + suc m))
drop-drop zero m (x ∷ xs) = rw (zero_add m) refl
drop-drop (suc n) m (x ∷ xs) = rw (suc_add n m) (drop-drop n m xs)

no_length : (xs : List ℕ) → length xs ≡ 0 → xs ≡ []
no_length [] e = refl
no_length (x ∷ xs) e = absurd (omega arith)

positive : (n : ℕ) → (n == 0) ≡ false → 0 < n
positive zero e = absurd (true≢false e)
positive (suc n) e = omega arith

module _ (kind : Kind) (fc : FilesystemCompressor) (b : ℕ) (small : suc b < 2 ^ 24)
    (lossless : IsLossless kind.compressor fc (suc b) (suc b))
    (never_empty : (xs : List ℕ) → 0 < length xs → 0 < length (lossless.packed xs))
    (frags : Option (List Fragment)) where
  abbrev pub at :
      List ℕ
      → List ℕ
      → List (List ℕ)
      → SquashfsFileReader
      → FragmentCache
      → List ℕ
      → ℕ
      → ℕ
      → ReadFile
  at image before chunks file cache buf last_read due =
      reading kind fc b small lossless never_empty frags image file cache
        (words kind.compressor fc b small lossless chunks) (length before) buf last_read due

  -- The reader `f` has the bytes `rest` of its file still to hand out.
  pub record Owes (rest : List ℕ) (f : ReadFile) : Type 0 where
    pub image : List ℕ
    pub before : List ℕ
    pub after : List ℕ
    pub chunks : List (List ℕ)
    pub file : SquashfsFileReader
    pub cache : FragmentCache
    pub buf : List ℕ
    pub last_read : ℕ
    pub is_reading : f ≡ at image before chunks file cache buf last_read (length rest)
    pub in_image : image ≡ before ++ (written kind.compressor fc b small lossless chunks ++ after)
    pub are_chunks : IsChunks kind.compressor fc b small lossless chunks
    pub due : drop last_read buf ++ concat chunks ≡ rest

  pub record Reads (buf_len : ℕ) (rest : List ℕ) (r : Result (List ℕ × ReadFile)) : Type 0 where
    pub f' : ReadFile
    pub out : List ℕ
    pub rest' : List ℕ
    pub returns : r ≡ ok (out, f')
    pub splits : out ++ rest' ≡ rest
    pub progress : 0 < length rest → 0 < length out
    pub owes : Owes rest' f'

  pub available-Reads :
      (buf_len : ℕ) (rest image before after : List ℕ) (chunks : List (List ℕ))
      (file : SquashfsFileReader) (cache : FragmentCache) (buf : List ℕ) (last_read : ℕ)
      → 0 < buf_len
      → image ≡ before ++ (written kind.compressor fc b small lossless chunks ++ after)
      → IsChunks kind.compressor fc b small lossless chunks
      → drop last_read buf ++ concat chunks ≡ rest
      → 0 < length (drop last_read buf)
      → Reads buf_len rest (
          ok (
            read_available buf_len (at image before chunks file cache buf last_read (length rest))))
  unfolding read_available
  available-Reads buf_len rest image before after chunks file cache buf last_read pos e h d
        some_left =
      let left = drop last_read buf in
      let n = min (min buf_len (length left)) (length rest) in
      let total : length left + length (concat chunks) ≡ length rest =
        sym (length-append left (concat chunks)) ∙ ap (λ (t : List ℕ). length t) d in
      let whole : take n left ++ (drop n left ++ concat chunks) ≡ rest =
        sym (append_assoc (take n left) (drop n left) (concat chunks))
        ∙ rw (take-append-drop n left) d in
      let due : length rest - n ≡ length (drop n left ++ concat chunks) =
        omega (arith, length-append (drop n left) (concat chunks), length-drop n left, total) in
      record {
        f' =
            (read_available buf_len
              (at image before chunks file cache buf last_read (length rest))).1;
        out = take n left;
        rest' = drop n left ++ concat chunks;
        returns = refl;
        splits = whole;
        progress = λ q. omega (arith, length-take n left);
        owes = record {
          image = image;
          before = before;
          after = after;
          chunks = chunks;
          file = file;
          cache = cache;
          buf = buf;
          last_read = last_read + n;
          is_reading = ap (λ t. at image before chunks file cache buf (last_read + n) t) due;
          in_image = e;
          are_chunks = h;
          due = ap (λ t. t ++ concat chunks) (drop-drop last_read n buf);
        };
      }

  -- With nothing left over, the next block is read first.
  fresh-Reads :
      (buf_len : ℕ) (rest image before after : List ℕ) (chunks : List (List ℕ))
      (file : SquashfsFileReader) (cache : FragmentCache) (buf : List ℕ) (last_read : ℕ)
      → 0 < buf_len
      → image ≡ before ++ (written kind.compressor fc b small lossless chunks ++ after)
      → IsChunks kind.compressor fc b small lossless chunks
      → concat chunks ≡ rest
      → 0 < length rest
      → Reads buf_len rest (
          through_io
            (read_next_block (at image before chunks file cache buf last_read (length rest)))
          >>= λ f'. ok (read_available buf_len f'))
  unfolding words written
  fresh-Reads buf_len rest image before after [] file cache buf last_read pos e h d more =
      absurd (omega (arith, ap (λ (t : List ℕ). length t) d))
  fresh-Reads buf_len rest image before after (c ∷ cs) file cache buf last_read pos e
        (some_bytes, room, h) d more =
      let p = piece kind.compressor fc b small lossless c in
      let tail = written kind.compressor fc b small lossless cs in
      let split : image ≡ before ++ (p.0 ++ (tail ++ after)) =
        e ∙ ap (λ t. before ++ t) (append_assoc p.0 tail after) in
      let moved : length before + length p.0 ≡ length (before ++ p.0) =
        sym (length-append before p.0) in
      rw
        (
          read_next_block-piece kind fc b small lossless never_empty frags image before
              (tail ++ after) c file cache (words kind.compressor fc b small lossless cs)
              (length before) buf last_read (length rest) some_bytes room split refl,
          moved,
        )
        (available-Reads buf_len rest image (before ++ p.0) after cs file cache c 0 pos
          (split ∙ sym (append_assoc before p.0 (tail ++ after))) h d some_bytes)

  read-Reads :
      (buf_len : ℕ) (rest : List ℕ) (f : ReadFile)
      → 0 < buf_len
      → 0 < length rest
      → Owes rest f
      → Reads buf_len rest (read buf_len f)
  unfolding read
  read-Reads buf_len rest f pos more o =
      let left = drop o.last_read o.buf in
      subst (λ t. Reads buf_len rest (read buf_len t)) (sym o.is_reading)
        (rw (==_ne (length rest) 0 (λ z. omega arith)) (elim (Bool-cases (length left == 0)) [
          | inl nothing ↦
              let nil : left ≡ [] = no_length left ((==_iff (length left) 0).0 nothing) in
              rw nothing (
                fresh-Reads buf_len rest o.image o.before o.after o.chunks o.file o.cache o.buf
                  o.last_read pos o.in_image o.are_chunks
                  (sym (ap (λ t. t ++ concat o.chunks) nil) ∙ o.due) more)
          | inr something ↦ rw something (
              available-Reads buf_len rest o.image o.before o.after o.chunks o.file o.cache o.buf
                o.last_read pos o.in_image o.are_chunks o.due (positive (length left) something))
        ]))

  -- One round of the caller's loop, and what the rounds after it give
  pub read_to_end-Reads :
      (fuel buf_len : ℕ) (rest : List ℕ) (f : ReadFile)
      → 0 < length rest
      → length rest < suc fuel
      → (r : Reads buf_len rest (read buf_len f))
      → (length r.rest' < fuel → read_to_end fuel buf_len r.f' ≡ ok r.rest')
      → read_to_end (suc fuel) buf_len f ≡ ok rest
  unfolding read_to_end
  read_to_end-Reads fuel buf_len rest f more enough r later =
      rw r.returns (after r.f' r.out r.rest' (r.progress more) r.splits later)
    where
      after :
          (g : ReadFile) (out rest' : List ℕ)
          → 0 < length out
          → out ++ rest' ≡ rest
          → (length rest' < fuel → read_to_end fuel buf_len g ≡ ok rest')
          → elim out as (λ _. Result (List ℕ)) [
            | [] ↦ ok []
            | y ∷ ys ↦ read_to_end fuel buf_len g >>= λ more. ok ((y ∷ ys) ++ more)
          ]
            ≡ ok rest
      after g [] rest' some_bytes e later = absurd (omega arith)
      after g (y ∷ ys) rest' some_bytes e later =
          rw (later (omega (arith, length-append (y ∷ ys) rest', ap (λ (t : List ℕ). length t) e)))
            (ap ok e)

  pub read_to_end-Owes :
      (fuel buf_len : ℕ) (rest : List ℕ) (f : ReadFile)
      → 0 < buf_len
      → length rest < fuel
      → Owes rest f
      → read_to_end fuel buf_len f ≡ ok rest
  unfolding read_to_end read
  read_to_end-Owes zero buf_len rest f pos enough o = absurd (omega arith)
  read_to_end-Owes (suc fuel) buf_len [] f pos enough o = rw o.is_reading refl
  read_to_end-Owes (suc fuel) buf_len (x ∷ xs) f pos enough o =
      let r = read-Reads buf_len (x ∷ xs) f pos (omega arith) o in
      read_to_end-Reads fuel buf_len (x ∷ xs) f (omega arith) enough r
        (λ q. read_to_end-Owes fuel buf_len r.rest' r.f' pos q r.owes)

  -- The image and the inode that a call of the data writer makes for a file of the bytes `c`, and
  -- what reading that inode gives.
  pub record ReadBack (after c : List ℕ) (buf_len : ℕ)
      (r : Result (DataWriter × List ℕ × (ℕ × Added))) : Type 0 where
    writer' : DataWriter
    image : List ℕ
    added : Added
    node : BasicFile
    stores : r ≡ ok (writer', image, (length c, added))
    makes : file_inode (length c) added ≡ ok node
    reads :
        (raw_data
            (record {
              system = system_of kind fc b small lossless never_empty frags (image ++ after);
              file = basic node;
            })
            []
          >>= λ x. read_to_end (suc (length c)) buf_len (into_reader x))
        ≡ ok c

  -- With a lossless compressor that packs no chunk into nothing: a file of a block or more, and of
  -- less than 4 GiB, whose source does not fail and whose first block is not in the cache of
  -- duplicates, is stored behind the first bytes of an image shorter than 4 GiB. An inode is made
  -- from what the writer returns; and reading that inode until a read returns nothing, with a buffer
  -- of any length but 0, gives the file's bytes, whatever follows in the image.
  pub read_to_end-add_bytes :
      (xxh64 : List ℕ → ℕ) (cache : Option DupCache) (d : DataWriter) (source : List ReadEvent)
      (before after : List ℕ) (buf_len : ℕ)
      → IsSteady source
      → let c = content source in
        suc b ≤ length c
        → length c < 2 ^ 32
        → length before < 2 ^ 32
        → find_duplicate cache (suc b) (xxh64 (take (suc b) c)) ≡ none
        → 0 < buf_len
        → ReadBack after c buf_len
            (add_bytes xxh64 (writer kind.compressor fc b small lossless cache d) source before)
  unfolding raw_data into_reader file_inode FileReader.fragment
  read_to_end-add_bytes xxh64 cache d source before after buf_len s long short place fresh pos =
      let c = content source in
      let chunks = cut kind.compressor fc b small lossless (length c) c in
      let sizes = words kind.compressor fc b small lossless chunks in
      let kept =
        add_bytes-Kept kind.compressor fc b small lossless xxh64 cache d source before s long
          fresh in
      let start : length before % 2 ^ 32 ≡ length before = omega arith in
      let node : BasicFile = record {
        blocks_start = length before;
        frag_index = no_fragment;
        block_offset = 0;
        file_size = length c;
        block_sizes = sizes;
      } in
      record {
        writer' = kept.writer';
        image = before ++ written kind.compressor fc b small lossless chunks;
        added = data_added (length before) sizes;
        node = node;
        stores = kept.returns ∙ rw start refl;
        makes = rw (lt→ltb (length c) (2 ^ 32) short) refl;
        reads = read_to_end-Owes (suc (length c)) buf_len c _ pos (omega arith) (record {
          image = (before ++ written kind.compressor fc b small lossless chunks) ++ after;
          before = before;
          after = after;
          chunks = chunks;
          file = basic node;
          cache = [];
          buf = [];
          last_read = 0;
          is_reading = refl;
          in_image = append_assoc before (written kind.compressor fc b small lossless chunks) after;
          are_chunks = cut-IsChunks kind.compressor fc b small lossless (length c) c;
          due = concat-cut kind.compressor fc b small lossless (length c) c (omega arith);
        });
      }
