-- ===== src/FileReader/ShortFile.antt =====
-- A file shorter than a block, from backhand/src/data.rs, where it is put into a fragment, to
-- backhand/src/filesystem/reader.rs, which reads it back.
use backhand.Common.{
  ℕ, zero, suc, ◌+◌, ◌%◌, ◌^◌, ◌≤◌, ◌<◌, ◌==◌, ◌≡◌, refl, ap, ==_ne, le→ltb, lt→ltb, false, Option,
  some, List, [], ◌∷◌, ◌++◌, length, take, get_elem?, length-append, append_assoc, arith,
}
use backhand.Compressor.Config.{FilesystemCompressor}
use backhand.Data
use backhand.Data.{Fragment, DataWriter, DupCache, Added, fragment_added, ReadEvent, add_bytes}
use backhand.Data.Blocks.{piece, writer, stored-piece}
use backhand.Data.Chunks.{content, IsSteady, fill-Filled}
use backhand.Error.{Result, ok, ◌>>=◌}
use backhand.FileReader.{raw_data, into_reader}
use backhand.FileReader.Run.{read_to_end}
use backhand.FileReader.Short.{node, handle, fragment-node, read_to_end-first_at}
use backhand.FileReader.Short
use backhand.Inode.{BasicFile, no_fragment}
use backhand.InodeWriter.{file_inode}
use backhand.Kinds.{Kind, IsLossless}

take-all : (n : ℕ) (xs : List ℕ) → length xs ≤ n → take n xs ≡ xs
take-all zero [] h = refl
take-all (suc n) [] h = refl
take-all zero (x ∷ xs) h = absurd (omega arith)
take-all (suc n) (x ∷ xs) h = ap (λ (t : List ℕ). x ∷ t) (take-all n xs (omega arith))

get_elem?-last :
    (fs more : List Fragment) (f : Fragment)
    → get_elem? ((fs ++ f ∷ []) ++ more) (length fs) ≡ some f
get_elem?-last [] more f = refl
get_elem?-last (g ∷ fs) more f = get_elem?-last fs more f

module _ (kind : Kind) (fc : FilesystemCompressor) (b : ℕ) (small : suc b < 2 ^ 24)
    (lossless : IsLossless kind.compressor fc (suc b) (suc b))
    (never_empty : (xs : List ℕ) → 0 < length xs → 0 < length (lossless.packed xs)) where
  open lossless use {packed, compress_packed}

  -- What the call that adds a file of the bytes `c` leaves, what `finalize` does after other files
  -- have put `post` into the same fragment and `out'` into the output, and what reading then gives.
  pub record ShortBack (cache : Option DupCache) (d : DataWriter) (c post out out' after : List ℕ)
      (more : List Fragment) (buf_len : ℕ) (r : Result (DataWriter × List ℕ × (ℕ × Added)))
      : Type 0 where
    d' : DataWriter
    d'' : DataWriter
    image : List ℕ
    added : Added
    file : BasicFile
    stores : r ≡ ok (d', out, (length c, added))
    waits :
        (d'.fragment_bytes ≡ d.fragment_bytes ++ c)
        × (d'.fragment_table ≡ d.fragment_table)
        × (d'.dup_cache ≡ cache)
    finalizes :
        Data.finalize (record d' { fragment_bytes = d'.fragment_bytes ++ post }) out'
        ≡ ok (d'', image)
    makes : file_inode (length c) added ≡ ok file
    reads :
        (raw_data
            (handle kind fc b small lossless never_empty
              (d''.fragment_table ++ more)
              (image ++ after)
              file)
            []
          >>= λ x. read_to_end (suc (length c)) buf_len (into_reader x))
        ≡ ok c

  -- With a lossless compressor that packs nothing but the empty list into nothing: a file shorter than
  -- a block and not empty, whose source does not fail, and which fits into the fragment that is being
  -- filled, with fewer than 2^32 - 1 fragments before that one. The call writes nothing, and puts the file's bytes behind those that wait. When other
  -- files have put bytes behind it that fit too, `finalize` writes the fragment behind the output
  -- there is then; and reading the inode made from what the call returned, with a buffer of any length
  -- but 0, gives the file's bytes, whatever follows in the image and in the table of fragments.
  pub read_to_end-add_fragment :
      (xxh64 : List ℕ → ℕ) (cache : Option DupCache) (d : DataWriter) (source : List ReadEvent)
      (post out out' after : List ℕ) (more : List Fragment) (buf_len : ℕ)
      → IsSteady source
      → let c = content source in
        0 < length c
        → length c ≤ b
        → length d.fragment_bytes + (length c + length post) ≤ suc b
        → length d.fragment_table < no_fragment
        → 0 < buf_len
        → ShortBack cache d c post out out' after more buf_len
            (add_bytes xxh64 (writer kind.compressor fc b small lossless cache d) source out)
  unfolding add_bytes Data.read_chunk Data.add_fragment Data.finalize raw_data into_reader
      file_inode Short.first_at
  read_to_end-add_fragment xxh64 cache d source post out out' after more buf_len s some_bytes short
        room few pos =
      let c = content source in
      let f = fill-Filled (suc b) source s in
      let all : take (suc b) c ≡ c = take-all (suc b) c (omega arith) in
      let pre = d.fragment_bytes in
      let whole = pre ++ (c ++ post) in
      let p = piece kind.compressor fc b small lossless whole in
      let entry : Fragment = record { start = length out'; size = p.1; unused = 0 } in
      let fits : length whole ≤ suc b =
        omega (arith, length-append pre (c ++ post), length-append c post) in
      let index = length d.fragment_table in
      let table = (d.fragment_table ++ entry ∷ []) ++ more in
      let index32 : index % 2 ^ 32 ≡ index = omega arith in
      let off32 : length pre % 2 ^ 32 ≡ length pre = omega arith in
      let from_zero : 0 + length c ≡ length c = omega arith in
      let d' : DataWriter = record (writer kind.compressor fc b small lossless cache d) {
        fragment_bytes = pre ++ c;
      } in
      let other : (index == no_fragment) ≡ false =
        ==_ne index no_fragment (λ z. omega (arith, few, z)) in
      let found = get_elem?-last d.fragment_table more entry in
      record {
        d' = d';
        d'' = record d' { fragment_table = d.fragment_table ++ entry ∷ []; fragment_bytes = [] };
        image = out' ++ p.0;
        added = fragment_added index (length pre);
        file = node kind fc b small lossless never_empty table index (length pre) (length c);
        stores = rw f.returns (
            rw
              (
                all,
                ==_ne (length c) (suc b) (λ z. omega (arith, short, z)),
                le→ltb (suc b) (length c + length pre) (omega arith),
              )
              (rw (index32, off32, from_zero) refl));
        waits = (refl, refl, refl);
        finalizes = rw (append_assoc pre c post) (
            rw (compress_packed whole fits)
              (rw (stored-piece kind.compressor fc b small lossless whole fits) refl));
        makes = rw (lt→ltb (length c) (2 ^ 32) (omega arith)) refl;
        reads =
            rw
              (fragment-node kind fc b small lossless never_empty table ((out' ++ p.0) ++ after)
                index (length pre) (length c) entry other found)
              (read_to_end-first_at kind fc b small lossless never_empty table
                ((out' ++ p.0) ++ after) out' after pre c post index buf_len some_bytes pos fits
                (append_assoc out' p.0 after) other found);
      }
