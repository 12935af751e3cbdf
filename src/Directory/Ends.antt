-- ===== src/Directory/Ends.antt =====
-- Grouping the entries of a directory, `Entry::into_dir` of backhand/src/entry.rs, ends.
use backhand.Common.{◌-◌, ℕ, ltb, Bool-cases, inl, inr, List, [], ◌∷◌, ◌++◌, length}
use backhand.Directory.{
  Entry, Dir, new, push, in_reach, push_entries, create_dir, splits, dirs_from, into_dir,
}
use backhand.Error.{assert, Any, Ends, and_then-Ends, assert-Ends}
use backhand.Inode.{into_base_type}

push_entries-Ends : (d : Dir) (es : List Entry) (lowest : ℕ) → Ends Any (push_entries d es lowest)
unfolding push_entries
push_entries-Ends d [] lowest = tt
push_entries-Ends d (e ∷ es) lowest =
    let small = in_reach e.inode lowest in
    and_then-Ends {Y = Dir} (assert small) _ (assert-Ends small) (λ _ _.
      push_entries-Ends
        (push d (record {
          offset = e.offset;
          inode_offset = e.inode - lowest;
          t = into_base_type e.t;
          name_size = e.name_size;
          name = e.name;
        }))
        es lowest)

create_dir-Ends : (es : List Entry) (start lowest : ℕ) → Ends Any (create_dir es start lowest)
unfolding create_dir
create_dir-Ends es start lowest =
    and_then-Ends {Y = Dir} (assert (ltb (length es) 256)) _ (assert-Ends (ltb (length es) 256))
      (λ _ _.
        push_entries-Ends (record (new lowest) { count = length es; start = start }) es lowest)

dirs_from-Ends :
    (now : List Entry) (start lowest : ℕ) (rest : List Entry)
    → Ends Any (dirs_from now start lowest rest)
unfolding dirs_from
dirs_from-Ends now start lowest [] =
    and_then-Ends {Y = List Dir} (create_dir now start lowest) _ (create_dir-Ends now start lowest)
      (λ _ _. tt)
dirs_from-Ends now start lowest (next ∷ rest) = elim (Bool-cases (splits now start lowest next)) [
  | inl h ↦
      rw (h, dirs_from)
        (and_then-Ends {Y = List Dir} (create_dir now start lowest) _
          (create_dir-Ends now start lowest)
          (λ _ _.
            and_then-Ends {Y = List Dir} (dirs_from (next ∷ []) next.start _ rest) _
              (dirs_from-Ends (next ∷ []) next.start _ rest) (λ _ _. tt)))
  | inr h ↦ rw (h, dirs_from) (dirs_from-Ends (now ++ next ∷ []) start _ rest)
]

pub into_dir-Ends : (es : List Entry) → Ends Any (into_dir es)
unfolding into_dir
into_dir-Ends [] = tt
into_dir-Ends (e ∷ es) = dirs_from-Ends (e ∷ []) e.start _ es
