-- ===== src/Tree/Tests.antt =====
-- Tests of the tree of nodes, backhand/src/filesystem/node.rs.
use backhand.Common.{true, false, ◌⊎◌, ℕ, ◌≡◌, refl, inl, inr, List, [], ◌∷◌, none}
use mathlib.Core.Path.{subst}
use backhand.Error.{err, invalid_file_path, ok}
use backhand.Sample.{sample_header}
use backhand.Tree.{
  Component, root_dir, parent_dir, normal, Node, dir, named_pipe, parent, normalize_squashfs_path,
}
use backhand.Tree.Insert.{IsTree, Outcome, insert-cases}
use backhand.Tree.Paths.{has_prefix, remaining, normalize-remaining}

abbrev root : List (Node ℕ)
root = record { fullpath = []; header = sample_header; inner = dir } ∷ []

root-IsTree : IsTree root
unfolding parent
root-IsTree = record {
  sorted = (tt, tt);
  directories = λ m h. elim h [ inl e ↦ inl (only m e) | inr none_left ↦ absurd none_left ];
}
  where
    only :
        (m : Node ℕ)
        → record { fullpath = []; header = sample_header; inner = dir } ≡ m
        → parent m.fullpath ≡ none
    only m e = subst (λ k. parent k.fullpath ≡ none) e refl

-- `/a`, a pipe
abbrev pipe : Node ℕ
pipe = record { fullpath = (b'a' ∷ []) ∷ []; header = sample_header; inner = named_pipe }

insert-cases_example : Outcome pipe root
insert-cases_example = insert-cases pipe root root-IsTree

-- `/a/../../b/c/..`
abbrev up_and_down : List Component
up_and_down =
    root_dir
    ∷ normal (b'a' ∷ [])
    ∷ parent_dir
    ∷ parent_dir
    ∷ normal (b'b' ∷ [])
    ∷ normal (b'c' ∷ [])
    ∷ parent_dir
    ∷ []

normalize-remaining_example :
    (has_prefix up_and_down ≡ true) × (normalize_squashfs_path up_and_down ≡ err invalid_file_path)
    ⊎ (has_prefix up_and_down ≡ false)
      × (normalize_squashfs_path up_and_down ≡ ok (remaining up_and_down).1)
normalize-remaining_example = normalize-remaining up_and_down

up_and_down-remaining : (remaining up_and_down).1 ≡ (b'b' ∷ []) ∷ []
up_and_down-remaining = refl
