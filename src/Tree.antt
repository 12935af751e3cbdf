-- ===== src/Tree.antt =====
-- The tree of nodes, `Node` and `Nodes` of backhand/src/filesystem/node.rs, and the paths of
-- backhand/src/filesystem.rs.
--
-- A normalized path is the list of its names below the root. The nodes stand in one vector, in the
-- order of their paths, and `binary_search_by` is the place of a path in that order.
pub mod Paths
pub mod Insert
mod Tests
use backhand.Common.{
  ℕ, zero, suc, ◌+◌, ◌-◌, ltb, ◌==◌, if◌then◌else◌, Bool, true, false, Option, none, some, List, [],
  ◌∷◌, ◌++◌, length, take, drop, map, get_elem?,
}
use backhand.Error.{
  Result, ok, err, panics, diverges, ◌>>=◌, ◌>>◌, require, invalid_file_path, duplicated_file_name,
}
use backhand.NodeHeader.{NodeHeader}

abbrev pub Name : Type 0
Name = List ℕ

abbrev pub PathBuf : Type 0
PathBuf = List Name

-- `std::path::Component`
pub data Component : Type 0 where
  prefix : List ℕ → Component
  root_dir cur_dir parent_dir : Component
  normal : Name → Component

-- `Path::parent`; the root has none.
unfoldable pub parent : PathBuf → Option PathBuf
parent [] = none
parent (c ∷ []) = some []
parent (c ∷ d ∷ cs) = elim (parent (d ∷ cs)) [ none ↦ none | some p ↦ some (c ∷ p) ]

-- `PathBuf::pop`, which leaves the root as it is
unfoldable pub pop : PathBuf → PathBuf
unfolding parent
pop p = elim (parent p) [ none ↦ p | some q ↦ q ]

-- The loop of `normalize_squashfs_path`, from the path made up to now.
unfoldable pub resolve : PathBuf → List Component → Result PathBuf
unfolding pop
resolve ret [] = ok ret
resolve ret (prefix p ∷ cs) = err invalid_file_path
resolve ret (root_dir ∷ cs) = resolve ret cs
resolve ret (cur_dir ∷ cs) = resolve ret cs
resolve ret (parent_dir ∷ cs) = resolve (pop ret) cs
resolve ret (normal c ∷ cs) = resolve (ret ++ c ∷ []) cs

unfoldable pub normalize_squashfs_path : List Component → Result PathBuf
unfolding resolve
normalize_squashfs_path src = resolve [] src

-- `Path::components` of a path that is normalized
unfoldable pub components : PathBuf → List Component
components p = root_dir ∷ map normal p

pub data Ordering : Type 0 where
  less equal greater : Ordering

unfoldable pub cmp_number : ℕ → ℕ → Ordering
cmp_number a b = if ltb a b then less else if ltb b a then greater else equal

-- The order of bytes, as the names are compared, and of lists in general.
unfoldable pub cmp_list {ℓ} : {A : Type ℓ} → (A → A → Ordering) → List A → List A → Ordering
cmp_list c [] [] = equal
cmp_list c [] (y ∷ ys) = less
cmp_list c (x ∷ xs) [] = greater
cmp_list c (x ∷ xs) (y ∷ ys) = elim (c x y) [
  | less ↦ less
  | equal ↦ cmp_list c xs ys
  | greater ↦ greater
]

-- `fullpath.cmp`, a name at a time
unfoldable pub cmp : PathBuf → PathBuf → Ordering
unfolding cmp_list cmp_number
cmp p q = cmp_list (cmp_list cmp_number) p q

-- `InnerNode<T>`, with `T` what stands for a file's bytes
pub data InnerNode (T : Type 0) : Type 0 where
  file : T → InnerNode T
  symlink : List ℕ → InnerNode T
  dir : InnerNode T
  character_device : ℕ → InnerNode T
  block_device : ℕ → InnerNode T
  named_pipe socket : InnerNode T

pub record Node (T : Type 0) : Type 0 where
  pub fullpath : PathBuf
  pub header : NodeHeader
  pub inner : InnerNode T

abbrev parent_or_invalid : Option PathBuf → Result PathBuf
parent_or_invalid none = err invalid_file_path
parent_or_invalid (some p) = ok p

-- `Path::starts_with`
unfoldable pub starts_with : PathBuf → PathBuf → Bool
unfolding cmp_list cmp_number
starts_with p [] = true
starts_with [] (c ∷ cs) = false
starts_with (d ∷ ds) (c ∷ cs) =
    let rest = starts_with ds cs in
    elim (cmp_list cmp_number d c) [ less ↦ false | equal ↦ rest | greater ↦ false ]

module _ {T : Type 0} where
  -- `Nodes::new_root`
  unfoldable pub new_root : NodeHeader → List (Node T)
  new_root header = record { fullpath = []; header = header; inner = dir } ∷ []

  unfoldable pub is_dir : InnerNode T → Bool
  is_dir dir = true
  is_dir i = false

  -- The node that has a path, as `binary_search_by` finds it.
  unfoldable pub find : PathBuf → List (Node T) → Option (Node T)
  unfolding cmp
  find p [] = none
  find p (n ∷ ns) =
      let rest = find p ns in
      elim (cmp n.fullpath p) [ less ↦ rest | equal ↦ some n | greater ↦ none ]

  -- `Nodes::node_mut`; a path that cannot be normalized is not found.
  unfoldable pub node_mut : List Component → List (Node T) → Option (Node T)
  unfolding normalize_squashfs_path find
  node_mut path nodes = elim (normalize_squashfs_path path) [
    | ok p ↦ find p nodes
    | err e ↦ none
    | panics ↦ none
    | diverges ↦ none
  ]

  -- The search for a node's place, and `Vec::insert` there.
  unfoldable pub put : Node T → List (Node T) → Result (List (Node T))
  unfolding cmp
  put n [] = ok (n ∷ [])
  put n (m ∷ ms) =
      let rest = put n ms in
      elim (cmp m.fullpath n.fullpath) [
        | less ↦ rest >>= λ ms'. ok (m ∷ ms')
        | equal ↦ err duplicated_file_name
        | greater ↦ ok (n ∷ m ∷ ms)
      ]

  abbrev node_or_invalid : Option (Node T) → Result (Node T)
  node_or_invalid none = err invalid_file_path
  node_or_invalid (some n) = ok n

  -- `Nodes::insert`
  unfoldable pub insert : Node T → List (Node T) → Result (List (Node T))
  unfolding parent node_mut components is_dir put
  insert n nodes = do
    above ← parent_or_invalid (parent n.fullpath)
    m ← node_or_invalid (node_mut (components above) nodes)
    require (is_dir m.inner) invalid_file_path
    put n nodes

  unfoldable pub while_below : PathBuf → List (Node T) → List (Node T)
  unfolding starts_with
  while_below p [] = []
  while_below p (n ∷ ns) =
      let rest = while_below p ns in if starts_with n.fullpath p then n ∷ rest else []

  -- `Nodes::inner_children_of`: all that stands below a node, its children and theirs. The index of a
  -- node that is not there is a panic.
  unfoldable pub inner_children_of : ℕ → List (Node T) → Result (List (Node T))
  unfolding while_below
  inner_children_of index nodes = elim (get_elem? nodes index) [
    | none ↦ panics
    | some n ↦ ok (while_below n.fullpath (drop (suc index) nodes))
  ]
