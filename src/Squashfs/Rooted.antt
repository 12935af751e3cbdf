-- ===== src/Squashfs/Rooted.antt =====
-- The tree that `into_filesystem_reader` of backhand/src/squashfs.rs makes of an image: the sort
-- loses no node, and each node but the root stands below a directory of the tree.
use mathlib.Core.Path.{subst}
use mathlib.Core.List.{Permᴰ}
use mathlib.Core.List.Permᴰ
use backhand.Common.{
  ℕ, ◌≡◌, ◌≢◌, refl, sym, ap, ◌∙◌, ◌⊎◌, inl, inr, none, arith, List, [], ◌∷◌, ◌++◌,
}
use backhand.Error.{IfOk, IfOk->>=, IfOk-then}
use backhand.Kinds.{WordCodec}
use backhand.NodeHeader.{NodeHeader, from_inode}
use backhand.Squashfs.{Squashfs}
use backhand.Squashfs.Grows.{Named, extract_dir-Added}
use backhand.Squashfs.Nodes.{FileNode, Added, Directory-more, IsIn-behind}
use backhand.Squashfs.Walk.{Walk, sort_in, sort, extract_dir, extract_root}
use backhand.Tree.{less, equal, greater, cmp, parent, dir, is_dir, new_root}
use backhand.Tree.Insert.{IsIn, Directory}
use backhand.Tree.Paths.{flip, Ordering-cases, cmp-IsOrder}

-- No path is greater than the next.
abbrev pub NotAfter : FileNode → List FileNode → Type 0
NotAfter n [] = Unit
NotAfter n (m ∷ ms) = cmp n.fullpath m.fullpath ≢ greater

abbrev pub Ordered : List FileNode → Type 0
Ordered [] = Unit
Ordered (n ∷ ms) = NotAfter n ms × Ordered ms

-- What `sort_in` leaves.
record Sorts (n : FileNode) (ms sorted : List FileNode) : Type 0 where
  is_sorted : sort_in n ms ≡ sorted
  perm : Permᴰ sorted (n ∷ ms)
  ordered : Ordered ms → Ordered sorted
  not_after :
      (k : FileNode) → NotAfter k ms → cmp k.fullpath n.fullpath ≢ greater → NotAfter k sorted

less_greater : less ≢ greater
less_greater e = ground arith

equal_greater : equal ≢ greater
equal_greater e = ground arith

-- The node goes in front.
front :
    (n m : FileNode) (ms : List FileNode)
    → sort_in n (m ∷ ms) ≡ n ∷ m ∷ ms
    → cmp n.fullpath m.fullpath ≢ greater
    → Sorts n (m ∷ ms) (n ∷ m ∷ ms)
front n m ms e h = record {
  is_sorted = e;
  perm = Permᴰ.refl (n ∷ m ∷ ms);
  ordered = λ o. (h, o);
  not_after = λ k _ g. g;
}

sort_in-Sorts : (n : FileNode) (ms : List FileNode) → (sorted : List FileNode) × Sorts n ms sorted
unfolding sort_in
sort_in-Sorts n [] = (
  n ∷ [],
  record {
    is_sorted = refl;
    perm = Permᴰ.refl (n ∷ []);
    ordered = λ _. (tt, tt);
    not_after = λ k _ g. g;
  },
)
sort_in-Sorts n (m ∷ ms) = elim (Ordering-cases (cmp m.fullpath n.fullpath)) [
  | inl l ↦
      let (rest, r) = sort_in-Sorts n ms in
      (
        m ∷ rest,
        record {
          is_sorted = rw (l, sort_in) (ap (λ t. m ∷ t) r.is_sorted);
          perm = Permᴰ.trans (Permᴰ.cons refl r.perm) (Permᴰ.swap refl refl);
          ordered = λ (h, o). (r.not_after m h (λ e. less_greater (sym l ∙ e)), r.ordered o);
          not_after = λ k h _. h;
        },
      )
  | inr (inl e) ↦ (
    n ∷ m ∷ ms,
    front n m ms (rw (e, sort_in) refl)
        (λ g. equal_greater (sym (cmp-IsOrder.flips m.fullpath n.fullpath ∙ ap flip e) ∙ g)),
  )
  | inr (inr a) ↦ (
    n ∷ m ∷ ms,
    front n m ms (rw (a, sort_in) refl)
        (λ g. less_greater (sym (cmp-IsOrder.flips m.fullpath n.fullpath ∙ ap flip a) ∙ g)),
  )
]

-- The sort returns the same nodes in the order of their paths.
pub sort-Ordered : (ns : List FileNode) → Ordered (sort ns) × Permᴰ (sort ns) ns
unfolding sort
sort-Ordered [] = (tt, Permᴰ.refl [])
sort-Ordered (n ∷ ns) =
    let (o, p) = sort-Ordered ns in
    let (sorted, s) = sort_in-Sorts n (sort ns) in
    rw s.is_sorted (s.ordered o, Permᴰ.trans s.perm (Permᴰ.cons refl p))

IsIn-Permᴰ : (n : FileNode) {xs ys : List FileNode} → Permᴰ xs ys → IsIn n xs → IsIn n ys
IsIn-Permᴰ n Permᴰ.nil h = h
IsIn-Permᴰ n (Permᴰ.cons e p) (inl q) = inl (sym e ∙ q)
IsIn-Permᴰ n (Permᴰ.cons e p) (inr t) = inr (IsIn-Permᴰ n p t)
IsIn-Permᴰ n (Permᴰ.swap e f) (inl q) = inr (inl (sym e ∙ q))
IsIn-Permᴰ n (Permᴰ.swap e f) (inr (inl q)) = inl (sym f ∙ q)
IsIn-Permᴰ n (Permᴰ.swap e f) (inr (inr t)) = inr (inr t)
IsIn-Permᴰ n (Permᴰ.trans p q) h = IsIn-Permᴰ n q (IsIn-Permᴰ n p h)

-- Nodes in the order of their paths, each but the root in a directory of them, and the root there.
pub record IsRooted (ns : List FileNode) : Type 0 where
  pub ordered : Ordered ns
  pub root : FileNode
  pub has_root : IsIn root ns
  pub is_root : root.fullpath ≡ []
  pub directories :
      (n : FileNode) → IsIn n ns → (parent n.fullpath ≡ none) ⊎ Directory n.fullpath ns

sort-IsRooted :
    (header : NodeHeader) (w : Walk) → Added [] (new_root header) w → IsRooted (sort w.1)
unfolding new_root parent is_dir
sort-IsRooted header w a =
    let (o, p) = sort-Ordered w.1 in
    let all = new_root header ++ a.added in
    let root : FileNode = record { fullpath = []; header = header; inner = dir } in
    let inside : (n : FileNode) → IsIn n all → IsIn n (sort w.1) =
      λ n h. IsIn-Permᴰ n (Permᴰ.symm p) (subst (IsIn n) (sym a.behind) h) in
    let outside : (n : FileNode) → IsIn n (sort w.1) → IsIn n all =
      λ n h. subst (IsIn n) a.behind (IsIn-Permᴰ n p h) in
    record {
      ordered = o;
      root = root;
      has_root = inside root (inl refl);
      is_root = refl;
      directories = λ n h. elim (outside n h) [
        | inl e ↦ inl (subst (λ (k : FileNode). parent k.fullpath ≡ none) e refl)
        | inr t ↦ elim (a.under n t) [
          | inl top ↦ inr (record {
            above = [];
            is_parent = top;
            node = root;
            is_in = inside root (inl refl);
            has_path = refl;
            directory = refl;
          })
          | inr d ↦ inr (
              Directory-more n.fullpath a.added (sort w.1)
                (λ m i. inside m (IsIn-behind m (new_root header) a.added i)) d)
        ]
      ];
    }

module _ (u16 : WordCodec 2) (u32 : WordCodec 4) where
  -- In an image in which no entry has the root's name, the nodes of the tree that is read stand in
  -- the order of their paths; the root is one of them; and each other node has a directory among
  -- them for its parent.
  pub extract_root-IsRooted :
      (fuel : ℕ) (s : Squashfs) → Named u16 u32 s → IfOk IsRooted (extract_root u16 u32 fuel s)
  unfolding extract_root
  extract_root-IsRooted fuel s h =
      IfOk-then IsRooted (from_inode s.root_inode.header s.id) _ (λ header.
        IfOk->>= (Added [] (new_root header)) IsRooted
          (extract_dir u16 u32 fuel s ([], new_root header) s.root_inode) _
          (extract_dir-Added u16 u32 s fuel s.root_inode ([], new_root header) h (inl refl))
          (λ w _ a. sort-IsRooted header w a))
