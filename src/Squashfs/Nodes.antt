-- ===== src/Squashfs/Nodes.antt =====
-- The nodes that the walk of backhand/src/squashfs.rs makes: each stands in a directory that has a
-- node too, and the walk leaves the path as it found it.
use mathlib.Core.Path.{subst}
use backhand.Common.{
  ℕ, ◌≡◌, refl, sym, ap, ◌∙◌, true, ◌⊎◌, inl, inr, some, List, [], ◌∷◌, ◌++◌, append-nil,
  append_assoc,
}
use backhand.FileReader.{SquashfsFileReader}
use backhand.Squashfs.Walk.{Walk}
use backhand.Tree.Paths.{parent-append, pop-append}
use backhand.Tree.{PathBuf, parent, pop, is_dir, Node}
use backhand.Tree.Insert.{IsIn, Directory}

abbrev pub FileNode : Type 0
FileNode = Node SquashfsFileReader

pub IsIn-before : (n : FileNode) (xs ys : List FileNode) → IsIn n xs → IsIn n (xs ++ ys)
IsIn-before n [] ys h = absurd h
IsIn-before n (x ∷ xs) ys h = elim h [ inl e ↦ inl e | inr t ↦ inr (IsIn-before n xs ys t) ]

pub IsIn-behind : (n : FileNode) (xs ys : List FileNode) → IsIn n ys → IsIn n (xs ++ ys)
IsIn-behind n [] ys h = h
IsIn-behind n (x ∷ xs) ys h = inr (IsIn-behind n xs ys h)

pub IsIn-append : (n : FileNode) (xs ys : List FileNode) → IsIn n (xs ++ ys) → IsIn n xs ⊎ IsIn n ys
IsIn-append n [] ys h = inr h
IsIn-append n (x ∷ xs) ys h = elim h [
  | inl e ↦ inl (inl e)
  | inr t ↦ elim (IsIn-append n xs ys t) [ inl a ↦ inl (inr a) | inr b ↦ inr b ]
]

-- A node in the directory of path `p` itself, or below a directory that has a node.
abbrev pub Under : PathBuf → List FileNode → FileNode → Type 0
Under p ns n = (parent n.fullpath ≡ some p) ⊎ Directory n.fullpath ns

pub Directory-more :
    (p : PathBuf) (ns ms : List FileNode)
    → ((n : FileNode) → IsIn n ns → IsIn n ms)
    → Directory p ns
    → Directory p ms
Directory-more p ns ms more d = record {
  above = d.above;
  is_parent = d.is_parent;
  node = d.node;
  is_in = more d.node d.is_in;
  has_path = d.has_path;
  directory = d.directory;
}

Under-more :
    (p : PathBuf) (ns ms : List FileNode)
    → ((n : FileNode) → IsIn n ns → IsIn n ms)
    → (n : FileNode) → Under p ns n
    → Under p ms n
Under-more p ns ms more n h = elim h [
  | inl e ↦ inl e
  | inr d ↦ inr (Directory-more n.fullpath ns ms more d)
]

-- The nodes that a walk has added when it is back at the path where it began.
pub record Added (p : PathBuf) (nodes : List FileNode) (w : Walk) : Type 0 where
  pub back : w.0 ≡ p
  pub added : List FileNode
  pub behind : w.1 ≡ nodes ++ added
  pub under : (n : FileNode) → IsIn n added → Under p added n

pub Added-nothing : (p : PathBuf) (nodes : List FileNode) → Added p nodes (p, nodes)
Added-nothing p nodes = record {
  back = refl;
  added = [];
  behind = sym (append-nil nodes);
  under = λ n h. absurd h;
}

pub Added-then :
    (p : PathBuf) (nodes : List FileNode) (w w' : Walk)
    → Added p nodes w
    → Added w.0 w.1 w'
    → Added p nodes w'
Added-then p nodes w w' a b = record {
  back = b.back ∙ a.back;
  added = a.added ++ b.added;
  behind = b.behind ∙ ap (λ t. t ++ b.added) a.behind ∙ append_assoc nodes a.added b.added;
  under = λ n h. elim (IsIn-append n a.added b.added h) [
    | inl x ↦
        Under-more p a.added (a.added ++ b.added) (λ m. IsIn-before m a.added b.added) n
          (a.under n x)
    | inr y ↦
        Under-more p b.added (a.added ++ b.added) (λ m. IsIn-behind m a.added b.added) n
          (subst (λ q. Under q b.added n) a.back (b.under n y))
  ];
}

-- What a directory added, and then the directory's own node behind it
pub Added-directory :
    (p : PathBuf) (c : List ℕ) (nodes : List FileNode) (w : Walk) (n : FileNode)
    → Added (p ++ c ∷ []) nodes w
    → n.fullpath ≡ w.0
    → is_dir n.inner ≡ true
    → Added p nodes (pop w.0, w.1 ++ n ∷ [])
Added-directory p c nodes w n a path d =
    let here : n.fullpath ≡ p ++ c ∷ [] = path ∙ a.back in
    let all = a.added ++ n ∷ [] in
    record {
      back = ap pop a.back ∙ pop-append p c;
      added = all;
      behind = ap (λ t. t ++ n ∷ []) a.behind ∙ append_assoc nodes a.added (n ∷ []);
      under = λ m h. elim (IsIn-append m a.added (n ∷ []) h) [
        | inl x ↦ elim (a.under m x) [
          | inl e ↦ inr (record {
            above = p ++ c ∷ [];
            is_parent = e;
            node = n;
            is_in = IsIn-behind n a.added (n ∷ []) (inl refl);
            has_path = here;
            directory = d;
          })
          | inr old ↦
              inr (Directory-more m.fullpath a.added all (λ k. IsIn-before k a.added (n ∷ [])) old)
        ]
        | inr y ↦ elim y [
          | inl e ↦
              inl (subst (λ k. parent k.fullpath ≡ some p) e (ap parent here ∙ parent-append p c))
          | inr nothing ↦ absurd nothing
        ]
      ];
    }

-- A node that is no directory, behind the others
pub Added-leaf :
    (p : PathBuf) (c : List ℕ) (nodes : List FileNode) (n : FileNode)
    → n.fullpath ≡ p ++ c ∷ []
    → Added p nodes (pop (p ++ c ∷ []), nodes ++ n ∷ [])
Added-leaf p c nodes n path = record {
  back = pop-append p c;
  added = n ∷ [];
  behind = refl;
  under = λ m h. elim h [
    | inl e ↦ inl (subst (λ k. parent k.fullpath ≡ some p) e (ap parent path ∙ parent-append p c))
    | inr nothing ↦ absurd nothing
  ];
}
