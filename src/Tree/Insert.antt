-- ===== src/Tree/Insert.antt =====
-- Putting a node into the tree, `Nodes::insert` of backhand/src/filesystem/node.rs: the nodes stay
-- in order, each below a directory that is there, and the new node is found under its path.
use backhand.Common.{
  ◌≡◌, refl, sym, ap, ◌∙◌, Bool, true, false, Bool-cases, ◌⊎◌, inl, inr, none, some, Option-cases,
  List, [], ◌∷◌,
}
use mathlib.Core.Path.{subst}
use mathlib.Core.Option.{none-ne-some, some-injective}
use backhand.Error.{ok, err, invalid_file_path, duplicated_file_name}
use backhand.Tree.{
  PathBuf, parent, components, less, equal, greater, cmp, Node, is_dir, find, node_mut, put, insert,
}
use backhand.Tree.Paths.{normalize-components, flip, Ordering-cases, cmp-IsOrder}

module _ {T : Type 0} where
  -- A node's path is less than the path of the first of these.
  abbrev pub Below : Node T → List (Node T) → Type 0
  Below n [] = Unit
  Below n (m ∷ ms) = cmp n.fullpath m.fullpath ≡ less

  -- Each path is less than the next.
  abbrev pub Sorted : List (Node T) → Type 0
  Sorted [] = Unit
  Sorted (n ∷ ms) = Below n ms × Sorted ms

  abbrev pub IsIn : Node T → List (Node T) → Type 0
  IsIn n [] = ⊥
  IsIn n (m ∷ ms) = (m ≡ n) ⊎ IsIn n ms

  -- What `put` leaves.
  pub record Placed (n : Node T) (ns ns' : List (Node T)) : Type 0 where
    pub returns : put n ns ≡ ok ns'
    pub sorted : Sorted ns → Sorted ns'
    pub below : (m : Node T) → Below m ns → cmp m.fullpath n.fullpath ≡ less → Below m ns'
    pub kept : (m : Node T) → IsIn m ns → IsIn m ns'
    pub only : (m : Node T) → IsIn m ns' → (m ≡ n) ⊎ IsIn m ns
    pub found : find n.fullpath ns' ≡ some n

  find-less :
      (p : PathBuf) (m : Node T) (ms : List (Node T))
      → cmp m.fullpath p ≡ less
      → find p (m ∷ ms) ≡ find p ms
  unfolding find
  find-less p m ms e = rw (e, find) refl

  find-head : (n : Node T) (ms : List (Node T)) → find n.fullpath (n ∷ ms) ≡ some n
  unfolding find
  find-head n ms = rw (cmp-IsOrder.same n.fullpath, find) refl

  -- The new node behind a lesser one
  put-behind :
      (n m : Node T) (ms ms' : List (Node T))
      → cmp m.fullpath n.fullpath ≡ less
      → Placed n ms ms'
      → Placed n (m ∷ ms) (m ∷ ms')
  unfolding put
  put-behind n m ms ms' l p = record {
    returns = rw (l, p.returns, put) refl;
    sorted = λ (b, s). (p.below m b l, p.sorted s);
    below = λ k b _. b;
    kept = λ k h. elim h [ inl s ↦ inl s | inr t ↦ inr (p.kept k t) ];
    only = λ k h. elim h [ inl s ↦ inr (inl s) | inr t ↦ later k (p.only k t) ];
    found = find-less n.fullpath m ms' l ∙ p.found;
  }
    where
      later : (k : Node T) → (k ≡ n) ⊎ IsIn k ms → (k ≡ n) ⊎ (m ≡ k) ⊎ IsIn k ms
      later k (inl s) = inl s
      later k (inr t) = inr (inr t)

  -- The new node before a greater one
  put-before :
      (n m : Node T) (ms : List (Node T))
      → cmp m.fullpath n.fullpath ≡ greater
      → Placed n (m ∷ ms) (n ∷ m ∷ ms)
  unfolding put
  put-before n m ms g = record {
    returns = rw (g, put) refl;
    sorted = λ s. (cmp-IsOrder.flips m.fullpath n.fullpath ∙ ap flip g, s);
    below = λ k _ l. l;
    kept = λ k h. inr h;
    only = λ k h. elim h [ inl s ↦ inl (sym s) | inr t ↦ inr t ];
    found = find-head n (m ∷ ms);
  }

  put-last : (n : Node T) → Placed n [] (n ∷ [])
  unfolding put
  put-last n = record {
    returns = refl;
    sorted = λ s. (tt, tt);
    below = λ k _ l. l;
    kept = λ k h. absurd h;
    only = λ k h. elim h [ inl s ↦ inl (sym s) | inr t ↦ absurd t ];
    found = find-head n [];
  }

  -- The path is taken, and `put` says so.
  pub record Taken (n : Node T) (ns : List (Node T)) : Type 0 where
    pub fails : put n ns ≡ err duplicated_file_name
    pub node : Node T
    pub is_in : IsIn node ns
    pub same_path : node.fullpath ≡ n.fullpath

  Taken-behind :
      (n m : Node T) (ms : List (Node T))
      → cmp m.fullpath n.fullpath ≡ less
      → Taken n ms
      → Taken n (m ∷ ms)
  unfolding put
  Taken-behind n m ms l t = record {
    fails = rw (l, t.fails, put) refl;
    node = t.node;
    is_in = inr t.is_in;
    same_path = t.same_path;
  }

  pub put-cases :
      (n : Node T) (ns : List (Node T)) → ((ns' : List (Node T)) × Placed n ns ns') ⊎ Taken n ns
  unfolding put
  put-cases n [] = inl (n ∷ [], put-last n)
  put-cases n (m ∷ ms) = elim (Ordering-cases (cmp m.fullpath n.fullpath)) [
    | inl l ↦ elim (put-cases n ms) [
      | inl (ms', p) ↦ inl (m ∷ ms', put-behind n m ms ms' l p)
      | inr t ↦ inr (Taken-behind n m ms l t)
    ]
    | inr (inl e) ↦ inr (record {
      fails = rw (e, put) refl;
      node = m;
      is_in = inl refl;
      same_path = cmp-IsOrder.exact m.fullpath n.fullpath e;
    })
    | inr (inr g) ↦ inl (n ∷ m ∷ ms, put-before n m ms g)
  ]

  -- The directory that a path stands in is among the nodes.
  pub record Directory (p : PathBuf) (ns : List (Node T)) : Type 0 where
    pub above : PathBuf
    pub is_parent : parent p ≡ some above
    pub node : Node T
    pub is_in : IsIn node ns
    pub has_path : node.fullpath ≡ above
    pub directory : is_dir node.inner ≡ true

  -- The nodes are in order, and each but the root is in a directory.
  pub record IsTree (ns : List (Node T)) : Type 0 where
    pub sorted : Sorted ns
    pub directories :
        (m : Node T) → IsIn m ns → (parent m.fullpath ≡ none) ⊎ Directory m.fullpath ns

  -- Whether the directory of a path is found.
  abbrev pub has_directory : PathBuf → List (Node T) → Bool
  has_directory p ns = elim (parent p) [
    | none ↦ false
    | some q ↦ elim (find q ns) [ none ↦ false | some d ↦ is_dir d.inner ]
  ]

  pub record Inserted (n : Node T) (ns : List (Node T)) : Type 0 where
    pub nodes : List (Node T)
    pub inserts : insert n ns ≡ ok nodes
    pub is_tree : IsTree nodes
    pub found : find n.fullpath nodes ≡ some n
    pub kept : (m : Node T) → IsIn m ns → IsIn m nodes

  find-IsIn :
      (p : PathBuf) (d : Node T) (ns : List (Node T))
      → find p ns ≡ some d
      → IsIn d ns × (d.fullpath ≡ p)
  unfolding find
  find-IsIn p d [] e = absurd (none-ne-some d e)
  find-IsIn p d (m ∷ ms) e = elim (Ordering-cases (cmp m.fullpath p)) [
    | inl l ↦ let (i, s) = find-IsIn p d ms (sym (find-less p m ms l) ∙ e) in (inr i, s)
    | inr (inl q) ↦
        let here : m ≡ d = some-injective m d (sym (find-equal q) ∙ e) in
        (inl here, ap (λ t. t.fullpath) (sym here) ∙ cmp-IsOrder.exact m.fullpath p q)
    | inr (inr g) ↦ absurd (none-ne-some d (sym (find-greater g) ∙ e))
  ]
    where
      find-equal : cmp m.fullpath p ≡ equal → find p (m ∷ ms) ≡ some m
      find-equal q = rw (q, find) refl

      find-greater : cmp m.fullpath p ≡ greater → find p (m ∷ ms) ≡ none
      find-greater g = rw (g, find) refl

  node_mut-components : (p : PathBuf) (ns : List (Node T)) → node_mut (components p) ns ≡ find p ns
  unfolding node_mut
  node_mut-components p ns = rw (normalize-components p, node_mut) refl

  -- Where a directory for the path is found, the node is inserted as `put` does.
  insert-put :
      (n : Node T) (ns : List (Node T)) (q : PathBuf) (d : Node T)
      → parent n.fullpath ≡ some q
      → find q ns ≡ some d
      → is_dir d.inner ≡ true
      → insert n ns ≡ put n ns
  unfolding insert
  insert-put n ns q d e f g = rw (e, node_mut-components q ns, f, g) refl

  is_tree :
      (n : Node T) (ns ns' : List (Node T)) (q : PathBuf) (d : Node T)
      → IsTree ns
      → parent n.fullpath ≡ some q
      → find q ns ≡ some d
      → is_dir d.inner ≡ true
      → Placed n ns ns'
      → IsTree ns'
  is_tree n ns ns' q d t e f g p = record {
    sorted = p.sorted t.sorted;
    directories = λ m h. elim (p.only m h) [
      | inl s ↦ inr (subst (λ k. Directory k.fullpath ns') (sym s) new)
      | inr old ↦ elim (t.directories m old) [
        | inl root ↦ inl root
        | inr there ↦ inr (keep m.fullpath there)
      ]
    ];
  }
    where
      new : Directory n.fullpath ns'
      new =
          let (i, s) = find-IsIn q d ns f in
          record {
            above = q;
            is_parent = e;
            node = d;
            is_in = p.kept d i;
            has_path = s;
            directory = g;
          }

      keep : (k : PathBuf) → Directory k ns → Directory k ns'
      keep k x = record {
        above = x.above;
        is_parent = x.is_parent;
        node = x.node;
        is_in = p.kept x.node x.is_in;
        has_path = x.has_path;
        directory = x.directory;
      }

  -- All ways in which a call ends.
  abbrev pub Outcome : Node T → List (Node T) → Type 0
  Outcome n ns =
      Inserted n ns
      ⊎ (insert n ns ≡ err duplicated_file_name) × Taken n ns
      ⊎ (insert n ns ≡ err invalid_file_path) × (has_directory n.fullpath ns ≡ false)

  in_directory :
      (n : Node T) (ns : List (Node T)) (q : PathBuf) (d : Node T)
      → IsTree ns
      → parent n.fullpath ≡ some q
      → find q ns ≡ some d
      → is_dir d.inner ≡ true
      → Outcome n ns
  in_directory n ns q d t e f g = elim (put-cases n ns) [
    | inl (ns', p) ↦ inl (record {
      nodes = ns';
      inserts = insert-put n ns q d e f g ∙ p.returns;
      is_tree = is_tree n ns ns' q d t e f g p;
      found = p.found;
      kept = p.kept;
    })
    | inr taken ↦ inr (inl (insert-put n ns q d e f g ∙ taken.fails, taken))
  ]

  -- A call on a tree inserts the node, and leaves a tree; or it fails, since the path is taken; or it
  -- fails, since the path's directory is not there.
  pub insert-cases : (n : Node T) (ns : List (Node T)) → IsTree ns → Outcome n ns
  unfolding insert
  insert-cases n ns t = elim (Option-cases (parent n.fullpath)) [
    | inl root ↦ inr (inr (rw root refl, rw (root, has_directory) refl))
    | inr (q, e) ↦ elim (Option-cases (find q ns)) [
      | inl missing ↦ inr (
          inr (
            rw (e, node_mut-components q ns, missing) refl,
            rw (e, has_directory) (rw missing refl),
          ))
      | inr (d, f) ↦ elim (Bool-cases (is_dir d.inner)) [
        | inl g ↦ in_directory n ns q d t e f g
        | inr other ↦ inr (
            inr
              (rw (e, node_mut-components q ns, f, other) refl, rw (e, has_directory) (rw f other)))
      ]
    ]
  ]
