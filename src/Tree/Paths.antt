-- ===== src/Tree/Paths.antt =====
-- Paths of backhand/src/filesystem.rs: what they are normalized to, and the order of paths
-- that the nodes of backhand/src/filesystem/node.rs stand in.
use backhand.Common.{
  some, Bool, zero, suc, ℕ, ◌≡◌, refl, sym, ap, ◌∙◌, ltb, ltb→lt, ltb→le, le→ltb, true, false,
  Bool-cases, ◌⊎◌, inl, inr, List, [], ◌∷◌, ◌++◌, map, append_assoc, append-nil, arith,
}
use backhand.Error.{ok, err, invalid_file_path}
use backhand.Tree.{
  Name, PathBuf, Component, prefix, root_dir, cur_dir, parent_dir, normal, parent, pop, resolve,
  normalize_squashfs_path, components, Ordering, less, equal, greater, cmp_number, cmp_list, cmp,
}

resolve-names : (ret p : PathBuf) → resolve ret (map normal p) ≡ ok (ret ++ p)
unfolding resolve
resolve-names ret [] = rw (append-nil ret) refl
resolve-names ret (c ∷ cs) = resolve-names (ret ++ c ∷ []) cs ∙ ap ok (append_assoc ret (c ∷ []) cs)

pub normalize-components : (p : PathBuf) → normalize_squashfs_path (components p) ≡ ok p
unfolding normalize_squashfs_path components resolve
normalize-components p = resolve-names [] p

pub parent-append : (p : PathBuf) (c : Name) → parent (p ++ c ∷ []) ≡ some p
unfolding parent
parent-append [] c = refl
parent-append (a ∷ []) c = refl
parent-append (a ∷ b ∷ p) c = rw (parent-append (b ∷ p) c, parent) refl

pub pop-append : (p : PathBuf) (c : Name) → pop (p ++ c ∷ []) ≡ p
unfolding pop
pop-append p c = rw (parent-append p c, pop) refl

abbrev pub has_prefix : List Component → Bool
has_prefix [] = false
has_prefix (prefix p ∷ cs) = true
has_prefix (root_dir ∷ cs) = has_prefix cs
has_prefix (cur_dir ∷ cs) = has_prefix cs
has_prefix (parent_dir ∷ cs) = has_prefix cs
has_prefix (normal c ∷ cs) = has_prefix cs

-- A name is kept where no `..` behind it is left over to take it away.
abbrev pub keep : Name → ℕ × PathBuf → ℕ × PathBuf
keep c (zero, names) = (0, c ∷ names)
keep c (suc ups, names) = (ups, names)

-- A path read from its end: how many of its `..` have found no name before them, and the names that
-- no `..` takes away, in their order.
abbrev pub remaining : List Component → ℕ × PathBuf
remaining [] = (0, [])
remaining (prefix p ∷ cs) = remaining cs
remaining (root_dir ∷ cs) = remaining cs
remaining (cur_dir ∷ cs) = remaining cs
remaining (parent_dir ∷ cs) = (suc (remaining cs).0, (remaining cs).1)
remaining (normal c ∷ cs) = keep c (remaining cs)

abbrev pops : ℕ → PathBuf → PathBuf
pops zero p = p
pops (suc n) p = pops n (pop p)

pops-root : (n : ℕ) → pops n [] ≡ []
unfolding pop parent
pops-root zero = refl
pops-root (suc n) = pops-root n

keep-pops :
    (ret : PathBuf) (c : Name) (left : ℕ × PathBuf)
    → pops left.0 (ret ++ c ∷ []) ++ left.1 ≡ pops (keep c left).0 ret ++ (keep c left).1
keep-pops ret c (zero, names) = append_assoc ret (c ∷ []) names
keep-pops ret c (suc ups, names) = rw (pop-append ret c) refl

resolve-remaining :
    (ret : PathBuf) (cs : List Component)
    → has_prefix cs ≡ false
    → resolve ret cs ≡ ok (pops (remaining cs).0 ret ++ (remaining cs).1)
unfolding resolve
resolve-remaining ret [] h = ap ok (sym (append-nil ret))
resolve-remaining ret (prefix p ∷ cs) h = cc
resolve-remaining ret (root_dir ∷ cs) h = resolve-remaining ret cs h
resolve-remaining ret (cur_dir ∷ cs) h = resolve-remaining ret cs h
resolve-remaining ret (parent_dir ∷ cs) h = resolve-remaining (pop ret) cs h
resolve-remaining ret (normal c ∷ cs) h =
    resolve-remaining (ret ++ c ∷ []) cs h ∙ ap ok (keep-pops ret c (remaining cs))

resolve-prefix :
    (ret : PathBuf) (cs : List Component)
    → has_prefix cs ≡ true
    → resolve ret cs ≡ err invalid_file_path
unfolding resolve
resolve-prefix ret [] h = cc
resolve-prefix ret (prefix p ∷ cs) h = refl
resolve-prefix ret (root_dir ∷ cs) h = resolve-prefix ret cs h
resolve-prefix ret (cur_dir ∷ cs) h = resolve-prefix ret cs h
resolve-prefix ret (parent_dir ∷ cs) h = resolve-prefix (pop ret) cs h
resolve-prefix ret (normal c ∷ cs) h = resolve-prefix (ret ++ c ∷ []) cs h

-- Every path: one with a prefix anywhere in it is invalid; any other is normalized to the names that
-- remain when the path is read from its end and each `..` takes away the nearest name before it that
-- is still there, if there is one.
pub normalize-remaining :
    (src : List Component)
    → (has_prefix src ≡ true) × (normalize_squashfs_path src ≡ err invalid_file_path)
      ⊎ (has_prefix src ≡ false) × (normalize_squashfs_path src ≡ ok (remaining src).1)
unfolding normalize_squashfs_path
normalize-remaining src = elim (Bool-cases (has_prefix src)) [
  | inl h ↦ inl (h, resolve-prefix [] src h)
  | inr h ↦ inr (
    h,
    resolve-remaining [] src h
        ∙ ap (λ t. ok (t ++ (remaining src).1)) (pops-root (remaining src).0),
  )
]

abbrev pub flip : Ordering → Ordering
flip less = greater
flip equal = equal
flip greater = less

pub Ordering-cases : (o : Ordering) → (o ≡ less) ⊎ (o ≡ equal) ⊎ (o ≡ greater)
Ordering-cases less = inl refl
Ordering-cases equal = inr (inl refl)
Ordering-cases greater = inr (inr refl)

pub less_equal : less ≡ equal → ⊥
less_equal e = ground arith

pub greater_equal : greater ≡ equal → ⊥
greater_equal e = ground arith

pub record IsOrder {ℓ} {A : Type ℓ} (c : A → A → Ordering) : Type ℓ where
  pub same : (x : A) → c x x ≡ equal
  pub flips : (x y : A) → c y x ≡ flip (c x y)
  pub exact : (x y : A) → c x y ≡ equal → x ≡ y

cmp_number-IsOrder : IsOrder cmp_number
unfolding cmp_number
cmp_number-IsOrder = record {
  same = λ x. rw (le→ltb x x (omega arith)) refl;
  flips = flips;
  exact = exact;
}
  where
    flips : (x y : ℕ) → cmp_number y x ≡ flip (cmp_number x y)
    flips x y = elim (Bool-cases (ltb x y)) [
      | inl a ↦ rw (a, le→ltb y x (omega (arith, ltb→lt x y a)), cmp_number) refl
      | inr a ↦ elim (Bool-cases (ltb y x)) [
        | inl b ↦ rw (a, b, cmp_number) refl
        | inr b ↦ rw (a, b, cmp_number) refl
      ]
    ]

    exact : (x y : ℕ) → cmp_number x y ≡ equal → x ≡ y
    exact x y e = elim (Bool-cases (ltb x y)) [
      | inl a ↦ absurd (less_equal (sym (lower a) ∙ e))
      | inr a ↦ elim (Bool-cases (ltb y x)) [
        | inl b ↦ absurd (greater_equal (sym (higher a b) ∙ e))
        | inr b ↦ omega (arith, ltb→le x y a, ltb→le y x b)
      ]
    ]
      where
        lower : ltb x y ≡ true → cmp_number x y ≡ less
        lower a = rw (a, cmp_number) refl

        higher : ltb x y ≡ false → ltb y x ≡ true → cmp_number x y ≡ greater
        higher a b = rw (a, b, cmp_number) refl

module _ {ℓ} {A : Type ℓ} (c : A → A → Ordering) (o : IsOrder c) where
  cmp_list-less : (x y : A) (xs ys : List A) → c x y ≡ less → cmp_list c (x ∷ xs) (y ∷ ys) ≡ less
  unfolding cmp_list
  cmp_list-less x y xs ys e = rw (e, cmp_list) refl

  cmp_list-equal :
      (x y : A) (xs ys : List A) → c x y ≡ equal → cmp_list c (x ∷ xs) (y ∷ ys) ≡ cmp_list c xs ys
  unfolding cmp_list
  cmp_list-equal x y xs ys e = rw (e, cmp_list) refl

  cmp_list-greater :
      (x y : A) (xs ys : List A) → c x y ≡ greater → cmp_list c (x ∷ xs) (y ∷ ys) ≡ greater
  unfolding cmp_list
  cmp_list-greater x y xs ys e = rw (e, cmp_list) refl

  same_list : (xs : List A) → cmp_list c xs xs ≡ equal
  unfolding cmp_list
  same_list [] = refl
  same_list (x ∷ xs) = cmp_list-equal x x xs xs (o.same x) ∙ same_list xs

  flips_list : (xs ys : List A) → cmp_list c ys xs ≡ flip (cmp_list c xs ys)
  unfolding cmp_list
  flips_list [] [] = refl
  flips_list [] (y ∷ ys) = refl
  flips_list (x ∷ xs) [] = refl
  flips_list (x ∷ xs) (y ∷ ys) = elim (Ordering-cases (c x y)) [
    | inl l ↦
        cmp_list-greater y x ys xs (o.flips x y ∙ ap flip l)
        ∙ sym (ap flip (cmp_list-less x y xs ys l))
    | inr (inl e) ↦
        cmp_list-equal y x ys xs (o.flips x y ∙ ap flip e)
        ∙ flips_list xs ys
        ∙ sym (ap flip (cmp_list-equal x y xs ys e))
    | inr (inr g) ↦
        cmp_list-less y x ys xs (o.flips x y ∙ ap flip g)
        ∙ sym (ap flip (cmp_list-greater x y xs ys g))
  ]

  exact_list : (xs ys : List A) → cmp_list c xs ys ≡ equal → xs ≡ ys
  unfolding cmp_list
  exact_list [] [] e = refl
  exact_list [] (y ∷ ys) e = absurd (less_equal e)
  exact_list (x ∷ xs) [] e = absurd (greater_equal e)
  exact_list (x ∷ xs) (y ∷ ys) e = elim (Ordering-cases (c x y)) [
    | inl l ↦ absurd (less_equal (sym (cmp_list-less x y xs ys l) ∙ e))
    | inr (inl s) ↦
        let tails : xs ≡ ys = exact_list xs ys (sym (cmp_list-equal x y xs ys s) ∙ e) in
        ap (λ (t : List A). x ∷ t) tails ∙ ap (λ (h : A). h ∷ ys) (o.exact x y s)
    | inr (inr g) ↦ absurd (greater_equal (sym (cmp_list-greater x y xs ys g) ∙ e))
  ]

  pub cmp_list-IsOrder : IsOrder (cmp_list c)
  cmp_list-IsOrder = record { same = same_list; flips = flips_list; exact = exact_list }

-- Paths are ordered, a name at a time.
pub cmp-IsOrder : IsOrder cmp
unfolding cmp
cmp-IsOrder =
    cmp_list-IsOrder (cmp_list cmp_number) (cmp_list-IsOrder cmp_number cmp_number-IsOrder)
