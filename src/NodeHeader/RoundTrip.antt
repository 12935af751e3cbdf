-- ===== src/NodeHeader/RoundTrip.antt =====
-- A node's header goes through the id table and back, backhand/src/filesystem/node.rs and
-- `lookup_add_id` of backhand/src/filesystem/writer.rs.
use backhand.Common.{
  ℕ, suc, ◌%◌, ◌^◌, ◌≤◌, ◌<◌, ◌==◌, ◌≡◌, refl, sym, ap, ◌∙◌, ==_iff, ==_refl, false, Bool-cases,
  Option-cases, ◌⊎◌, inl, inr, none, some, List, [], ◌∷◌, ◌++◌, length, get_elem?, arith,
}
use mathlib.Core.Bool.{true≢false}
use backhand.Error.{ok, ◌>>=◌}
use backhand.NodeHeader.{
  NodeHeader, OwnerId, from_inode, position, inode_header, lookup_add_id, add_ids,
}

-- An id has a place in the table, and that id stands there.
record Place (n : ℕ) (ids : List OwnerId) : Type 0 where
  at : ℕ
  found : position n ids ≡ some at
  is_there : get_elem? ids at ≡ some (record { num = n })
  inside : at < length ids

Place-here : (n m : ℕ) (ids : List OwnerId) → m ≡ n → Place n (record { num = m } ∷ ids)
unfolding position
Place-here n m ids e = record {
  at = 0;
  found = rw (e, ==_refl n) refl;
  is_there = ap (λ (t : ℕ). some (record { num = t })) e;
  inside = omega arith;
}

Place-there :
    (n m : ℕ) (ids : List OwnerId)
    → (m == n) ≡ false
    → Place n ids
    → Place n (record { num = m } ∷ ids)
unfolding position
Place-there n m ids ne p = record {
  at = suc p.at;
  found = rw (ne, p.found) refl;
  is_there = p.is_there;
  inside = omega (arith, p.inside);
}

abbrev IsIn : ℕ → List OwnerId → Type 0
IsIn n [] = ⊥
IsIn n (i ∷ ids) = (i.num ≡ n) ⊎ IsIn n ids

Place-IsIn : (n : ℕ) (ids : List OwnerId) → IsIn n ids → Place n ids
Place-IsIn n [] h = absurd h
Place-IsIn n (i ∷ ids) h = elim (Bool-cases (i.num == n)) [
  | inl same ↦ Place-here n i.num ids ((==_iff i.num n).0 same)
  | inr other ↦ Place-there n i.num ids other (Place-IsIn n ids (later h other))
]
  where
    later : (i.num ≡ n) ⊎ IsIn n ids → (i.num == n) ≡ false → IsIn n ids
    later (inl e) other = absurd (true≢false (sym ((==_iff i.num n).1 e) ∙ other))
    later (inr m) other = m

-- A table that grows keeps its ids.
IsIn-append : (n : ℕ) (ids more : List OwnerId) → IsIn n ids → IsIn n (ids ++ more)
IsIn-append n [] more h = absurd h
IsIn-append n (i ∷ ids) more (inl e) = inl e
IsIn-append n (i ∷ ids) more (inr h) = inr (IsIn-append n ids more h)

IsIn-last : (n : ℕ) (ids : List OwnerId) → IsIn n (ids ++ record { num = n } ∷ [])
IsIn-last n [] = inl refl
IsIn-last n (i ∷ ids) = inr (IsIn-last n ids)

no_some : (k : ℕ) → none ≡ some k → ⊥
no_some k e = ground arith

IsIn-position : (n k : ℕ) (ids : List OwnerId) → position n ids ≡ some k → IsIn n ids
unfolding position
IsIn-position n k [] e = absurd (no_some k e)
IsIn-position n k (i ∷ ids) e = elim (Bool-cases (i.num == n)) [
  | inl same ↦ inl ((==_iff i.num n).0 same)
  | inr other ↦ elim (Option-cases (position n ids)) [
    | inl missing ↦ absurd (no_some k (sym (position-there other missing) ∙ e))
    | inr (m, found) ↦ inr (IsIn-position n m ids found)
  ]
]
  where
    position-there : (i.num == n) ≡ false → position n ids ≡ none → position n (i ∷ ids) ≡ none
    position-there other missing = rw (other, missing) refl

-- The table afterwards has the ids that it had, and the new one.
IsIn-lookup_add_id :
    (n m : ℕ) (ids : List OwnerId) → (n ≡ m) ⊎ IsIn n ids → IsIn n (lookup_add_id ids m).0
unfolding lookup_add_id
IsIn-lookup_add_id n m ids h = elim (Option-cases (position m ids)) [
  | inl missing ↦
      rw (missing, lookup_add_id)
        (elim h [
          | inl e ↦ rw e (IsIn-last m ids)
          | inr old ↦ IsIn-append n ids (record { num = m } ∷ []) old
        ])
  | inr (k, found) ↦
      rw (found, lookup_add_id)
        (elim h [ inl e ↦ rw e (IsIn-position m k ids found) | inr old ↦ old ])
]

module _ (h : NodeHeader) (inode : ℕ) (id_table more : List OwnerId) where
  -- The header of a node whose ids were added to the table is written into an inode and comes back
  -- from that inode, whatever was added after it, as long as the table has 2^16 ids at most.
  pub from_inode-inode_header :
      length (add_ids h id_table ++ more) ≤ 2 ^ 16
      → let t = add_ids h id_table ++ more in
        (inode_header h inode t >>= λ i. from_inode i t) ≡ ok h
  unfolding inode_header from_inode add_ids
  from_inode-inode_header small =
      let t = add_ids h id_table ++ more in
      let gid_in =
        IsIn-lookup_add_id h.gid h.uid (lookup_add_id id_table h.gid).0
          (inr (IsIn-lookup_add_id h.gid h.gid id_table (inl refl))) in
      let uid_in = IsIn-lookup_add_id h.uid h.uid (lookup_add_id id_table h.gid).0 (inl refl) in
      let u = Place-IsIn h.uid t (IsIn-append h.uid (add_ids h id_table) more uid_in) in
      let g = Place-IsIn h.gid t (IsIn-append h.gid (add_ids h id_table) more gid_in) in
      let u16 : u.at % 2 ^ 16 ≡ u.at = omega (arith, u.inside) in
      let g16 : g.at % 2 ^ 16 ≡ g.at = omega (arith, g.inside) in
      rw (u.found, g.found, u16, g16, u.is_there, g.is_there) refl
