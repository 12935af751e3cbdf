-- ===== src/Writer/Push.antt =====
-- Putting nodes into the tree of a `FilesystemWriter`, backhand/src/filesystem/writer.rs: whether a
-- call ends well or not, the nodes are a tree afterwards.
use backhand.Common.{◌≡◌, refl, sym, ◌∙◌, Bool-cases, inl, inr, Option-cases, List, [], ◌∷◌}
use mathlib.Core.Path.{subst}
use backhand.Error.{BackhandError, Result, ok, err, panics, diverges, ok-injective, Returns}
use backhand.NodeHeader.{NodeHeader, add_ids}
use backhand.Tree.{
  Component, PathBuf, components, normalize_squashfs_path, InnerNode, dir, Node, is_dir, find,
  insert,
}
use backhand.Tree.Insert.{IsTree, insert-cases}
use backhand.Writer.{
  SquashfsFileWriter, FilesystemWriter, Call, with_value, and_then, insert_node, push_dir,
  push_dirs, push_dir_all, prefixes,
}

err_ok {ℓ} : {A : Type ℓ} {e : BackhandError} {a : A} → err e ≡ ok a → ⊥
err_ok x = subst (λ r. Returns r (λ _. Unit)) (sym x) tt

module _ (header : NodeHeader) where
  -- A tree stays one, for all ways in which a call ends.
  with_value-IsTree {ℓ} :
      {A : Type ℓ} (r : Result A) (w : FilesystemWriter) (f : A → Call)
      → IsTree w.root
      → ((a : A) → r ≡ ok a → IsTree (f a).1.root)
      → IsTree (with_value r w f).1.root
  with_value-IsTree (ok a) w f t g = g a refl
  with_value-IsTree (err e) w f t g = t
  with_value-IsTree panics w f t g = t
  with_value-IsTree diverges w f t g = t

  and_then-IsTree :
      (c : Call) (f : FilesystemWriter → Call)
      → IsTree c.1.root
      → ((w : FilesystemWriter) → IsTree w.root → IsTree (f w).1.root)
      → IsTree (and_then c f).1.root
  and_then-IsTree (ok u, w) f t g = g w t
  and_then-IsTree (err e, w) f t g = t
  and_then-IsTree (panics, w) f t g = t
  and_then-IsTree (diverges, w) f t g = t

  insert-IsTree :
      (n : Node SquashfsFileWriter) (ns ns' : List (Node SquashfsFileWriter))
      → IsTree ns
      → insert n ns ≡ ok ns'
      → IsTree ns'
  insert-IsTree n ns ns' t e = elim (insert-cases n ns t) [
    | inl i ↦ subst IsTree (ok-injective (sym i.inserts ∙ e)) i.is_tree
    | inr (inl (f, _)) ↦ absurd (err_ok (sym f ∙ e))
    | inr (inr (f, _)) ↦ absurd (err_ok (sym f ∙ e))
  ]

  -- From nodes that are a tree, `insert_node` leaves a tree, for every path and every kind of node,
  -- whether the call ends well or not.
  pub insert_node-IsTree :
      (path : List Component) (inner : InnerNode SquashfsFileWriter) (w : FilesystemWriter)
      → IsTree w.root
      → IsTree (insert_node path header inner w).1.root
  unfolding insert_node
  insert_node-IsTree path inner w t =
      let w' : FilesystemWriter = record w { id_table = add_ids header w.id_table } in
      with_value-IsTree (normalize_squashfs_path path) w' _ t (λ p _.
        with_value-IsTree (insert (record { fullpath = p; header = header; inner = inner }) w.root)
          w' _ t
          (λ nodes e.
            insert-IsTree (record { fullpath = p; header = header; inner = inner }) w.root nodes t
              e))

  push_dirs-IsTree :
      (ps : List PathBuf) (w : FilesystemWriter)
      → IsTree w.root
      → IsTree (push_dirs ps header w).1.root
  unfolding push_dirs push_dir
  push_dirs-IsTree [] w t = t
  push_dirs-IsTree (p ∷ ps) w t = elim (Option-cases (find p w.root)) [
    | inl missing ↦
        rw (missing, push_dirs)
          (and_then-IsTree (push_dir (components p) header w) (λ w'. push_dirs ps header w')
            (insert_node-IsTree (components p) dir w t) (λ w' t'. push_dirs-IsTree ps w' t'))
    | inr (n, found) ↦ elim (Bool-cases (is_dir n.inner)) [
      | inl d ↦ rw (found, push_dirs) (rw d (push_dirs-IsTree ps w t))
      | inr other ↦ rw (found, push_dirs) (rw other t)
    ]
  ]

  -- From nodes that are a tree, `push_dir_all` leaves a tree for every path, also where it ends with
  -- an error after it has made some of the directories.
  pub push_dir_all-IsTree :
      (path : List Component) (w : FilesystemWriter)
      → IsTree w.root
      → IsTree (push_dir_all path header w).1.root
  unfolding push_dir_all
  push_dir_all-IsTree path w t =
      with_value-IsTree (normalize_squashfs_path path) w _ t
        (λ p _. push_dirs-IsTree (prefixes p) w t)
