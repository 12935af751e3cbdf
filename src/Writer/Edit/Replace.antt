-- ===== src/Writer/Edit/Replace.antt =====
-- Replacing a file, `replace_file` of backhand/src/filesystem/writer.rs: the node of the path gets the
-- new file, and every other path keeps its node.
use backhand.Common.{
  ◌≡◌, ◌≢◌, refl, sym, ap, ◌∙◌, true, false, Bool-cases, ◌⊎◌, inl, inr, none, some, List, [], ◌∷◌,
}
use backhand.Data.{ReadEvent}
use backhand.Error.{ok, err, file_not_found}
use backhand.Tree.{PathBuf, cmp, less, equal, greater, components, file, Node, find}
use backhand.Tree.Paths.{normalize-components, Ordering-cases, cmp-IsOrder}
use backhand.Writer.{SquashfsFileWriter, user_defined, FilesystemWriter}
use backhand.Writer.Edit.{is_file, change_file, mut_file, replace_file}

abbrev pub Nodes : Type 0
Nodes = List (Node SquashfsFileWriter)

-- The nodes after a file was replaced.
pub record Changed (p : PathBuf) (new : SquashfsFileWriter) (ns ns' : Nodes) : Type 0 where
  pub node : Node SquashfsFileWriter
  pub was : find p ns ≡ some node
  pub was_file : is_file node.inner ≡ true
  pub now : find p ns' ≡ some (record node { inner = file new })
  pub others : (q : PathBuf) → p ≢ q → find q ns' ≡ find q ns

-- The path has no node that is a file.
abbrev pub NoFile : PathBuf → Nodes → Type 0
NoFile p ns =
    (find p ns ≡ none)
    ⊎ ((n : Node SquashfsFileWriter) × (find p ns ≡ some n) × (is_file n.inner ≡ false))

abbrev pub Change : PathBuf → SquashfsFileWriter → Nodes → Type 0
Change p new ns =
    ((ns' : Nodes) × (change_file p new ns ≡ some ns') × Changed p new ns ns')
    ⊎ (change_file p new ns ≡ none) × NoFile p ns

module _ (p : PathBuf) (new : SquashfsFileWriter) where
  -- Behind a lesser path
  behind :
      (n : Node SquashfsFileWriter) (ns : Nodes)
      → cmp n.fullpath p ≡ less
      → Change p new ns
      → Change p new (n ∷ ns)
  unfolding change_file find
  behind n ns l (inl (ns', e, c)) = inl (
    n ∷ ns',
    rw (l, e, change_file) refl,
    record {
      node = c.node;
      was = rw (l, find) c.was;
      was_file = c.was_file;
      now = rw (l, find) c.now;
      others = λ q h.
          ap (λ t. elim (cmp n.fullpath q) [ less ↦ t | equal ↦ some n | greater ↦ none ])
            (c.others q h);
    },
  )
  behind n ns l (inr (e, inl m)) = inr (rw (l, e, change_file) refl, inl (rw (l, find) m))
  behind n ns l (inr (e, inr (k, f, g))) =
      inr (rw (l, e, change_file) refl, inr (k, rw (l, find) f, g))

  here :
      (n : Node SquashfsFileWriter) (ns : Nodes)
      → cmp n.fullpath p ≡ equal
      → is_file n.inner ≡ true
      → Changed p new (n ∷ ns) (record n { inner = file new } ∷ ns)
  unfolding find
  here n ns e f = record {
    node = n;
    was = rw (e, find) refl;
    was_file = f;
    now = rw (e, find) refl;
    others = λ q h. elim (Ordering-cases (cmp n.fullpath q)) [
      | inl l ↦ rw (l, find) refl
      | inr (inl same) ↦
          absurd (h (sym (cmp-IsOrder.exact n.fullpath p e) ∙ cmp-IsOrder.exact n.fullpath q same))
      | inr (inr g) ↦ rw (g, find) refl
    ];
  }

  change_file-cases : (ns : Nodes) → Change p new ns
  unfolding change_file find
  change_file-cases [] = inr (refl, inl refl)
  change_file-cases (n ∷ ns) = elim (Ordering-cases (cmp n.fullpath p)) [
    | inl l ↦ behind n ns l (change_file-cases ns)
    | inr (inl e) ↦ elim (Bool-cases (is_file n.inner)) [
      | inl f ↦ inl (record n { inner = file new } ∷ ns, rw (e, f, change_file) refl, here n ns e f)
      | inr f ↦ inr (rw (e, f, change_file) refl, inr (n, rw (e, find) refl, f))
    ]
    | inr (inr g) ↦ inr (rw (g, change_file) refl, inl (rw (g, find) refl))
  ]

-- A call with a normalized path ends in one of two ways. The path's node is a file: then that node
-- gets the reader for its file and keeps its path and header, every other path finds what it found
-- before, and the writer is the same else. Or the path has no node that is a file: then the call
-- fails with `FileNotFound`.
pub replace_file-cases :
    (p : PathBuf) (reader : List ReadEvent) (w : FilesystemWriter)
    → ((ns : Nodes) × (replace_file (components p) reader w ≡ ok (record w { root = ns }))
        × Changed p (user_defined reader) w.root ns)
      ⊎ (replace_file (components p) reader w ≡ err file_not_found) × NoFile p w.root
unfolding replace_file mut_file
replace_file-cases p reader w = elim (change_file-cases p (user_defined reader) w.root) [
  | inl (ns, e, c) ↦ inl (ns, rw (normalize-components p, e, replace_file) refl, c)
  | inr (e, m) ↦ inr (rw (normalize-components p, e, replace_file) refl, m)
]
