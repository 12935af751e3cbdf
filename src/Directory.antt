-- ===== src/Directory.antt =====
-- Directory tables: `Dir` and `DirEntry` of backhand/src/dir.rs, and the listing that
-- backhand/src/entry.rs makes of a directory's entries.
--
-- The 16 bits of an `i16` are kept as the number below 65536 that they spell.
pub mod Bytes
pub mod Listing
pub mod Ends
mod Tests
use backhand.Common.{
  ℕ, ◌+◌, ◌-◌, ◌%◌, ◌^◌, ltb, leb, ◌==◌, not, ◌||◌, ◌&&◌, if◌then◌else◌, Bool, true, false, List,
  [], ◌∷◌, ◌++◌, length,
}
use backhand.Error.{Result, ok, panics, ◌>>=◌, ◌>>◌, assert}
use backhand.Inode.{InodeId, into_base_type}

-- What a node's inode leaves for its parent's directory.
pub record Entry : Type 0 where
  pub start : ℕ
  pub offset : ℕ
  pub inode : ℕ
  pub t : InodeId
  pub name_size : ℕ
  pub name : List ℕ

pub record DirEntry : Type 0 where
  pub offset : ℕ
  pub inode_offset : ℕ
  pub t : InodeId
  pub name_size : ℕ
  pub name : List ℕ

pub record Dir : Type 0 where
  pub count : ℕ
  pub start : ℕ
  pub inode_num : ℕ
  pub dir_entries : List DirEntry

-- `Dir::new`
unfoldable pub new : ℕ → Dir
new lowest_inode = record { count = 0; start = 0; inode_num = lowest_inode; dir_entries = [] }

-- `Dir::push`
unfoldable pub push : Dir → DirEntry → Dir
push d entry =
    let entries = d.dir_entries ++ entry ∷ [] in
    record d { dir_entries = entries; count = (length entries - 1) % 2 ^ 32 }

-- Whether `(inode - lowest_inode).try_into().unwrap()`, from a `u32` to an `i16`, has a value: the
-- difference is not below zero, and fits.
abbrev pub in_reach : ℕ → ℕ → Bool
in_reach inode lowest_inode = leb lowest_inode inode && leb (inode - lowest_inode) 0x7fff

unfoldable pub push_entries : Dir → List Entry → ℕ → Result Dir
unfolding push
push_entries d [] lowest_inode = ok d
push_entries d (e ∷ es) lowest_inode = do
  assert (in_reach e.inode lowest_inode)
  push_entries
      (push d (record {
        offset = e.offset;
        inode_offset = e.inode - lowest_inode;
        t = into_base_type e.t;
        name_size = e.name_size;
        name = e.name;
      }))
      es lowest_inode

-- `Entry::create_dir`
unfoldable pub create_dir : List Entry → ℕ → ℕ → Result Dir
unfolding push_entries new
create_dir creating_dir start lowest_inode = do
  assert (ltb (length creating_dir) 256)
  push_entries (record (new lowest_inode) { count = length creating_dir; start = start })
      creating_dir lowest_inode

abbrev pub u32_max : ℕ
u32_max = 0xffff_ffff

-- `if e.inode < lowest_inode { lowest_inode = e.inode }`
abbrev pub lower : ℕ → Entry → ℕ
lower lowest_inode e = if ltb e.inode lowest_inode then e.inode else lowest_inode

abbrev pub abs_diff : ℕ → ℕ → ℕ
abs_diff a b = if ltb a b then b - a else a - b

-- Whether the next entry opens a new `Dir`.
unfoldable pub splits : List Entry → ℕ → ℕ → Entry → Bool
splits creating_dir creating_start lowest_inode next =
    not (next.start == creating_start)
    || leb 255 (length creating_dir)
    || ltb 0x7fff (abs_diff next.inode lowest_inode)

-- The loop of `into_dir`, from where an entry has been pushed on `creating_dir`. The list is what
-- `iter` has not given yet.
unfoldable pub dirs_from : List Entry → ℕ → ℕ → List Entry → Result (List Dir)
unfolding create_dir splits
dirs_from creating_dir creating_start lowest_inode [] =
    create_dir creating_dir creating_start lowest_inode >>= λ dir. ok (dir ∷ [])
dirs_from creating_dir creating_start lowest_inode (next ∷ rest) =
    elim (splits creating_dir creating_start lowest_inode next) [
      | true ↦ create_dir creating_dir creating_start lowest_inode >>= λ dir.
          dirs_from (next ∷ []) next.start (lower u32_max next) rest >>= λ dirs. ok (dir ∷ dirs)
      | false ↦ dirs_from (creating_dir ++ next ∷ []) creating_start (lower lowest_inode next) rest
    ]

-- `Entry::into_dir`
unfoldable pub into_dir : List Entry → Result (List Dir)
unfolding dirs_from
into_dir [] = ok []
into_dir (e ∷ es) = dirs_from (e ∷ []) e.start (lower u32_max e) es
