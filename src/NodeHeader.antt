-- ===== src/NodeHeader.antt =====
-- The header of a filesystem node, `NodeHeader` of backhand/src/filesystem/node.rs and the `Id` of
-- backhand/src/id.rs: user and group are kept in a table, and an inode keeps their places in it.
pub mod RoundTrip
mod Tests
use backhand.Common.{
  ℕ, zero, suc, ◌+◌, ◌%◌, ◌^◌, ◌==◌, if◌then◌else◌, Bool, true, false, Option, none, some, List, [],
  ◌∷◌, get_elem?, length, ◌++◌,
}
use backhand.Error.{Result, ok, err, panics, ◌>>=◌, invalid_id_table}
use backhand.Inode.{InodeHeader}

pub record NodeHeader : Type 0 where
  pub permissions : ℕ
  pub uid : ℕ
  pub gid : ℕ
  pub mtime : ℕ

pub record OwnerId : Type 0 where
  pub num : ℕ

-- `id_table.get(i).ok_or(BackhandError::InvalidIdTable)`
abbrev pub ok_or_invalid : Option OwnerId → Result OwnerId
ok_or_invalid none = err invalid_id_table
ok_or_invalid (some i) = ok i

-- `NodeHeader::from_inode`
unfoldable pub from_inode : InodeHeader → List OwnerId → Result NodeHeader
from_inode h id_table = do
  uid ← ok_or_invalid (get_elem? id_table h.uid)
  gid ← ok_or_invalid (get_elem? id_table h.gid)
  ok (record { permissions = h.permissions; uid = uid.num; gid = gid.num; mtime = h.mtime })

-- `id_table.iter().position(|a| a.num == n)`
unfoldable pub position : ℕ → List OwnerId → Option ℕ
position n [] = none
position n (i ∷ ids) =
    let rest = position n ids in
    if i.num == n then some 0 else (elim rest [ none ↦ none | some k ↦ some (suc k) ])

-- `.unwrap() as u16`
abbrev pub unwrap_u16 : Option ℕ → Result ℕ
unwrap_u16 none = panics
unwrap_u16 (some k) = ok (k % 2 ^ 16)

-- The `InodeHeader` that each constructor of backhand/src/entry.rs makes first.
unfoldable pub inode_header : NodeHeader → ℕ → List OwnerId → Result InodeHeader
unfolding position
inode_header h inode id_table = do
  uid ← unwrap_u16 (position h.uid id_table)
  gid ← unwrap_u16 (position h.gid id_table)
  ok (record {
    permissions = h.permissions;
    uid = uid;
    gid = gid;
    mtime = h.mtime;
    inode_number = inode;
  })

-- `FilesystemWriter::lookup_add_id` of backhand/src/filesystem/writer.rs: the place of an id in the
-- table, which it is added to when it is not there.
unfoldable pub lookup_add_id : List OwnerId → ℕ → List OwnerId × ℕ
unfolding position
lookup_add_id id_table id = elim (position id id_table) [
  | some found ↦ (id_table, found % 2 ^ 32)
  | none ↦ (id_table ++ record { num = id } ∷ [], length id_table % 2 ^ 32)
]

-- The ids of a node that is put in, as `insert_node` of backhand/src/filesystem/writer.rs adds them.
unfoldable pub add_ids : NodeHeader → List OwnerId → List OwnerId
unfolding lookup_add_id
add_ids h id_table = (lookup_add_id (lookup_add_id id_table h.gid).0 h.uid).0
