-- ===== src/Squashfs.antt =====
-- An image that has been read, `Squashfs` of backhand/src/squashfs.rs: the listing of a directory,
-- the names in it, and the inodes that its entries refer to.
pub mod Same
mod Tests
pub mod Walk
pub mod Nodes
pub mod Grows
pub mod Open
pub mod Listing
pub mod Rooted
pub mod Termination
pub mod Circle
use backhand.Common.{
  same_bytes, ℕ, suc, ◌≡◌, ap, ◌+◌, ◌-◌, ◌%◌, ◌^◌, ltb, leb, ◌==◌, not, ◌&&◌, ◌||◌, if◌then◌else◌,
  Bool, true, false, Option, none, some, List, [], ◌∷◌, ◌++◌, length, take, drop, lookup,
}
use backhand.Compressor.{CompressionOptions}
use backhand.Data.{Fragment}
use backhand.Directory.{DirEntry, Dir}
use backhand.Directory.Bytes.{dirs_from_reader}
use backhand.Error.{
  BackhandError, Result, ok, err, ◌>>=◌, ◌>>◌, assert, require, corrupted_or_invalid_squashfs,
  invalid_file_path, unexpected_inode, file_not_found, ok-injective,
}
use backhand.Inode
use backhand.Inode.{Inode, InodeInner, directory, large_directory}
use backhand.Kinds.{Kind, WordCodec}
use backhand.NodeHeader.{OwnerId}
use backhand.Superblock.{SuperBlock}
use backhand.Tree.{Name, PathBuf, pop}

-- `Export` of backhand/src/export.rs
pub record Export : Type 0 where
  pub num : ℕ

pub record Squashfs : Type 0 where
  pub kind : Kind
  pub superblock : SuperBlock
  pub compression_options : Option CompressionOptions
  pub inodes : List (ℕ × Inode)
  pub root_inode : Inode
  pub dir_blocks : List (ℕ × ℕ) × List ℕ
  pub fragments : Option (List Fragment)
  pub export : Option (List Export)
  pub id : List OwnerId
  pub file : List ℕ

-- `let Some(a) = o else { return Err(e) }`
abbrev pub ok_or {ℓ} : {A : Type ℓ} → BackhandError → Option A → Result A
ok_or e none = err e
ok_or e (some a) = ok a

pub ok_or-some {ℓ} :
    {A : Type ℓ} (e : BackhandError) (o : Option A) {a : A} → ok_or e o ≡ ok a → o ≡ some a
ok_or-some e none h = cc
ok_or-some e (some b) h = ap some (ok-injective h)

-- `dir_blocks.1.get(offset..)`
abbrev pub get_from : List ℕ → ℕ → Option (List ℕ)
get_from bytes offset = if leb offset (length bytes) then some (drop offset bytes) else none

-- The bytes of a listing. The sum is made in 32 bits and panics where it overflows; so do the two
-- slices where they end behind the block.
unfoldable pub listing_bytes : List ℕ → ℕ → ℕ → Result (List ℕ)
listing_bytes block block_offset file_size = do
  assert (ltb (block_offset + file_size) (2 ^ 32))
  require (leb (block_offset + file_size - 3) (length block % 2 ^ 32)) corrupted_or_invalid_squashfs
  assert (leb block_offset (length block))
  assert (leb (file_size - 3) (length (drop block_offset block)))
  ok (take (file_size - 3) (drop block_offset block))

module _ (u16 : WordCodec 2) (u32 : WordCodec 4) where
  -- `dir_from_index`, where a directory is not empty
  unfoldable pub dirs_at : Squashfs → ℕ → ℕ → ℕ → Result (List Dir)
  dirs_at s block_index file_size block_offset = do
    offset ← ok_or corrupted_or_invalid_squashfs (lookup block_index s.dir_blocks.0)
    block ← ok_or corrupted_or_invalid_squashfs (get_from s.dir_blocks.1 offset)
    bytes ← listing_bytes block block_offset file_size
    dirs_from_reader u16 u32 (suc (length bytes)) s.kind.type_endian bytes

  unfoldable pub dir_from_index : Squashfs → ℕ → ℕ → ℕ → Result (Option (List Dir))
  dir_from_index s block_index file_size block_offset =
      if ltb file_size 4
      then ok none
      else (do dirs ← dirs_at s block_index file_size block_offset; ok (some dirs))

  -- The listing that a directory's inode refers to, the start of `extract_dir`
  unfoldable pub listing : Squashfs → InodeInner → Result (Option (List Dir))
  listing s (directory d) = dir_from_index s d.block_index d.file_size d.block_offset
  listing s (large_directory d) = dir_from_index s d.block_index d.file_size d.block_offset
  listing s inner = err (unexpected_inode inner)

-- What `DirEntry::name` returns: the root, or one name.
pub data EntryName : Type 0 where
  root : EntryName
  simple : Name → EntryName

unfoldable pub has_slash : List ℕ → Bool
has_slash [] = false
has_slash (b ∷ bs) = (b == b'/') || has_slash bs

-- Whether `Path::file_name` of these bytes is all of them: one component, and neither `.` nor `..`.
unfoldable pub is_file_name : List ℕ → Bool
unfolding has_slash
is_file_name [] = false
is_file_name (b ∷ bs) =
    not (has_slash (b ∷ bs))
    && not (same_bytes (b ∷ bs) (b'.' ∷ []))
    && not (same_bytes (b ∷ bs) (b'.' ∷ b'.' ∷ []))

-- `DirEntry::name` of backhand/src/dir.rs
unfoldable pub name : DirEntry → Result EntryName
name entry =
    if same_bytes entry.name (b'/' ∷ [])
    then ok root
    else (do require (is_file_name entry.name) invalid_file_path; ok (simple entry.name))

-- `PathBuf::push`, by which an absolute path takes the place of the one before
unfoldable pub push : PathBuf → EntryName → PathBuf
push p root = []
push p (simple n) = p ++ n ∷ []

-- The value of an `i32` plus 2^32, and that of an `i16` plus 2^16
abbrev pub above_i32 : ℕ → ℕ
above_i32 n = if ltb n (2 ^ 31) then n + 2 ^ 32 else n

abbrev pub above_i16 : ℕ → ℕ
above_i16 n = if ltb n (2 ^ 15) then n + 2 ^ 16 else n

-- `(d.inode_num as i32 + entry.inode_offset as i32).try_into()`: a sum outside of an `i32` panics,
-- and one below zero is an error.
unfoldable pub inode_key : Dir → DirEntry → Result ℕ
inode_key d entry = do
  let sum = above_i32 d.inode_num + above_i16 entry.inode_offset
  assert (ltb sum (2 ^ 32 + 2 ^ 16 + 2 ^ 31))
  assert (leb (2 ^ 16 + 2 ^ 31) sum)
  require (leb (2 ^ 32 + 2 ^ 16) sum) corrupted_or_invalid_squashfs
  ok (sum - (2 ^ 32 + 2 ^ 16))

-- `symlink_target_path`
unfoldable pub symlink_target_path : InodeInner → Result (List ℕ)
symlink_target_path (Inode.symlink l) = ok l.target_path
symlink_target_path inner = err file_not_found

-- `char_device_number`
unfoldable pub char_device_number : InodeInner → Result ℕ
char_device_number (Inode.character_device c) = ok c.device_number
char_device_number inner = err file_not_found

-- `block_device_number`
unfoldable pub block_device_number : InodeInner → Result ℕ
block_device_number (Inode.block_device b) = ok b.device_number
block_device_number inner = err file_not_found
