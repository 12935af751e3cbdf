-- ===== src/Writer.antt =====
-- `FilesystemWriter` of backhand/src/filesystem/writer.rs: its settings, the nodes that are put into
-- its tree, and the end of an image, with the padding and the superblock.
--
-- A file's bytes are what a source gives, event by event, or a file of another image, or the place
-- where its bytes went.
pub mod Lookup
pub mod Edit
pub mod Files
pub mod Image
pub mod Padding
pub mod Push
mod Tests
use backhand.Common.{
  ℕ, zero, suc, ◌+◌, ◌-◌, ◌*◌, ◌/◌, ◌%◌, ◌^◌, ltb, leb, ◌==◌, if◌then◌else◌, Bool, true, false,
  Option, none, some, List, [], ◌∷◌, ◌++◌, length, drop, replicate,
}
use backhand.Compressor.Config.{FilesystemCompressor}
use backhand.Data.{ReadEvent, Added}
use backhand.Error.{
  BackhandError, Result, ok, err, panics, diverges, ◌>>=◌, ◌>>◌, assert, require, file_not_found,
  invalid_file_path,
}
use backhand.FileReader.{Handle}
use backhand.Kinds.{Kind}
use backhand.NodeHeader.{NodeHeader, OwnerId, add_ids}
use backhand.Superblock.{SuperBlock, min_block_size, max_block_size}
use backhand.Tree.{
  Component, normalize_squashfs_path, PathBuf, parent, components, find, InnerNode, file, symlink,
  dir, character_device, block_device, named_pipe, socket, Node, is_dir, insert, node_mut, cmp,
  Ordering, less, equal, greater,
}

-- `SquashfsFileWriter`
pub data SquashfsFileWriter : Type 0 where
  user_defined : List ReadEvent → SquashfsFileWriter
  squashfs_file : Handle → SquashfsFileWriter
  consumed : ℕ → Added → SquashfsFileWriter

pub record FilesystemWriter : Type 0 where
  pub kind : Kind
  pub block_size : ℕ
  pub mod_time : ℕ
  pub id_table : List OwnerId
  pub fs_compressor : FilesystemCompressor
  pub root : List (Node SquashfsFileWriter)
  pub block_log : ℕ
  pub pad_len : ℕ
  pub no_duplicate_files : Bool
  pub emit_compression_options : Bool

-- `Id::root`
unfoldable pub root_ids : List OwnerId
root_ids = record { num = 0 } ∷ []

-- `(n as f32).log2() as u16`, for a block size. At powers of two that is exact.
unfoldable pub log2_below : ℕ → ℕ → ℕ
log2_below zero n = 0
log2_below (suc k) n = let rest = log2_below k n in if leb (2 ^ suc k) n then suc k else rest

unfoldable pub set_block_size : ℕ → FilesystemWriter → Result FilesystemWriter
unfolding log2_below
set_block_size n w = do
  assert (leb min_block_size n)
  assert (leb n max_block_size)
  ok (record w { block_size = n; block_log = log2_below 20 n })

unfoldable pub set_time : ℕ → FilesystemWriter → FilesystemWriter
set_time t w = record w { mod_time = t }

unfoldable pub set_kind : Kind → FilesystemWriter → FilesystemWriter
set_kind k w = record w { kind = k }

unfoldable pub set_compressor : FilesystemCompressor → FilesystemWriter → FilesystemWriter
set_compressor c w = record w { fs_compressor = c }

unfoldable pub set_only_root_id : FilesystemWriter → FilesystemWriter
unfolding root_ids
set_only_root_id w = record w { id_table = root_ids }

-- `pad_kib * 1024`, in 32 bits
unfoldable pub set_kib_padding : ℕ → FilesystemWriter → Result FilesystemWriter
set_kib_padding pad_kib w = do
  assert (ltb (pad_kib * 1024) (2 ^ 32))
  ok (record w { pad_len = pad_kib * 1024 })

unfoldable pub set_no_padding : FilesystemWriter → FilesystemWriter
set_no_padding w = record w { pad_len = 0 }

unfoldable pub set_no_duplicate_files : Bool → FilesystemWriter → FilesystemWriter
set_no_duplicate_files value w = record w { no_duplicate_files = value }

unfoldable pub set_emit_compression_options : Bool → FilesystemWriter → FilesystemWriter
set_emit_compression_options value w = record w { emit_compression_options = value }

-- `root_mut`, which panics without nodes
unfoldable pub root_mut :
    (NodeHeader → NodeHeader)
    → List (Node SquashfsFileWriter)
    → Result (List (Node SquashfsFileWriter))
root_mut f [] = panics
root_mut f (n ∷ ns) = ok (record n { header = f n.header } ∷ ns)

abbrev with_root :
    FilesystemWriter → Result (List (Node SquashfsFileWriter)) → Result FilesystemWriter
with_root w r = r >>= λ root. ok (record w { root = root })

unfoldable pub set_root_mode : ℕ → FilesystemWriter → Result FilesystemWriter
unfolding root_mut
set_root_mode mode w = with_root w (root_mut (λ h. record h { permissions = mode }) w.root)

unfoldable pub set_root_uid : ℕ → FilesystemWriter → Result FilesystemWriter
unfolding root_mut
set_root_uid uid w = with_root w (root_mut (λ h. record h { uid = uid }) w.root)

unfoldable pub set_root_gid : ℕ → FilesystemWriter → Result FilesystemWriter
unfolding root_mut
set_root_gid gid w = with_root w (root_mut (λ h. record h { gid = gid }) w.root)

-- A call on the writer: how it ended, and the writer afterwards. Ids that were added stay when the
-- node is refused.
abbrev pub Call : Type 0
Call = Result (Unit {0}) × FilesystemWriter

-- The writer of a call goes on when the call ended well: `?` in the source.
abbrev pub and_then : Call → (FilesystemWriter → Call) → Call
and_then (ok _, w) f = f w
and_then (err e, w) f = (err e, w)
and_then (panics, w) f = (panics, w)
and_then (diverges, w) f = (diverges, w)

-- A result that goes before the changes to the writer
abbrev pub with_value {ℓ} : {A : Type ℓ} → Result A → FilesystemWriter → (A → Call) → Call
with_value (ok a) w f = f a
with_value (err e) w f = (err e, w)
with_value panics w f = (panics, w)
with_value diverges w f = (diverges, w)

-- `insert_node`
unfoldable pub insert_node :
    List Component → NodeHeader → InnerNode SquashfsFileWriter → FilesystemWriter → Call
unfolding add_ids normalize_squashfs_path insert
insert_node path header inner w =
    let w' : FilesystemWriter = record w { id_table = add_ids header w.id_table } in
    with_value (normalize_squashfs_path path) w' (λ p.
      with_value (insert (record { fullpath = p; header = header; inner = inner }) w.root) w'
        (λ nodes. (ok tt, record w' { root = nodes })))

unfoldable pub push_file : List ReadEvent → List Component → NodeHeader → FilesystemWriter → Call
unfolding insert_node
push_file reader path header w = insert_node path header (file (user_defined reader)) w

unfoldable pub push_symlink : List ℕ → List Component → NodeHeader → FilesystemWriter → Call
unfolding insert_node
push_symlink link path header w = insert_node path header (symlink link) w

unfoldable pub push_dir : List Component → NodeHeader → FilesystemWriter → Call
unfolding insert_node
push_dir path header w = insert_node path header dir w

unfoldable pub push_char_device : ℕ → List Component → NodeHeader → FilesystemWriter → Call
unfolding insert_node
push_char_device n path header w = insert_node path header (character_device n) w

unfoldable pub push_block_device : ℕ → List Component → NodeHeader → FilesystemWriter → Call
unfolding insert_node
push_block_device n path header w = insert_node path header (block_device n) w

unfoldable pub push_fifo : List Component → NodeHeader → FilesystemWriter → Call
unfolding insert_node
push_fifo path header w = insert_node path header named_pipe w

unfoldable pub push_socket : List Component → NodeHeader → FilesystemWriter → Call
unfolding insert_node
push_socket path header w = insert_node path header socket w

-- `Path::ancestors` from the root down
unfoldable pub prefixes : PathBuf → List PathBuf
prefixes p = go [] p
  where
    go : PathBuf → PathBuf → List PathBuf
    go above [] = above ∷ []
    go above (c ∷ cs) = above ∷ go (above ++ c ∷ []) cs

-- The loop of `push_dir_all`
unfoldable pub push_dirs : List PathBuf → NodeHeader → FilesystemWriter → Call
unfolding find is_dir push_dir components
push_dirs [] header w = (ok tt, w)
push_dirs (p ∷ ps) header w = elim (find p w.root) [
  | some n ↦ if is_dir n.inner then push_dirs ps header w else (err invalid_file_path, w)
  | none ↦ and_then (push_dir (components p) header w) (λ w'. push_dirs ps header w')
]

unfoldable pub push_dir_all : List Component → NodeHeader → FilesystemWriter → Call
unfolding prefixes push_dirs normalize_squashfs_path
push_dir_all path header w =
    with_value (normalize_squashfs_path path) w (λ p. push_dirs (prefixes p) header w)

-- The bytes of the padding that are still to come, in pieces of 1 KiB, with fuel.
unfoldable pub pad_bytes : ℕ → ℕ → ℕ → ℕ → List ℕ → Result (List ℕ)
pad_bytes zero end_ pad_len total_written out = if ltb (length out) end_ then diverges else ok out
pad_bytes (suc fuel) end_ pad_len total_written out =
    let len =
      (if ltb (pad_len - total_written) 1024 then (pad_len - total_written) % 1024 else 1024) in
    let rest = pad_bytes fuel end_ pad_len (total_written + len) (out ++ replicate len 0) in
    if ltb (length out) end_ then rest else ok out

-- How many bytes of padding an image of `bytes_used` bytes gets, in 32 bits.
unfoldable pub padding : ℕ → ℕ → Result ℕ
padding pad_len bytes_used = if pad_len == 0 then ok 0 else (do
  assert (ltb bytes_used (2 ^ 32))
  let total = (bytes_used / pad_len + 1) * pad_len
  assert (ltb total (2 ^ 32))
  ok (total - bytes_used))

-- `finalize`: the superblock and the image afterwards, and their length. `superblock_bytes` is what
-- deku writes.
module _ (superblock_bytes : SuperBlock → List ℕ) where
  unfoldable pub finalize :
      FilesystemWriter → SuperBlock → List ℕ → Result (ℕ × SuperBlock × List ℕ)
  unfolding padding pad_bytes
  finalize w superblock out = do
    let s : SuperBlock = record superblock { bytes_used = length out }
    pad_len ← padding w.pad_len (length out)
    padded ← pad_bytes (suc pad_len) (length out + pad_len) pad_len 0 out
    let head = superblock_bytes s
    ok (length out + pad_len, s, head ++ drop (length head) padded)
