-- ===== src/InodeWriter/Ends.antt =====
-- The constructors of `Entry` of backhand/src/entry.rs end, and leave the writer of inodes for the
-- same kind of image.
use backhand.Common.{Option, none, some, ℕ, ◌^◌, ltb, leb, List, ◌%◌, length, arith}
use backhand.Compressor.Config.{FilesystemCompressor}
use backhand.Data.{Added}
use backhand.Directory.{Entry}
use backhand.Error.{Result, ok, err, panics, diverges, Any, Ends, after-Ends, Ends->>=}
use backhand.Inode.{Inode, InodeId, InodeInner}
use backhand.InodeWriter.{expect, unwrap, try_into, file_inode, directory_inode, to_bytes, entry_of}
use backhand.Kinds.{Endian, Kind}
use backhand.Metadata.{MetadataWriter, write_all}
use backhand.Metadata.Ends.{IsOfKind, write_all-Ends}
use backhand.NodeHeader.{NodeHeader, OwnerId, inode_header}
use backhand.Superblock.{SuperBlock}

expect-Ends {ℓ} : {A : Type ℓ} (o : Option A) → Ends Any (expect o)
expect-Ends none = tt
expect-Ends (some a) = tt

unwrap-Ends {ℓ} : {A : Type ℓ} (P : A → Type 0) (r : Result A) → Ends P r → Ends P (unwrap r)
unwrap-Ends P (ok a) h = h
unwrap-Ends P (err e) h = tt
unwrap-Ends P panics h = tt
unwrap-Ends P diverges h = absurd h

pub try_into-Ends : (width n : ℕ) → Ends Any (try_into width n)
try_into-Ends width n = after-Ends Any (ltb n (2 ^ width)) (ok n) tt

pub file_inode-Ends : (n : ℕ) (added : Added) → Ends Any (file_inode n added)
unfolding file_inode
file_inode-Ends n added = ground arith

pub directory_inode-Ends : (c p n o i : ℕ) → Ends Any (directory_inode c p n o i)
unfolding directory_inode
directory_inode-Ends c p n o i = ground arith

inode_header-Ends : (h : NodeHeader) (n : ℕ) (ids : List OwnerId) → Ends Any (inode_header h n ids)
unfolding inode_header
inode_header-Ends h n ids = ground arith

module _ (kind : Kind)
    (packs : (fc : FilesystemCompressor) (b : ℕ) (bytes : List ℕ)
      → Ends Any (kind.compressor.compress fc b bytes)) where
  module _ (inode_bytes : Endian → ℕ → ℕ → Inode → Option (List ℕ)) (superblock : SuperBlock) where
    -- An entry, with a writer for this kind of image
    abbrev pub Kept : Entry × MetadataWriter → Type 0
    Kept (e, w) = IsOfKind kind packs w

    to_bytes-Ends :
        (i : Inode) (name : List ℕ) (w : MetadataWriter)
        → IsOfKind kind packs w
        → Ends Kept (to_bytes inode_bytes superblock kind i name w)
    unfolding to_bytes
    to_bytes-Ends i name w k =
        let made = inode_bytes kind.type_endian superblock.block_size superblock.block_log i in
        Ends->>= {Y = Entry × MetadataWriter} Any Kept (expect made) _ (expect-Ends made)
          (λ bytes _ _.
            Ends->>= {Y = Entry × MetadataWriter} (IsOfKind kind packs) Kept
              (unwrap (write_all w bytes)) _
              (unwrap-Ends (IsOfKind kind packs) (write_all w bytes)
                (write_all-Ends kind packs w bytes k))
              (λ w' _ k'. after-Ends Kept (leb 1 (length name % 2 ^ 16)) _ k'))

    pub entry_of-Ends :
        (name : List ℕ) (h : NodeHeader) (inode : ℕ) (ids : List OwnerId) (w : MetadataWriter)
        (made : Result (InodeId × InodeInner))
        → IsOfKind kind packs w
        → Ends Any made
        → Ends Kept (entry_of inode_bytes superblock kind name h inode ids w made)
    unfolding entry_of
    entry_of-Ends name h inode ids w made k m =
        Ends->>= {Y = Entry × MetadataWriter} Any Kept (inode_header h inode ids) _
          (inode_header-Ends h inode ids)
          (λ header _ _. Ends->>= {Y = Entry × MetadataWriter} Any Kept made _ m (λ (id, inner) _ _.
            to_bytes-Ends (record { id = id; header = header; inner = inner }) name w k))
