-- ===== src/Writer/Tests.antt =====
-- Tests of the writer of backhand/src/filesystem/writer.rs.
use mathlib.Core.Path.{subst}
use backhand.Common.{
  some, ℕ, ◌*◌, ◌^◌, ◌<◌, ◌≡◌, ◌⊎◌, refl, ap, inl, inr, none, true, List, [], ◌∷◌, ◌++◌, length,
  replicate, arith,
}
use backhand.Data
use backhand.Data.{DataWriter, bytes, fragment_added}
use backhand.Error.{ok, err, panics, file_not_found, IfOk, Ends}
use backhand.ImageReader.{Element, lookup_table}
use backhand.ImageReader.Block.{reader_at}
use backhand.Metadata
use backhand.NodeHeader.{OwnerId}
use backhand.Sample.{
  sample_header, sample_kind, sample_fc, sample_superblock, copying, sample_word, low_bytes,
  of_bytes, length-low_bytes, of_bytes-low_bytes,
}
use backhand.Superblock.{SuperBlock}
use backhand.Tree.{
  Component, root_dir, parent_dir, normal, Node, dir, file, named_pipe, parent, components,
}
use backhand.Tree.Insert.{IsTree}
use backhand.Writer.{FilesystemWriter, SquashfsFileWriter, user_defined, insert_node, push_dir_all}
use backhand.Writer.Edit.{replace_file}
use backhand.Writer.Edit.Replace.{Changed, NoFile, replace_file-cases}
use backhand.Writer.Files.{write_data}
use backhand.Writer.Files.Places.{HasFile, write_data-twice}
use backhand.Writer.Image.{Tables, write_inode_dir}
use backhand.Writer.Image.Ends.{Done, write_inode_dir-Ends}
use backhand.Writer.Lookup.{write_lookup_table}
use backhand.Writer.Lookup.RoundTrip.{IsElement, lookup_table-write_lookup_table}
use backhand.Writer.Padding.{Padded, finalize-Padded}
use backhand.Writer.Push.{insert_node-IsTree, push_dir_all-IsTree}

abbrev root : List (Node SquashfsFileWriter)
root = record { fullpath = []; header = sample_header; inner = dir } ∷ []

abbrev new_writer : FilesystemWriter
new_writer = record {
  kind = sample_kind;
  block_size = 131072;
  mod_time = 0;
  id_table = record { num = 0 } ∷ [];
  fs_compressor = sample_fc;
  root = root;
  block_log = 17;
  pad_len = 4096;
  no_duplicate_files = true;
  emit_compression_options = true;
}

root-IsTree : IsTree root
unfolding parent
root-IsTree = record {
  sorted = (tt, tt);
  directories = λ m h. elim h [ inl e ↦ inl (only m e) | inr none_left ↦ absurd none_left ];
}
  where
    only :
        (m : Node SquashfsFileWriter)
        → record { fullpath = []; header = sample_header; inner = dir } ≡ m
        → parent m.fullpath ≡ none
    only m e = subst (λ k. parent k.fullpath ≡ none) e refl

-- `/a/../b/c`
abbrev path : List Component
path = root_dir ∷ normal (b'a' ∷ []) ∷ parent_dir ∷ normal (b'b' ∷ []) ∷ normal (b'c' ∷ []) ∷ []

insert_node-IsTree_example :
    IsTree (insert_node (normal (b'p' ∷ []) ∷ []) sample_header named_pipe new_writer).1.root
insert_node-IsTree_example =
    insert_node-IsTree sample_header (normal (b'p' ∷ []) ∷ []) named_pipe new_writer root-IsTree

push_dir_all-IsTree_example : IsTree (push_dir_all path sample_header new_writer).1.root
push_dir_all-IsTree_example = push_dir_all-IsTree sample_header path new_writer root-IsTree

-- A superblock of 96 zeros
abbrev zeros : SuperBlock → List ℕ
zeros s = replicate 96 0

-- The image of the superblock and four bytes
abbrev short_image : List ℕ
short_image = replicate 100 1

finalize-Padded_example : Padded zeros new_writer sample_superblock short_image
finalize-Padded_example =
    finalize-Padded zeros new_writer sample_superblock short_image (λ t. refl) (omega arith)
      (omega arith) (omega arith)

-- `/a`, a file, and `/b`, a pipe
abbrev with_file : List (Node SquashfsFileWriter)
with_file =
    record { fullpath = []; header = sample_header; inner = dir }
    ∷ record {
      fullpath = (b'a' ∷ []) ∷ [];
      header = sample_header;
      inner = file (user_defined (bytes (1 ∷ 2 ∷ []) ∷ []));
    }
    ∷ record { fullpath = (b'b' ∷ []) ∷ []; header = sample_header; inner = named_pipe }
    ∷ []

abbrev file_writer : FilesystemWriter
file_writer = record new_writer { root = with_file }

replace_file-cases_example :
    ((ns : List (Node SquashfsFileWriter)) × (replace_file
          (components ((b'a' ∷ []) ∷ []))
          (bytes (3 ∷ []) ∷ [])
          file_writer
        ≡ ok (record file_writer { root = ns }))
      × Changed ((b'a' ∷ []) ∷ []) (user_defined (bytes (3 ∷ []) ∷ [])) with_file ns)
    ⊎ (replace_file (components ((b'a' ∷ []) ∷ [])) (bytes (3 ∷ []) ∷ []) file_writer
        ≡ err file_not_found)
      × NoFile ((b'a' ∷ []) ∷ []) with_file
replace_file-cases_example = replace_file-cases ((b'a' ∷ []) ∷ []) (bytes (3 ∷ []) ∷ []) file_writer

abbrev hash : List ℕ → ℕ
hash xs = length xs

abbrev data_writer : DataWriter
data_writer = Data.new copying sample_fc 4096 true

with_file-HasFile : HasFile with_file
with_file-HasFile = inr (inl (user_defined (bytes (1 ∷ 2 ∷ []) ∷ []), refl))

write_data-twice_example :
    IfOk
      (λ (r : List (Node SquashfsFileWriter) × DataWriter × List ℕ).
        write_data hash sample_fc 4096 r.0 data_writer (1 ∷ []) ≡ panics)
      (write_data hash sample_fc 4096 with_file data_writer [])
write_data-twice_example =
    write_data-twice hash sample_fc 4096 with_file data_writer data_writer [] (1 ∷ [])
      with_file-HasFile

-- Ids, as deku reads and writes them
abbrev id_element : Element OwnerId 4
id_element = record {
  to_writer = λ e i. low_bytes 4 i.num;
  from_reader = λ e bs. record { num = of_bytes bs };
}

abbrev FitsId : OwnerId → Type 0
FitsId i = i.num < 256 ^ 4

id_element-IsElement : IsElement id_element FitsId
id_element-IsElement = record {
  length-to_writer = λ e i. length-low_bytes 4 i.num;
  from_reader-to_writer =
      λ e i h. ap (λ (n : ℕ). record { num = n }) (of_bytes-low_bytes 4 i.num h);
}

abbrev owner : ℕ → OwnerId
owner n = record { num = n }

lookup_table-write_lookup_table_example :
    let r =
      write_lookup_table
        (sample_word 2)
        id_element
        (sample_word 8)
        sample_kind
        (owner 0 ∷ owner 1000 ∷ [])
        4
        (7 ∷ 7 ∷ 7 ∷ []) in
    (r.0.1 ≡ 2)
    × (lookup_table
          (sample_word 2)
          id_element
          (sample_word 8)
          sample_superblock
          sample_kind
          r.0.0
          (2 * 4)
          (reader_at (r.1 ++ 9 ∷ []) 0)
        ≡ ok (3, owner 0 ∷ owner 1000 ∷ []))
lookup_table-write_lookup_table_example =
    lookup_table-write_lookup_table (sample_word 2) id_element FitsId id_element-IsElement
      sample_kind 2047 (omega arith) (omega arith) (sample_word 8) sample_superblock (owner 0)
      (owner 1000 ∷ []) (7 ∷ 7 ∷ 7 ∷ []) (9 ∷ []) 0 (omega arith, (omega arith, tt)) (omega arith)
      (omega arith) (omega arith)

-- A directory in the root, and a pipe in that directory
abbrev three_nodes : List (Node SquashfsFileWriter)
three_nodes =
    record { fullpath = []; header = sample_header; inner = dir }
    ∷ record { fullpath = (b'a' ∷ []) ∷ []; header = sample_header; inner = dir }
    ∷ record {
      fullpath = (b'a' ∷ []) ∷ (b'p' ∷ []) ∷ [];
      header = sample_header;
      inner = named_pipe;
    }
    ∷ []

abbrev new_tables : Tables
new_tables = record {
  inode_writer = Metadata.new sample_fc 131072 sample_kind;
  dir_writer = Metadata.new sample_fc 131072 sample_kind;
}

-- As in `write`, from the root on
write_inode_dir-Ends_example : Ends (Done sample_kind (λ fc b bytes. tt)) (
    write_inode_dir
      (sample_word 2)
      (sample_word 4)
      (λ e size log i. some (low_bytes 4 i.header.inode_number))
      three_nodes
      sample_superblock
      sample_kind
      (record { num = 1000 } ∷ record { num = 100 } ∷ [])
      4
      0
      1
      new_tables)
unfolding Metadata.new
write_inode_dir-Ends_example =
    write_inode_dir-Ends sample_kind (λ fc b bytes. tt) (sample_word 2) (sample_word 4)
      (λ e size log i. some (low_bytes 4 i.header.inode_number)) three_nodes sample_superblock
      (record { num = 1000 } ∷ record { num = 100 } ∷ []) 4 0 1 new_tables (omega arith)
      (omega arith) (refl, refl)
