-- ===== src/Directory/Tests.antt =====
-- Tests of the listing of backhand/src/entry.rs.
use backhand.Common.{◌≡◌, List, [], ◌∷◌, map, arith}
use backhand.Directory.{Entry, Dir, into_dir}
use backhand.Directory.Listing.{listed, key_dirs, AllWellFormed, into_dir-lists}
use backhand.Error.{ok}
use backhand.Inode.{basic_file, extended_directory}

-- The second is in another block of inodes, the third is too far from the second.
abbrev three_entries : List Entry
three_entries =
    record { start = 0; offset = 5; inode = 1; t = basic_file; name_size = 0; name = b'a' ∷ [] }
    ∷ record {
      start = 8194;
      offset = 9;
      inode = 2;
      t = extended_directory;
      name_size = 0;
      name = b'b' ∷ [];
    }
    ∷ record {
      start = 8194;
      offset = 70;
      inode = 32770;
      t = basic_file;
      name_size = 0;
      name = b'c' ∷ [];
    }
    ∷ []

into_dir-lists_example :
    (dirs : List Dir) × (into_dir three_entries ≡ ok dirs)
    × AllWellFormed dirs
    × (key_dirs dirs ≡ ok (map listed three_entries))
into_dir-lists_example =
    into_dir-lists three_entries
      (omega arith, omega arith, (omega arith, omega arith, (omega arith, omega arith, tt)))
