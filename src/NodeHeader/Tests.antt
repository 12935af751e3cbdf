-- ===== src/NodeHeader/Tests.antt =====
-- A test of the id table, backhand/src/filesystem/node.rs.
use backhand.Common.{◌≡◌, List, [], ◌∷◌, ◌++◌, length, ◌≤◌, ◌^◌, arith}
use backhand.Error.{ok, ◌>>=◌}
use backhand.NodeHeader.{OwnerId, from_inode, inode_header, add_ids, position, lookup_add_id}
use backhand.NodeHeader.RoundTrip.{from_inode-inode_header}
use backhand.Sample.{sample_header}

abbrev root_id : List OwnerId
root_id = record { num = 0 } ∷ []

abbrev later : List OwnerId
later = record { num = 5 } ∷ []

few : length (add_ids sample_header root_id ++ later) ≤ 2 ^ 16
unfolding add_ids lookup_add_id position
few = omega arith

from_inode-inode_header_example :
    (inode_header sample_header 3 (add_ids sample_header root_id ++ later) >>= λ i.
    from_inode i (add_ids sample_header root_id ++ later))
    ≡ ok sample_header
from_inode-inode_header_example = from_inode-inode_header sample_header 3 root_id later few
