-- ===== src/DataSize/Tests.antt =====
-- Tests of the size word of backhand/src/data.rs.
use backhand.Common.{◌≡◌, ◌<◌, ◌^◌, ◌⊎◌, true}
use backhand.DataSize.{DataSize, size, uncompressed}
use backhand.DataSize.Bit.{new_cases}
use backhand.DataSize.Create.{new}
use backhand.Error.{ok, panics}

new_cases_example :
    (4096 < 2 ^ 24)
      × ((d : DataSize) × (new 4096 true ≡ ok d) × (size d ≡ 4096) × (uncompressed d ≡ true))
    ⊎ (4096 ≡ 2 ^ 24)
      × ((d : DataSize) × (new 4096 true ≡ ok d) × (size d ≡ 0) × (uncompressed d ≡ true))
    ⊎ (2 ^ 24 < 4096) × (new 4096 true ≡ panics)
new_cases_example = new_cases 4096 true
