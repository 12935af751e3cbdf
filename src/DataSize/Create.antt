-- ===== src/DataSize/Create.antt =====
-- `DataSize::new` and its two callers, which panic on a length above the bit.
use backhand.Common.{ℕ, ltb, if◌then◌else◌, bit_or, Bool, true, false}
use backhand.DataSize.{DataSize, data_stored_uncompressed}
use backhand.Error.{Result, ok, panics}

unfoldable pub new : ℕ → Bool → Result DataSize
new size uncompressed =
    if ltb data_stored_uncompressed size
    then panics
    else ok (record { bits = if uncompressed then bit_or size data_stored_uncompressed else size })

unfoldable pub new_compressed : ℕ → Result DataSize
unfolding new
new_compressed size = new size false

unfoldable pub new_uncompressed : ℕ → Result DataSize
unfolding new
new_uncompressed size = new size true
