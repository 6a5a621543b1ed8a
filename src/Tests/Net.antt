-- ===== src/Tests/Net.antt =====
-- Messages of three bytes.
use linux_modern_io_multiple.Prelude.{ℕ, ◌≡◌, ◌≢◌, ◌⊎◌, arith, List, [], ◌∷◌, length}
use linux_modern_io_multiple.Prelude.Int.{pos}
use linux_modern_io_multiple.Prelude.Run.{ok, exited}
use linux_modern_io_multiple.Net.{got, filled, read_n_echo}
use linux_modern_io_multiple.Net.Echo.{IsShort, LongEnough, read_n_echo_lem}

abbrev buffer : List ℕ
buffer = 0 ∷ 0 ∷ 0 ∷ 0 ∷ []

abbrev message : List ℕ
message = 7 ∷ 8 ∷ 9 ∷ []

read_n_echo_lem_example :
    ((message ≡ [])
      × (read_n_echo 3 buffer (got message) (pos 3)
          ≡ ok (record { read_bytes = 0; buf = buffer; sent = [] })))
    ⊎ ((length message ≡ 3)
        × LongEnough 3 (pos 3)
        × (read_n_echo 3 buffer (got message) (pos 3)
            ≡ ok (record { read_bytes = 3; buf = filled message buffer; sent = message })))
    ⊎ ((message ≢ [])
        × ((length message ≢ 3) ⊎ IsShort 3 (pos 3))
        × (read_n_echo 3 buffer (got message) (pos 3) ≡ exited))
read_n_echo_lem_example = read_n_echo_lem 3 buffer message (pos 3) (omega arith)
