-- ===== src/Tests/Client.antt =====
-- A client that sends messages of three bytes.
use linux_modern_io_multiple.Prelude.{◌≡◌, arith, refl, [], ◌∷◌}
use linux_modern_io_multiple.Prelude.Int.{pos}
use linux_modern_io_multiple.Prelude.Run.{ok}
use linux_modern_io_multiple.Net.{got, Echoed, read_n_echo}
use linux_modern_io_multiple.Client.{Client, send_n_wait}
use linux_modern_io_multiple.Client.Conversation.{send_n_wait-read_n_echo}

abbrev client : Client
client = record { buffer = 7 ∷ 8 ∷ 9 ∷ []; written = []; complaints = 0 }

send_n_wait-read_n_echo_example :
    (e : Echoed) × (read_n_echo 3 (0 ∷ 0 ∷ 0 ∷ 0 ∷ []) (got (7 ∷ 8 ∷ 9 ∷ [])) (pos 3) ≡ ok e)
    × (send_n_wait client (record { write = pos 3; read = got e.sent })
        ≡ ok (record client { written = (7 ∷ 8 ∷ 9 ∷ []) ∷ [] }))
send_n_wait-read_n_echo_example =
    send_n_wait-read_n_echo 3 client (0 ∷ 0 ∷ 0 ∷ 0 ∷ []) (pos 3) (omega arith) refl (omega arith)
