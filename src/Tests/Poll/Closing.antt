-- ===== src/Tests/Poll/Closing.antt =====
-- The poll server with two clients stops.
use linux_modern_io_multiple.Prelude.{◌≡◌, refl, true, arith, List, [], ◌∷◌, inl, inr}
use linux_modern_io_multiple.Prelude.Int.{pos, negsuc}
use linux_modern_io_multiple.Prelude.Run.{ok}
use linux_modern_io_multiple.Pollfd.{Ptr, Answer}
use linux_modern_io_multiple.Pollfd.Contents.{Entry, contents}
use linux_modern_io_multiple.Poll.{Server}
use linux_modern_io_multiple.Poll.Stop.{do_client_connections_cleanup, Polled, run_server}
use linux_modern_io_multiple.Poll.Quiet.{masked, run_server-stopped}
use linux_modern_io_multiple.Net.{
  SetupAnswer, create_ipv4_listening_socket, htons, socket_inet_stream, set_nonblock, bind_any,
  listen,
}
use linux_modern_io_multiple.Poll.Cleanup.{
  Owned, Freed, Lacks, do_client_connections_cleanup-closed,
}
use linux_modern_io_multiple.Tests.Poll.{
  answers, vector, vector-IsValid, server, cons, con, entry, other_fd,
}

abbrev entries : List Entry
entries = (entry 3 1, 0) ∷ (entry 6 1, 600) ∷ (entry 7 0x11, 700) ∷ []

in_use-Owned : Owned (λ fd. pos 0) (pos 3) cons entries
in_use-Owned = (
  inl refl,
  (
    inr (other_fd (omega arith), refl, omega arith, (con, refl), (omega arith, tt)),
    (inr (other_fd (omega arith), refl, omega arith, (con, refl), tt), tt),
  ),
)

do_client_connections_cleanup-closed_example :
    (s' : Server) × (do_client_connections_cleanup
        (λ fd. pos 0)
        (pos 3)
        (negsuc 0)
        4
        (server vector)
      ≡ ok s')
    × (s'.closed ≡ pos 6 ∷ pos 7 ∷ [])
    × Freed (pos 3) s'.cons entries
    × ((q : Ptr) → Lacks q entries → s'.cons q ≡ cons q)
    × (s'.sent ≡ [])
unfolding contents
do_client_connections_cleanup-closed_example =
    do_client_connections_cleanup-closed (λ fd. pos 0) (pos 3) (negsuc 0) 4 (server vector)
      vector-IsValid (omega arith) in_use-Owned

-- A signal interrupts the first wait.
abbrev interrupted : Polled
interrupted = record { no_events = negsuc 0; eintr = true; revents = []; answers = λ k. answers }

abbrev arrays : Answer
arrays = record { data_ptr = 64; data_tail = []; pd_ptr = 128; pd_tail = [] }

abbrev opened : SetupAnswer
opened = record { socket = pos 3; fcntl = pos 0; bind = pos 0; listen = pos 0 }

run_server-stopped_example :
    (s : Server) × (run_server 3 8080
        (λ fd. pos 0)
        2
        arrays
        (pos 0)
        opened
        masked
        arrays
        (interrupted ∷ [])
      ≡ ok s)
    × (s.closed ≡ pos 3 ∷ [])
    × (s.sent ≡ [])
    × ((s.vec).slots ≡ [])
    × ((s.vec).pd ≡ [])
run_server-stopped_example =
    run_server-stopped 3 8080 (λ fd. pos 0) 2 arrays opened 3
      (socket_inet_stream ∷ set_nonblock 3 ∷ bind_any 3 (htons 8080) ∷ listen 3 128 ∷ []) arrays
      (interrupted ∷ []) (omega arith) (omega arith) (unfold create_ipv4_listening_socket in refl)
      (refl, refl, tt) refl (omega arith)
