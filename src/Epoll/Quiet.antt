-- ===== src/Epoll/Quiet.antt =====
-- An epoll server that nobody connects to.
use linux_modern_io_multiple.Prelude.{ℕ, zero, suc, ◌<◌, ◌≡◌, refl, arith, true, List, [], ◌∷◌}
use linux_modern_io_multiple.Prelude.Int.{ℤ, pos}
use linux_modern_io_multiple.Prelude.Run.{ok}
use linux_modern_io_multiple.Net.{
  SetupAnswer, SetupCall, create_ipv4_listening_socket, register_signal_handler,
}
use linux_modern_io_multiple.Links.{ends, null}
use linux_modern_io_multiple.Epoll.{Server, close_all, do_service_loop_cleanup}
use linux_modern_io_multiple.Epoll.Stop.{
  Waited, unready, ready, create_epoll, epoll_add_listening_socket, epoll_turn, epoll_loop,
  service_loop, do_exit_cleanup, run_server, no_clients,
}
use linux_modern_io_multiple.Poll.Quiet.{masked}

-- Every wait is interrupted by a signal.
abbrev pub AreInterrupted : List Waited → Type 0
AreInterrupted [] = Unit
AreInterrupted (unready eintr ∷ turns) = (eintr ≡ true) × AreInterrupted turns
AreInterrupted (ready evs ∷ turns) = ⊥

epoll_loop-interrupted :
    (n : ℕ) (zeroes : List ℕ) (ls : ℤ) (s : Server) (turns : List Waited)
    → AreInterrupted turns
    → epoll_loop n zeroes ls s turns ≡ ok s
unfolding epoll_loop epoll_turn
epoll_loop-interrupted n zeroes ls s [] q = refl
epoll_loop-interrupted n zeroes ls s (unready eintr ∷ turns) (e, q) =
    simp (e, epoll_loop-interrupted n zeroes ls s turns q)
epoll_loop-interrupted n zeroes ls s (ready evs ∷ turns) q = absurd q

-- An epoll server whose waits are all interrupted, however many, stops with nothing left open: it
-- closes the epoll instance and then the listening socket, each once, and nothing else. The socket and
-- the instance are set up, and the calls on the signals and both `close`s succeed. One round is fuel
-- enough for the clean-up.
pub run_server-quiet :
    (n : ℕ) (zeroes : List ℕ) (port : ℕ) (close : ℤ → ℤ) (fuel : ℕ) (setup : SetupAnswer) (ls : ℕ)
    (calls : List SetupCall) (epoll_fd : ℕ) (turns : List Waited)
    → create_ipv4_listening_socket port setup ≡ ok (ls, calls)
    → AreInterrupted turns
    → close (pos epoll_fd) ≡ pos 0
    → close (pos ls) ≡ pos 0
    → 0 < fuel
    → (s : Server) × (run_server n zeroes port close fuel
          (pos 0)
          setup
          (record { epoll_create1 = pos epoll_fd; masks = masked; epoll_ctl = pos 0 })
          turns
        ≡ ok s)
      × (s.closed ≡ pos epoll_fd ∷ pos ls ∷ [])
      × (s.sent ≡ [])
      × (s.dll ≡ ends null null)
unfolding run_server service_loop create_epoll epoll_add_listening_socket do_exit_cleanup
    do_service_loop_cleanup close_all register_signal_handler
run_server-quiet n zeroes port close zero setup ls calls epoll_fd turns opened q c1 c2 enough =
    absurd (omega arith)
run_server-quiet n zeroes port close (suc fuel) setup ls calls epoll_fd turns opened q c1 c2
      enough =
    let quiet : (s : Server) → epoll_loop n zeroes (pos ls) s turns ≡ ok s =
      λ s. epoll_loop-interrupted n zeroes (pos ls) s turns q in
    (
      record no_clients { closed = pos epoll_fd ∷ pos ls ∷ [] },
      simp (opened, quiet, c1, c2),
      refl,
      refl,
      refl,
    )
