-- ===== src/Poll/Quiet.antt =====
-- A poll server that nobody connects to.
use linux_modern_io_multiple.Prelude.{
  ℕ, zero, suc, ◌<◌, ◌≡◌, ◌≢◌, refl, arith, true, false, ◌==◌, List, [], ◌∷◌, none,
}
use linux_modern_io_multiple.Prelude.Int.{ℤ, pos, negsuc, eqb_ℤ-refl}
use linux_modern_io_multiple.Prelude.Run.{ok}
use linux_modern_io_multiple.Time.{is_negative}
use linux_modern_io_multiple.Net.{
  SetupAnswer, SetupCall, create_ipv4_listening_socket, register_signal_handler,
}
use linux_modern_io_multiple.Pollfd.{Answer, pollfdv_create, pollfdv_add, add_entry, pollfdv_free}
use linux_modern_io_multiple.Poll.{Server, poll_add_fd}
use linux_modern_io_multiple.Poll.Stop.{
  Masks, Polled, poll_turn, poll_loop, close_entries, do_client_connections_cleanup, service_loop,
  do_exit_cleanup, run_server,
}

-- Every wait is interrupted by a signal.
abbrev pub AreInterrupted : List Polled → Type 0
AreInterrupted [] = Unit
AreInterrupted (a ∷ turns) =
    (is_negative a.no_events ≡ true) × (a.eintr ≡ true) × AreInterrupted turns

-- No call on the signal masks fails.
abbrev pub masked : Masks
masked = record { get = pos 0; empty = pos 0; add = pos 0; block = pos 0 }

poll_loop-interrupted :
    (n : ℕ) (ls : ℤ) (fuel : ℕ) (s : Server) (turns : List Polled)
    → AreInterrupted turns
    → poll_loop n ls fuel s turns ≡ ok s
unfolding poll_loop poll_turn
poll_loop-interrupted n ls fuel s [] q = refl
poll_loop-interrupted n ls fuel s (a ∷ turns) (neg, eintr, q) =
    simp (neg, eintr, poll_loop-interrupted n ls fuel s turns q)

-- A poll server whose waits are all interrupted, however many, stops with nothing left open or
-- allocated: it closes the listening socket, once, and nothing else, and its vector is freed. The
-- socket is set up, the allocations succeed, and so do the calls on the signals and the last `close`.
-- Two rounds are fuel enough for the clean-up.
pub run_server-stopped :
    (n port : ℕ) (close : ℤ → ℤ) (fuel : ℕ) (created : Answer) (setup : SetupAnswer) (ls : ℕ)
    (calls : List SetupCall) (grow : Answer) (turns : List Polled)
    → created.data_ptr ≢ 0
    → created.pd_ptr ≢ 0
    → create_ipv4_listening_socket port setup ≡ ok (ls, calls)
    → AreInterrupted turns
    → close (pos ls) ≡ pos 0
    → 1 < fuel
    → (s : Server) × (run_server n port close fuel created (pos 0) setup masked grow turns ≡ ok s)
      × (s.closed ≡ pos ls ∷ [])
      × (s.sent ≡ [])
      × ((s.vec).slots ≡ [])
      × ((s.vec).pd ≡ [])
unfolding run_server service_loop do_client_connections_cleanup close_entries do_exit_cleanup
    pollfdv_create pollfdv_add add_entry pollfdv_free poll_add_fd register_signal_handler
run_server-stopped n port close zero created setup ls calls grow turns d p opened q closes enough =
    absurd (omega arith)
run_server-stopped n port close (suc zero) created setup ls calls grow turns d p opened q closes
      enough =
    absurd (omega arith)
run_server-stopped n port close (suc (suc fuel)) created setup ls calls grow turns d p opened q
      closes enough =
    let quiet : (s : Server) → poll_loop n (pos ls) (suc (suc fuel)) s turns ≡ ok s =
      λ s. poll_loop-interrupted n (pos ls) (suc (suc fuel)) s turns q in
    (
      record {
        vec = record { base = 0; slots = []; size = 0; capacity = 0; pd = [] };
        cons = λ p. none;
        timer = negsuc 0;
        closed = pos ls ∷ [];
        sent = [];
      },
      simp (not_null1, not_null2, opened, quiet, eqb_ℤ-refl (pos ls), closes),
      refl,
      refl,
      refl,
      refl,
    )
  where
    not_null1 : (created.data_ptr == 0) ≡ false
    not_null1 = ground arith

    not_null2 : (created.pd_ptr == 0) ≡ false
    not_null2 = ground arith
