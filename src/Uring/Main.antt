-- ===== src/Uring/Main.antt =====
-- `main` and `service_loop` of code/c/server/io_uring/main.c, in the build without server side
-- benchmarking, around the loop of Uring.Loop: what comes before the loop, and what comes after it,
-- wherever SIGUSR1 stops it. The rings lie in memory that the kernel shares: their contents, once
-- mapped, are an argument.
use linux_modern_io_multiple.Prelude.{
  ℕ, suc, ◌≡◌, ◌≢◌, ◌∙◌, refl, sym, subst, arith, Bool, List, [], ◌∷◌, ◌++◌, append_assoc, length,
  none, some, ◌==◌, Bool-cases, inl, inr, if◌then◌else◌,
}
use linux_modern_io_multiple.Prelude.Int.{ℤ, pos}
use linux_modern_io_multiple.Prelude.Run.{Run, ok, exited, ◌>>=◌, ◌>>◌, >>=-returned, assert_zero}
use linux_modern_io_multiple.Time.{is_zero}
use linux_modern_io_multiple.Links.{Ptr, null, ends}
use linux_modern_io_multiple.Links.Chain.{Cells, IsList, eq_self}
use linux_modern_io_multiple.Net.{
  SetupAnswer, create_ipv4_listening_socket, register_signal_handler,
}
use linux_modern_io_multiple.Poll.Stop.{Masks}
use linux_modern_io_multiple.Uring.Ring.{Iou, IouOp, accepted_connection, info_accept}
use linux_modern_io_multiple.Uring.Ring.Completion.{IsPosted}
use linux_modern_io_multiple.Uring.Ring.Submission.{IsQueue}
use linux_modern_io_multiple.Uring.Tracker.{mem_t_create}
use linux_modern_io_multiple.Uring.Setup.{
  Params, Mapped, Region, MmapAnswer, FreeAnswer, iou_create, iou_free, iou_config_params,
}
use linux_modern_io_multiple.Uring.Setup.Mapping.{freed, iou_free-iou_create}
use linux_modern_io_multiple.Uring.Server.{Server, do_service_loop_cleanup}
use linux_modern_io_multiple.Uring.Server.Cleanup.{
  Tracks, all_close, all_close-append_one, assert_zero-ok, assert_zero-exited, if->>=,
}
use linux_modern_io_multiple.Uring.Server.Starting.{create_signal_masks, do_exit_cleanup}
use linux_modern_io_multiple.Uring.Loop.{Loop, World, Reaches, start_loop, entered}
use linux_modern_io_multiple.Uring.Loop.Reach.{IsServing}
use linux_modern_io_multiple.Uring.Loop.Steps.{start_loop-IsServing}
use linux_modern_io_multiple.Uring.Loop.Stopped.{Reaches-do_service_loop_cleanup}

-- What the calls before the loop answer: `sigaction`, those for the listening socket,
-- `io_uring_setup`, `mmap` and those for the signal masks.
pub record Before : Type 0 where
  pub sigaction : ℤ
  pub socket : SetupAnswer
  pub io_uring_setup : Params → ℤ × Params
  pub mmap : MmapAnswer
  pub masks : Masks

-- What the process holds as it enters the loop.
pub record Running : Type 0 where
  pub listening_socket : ℕ
  pub mapped : Mapped
  pub regions : List Region
  pub loop : Loop

-- `struct iou_op accept_req = { .mem_tracker = NULL }`, whose other members are 0 then.
abbrev pub accept_req : IouOp
accept_req = record { op = accepted_connection; info = info_accept (pos 0) 0; mem_tracker = null }

-- No memory is allocated; the accept request is on the stack, at `acc`.
abbrev pub no_clients : Iou → Ptr → Server
no_clients iou acc = record {
  iou = iou;
  tracker = mem_t_create;
  nodes = λ t. none;
  ops = λ p. if p == acc then some accept_req else none;
  closed = [];
}

-- `service_loop`, up to its loop. The stop signal is blocked only where `io_uring_enter` blocks.
unfoldable pub enter_service_loop :
    (n ring_size : ℕ) (kernel_poll_mode : Bool) (rings : Mapped → Iou) (acc : Ptr)
    → Before
    → (listening_socket : ℕ) → Run Running
enter_service_loop n ring_size kernel_poll_mode rings acc a ls = do
  (mapped, regions) ← iou_create ring_size kernel_poll_mode a.io_uring_setup a.mmap
  loop ← start_loop n (no_clients (rings mapped) acc) acc (pos ls)
  create_signal_masks (a.masks).get (a.masks).empty (a.masks).add
  (if kernel_poll_mode then ok tt else assert_zero (a.masks).block)
  ok (record { listening_socket = ls; mapped = mapped; regions = regions; loop = loop })

-- `main`, up to that loop.
unfoldable pub begin :
    (n port ring_size : ℕ) (kernel_poll_mode : Bool) (rings : Mapped → Iou) (acc : Ptr)
    → Before
    → Run Running
unfolding enter_service_loop
begin n port ring_size kernel_poll_mode rings acc a = do
  register_signal_handler a.sigaction
  (ls, _) ← create_ipv4_listening_socket port a.socket
  enter_service_loop n ring_size kernel_poll_mode rings acc a ls

-- From the end of the loop on: `do_service_loop_cleanup`, which gives the rings back first, and
-- `do_exit_cleanup`. The regions unmapped and the ring's descriptor come with the last state.
unfoldable pub finish :
    (close : ℤ → ℤ) (fuel : ℕ) → FreeAnswer → Running → Server → Run (List Region × ℤ × Server)
finish close fuel munmap r s = do
  (regions, ring_fd) ← iou_free r.mapped munmap
  s ← do_service_loop_cleanup close fuel s
  s ← do_exit_cleanup close (pos r.listening_socket) s
  ok (regions, ring_fd, s)

module _ (n port ring_size : ℕ) (kernel_poll_mode : Bool) (rings : Mapped → Iou) (acc : Ptr)
    (a : Before) where
  abbrev setup_flags : ℕ
  setup_flags = (iou_config_params kernel_poll_mode).flags

  -- The rings that `iou_create` mapped, and the loop on them.
  IsBegun : Running → Type 0
  IsBegun r =
      (iou_create ring_size kernel_poll_mode a.io_uring_setup a.mmap ≡ ok (r.mapped, r.regions))
      × (start_loop n (no_clients (rings r.mapped) acc) acc (pos r.listening_socket) ≡ ok r.loop)

  -- The calls after `start_loop` change nothing.
  masked-IsBegun :
      (r : Running) (ls : ℕ) (m : Mapped) (regions : List Region) (loop : Loop)
      → iou_create ring_size kernel_poll_mode a.io_uring_setup a.mmap ≡ ok (m, regions)
      → start_loop n (no_clients (rings m) acc) acc (pos ls) ≡ ok loop
      → (create_signal_masks (a.masks).get (a.masks).empty (a.masks).add
          >> ((if kernel_poll_mode then ok tt else assert_zero (a.masks).block)
              >> ok (record { listening_socket = ls; mapped = m; regions = regions; loop = loop })))
        ≡ ok r
      → IsBegun r
  unfolding IsBegun
  masked-IsBegun r ls m regions loop created began ran =
      let (_, _, more) =
        >>=-returned (create_signal_masks (a.masks).get (a.masks).empty (a.masks).add) _ ran in
      let (_, _, done) =
        >>=-returned (if kernel_poll_mode then ok tt else assert_zero (a.masks).block) _ more in
      let same : record { listening_socket = ls; mapped = m; regions = regions; loop = loop } ≡ r =
        cc in
      subst IsBegun same (created, began)

  enter_service_loop-IsBegun :
      (r : Running) (ls : ℕ)
      → enter_service_loop n ring_size kernel_poll_mode rings acc a ls ≡ ok r
      → IsBegun r
  unfolding enter_service_loop
  enter_service_loop-IsBegun r ls ran =
      let ((m, regions), created, more) =
        >>=-returned (iou_create ring_size kernel_poll_mode a.io_uring_setup a.mmap) _ ran in
      let (loop, began, more) =
        >>=-returned (start_loop n (no_clients (rings m) acc) acc (pos ls)) _ more in
      masked-IsBegun r ls m regions loop created began more

  begin-IsBegun :
      (r : Running) → begin n port ring_size kernel_poll_mode rings acc a ≡ ok r → IsBegun r
  unfolding begin
  begin-IsBegun r ran =
      let (_, _, more) = >>=-returned (register_signal_handler a.sigaction) _ ran in
      let ((ls, _), _, more) = >>=-returned (create_ipv4_listening_socket port a.socket) _ more in
      enter_service_loop-IsBegun r ls more

  -- As the loop is entered, all is well.
  begin-IsServing :
      (r : Running)
      → IsBegun r
      → IsQueue (rings r.mapped) []
      → IsPosted (rings r.mapped) []
      → acc ≢ null
      → IsServing setup_flags acc (pos r.listening_socket) (entered r.loop)
  unfolding IsBegun mem_t_create
  begin-IsServing r (_, began) q posted ne =
      let (loop, ran, _, serving) =
        start_loop-IsServing n setup_flags acc (pos r.listening_socket)
          (no_clients (rings r.mapped) acc) accept_req q posted
          (record { head = refl; tail = refl; chain = tt }) ne (rw (eq_self acc)) refl
          (λ p other. ground arith) (λ t. refl) in
      let same : loop ≡ r.loop = (let e = sym ran ∙ began in cc) in
      subst (λ l. IsServing setup_flags acc (pos r.listening_socket) (entered l)) same serving

  -- `do_exit_cleanup` after it.
  cleanup-exit :
      {A : Type 0} (f : Server → A) (close : ℤ → ℤ) (fuel : ℕ) (s s' : Server) (fds : List ℤ)
      (ls : ℤ)
      → do_service_loop_cleanup close fuel s ≡ (if all_close close fds then ok s' else exited)
      → (do_service_loop_cleanup close fuel s >>= λ s1.
          do_exit_cleanup close ls s1 >>= λ s2. ok (f s2))
        ≡ (if all_close close (fds ++ (ls ∷ []))
            then ok (f (record s' { closed = s'.closed ++ (ls ∷ []) }))
            else exited)
  unfolding do_exit_cleanup
  cleanup-exit f close fuel s s' fds ls e =
      if->>= (all_close close fds) s' (do_service_loop_cleanup close fuel s)
        (λ s1. do_exit_cleanup close ls s1 >>= λ s2. ok (f s2)) e
      ∙ rw (all_close-append_one close fds ls) (elim (Bool-cases (all_close close fds)) [
        | inr stays ↦ rw stays
        | inl closed ↦ elim (Bool-cases (is_zero (close ls))) [
          | inl last ↦ simp (closed, last, assert_zero-ok (close ls) last)
          | inr fails ↦ simp (closed, fails, assert_zero-exited (close ls) fails)
        ]
      ])

  -- What `finish` does to a server that began and whose loop is stopped in any state that it and the
  -- kernel reach. The clients in the tracker have one descriptor each. If `close` fails for one of
  -- these or for the listening socket, the process exits. Else `finish` returns: it has given back
  -- every region that was mapped and the ring's descriptor, and closed exactly those descriptors, the
  -- clients' in the order of their arrival and at last the listening socket; no tracker node is
  -- allocated then, and no operation but the accept request on the stack. The rings are empty as they
  -- are mapped, and not at address 0; `munmap` succeeds, and so does the `close` of the ring's
  -- descriptor; one round more than there are clients is fuel enough.
  pub finish-begin :
      (r : Running) (w : World) (close : ℤ → ℤ)
      → begin n port ring_size kernel_poll_mode rings acc a ≡ ok r
      → IsQueue (rings r.mapped) []
      → IsPosted (rings r.mapped) []
      → acc ≢ null
      → (a.mmap).cq ≢ some null
      → Reaches n setup_flags (entered r.loop) w
      → (cs : Cells Ptr) × (fds : List ℤ) × IsList w.loop.server.tracker w.loop.server.nodes cs
        × Tracks w.loop.server.ops cs fds
        × (s' : Server) × (finish close (suc (length cs)) freed r w.loop.server ≡ (
            if all_close close (fds ++ (pos r.listening_socket ∷ []))
            then ok (r.regions, (a.io_uring_setup (iou_config_params kernel_poll_mode)).0, s')
            else exited))
        × (s'.closed ≡ w.loop.server.closed ++ (fds ++ (pos r.listening_socket ∷ [])))
        × ((t : Ptr) → s'.nodes t ≡ none)
        × ((p : Ptr) → p ≢ acc → s'.ops p ≡ none)
        × (s'.tracker ≡ ends null null)
  unfolding finish IsBegun
  finish-begin r w close ran q posted ne apart reached =
      let begun = begin-IsBegun r ran in
      let (returned, _, _) =
        iou_free-iou_create ring_size kernel_poll_mode a.io_uring_setup a.mmap r.mapped r.regions
          begun.0 apart in
      let (cs, fds, tracked, tracks, s', cleaned, closed, no_node, no_op, gone) =
        Reaches-do_service_loop_cleanup n setup_flags acc (pos r.listening_socket) (entered r.loop)
          w close (begin-IsServing r begun q posted ne) reached in
      let ls = pos r.listening_socket in
      let last = record s' { closed = s'.closed ++ (ls ∷ []) } in
      (
        cs,
        fds,
        tracked,
        tracks,
        last,
        rw returned (
            cleanup-exit
              (λ s2. (r.regions, (a.io_uring_setup (iou_config_params kernel_poll_mode)).0, s2))
              close (suc (length cs)) w.loop.server s' fds (pos r.listening_socket) cleaned),
        rw closed (append_assoc w.loop.server.closed fds (ls ∷ [])),
        no_node,
        no_op,
        gone,
      )
