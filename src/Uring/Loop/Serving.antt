-- ===== src/Uring/Loop/Serving.antt =====
-- What the handlers do to a server of which all is well.
use linux_modern_io_multiple.Prelude.{
  ℕ, ◌<◌, ◌≡◌, ◌≢◌, refl, subst, arith, dec_lt, ℕ_discrete, List, [], ◌∷◌, ◌++◌, length, none, some,
  inl, inr, ap,
}
use linux_modern_io_multiple.Prelude.Int.{ℤ, pos, negsuc, pos_part}
use linux_modern_io_multiple.Links.{Ptr, null}
use linux_modern_io_multiple.Links.Chain.{Cells}
use linux_modern_io_multiple.Uring.Ring.{Sqe, Cqe, ClientCon, recv_from_client, send_to_client}
use linux_modern_io_multiple.Uring.Server.{Server, Allocated, service_cqe_events}
use linux_modern_io_multiple.Uring.Server.Echo.{
  client_op, cqe_of, send_sqe, recv_sqe, close_sqe, service_cqe_events-echo,
  service_cqe_events-hangup, service_cqe_events-sent, service_cqe_events-full,
  service_cqe_events-recv_exited,
}
use linux_modern_io_multiple.Uring.Server.Exits.{send-exited, hangup-full, sent-full}
use linux_modern_io_multiple.Uring.Loop.Clients.{IsClient, AreClients, AreClients-split}
use linux_modern_io_multiple.Uring.Loop.Clients.IsClient.{receives, sends, closes}
use linux_modern_io_multiple.Uring.Loop.Pending.{hit, hit_self, hit_ne, count_clients-Place}
use linux_modern_io_multiple.Uring.Loop.Stored.{Alive, Handled, Alive-Next}
use linux_modern_io_multiple.Uring.Loop.Accepting.{accept-Served}
use linux_modern_io_multiple.Uring.Loop.Closing.{close-Served}

module _ (n : ℕ) (acc : Ptr) (ls : ℤ) (s : Server) (flight : List Ptr) (xs : List Sqe)
    (ps : List Cqe) (cs : Cells Ptr) (p : Ptr) (a : Allocated)
    (alive : Alive acc ls s (p ∷ flight) xs ps cs) where
  abbrev Served : ℤ → Type 0
  Served r = Handled acc ls flight xs ps (service_cqe_events n s (cqe_of p r) a)

  full_queue : ¬ (length xs < (s.iou).ring_size) → length xs ≡ (s.iou).ring_size
  full_queue no_room = omega (arith, alive.queue.room)

  -- A receive that is complete.
  recv-Served :
      (con : ClientCon) (t : Ptr) (r : ℤ)
      → p ≢ null
      → s.ops p ≡ some (client_op recv_from_client con t)
      → Served r
  recv-Served con t (negsuc m) ne e =
      inl (service_cqe_events-recv_exited n s xs p con t a (negsuc m) ne e (λ k. cc) (λ k. cc))
  recv-Served con t (pos m) ne e = elim (ℕ_discrete m 0) [
    | yes hung ↦ elim (dec_lt (length xs) (s.iou).ring_size) [
      | yes room ↦
          let (s', ran, next) = service_cqe_events-hangup n s xs p con t a alive.queue room ne e in
          inr (record {
            server = s';
            sqes = close_sqe p con ∷ [];
            cells = cs;
            ran = rw hung ran;
            alive =
                Alive-Next acc ls s s' flight xs ps cs p t _ _ (close_sqe p con) alive e refl
                  (receives con e) (closes _ next.here) refl next;
          })
      | no full ↦ inl (rw hung (hangup-full n s p a xs alive.queue (full_queue full) con t ne e))
    ]
    | no some_bytes ↦ elim (ℕ_discrete m n) [
      | yes whole ↦ elim (dec_lt (length xs) (s.iou).ring_size) [
        | yes room ↦
            let (s', ran, next) =
              service_cqe_events-echo n s xs p con t a alive.queue room ne (omega arith) e in
            inr (record {
              server = s';
              sqes = send_sqe n p con ∷ [];
              cells = cs;
              ran = rw whole ran;
              alive =
                  Alive-Next acc ls s s' flight xs ps cs p t _ _ (send_sqe n p con) alive e refl
                    (receives con e) (sends _ next.here) refl next;
            })
        | no full ↦ inl (
            rw whole (
              service_cqe_events-full n s xs p con t a alive.queue (full_queue full) ne
                (omega arith) e))
      ]
      | no other ↦ inl (
          service_cqe_events-recv_exited n s xs p con t a (pos m) ne e
            (λ k. some_bytes (ap pos_part k)) (λ k. other (ap pos_part k)))
    ]
  ]

  -- A send.
  send-Served :
      (con : ClientCon) (t : Ptr) (r : ℤ)
      → p ≢ null
      → s.ops p ≡ some (client_op send_to_client con t)
      → Served r
  send-Served con t (negsuc m) ne e = inl (send-exited n s p a con t (negsuc m) ne e (λ k same. cc))
  send-Served con t (pos m) ne e = elim (dec_lt m n) [
    | yes short ↦ inl (
        send-exited n s p a con t (pos m) ne e
          (λ k same. let here : m ≡ k = ap pos_part same in ground arith))
    | no whole ↦ elim (dec_lt (length xs) (s.iou).ring_size) [
      | yes room ↦
          let (s', ran, next) =
            service_cqe_events-sent n s xs p con t a m alive.queue room ne (omega arith) e in
          inr (record {
            server = s';
            sqes = recv_sqe n p con ∷ [];
            cells = cs;
            ran = ran;
            alive =
                Alive-Next acc ls s s' flight xs ps cs p t _ _ (recv_sqe n p con) alive e refl
                  (sends con e) (receives _ next.here) refl next;
          })
      | no full ↦
          inl (sent-full n s p a xs alive.queue (full_queue full) con t m ne (ground arith) e)
    ]
  ]

  -- A client's operation.
  client-Served :
      (t : Ptr) (r : ℤ) (before after : Cells Ptr)
      → p ≢ null
      → cs ≡ before ++ ((t, p) ∷ after)
      → IsClient s.ops t p
      → Served r
  client-Served t r before after ne split (receives con e) = recv-Served con t r ne e
  client-Served t r before after ne split (sends con e) = send-Served con t r ne e
  client-Served t r before after ne split (closes con e) =
      close-Served n acc ls s flight xs ps cs p a alive con t r before after ne split e

  -- Any completion of an outstanding operation is served, or ends the process.
  pub service_cqe_events-Handled :
      (r : ℤ) → s.nodes a.tracker_ptr ≡ none → s.ops a.op_ptr ≡ none → Served r
  service_cqe_events-Handled r new_node new_op = elim (dec_lt 0 (hit p acc)) [
    | yes accepts ↦
        accept-Served n acc ls s flight xs ps cs p a alive r (hit_ne p acc accepts) new_node new_op
    | no client ↦
        let place = count_clients-Place p cs (omega (arith, alive.pending p, hit_self p)) in
        let cl = subst (λ l. AreClients s.ops l) place.split alive.clients in
        let (_, (ne, is, _)) =
          AreClients-split s.ops place.before ((place.tracker, p) ∷ place.after) cl in
        client-Served place.tracker r place.before place.after ne place.split is
  ]
