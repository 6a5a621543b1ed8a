-- ===== src/Uring/Server/Clients.antt =====
-- The clients that the server knows: accepting, closing, and the clean-up at the end.
use linux_modern_io_multiple.Prelude.{
  ℕ, suc, ◌<◌, ◌≡◌, ◌≢◌, refl, sym, ◌∙◌, arith, List, [], ◌∷◌, ◌++◌, append_assoc, length,
  length-append, true, false, ◌==◌, some, none, replicate, Option,
}
use linux_modern_io_multiple.Prelude.Int.{ℤ, pos, negsuc}
use linux_modern_io_multiple.Prelude.Run.{ok}
use linux_modern_io_multiple.Links.{Ptr, null, Node, node, write, Ends}
use linux_modern_io_multiple.Links.Chain.{
  Cells, has, Linked, IsList, SameOutside, Linked-frame, Linked-split, has-append, has_other,
  free-ok, not_null, eq_self,
}
use linux_modern_io_multiple.Uring.Tracker.{TrackerHeap, mem_t_push_back}
use linux_modern_io_multiple.Uring.Tracker.Lists.{
  Apart-out, mem_t_push_back-append, mem_t_remove_node-rest,
}
use linux_modern_io_multiple.Uring.Ring.{
  Sqe, IouOp, accepted_connection, close_connection, ClientCon, info_accept, config_sqe, zero_sqe,
  Opcode, Addr, sock_nonblock,
}
use linux_modern_io_multiple.Uring.Ring.Completion.{SameCompletions, SameCompletions-trans}
use linux_modern_io_multiple.Uring.Ring.Submission.{IsQueue}
use linux_modern_io_multiple.Net.{server_buffer_size}
use linux_modern_io_multiple.Uring.Server.{
  Server, Allocated, load_op, store_op, write_op, con_of, new_op, handle_new_client,
  handle_closing_client, free_op, handle_cqe_accept, handle_cqe_close, handle, service_cqe_events,
}
use linux_modern_io_multiple.Uring.Server.Submit.{submit-append}
use linux_modern_io_multiple.Uring.Server.Echo.{
  submit-store_op, recv_sqe, client_op, load_op-ok, cqe_of,
}

pub not_in_rest :
    (h : TrackerHeap) (b : Ptr) (xs ys : Cells Ptr) (t p : Ptr)
    → Linked h b (xs ++ ((t, p) ∷ ys)) null
    → has t (xs ++ ys) ≡ false
not_in_rest h b xs ys t p chain =
    let (_, (_, _, out, _), apart) = Linked-split h b xs ((t, p) ∷ ys) null chain in
    let off = Apart-out xs ys t p apart in rw (has-append t xs ys, off) out

pub write-other :
    (h : TrackerHeap) (t q : Ptr) (c : Option (Node Ptr)) → (q == t) ≡ false → write h t c q ≡ h q
unfolding write
write-other h t q c e = simp e

-- What is outside the list is not a node of it.
outside : (t p q : Ptr) (xs ys : Cells Ptr) → has q (xs ++ ((t, p) ∷ ys)) ≡ false → (q == t) ≡ false
outside t p q xs ys out = ground (arith, has-append q xs ((t, p) ∷ ys))

-- A close that succeeded takes the client out of the tracker, wherever it stands there, and frees its
-- operation and its tracker node; the other clients stay, in their order, and nothing outside the
-- tracker is written to.
pub service_cqe_events-closed :
    (n : ℕ) (s : Server) (xs ys : Cells Ptr) (t p : Ptr) (con : ClientCon) (a : Allocated)
    → IsList s.tracker s.nodes (xs ++ ((t, p) ∷ ys))
    → t ≢ null
    → p ≢ null
    → s.ops p ≡ some (client_op close_connection con t)
    → (s' : Server) × (service_cqe_events n s (cqe_of p (pos 0)) a ≡ ok (0, s'))
      × IsList s'.tracker s'.nodes (xs ++ ys)
      × (s'.ops p ≡ none)
      × (s'.nodes t ≡ none)
      × ((q : Ptr) → q ≢ p → s'.ops q ≡ s.ops q)
      × (s'.iou ≡ s.iou)
      × SameOutside (xs ++ ((t, p) ∷ ys)) s.nodes s'.nodes
unfolding service_cqe_events handle handle_cqe_close handle_closing_client con_of store_op load_op
    free_op write_op
service_cqe_events-closed n s xs ys t p con a il tne pne e =
    let (l, g, ran, il', here, same) = mem_t_remove_node-rest s.tracker s.nodes xs ys t p il in
    (
      record s {
        tracker = l;
        nodes = write g t none;
        ops =
            write_op
              (write_op s.ops p
                (some (client_op close_connection (record con { fd = negsuc 0 }) t)))
              p none;
      },
      simp (not_null p pne, e, eq_self p, ran, free-ok g t (node p null null) tne here),
      record {
        head = il'.head;
        tail = il'.tail;
        chain =
            Linked-frame g (write g t none) null (xs ++ ys) null
              (λ q i.
                write-other g t q none
                  (has_other q t (xs ++ ys) i (not_in_rest s.nodes null xs ys t p il.chain)))
              il'.chain;
      },
      rw (eq_self p),
      (unfold write in rw (eq_self t)),
      λ q other. ground arith,
      refl,
      λ q out. write-other g t q none (outside t p q xs ys out) ∙ same q out,
    )

abbrev pub accept_sqe : Ptr → ℤ → Sqe
accept_sqe p fd = record zero_sqe {
  opcode = Opcode.accept;
  fd = fd;
  addr = Addr.accept_addr p;
  addr2 = Addr.accept_addrlen p;
  flags = sock_nonblock;
  user_data = p;
}

abbrev pub fresh_con : (n fd : ℕ) → ClientCon
fresh_con n fd = record {
  fd = pos fd;
  busy = true;
  buf_send_len = 0;
  buf = replicate (server_buffer_size n) 0;
}

abbrev pub accept_op : ℤ → ℕ → IouOp
accept_op fd l = record { op = accepted_connection; info = info_accept fd l; mem_tracker = null }

-- A node that is written for a new client comes behind the others.
pub tracked_new :
    (l : Ends) (h : TrackerHeap) (cs : Cells Ptr) (t p : Ptr)
    → IsList l h cs
    → t ≢ null
    → has t cs ≡ false
    → (l' : Ends) × (g : TrackerHeap) × (mem_t_push_back l t (write h t (some (node p null null)))
        ≡ ok (l', g))
      × IsList l' g (cs ++ ((t, p) ∷ []))
      × SameOutside (cs ++ ((t, p) ∷ [])) h g
tracked_new l h cs t p il ne out =
    let nodes = write h t (some (node p null null)) in
    let il0 : IsList l nodes cs = record {
      head = il.head;
      tail = il.tail;
      chain =
          Linked-frame h nodes null cs null
            (λ r i. write-other h t r (some (node p null null)) (has_other r t cs i out)) il.chain;
    } in
    let written : nodes t ≡ some (node p null null) = (unfold write in rw (eq_self t)) in
    let (l', g, pushed, il', same) =
      mem_t_push_back-append l nodes cs t p null null il0 ne out written in
    (
      l',
      g,
      pushed,
      il',
      λ q o. same q o ∙ write-other h t q (some (node p null null)) (outside t p q cs [] o),
    )

-- While the ring has room for two SQEs, an accepted connection is tracked behind the others, and
-- two SQEs follow: one that receives from it, and one that accepts the next. Memory is given for
-- both objects, new to the server; nothing else outside the tracker is written to.
pub service_cqe_events-accepted :
    (n : ℕ) (s : Server) (xs : List Sqe) (cs : Cells Ptr) (p : Ptr) (fd l : ℕ) (ls : ℤ)
    (a : Allocated)
    → IsQueue s.iou xs
    → suc (length xs) < (s.iou).ring_size
    → IsList s.tracker s.nodes cs
    → p ≢ null
    → s.ops p ≡ some (accept_op ls l)
    → a.tracker_ptr ≢ null
    → has a.tracker_ptr cs ≡ false
    → a.op_ptr ≢ null
    → p ≢ a.op_ptr
    → (s' : Server) × (service_cqe_events n s (cqe_of p (pos fd)) a ≡ ok (2, s'))
      × IsQueue s'.iou (xs ++ (recv_sqe n a.op_ptr (fresh_con n fd) ∷ (accept_sqe p ls ∷ [])))
      × IsList s'.tracker s'.nodes (cs ++ ((a.tracker_ptr, a.op_ptr) ∷ []))
      × (s'.ops a.op_ptr ≡ some (new_op n a.tracker_ptr (pos fd)))
      × ((q : Ptr) → q ≢ a.op_ptr → s'.ops q ≡ s.ops q)
      × SameCompletions s'.iou s.iou
      × SameOutside (cs ++ ((a.tracker_ptr, a.op_ptr) ∷ [])) s.nodes s'.nodes
unfolding service_cqe_events handle handle_cqe_accept handle_new_client config_sqe
service_cqe_events-accepted n s xs cs p fd l ls a q room il ne here tne out pne other =
    let (l', g, pushed, il', outer) =
      tracked_new s.tracker s.nodes cs a.tracker_ptr a.op_ptr il tne out in
    let s1 = record s { tracker = l'; nodes = g } in
    let (s2, ran, next) =
      submit-store_op n s1 xs a.op_ptr (new_op n a.tracker_ptr (pos fd))
        (recv_sqe n a.op_ptr (fresh_con n fd)) q (omega arith) pne refl in
    let kept = next.others p other ∙ here in
    let more : length (xs ++ (recv_sqe n a.op_ptr (fresh_con n fd) ∷ [])) < (s2.iou).ring_size =
      omega (
        arith,
        room,
        next.ring_size,
        length-append xs (recv_sqe n a.op_ptr (fresh_con n fd) ∷ []),
      ) in
    let (iou', again, q', _, cq) =
      submit-append n s2 (xs ++ (recv_sqe n a.op_ptr (fresh_con n fd) ∷ [])) next.queue p
        (accept_op ls l) (accept_sqe p ls) more (load_op-ok s2 p (accept_op ls l) ne kept) refl in
    (
      record s2 { iou = iou' },
      simp (
        load_op-ok s p (accept_op ls l) ne here,
        not_null a.tracker_ptr tne,
        not_null a.op_ptr pne,
        pushed,
        ran,
        again,
      ),
      rw (sym (append_assoc xs (recv_sqe n a.op_ptr (fresh_con n fd) ∷ []) (accept_sqe p ls ∷ [])))
          q',
      rw (next.tracker, next.nodes) il',
      next.here,
      next.others,
      SameCompletions-trans iou' s2.iou s.iou cq next.completions,
      λ r o. rw next.nodes (outer r o),
    )
