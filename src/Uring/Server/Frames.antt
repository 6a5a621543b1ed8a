-- ===== src/Uring/Server/Frames.antt =====
-- Which operations a handler of the io_uring server writes to.
use linux_modern_io_multiple.Prelude.{ℕ, ◌≡◌, ◌≢◌, ◌∙◌, refl, arith, ◌==◌}
use linux_modern_io_multiple.Prelude.Int.{ℤ, negsuc}
use linux_modern_io_multiple.Prelude.Run.{
  assert_zero, assert_nnull, from_cell, Yields, Yields-bind, Yields-chain, Yields-if, Yields-weaken,
}
use linux_modern_io_multiple.Links.{Ptr, null, free}
use linux_modern_io_multiple.Uring.Tracker.{mem_t_push_back, mem_t_remove_node}
use linux_modern_io_multiple.Uring.Ring.{IouOp, info_con, iou_config_and_submit}
use linux_modern_io_multiple.Uring.Server.{
  Server, Allocated, load_op, store_op, write_op, con_of, free_op, submit, new_op,
  handle_new_client, handle_closing_client, handle_cqe_close, prep_close_client_req,
}

-- From `s` to `s'`, the operations elsewhere than at `p` and `r` are not written to.
abbrev pub KeepsOps : Server → Ptr → Ptr → Server → Type 0
KeepsOps s p r s' = (q : Ptr) → q ≢ p → q ≢ r → s'.ops q ≡ s.ops q

pub store_op-KeepsOps :
    (s : Server) (p r : Ptr) (op : IouOp) (s' : Server)
    → s'.ops ≡ (store_op s p op).ops
    → KeepsOps s p r s'
unfolding store_op write_op
store_op-KeepsOps s p r op s' e q other _ = rw e (ground arith)

pub submit-ops :
    (n : ℕ) (s : Server) (p : Ptr) → Yields (λ (s' : Server). s'.ops ≡ s.ops) (submit n s p)
unfolding submit
submit-ops n s p = Yields-bind _ (load_op s p) _ (λ op.
    Yields-bind _ (iou_config_and_submit n s.iou p op) _
      (λ x. Yields-bind _ (assert_zero x.0) _ (λ _. refl)))

pub handle_new_client-KeepsOps :
    (n : ℕ) (s : Server) (p : Ptr) (socket : ℤ) (a : Allocated)
    → Yields (KeepsOps s p a.op_ptr) (handle_new_client n s socket a)
unfolding handle_new_client store_op write_op
handle_new_client-KeepsOps n s p socket a = Yields-bind _ (assert_nnull a.tracker_ptr) _ (λ _.
    Yields-bind _ (assert_nnull a.op_ptr) _ (λ _.
      Yields-bind _ (mem_t_push_back s.tracker a.tracker_ptr _) _ (λ (tracker, nodes).
        let s1 = record s { tracker = tracker; nodes = nodes } in
        let s2 = store_op s1 a.op_ptr (new_op n a.tracker_ptr socket) in
        Yields-weaken _ _ (submit n s2 a.op_ptr) (submit-ops n s2 a.op_ptr)
          (λ s' e q _ other. rw e (ground arith)))))

pub prep_close_client_req-KeepsOps :
    (n : ℕ) (s : Server) (p r : Ptr)
    → Yields (λ ((k, s') : ℕ × Server). KeepsOps s p r s') (prep_close_client_req n s p)
unfolding prep_close_client_req
prep_close_client_req-KeepsOps n s p r = Yields-bind _ (load_op s p) _ (λ op.
    Yields-chain _ _ (submit n (store_op s p _) p) _ (submit-ops n (store_op s p _) p)
      (λ s' e. store_op-KeepsOps s p r _ s' e))

free_op-KeepsOps : (s : Server) (p r : Ptr) → Yields (KeepsOps s p r) (free_op s p)
unfolding free_op write_op
free_op-KeepsOps s p r =
    Yields-if _ (p == null) _ _ (λ q _ _. refl)
      (Yields-bind _ (from_cell (s.ops p)) _ (λ _ q other _. ground arith))

handle_closing_client-KeepsOps :
    (s : Server) (p r : Ptr) → Yields (KeepsOps s p r) (handle_closing_client s p)
unfolding handle_closing_client
handle_closing_client-KeepsOps s p r = Yields-bind _ (load_op s p) _ (λ op.
    Yields-bind _ (mem_t_remove_node s.tracker op.mem_tracker s.nodes) _ (λ x.
      Yields-bind _ (free x.1 op.mem_tracker) _
        (λ nodes. free_op-KeepsOps (record s { tracker = x.0; nodes = nodes }) p r)))

pub handle_cqe_close-KeepsOps :
    (s : Server) (p r : Ptr) (result : ℤ)
    → Yields (λ ((k, s') : ℕ × Server). KeepsOps s p r s') (handle_cqe_close s p result)
unfolding handle_cqe_close
handle_cqe_close-KeepsOps s p r result = Yields-bind _ (assert_zero result) _ (λ _.
    Yields-bind _ (load_op s p) _ (λ op. Yields-bind _ (con_of op.info) _ (λ con.
      let s1 = store_op s p (record op { info = info_con (record con { fd = negsuc 0 }) }) in
      Yields-chain _ _ (handle_closing_client s1 p) _ (handle_closing_client-KeepsOps s1 p r)
        (λ s' keeps q other other_r.
          keeps q other other_r ∙ store_op-KeepsOps s p r _ s1 refl q other other_r))))
