-- ===== src/Uring/Loop/Clients.antt =====
-- The operations of the clients that the tracker leads to.
use linux_modern_io_multiple.Prelude.{
  ℕ, ◌≡◌, ◌≢◌, ◌∙◌, subst, sym, arith, [], ◌∷◌, ◌++◌, some, none, Bool-cases, inl, inr, true, ◌==◌,
}
use linux_modern_io_multiple.Prelude.Int.{ℤ}
use linux_modern_io_multiple.Links.{Ptr, null}
use linux_modern_io_multiple.Links.Chain.{Cells, has}
use linux_modern_io_multiple.Uring.Ring.{
  ClientCon, IouOp, recv_from_client, send_to_client, close_connection,
}
use linux_modern_io_multiple.Uring.Server.{Ops}
use linux_modern_io_multiple.Uring.Server.Clients.{accept_op}
use linux_modern_io_multiple.Uring.Server.Echo.{client_op}

-- At `p` is an operation of a connection, which `t` tracks.
pub data IsClient (ops : Ops) (t p : Ptr) : Type 0 where
  receives : (con : ClientCon) → ops p ≡ some (client_op recv_from_client con t) → IsClient ops t p
  sends : (con : ClientCon) → ops p ≡ some (client_op send_to_client con t) → IsClient ops t p
  closes : (con : ClientCon) → ops p ≡ some (client_op close_connection con t) → IsClient ops t p

abbrev pub AreClients : Ops → Cells Ptr → Type 0
AreClients ops [] = Unit
AreClients ops ((t, p) ∷ cs) = (p ≢ null) × IsClient ops t p × AreClients ops cs

pub IsClient-same :
    (ops ops' : Ops) (t p : Ptr) → ops' p ≡ ops p → IsClient ops t p → IsClient ops' t p
IsClient-same ops ops' t p e (receives con f) = receives con (e ∙ f)
IsClient-same ops ops' t p e (sends con f) = sends con (e ∙ f)
IsClient-same ops ops' t p e (closes con f) = closes con (e ∙ f)

-- The operation leads back to its tracker node.
pub IsClient-tracker :
    (ops : Ops) (t p : Ptr) (op : IouOp) → IsClient ops t p → ops p ≡ some op → op.mem_tracker ≡ t
IsClient-tracker ops t p op (receives con f) e = cc
IsClient-tracker ops t p op (sends con f) e = cc
IsClient-tracker ops t p op (closes con f) e = cc

-- Nobody else tracks it.
pub IsClient-unique : (ops : Ops) (t u p : Ptr) → IsClient ops t p → IsClient ops u p → t ≡ u
IsClient-unique ops t u p (receives con e) c =
    IsClient-tracker ops u p (client_op recv_from_client con t) c e
IsClient-unique ops t u p (sends con e) c =
    IsClient-tracker ops u p (client_op send_to_client con t) c e
IsClient-unique ops t u p (closes con e) c =
    IsClient-tracker ops u p (client_op close_connection con t) c e

-- It is not the one that accepts.
pub IsClient-not_accept :
    (ops : Ops) (t p q : Ptr) (ls : ℤ) (l : ℕ)
    → IsClient ops t p
    → ops q ≡ some (accept_op ls l)
    → q ≢ p
IsClient-not_accept ops t p q ls l (receives con f) e same =
    let g = subst (λ r. ops r ≡ some (accept_op ls l)) same e in cc
IsClient-not_accept ops t p q ls l (sends con f) e same =
    let g = subst (λ r. ops r ≡ some (accept_op ls l)) same e in cc
IsClient-not_accept ops t p q ls l (closes con f) e same =
    let g = subst (λ r. ops r ≡ some (accept_op ls l)) same e in cc

-- It is allocated.
pub IsClient-allocated : (ops : Ops) (t p q : Ptr) → IsClient ops t p → ops q ≡ none → p ≢ q
IsClient-allocated ops t p q (receives con f) e same =
    let g = subst (λ r. ops r ≡ none) (sym same) e in cc
IsClient-allocated ops t p q (sends con f) e same =
    let g = subst (λ r. ops r ≡ none) (sym same) e in cc
IsClient-allocated ops t p q (closes con f) e same =
    let g = subst (λ r. ops r ≡ none) (sym same) e in cc

-- A client's operation becomes another of the same connection's.
pub IsClient-stored :
    (ops ops' : Ops) (t p u q : Ptr) (op : IouOp)
    → ops p ≡ some op
    → op.mem_tracker ≡ t
    → IsClient ops' t p
    → ((r : Ptr) → r ≢ p → ops' r ≡ ops r)
    → IsClient ops u q
    → IsClient ops' u q
IsClient-stored ops ops' t p u q op here tracked new others old = elim (Bool-cases (q == p)) [
  | inl hit ↦
      let same : q ≡ p = ground arith in
      let back = IsClient-tracker ops u q op old (subst (λ r. ops r ≡ some op) (sym same) here) in
      let e : t ≡ u = sym tracked ∙ back in
      subst (λ r. IsClient ops' u r) (sym same) (subst (λ r. IsClient ops' r p) e new)
  | inr miss ↦ IsClient-same ops ops' u q (others q (ground arith)) old
]

pub AreClients-along :
    (ops ops' : Ops) (cs : Cells Ptr)
    → ((t p : Ptr) → has t cs ≡ true → IsClient ops t p → IsClient ops' t p)
    → AreClients ops cs
    → AreClients ops' cs
AreClients-along ops ops' [] f c = tt
AreClients-along ops ops' ((t, p) ∷ cs) f (ne, c, rest) =
    (ne, f t p (ground arith) c, AreClients-along ops ops' cs (λ u q i. f u q (ground arith)) rest)

pub AreClients-append :
    (ops : Ops) (xs ys : Cells Ptr)
    → AreClients ops xs
    → AreClients ops ys
    → AreClients ops (xs ++ ys)
AreClients-append ops [] ys c d = d
AreClients-append ops ((t, p) ∷ xs) ys (ne, c, rest) d = (ne, c, AreClients-append ops xs ys rest d)

pub AreClients-split :
    (ops : Ops) (xs ys : Cells Ptr)
    → AreClients ops (xs ++ ys)
    → AreClients ops xs × AreClients ops ys
AreClients-split ops [] ys c = (tt, c)
AreClients-split ops ((t, p) ∷ xs) ys (ne, c, rest) =
    let (front, back) = AreClients-split ops xs ys rest in ((ne, c, front), back)
