-- ===== src/Poll/Cleanup.antt =====
-- What the clean-up of the poll server closes and frees.
use linux_modern_io_multiple.Prelude.{
  ℕ, zero, suc, ◌<◌, ◌≡◌, ◌≢◌, ◌⊎◌, inl, inr, refl, sym, ap, ◌∙◌, arith, Option, some, none,
  Bool-cases, true, false, not, ltb, ◌==◌, ◌&&◌, List, [], ◌∷◌, ◌++◌, append_assoc, append-nil,
  length, length-append, length-take, get_elem?, Bool, if◌then◌else◌,
}
use linux_modern_io_multiple.Prelude.Arrays.{zip, length-zip}
use linux_modern_io_multiple.Prelude.Int.{ℤ, pos, negsuc, eqb_ℤ, eqb_ℤ→eq, eqb_ℤ-ne, eqb_ℤ-refl}
use linux_modern_io_multiple.Prelude.Run.{ok}
use linux_modern_io_multiple.Pollfd.{Ptr, Pollfd}
use linux_modern_io_multiple.Pollfd.Invariant.{IsValid}
use linux_modern_io_multiple.Pollfd.Contents.{Entry, contents}
use linux_modern_io_multiple.Poll.{Server, EchoConnection, write_con, free_con, after}
use linux_modern_io_multiple.Poll.Entries.{IsAt, entry-IsAt}
use linux_modern_io_multiple.Poll.Stop.{close_entries, do_client_connections_cleanup}

-- No entry has this connection.
abbrev pub Lacks : Ptr → List Entry → Type 0
Lacks q [] = Unit
Lacks q ((_, p) ∷ xs) = (q ≢ p) × Lacks q xs

-- Each entry but the listening socket has a connection of its own; descriptors close.
abbrev pub Owned : (ℤ → ℤ) → ℤ → (Ptr → Option EchoConnection) → List Entry → Type 0
Owned close ls cons [] = Unit
Owned close ls cons ((e, q) ∷ xs) =
    ((e.fd ≡ ls)
      ⊎ ((e.fd ≢ ls)
          × (close e.fd ≡ pos 0)
          × (q ≢ 0)
          × ((con : EchoConnection) × (cons q ≡ some con))
          × Lacks q xs))
    × Owned close ls cons xs

-- The descriptors to close, in order.
abbrev pub to_close : ℤ → List Entry → List ℤ
to_close ls [] = []
to_close ls ((e, q) ∷ xs) = if eqb_ℤ e.fd ls then to_close ls xs else e.fd ∷ to_close ls xs

-- Whose connections are gone.
abbrev pub Freed : ℤ → (Ptr → Option EchoConnection) → List Entry → Type 0
Freed ls cons [] = Unit
Freed ls cons ((e, q) ∷ xs) = ((e.fd ≡ ls) ⊎ (cons q ≡ none)) × Freed ls cons xs

get_elem?-middle :
    (xs : List Entry) (y : Entry) (ys : List Entry)
    → get_elem? (xs ++ (y ∷ ys)) (length xs) ≡ some y
get_elem?-middle [] y ys = refl
get_elem?-middle (x ∷ xs) y ys = get_elem?-middle xs y ys

Owned-without :
    (close : ℤ → ℤ) (ls : ℤ) (cons : Ptr → Option EchoConnection) (p : Ptr) (xs : List Entry)
    → Lacks p xs
    → Owned close ls cons xs
    → Owned close ls (write_con cons p none) xs
unfolding write_con
Owned-without close ls cons p [] lacks o = tt
Owned-without close ls cons p ((e, q) ∷ xs) (ne, lacks) (inl listening, o) =
    (inl listening, Owned-without close ls cons p xs lacks o)
Owned-without close ls cons p ((e, q) ∷ xs) (ne, lacks)
      (inr (other, c, q0, (con, here), apart), o) =
    (
      inr (other, c, q0, (con, ground (arith, ne, here)), apart),
      Owned-without close ls cons p xs lacks o,
    )

-- Where the loop stands before the entries `ys`, and where it leads.
record Closed (close : ℤ → ℤ) (ls timer_fd : ℤ) (fuel i : ℕ) (s : Server) (ys : List Entry)
    : Type 0 where
  pub server : Server
  pub ran : close_entries close ls timer_fd fuel i s ≡ ok server
  pub closed : server.closed ≡ s.closed ++ to_close ls ys
  pub freed : Freed ls server.cons ys
  pub others : (q : Ptr) → Lacks q ys → server.cons q ≡ s.cons q
  pub vec : server.vec ≡ s.vec
  pub sent : server.sent ≡ s.sent

length-contents : (s : Server) → IsValid s.vec → length (contents s.vec) ≡ (s.vec).size
unfolding contents
length-contents s iv =
    let v = s.vec in
    omega (
      arith,
      length-take v.size (zip v.slots v.pd),
      length-zip v.slots v.pd (iv.slots ∙ sym iv.pd),
      iv.within,
      iv.slots,
    )

if_same : (b : Bool) (x y : ℤ) → x ≡ y → (if b then x else y) ≡ y
if_same true x y e = e
if_same false x y e = refl

module _ (close : ℤ → ℤ) (ls timer_fd : ℤ) where
  -- The timer's branch closes the entry's descriptor too.
  closes_same : (b : Bool) (fd : ℤ) → (if b && eqb_ℤ fd timer_fd then timer_fd else fd) ≡ fd
  closes_same false fd = refl
  closes_same true fd = elim (Bool-cases (eqb_ℤ fd timer_fd)) [
    | inl same ↦ if_same (eqb_ℤ fd timer_fd) timer_fd fd (sym (eqb_ℤ→eq fd timer_fd same))
    | inr other ↦ simp (other)
  ]

  -- Behind the last entry, the loop ends.
  Closed-end :
      (fuel i : ℕ) (s : Server)
      → ltb i (s.vec).size ≡ false
      → Closed close ls timer_fd (suc fuel) i s []
  unfolding close_entries
  Closed-end fuel i s done = record {
    server = s;
    ran = simp (done);
    closed = sym (append-nil s.closed);
    freed = tt;
    others = λ q l. refl;
    vec = refl;
    sent = refl;
  }

  module _ (fuel i : ℕ) (s : Server) (e : Pollfd) (q : Ptr) (ys : List Entry)
      (more : ltb i (s.vec).size ≡ true) (found : IsAt s.vec i e q) where
    -- The listening socket's entry is left out.
    Closed-skipped :
        e.fd ≡ ls
        → Closed close ls timer_fd fuel (after i) s ys
        → Closed close ls timer_fd (suc fuel) i s ((e, q) ∷ ys)
    unfolding close_entries
    Closed-skipped listening rest =
        let skipped : eqb_ℤ e.fd ls ≡ true = rw listening (eqb_ℤ-refl ls) in
        record {
          server = rest.server;
          ran = simp (more, found.slot, skipped, rest.ran);
          closed = simp (skipped) rest.closed;
          freed = (inl listening, rest.freed);
          others = λ r l. rest.others r l.1;
          vec = rest.vec;
          sent = rest.sent;
        }

    -- Another entry's descriptor is closed, and its connection freed.
    Closed-entry :
        (con : EchoConnection)
        → e.fd ≢ ls
        → close e.fd ≡ pos 0
        → q ≢ 0
        → s.cons q ≡ some con
        → Lacks q ys
        → Closed close ls timer_fd fuel
            (after i)
            (record s { closed = s.closed ++ (e.fd ∷ []); cons = write_con s.cons q none })
            ys
        → Closed close ls timer_fd (suc fuel) i s ((e, q) ∷ ys)
    unfolding close_entries free_con
    Closed-entry con other closes q0 here lacks rest =
        let kept : eqb_ℤ e.fd ls ≡ false = eqb_ℤ-ne e.fd ls other in
        let not_null : (q == 0) ≡ false = ground arith in
        let same = closes_same (not (eqb_ℤ timer_fd (negsuc 0))) e.fd in
        record {
          server = rest.server;
          ran = simp (more, found.slot, kept, same, closes, found.pd, not_null, here, rest.ran);
          closed = simp (kept) (rest.closed ∙ append_assoc s.closed (e.fd ∷ []) (to_close ls ys));
          freed = (inr (rest.others q lacks ∙ (unfold write_con in ground arith)), rest.freed);
          others = λ r l. rest.others r l.1 ∙ (unfold write_con in ground (arith, l.0));
          vec = rest.vec;
          sent = rest.sent;
        }

  close_entries_lem :
      (fuel i : ℕ) (s : Server) (xs ys : List Entry)
      → IsValid s.vec
      → contents s.vec ≡ xs ++ ys
      → i ≡ length xs
      → length ys < fuel
      → Owned close ls s.cons ys
      → Closed close ls timer_fd fuel i s ys
  close_entries_lem zero i s xs ys iv c at enough owned = absurd (omega arith)
  close_entries_lem (suc fuel) i s xs [] iv c at enough owned =
      let all : i ≡ (s.vec).size =
        omega (arith, at, ap length c, length-append xs [], length-contents s iv) in
      Closed-end fuel i s (ground arith)
  close_entries_lem (suc fuel) i s xs ((e, q) ∷ ys) iv c at enough (mine, owned) =
      let more : i < (s.vec).size =
        omega (arith, at, ap length c, length-append xs ((e, q) ∷ ys), length-contents s iv) in
      let found =
        entry-IsAt s.vec i e q more
          (ap (λ l. get_elem? l i) c ∙ (rw at (get_elem?-middle xs (e, q) ys))) in
      let onward : after i ≡ length (xs ++ ((e, q) ∷ [])) =
        omega (arith, at, length-append xs ((e, q) ∷ []), iv.small, iv.within) in
      let rest_of : contents s.vec ≡ (xs ++ ((e, q) ∷ [])) ++ ys =
        c ∙ sym (append_assoc xs ((e, q) ∷ []) ys) in
      elim mine [
        | inl listening ↦ Closed-skipped fuel i s e q ys (ground arith) found listening (
            close_entries_lem fuel (after i) s (xs ++ ((e, q) ∷ [])) ys iv rest_of onward
              (omega arith) owned)
        | inr (other, closes, q0, (con, here), lacks) ↦
            Closed-entry fuel i s e q ys (ground arith) found con other closes q0 here lacks (
              close_entries_lem fuel (after i)
                (record s { closed = s.closed ++ (e.fd ∷ []); cons = write_con s.cons q none })
                (xs ++ ((e, q) ∷ [])) ys iv rest_of onward (omega arith)
                (Owned-without close ls s.cons q ys lacks owned))
      ]

  -- The clean-up after the loop closes the descriptor of every entry of the vector but the listening
  -- socket's, each once and in their order, and frees their connections and no other. Each of those
  -- entries has a connection of its own, and `close` succeeds for each. One round more than there are
  -- entries is fuel enough.
  pub do_client_connections_cleanup-closed :
      (fuel : ℕ) (s : Server)
      → IsValid s.vec
      → (s.vec).size < fuel
      → Owned close ls s.cons (contents s.vec)
      → (s' : Server) × (do_client_connections_cleanup close ls timer_fd fuel s ≡ ok s')
        × (s'.closed ≡ s.closed ++ to_close ls (contents s.vec))
        × Freed ls s'.cons (contents s.vec)
        × ((q : Ptr) → Lacks q (contents s.vec) → s'.cons q ≡ s.cons q)
        × (s'.sent ≡ s.sent)
  unfolding do_client_connections_cleanup
  do_client_connections_cleanup-closed fuel s iv enough owned =
      let all =
        close_entries_lem fuel 0 s [] (contents s.vec) iv refl refl
          (omega (arith, enough, length-contents s iv)) owned in
      (all.server, all.ran, all.closed, all.freed, all.others, all.sent)
