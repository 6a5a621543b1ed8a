-- ===== src/Poll/Loop.antt =====
-- The loop of `service_events` ends, although its index steps back.
use linux_modern_io_multiple.Prelude.{
  ℕ, zero, suc, ◌+◌, ◌-◌, ◌^◌, ◌<◌, ◌≤◌, ◌≢◌, refl, arith, Bool, true, false, ◌&&◌, ltb, ◌==◌, List,
  [], ◌∷◌, ◌++◌, Option, some, none, get_elem?, if◌then◌else◌, Bool-cases, inl, inr,
}
use linux_modern_io_multiple.Prelude.Int.{ℤ, pos}
use linux_modern_io_multiple.Prelude.Run.{
  Run, ok, exited, fault, out_of_fuel, ◌>>=◌, assert_zero, assert_nnull, from_cell,
}
use linux_modern_io_multiple.Net.{accept_client, read_n_echo, ReadAnswer, failed, got}
use linux_modern_io_multiple.Pollfd.{
  Ptr, Pollfd, PollfdVector, Answer, pollfdv_add, pollfdv_extend, add_entry, pollfdv_remove_index,
  replace_by_last, drop_last,
}
use linux_modern_io_multiple.Poll.{
  Server, Service, pollin, poll_add_fd, poll_handle_new_client, free_con, close_client, echo_client,
  handle_client_event, clear_revents, expire_timer, service_entry, before, after, service_from,
  service_events,
}

-- No part of the body of the loop runs out of fuel.
fueled->>= {κ ℓ} :
    {R : Type κ} {S : Type ℓ} (first : Run R) (next : R → Run S)
    → first ≢ out_of_fuel
    → ((r : R) → next r ≢ out_of_fuel)
    → (first >>= next) ≢ out_of_fuel
fueled->>= (ok r) next f g = g r
fueled->>= exited next f g = λ e. cc
fueled->>= fault next f g = λ e. cc
fueled->>= out_of_fuel next f g = λ e. f refl

ok_fueled {ℓ} : {R : Type ℓ} (r : R) → ok r ≢ out_of_fuel
ok_fueled r e = cc

pollfdv_add-fueled :
    (v : PollfdVector) (c : Pollfd) (p : Ptr) (a : Answer) → pollfdv_add v c p a ≢ out_of_fuel
unfolding pollfdv_add pollfdv_extend add_entry
pollfdv_add-fueled v c p a e = ground arith

remove_fueled : (v : PollfdVector) (i : ℕ) → pollfdv_remove_index v i ≢ out_of_fuel
unfolding pollfdv_remove_index replace_by_last drop_last
remove_fueled v i e = ground arith

fueled-if {ℓ} :
    {R : Type ℓ} (b : Bool) (x y : Run R)
    → x ≢ out_of_fuel
    → y ≢ out_of_fuel
    → (if b then x else y) ≢ out_of_fuel
fueled-if true x y f g = f
fueled-if false x y f g = g

fueled-ok {κ ℓ} :
    {R : Type κ} {S : Type ℓ} (first : Run R) (next : R → S)
    → first ≢ out_of_fuel
    → (first >>= λ r. ok (next r)) ≢ out_of_fuel
fueled-ok first next f = fueled->>= first (λ r. ok (next r)) f (λ r e. cc)

cell_fueled {ℓ} : {R : Type ℓ} (o : Option R) → from_cell o ≢ out_of_fuel
cell_fueled none e = cc
cell_fueled (some r) e = cc

zero_fueled : (c : ℤ) → assert_zero c ≢ out_of_fuel
zero_fueled c e = ground arith

accept_fueled : (c : ℤ) (again : Bool) → accept_client c again ≢ out_of_fuel
unfolding accept_client
accept_fueled c again e = ground arith

nnull_fueled : (p : ℕ) → assert_nnull p ≢ out_of_fuel
nnull_fueled p e = ground arith

handle_new-fueled : (s : Server) (a : Service) → poll_handle_new_client s a ≢ out_of_fuel
unfolding poll_handle_new_client poll_add_fd accept_client
handle_new-fueled s a =
    fueled->>= (accept_client a.accept4 a.again) _ (accept_fueled a.accept4 a.again) (λ fd.
      fueled->>= (assert_nnull a.con) _ (nnull_fueled a.con) (λ _.
        fueled->>= (poll_add_fd s.vec fd pollin a.con a.grow) _
          (pollfdv_add-fueled s.vec (record { fd = fd; events = pollin; revents = 0 }) a.con a.grow)
          (λ v e. cc)))

clear_fueled : (b i : ℕ) (s : Server) → clear_revents b i s ≢ out_of_fuel
unfolding clear_revents
clear_fueled b i s e = ground arith

timer_fueled : (s : Server) (i : ℕ) (c : ℤ) → expire_timer s i c ≢ out_of_fuel
unfolding expire_timer
timer_fueled s i c =
    fueled->>= (assert_zero c) _ (zero_fueled c)
      (λ _. fueled->>= (pollfdv_remove_index s.vec i) _ (remove_fueled s.vec i) (λ v e. cc))

free_fueled : (s : Server) (p : ℕ) → free_con s p ≢ out_of_fuel
unfolding free_con
free_fueled s p e = ground arith

close_fueled : (s : Server) (i : ℕ) (c : ℤ) → close_client s i c ≢ out_of_fuel
unfolding close_client
close_fueled s i c =
    fueled->>= (from_cell (get_elem? (s.vec).slots i)) _ (cell_fueled (get_elem? (s.vec).slots i))
      (λ entry. fueled->>= (assert_zero c) _ (zero_fueled c) (λ _.
        fueled->>= (from_cell (get_elem? (s.vec).pd i)) _ (cell_fueled (get_elem? (s.vec).pd i))
          (λ p.
            fueled->>= (free_con (record s { closed = s.closed ++ (entry.fd ∷ []) }) p) _
              (free_fueled (record s { closed = s.closed ++ (entry.fd ∷ []) }) p)
              (λ s'.
                fueled->>= (pollfdv_remove_index s'.vec i) _ (remove_fueled s'.vec i)
                  (λ v e. cc)))))

read_fueled : (n : ℕ) (buf : List ℕ) (r : ReadAnswer) (w : ℤ) → read_n_echo n buf r w ≢ out_of_fuel
unfolding read_n_echo
read_fueled n buf failed w e = cc
read_fueled n buf (got bytes) w e = ground arith

echo_fueled :
    (n : ℕ) (s : Server) (i : ℕ) (ev : Pollfd) (a : Service) → echo_client n s i ev a ≢ out_of_fuel
unfolding echo_client
echo_fueled n s i ev a =
    fueled->>= (from_cell (get_elem? (s.vec).pd i)) _ (cell_fueled (get_elem? (s.vec).pd i)) (λ p.
      fueled->>= (from_cell (s.cons p)) _ (cell_fueled (s.cons p)) (λ con.
        fueled->>= (read_n_echo n con.buf a.read a.write) _ (read_fueled n con.buf a.read a.write)
          (λ e.
            fueled-if (e.read_bytes == 0) _ _ (fueled-ok _ _ (close_fueled _ i a.close))
              (λ k. cc))))

client_fueled :
    (n : ℕ) (s : Server) (i : ℕ) (a : Service) → handle_client_event n s i a ≢ out_of_fuel
unfolding handle_client_event
client_fueled n s i a =
    fueled->>= (from_cell (get_elem? (s.vec).slots i)) _ (cell_fueled (get_elem? (s.vec).slots i))
      (λ entry.
        fueled-if _ _ _ (fueled-ok _ _ (close_fueled s i a.close))
          (fueled-if _ _ _ (echo_fueled n s i entry a) (ok_fueled (false, s))))

service_entry-fueled :
    (n : ℕ) (ls : ℤ) (s : Server) (i : ℕ) (ev : Pollfd) (a : Service)
    → service_entry n ls s i ev a ≢ out_of_fuel
unfolding service_entry
service_entry-fueled n ls s i ev a =
    fueled-if _ _ _
      (fueled->>= (poll_handle_new_client s a) _ (handle_new-fueled s a)
        (λ s'. fueled-ok _ _ (clear_fueled (s.vec).base i s')))
      (fueled-if _ _ _ (fueled-ok _ _ (timer_fueled s i a.close)) (
        fueled->>= (handle_client_event n s i a) _ (client_fueled n s i a) (λ (removed, s').
          fueled-if removed _ _ (λ e. cc) (fueled-ok _ _ (clear_fueled (s.vec).base i s')))))

module _ (n : ℕ) (ls : ℤ) (size no_events : ℕ) (answers : ℕ → Service) where
  -- Every round moves the index on or services one more event.
  service_from-fueled :
      (fuel i no_serviced : ℕ) (s : Server)
      → size < 2 ^ 32
      → i ≤ size
      → (size - i) + (no_events - no_serviced) < fuel
      → service_from n ls size no_events answers fuel i no_serviced s ≢ out_of_fuel
  unfolding service_from
  service_from-fueled zero i m s small h k = absurd (omega arith)
  service_from-fueled (suc fuel) i m s small h k =
      elim (Bool-cases (ltb i size && ltb m no_events)) [
        | inr ended ↦ rw ended (ok_fueled (m, s))
        | inl more ↦
            let here : i < size = ground arith in
            let left : m < no_events = ground arith in
            rw more (
              fueled->>= (from_cell (get_elem? (s.vec).slots i)) _
                (cell_fueled (get_elem? (s.vec).slots i))
                (λ ev.
                  fueled-if (ev.revents == 0) _ _
                    (service_from-fueled fuel (after i) m s small (omega arith) (omega arith))
                    (fueled->>= (service_entry n ls s i ev (answers m)) _
                      (service_entry-fueled n ls s i ev (answers m))
                      (λ (removed, s').
                        fueled-if removed _ _
                          (service_from-fueled fuel (after (before i)) (m + 1) s' small
                            (omega arith) (omega arith))
                          (service_from-fueled fuel (after i) (m + 1) s' small (omega arith)
                            (omega arith))))))
      ]

-- `service_events` gets to its end, by returning, by leaving the process or by a fault: one round
-- more than there are entries and events is fuel enough, although its index steps back with each
-- entry that is removed.
pub service_events-fueled :
    (n : ℕ) (ls : ℤ) (no_events : ℕ) (answers : ℕ → Service) (fuel : ℕ) (s : Server)
    → (s.vec).size < 2 ^ 32
    → (s.vec).size + no_events < fuel
    → service_events n ls no_events answers fuel s ≢ out_of_fuel
unfolding service_events
service_events-fueled n ls no_events answers fuel s small enough =
    fueled->>= (service_from n ls (s.vec).size no_events answers fuel 0 0 s) _
      (service_from-fueled n ls (s.vec).size no_events answers fuel 0 0 s small (omega arith)
        (omega arith))
      (λ (m, s').
        fueled->>= (assert_zero (pos (no_events - m))) _ (zero_fueled (pos (no_events - m)))
          (λ _. ok_fueled s'))
