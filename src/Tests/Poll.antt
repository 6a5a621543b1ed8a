-- ===== src/Tests/Poll.antt =====
-- The poll server with two clients.
pub mod Closing
pub mod Measured
use linux_modern_io_multiple.Prelude.{
  ℕ, zero, suc, Bool, ◌+◌, ◌≡◌, ◌≢◌, refl, ap, subst, get_elem?, arith, [], ◌∷◌, true, false, ◌==◌,
  if◌then◌else◌, some, none, Option,
}
use linux_modern_io_multiple.Prelude.Int.{pos, negsuc, pos_part}
use linux_modern_io_multiple.Prelude.Run.{Yields, ◌>>=◌, ok, fault, out_of_fuel}
use linux_modern_io_multiple.Prelude.Arrays.{swap_remove}
use linux_modern_io_multiple.Net.{got, accept_client, read_n_echo}
use linux_modern_io_multiple.Pollfd.{
  Ptr, Pollfd, PollfdVector, empty_slot, no_fd, pollfdv_add, pollfdv_remove_index,
}
use linux_modern_io_multiple.Pollfd.Invariant.{IsValid, Gives}
use linux_modern_io_multiple.Pollfd.Contents.{Entry, contents}
use linux_modern_io_multiple.Poll.{
  Server, Service, EchoConnection, service_entry, service_from, service_events,
  poll_handle_new_client, clear_revents, handle_client_event, echo_client, write_con, close_client,
  free_con,
}
use linux_modern_io_multiple.Poll.Clients.{
  service_entry-echo, service_entry-hangup, service_entry-accepted,
}
use linux_modern_io_multiple.Poll.Ready.{weight, ready}
use linux_modern_io_multiple.Poll.Serving.{Open}
use linux_modern_io_multiple.Poll.Round.{service_from-round}
use linux_modern_io_multiple.Poll.Growing.{service_entry-moved}
use linux_modern_io_multiple.Poll.Loop.{service_events-fueled}

abbrev pub entry : (fd revents : ℕ) → Pollfd
entry fd revents = record { fd = pos fd; events = 1; revents = revents }

-- The listening socket 3, client 6 with a message, client 7 hung up; one slot is free.
abbrev pub vector : PollfdVector
vector = record {
  base = 64;
  slots = entry 3 1 ∷ entry 6 1 ∷ entry 7 0x11 ∷ empty_slot ∷ [];
  size = 3;
  capacity = 4;
  pd = 0 ∷ 600 ∷ 700 ∷ 0 ∷ [];
}

pub vector-IsValid : IsValid vector
vector-IsValid = record {
  slots = refl;
  pd = refl;
  within = omega arith;
  some_room = omega arith;
  small = omega arith;
}

-- The same with as many free slots as there are events.
abbrev roomy : PollfdVector
roomy = record vector {
  slots = entry 3 1 ∷ entry 6 1 ∷ entry 7 0x11 ∷ empty_slot ∷ empty_slot ∷ empty_slot ∷ [];
  capacity = 6;
  pd = 0 ∷ 600 ∷ 700 ∷ 0 ∷ 0 ∷ 0 ∷ [];
}

roomy-IsValid : IsValid roomy
roomy-IsValid = record {
  slots = refl;
  pd = refl;
  within = omega arith;
  some_room = omega arith;
  small = omega arith;
}

pos_fd : (fd : ℕ) → pos fd ≢ negsuc 0
pos_fd fd e = cc

roomy-Open : Open (contents roomy)
unfolding contents
roomy-Open zero y e active =
    let same : (entry 3 1, 0) ≡ y = cc in subst (λ (x : Entry). (x.0).fd ≢ no_fd) same (pos_fd 3)
roomy-Open (suc zero) y e active =
    let same : (entry 6 1, 600) ≡ y = cc in subst (λ (x : Entry). (x.0).fd ≢ no_fd) same (pos_fd 6)
roomy-Open (suc (suc zero)) y e active =
    let same : (entry 7 0x11, 700) ≡ y = cc in
    subst (λ (x : Entry). (x.0).fd ≢ no_fd) same (pos_fd 7)
roomy-Open (suc (suc (suc j))) y e active = cc

-- The same without the free slot.
abbrev full : PollfdVector
full = record {
  base = 64;
  slots = entry 3 1 ∷ entry 6 1 ∷ [];
  size = 2;
  capacity = 2;
  pd = 0 ∷ 600 ∷ [];
}

full-IsValid : IsValid full
full-IsValid = record {
  slots = refl;
  pd = refl;
  within = omega arith;
  some_room = omega arith;
  small = omega arith;
}

abbrev pub con : EchoConnection
con = record { buf_size = 0; buf = 9 ∷ 9 ∷ 9 ∷ 9 ∷ [] }

abbrev pub cons : Ptr → Option EchoConnection
cons p = if p == 600 then some con else (if p == 700 then some con else none)

abbrev pub server : PollfdVector → Server
server v = record { vec = v; cons = cons; timer = negsuc 0; closed = []; sent = [] }

-- `realloc` answers with another address.
abbrev pub answers : Service
answers = record {
  accept4 = pos 8;
  again = false;
  con = 800;
  content = 0 ∷ 0 ∷ 0 ∷ 0 ∷ [];
  grow = record {
    data_ptr = 96;
    data_tail = empty_slot ∷ empty_slot ∷ [];
    pd_ptr = 128;
    pd_tail = 0 ∷ 0 ∷ [];
  };
  read = got (1 ∷ 2 ∷ 3 ∷ []);
  write = pos 3;
  close = pos 0;
}

grow-Gives : Gives full answers.grow
grow-Gives = record { slots = refl; pd = refl }

pub other_fd : {m n : ℕ} → m ≢ n → pos m ≢ pos n
other_fd ne e = ne (ap pos_part e)

in_use : {m : ℕ} → pos m ≢ negsuc 0
in_use e = cc

service_entry-echo_example :
    (s' : Server) × (service_entry 3 (pos 3) (server vector) 1 (entry 6 1) answers ≡ ok (false, s'))
    × IsValid s'.vec
    × (contents s'.vec ≡ (entry 3 1, 0) ∷ (entry 6 0, 600) ∷ (entry 7 0x11, 700) ∷ [])
    × (s'.sent ≡ (pos 6, 1 ∷ 2 ∷ 3 ∷ []) ∷ [])
    × (s'.closed ≡ [])
    × (s'.cons 600 ≡ some (record con { buf = 1 ∷ 2 ∷ 3 ∷ 9 ∷ [] }))
    × ((p : Ptr) → p ≢ 600 → s'.cons p ≡ cons p)
unfolding contents
service_entry-echo_example =
    service_entry-echo 3 (pos 3) (server vector) 1 (entry 6 1) 600 answers con (1 ∷ 2 ∷ 3 ∷ [])
      vector-IsValid (omega arith) refl (other_fd (omega arith)) in_use refl (omega arith) refl
      (omega arith) refl refl (omega arith)

service_entry-accepted_example :
    (s' : Server) × (service_entry 3 (pos 3) (server vector) 0 (entry 3 1) answers ≡ ok (false, s'))
    × IsValid s'.vec
    × (contents s'.vec
        ≡ (entry 3 0, 0) ∷ (entry 6 1, 600) ∷ (entry 7 0x11, 700) ∷ (entry 8 0, 800) ∷ [])
    × (s'.cons 800 ≡ some (record { buf_size = 0; buf = 0 ∷ 0 ∷ 0 ∷ 0 ∷ [] }))
    × ((p : Ptr) → p ≢ 800 → s'.cons p ≡ cons p)
    × (s'.closed ≡ [])
    × (s'.sent ≡ [])
unfolding contents accept_client
service_entry-accepted_example =
    service_entry-accepted 3 (pos 3) (server vector) 0 (entry 3 1) 0 answers (pos 8) vector-IsValid
      (omega arith) (omega arith) refl refl (omega arith) refl (omega arith)

service_entry-moved_example : service_entry 3 (pos 3) (server full) 0 (entry 3 1) answers ≡ fault
service_entry-moved_example =
    service_entry-moved 3 (pos 3) (server full) 0 (entry 3 1) answers 8 full-IsValid grow-Gives
      (omega arith) (omega arith) (omega arith) (omega arith) (omega arith) (omega arith) refl refl
      (omega arith)

service_events-fueled_example :
    service_events 3 (pos 3) 3 (λ k. answers) 7 (server vector) ≢ out_of_fuel
service_events-fueled_example =
    service_events-fueled 3 (pos 3) 3 (λ k. answers) 7 (server vector) (omega arith) (omega arith)

-- The client that connects, the message and the hang-up are all handled.
service_from-round_example :
    Yields
      (λ ((no_serviced, s') : ℕ × Server). (no_serviced ≡ 3) × (ready (contents s'.vec) ≡ 0))
      (service_from 3 (pos 3) 3 3 (λ k. answers) 7 0 0 (server roomy))
unfolding weight contents
service_from-round_example =
    service_from-round 3 (pos 3) 3 (λ k. answers) 7 (server roomy) roomy-IsValid refl (omega arith)
      roomy-Open

-- That round gets to its end.
round_ends :
    (service_from 3 (pos 3) 3 3 (λ k. answers) 7 0 0 (server roomy) >>= λ (k, s'). ok k) ≡ ok 3
unfolding service_from service_entry poll_handle_new_client accept_client pollfdv_add clear_revents
    handle_client_event echo_client write_con read_n_echo close_client free_con pollfdv_remove_index
round_ends = refl
