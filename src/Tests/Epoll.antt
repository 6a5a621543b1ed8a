-- ===== src/Tests/Epoll.antt =====
-- The epoll server with three clients.
pub mod Measured
use linux_modern_io_multiple.Prelude.{
  ℕ, ◌≡◌, ◌≢◌, refl, ap, arith, List, [], ◌∷◌, ◌++◌, true, false, ◌==◌, if◌then◌else◌, some, none,
}
use linux_modern_io_multiple.Prelude.Int.{pos, negsuc, pos_part}
use linux_modern_io_multiple.Prelude.Run.{ok, fault}
use linux_modern_io_multiple.Links.{Ptr, null, node, Heap, ends}
use linux_modern_io_multiple.Links.Chain.{Cells, has}
use linux_modern_io_multiple.Epoll.Stop.{unready, run_server}
use linux_modern_io_multiple.Epoll.Quiet.{run_server-quiet}
use linux_modern_io_multiple.Poll.Quiet.{masked}
use linux_modern_io_multiple.Net.{
  SetupAnswer, create_ipv4_listening_socket, htons, socket_inet_stream, set_nonblock, bind_any,
  listen, got, failed,
}
use linux_modern_io_multiple.Epoll.{
  Connection, Server, Arrival, Event, client, connection, close_client, epoll_handle_new_clients,
  service_event, do_service_loop_cleanup,
}
use linux_modern_io_multiple.Epoll.Connections.{
  IsBackList, IsServed, epoll_handle_new_clients-append,
}
use linux_modern_io_multiple.Epoll.Events.{service_event-echo}
use linux_modern_io_multiple.Epoll.Cleanup.{
  close_client-close_client-fault, do_service_loop_cleanup-first,
}

abbrev pub zeroes : List ℕ
zeroes = 0 ∷ 0 ∷ 0 ∷ []

abbrev con : ℕ → Connection
con n = connection (pos n) zeroes

-- As they stand after three connections: `prev` leads back, no `next` is set.
abbrev heap : Heap Connection
heap p =
    if p == 10
    then some (node (con 6) null null)
    else (if p == 20
        then some (node (con 7) null 10)
        else (if p == 30 then some (node (con 8) null 20) else none))

abbrev pub server : Server
server = record { dll = ends 10 30; heap = heap; timer = negsuc 0; closed = []; sent = [] }

abbrev cells : Cells Connection
cells = (10, con 6) ∷ (20, con 7) ∷ (30, con 8) ∷ []

server-IsBackList : IsBackList server cells
server-IsBackList = record {
  head = refl;
  tail = refl;
  chain = (omega arith, refl, refl, (omega arith, refl, refl, (omega arith, refl, refl, tt)));
}

abbrev arrives : ℕ → Ptr → Arrival
arrives fd p = record { accept4 = pos fd; again = false; con = p; epoll_ctl = pos 0 }

abbrev no_more : Arrival
no_more = record { accept4 = negsuc 0; again = true; con = 0; epoll_ctl = negsuc 0 }

fourth : IsServed cells (arrives 9 40) 9
fourth = record { accepted = refl; allocated = omega arith; fresh = refl; added = refl }

fifth : IsServed (cells ++ ((40, con 9) ∷ [])) (arrives 10 50) 10
fifth = record { accepted = refl; allocated = omega arith; fresh = refl; added = refl }

epoll_handle_new_clients-append_example :
    (s' : Server) × (epoll_handle_new_clients zeroes server
        (arrives 9 40 ∷ arrives 10 50 ∷ no_more ∷ [])
      ≡ ok s')
    × IsBackList s' (cells ++ ((40, con 9) ∷ (50, con 10) ∷ []))
    × (s'.closed ≡ [])
    × (s'.sent ≡ [])
    × (s'.timer ≡ negsuc 0)
epoll_handle_new_clients-append_example =
    epoll_handle_new_clients-append zeroes server cells
      ((arrives 9 40, 9) ∷ (arrives 10 50, 10) ∷ []) no_more 0 [] server-IsBackList
      (fourth, (fifth, tt)) refl refl

-- Client 7 sends three bytes, and client 6 hangs up with data unread.
abbrev pub readable : Event
readable = record {
  ptr = client 20;
  events = 1;
  read = got (5 ∷ 6 ∷ 7 ∷ []);
  write = pos 3;
  close = negsuc 0;
  arrivals = [];
}

abbrev pub hung_up : Event
hung_up = record {
  ptr = client 10;
  events = 0x2001;
  read = failed;
  write = negsuc 0;
  close = pos 0;
  arrivals = [];
}

other_fd : {m n : ℕ} → m ≢ n → pos m ≢ pos n
other_fd ne e = ne (ap pos_part e)

not_off : {m : ℕ} → pos m ≢ negsuc 0
not_off e = cc

service_event-echo_example :
    (s' : Server) × (service_event 3 zeroes (pos 3) server readable ≡ ok s')
    × (s'.sent ≡ (pos 7, 5 ∷ 6 ∷ 7 ∷ []) ∷ [])
    × (s'.closed ≡ [])
    × (s'.dll ≡ ends 10 30)
    × (s'.heap 20 ≡ some (node (record { fd = pos 7; buf_size = 3; buf = 5 ∷ 6 ∷ 7 ∷ [] }) null 10))
    × ((q : Ptr) → q ≢ 20 → s'.heap q ≡ heap q)
service_event-echo_example =
    service_event-echo 3 zeroes (pos 3) server readable 20 (con 7) null 10 (5 ∷ 6 ∷ 7 ∷ [])
      (omega arith) refl (omega arith) refl (other_fd (omega arith)) not_off refl (omega arith) refl
      refl (omega arith)

close_client-close_client-fault_example :
    (s' : Server) × (close_client server 20 (pos 0) ≡ ok s') × (close_client s' 30 (pos 0) ≡ fault)
close_client-close_client-fault_example =
    close_client-close_client-fault server ((10, con 6) ∷ []) [] 20 30 (con 7) (con 8) (pos 0)
      server-IsBackList

do_service_loop_cleanup-first_example :
    (s' : Server) × (do_service_loop_cleanup (λ fd. pos 0) 4 9 server ≡ ok s')
    × (s'.closed ≡ pos 4 ∷ pos 6 ∷ [])
    × (s'.heap 10 ≡ none)
    × ((q : Ptr) → has q ((20, con 7) ∷ (30, con 8) ∷ []) ≡ true → s'.heap q ≡ heap q)
do_service_loop_cleanup-first_example =
    do_service_loop_cleanup-first (λ fd. pos 0) 4 9 server 10 (con 6)
      ((20, con 7) ∷ (30, con 8) ∷ []) server-IsBackList refl refl refl (omega arith)

abbrev opened : SetupAnswer
opened = record { socket = pos 3; fcntl = pos 0; bind = pos 0; listen = pos 0 }

-- A signal interrupts the first wait.
run_server-quiet_example :
    (s : Server) × (run_server 3 [] 8080
        (λ fd. pos 0)
        1
        (pos 0)
        opened
        (record { epoll_create1 = pos 4; masks = masked; epoll_ctl = pos 0 })
        (unready true ∷ [])
      ≡ ok s)
    × (s.closed ≡ pos 4 ∷ pos 3 ∷ [])
    × (s.sent ≡ [])
    × (s.dll ≡ ends null null)
run_server-quiet_example =
    run_server-quiet 3 [] 8080 (λ fd. pos 0) 1 opened 3
      (socket_inet_stream ∷ set_nonblock 3 ∷ bind_any 3 (htons 8080) ∷ listen 3 128 ∷ []) 4
      (unready true ∷ []) (unfold create_ipv4_listening_socket in refl) (refl, tt) refl refl
      (omega arith)
