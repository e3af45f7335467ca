-- ===== src/Examples/Descriptors.antt =====
-- The theorem on the descriptors of src/network at concrete inputs.
use packetcomms.Base.{
  inl, ℕ, suc, ◌≡◌, ◌≢◌, refl, String, List, [], ◌∷◌, Bool, true, false, Option, none, ℤ, pos,
  negsuc, minus_one, ltb, ◌==◌, if◌then◌else◌, All, Distinct, arith,
}
use packetcomms.Wire.{little}
use packetcomms.Network.Posix.{Posix, eagain, IoResult, SockAddr}
use packetcomms.Network.Socket.{destroy}
use packetcomms.Network.TcpSocket.{new_tcp_socket, accept}
use packetcomms.Network.Descriptors.{
  Process, makes_tcp, accepts, destroys, Reach, here, next, IsOwn, Uncopied,
}
use packetcomms.Network.Descriptors.Laws.{Opens, DescriptorLaws}
use packetcomms.Network.Descriptors.Lifetimes.{sockets_own}
use packetcomms.Network.Descriptors.Copies.{copy_closes, assign_leaks}

-- Descriptors are given out in their order; those from `fresh` on have not been.
record Table : Type 0 where
  fresh : ℕ
  in_use : ℕ → Bool

abbrev opened : Table → ℤ → Bool
opened t (pos n) = if ltb n t.fresh then t.in_use n else false
opened t (negsuc n) = false

abbrev allocate : Table → Table × ℤ
allocate t = (
  record { fresh = suc t.fresh; in_use = λ n. if n == t.fresh then true else t.in_use n },
  pos t.fresh,
)

abbrev give_back : Table → ℤ → Table
give_back t (pos m) = record t { in_use = λ n. if n == m then false else t.in_use n }
give_back t (negsuc m) = t

abbrev nowhere : SockAddr
nowhere = record { family = 2; port = 0; addr = [] }

abbrev quiet : Table → IoResult Table
quiet t = record { state = t; returned = minus_one; errno = eagain; bytes = [] }

abbrev table_system : Posix
table_system = record {
  State = Table;
  socket = λ s kind. allocate s;
  close = give_back;
  bind = λ s fd a. (s, pos 0);
  listen = λ s fd n. (s, pos 0);
  accept = λ s fd. allocate s;
  connect = λ s fd a. (s, pos 0);
  shutdown = λ s fd. (s, pos 0);
  recv = λ s fd max. quiet s;
  send = λ s fd bytes. quiet s;
  sendto = λ s fd bytes a. quiet s;
  recvfrom = λ s fd max a. (quiet s, nowhere);
  fcntl_setfl = λ s fd flag. s;
  setsockopt = λ s fd o n. (s, pos 0);
  getpeername = λ s fd. (s, pos 0, nowhere);
  poll = λ s fd event ms. record {
    state = s;
    returned = pos 0;
    revents = record {
      pollin = false;
      pollout = false;
      pollerr = false;
      pollhup = false;
      pollnval = false;
    };
  };
}

kept : (t : Table) (d : ℤ) → d ≢ pos t.fresh → opened (allocate t).0 d ≡ opened t d
kept t (pos n) h = let m : n ≢ t.fresh = λ e. h (rw e refl) in ground arith
kept t (negsuc n) h = refl

allocates : (t : Table) → Opens opened t (allocate t).0 (allocate t).1
allocates t = record { fresh = ground arith; open_now = ground arith; others_kept = kept t }

released : (t : Table) (fd d : ℤ) → d ≢ fd → opened (give_back t fd) d ≡ opened t d
released t (pos m) (pos n) h = let l : n ≢ m = λ e. h (rw e refl) in ground arith
released t (pos m) (negsuc n) h = refl
released t (negsuc m) d h = refl

closed : (t : Table) (fd : ℤ) → opened (give_back t fd) fd ≡ false
closed t (pos m) = ground arith
closed t (negsuc m) = refl

never : (t : Table) (d : ℤ) → pos t.fresh ≡ minus_one → opened (allocate t).0 d ≡ opened t d
never t d h = absurd (cc)

abbrev table_laws : DescriptorLaws table_system
table_laws = record {
  is_open = opened;
  socket_opens = λ s kind h. allocates s;
  accept_opens = λ s fd h. allocates s;
  accept_fails = λ s fd d h. never s d h;
  closes = λ s fd o. (closed s fd, released s fd);
  bind_keeps = λ s fd d a. refl;
  listen_keeps = λ s fd d n. refl;
  connect_keeps = λ s fd d a. refl;
  shutdown_keeps = λ s fd d. refl;
  recv_keeps = λ s fd d n. refl;
  send_keeps = λ s fd d bytes. refl;
  sendto_keeps = λ s fd d bytes a. refl;
  recvfrom_keeps = λ s fd d n a. refl;
  fcntl_keeps = λ s fd d f. refl;
  setsockopt_keeps = λ s fd d o n. refl;
  getpeername_keeps = λ s fd d. refl;
  poll_keeps = λ s fd d e ms. refl;
}

-- Descriptors 0 to 2 are in use. A server listens, accepts a connection, and its listening socket is
-- then destroyed.
abbrev at_start : Table
at_start = record { fresh = 3; in_use = λ n. ltb n 3 }

abbrev listening : Table
listening = (allocate at_start).0

abbrev serving : Table
serving = (allocate listening).0

abbrev nobody : String → Option (List ℕ)
nobody name = none

abbrev server : Process table_system
server = record { system = give_back serving (pos 3); sockets = pos 4 ∷ [] }

a_server : Reach table_system little nobody (record { system = at_start; sockets = [] }) server
unfolding new_tcp_socket accept destroy
a_server =
    next {q = record { system = serving; sockets = pos 4 ∷ pos 3 ∷ [] }}
      (next {q = record { system = listening; sockets = pos 3 ∷ [] }}
        (next here (makes_tcp listening (pos 3) refl refl))
        (accepts (pos 3) serving (pos 4) refl refl))
      (destroys (pos 4 ∷ []) (pos 3) [] refl refl)

uncopied : Uncopied table_system little nobody a_server
unfolding a_server Uncopied IsOwn
uncopied = (((tt, tt), tt), tt)

sockets_own_example :
    Distinct server.sockets
    × All (λ d. (opened server.system d ≡ true) × (opened at_start d ≡ false)) server.sockets
    × ((d : ℤ) → All (λ x. x ≢ d) server.sockets → opened server.system d ≡ opened at_start d)
sockets_own_example =
    sockets_own table_system table_laws little nobody at_start server a_server uncopied

copy_closes_example :
    (q : Process table_system) × Reach table_system little nobody server q
    × (q.sockets ≡ server.sockets)
    × (opened server.system (pos 4) ≡ true)
    × (opened q.system (pos 4) ≡ false)
copy_closes_example =
    copy_closes table_system table_laws little nobody at_start server a_server (pos 4) uncopied
      (inl refl)

-- Before the listening socket is destroyed, the other is assigned to it.
abbrev two_sockets : Process table_system
two_sockets = record { system = serving; sockets = pos 4 ∷ pos 3 ∷ [] }

a_connection :
    Reach table_system little nobody (record { system = at_start; sockets = [] }) two_sockets
unfolding new_tcp_socket accept
a_connection =
    next {q = record { system = listening; sockets = pos 3 ∷ [] }}
      (next here (makes_tcp listening (pos 3) refl refl))
      (accepts (pos 3) serving (pos 4) refl refl)

connection_copies_none : Uncopied table_system little nobody a_connection
unfolding a_connection Uncopied IsOwn
connection_copies_none = ((tt, tt), tt)

assign_leaks_example :
    (q : Process table_system) × Reach table_system little nobody two_sockets q
    × (q.sockets ≡ pos 4 ∷ pos 4 ∷ [])
    × All (λ d. d ≢ pos 3) q.sockets
    × (opened q.system (pos 3) ≡ true)
    × (opened at_start (pos 3) ≡ false)
assign_leaks_example =
    assign_leaks table_system table_laws little nobody at_start two_sockets a_connection
      (pos 4 ∷ []) (pos 3) [] (pos 4) connection_copies_none refl (inl refl) (λ e. cc)
