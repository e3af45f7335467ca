-- ===== src/Network/Descriptors.antt =====
-- The descriptors of the TcpSocket and UdpSocket objects of a process: an object has the descriptor
-- that it was made with, or that an assignment has given it, until its destructor, Socket::~Socket of
-- src/network/Socket.cpp, closes it. Neither src/network/Socket.h nor its subclasses delete the
-- implicit copy constructor and copy assignment, which copy m_socket.
pub mod Laws
pub mod Owned
pub mod Lifetimes
pub mod Copies
use packetcomms.Base.{
  In, ℕ, ◌≡◌, String, List, [], ◌∷◌, ◌++◌, Bool, true, false, Option, none, some, ℤ, Outcome, done,
}
use packetcomms.Wire.{Endian}
use packetcomms.Network.Posix.{Posix, SockAddr, PollEvent}
use packetcomms.Network.Ipv4Address.{Ipv4Address}
use packetcomms.Network.Socket.{
  bind, shutdown, connect_to, connect, read, write, set_blocking, get_peer_address,
  wait_for_single_event, destroy,
}
use packetcomms.Network.TcpSocket.{
  new_tcp_socket, listen, accept, set_nagle_buffering_on, set_nagle_buffering_off,
}
use packetcomms.Network.UdpSocket.{new_udp_socket, send_to, receive_from}

-- A call of a method that neither opens nor closes a descriptor.
pub data Operation : Type 0 where
  binds : ℕ → Operation
  shuts_down : Operation
  connects_to : Ipv4Address → Operation
  connects : String → ℕ → Operation
  reads : ℕ → Operation
  writes : List ℕ → Operation
  sets_blocking : Bool → Operation
  asks_peer_address : Operation
  waits : PollEvent → ℕ → Operation
  listens : ℕ → Operation
  sets_nagle_buffering : Bool → Operation
  sends_to : Ipv4Address → List ℕ → Operation
  receives_from : ℕ → Option Ipv4Address → Operation

-- The operating system, and m_socket of each object there is.
pub record Process (k : Posix) : Type 0 where
  pub system : k.State
  pub sockets : List ℤ

module _ (k : Posix) (host : Endian) (resolve : String → Option (List ℕ)) where
  unfoldable pub operate : k.State → ℤ → Operation → k.State
  operate s fd (binds port) = (bind k host s fd port).0
  operate s fd shuts_down = shutdown k s fd
  operate s fd (connects_to addr) = (connect_to k s fd addr).0
  operate s fd (connects hostname port) = (connect k host resolve s fd hostname port).0
  operate s fd (reads max) = (read k fd s max).0
  operate s fd (writes bytes) = (write k fd s bytes).0
  operate s fd (sets_blocking block) = set_blocking k fd s block
  operate s fd asks_peer_address = (get_peer_address k s fd).0
  operate s fd (waits event ms) = (wait_for_single_event k fd s event ms).0
  operate s fd (listens n) = (listen k s fd n).0
  operate s fd (sets_nagle_buffering true) = set_nagle_buffering_on k s fd
  operate s fd (sets_nagle_buffering false) = set_nagle_buffering_off k s fd
  operate s fd (sends_to addr message) = (send_to k s fd addr message).0
  operate s fd (receives_from size addr) = (receive_from k s fd size addr).0

pub data Step (k : Posix) (host : Endian) (resolve : String → Option (List ℕ)) (p q : Process k)
    : Type 0 where
  makes_tcp :
      (s : k.State) (fd : ℤ)
      → new_tcp_socket k p.system ≡ done (s, fd)
      → q ≡ record { system = s; sockets = fd ∷ p.sockets }
      → Step k host resolve p q
  makes_udp :
      (s : k.State) (fd : ℤ)
      → new_udp_socket k p.system ≡ done (s, fd)
      → q ≡ record { system = s; sockets = fd ∷ p.sockets }
      → Step k host resolve p q
  accepts :
      (listening : ℤ) (s : k.State) (fd : ℤ)
      → accept k p.system listening ≡ (s, some fd)
      → q ≡ record { system = s; sockets = fd ∷ p.sockets }
      → Step k host resolve p q
  accepts_none :
      (listening : ℤ) (s : k.State)
      → accept k p.system listening ≡ (s, none)
      → q ≡ record p { system = s }
      → Step k host resolve p q
  operates :
      (fd : ℤ) (op : Operation)
      → q ≡ record p { system = operate k host resolve p.system fd op }
      → Step k host resolve p q
  destroys :
      (before : List ℤ) (fd : ℤ) (after : List ℤ)
      → p.sockets ≡ before ++ (fd ∷ after)
      → q ≡ record { system = destroy k p.system fd; sockets = before ++ after }
      → Step k host resolve p q
  copies :
      (fd : ℤ)
      → In fd p.sockets
      → q ≡ record p { sockets = fd ∷ p.sockets }
      → Step k host resolve p q
  assigns :
      (before : List ℤ) (old : ℤ) (after : List ℤ) (fd : ℤ)
      → p.sockets ≡ before ++ (old ∷ after)
      → In fd p.sockets
      → q ≡ record p { sockets = before ++ (fd ∷ after) }
      → Step k host resolve p q

pub data Reach (k : Posix) (host : Endian) (resolve : String → Option (List ℕ)) (p : Process k)
    : Process k → Type 0 where
  here : Reach k host resolve p p
  next :
      {q r : Process k}
      → Reach k host resolve p q
      → Step k host resolve q r
      → Reach k host resolve p r

module _ (k : Posix) (host : Endian) (resolve : String → Option (List ℕ)) where
  -- A step that copies no socket object.
  unfoldable pub IsOwn : {p q : Process k} → Step k host resolve p q → Type 0
  IsOwn (makes_tcp s fd h e) = Unit {0}
  IsOwn (makes_udp s fd h e) = Unit {0}
  IsOwn (accepts listening s fd h e) = Unit {0}
  IsOwn (accepts_none listening s h e) = Unit {0}
  IsOwn (operates fd op e) = Unit {0}
  IsOwn (destroys before fd after split e) = Unit {0}
  IsOwn (copies fd i e) = ⊥
  IsOwn (assigns before old after fd split i e) = ⊥

  -- A run in which no socket object is copied.
  unfoldable pub Uncopied : {p q : Process k} → Reach k host resolve p q → Type 0
  Uncopied here = Unit {0}
  Uncopied (next run st) = Uncopied run × IsOwn st
