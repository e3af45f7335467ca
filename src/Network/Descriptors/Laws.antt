-- ===== src/Network/Descriptors/Laws.antt =====
-- What the calls on descriptors promise, and the methods that neither open nor close one.
use packetcomms.Base.{
  ℕ, ◌≡◌, ◌≢◌, inl, inr, refl, String, List, Bool, true, false, Bool-cases, Option, none, some, ℤ,
  minus_one,
}
use packetcomms.Wire.{Endian}
use packetcomms.Network.Posix.{Posix, SockAddr, SocketKind, SocketOption, StatusFlag, PollEvent}
use packetcomms.Network.Ipv4Address.{Ipv4Address, is_valid}
use packetcomms.Network.Socket.{
  bind, shutdown, connect_to, connect, read, write, set_blocking, get_peer_address,
  wait_for_single_event,
}
use packetcomms.Network.TcpSocket.{listen, set_nagle_buffering_on, set_nagle_buffering_off}
use packetcomms.Network.UdpSocket.{send_to, receive_from}
use packetcomms.Network.Descriptors.{
  Operation, binds, shuts_down, connects_to, connects, reads, writes, sets_blocking,
  asks_peer_address, waits, listens, sets_nagle_buffering, sends_to, receives_from, operate,
}

-- A call has opened a descriptor that was not open, and has left the others as they were.
pub record Opens {S : Type 0} (is_open : S → ℤ → Bool) (s s' : S) (fd : ℤ) : Type 0 where
  pub fresh : is_open s fd ≡ false
  pub open_now : is_open s' fd ≡ true
  pub others_kept : (d : ℤ) → d ≢ fd → is_open s' d ≡ is_open s d

-- What POSIX says of the open descriptors of a process: socket and accept return one that was not open,
-- or -1; close of an open one closes it; and no other call opens or closes any.
pub record DescriptorLaws (k : Posix) : Type 0 where
  pub is_open : k.State → ℤ → Bool
  pub socket_opens :
      (s : k.State) (kind : SocketKind)
      → (k.socket s kind).1 ≢ minus_one
      → Opens is_open s (k.socket s kind).0 (k.socket s kind).1
  pub accept_opens :
      (s : k.State) (fd : ℤ)
      → (k.accept s fd).1 ≢ minus_one
      → Opens is_open s (k.accept s fd).0 (k.accept s fd).1
  pub accept_fails :
      (s : k.State) (fd d : ℤ)
      → (k.accept s fd).1 ≡ minus_one
      → is_open (k.accept s fd).0 d ≡ is_open s d
  pub closes :
      (s : k.State) (fd : ℤ)
      → is_open s fd ≡ true
      → (is_open (k.close s fd) fd ≡ false)
        × ((d : ℤ) → d ≢ fd → is_open (k.close s fd) d ≡ is_open s d)
  pub bind_keeps :
      (s : k.State) (fd d : ℤ) (a : SockAddr) → is_open (k.bind s fd a).0 d ≡ is_open s d
  pub listen_keeps : (s : k.State) (fd d : ℤ) (n : ℕ) → is_open (k.listen s fd n).0 d ≡ is_open s d
  pub connect_keeps :
      (s : k.State) (fd d : ℤ) (a : SockAddr) → is_open (k.connect s fd a).0 d ≡ is_open s d
  pub shutdown_keeps : (s : k.State) (fd d : ℤ) → is_open (k.shutdown s fd).0 d ≡ is_open s d
  pub recv_keeps : (s : k.State) (fd d : ℤ) (n : ℕ) → is_open (k.recv s fd n).state d ≡ is_open s d
  pub send_keeps :
      (s : k.State) (fd d : ℤ) (bytes : List ℕ) → is_open (k.send s fd bytes).state d ≡ is_open s d
  pub sendto_keeps :
      (s : k.State) (fd d : ℤ) (bytes : List ℕ) (a : SockAddr)
      → is_open (k.sendto s fd bytes a).state d ≡ is_open s d
  pub recvfrom_keeps :
      (s : k.State) (fd d : ℤ) (n : ℕ) (a : Option SockAddr)
      → is_open (k.recvfrom s fd n a).0.state d ≡ is_open s d
  pub fcntl_keeps :
      (s : k.State) (fd d : ℤ) (f : StatusFlag) → is_open (k.fcntl_setfl s fd f) d ≡ is_open s d
  pub setsockopt_keeps :
      (s : k.State) (fd d : ℤ) (o : SocketOption) (n : ℕ)
      → is_open (k.setsockopt s fd o n).0 d ≡ is_open s d
  pub getpeername_keeps : (s : k.State) (fd d : ℤ) → is_open (k.getpeername s fd).0 d ≡ is_open s d
  pub poll_keeps :
      (s : k.State) (fd d : ℤ) (e : PollEvent) (ms : ℕ)
      → is_open (k.poll s fd e ms).state d ≡ is_open s d

module _ (k : Posix) (laws : DescriptorLaws k) where
  open laws use {is_open}

  connect_to_keeps :
      (s : k.State) (fd d : ℤ) (a : Ipv4Address) → is_open (connect_to k s fd a).0 d ≡ is_open s d
  unfolding connect_to
  connect_to_keeps s fd d a = elim (Bool-cases (is_valid a)) [
    | inl e ↦ rw e (laws.connect_keeps s fd d a)
    | inr e ↦ rw e refl
  ]

  send_to_keeps :
      (s : k.State) (fd d : ℤ) (a : Ipv4Address) (message : List ℕ)
      → is_open (send_to k s fd a message).0 d ≡ is_open s d
  unfolding send_to
  send_to_keeps s fd d a message = elim (Bool-cases (is_valid a)) [
    | inl e ↦ rw e (laws.sendto_keeps s fd d message a)
    | inr e ↦ rw e refl
  ]

  receive_from_keeps :
      (s : k.State) (fd d : ℤ) (size : ℕ) (a : Option Ipv4Address)
      → is_open (receive_from k s fd size a).0 d ≡ is_open s d
  unfolding receive_from
  receive_from_keeps s fd d size none = laws.recvfrom_keeps s fd d size none
  receive_from_keeps s fd d size (some a) = elim (Bool-cases (is_valid a)) [
    | inl e ↦ rw e (laws.recvfrom_keeps s fd d size (some a))
    | inr e ↦ rw e refl
  ]

  module _ (host : Endian) (resolve : String → Option (List ℕ)) where
    pub operate_keeps :
        (s : k.State) (fd d : ℤ) (op : Operation)
        → is_open (operate k host resolve s fd op) d ≡ is_open s d
    unfolding operate bind listen shutdown read write set_blocking get_peer_address
        wait_for_single_event set_nagle_buffering_on set_nagle_buffering_off connect
    operate_keeps s fd d (binds port) = laws.bind_keeps s fd d _
    operate_keeps s fd d shuts_down = laws.shutdown_keeps s fd d
    operate_keeps s fd d (connects_to addr) = connect_to_keeps s fd d addr
    operate_keeps s fd d (connects hostname port) = connect_to_keeps s fd d _
    operate_keeps s fd d (reads max) = laws.recv_keeps s fd d max
    operate_keeps s fd d (writes bytes) = laws.send_keeps s fd d bytes
    operate_keeps s fd d (sets_blocking block) = laws.fcntl_keeps s fd d _
    operate_keeps s fd d asks_peer_address = laws.getpeername_keeps s fd d
    operate_keeps s fd d (waits event ms) = laws.poll_keeps s fd d event ms
    operate_keeps s fd d (listens n) = laws.listen_keeps s fd d n
    operate_keeps s fd d (sets_nagle_buffering true) = laws.setsockopt_keeps s fd d _ 0
    operate_keeps s fd d (sets_nagle_buffering false) = laws.setsockopt_keeps s fd d _ 1
    operate_keeps s fd d (sends_to addr message) = send_to_keeps s fd d addr message
    operate_keeps s fd d (receives_from size addr) = receive_from_keeps s fd d size addr
