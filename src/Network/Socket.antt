-- ===== src/Network/Socket.antt =====
-- src/network/Socket.h and .cpp: a file descriptor and the calls on it, over the operating system's
-- sockets.
pub mod Stream
pub mod Receives
pub mod Memory
use packetcomms.Base.{
  ℕ, String, List, [], ◌∷◌, Bool, true, false, not, ◌&&◌, Option, ℤ, pos, negsuc, minus_one,
  is_minus_one, ◌==◌, if◌then◌else◌,
}
use packetcomms.Wire.{Endian}
use packetcomms.Network.Posix.{
  Posix, Errno, eagain, ewouldblock, other, PollBits, PollEvent, pollin_event, pollout_event,
  StatusFlag, o_async, o_nonblock, SockAddr,
}
use packetcomms.Network.Ipv4Address.{
  af_inet, htons, to_u16, is_valid, resolved_address, get_host_by_name,
}

-- Socket(): m_socket is invalid until a derived class sets it.
abbrev pub no_socket : ℤ
no_socket = minus_one

unfoldable pub is_open : ℤ → Bool
is_open (pos n) = true
is_open (negsuc n) = false

unfoldable pub would_block : Errno → Bool
would_block eagain = true
would_block ewouldblock = true
would_block (other n) = false

-- `if ( n == -1 && (errno == EAGAIN || errno == EWOULDBLOCK) ) n = 0;`
unfoldable pub mask_would_block : ℤ → Errno → ℤ
unfolding would_block
mask_would_block n errno = if is_minus_one n && would_block errno then pos 0 else n

unfoldable pub flag_of : Bool → StatusFlag
flag_of true = o_async
flag_of false = o_nonblock

-- The bit of revents for the event that was asked for.
unfoldable pub has_event : PollEvent → PollBits → Bool
has_event pollin_event bits = bits.pollin
has_event pollout_event bits = bits.pollout

-- `val == 1`
abbrev pub is_one : ℤ → Bool
is_one (pos n) = n == 1
is_one (negsuc n) = false

module _ (k : Posix) where
  unfoldable pub destroy : k.State → ℤ → k.State
  destroy s fd = if is_minus_one fd then s else k.close s fd

  unfoldable pub bind : Endian → k.State → ℤ → ℕ → k.State × Bool
  unfolding htons
  bind host s fd port =
      let any : SockAddr = record {
        family = af_inet;
        port = htons host (to_u16 port);
        addr = 0 ∷ 0 ∷ 0 ∷ 0 ∷ [];
      } in
      ((k.bind s fd any).0, not (is_minus_one (k.bind s fd any).1))

  unfoldable pub shutdown : k.State → ℤ → k.State
  shutdown s fd = (k.shutdown s fd).0

  -- Connect(const Ipv4Address&): an invalid address is refused before any call.
  unfoldable pub connect_to : k.State → ℤ → SockAddr → k.State × Bool
  unfolding is_valid
  connect_to s fd addr =
      if is_valid addr
      then ((k.connect s fd addr).0, not (is_minus_one (k.connect s fd addr).1))
      else (s, false)

  unfoldable pub connect :
      Endian → (String → Option (List ℕ)) → k.State → ℤ → String → ℕ → k.State × Bool
  unfolding connect_to get_host_by_name
  connect host resolve s fd hostname port =
      connect_to s fd (resolved_address host resolve hostname port)

  unfoldable pub read : ℤ → k.State → ℕ → k.State × ℤ × List ℕ
  unfolding mask_would_block
  read fd s max = let r = k.recv s fd max in (r.state, mask_would_block r.returned r.errno, r.bytes)

  unfoldable pub write : ℤ → k.State → List ℕ → k.State × ℤ
  unfolding mask_would_block
  write fd s bytes = let r = k.send s fd bytes in (r.state, mask_would_block r.returned r.errno)

  unfoldable pub set_blocking : ℤ → k.State → Bool → k.State
  unfolding flag_of
  set_blocking fd s block = k.fcntl_setfl s fd (flag_of block)

  -- The address is overwritten in any case.
  unfoldable pub get_peer_address : k.State → ℤ → k.State × SockAddr × Bool
  get_peer_address s fd =
      let r = k.getpeername s fd in
      (r.0, r.2, (elim r.1 [ pos n ↦ n == 0 | negsuc n ↦ false ]) && (r.2.family == af_inet))

  unfoldable pub wait_for_single_event : ℤ → k.State → PollEvent → ℕ → k.State × Bool
  unfolding has_event
  wait_for_single_event fd s event ms =
      let r = k.poll s fd event ms in (r.state, is_one r.returned && has_event event r.revents)

  unfoldable pub ready_for_reading : ℤ → k.State → ℕ → k.State × Bool
  unfolding wait_for_single_event
  ready_for_reading fd s ms = wait_for_single_event fd s pollin_event ms

  unfoldable pub ready_for_writing : ℤ → k.State → ℕ → k.State × Bool
  unfolding wait_for_single_event
  ready_for_writing fd s ms = wait_for_single_event fd s pollout_event ms
