-- ===== src/Network/UdpSocket.antt =====
-- src/network/UdpSocket.h and .cpp.
use packetcomms.Base.{
  ℕ, List, [], Option, none, some, ℤ, minus_one, is_minus_one, if◌then◌else◌, Outcome, done, aborts,
}
use packetcomms.Network.Posix.{Posix, SockAddr, sock_dgram}
use packetcomms.Network.Ipv4Address.{is_valid}
use packetcomms.Network.Socket.{mask_would_block}

module _ (k : Posix) where
  unfoldable pub new_udp_socket : k.State → Outcome (k.State × ℤ)
  new_udp_socket s =
      if is_minus_one (k.socket s sock_dgram).1 then aborts else done (k.socket s sock_dgram)

  unfoldable pub send_to : k.State → ℤ → SockAddr → List ℕ → k.State × ℤ
  unfolding is_valid mask_would_block
  send_to s fd addr message =
      let r = k.sendto s fd message addr in
      if is_valid addr then (r.state, mask_would_block r.returned r.errno) else (s, minus_one)

  -- The result, the bytes stored, and the address as it is afterwards.
  unfoldable pub receive_from :
      k.State → ℤ → ℕ → Option SockAddr → k.State × ℤ × List ℕ × Option SockAddr
  unfolding is_valid mask_would_block
  receive_from s fd size none =
      let r = (k.recvfrom s fd size none).0 in
      (r.state, mask_would_block r.returned r.errno, r.bytes, none)
  receive_from s fd size (some addr) =
      let r = k.recvfrom s fd size (some addr) in
      if is_valid addr
      then (r.0.state, mask_would_block r.0.returned r.0.errno, r.0.bytes, some r.1)
      else (s, minus_one, [], some addr)
