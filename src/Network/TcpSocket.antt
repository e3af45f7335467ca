-- ===== src/Network/TcpSocket.antt =====
-- src/network/TcpSocket.h and .cpp.
use packetcomms.Base.{
  ℕ, Bool, false, Option, none, some, ℤ, pos, negsuc, is_minus_one, ◌==◌, if◌then◌else◌, Outcome,
  done, aborts,
}
use packetcomms.Network.Posix.{Posix, sock_stream, so_reuseaddr, tcp_nodelay}

module _ (k : Posix) where
  -- The constructor asserts that there is a socket.
  unfoldable pub new_tcp_socket : k.State → Outcome (k.State × ℤ)
  new_tcp_socket s =
      if is_minus_one (k.socket s sock_stream).1 then aborts else done (k.socket s sock_stream)

  -- TcpSocket(int): the object has the descriptor that it is given, whatever that is.
  abbrev pub from_descriptor : ℤ → ℤ
  from_descriptor fd = fd

  unfoldable pub listen : k.State → ℤ → ℕ → k.State × Bool
  listen s fd queue_size = (
    (k.listen s fd queue_size).0,
    elim (k.listen s fd queue_size).1 [ pos n ↦ n == 0 | negsuc n ↦ false ],
  )

  -- The address can be reused from here on; `none` is the null pointer.
  unfoldable pub accept : k.State → ℤ → k.State × Option ℤ
  accept s fd =
      let r = k.accept (k.setsockopt s fd so_reuseaddr 1).0 fd in
      (r.0, if is_minus_one r.1 then none else some (from_descriptor r.1))

  unfoldable pub set_nagle_buffering_on : k.State → ℤ → k.State
  set_nagle_buffering_on s fd = (k.setsockopt s fd tcp_nodelay 0).0

  unfoldable pub set_nagle_buffering_off : k.State → ℤ → k.State
  set_nagle_buffering_off s fd = (k.setsockopt s fd tcp_nodelay 1).0
