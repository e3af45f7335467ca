-- ===== src/Network/Socket/Memory.antt =====
-- src/network/Socket.h as the transport of the demuxer's thread, whatever the peer does.
use packetcomms.Base.{
  ℕ, ◌≤◌, ◌≡◌, inl, inr, sym, ap, ◌∙◌, [], ℤ, pos, minus_one, length, NoFault, arith,
}
use packetcomms.Wire.{Endian}
use packetcomms.Demuxer.{Demuxer, receive_packet}
use packetcomms.Demuxer.Bounds.{IsBounded, IsReceivable, receive_packet_bounds}
use packetcomms.Network.Posix.{Posix}
use packetcomms.Network.Socket.{read}
use packetcomms.Network.Socket.Stream.{socket_reader, mask_cases}

-- What recv(2) documents for any peer: it returns the number of bytes it has stored, which is not
-- above the length of the buffer, or returns -1 and stores nothing.
pub record RecvFits (k : Posix) (fd : ℤ) : Type 0 where
  pub stores :
      (s : k.State) (max n : ℕ)
      → (k.recv s fd max).returned ≡ pos n
      → (n ≤ max) × (length (k.recv s fd max).bytes ≡ n)
  pub fails :
      (s : k.State) (max : ℕ)
      → (k.recv s fd max).returned ≡ minus_one
      → (k.recv s fd max).bytes ≡ []

module _ (k : Posix) (fd : ℤ) (v : RecvFits k fd) where
  pub socket-IsBounded : IsBounded (socket_reader k fd)
  unfolding read
  socket-IsBounded s max n e =
      elim (mask_cases (k.recv s fd max).returned (k.recv s fd max).errno) [
        | inl (m, b, z) ↦
            let zero-eq : ◌≡◌ {A = ℕ} 0 n = cc in
            rw (← zero-eq) (omega arith, ap length (v.fails s max m))
        | inr q ↦ v.stores s max n (sym q ∙ e)
      ]

  -- Over a socket whose recv keeps to its buffer, receivePacket writes only to its own memory,
  -- whatever bytes the peer sends and however it ends the connection, for any fuel; and a packet that
  -- it returns is not of the invalid type and has fewer than 2^31 bytes.
  pub socket_receive_bounds :
      (host : Endian) (fuel ms : ℕ) (d : Demuxer (socket_reader k fd))
      → NoFault
          (IsReceivable (socket_reader k fd) socket-IsBounded)
          (receive_packet (socket_reader k fd) host fuel d ms)
  socket_receive_bounds host fuel ms d =
      receive_packet_bounds (socket_reader k fd) socket-IsBounded host fuel ms d
