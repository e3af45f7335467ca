-- ===== src/Frame.antt =====
-- The format of a packet on the wire, as the comment of sendPacket in src/PacketMuxer.cpp gives it:
-- the type and the size as four bytes each in network order, and then the bytes of the packet.
use packetcomms.Base.{ℕ, ◌+◌, ◌^◌, ◌≡◌, ◌≢◌, ◌<◌, List, [], ◌∷◌, ◌++◌, length, length-append, arith}
use packetcomms.Wire.{network_bytes, to_u32}
use packetcomms.Wire.ByteOrder.{length-network_bytes}
use packetcomms.ComPacket.{ComPacket}

unfoldable pub frame : ComPacket → List ℕ
frame p =
    network_bytes (to_u32 p.type) ++ (network_bytes (to_u32 (length p.contents)) ++ p.contents)

-- The frames of several packets, one after the other.
unfoldable pub frames : List ComPacket → List ℕ
frames [] = []
frames (p ∷ ps) = frame p ++ frames ps

-- What the format can carry: a type that is a uint32_t and not the invalid one, and fewer bytes
-- than the `int` of ComPacket's constructor counts.
pub record IsSendable (p : ComPacket) : Type 0 where
  pub valid : p.type ≢ 0
  pub type_fits : p.type < 2 ^ 32
  pub size_fits : length p.contents < 2 ^ 31

pub length-frame : (p : ComPacket) → length (frame p) ≡ 8 + length p.contents
unfolding frame
length-frame p = omega (
  arith,
  length-append {0} (network_bytes (to_u32 p.type))
      (network_bytes (to_u32 (length p.contents)) ++ p.contents),
  length-append {0} (network_bytes (to_u32 (length p.contents))) p.contents,
  length-network_bytes (to_u32 p.type),
  length-network_bytes (to_u32 (length p.contents)),
)
