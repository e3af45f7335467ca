-- ===== src/ComPacket/Moves.antt =====
-- What the constructors and moves of a ComPacket leave behind.
use packetcomms.Base.{ℕ, ◌≡◌, refl, ◌<◌, ◌≤◌, ◌^◌, arith, length-replicate, replicate, done, throws}
use packetcomms.ComPacket.{
  ComPacket, default_packet, preallocated, move_construct, move_assign, get_data_size,
}

-- Moving from a packet twice gives the packet first and then an invalid empty one.
pub move_construct_twice :
    (p : ComPacket)
    → ((move_construct p).0 ≡ p)
      × ((move_construct (move_construct p).1).0 ≡ default_packet)
      × (move_construct p ≡ move_assign default_packet p)
unfolding move_construct move_assign
move_construct_twice p = (refl, refl, refl)

-- Move assignment swaps, so that doing it twice restores both packets.
pub move_assign_twice :
    (t s : ComPacket) → move_assign (move_assign t s).0 (move_assign t s).1 ≡ (t, s)
unfolding move_assign
move_assign_twice t s = refl

-- A preallocated packet has the size asked for, below 2^31; from there on the constructor throws.
pub preallocated_size :
    (type size : ℕ)
    → (size < 2 ^ 31
        → (p : ComPacket) × (preallocated type size ≡ done p)
          × (p.type ≡ type)
          × (get_data_size p ≡ size))
      × (2 ^ 31 ≤ size → preallocated type size ≡ throws)
unfolding preallocated get_data_size
preallocated_size type size = (
  λ h. (
    record { type = type; contents = replicate size 0 },
    ground arith,
    refl,
    length-replicate size 0,
  ),
  λ h. ground arith,
)
