-- ===== src/ComPacket.antt =====
-- src/ComPacket.h: a typed packet of bytes, with the move operations that empty their source.
-- A buffer is the list of its bytes; a `char` is a number below 256.
pub mod Moves
use packetcomms.Base.{
  ℕ, ◌+◌, ◌-◌, ◌<◌, ◌^◌, List, [], replicate, ltb, if◌then◌else◌, Outcome, done, throws, length,
}
use packetcomms.IdManager.{invalid_packet}

pub record ComPacket : Type 0 where
  pub type : ℕ
  pub contents : List ℕ

-- ComPacket(): an invalid packet with no data.
abbrev pub default_packet : ComPacket
default_packet = record { type = invalid_packet; contents = [] }

-- ComPacket(type, buffer, size): a copy of the bytes [buffer, buffer + size).
abbrev pub from_buffer : ℕ → List ℕ → ComPacket
from_buffer type buffer = record { type = type; contents = buffer }

-- ComPacket(type, Buffer&&): swaps the vector with its own empty one. The second part is what is
-- left in the argument.
unfoldable pub from_moved_buffer : ℕ → List ℕ → ComPacket × List ℕ
from_moved_buffer type buffer = (record { type = type; contents = buffer }, [])

-- ComPacket(type, int size): `size` zero bytes. The parameter is an int: a uint32_t argument from
-- 2^31 on turns negative, and the vector's constructor throws std::length_error.
unfoldable pub preallocated : ℕ → ℕ → Outcome ComPacket
preallocated type size =
    if ltb size (2 ^ 31) then done (record { type = type; contents = replicate size 0 }) else throws

-- The move constructor: a fresh invalid packet, swapped with the argument.
-- The first part is the new packet, the second the argument afterwards.
unfoldable pub move_construct : ComPacket → ComPacket × ComPacket
move_construct p = (
  record { type = p.type; contents = p.contents },
  record { type = invalid_packet; contents = [] },
)

-- Move assignment swaps: the first part is the target afterwards, the second the source.
unfoldable pub move_assign : ComPacket → ComPacket → ComPacket × ComPacket
move_assign target source = (
  record { type = source.type; contents = source.contents },
  record { type = target.type; contents = target.contents },
)

unfoldable pub get_data_size : ComPacket → ℕ
get_data_size p = length p.contents
