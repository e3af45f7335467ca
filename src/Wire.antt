-- ===== src/Wire.antt =====
-- Byte order: a uint32_t in the memory of a host of either endianness, and htonl/ntohl, as
-- PacketMuxer.cpp and PacketDemuxer.cpp use them on the two words of a packet header.
pub mod ByteOrder
use packetcomms.Base.{ℕ, ◌+◌, ◌*◌, ◌/◌, ◌%◌, ◌^◌, ◌<◌, List, [], ◌∷◌}

-- The byte order of the machine that the program runs on.
pub data Endian : Type 0 where
  little big : Endian

abbrev pub IsByte : ℕ → Type 0
IsByte b = b < 256

abbrev pub IsU32 : ℕ → Type 0
IsU32 v = v < 2 ^ 32

-- A conversion to uint32_t.
abbrev pub to_u32 : ℕ → ℕ
to_u32 v = v % 2 ^ 32

-- The digits of a uint32_t, most significant first: the network order.
unfoldable pub network_bytes : ℕ → List ℕ
network_bytes v = (v / 16777216 % 256) ∷ (v / 65536 % 256) ∷ (v / 256 % 256) ∷ (v % 256) ∷ []

-- The object representation of a uint32_t variable.
unfoldable pub store_u32 : Endian → ℕ → List ℕ
store_u32 big v = (v / 16777216 % 256) ∷ (v / 65536 % 256) ∷ (v / 256 % 256) ∷ (v % 256) ∷ []
store_u32 little v = (v % 256) ∷ (v / 256 % 256) ∷ (v / 65536 % 256) ∷ (v / 16777216 % 256) ∷ []

-- The value of a uint32_t variable whose four bytes were overwritten.
unfoldable pub load_u32 : Endian → List ℕ → ℕ
load_u32 big (a ∷ b ∷ c ∷ d ∷ []) = a * 16777216 + b * 65536 + c * 256 + d
load_u32 little (a ∷ b ∷ c ∷ d ∷ []) = a + b * 256 + c * 65536 + d * 16777216
load_u32 _ _ = 0

-- htonl and ntohl: the identity on a big-endian host, a swap of the bytes on the other.
unfoldable pub htonl : Endian → ℕ → ℕ
htonl big v = v
htonl little v =
    v % 256 * 16777216 + v / 256 % 256 * 65536 + v / 65536 % 256 * 256 + v / 16777216 % 256

unfoldable pub ntohl : Endian → ℕ → ℕ
unfolding htonl
ntohl e v = htonl e v
