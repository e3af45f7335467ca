-- ===== src/Wire/ByteOrder.antt =====
-- htonl and ntohl against the order of the bytes on the wire.
use packetcomms.Base.{ℕ, ◌≡◌, refl, arith, length, All}
use packetcomms.Wire.{
  Endian, little, big, IsByte, IsU32, network_bytes, store_u32, load_u32, htonl, ntohl,
}

pub length-network_bytes : (v : ℕ) → length (network_bytes v) ≡ 4
unfolding network_bytes
length-network_bytes v = refl

pub network_bytes-IsByte : (v : ℕ) → All IsByte (network_bytes v)
unfolding network_bytes
network_bytes-IsByte v = omega arith

-- On a host of either byte order, a uint32_t passed through htonl lies in memory most significant
-- byte first: the header on the wire does not depend on the sender.
pub store_u32-htonl : (e : Endian) (v : ℕ) → IsU32 v → store_u32 e (htonl e v) ≡ network_bytes v
unfolding store_u32 htonl network_bytes
store_u32-htonl little v h = ground arith
store_u32-htonl big v h = refl

pub length-store_u32 : (e : Endian) (v : ℕ) → length (store_u32 e v) ≡ 4
unfolding store_u32
length-store_u32 little v = refl
length-store_u32 big v = refl

-- A uint32_t that is sent through htonl by one host and read through ntohl by another has the same
-- value at both, whatever their byte orders.
pub ntohl-load_u32 : (e : Endian) (v : ℕ) → IsU32 v → ntohl e (load_u32 e (network_bytes v)) ≡ v
unfolding ntohl load_u32 network_bytes
ntohl-load_u32 little v h = omega arith
ntohl-load_u32 big v h = omega arith
