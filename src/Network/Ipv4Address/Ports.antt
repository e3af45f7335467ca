-- ===== src/Network/Ipv4Address/Ports.antt =====
-- Ports and validity of addresses.
use packetcomms.Base.{
  ℕ, ◌<◌, ◌^◌, ◌%◌, ◌≡◌, ◌↔◌, ◌≢◌, refl, String, List, true, Option, none, arith,
}
use packetcomms.Wire.{Endian, little, big}
use packetcomms.Network.Posix.{SockAddr}
use packetcomms.Network.Ipv4Address.{is_valid, get_port, set_port, get_host_by_name}

-- GetPort returns the port below 2^16 that SetPort was given, on a host of either byte order, and
-- SetPort leaves the validity alone.
pub get_port-set_port :
    (host : Endian) (a : SockAddr) (port : ℕ)
    → port < 2 ^ 16
    → (get_port host (set_port host a port) ≡ port) × (is_valid (set_port host a port) ≡ is_valid a)
unfolding get_port set_port is_valid
get_port-set_port little a port h = (omega arith, refl)
get_port-set_port big a port h = (refl, refl)

-- An address made from a name is valid exactly when the name was resolved. Then its port is the
-- port number reduced to 16 bits.
pub get_host_by_name_lem :
    (host : Endian) (resolve : String → Option (List ℕ)) (hostname : String) (port : ℕ)
    → ((is_valid (get_host_by_name host resolve hostname port) ≡ true) ↔ (resolve hostname ≢ none))
      × (resolve hostname ≢ none
          → get_port host (get_host_by_name host resolve hostname port) ≡ port % 2 ^ 16)
unfolding is_valid get_port get_host_by_name
get_host_by_name_lem little resolve hostname port = ground arith
get_host_by_name_lem big resolve hostname port = ground arith
