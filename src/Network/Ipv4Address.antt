-- ===== src/Network/Ipv4Address.antt =====
-- src/network/Ipv4Address.h and .cpp. The resolver is a parameter of each function that calls it.
pub mod Ports
pub mod HostName
use packetcomms.Base.{
  ℕ, zero, suc, ◌+◌, ◌*◌, ◌/◌, ◌%◌, ◌^◌, String, List, [], Bool, true, false, ◌&&◌, Option, none,
  some, ◌==◌, ltb, if◌then◌else◌, replicate,
}
use packetcomms.Wire.{Endian, little, big}
use packetcomms.Network.Posix.{SockAddr}

-- class Ipv4Address: its one member m_addr, storage that every method reads as a sockaddr_in.
abbrev pub Ipv4Address : Type 0
Ipv4Address = SockAddr

-- AF_INET of Linux. The class marks an invalid address by the family below it.
abbrev pub af_inet : ℕ
af_inet = 2

-- htons and ntohs on a uint16_t.
unfoldable pub htons : Endian → ℕ → ℕ
htons big v = v
htons little v = v % 256 * 256 + v / 256 % 256

unfoldable pub ntohs : Endian → ℕ → ℕ
unfolding htons
ntohs host v = htons host v

-- A conversion to uint16_t, as of the `int` port numbers.
abbrev pub to_u16 : ℕ → ℕ
to_u16 v = v % 2 ^ 16

-- Ipv4Address(): the family alone is set, in storage that holds anything.
unfoldable pub default_address : Ipv4Address → Ipv4Address
default_address garbage = record garbage { family = 1 }

unfoldable pub copy_address : Ipv4Address → Ipv4Address
copy_address a = a

unfoldable pub is_valid : Ipv4Address → Bool
is_valid a = a.family == af_inet

unfoldable pub get_port : Endian → Ipv4Address → ℕ
unfolding ntohs
get_port host a = ntohs host a.port

unfoldable pub set_port : Endian → Ipv4Address → ℕ → Ipv4Address
unfolding htons
set_port host a port = record a { port = htons host port }

-- GetHostByName: `resolve` is gethostbyname, with the first address of the host, or null.
unfoldable pub get_host_by_name : Endian → (String → Option (List ℕ)) → String → ℕ → Ipv4Address
unfolding htons
get_host_by_name host resolve hostname port = elim (resolve hostname) [
  | none ↦ record { family = 1; port = 0; addr = replicate 4 0 }
  | some bytes ↦ record { family = af_inet; port = htons host (to_u16 port); addr = bytes }
]

-- Ipv4Address(hostname, portNumber): valid exactly if the name was resolved.
abbrev pub resolved_address : Endian → (String → Option (List ℕ)) → String → ℕ → Ipv4Address
resolved_address host resolve hostname port = get_host_by_name host resolve hostname port

-- getnameinfo with a buffer of some size: the name, EAI_OVERFLOW, or another error.
pub data NameInfo : Type 0 where
  name : String → NameInfo
  eai_overflow eai_other : NameInfo

-- The growing and retrying: while the call overflows and the buffer is below 512 bytes, it is made
-- again with a buffer of twice the size. `fuel` bounds the retries.
unfoldable pub retry : ℕ → (ℕ → NameInfo) → ℕ → Option NameInfo
retry zero info size = none
retry (suc fuel) info size =
    let again = retry fuel info (size * 2) in
    elim (info size) [
      | eai_overflow ↦ if ltb size 512 then again else some eai_overflow
      | name text ↦ some (name text)
      | eai_other ↦ some eai_other
    ]

-- `host` is written only if the last call succeeded.
unfoldable pub assign_host : String → NameInfo → String
assign_host before (name text) = text
assign_host before eai_overflow = before
assign_host before eai_other = before

-- GetHostNameInfo, which starts at 16 bytes. The result is `host` afterwards; `info` is
-- getnameinfo for the address and the flags. GetHostName and GetHostAddress differ in the flags.
unfoldable pub get_host_name_info : (ℕ → NameInfo) → String → Option String
unfolding retry assign_host
get_host_name_info info before = elim (retry 6 info 16) [
  | none ↦ none
  | some result ↦ some (assign_host before result)
]

-- The flags that getnameinfo is given.
pub data NameFlag : Type 0 where
  no_flags numeric_host : NameFlag

unfoldable pub get_host_name : (NameFlag → ℕ → NameInfo) → String → Option String
unfolding get_host_name_info
get_host_name info before = get_host_name_info (info no_flags) before

unfoldable pub get_host_address : (NameFlag → ℕ → NameInfo) → String → Option String
unfolding get_host_name_info
get_host_address info before = get_host_name_info (info numeric_host) before
