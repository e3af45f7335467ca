-- ===== src/Network.antt =====
-- src/network: the wrappers over the POSIX sockets API. The WIN32 branches are not modelled.
pub mod Posix
pub mod Ipv4Address
pub mod Socket
pub mod TcpSocket
pub mod UdpSocket
pub mod Descriptors
