-- ===== src/Network/Posix.antt =====
-- The calls of the operating system that src/network makes, as a parameter: what they do is not part
-- of this program. `errno` is the part of a result that the code reads after a -1.
use packetcomms.Base.{ℕ, Bool, List, Option, ℤ}

pub data Errno : Type 0 where
  eagain ewouldblock : Errno
  other : ℕ → Errno

pub record IoResult (S : Type 0) : Type 0 where
  pub state : S
  pub returned : ℤ
  pub errno : Errno
  pub bytes : List ℕ

-- The bits of pollfd.events and pollfd.revents that the code names.
pub record PollBits : Type 0 where
  pub pollin : Bool
  pub pollout : Bool
  pub pollerr : Bool
  pub pollhup : Bool
  pub pollnval : Bool

pub data PollEvent : Type 0 where
  pollin_event pollout_event : PollEvent

pub record PollResult (S : Type 0) : Type 0 where
  pub state : S
  pub returned : ℤ
  pub revents : PollBits

-- The one flag that F_SETFL is given.
pub data StatusFlag : Type 0 where
  o_async o_nonblock : StatusFlag

pub data SocketKind : Type 0 where
  sock_stream sock_dgram : SocketKind

pub data SocketOption : Type 0 where
  so_reuseaddr tcp_nodelay : SocketOption

-- A sockaddr_in: family, port as it lies in memory, and the four address bytes.
pub record SockAddr : Type 0 where
  pub family : ℕ
  pub port : ℕ
  pub addr : List ℕ

pub record Posix : Type 1 where
  pub State : Type 0
  pub socket : State → SocketKind → State × ℤ
  pub close : State → ℤ → State
  pub bind : State → ℤ → SockAddr → State × ℤ
  pub listen : State → ℤ → ℕ → State × ℤ
  pub accept : State → ℤ → State × ℤ
  pub connect : State → ℤ → SockAddr → State × ℤ
  pub shutdown : State → ℤ → State × ℤ
  pub recv : State → ℤ → ℕ → IoResult State
  pub send : State → ℤ → List ℕ → IoResult State
  pub sendto : State → ℤ → List ℕ → SockAddr → IoResult State
  pub recvfrom : State → ℤ → ℕ → Option SockAddr → IoResult State × SockAddr
  pub fcntl_setfl : State → ℤ → StatusFlag → State
  pub setsockopt : State → ℤ → SocketOption → ℕ → State × ℤ
  pub getpeername : State → ℤ → State × ℤ × SockAddr
  pub poll : State → ℤ → PollEvent → ℕ → PollResult State
