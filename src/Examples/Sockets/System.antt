-- ===== src/Examples/Sockets/System.antt =====
-- An operating system with one connection that is slow to begin with, and one whose peer has closed
-- its side.
use packetcomms.Base.{
  ℕ, zero, suc, ◌≤◌, ◌<◌, ◌≡◌, ◌≢◌, refl, sym, List, [], ◌∷◌, ◌++◌, ◌&&◌, true, false, pos, negsuc,
  minus_one, take, drop, length, take-append-drop, take_all, arith,
}
use packetcomms.Network.Posix.{Posix, eagain, IoResult, PollResult, SockAddr}
use packetcomms.Network.Socket.{would_block, is_one}
use packetcomms.Network.Socket.Stream.{SendsInOrder}
use packetcomms.Network.Socket.Receives.{ReceivesInOrder}

-- How many calls still find nothing, what the peer was sent, and what it has sent.
pub record Link : Type 0 where
  pub delays : ℕ
  pub taken : List ℕ
  pub coming : List ℕ

abbrev pub send_at : ℕ → List ℕ → List ℕ → List ℕ → IoResult Link
send_at zero taken coming bytes = record {
  state = record { delays = 0; taken = taken ++ bytes; coming = coming };
  returned = pos (length bytes);
  errno = eagain;
  bytes = [];
}
send_at (suc n) taken coming bytes = record {
  state = record { delays = n; taken = taken; coming = coming };
  returned = minus_one;
  errno = eagain;
  bytes = [];
}

abbrev pub recv_at : ℕ → List ℕ → List ℕ → ℕ → IoResult Link
recv_at zero taken coming max = record {
  state = record { delays = 0; taken = taken; coming = drop max coming };
  returned = pos (length (take max coming));
  errno = eagain;
  bytes = take max coming;
}
recv_at (suc n) taken coming max = record {
  state = record { delays = n; taken = taken; coming = coming };
  returned = minus_one;
  errno = eagain;
  bytes = [];
}

abbrev pub poll_at : ℕ → List ℕ → List ℕ → PollResult Link
poll_at zero taken coming = record {
  state = record { delays = 0; taken = taken; coming = coming };
  returned = pos 1;
  revents = record {
    pollin = true;
    pollout = true;
    pollerr = false;
    pollhup = false;
    pollnval = false;
  };
}
poll_at (suc n) taken coming = record {
  state = record { delays = n; taken = taken; coming = coming };
  returned = pos 0;
  revents = record {
    pollin = false;
    pollout = false;
    pollerr = false;
    pollhup = false;
    pollnval = false;
  };
}

abbrev pub nowhere : SockAddr
nowhere = record { family = 0; port = 0; addr = [] }

-- The system with a given recv.
abbrev pub system : (Link → ℕ → IoResult Link) → Posix
system recv_call = record {
  State = Link;
  socket = λ s kind. (s, pos 3);
  close = λ s fd. s;
  bind = λ s fd a. (s, pos 0);
  listen = λ s fd n. (s, pos 0);
  accept = λ s fd. (s, pos 4);
  connect = λ s fd a. (s, pos 0);
  shutdown = λ s fd. (s, pos 0);
  recv = λ s fd max. recv_call s max;
  send = λ s fd bytes. send_at s.delays s.taken s.coming bytes;
  sendto = λ s fd bytes a. send_at s.delays s.taken s.coming bytes;
  recvfrom = λ s fd max a. (recv_call s max, nowhere);
  fcntl_setfl = λ s fd flag. s;
  setsockopt = λ s fd o n. (s, pos 0);
  getpeername = λ s fd. (s, pos 0, nowhere);
  poll = λ s fd event ms. poll_at s.delays s.taken s.coming;
}

abbrev pub connected : Posix
connected = system (λ s max. recv_at s.delays s.taken s.coming max)

-- The peer has closed its side.
abbrev pub ended : Posix
ended = system (λ s max. record { state = s; returned = pos 0; errno = eagain; bytes = [] })

take-length : (bytes : List ℕ) → take (length bytes) bytes ≡ bytes
take-length bytes = take_all (length bytes) bytes (omega arith)

pub send_sends :
    (delays : ℕ) (taken coming bytes : List ℕ) (n : ℕ)
    → (send_at delays taken coming bytes).returned ≡ pos n
    → (n ≤ length bytes)
      × ((send_at delays taken coming bytes).state.taken ≡ taken ++ take n bytes)
      × ((send_at delays taken coming bytes).state.delays ≤ delays)
send_sends zero taken coming bytes n e =
    let e' : length bytes ≡ n = ground arith in
    rw (← e') (omega arith, rw (take-length bytes) refl, omega arith)
send_sends (suc m) taken coming bytes n e = cc

pub send_some :
    (delays : ℕ) (taken coming bytes : List ℕ)
    → bytes ≢ []
    → (send_at delays taken coming bytes).returned ≢ pos 0
send_some zero taken coming [] h e = h refl
send_some zero taken coming (b ∷ bytes) h e = absurd (ground arith)
send_some (suc m) taken coming bytes h e = cc

pub send_fails :
    (delays : ℕ) (taken coming bytes : List ℕ) (n : ℕ)
    → (send_at delays taken coming bytes).returned ≡ negsuc n
    → ((send_at delays taken coming bytes).state.taken ≡ taken)
      × ((send_at delays taken coming bytes).state.delays ≤ delays)
send_fails zero taken coming bytes n e = cc
send_fails (suc m) taken coming bytes n e = (refl, omega arith)

pub send_blocks :
    (delays : ℕ) (taken coming bytes : List ℕ)
    → (send_at delays taken coming bytes).returned ≡ minus_one
    → (send_at delays taken coming bytes).state.delays < delays
send_blocks zero taken coming bytes e = cc
send_blocks (suc m) taken coming bytes e = omega arith

abbrev pub connected-SendsInOrder : SendsInOrder connected (pos 3)
connected-SendsInOrder = record {
  sent = λ s. s.taken;
  patience = λ s. s.delays;
  set = λ s b. refl;
  sends = λ s bytes n e. send_sends s.delays s.taken s.coming bytes n e;
  sends_some = λ s bytes h. send_some s.delays s.taken s.coming bytes h;
  fails = λ s bytes n e. send_fails s.delays s.taken s.coming bytes n e;
  blocks = λ s bytes e b. send_blocks s.delays s.taken s.coming bytes e;
}

pub recv_receives :
    (delays : ℕ) (taken coming : List ℕ) (max n : ℕ)
    → (recv_at delays taken coming max).returned ≡ pos n
    → (n ≤ max)
      × (length (recv_at delays taken coming max).bytes ≡ n)
      × (coming
          ≡ (recv_at delays taken coming max).bytes
            ++ (recv_at delays taken coming max).state.coming)
      × ((recv_at delays taken coming max).state.delays ≤ delays)
recv_receives zero taken coming max n e =
    let e' : length (take max coming) ≡ n = ground arith in
    (omega (arith, length-take_most max coming), e', sym (take-append-drop max coming), omega arith)
  where
    length-take_most : (n : ℕ) (xs : List ℕ) → length (take n xs) ≤ n
    length-take_most zero xs = omega arith
    length-take_most (suc n) [] = omega arith
    length-take_most (suc n) (x ∷ xs) = omega (arith, length-take_most n xs)
recv_receives (suc m) taken coming max n e = cc

pub recv_some :
    (delays : ℕ) (taken coming : List ℕ) (max : ℕ)
    → coming ≢ []
    → 0 < max
    → (recv_at delays taken coming max).returned ≢ pos 0
recv_some zero taken [] max h l e = h refl
recv_some zero taken (b ∷ coming) zero h l e = absurd (omega arith)
recv_some zero taken (b ∷ coming) (suc max) h l e = absurd (ground arith)
recv_some (suc m) taken coming max h l e = cc

pub recv_open :
    (delays : ℕ) (taken coming : List ℕ) (max n : ℕ)
    → (recv_at delays taken coming max).returned ≡ negsuc n
    → (n ≡ 0) × (would_block (recv_at delays taken coming max).errno ≡ true)
unfolding would_block
recv_open zero taken coming max n e = cc
recv_open (suc m) taken coming max zero e = (refl, refl)
recv_open (suc m) taken coming max (suc n) e = absurd (ground arith)

pub recv_blocks :
    (delays : ℕ) (taken coming : List ℕ) (max : ℕ)
    → (recv_at delays taken coming max).returned ≡ minus_one
    → ((recv_at delays taken coming max).bytes ≡ [])
      × ((recv_at delays taken coming max).state.coming ≡ coming)
      × ((recv_at delays taken coming max).state.delays ≤ delays)
      × (coming ≢ [] → (recv_at delays taken coming max).state.delays < delays)
recv_blocks zero taken coming max e = cc
recv_blocks (suc m) taken coming max e = (refl, refl, omega arith, λ h. omega arith)

pub poll_polls :
    (delays : ℕ) (taken coming : List ℕ)
    → ((poll_at delays taken coming).state.coming ≡ coming)
      × ((poll_at delays taken coming).state.delays ≤ delays)
poll_polls zero taken coming = (refl, omega arith)
poll_polls (suc m) taken coming = (refl, omega arith)

pub poll_late :
    (delays : ℕ) (taken coming : List ℕ)
    → (is_one (poll_at delays taken coming).returned
        && (poll_at delays taken coming).revents.pollin)
      ≡ false
    → (poll_at delays taken coming).state.delays < delays
poll_late zero taken coming e = cc
poll_late (suc m) taken coming e = omega arith

abbrev pub connected-ReceivesInOrder : ReceivesInOrder connected (pos 3)
connected-ReceivesInOrder = record {
  set = λ s b. (refl, omega arith);
  pending = λ s. s.coming;
  patience = λ s. s.delays;
  receives = λ s max n e. recv_receives s.delays s.taken s.coming max n e;
  receives_some = λ s max h l. recv_some s.delays s.taken s.coming max h l;
  open_yet = λ s max n h e. recv_open s.delays s.taken s.coming max n e;
  blocks = λ s max e. recv_blocks s.delays s.taken s.coming max e;
  polls = λ s ms. poll_polls s.delays s.taken s.coming;
  polls_late = λ s ms e h. poll_late s.delays s.taken s.coming e;
}
