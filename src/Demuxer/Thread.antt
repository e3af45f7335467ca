-- ===== src/Demuxer/Thread.antt =====
-- receiveLoop of src/PacketDemuxer.cpp with m_subscriberLock, as a step relation: one receive thread,
-- any number of threads that subscribe and unsubscribe, and the thread that constructs and destroys it. A
-- call of receivePacket is one step, at whose start m_transportError is seen, unless the destructor sets
-- the flag in the middle of it: then the call and that are one step, `interrupts`.
pub mod Calls
pub mod Simulation
pub mod Registrations
pub mod Handed
pub mod Once
pub mod Shutdown
pub mod Names
pub mod Arrivals
pub mod Fresh
use packetcomms.Base.{
  ℕ, ◌≡◌, ◌≢◌, true, false, String, List, [], ◌∷◌, ◌++◌, map, Option, none, some, Outcome, done,
}
use packetcomms.Wire.{Endian}
use packetcomms.IdManager.{control_packet}
use packetcomms.ComPacket.{ComPacket}
use packetcomms.Subscribers.{Subscriber, lookup, insert}
use packetcomms.Transport.{Reader}
use packetcomms.Demuxer.Interruption.{interrupted_packet}
use packetcomms.Demuxer.{
  Demuxer, signal_transport_error, handle_control_message, subscribe, unsubscribe, receive_packet,
  receive_hello_message, hello_timeout, receive_timeout,
}

-- Where the receive thread is. Within `delivering` it has m_subscriberLock, and the callbacks of the
-- subscribers listed are still to be called with the packet.
pub data Phase : Type 0 where
  starting idle exited : Phase
  delivering : ComPacket → List Subscriber → Phase

pub record System (r : Reader) : Type 0 where
  pub demuxer : Demuxer r
  pub phase : Phase

-- The time that the receivePacket of a phase waits, in milliseconds.
unfoldable pub waits_for : Phase → Option ℕ
waits_for starting = some hello_timeout
waits_for idle = some receive_timeout
waits_for exited = none
waits_for (delivering p todo) = none

-- The calls that the thread is about to make.
unfoldable pub pending_calls : Phase → List (ℕ × ComPacket)
pending_calls (delivering p todo) = map (λ (x : Subscriber). (x.address, p)) todo
pending_calls _ = []

module _ (r : Reader) where
  -- The thread starts on a demuxer that was just made.
  abbrev pub start : Demuxer r → System r
  start d = record { demuxer = d; phase = starting }

  -- Another thread can take m_subscriberLock.
  abbrev pub IsFree : System r → Type 0
  IsFree s = (p : ComPacket) (todo : List Subscriber) → s.phase ≢ delivering p todo

  -- `m_subscribers[packetType]` makes an entry where there is none.
  unfoldable pub open_queue : ComPacket → Demuxer r → Demuxer r
  open_queue p d = record d {
    subscribers = insert p.type (lookup p.type d.subscribers) d.subscribers;
  }

  -- The body of the constructor, which runs when the thread has already been started.
  unfoldable pub unblock : Demuxer r → Demuxer r
  unblock d = record d { transport = r.set_blocking d.transport false }

  -- What is left by a receivePacket that ended because the flag was set.
  unfoldable pub cut_off : r.State → Demuxer r → Demuxer r
  cut_off x d = record d { transport = x; transport_error = true }

  -- `subscriber->m_callback(sptr)`.
  unfoldable pub call : Subscriber → ComPacket → Demuxer r → Demuxer r
  call x p d = record d { delivered = d.delivered ++ ((x.address, p) ∷ []) }

-- `fuel` bounds the reads of each call of receivePacket.
pub data Step (r : Reader) (host : Endian) (fuel : ℕ) (s t : System r) : Type 0 where
  greets :
      (d : Demuxer r)
      → s.phase ≡ starting
      → receive_hello_message r host fuel s.demuxer hello_timeout ≡ done d
      → t ≡ record { demuxer = d; phase = idle }
      → Step r host fuel s t
  gets_nothing :
      (d : Demuxer r)
      → s.phase ≡ idle
      → (s.demuxer).transport_error ≡ false
      → receive_packet r host fuel s.demuxer receive_timeout ≡ done (d, none)
      → t ≡ record { demuxer = d; phase = idle }
      → Step r host fuel s t
  gets_control :
      (d : Demuxer r) (p : ComPacket)
      → s.phase ≡ idle
      → (s.demuxer).transport_error ≡ false
      → receive_packet r host fuel s.demuxer receive_timeout ≡ done (d, some p)
      → p.type ≡ control_packet
      → t ≡ record { demuxer = handle_control_message r p d; phase = idle }
      → Step r host fuel s t
  gets :
      (d : Demuxer r) (p : ComPacket)
      → s.phase ≡ idle
      → (s.demuxer).transport_error ≡ false
      → receive_packet r host fuel s.demuxer receive_timeout ≡ done (d, some p)
      → p.type ≢ control_packet
      → t
        ≡ record { demuxer = open_queue r p d; phase = delivering p (lookup p.type d.subscribers) }
      → Step r host fuel s t
  calls :
      (p : ComPacket) (x : Subscriber) (todo : List Subscriber)
      → s.phase ≡ delivering p (x ∷ todo)
      → t ≡ record { demuxer = call r x p s.demuxer; phase = delivering p todo }
      → Step r host fuel s t
  unlocks :
      (p : ComPacket)
      → s.phase ≡ delivering p []
      → t ≡ record s { phase = idle }
      → Step r host fuel s t
  exits :
      s.phase ≡ idle
      → (s.demuxer).transport_error ≡ true
      → t ≡ record s { phase = exited }
      → Step r host fuel s t
  subscribes :
      (name : String) (d : Demuxer r) (x : Subscriber)
      → IsFree r s
      → subscribe r s.demuxer name ≡ done (d, x)
      → t ≡ record s { demuxer = d }
      → Step r host fuel s t
  unsubscribes :
      (x : Subscriber) (d : Demuxer r)
      → IsFree r s
      → unsubscribe r s.demuxer x ≡ done d
      → t ≡ record s { demuxer = d }
      → Step r host fuel s t
  destroys : t ≡ record s { demuxer = signal_transport_error r s.demuxer } → Step r host fuel s t
  unblocks : t ≡ record s { demuxer = unblock r s.demuxer } → Step r host fuel s t
  interrupts :
      (tests ms : ℕ) (x : r.State)
      → waits_for s.phase ≡ some ms
      → (s.demuxer).transport_error ≡ false
      → interrupted_packet r host tests (s.demuxer).transport ms ≡ done (x, none)
      → t ≡ record { demuxer = cut_off r x s.demuxer; phase = idle }
      → Step r host fuel s t

pub data Reach (r : Reader) (host : Endian) (fuel : ℕ) (s : System r) : System r → Type 0 where
  here : Reach r host fuel s s
  next : {t u : System r} → Reach r host fuel s t → Step r host fuel t u → Reach r host fuel s u
