-- ===== src/Demuxer/Lifetime.antt =====
-- The constructor and the destructor of src/PacketDemuxer.cpp around the life of the receive thread.
pub mod End
pub mod Return
use packetcomms.Base.{ℕ, ◌≡◌, String, List, [], map, done, All, In, Distinct}
use packetcomms.Wire.{Endian}
use packetcomms.Subscribers.{SubscriberTable}
use packetcomms.Transport.{Reader}
use packetcomms.Demuxer.{Demuxer, warn_about_subscribers}
use packetcomms.Demuxer.Thread.{
  System, exited, start, IsFree, Step, greets, gets_nothing, gets_control, gets, calls, unlocks,
  exits, subscribes, unsubscribes, destroys, unblocks, interrupts,
}

-- How far the thread that owns the demuxer has come: into the body of the constructor, past it, past
-- signalTransportError of the destructor, past warnAboutSubscribers, and past the join.
pub data Stage : Type 0 where
  constructing constructed signalled warned destroyed : Stage

-- An order in which m_subscribers is gone through, which is not promised: each key, and once.
pub record GoesThrough (order : List ℕ) (table : SubscriberTable) : Type 0 where
  pub once : Distinct order
  pub every : All (λ k. In k order) (map (λ entry. entry.0) table)
  pub only : All (λ k. In k (map (λ entry. entry.0) table)) order

-- Whose code a step of the system is. The destructor and the receive thread have `interrupts` together.
pub data Actor : Type 0 where
  receiver client constructor destructor : Actor

pub record Object (r : Reader) : Type 0 where
  pub system : System r
  pub stage : Stage
  -- What warnAboutSubscribers has logged: numbers of subscribers, with the name of their type.
  pub warnings : List (ℕ × String)

-- Other threads have the object once it is constructed, and until it is destroyed.
abbrev pub IsUsable : Stage → Type 0
IsUsable constructing = ⊥
IsUsable constructed = Unit {0}
IsUsable signalled = Unit {0}
IsUsable warned = Unit {0}
IsUsable destroyed = ⊥

-- The thread is started, by the last member's initialiser, on a transport that was not touched yet.
abbrev pub begin : (r : Reader) → Demuxer r → r.State → Object r
begin r d transport = record {
  system = start r (record d { transport = transport });
  stage = constructing;
  warnings = [];
}

module _ (r : Reader) (host : Endian) (fuel : ℕ) where
  unfoldable pub actor : {s t : System r} → Step r host fuel s t → Actor
  actor (greets d i e q) = receiver
  actor (gets_nothing d i c e q) = receiver
  actor (gets_control d p i c e n q) = receiver
  actor (gets d p i c e n q) = receiver
  actor (calls p x todo i q) = receiver
  actor (unlocks p i q) = receiver
  actor (exits i e q) = receiver
  actor (subscribes name d x f e q) = client
  actor (unsubscribes x d f e q) = client
  actor (unblocks q) = constructor
  actor (destroys q) = destructor
  actor (interrupts n ms x i c e q) = destructor

pub data Event (r : Reader) (host : Endian) (fuel : ℕ) (s t : Object r) : Type 0 where
  constructs :
      (u : System r) (st : Step r host fuel s.system u)
      → s.stage ≡ constructing
      → actor r host fuel st ≡ constructor
      → t ≡ record s { system = u; stage = constructed }
      → Event r host fuel s t
  works :
      (u : System r) (st : Step r host fuel s.system u)
      → actor r host fuel st ≡ receiver
      → t ≡ record s { system = u }
      → Event r host fuel s t
  uses :
      (u : System r) (st : Step r host fuel s.system u)
      → IsUsable s.stage
      → actor r host fuel st ≡ client
      → t ≡ record s { system = u }
      → Event r host fuel s t
  signals :
      (u : System r) (st : Step r host fuel s.system u)
      → s.stage ≡ constructed
      → actor r host fuel st ≡ destructor
      → t ≡ record s { system = u; stage = signalled }
      → Event r host fuel s t
  warns :
      (order : List ℕ) (ws : List (ℕ × String))
      → s.stage ≡ signalled
      → IsFree r s.system
      → GoesThrough order ((s.system).demuxer).subscribers
      → warn_about_subscribers r (s.system).demuxer order ≡ done ws
      → t ≡ record s { stage = warned; warnings = ws }
      → Event r host fuel s t
  joins :
      s.stage ≡ warned
      → (s.system).phase ≡ exited
      → t ≡ record s { stage = destroyed }
      → Event r host fuel s t

pub data Life (r : Reader) (host : Endian) (fuel : ℕ) (s : Object r) : Object r → Type 0 where
  here : Life r host fuel s s
  next : {t u : Object r} → Life r host fuel s t → Event r host fuel t u → Life r host fuel s u
