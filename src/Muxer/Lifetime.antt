-- ===== src/Muxer/Lifetime.antt =====
-- The constructor and the destructor of src/PacketMuxer.cpp around the life of the send thread.
pub mod End
pub mod Known
pub mod Return
pub mod Steps
use packetcomms.Base.{ℕ, ◌≡◌}
use packetcomms.Wire.{Endian}
use packetcomms.Transport.{Writer}
use packetcomms.Muxer.{Muxer}
use packetcomms.Muxer.Thread.{
  System, exited, start, Step, posts, destroys, unblocks, greets, locks, exits, waits, sends, wakes,
}

-- How far the thread that owns the muxer has come: into the body of the constructor, past it, past the
-- block of the destructor that has the lock, and past the join.
pub data Stage : Type 0 where
  constructing constructed signalled destroyed : Stage

-- Whose code a step of the system is.
pub data Actor : Type 0 where
  sender client constructor destructor : Actor

pub record Object (w : Writer) : Type 0 where
  pub system : System w
  pub stage : Stage

-- Other threads have the object once it is constructed, and until it is destroyed.
abbrev pub IsUsable : Stage → Type 0
IsUsable constructing = ⊥
IsUsable constructed = Unit {0}
IsUsable signalled = Unit {0}
IsUsable destroyed = ⊥

-- The thread is started, by the last member's initialiser, on a transport that was not touched yet.
abbrev pub begin : (w : Writer) → Muxer w → w.State → Object w
begin w m transport = record {
  system = start w (record m { transport = transport });
  stage = constructing;
}

module _ (w : Writer) (host : Endian) (fuel : ℕ) where
  unfoldable pub actor : {s t : System w} → Step w host fuel s t → Actor
  actor (posts name bytes m free e q) = client
  actor (destroys free q) = destructor
  actor (unblocks q) = constructor
  actor (greets m p e q) = sender
  actor (locks p q) = sender
  actor (exits p e q) = sender
  actor (waits p e d q) = sender
  actor (sends order m p e d o r q) = sender
  actor (wakes status order m₁ m p e o r q) = sender

pub data Event (w : Writer) (host : Endian) (fuel : ℕ) (s t : Object w) : Type 0 where
  constructs :
      (u : System w) (st : Step w host fuel s.system u)
      → s.stage ≡ constructing
      → actor w host fuel st ≡ constructor
      → t ≡ record { system = u; stage = constructed }
      → Event w host fuel s t
  works :
      (u : System w) (st : Step w host fuel s.system u)
      → actor w host fuel st ≡ sender
      → t ≡ record s { system = u }
      → Event w host fuel s t
  uses :
      (u : System w) (st : Step w host fuel s.system u)
      → IsUsable s.stage
      → actor w host fuel st ≡ client
      → t ≡ record s { system = u }
      → Event w host fuel s t
  signals :
      (u : System w) (st : Step w host fuel s.system u)
      → s.stage ≡ constructed
      → actor w host fuel st ≡ destructor
      → t ≡ record { system = u; stage = signalled }
      → Event w host fuel s t
  joins :
      s.stage ≡ signalled
      → (s.system).phase ≡ exited
      → t ≡ record s { stage = destroyed }
      → Event w host fuel s t

pub data Life (w : Writer) (host : Endian) (fuel : ℕ) (s : Object w) : Object w → Type 0 where
  here : Life w host fuel s s
  next : {t u : Object w} → Life w host fuel s t → Event w host fuel t u → Life w host fuel s u
