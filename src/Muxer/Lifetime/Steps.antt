-- ===== src/Muxer/Lifetime/Steps.antt =====
-- Whose steps a run of the threads of src/PacketMuxer.cpp is made of.
use packetcomms.Base.{ℕ, ◌≡◌, ◌≢◌}
use packetcomms.Wire.{Endian}
use packetcomms.Transport.{Writer}
use packetcomms.Muxer.Thread.{System, Reach, here, next}
use packetcomms.Muxer.Lifetime.{actor, sender, destructor}

module _ (w : Writer) (host : Endian) (fuel : ℕ) where
  -- The send thread does every step, and no other thread does anything.
  abbrev pub BySender : {s t : System w} → Reach w host fuel s t → Type 0
  BySender here = Unit {0}
  BySender (next run st) = BySender run × (actor w host fuel st ≡ sender)

  -- No step is the destructor's.
  abbrev pub Undestroyed : {s t : System w} → Reach w host fuel s t → Type 0
  Undestroyed here = Unit {0}
  Undestroyed (next run st) = Undestroyed run × (actor w host fuel st ≢ destructor)
