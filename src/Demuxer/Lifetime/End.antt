-- ===== src/Demuxer/Lifetime/End.antt =====
-- The calls of callbacks that are made while the destructor of src/PacketDemuxer.cpp runs.
use packetcomms.Base.{ℕ, ◌≡◌, true, List, ◌++◌}
use packetcomms.Wire.{Endian}
use packetcomms.Transport.{Reader}
use packetcomms.ComPacket.{ComPacket}
use packetcomms.Demuxer.{Demuxer}
use packetcomms.Demuxer.Thread.{exited, System, pending_calls}
use packetcomms.Demuxer.Lifetime.{
  Stage, constructing, constructed, signalled, warned, destroyed, Object,
}

-- The destructor has set the flag.
abbrev IsEnding : Stage → Type 0
IsEnding constructing = ⊥
IsEnding constructed = ⊥
IsEnding signalled = Unit {0}
IsEnding warned = Unit {0}
IsEnding destroyed = Unit {0}

-- The flag is set where the destructor has set it, and the thread has ended where it was joined.
record IsSound {r : Reader} (s : Object r) : Type 0 where
  flagged : IsEnding s.stage → ((s.system).demuxer).transport_error ≡ true
  ended : s.stage ≡ destroyed → (s.system).phase ≡ exited

module _ (r : Reader) (host : Endian) (fuel : ℕ) where
  -- The calls made, and those that the thread is about to make.
  abbrev calls_due : System r → List (ℕ × ComPacket)
  calls_due s = (s.demuxer).delivered ++ pending_calls s.phase
