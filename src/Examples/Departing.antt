-- ===== src/Examples/Departing.antt =====
-- The destructor of src/PacketDemuxer.cpp at a concrete input: it begins while the receive thread is
-- about to call a subscriber.
use packetcomms.Base.{[], ◌∷◌, true}
use packetcomms.Transport.Script.{source}
use packetcomms.Demuxer.{Demuxer}
use packetcomms.Demuxer.Thread.{exited, delivering, Phase}
use packetcomms.Demuxer.Lifetime.{Object, Stage, signalled, destroyed}
use packetcomms.Examples.Ends.{client, pose, listening}

abbrev object_at : Demuxer source → Phase → Stage → Object source
object_at d ph stage = record {
  system = record { demuxer = d; phase = ph };
  stage = stage;
  warnings = [];
}

abbrev failed : Demuxer source
failed = record (listening []) { transport_error = true }

abbrev called : Demuxer source
called = record failed { delivered = (1, pose) ∷ [] }

abbrev about_to_call : Object source
about_to_call = object_at failed (delivering pose (client ∷ [])) signalled

abbrev returned : Object source
returned = record (object_at called exited destroyed) { warnings = (1, "pose") ∷ [] }
