-- ===== src/Examples/Lifetimes.antt =====
-- The theorems on the constructor and the destructor of src/PacketDemuxer.cpp, and on a receivePacket
-- between them, at concrete inputs.
use packetcomms.Base.{ℕ, ◌≢◌, String, In, length, inl, ◌≡◌, refl, [], ◌∷◌, ◌++◌, some, done, arith}
use packetcomms.Wire.{little, load_u32, ntohl}
use packetcomms.IdManager.{new_id_manager, add_names, find, to_id}
use packetcomms.Subscribers.{lookup}
use packetcomms.ComPacket.{preallocated, get_data_size}
use packetcomms.Transport.Script.{source}
use packetcomms.Demuxer.{receive_packet, receive_timeout, warn_about_subscribers}
use packetcomms.Demuxer.Interruption.{
  interrupted_read, interrupted_data, interrupted_header, interrupted_packet,
}
use packetcomms.Demuxer.Interruption.Completed.{packet_completed}
use packetcomms.Demuxer.Thread.{starting, start, pending_calls, unblock, unblocks, subscribes}
use packetcomms.Demuxer.Lifetime.{
  GoesThrough, Object, constructed, destroyed, begin, actor, constructs, uses, Life, here, next,
}
use packetcomms.Demuxer.Lifetime.Return.{destructor_returns}
use packetcomms.Examples.Interleavings.{
  ids, pose, pose_bytes, client, alone, shared, alone-made, joined,
}

-- Six tests of the flag are enough for the three runs of readBytes, of one read each.
packet_came :
    interrupted_packet source little 7 (shared pose_bytes).transport receive_timeout
    ≡ done ((shared []).transport, some pose)
unfolding interrupted_packet interrupted_header interrupted_data interrupted_read load_u32 ntohl
    preallocated get_data_size
packet_came = refl

packet_came_whole :
    receive_packet source little 7 (shared pose_bytes) receive_timeout ≡ done (shared [], some pose)
packet_came_whole =
    packet_completed source little 7 7 receive_timeout (shared pose_bytes) (shared []).transport
      pose refl packet_came (omega arith)

-- A client has subscribed, and does not unsubscribe before the destructor.
abbrev in_use : Object source
in_use = record { system = start source (shared []); stage = constructed; warnings = [] }

used : Life source little 7 (begin source (alone []) (alone []).transport) in_use
unfolding actor unblock
used =
    next {t = record { system = start source (alone []); stage = constructed; warnings = [] }}
      (next here (constructs (start source (alone [])) (unblocks refl) refl refl refl))
      (uses (start source (shared []))
        (subscribes "pose" (shared []) client (λ p todo e. cc) (joined []) refl) tt refl refl)

one_entry : GoesThrough (2 ∷ []) (shared []).subscribers
one_entry = record { once = (tt, tt); every = (inl refl, tt); only = (inl refl, tt) }

destructor_returns_example :
    (t : Object source) × Life source little 7 in_use t
    × (t.stage ≡ destroyed)
    × (((t.system).demuxer).delivered ≡ [] ++ pending_calls starting)
    × (warn_about_subscribers source (shared []) (2 ∷ []) ≡ done t.warnings)
    × ((k : ℕ)
        → lookup k (shared []).subscribers ≢ []
        → (name : String) × (to_id ids name ≡ done k)
          × In (length (lookup k (shared []).subscribers), name) t.warnings)
destructor_returns_example =
    destructor_returns source little 7 ("pose" ∷ []) ids (alone []) (alone []).transport
      (alone []).transport (2 ∷ []) in_use (omega arith)
      (unfold new_id_manager add_names find in refl) (alone-made []) used refl one_entry
