-- ===== src/Sync/Messages.antt =====
-- The ready messages of src/Sync.cpp: a bool through the serialisation.
use packetcomms.Base.{
  ℕ, ◌≡◌, refl, Bool, true, String, [], ◌∷◌, ◌++◌, ◌==◌, if◌then◌else◌, Outcome, done, ◌>>=◌,
}
use packetcomms.IdManager.{to_id}
use packetcomms.ComPacket.{ComPacket, from_buffer}
use packetcomms.VectorStream.{new_output, get}
use packetcomms.TxQueues.{queue}
use packetcomms.TxQueues.Laws.{queue-emplace}
use packetcomms.Transport.{Writer}
use packetcomms.Muxer.{Muxer}
use packetcomms.Muxer.Thread.Invariant.{emplace_packet_cases}
use packetcomms.Serialisation.{
  Cereal, CerealLaws, Args, nothing, more, serialise, serialise_packet, deserialise_packet,
}
use packetcomms.Serialisation.RoundTrip.{none_left, also, deserialise_packet_lem}

abbrev ready_args : Cereal Bool → Args
ready_args bool = more bool nothing

-- `serialise(tx, readyMsgStr, true)`.
unfoldable pub send_ready : (w : Writer) → Cereal Bool → Muxer w → String → Outcome (Muxer w)
send_ready w bool tx name = serialise_packet w (ready_args bool) tx name (true, tt)

-- The callback of both ends: what was sent is discarded, and the flag is set.
unfoldable pub hear : Cereal Bool → ComPacket → Bool → Outcome Bool
hear bool packet ready = deserialise_packet (ready_args bool) packet >>= λ discard. done true

module _ (bool : Cereal Bool) (laws : CerealLaws bool (λ b. Unit {0})) where
  hear_lem :
      (p : ComPacket) (ready : Bool)
      → p.contents ≡ get (serialise (ready_args bool) (true, tt) new_output)
      → hear bool p ready ≡ done true
  unfolding hear
  hear_lem p ready e =
      let k = also (λ b. Unit {0}) true tt laws tt (none_left tt) in
      rw (deserialise_packet_lem (ready_args bool) (true, tt) p k e) refl

  -- If the archives of a bool keep cereal's promise, a ready message that is sent is one packet at the
  -- end of the queue of its type, the other queues are as they were, and the callback of the other end
  -- sets its flag when it is called with that packet, whatever the flag was.
  pub hear-send_ready :
      (w : Writer) (m m' : Muxer w) (name : String) (k : ℕ)
      → to_id m.packet_ids name ≡ done k
      → send_ready w bool m name ≡ done m'
      → (p : ComPacket) × (p.type ≡ k)
        × ((j : ℕ)
            → queue j m'.tx_queues
              ≡ (if k == j then queue j m.tx_queues ++ (p ∷ []) else queue j m.tx_queues))
        × ((ready : Bool) → hear bool p ready ≡ done true)
  unfolding send_ready serialise_packet
  hear-send_ready w m m' name k known h =
      let c = emplace_packet_cases w m m' name _ h in
      let same : c.0 ≡ k = cc (c.1, known) in
      let p = from_buffer k (get (serialise (ready_args bool) (true, tt) new_output)) in
      (
        p,
        refl,
        λ j. rw (c.2, same) (queue-emplace k j p m.tx_queues),
        λ ready. hear_lem p ready refl,
      )
