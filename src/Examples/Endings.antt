-- ===== src/Examples/Endings.antt =====
-- The theorems on the constructor and the destructor of src/PacketMuxer.cpp at concrete inputs.
use packetcomms.Base.{arith, ◌≡◌, refl, [], ◌∷◌, true, done}
use packetcomms.Wire.{little}
use packetcomms.IdManager.{to_id, find}
use packetcomms.ComPacket.{from_buffer}
use packetcomms.ControlMessage.{hello, underlying}
use packetcomms.TxQueues
use packetcomms.Transport.Script.{sink, some_bytes}
use packetcomms.Muxer.{Muxer, emplace_packet, send_control_message, shut_down}
use packetcomms.Muxer.Thread.{
  Phase, starting, greeted, ready, exited, start, unblock, destroys, unblocks, greets, locks, exits,
}
use packetcomms.Muxer.Thread.Shutdown.{Unwritten}
use packetcomms.Muxer.Lifetime.{
  Object, constructed, signalled, destroyed, begin, actor, constructs, works, signals, joins, Life,
  here, next,
}
use packetcomms.Muxer.Lifetime.End.{ended_muxer_silent}
use packetcomms.Muxer.Lifetime.Return.{muxer_destructor_returns}
use packetcomms.Examples.Threads.{fresh, fresh-made}

abbrev built : Object sink
built = record { system = start sink fresh; stage = constructed }

to_built : Life sink little 10 (begin sink fresh fresh.transport) built
unfolding actor unblock
to_built = next here (constructs (start sink fresh) (unblocks refl) refl refl refl)

muxer_destructor_returns_example :
    (t : Object sink) × Life sink little 10 built t
    × (t.stage ≡ destroyed)
    × (((t.system).muxer).transport ≡ fresh.transport)
muxer_destructor_returns_example =
    muxer_destructor_returns sink little 10 ("pose" ∷ []) fresh.transport
      (record { script = some_bytes 2 ∷ []; taken = [] }) fresh built (omega arith) fresh-made
      to_built refl (λ e. cc)

-- The destructor has the lock before the thread has sent its Hello.
abbrev flagged : Muxer sink
flagged = record fresh { transport_error = true }

abbrev at_flag : Object sink
at_flag = record {
  system = record { muxer = flagged; phase = starting; notified = true };
  stage = signalled;
}

to_flag : Life sink little 10 (begin sink fresh fresh.transport) at_flag
unfolding actor unblock shut_down
to_flag =
    next {t = built} (next here (constructs (start sink fresh) (unblocks refl) refl refl refl))
      (signals at_flag.system (destroys (λ e. cc) refl) refl refl refl)

abbrev unsent : Muxer sink
unsent = record flagged { num_posted = 1; tx_queues = (1, from_buffer 1 (254 ∷ []) ∷ []) ∷ [] }

hello_posted : send_control_message sink flagged hello ≡ done unsent
unfolding send_control_message emplace_packet to_id find TxQueues.emplace underlying
hello_posted = refl

abbrev phase_at : Phase → Object sink
phase_at ph = record {
  system = record { muxer = unsent; phase = ph; notified = true };
  stage = signalled;
}

abbrev at_end : Object sink
at_end = record (phase_at exited) { stage = destroyed }

to_end : Life sink little 10 at_flag at_end
unfolding actor
to_end =
    next {t = phase_at exited}
      (next {t = phase_at ready}
        (next {t = phase_at greeted}
          (next here
            (works (phase_at greeted).system (greets unsent refl hello_posted refl) refl refl))
          (works (phase_at ready).system (locks refl refl) refl refl))
        (works (phase_at exited).system (exits refl refl refl) refl refl))
      (joins refl refl refl)

ended_muxer_silent_example :
    Unwritten sink fresh.transport fresh.transport
    × ((at_end.system).phase ≡ exited)
    × (at_end ≡ at_end)
ended_muxer_silent_example =
    ended_muxer_silent sink little 10 fresh fresh.transport at_flag at_end at_end to_flag refl
      to_end refl here
