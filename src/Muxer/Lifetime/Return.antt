-- ===== src/Muxer/Lifetime/Return.antt =====
-- The destructor returns.
use packetcomms.Base.{
  ◌≤◌, String, List, length, ℕ, ◌+◌, ◌%◌, ◌^◌, ◌≡◌, refl, true, Bool, [], ◌∷◌, done,
}
use packetcomms.Wire.{Endian}
use packetcomms.IdManager.{to_id, control_string, control_packet}
use packetcomms.ControlMessage.{hello, underlying}
use packetcomms.TxQueues.{keys, emplace}
use packetcomms.ComPacket.{from_buffer}
use packetcomms.Transport.{Writer}
use packetcomms.Muxer.{Muxer, new_muxer, shut_down}
use packetcomms.Muxer.Pass.{send_pass_halted}
use packetcomms.Muxer.Thread.{
  Phase, starting, greeted, ready, waiting, exited, no_timeout, System, woken, IsFree, Step, posts,
  destroys, greets, locks, exits, wakes, Reach,
}
use packetcomms.Muxer.Thread as Thread
use packetcomms.Muxer.Thread.Invariant.{IsCounted, new_muxer-IsCounted}
use packetcomms.Muxer.Lifetime.Known.{Reach-known}
use packetcomms.Muxer.Thread.Shutdown.{control_lem, visit_keys}
use packetcomms.Muxer.Lifetime.{
  constructed, signalled, destroyed, Object, begin, actor, constructs, works, uses, signals, joins,
  Life, here, next,
}

module _ (w : Writer) (host : Endian) (fuel : ℕ) where
  -- The steps of the system over a life.
  pub Life-Reach : (s t : Object w) → Life w host fuel s t → Reach w host fuel s.system t.system
  Life-Reach s t here = Thread.here
  Life-Reach s t (next {t = m} life (constructs u st g a q)) =
      rw q (Thread.next (Life-Reach s m life) st)
  Life-Reach s t (next {t = m} life (works u st a q)) = rw q (Thread.next (Life-Reach s m life) st)
  Life-Reach s t (next {t = m} life (uses u st usable a q)) =
      rw q (Thread.next (Life-Reach s m life) st)
  Life-Reach s t (next {t = m} life (signals u st g a q)) =
      rw q (Thread.next (Life-Reach s m life) st)
  Life-Reach s t (next {t = m} life (joins g p q)) = rw q (Life-Reach s m life)

  -- Where the destructor has returned, with the transport as it was.
  abbrev Returns : Object w → w.State → Type 0
  Returns o x =
      (t : Object w) × Life w host fuel o t
      × (t.stage ≡ destroyed)
      × (((t.system).muxer).transport ≡ x)

  -- The thread has the lock, and sees the flag.
  leaves :
      (o : Object w) (s : System w)
      → Life w host fuel o (record { system = s; stage = signalled })
      → s.phase ≡ ready
      → (s.muxer).transport_error ≡ true
      → Returns o (s.muxer).transport
  unfolding actor
  leaves o s life p e =
      let gone = record s { phase = exited } in
      (
        record { system = gone; stage = destroyed },
        next {t = record { system = gone; stage = signalled }}
            (next life (works gone (exits p e refl) refl refl)) (joins refl refl refl),
        refl,
        refl,
      )

  leaves_from :
      (o : Object w) (m : Muxer w) (ph : Phase) (notified : Bool) (k : ℕ)
      → Life w host fuel o (record {
        system = record { muxer = m; phase = ph; notified = notified };
        stage = signalled;
      })
      → to_id m.packet_ids control_string ≡ done k
      → IsCounted m
      → m.transport_error ≡ true
      → Returns o m.transport
  unfolding actor
  leaves_from o m ready notified k life known v e = leaves o _ life refl e
  leaves_from o m exited notified k life known v e = (
    record {
      system = record { muxer = m; phase = exited; notified = notified };
      stage = destroyed;
    },
    next life (joins refl refl refl),
    refl,
    refl,
  )
  leaves_from o m greeted notified k life known v e =
      let u : System w = record { muxer = m; phase = ready; notified = notified } in
      leaves o u (next life (works u (locks refl refl) refl refl)) refl e
  leaves_from o m waiting notified k life known v e =
      let u : System w = record { muxer = m; phase = ready; notified = notified } in
      leaves o u
        (next life (
          works u
            (wakes no_timeout (keys m.tx_queues) m m refl (unfold woken in refl)
              (visit_keys w host fuel m.tx_queues v.distinct)
              (send_pass_halted w host fuel (keys m.tx_queues) m e) refl)
            refl refl))
        refl e
  leaves_from o m starting notified k life known v e =
      let m' : Muxer w = record m {
        num_posted = (m.num_posted + 1) % 2 ^ 32;
        tx_queues = emplace k (from_buffer k (underlying hello ∷ [])) m.tx_queues;
      } in
      let greeted_at : System w = record { muxer = m'; phase = greeted; notified = notified } in
      let u : System w = record { muxer = m'; phase = ready; notified = notified } in
      leaves o u
        (next {t = record { system = greeted_at; stage = signalled }}
          (next life
            (works greeted_at (greets m' refl (control_lem w m hello k known) refl) refl refl))
          (works u (locks refl refl) refl refl))
        refl e

  -- Over the life of a muxer that was made of fewer than 2^32 - 1 names, the destructor can return from
  -- every state in which it can take the lock, wherever the send thread is, and without a write to the
  -- transport.
  pub muxer_destructor_returns :
      (names : List String) (x x' : w.State) (m : Muxer w) (s : Object w)
      → length names + 2 ≤ 2 ^ 32
      → new_muxer w names x' ≡ done m
      → Life w host fuel (begin w m x) s
      → s.stage ≡ constructed
      → IsFree w s.system
      → (t : Object w) × Life w host fuel s t
        × (t.stage ≡ destroyed)
        × (((t.system).muxer).transport ≡ ((s.system).muxer).transport)
  unfolding actor shut_down
  muxer_destructor_returns names x x' m s small made life g free =
      let c = new_muxer-IsCounted w names x' m made in
      let v =
        Reach-known w host fuel names x' m (begin w m x).system s.system small made refl
          (record {
            muxer_counted = record {
              sent_bounded = c.sent_bounded;
              counted = c.counted;
              distinct = c.distinct;
            };
            idle = λ p n. cc;
          })
          (Life-Reach (begin w m x) s life) in
      let now = (s.system).muxer in
      let ended = record now { transport_error = true } in
      leaves_from s ended (s.system).phase true control_packet
        (next here (
          signals (record { muxer = ended; phase = (s.system).phase; notified = true })
            (destroys free refl) g refl refl))
        v.1
        (record { sent_bounded = v.0.sent_bounded; counted = v.0.counted; distinct = v.0.distinct })
        refl
