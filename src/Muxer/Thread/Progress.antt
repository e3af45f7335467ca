-- ===== src/Muxer/Thread/Progress.antt =====
-- That packets which wait in the queues get sent: the wake-up of sendLoop and its pass.
use packetcomms.Base.{
  ℕ, ◌+◌, ◌%◌, ◌^◌, ◌≤◌, ◌≡◌, ◌≢◌, ◌⊎◌, inl, inr, refl, ap, ◌∙◌, List, ◌++◌, true, false,
  Bool-cases, ◌==◌, done,
}
use packetcomms.Wire.{Endian}
use packetcomms.Frame.{frames}
use packetcomms.TxQueues.{keys, total, in_order, Visits, AllQueued}
use packetcomms.TxQueues.Order.{total-cleared}
use packetcomms.Transport.{Writer, WriterLaws}
use packetcomms.Muxer.{Muxer, send_pass}
use packetcomms.Muxer.Pass.{Fits, send_pass_lem}
use packetcomms.Muxer.Thread.{
  greeted, ready, waiting, no_timeout, System, woken, locks, sends, wakes, Reach, here, next,
}
use packetcomms.Muxer.Thread.Invariant.{IsCounted, idle_total}
use packetcomms.Muxer.Thread.Shutdown.{visit_keys}
use packetcomms.Muxer.Lifetime.{actor}
use packetcomms.Muxer.Lifetime.Steps.{BySender}

module _ (w : Writer) (laws : WriterLaws w) (host : Endian) (fuel : ℕ) where
  open laws use {sent, patience}

  -- A muxer after a pass: there is a transport error, or all that waited was sent.
  abbrev pub Drained : Muxer w → Muxer w → Type 0
  Drained m m' =
      (m'.transport_error ≡ true)
      ⊎ ((total m'.tx_queues ≡ 0)
          × (order : List ℕ) × Visits order m.tx_queues
          × (sent m'.transport ≡ sent m.transport ++ frames (in_order order m.tx_queues)))

  pass_drains :
      (n : ℕ) (m : Muxer w)
      → IsCounted m
      → AllQueued (Fits n) m.tx_queues
      → patience m.transport + 4 + n ≤ fuel
      → (m' : Muxer w) × (send_pass w host fuel (keys m.tx_queues) m ≡ done m') × Drained m m'
  pass_drains n m v a h =
      let visit = visit_keys w host fuel m.tx_queues v.distinct in
      let pass =
        send_pass_lem w laws host fuel n (keys m.tx_queues) m v.sent_bounded v.distinct a h in
      (
        pass.0,
        pass.1,
        elim (Bool-cases (pass.0).transport_error) [
          | inl e ↦ inl e
          | inr e ↦
              let all = pass.2 e in
              inr (
                ap total all.1 ∙ total-cleared (keys m.tx_queues) m.tx_queues visit v.distinct,
                keys m.tx_queues,
                visit,
                all.0,
              )
        ],
      )

  behind :
      (m : Muxer w)
      → IsCounted m
      → total m.tx_queues % 2 ^ 32 ≢ 0
      → (m.num_posted == m.num_sent) ≡ false
  behind m v n = elim (Bool-cases (m.num_posted == m.num_sent)) [
    | inl e ↦ absurd (n (idle_total w m e v))
    | inr e ↦ e
  ]

  -- Let packets wait in the queues, not a multiple of 2^32 of them, each with a valid type and at most
  -- `n` bytes, with right counters, no transport error and enough fuel. Whether the send thread has
  -- yet to take the lock, has it, or waits on the condition variable, it can go on by steps of its own,
  -- with no step of another thread between them, to a state in which its writes have left a transport
  -- error, or no packet waits and the transport has taken the frames of all those that did, in some
  -- order of their queues and first-in first-out in each of them.
  pub waiting_packets_sent :
      (n : ℕ) (s : System w)
      → (s.phase ≡ greeted) ⊎ ((s.phase ≡ ready) ⊎ (s.phase ≡ waiting))
      → IsCounted s.muxer
      → total (s.muxer).tx_queues % 2 ^ 32 ≢ 0
      → (s.muxer).transport_error ≡ false
      → AllQueued (Fits n) (s.muxer).tx_queues
      → patience (s.muxer).transport + 4 + n ≤ fuel
      → (t : System w) × (run : Reach w host fuel s t) × BySender w host fuel run
        × (t.phase ≡ ready)
        × Drained s.muxer t.muxer
  unfolding actor
  waiting_packets_sent n s p v some calm a h =
      let pass = pass_drains n s.muxer v a h in
      let visit = visit_keys w host fuel (s.muxer).tx_queues v.distinct in
      let late = behind s.muxer v some in
      let ready_now = λ (run : Reach w host fuel s (record s { phase = ready })).
        next run (sends (keys (s.muxer).tx_queues) pass.0 refl calm late visit pass.1 refl) in
      elim p [
        | inl e ↦ (
          record s { muxer = pass.0; phase = ready },
          ready_now (next here (locks e refl)),
          ((tt, refl), refl),
          refl,
          pass.2,
        )
        | inr (inl e) ↦ (
          record s { muxer = pass.0 },
          next here (sends (keys (s.muxer).tx_queues) pass.0 e calm late visit pass.1 refl),
          (tt, refl),
          e,
          pass.2,
        )
        | inr (inr e) ↦ (
          record s { muxer = pass.0; phase = ready },
          next here (
              wakes no_timeout (keys (s.muxer).tx_queues) s.muxer pass.0 e (unfold woken in refl)
                visit pass.1 refl),
          (tt, refl),
          refl,
          pass.2,
        )
      ]
