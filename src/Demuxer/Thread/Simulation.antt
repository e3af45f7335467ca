-- ===== src/Demuxer/Thread/Simulation.antt =====
-- receiveLoop as it runs on its own, as a schedule of the steps of its thread.
use packetcomms.Base.{
  Bool, if◌then◌else◌, ℕ, zero, suc, ◌≡◌, ◌≢◌, inl, inr, refl, sym, ap, ◌∙◌, true, false,
  Bool-cases, List, [], ◌∷◌, ◌++◌, append_assoc, append-nil, map, Option-cases, ◌==◌, done,
  >>=-eq-done, ◌>>=◌, arith,
}
use packetcomms.Wire.{Endian}
use packetcomms.IdManager.{control_packet}
use packetcomms.ComPacket.{ComPacket}
use packetcomms.Subscribers.{Subscriber, lookup}
use packetcomms.Transport.{Reader}
use packetcomms.Demuxer.{
  Demuxer, dispatch, handle_control_message, handle_packet, receive_packet, receive_hello_message,
  receive_round, receive_rounds, receive_loop, receive_timeout, hello_timeout,
}
use packetcomms.Demuxer.Thread.{
  Phase, idle, exited, delivering, System, start, open_queue, call, greets, gets_nothing,
  gets_control, gets, calls, unlocks, exits, Reach, here, next,
}

-- Where the `while` of receiveLoop has got to between two rounds, or at its end.
abbrev pub loop_phase : Bool → Phase
loop_phase transport_error = if transport_error then exited else idle

module _ (r : Reader) (host : Endian) (fuel : ℕ) where
  -- The thread between two rounds.
  abbrev between : Demuxer r → System r
  between d = record { demuxer = d; phase = idle }

  abbrev pub called : ComPacket → List Subscriber → Demuxer r → Demuxer r
  called p todo d = record d {
    delivered = d.delivered ++ map (λ (x : Subscriber). (x.address, p)) todo;
  }

  called_none : (p : ComPacket) (d : Demuxer r) → called p [] d ≡ d
  called_none p d = ap (λ z. record d { delivered = z }) (append-nil d.delivered)

  called_next :
      (p : ComPacket) (x : Subscriber) (todo : List Subscriber) (d : Demuxer r)
      → called p todo (call r x p d) ≡ called p (x ∷ todo) d
  unfolding call
  called_next p x todo d =
      ap (λ z. record d { delivered = z }) (append_assoc d.delivered ((x.address, p) ∷ []) _)

  pub deliver_all :
      (s : System r) (p : ComPacket) (todo : List Subscriber) (d : Demuxer r)
      → Reach r host fuel s (record { demuxer = d; phase = delivering p todo })
      → Reach r host fuel s (between (called p todo d))
  deliver_all s p [] d run = rw (called_none p d) (next run (unlocks p refl refl))
  deliver_all s p (x ∷ todo) d run =
      rw (← called_next p x todo d)
        (deliver_all s p todo (call r x p d) (next run (calls p x todo refl refl)))

  handle_control :
      (d : Demuxer r) (p : ComPacket)
      → p.type ≡ control_packet
      → handle_packet r host d p ≡ handle_control_message r p d
  unfolding handle_packet
  handle_control d p e = ground arith

  handle_other :
      (d : Demuxer r) (p : ComPacket)
      → p.type ≢ control_packet
      → handle_packet r host d p ≡ called p (lookup p.type d.subscribers) (open_queue r p d)
  unfolding handle_packet dispatch open_queue
  handle_other d p n = ground arith

  round_runs :
      (s : System r) (d d' : Demuxer r)
      → d.transport_error ≡ false
      → receive_round r host fuel d ≡ done d'
      → Reach r host fuel s (between d)
      → Reach r host fuel s (between d')
  unfolding receive_round
  round_runs s d d' calm h run =
      let a = >>=-eq-done (receive_packet r host fuel d receive_timeout) _ h in
      elim (Option-cases a.0.1) [
        | inl e ↦
            let same : a.0.0 ≡ d' = cc (rw e at (a.2)) in
            rw (← same)
              (next run (gets_nothing a.0.0 refl calm (a.1 ∙ ap (λ z. done (a.0.0, z)) e) refl))
        | inr (p, e) ↦
            let same : handle_packet r host a.0.0 p ≡ d' = cc (rw e at (a.2)) in
            let got = a.1 ∙ ap (λ z. done (a.0.0, z)) e in
            rw (← same) (elim (Bool-cases (p.type == control_packet)) [
              | inl c ↦
                  let c' : p.type ≡ control_packet = ground arith in
                  rw (handle_control a.0.0 p c')
                    (next run (gets_control a.0.0 p refl calm got c' refl))
              | inr o ↦
                  let n : p.type ≢ control_packet = ground arith in
                  rw (handle_other a.0.0 p n) (
                    deliver_all s p (lookup p.type (a.0.0).subscribers) (open_queue r p a.0.0)
                      (next run (gets a.0.0 p refl calm got n refl)))
            ])
      ]

  rounds_again :
      (n : ℕ) (d : Demuxer r)
      → d.transport_error ≡ false
      → receive_rounds r host (suc n) fuel d
        ≡ (receive_round r host fuel d >>= receive_rounds r host n fuel)
  unfolding receive_rounds
  rounds_again n d e = ground arith

  rounds_none : (d : Demuxer r) → receive_rounds r host 0 fuel d ≡ done d
  unfolding receive_rounds
  rounds_none d = refl

  rounds_end :
      (n : ℕ) (d : Demuxer r) → d.transport_error ≡ true → receive_rounds r host n fuel d ≡ done d
  unfolding receive_rounds
  rounds_end zero d e = refl
  rounds_end (suc n) d e = ground arith

  rounds_run :
      (n : ℕ) (s : System r) (d d' : Demuxer r)
      → receive_rounds r host n fuel d ≡ done d'
      → Reach r host fuel s (between d)
      → Reach r host fuel s (between d')
  rounds_run zero s d d' h run = let same : d ≡ d' = cc (rounds_none d, h) in rw (← same) run
  rounds_run (suc n) s d d' h run = elim (Bool-cases d.transport_error) [
    | inl e ↦ let same : d ≡ d' = cc (rounds_end (suc n) d e, h) in rw (← same) run
    | inr e ↦
        let a = >>=-eq-done (receive_round r host fuel d) _ (sym (rounds_again n d e) ∙ h) in
        rounds_run n s a.0 d' a.2 (round_runs s d a.0 e a.1 run)
  ]

  ends :
      (s : System r) (d : Demuxer r)
      → Reach r host fuel s (between d)
      → Reach r host fuel s (record { demuxer = d; phase = loop_phase d.transport_error })
  ends s d run = go d.transport_error refl
    where
      go :
          (b : Bool)
          → d.transport_error ≡ b
          → Reach r host fuel s (record { demuxer = d; phase = loop_phase b })
      go true e = next run (exits refl e refl)
      go false e = run

  -- Whatever receiveLoop does on its own, from the check of Hello through any number of rounds in each
  -- of which a packet is given to all its subscribers at once, the receive thread does as one of its
  -- interleavings, call by call, and it ends with the same demuxer: it has exited where that has a
  -- transport error, and else is between two rounds.
  pub receive_loop_runs :
      (n : ℕ) (d d' : Demuxer r)
      → receive_loop r host n fuel d ≡ done d'
      → Reach r host fuel
          (start r d)
          (record { demuxer = d'; phase = loop_phase d'.transport_error })
  unfolding receive_loop
  receive_loop_runs n d d' h =
      let a = >>=-eq-done (receive_hello_message r host fuel d hello_timeout) _ h in
      let run = rounds_run n (start r d) a.0 d' a.2 (next here (greets a.0 refl a.1 refl)) in
      ends (start r d) d' run
