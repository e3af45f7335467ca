-- ===== src/Demuxer/Thread/Shutdown.antt =====
-- What follows a transport error, or the destructor, which sets the same flag.
use packetcomms.Base.{
  ℕ, zero, suc, ◌≡◌, refl, sym, ◌∙◌, true, false, [], ◌++◌, append-nil, none, done, arith,
}
use packetcomms.Wire.{Endian}
use packetcomms.Subscribers.{Subscriber}
use packetcomms.Transport.{Reader}
use packetcomms.Demuxer.{
  Demuxer, read_bytes, signal_transport_error, receive_header, receive_packet,
  receive_hello_message, hello_timeout, unsubscribe,
}
use packetcomms.Demuxer.Subscriptions.{subscribe_cases}
use packetcomms.Demuxer.Thread.{
  Phase, starting, idle, exited, delivering, System, pending_calls, unblock, call, Step, greets,
  gets_nothing, gets_control, gets, calls, unlocks, exits, subscribes, unsubscribes, destroys,
  unblocks, interrupts, Reach, here, next,
}
use packetcomms.Demuxer.Thread.Registrations.{received_by, received}
use packetcomms.Demuxer.Thread.Simulation.{deliver_all, called}

module _ (r : Reader) (host : Endian) (fuel : ℕ) where
  -- Under a transport error nothing is read: a receivePacket only waits.
  abbrev pub waiting : ℕ → Demuxer r → Demuxer r
  waiting ms d = record d { transport = (r.ready_for_reading d.transport ms).0 }

  read_nothing :
      (n : ℕ) (d : Demuxer r)
      → d.transport_error ≡ true
      → read_bytes r n false d.transport_error d.transport 4 []
        ≡ done (record {
          transport = d.transport;
          transport_error = true;
          success = false;
          left = 4;
          buffer = [];
        })
  unfolding read_bytes
  read_nothing zero d e = rw e refl
  read_nothing (suc n) d e = rw e refl

  receive_header_halted :
      (d : Demuxer r) → d.transport_error ≡ true → receive_header r host fuel d ≡ done (d, none)
  unfolding receive_header
  receive_header_halted d e = ground (arith, read_nothing fuel d e)

  receive_packet_halted :
      (ms : ℕ) (d : Demuxer r)
      → d.transport_error ≡ true
      → receive_packet r host fuel d ms ≡ done (waiting ms d, none)
  unfolding receive_packet
  receive_packet_halted ms d e = ground (arith, receive_header_halted (waiting ms d) e)

  pub receive_hello_message_halted :
      (ms : ℕ) (d : Demuxer r)
      → d.transport_error ≡ true
      → receive_hello_message r host fuel d ms ≡ done (waiting ms d)
  unfolding receive_hello_message
  receive_hello_message_halted ms d e = rw (receive_packet_halted ms d e) refl

  unsubscribe_error :
      (d d' : Demuxer r) (x : Subscriber)
      → unsubscribe r d x ≡ done d'
      → d'.transport_error ≡ d.transport_error
  unfolding unsubscribe
  unsubscribe_error d d' x h = ground arith

  -- A step of any thread keeps the error, and takes no packet.
  pub Step-halted :
      (s t : System r) (st : Step r host fuel s t)
      → (s.demuxer).transport_error ≡ true
      → ((t.demuxer).transport_error ≡ true) × (received_by r host fuel st ≡ [])
  unfolding received_by
  Step-halted s t (greets d i e q) h =
      let same : waiting hello_timeout s.demuxer ≡ d =
        cc (receive_hello_message_halted hello_timeout s.demuxer h) in
      rw (q, ← same) (h, refl)
  Step-halted s t (gets_nothing d i c e q) h = absurd (cc)
  Step-halted s t (gets_control d p i c e n q) h = absurd (cc)
  Step-halted s t (gets d p i c e n q) h = absurd (cc)
  Step-halted s t (calls p x todo i q) h = rw q (unfold call in h, refl)
  Step-halted s t (unlocks p i q) h = rw q (h, refl)
  Step-halted s t (exits i e q) h = rw q (h, refl)
  Step-halted s t (subscribes name d x f e q) h =
      let c = subscribe_cases r s.demuxer d name x e in rw (q, c.2) (h, refl)
  Step-halted s t (unsubscribes x d f e q) h =
      let c = unsubscribe_error s.demuxer d x e in rw q (c ∙ h, refl)
  Step-halted s t (destroys q) h = rw q (unfold signal_transport_error in refl, refl)
  Step-halted s t (unblocks q) h = rw q (unfold unblock in h, refl)
  Step-halted s t (interrupts n ms x i c e q) h = absurd (cc)

  -- Once the demuxer has a transport error, or its destructor has begun, the error stays and no packet
  -- is received for a subscriber again, by whatever interleaving.
  pub Reach-halted :
      (s t : System r) (run : Reach r host fuel s t)
      → (s.demuxer).transport_error ≡ true
      → ((t.demuxer).transport_error ≡ true) × (received r host fuel run ≡ [])
  unfolding received
  Reach-halted s t here h = (h, refl)
  Reach-halted s t (next {t = m} run st) h =
      let ih = Reach-halted s m run h in
      let last = Step-halted m t st ih.0 in (last.0, rw (ih.1, last.1) refl)

  leave :
      (s : System r) (d : Demuxer r)
      → d.transport_error ≡ true
      → Reach r host fuel s (record { demuxer = d; phase = idle })
      → Reach r host fuel s (record { demuxer = d; phase = exited })
  leave s d e run = next run (exits refl e refl)

  -- A receive thread whose demuxer has a transport error, or is being destroyed, can end from wherever
  -- it is, with the calls made that it was about to make and no others. That is what the destructor's
  -- join waits for.
  pub receive_thread_exits :
      (s : System r)
      → (s.demuxer).transport_error ≡ true
      → (t : System r) × Reach r host fuel s t
        × (t.phase ≡ exited)
        × ((t.demuxer).delivered ≡ (s.demuxer).delivered ++ pending_calls s.phase)
  unfolding pending_calls
  receive_thread_exits s h = go s.phase refl
    where
      go :
          (ph : Phase)
          → s.phase ≡ ph
          → (t : System r) × Reach r host fuel s t
            × (t.phase ≡ exited)
            × ((t.demuxer).delivered ≡ (s.demuxer).delivered ++ pending_calls ph)
      go starting i =
          let d = waiting hello_timeout s.demuxer in
          (
            record { demuxer = d; phase = exited },
            leave s d h (
                next here
                  (greets d i (receive_hello_message_halted hello_timeout s.demuxer h) refl)),
            refl,
            sym (append-nil (s.demuxer).delivered),
          )
      go idle i = (
        record { demuxer = s.demuxer; phase = exited },
        next here (exits i h refl),
        refl,
        sym (append-nil (s.demuxer).delivered),
      )
      go exited i = (s, here, i, sym (append-nil (s.demuxer).delivered))
      go (delivering p todo) i = (
        record { demuxer = called r host fuel p todo s.demuxer; phase = exited },
        leave s (called r host fuel p todo s.demuxer) h
            (deliver_all r host fuel s p todo s.demuxer (rw (← i) here)),
        refl,
        refl,
      )
