-- ===== src/Demuxer/Hello.antt =====
-- The first packet, as the comment of receiveHelloMessage in src/PacketDemuxer.cpp describes it.
use packetcomms.Base.{
  ℕ, zero, suc, ◌+◌, ◌≤◌, ◌≡◌, ◌≢◌, ◌⊎◌, refl, ap, ◌∙◌, List, [], ◌∷◌, ◌++◌, true, false,
  Bool-cases, inl, inr, some, length, ◌==◌, done, faults, All, arith,
}
use packetcomms.Wire.{Endian}
use packetcomms.IdManager.{control_packet}
use packetcomms.ComPacket.{ComPacket}
use packetcomms.ControlMessage.{hello, underlying}
use packetcomms.Frame.{frame, frames, IsSendable}
use packetcomms.Transport.{Reader, ReaderLaws}
use packetcomms.Demuxer.{
  Demuxer, check_hello, signal_transport_error, receive_packet, receive_hello_message,
  receive_rounds, receive_loop, hello_timeout,
}
use packetcomms.Demuxer.Receive.{receive_packet-frame, receive_timed_out}
use packetcomms.Demuxer.Deliver.{Received, receive_rounds_lem}

-- A control packet whose first byte is Hello.
abbrev pub IsHello : ComPacket → Type 0
IsHello p = (p.type ≡ control_packet) × (bs : List ℕ) × (p.contents ≡ underlying hello ∷ bs)

module _ (r : Reader) (laws : ReaderLaws r) (host : Endian) where
  open laws use {pending, patience, waited}

  hello_got :
      (fuel ms : ℕ) (d d' : Demuxer r) (p : ComPacket)
      → receive_packet r host fuel d ms ≡ done (d', some p)
      → receive_hello_message r host fuel d ms ≡ check_hello r host d' p
  unfolding receive_hello_message
  hello_got fuel ms d d' p e = rw (e, receive_hello_message)

  hello_late :
      (fuel ms : ℕ) (d : Demuxer r)
      → (r.ready_for_reading d.transport ms).1 ≡ false
      → receive_hello_message r host fuel d ms
        ≡ done (record d { transport = (r.ready_for_reading d.transport ms).0 })
  unfolding receive_hello_message
  hello_late fuel ms d e = rw (receive_timed_out r laws host fuel ms d e) refl

  loop_after :
      (n fuel : ℕ) (d d' : Demuxer r)
      → receive_hello_message r host fuel d hello_timeout ≡ done d'
      → receive_loop r host n fuel d ≡ receive_rounds r host n fuel d'
  unfolding receive_loop
  loop_after n fuel d d' e = rw (e, receive_loop)

  accept_hello : (d : Demuxer r) (p : ComPacket) → IsHello p → check_hello r host d p ≡ done d
  unfolding check_hello
  accept_hello d p h = ground arith

  rounds_halted :
      (n fuel : ℕ) (d : Demuxer r)
      → d.transport_error ≡ true
      → receive_rounds r host n fuel d ≡ done d
  unfolding receive_rounds
  rounds_halted zero fuel d e = refl
  rounds_halted (suc n) fuel d e = ground arith

  refuse_other :
      (d : Demuxer r) (p : ComPacket)
      → (p.type ≢ control_packet)
        ⊎ ((b : ℕ) × (bs : List ℕ) × (p.contents ≡ b ∷ bs) × (b ≢ underlying hello))
      → check_hello r host d p ≡ done (signal_transport_error r d)
  unfolding check_hello
  refuse_other d p h = elim (Bool-cases (p.type == control_packet)) [
    | inl c ↦ ground arith
    | inr o ↦ ground arith
  ]

  empty_faults :
      (d : Demuxer r) (p : ComPacket)
      → p.type ≡ control_packet
      → p.contents ≡ []
      → check_hello r host d p ≡ faults
  unfolding check_hello
  empty_faults d p t c = ground arith

  loop_faults :
      (n fuel : ℕ) (d : Demuxer r)
      → receive_hello_message r host fuel d hello_timeout ≡ faults
      → receive_loop r host n fuel d ≡ faults
  unfolding receive_loop
  loop_faults n fuel d e = rw (e, receive_loop)

  -- With no transport error before, enough fuel, and the frames of Hello and of some sendable packets
  -- on their way and nothing else, of which the first is there in time, the loop delivers all the
  -- packets that follow Hello to the subscribers of their types, within as many rounds as there are
  -- packets and stalls, and leaves no error.
  pub receive_loop_lem :
      (fuel n : ℕ) (d : Demuxer r) (h : ComPacket) (ps : List ComPacket)
      → d.transport_error ≡ false
      → IsHello h
      → All IsSendable (h ∷ ps)
      → All (λ p. length p.contents ≤ n) (h ∷ ps)
      → pending d.transport ≡ frames (h ∷ ps)
      → (r.ready_for_reading d.transport hello_timeout).1 ≡ true
      → patience d.transport + 4 + n ≤ fuel
      → (k : ℕ) × (d' : Demuxer r) × (k ≤ patience d.transport + length ps)
        × (receive_loop r host k fuel d ≡ done d')
        × Received r laws host d ps d'
  receive_loop_lem fuel n d h ps calm first valid short e ready hf =
      let got =
        receive_packet-frame r laws host fuel hello_timeout d h (frames ps) calm valid.0
          (e ∙ (unfold frames in refl)) ready (omega (arith, short.0)) in
      let d₀ : Demuxer r = record d { transport = got.0 } in
      let rest =
        receive_rounds_lem r laws host (patience d.transport + length ps) fuel n d₀ ps calm valid.1
          short.1 got.2 (omega (arith, got.3)) (omega (arith, got.3)) in
      (
        rest.0,
        rest.1,
        rest.2,
        loop_after rest.0 fuel d d₀
              (hello_got fuel hello_timeout d d₀ h got.1 ∙ accept_hello d₀ h first)
            ∙ rest.3,
        record {
          calls_made = (rest.4).calls_made;
          same_queues = (rest.4).same_queues;
          no_error = (rest.4).no_error;
          nothing_left = (rest.4).nothing_left;
        },
      )

  -- Any other sendable first packet that comes in time ends the loop with a transport error, and no
  -- subscriber is called, however many rounds are allowed: that is, a packet with another type, or a
  -- control packet that has data and another first byte. There is no error before, and fuel enough.
  pub receive_loop_refuses :
      (fuel k : ℕ) (d : Demuxer r) (p : ComPacket) (rest : List ℕ)
      → d.transport_error ≡ false
      → IsSendable p
      → (p.type ≢ control_packet)
        ⊎ ((b : ℕ) × (bs : List ℕ) × (p.contents ≡ b ∷ bs) × (b ≢ underlying hello))
      → pending d.transport ≡ frame p ++ rest
      → (r.ready_for_reading d.transport hello_timeout).1 ≡ true
      → patience d.transport + 4 + length p.contents ≤ fuel
      → (d' : Demuxer r) × (receive_loop r host k fuel d ≡ done d')
        × (d'.transport_error ≡ true)
        × (d'.delivered ≡ d.delivered)
  receive_loop_refuses fuel k d p rest calm valid other e ready hf =
      let got =
        receive_packet-frame r laws host fuel hello_timeout d p rest calm valid e ready hf in
      let d₀ : Demuxer r = record d { transport = got.0 } in
      (
        signal_transport_error r d₀,
        loop_after k fuel d _ (hello_got fuel hello_timeout d d₀ p got.1 ∙ refuse_other d₀ p other)
            ∙ rounds_halted k fuel _ (unfold signal_transport_error in refl),
        unfold signal_transport_error in refl,
        unfold signal_transport_error in refl,
      )

  -- A first packet that comes too late for the check is not checked: if the wait for Hello times out
  -- while the frames of some sendable packets are on their way and nothing else, then with enough
  -- fuel and no error before they are all delivered, whatever the first one is.
  pub receive_loop_unchecked :
      (fuel n : ℕ) (d : Demuxer r) (ps : List ComPacket)
      → d.transport_error ≡ false
      → All IsSendable ps
      → All (λ p. length p.contents ≤ n) ps
      → pending d.transport ≡ frames ps
      → (r.ready_for_reading d.transport hello_timeout).1 ≡ false
      → patience d.transport + 4 + n ≤ fuel
      → (k : ℕ) × (d' : Demuxer r) × (receive_loop r host k fuel d ≡ done d')
        × Received r laws host d ps d'
  receive_loop_unchecked fuel n d ps calm valid short e late hf =
      let w = waited d.transport hello_timeout in
      let d₀ : Demuxer r = record d {
        transport = (r.ready_for_reading d.transport hello_timeout).0;
      } in
      let rest =
        receive_rounds_lem r laws host (patience d.transport + length ps) fuel n d₀ ps calm valid
          short (w.0 ∙ e) (omega arith) (omega arith) in
      (
        rest.0,
        rest.1,
        loop_after rest.0 fuel d d₀ (hello_late fuel hello_timeout d late) ∙ rest.3,
        record {
          calls_made = (rest.4).calls_made;
          same_queues = (rest.4).same_queues;
          no_error = (rest.4).no_error;
          nothing_left = (rest.4).nothing_left;
        },
      )

  -- An empty control packet in the place of Hello that comes in time makes the loop read through the
  -- data pointer of an empty vector, given no error before and fuel for the header.
  pub receive_loop_faults :
      (fuel k : ℕ) (d : Demuxer r) (p : ComPacket) (rest : List ℕ)
      → d.transport_error ≡ false
      → p.type ≡ control_packet
      → p.contents ≡ []
      → pending d.transport ≡ frame p ++ rest
      → (r.ready_for_reading d.transport hello_timeout).1 ≡ true
      → patience d.transport + 4 ≤ fuel
      → receive_loop r host k fuel d ≡ faults
  receive_loop_faults fuel k d p rest calm t c e ready hf =
      let got =
        receive_packet-frame r laws host fuel hello_timeout d p rest calm
          (record {
            valid = λ z. cc;
            type_fits = omega arith;
            size_fits = omega (arith, ap length c);
          })
          e ready (omega (arith, ap length c)) in
      let d₀ : Demuxer r = record d { transport = got.0 } in
      loop_faults k fuel d (hello_got fuel hello_timeout d d₀ p got.1 ∙ empty_faults d₀ p t c)
