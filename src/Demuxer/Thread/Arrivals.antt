-- ===== src/Demuxer/Thread/Arrivals.antt =====
-- The packets that the receive thread takes from a stream of frames, through every interleaving.
use packetcomms.Base.{
  ℕ, ◌≡◌, ◌≢◌, ◌⊎◌, inl, inr, refl, sym, ap, ◌∙◌, true, false, Bool-cases, List, [], ◌∷◌, ◌++◌,
  append_assoc, append-nil, Option-cases, ◌==◌, done, >>=-eq-done, All, All-append_right, arith,
}
use packetcomms.Wire.{Endian}
use packetcomms.IdManager.{control_packet}
use packetcomms.ComPacket.{ComPacket}
use packetcomms.ControlMessage.{underlying, hello}
use packetcomms.Frame.{frames, IsSendable}
use packetcomms.TxQueues.Types.{of_type, of_type-append}
use packetcomms.Subscribers.{Subscriber}
use packetcomms.Transport.{Reader, ReaderLaws}
use packetcomms.Demuxer.{
  Demuxer, signal_transport_error, handle_control_message, get_control_message, check_hello,
  receive_packet, receive_hello_message, receive_timeout, hello_timeout, unsubscribe,
}
use packetcomms.Demuxer.Stream.Frames.{receive_packet_next, receive_packet-none}
use packetcomms.Demuxer.Subscriptions.{subscribe_cases}
use packetcomms.Demuxer.Thread.{
  System, open_queue, unblock, cut_off, call, Step, greets, gets_nothing, gets_control, gets, calls,
  unlocks, exits, subscribes, unsubscribes, destroys, unblocks, interrupts, Reach, here, next,
}
use packetcomms.Demuxer.Thread.Registrations.{received_by, received}
use packetcomms.Demuxer.Thread.Shutdown.{waiting, receive_hello_message_halted}

module _ (r : Reader) (laws : ReaderLaws r) (host : Endian) (fuel : ℕ) where
  open laws use {pending}

  -- Of a stream of packets, some have arrived: but for the control packets they are those that were
  -- received for subscribers. The rest is on its way, unless there is a transport error.
  pub record Arrives (ps got : List ComPacket) (d : Demuxer r) : Type 0 where
    pub arrived : List ComPacket
    pub rest : List ComPacket
    pub split : ps ≡ arrived ++ rest
    pub same : (k : ℕ) → k ≢ control_packet → of_type k got ≡ of_type k arrived
    pub on_way : d.transport_error ≡ false → pending d.transport ≡ frames rest

  Arrives-still :
      (ps got : List ComPacket) (d d' : Demuxer r)
      → (d'.transport_error ≡ false
          → (d.transport_error ≡ false) × (pending d'.transport ≡ pending d.transport))
      → Arrives ps got d
      → Arrives ps (got ++ []) d'
  Arrives-still ps got d d' keeps v = record {
    arrived = v.arrived;
    rest = v.rest;
    split = v.split;
    same = λ k n. ap (of_type k) (append-nil got) ∙ v.same k n;
    on_way = λ calm. (keeps calm).1 ∙ v.on_way (keeps calm).0;
  }

  Arrives-next :
      (ps got more : List ComPacket) (d d' : Demuxer r) (p : ComPacket) (ps' : List ComPacket)
      (v : Arrives ps got d)
      → v.rest ≡ p ∷ ps'
      → pending d'.transport ≡ frames ps'
      → ((k : ℕ) → k ≢ control_packet → of_type k more ≡ of_type k (p ∷ []))
      → Arrives ps (got ++ more) d'
  Arrives-next ps got more d d' p ps' v e left same = record {
    arrived = v.arrived ++ (p ∷ []);
    rest = ps';
    split = v.split ∙ ap (◌++◌ v.arrived) e ∙ sym (append_assoc v.arrived (p ∷ []) ps');
    same = λ k n.
        rw (of_type-append k got more, of_type-append k v.arrived (p ∷ []), v.same k n, same k n)
          refl;
    on_way = λ calm. left;
  }

  check_hello_cases :
      (d d' : Demuxer r) (p : ComPacket)
      → check_hello r host d p ≡ done d'
      → (d'.transport_error ≡ true) ⊎ ((d ≡ d') × (p.type ≡ control_packet))
  unfolding check_hello signal_transport_error
  check_hello_cases d d' p h = elim (Bool-cases (p.type == control_packet)) [
    | inl c ↦
        let b = >>=-eq-done (get_control_message r p) _ (rw c at h) in
        elim (Bool-cases (b.0 == underlying hello)) [
          | inl y ↦ inr (cc (rw y at (b.2)), ground arith)
          | inr n ↦
              let e : signal_transport_error r d ≡ d' = cc (rw n at (b.2)) in inl (rw (← e) refl)
        ]
    | inr o ↦ let e : signal_transport_error r d ≡ d' = cc (rw o at h) in inl (rw (← e) refl)
  ]

  rest-IsSendable :
      (ps got : List ComPacket) (d : Demuxer r) (v : Arrives ps got d)
      → All IsSendable ps
      → All IsSendable v.rest
  rest-IsSendable ps got d v a = All-append_right IsSendable v.arrived v.rest (rw v.split at a)

  Arrives-failed :
      (ps got : List ComPacket) (d d' : Demuxer r)
      → d'.transport_error ≡ true
      → Arrives ps got d
      → Arrives ps (got ++ []) d'
  Arrives-failed ps got d d' e v = Arrives-still ps got d d' (λ calm. absurd cc) v

  -- A packet that is no packet for subscribers.
  control_none :
      (p : ComPacket)
      → p.type ≡ control_packet
      → (k : ℕ) → k ≢ control_packet
      → of_type k [] ≡ of_type k (p ∷ [])
  unfolding of_type
  control_none p e k n = ground arith

  Arrives-hello :
      (ps got : List ComPacket) (d d' : Demuxer r)
      → All IsSendable ps
      → receive_hello_message r host fuel d hello_timeout ≡ done d'
      → Arrives ps got d
      → Arrives ps (got ++ []) d'
  unfolding receive_hello_message
  Arrives-hello ps got d d' a h v = elim (Bool-cases d.transport_error) [
    | inl e ↦
        let same : waiting r host fuel hello_timeout d ≡ d' =
          cc (receive_hello_message_halted r host fuel hello_timeout d e, h) in
        Arrives-failed ps got d d' (rw (← same) e) v
    | inr calm ↦
        let b = >>=-eq-done (receive_packet r host fuel d hello_timeout) _ h in
        elim (Option-cases b.0.1) [
          | inl e ↦
              let same : b.0.0 ≡ d' = cc (rw e at (b.2)) in
              let got_none = b.1 ∙ ap (λ z. done (b.0.0, z)) e in
              rw (← same) (
                Arrives-still ps got d b.0.0
                  (λ calm'. (
                    calm,
                    receive_packet-none r laws host fuel hello_timeout d b.0.0 calm calm' got_none,
                  ))
                  v)
          | inr (p, e) ↦
              let got_some = b.1 ∙ ap (λ z. done (b.0.0, z)) e in
              elim (check_hello_cases b.0.0 d' p (rw e at (b.2))) [
                | inl err ↦ Arrives-failed ps got d d' err v
                | inr (same, c) ↦
                    let n =
                      receive_packet_next r laws host fuel hello_timeout d b.0.0 p v.rest calm
                        (rest-IsSendable ps got d v a) (v.on_way calm) got_some in
                    rw (← same) (Arrives-next ps got [] d b.0.0 p n.0 v n.1 n.2 (control_none p c))
              ]
        ]
  ]

  unsubscribe_transport :
      (d d' : Demuxer r) (x : Subscriber)
      → unsubscribe r d x ≡ done d'
      → (d'.transport ≡ d.transport) × (d'.transport_error ≡ d.transport_error)
  unfolding unsubscribe
  unsubscribe_transport d d' x h = ground arith

  Step-Arrives :
      (ps got : List ComPacket) (s t : System r) (st : Step r host fuel s t)
      → All IsSendable ps
      → Arrives ps got s.demuxer
      → Arrives ps (got ++ received_by r host fuel st) t.demuxer
  unfolding received_by
  Step-Arrives ps got s t (greets d i e q) a v = rw q (Arrives-hello ps got s.demuxer d a e v)
  Step-Arrives ps got s t (gets_nothing d i c e q) a v = rw q (
      Arrives-still ps got s.demuxer d
        (λ calm. (c, receive_packet-none r laws host fuel receive_timeout s.demuxer d c calm e)) v)
  Step-Arrives ps got s t (gets_control d p i c e m q) a v =
      let n =
        receive_packet_next r laws host fuel receive_timeout s.demuxer d p v.rest c
          (rest-IsSendable ps got s.demuxer v a) (v.on_way c) e in
      rw q (
        Arrives-next ps got [] s.demuxer (handle_control_message r p d) p n.0 v n.1
          (unfold handle_control_message in n.2) (control_none p m))
  Step-Arrives ps got s t (gets d p i c e m q) a v =
      let n =
        receive_packet_next r laws host fuel receive_timeout s.demuxer d p v.rest c
          (rest-IsSendable ps got s.demuxer v a) (v.on_way c) e in
      rw q (
        Arrives-next ps got (p ∷ []) s.demuxer (open_queue r p d) p n.0 v n.1
          (unfold open_queue in n.2) (λ k l. refl))
  Step-Arrives ps got s t (calls p x todo i q) a v = rw q (
      Arrives-still ps got s.demuxer (call r x p s.demuxer) (unfold call in λ calm. (calm, refl)) v)
  Step-Arrives ps got s t (unlocks p i q) a v =
      rw q (Arrives-still ps got s.demuxer s.demuxer (λ calm. (calm, refl)) v)
  Step-Arrives ps got s t (exits i e q) a v =
      rw q (Arrives-still ps got s.demuxer s.demuxer (λ calm. (calm, refl)) v)
  Step-Arrives ps got s t (subscribes name d x f e q) a v =
      let c = subscribe_cases r s.demuxer d name x e in
      rw q (
        Arrives-still ps got s.demuxer d
          (λ calm. (
            sym (ap (λ (y : Demuxer r). y.transport_error) c.2) ∙ calm,
            ap (λ (y : Demuxer r). pending y.transport) c.2,
          ))
          v)
  Step-Arrives ps got s t (unsubscribes x d f e q) a v =
      let c = unsubscribe_transport s.demuxer d x e in
      rw q (Arrives-still ps got s.demuxer d (λ calm. (sym c.1 ∙ calm, ap pending c.0)) v)
  Step-Arrives ps got s t (destroys q) a v = rw q (
      Arrives-failed ps got s.demuxer (signal_transport_error r s.demuxer)
        (unfold signal_transport_error in refl) v)
  Step-Arrives ps got s t (unblocks q) a v = rw q (
      Arrives-still ps got s.demuxer (unblock r s.demuxer)
        (unfold unblock in λ calm. (calm, (laws.blocking_pending (s.demuxer).transport false).0)) v)
  Step-Arrives ps got s t (interrupts n ms x i c e q) a v =
      rw q (Arrives-failed ps got s.demuxer (cut_off r x s.demuxer) (unfold cut_off in refl) v)

  Reach-Arrives :
      (ps : List ComPacket) (s t : System r) (run : Reach r host fuel s t)
      → All IsSendable ps
      → pending (s.demuxer).transport ≡ frames ps
      → Arrives ps (received r host fuel run) t.demuxer
  unfolding received
  Reach-Arrives ps s t here a e = record {
    arrived = [];
    rest = ps;
    split = refl;
    same = λ k n. refl;
    on_way = λ calm. e;
  }
  Reach-Arrives ps s t (next {t = m} run st) a e =
      Step-Arrives ps (received r host fuel run) m t st a (Reach-Arrives ps s m run a e)

  -- With a stream of sendable packets on their way and nothing else, let all threads run by any
  -- interleaving. The packets that the receive thread has received for subscribers are, type by type,
  -- the first packets of the stream, in its order: none is lost, doubled or altered, except that a
  -- control packet is not for subscribers.
  pub received_in_order :
      (ps : List ComPacket) (s t : System r) (run : Reach r host fuel s t) (k : ℕ)
      → All IsSendable ps
      → pending (s.demuxer).transport ≡ frames ps
      → k ≢ control_packet
      → (later : List ComPacket) × (of_type k ps ≡ of_type k (received r host fuel run) ++ later)
  received_in_order ps s t run k a e n =
      let v = Reach-Arrives ps s t run a e in
      (
        of_type k v.rest,
        ap (of_type k) v.split
            ∙ of_type-append k v.arrived v.rest
            ∙ ap (λ z. z ++ of_type k v.rest) (sym (v.same k n)),
      )
