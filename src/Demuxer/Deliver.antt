-- ===== src/Demuxer/Deliver.antt =====
-- The receive loop on a stream of frames: what the subscribers are given.
use packetcomms.Base.{
  ℕ, zero, suc, ◌+◌, ◌≤◌, ◌≡◌, ◌≢◌, refl, sym, ap, ◌∙◌, List, [], ◌∷◌, ◌++◌, append_assoc,
  append-nil, map, false, Bool-cases, inl, inr, some, length, length-append, ◌==◌, if◌then◌else◌,
  done, All, arith,
}
use mathlib.Core.Path.{fun_ext}
use packetcomms.Wire.{Endian}
use packetcomms.IdManager.{control_packet}
use packetcomms.ComPacket.{ComPacket}
use packetcomms.Frame.{frame, frames, length-frame, IsSendable}
use packetcomms.Subscribers.{Subscriber, lookup}
use packetcomms.Subscribers.Laws.{lookup-insert}
use packetcomms.Transport.{Reader, ReaderLaws}
use packetcomms.Demuxer.{
  Demuxer, dispatch, handle_control_message, handle_packet, receive_packet, receive_round,
  receive_rounds, receive_timeout,
}
use packetcomms.Demuxer.Receive.{receive_packet-frame, receive_timed_out}

-- The calls that a packet leads to, and those that a stream of packets leads to: each packet but
-- the control packets goes to the subscribers of its type, in their order.
abbrev pub calls : (ℕ → List Subscriber) → ComPacket → List (ℕ × ComPacket)
calls queue p =
    if p.type == control_packet then [] else map (λ (x : Subscriber). (x.address, p)) (queue p.type)

unfoldable pub all_calls : (ℕ → List Subscriber) → List ComPacket → List (ℕ × ComPacket)
all_calls queue [] = []
all_calls queue (p ∷ ps) = calls queue p ++ all_calls queue ps

-- The subscribers of each type.
abbrev pub queues : {r : Reader} → Demuxer r → ℕ → List Subscriber
queues d k = lookup k d.subscribers

pub queues-handle_packet :
    (r : Reader) (host : Endian) (d : Demuxer r) (p : ComPacket)
    → queues (handle_packet r host d p) ≡ queues d
unfolding handle_packet handle_control_message dispatch
queues-handle_packet r host d p =
    fun_ext λ k. ground (arith, lookup-insert p.type k (lookup p.type d.subscribers) d.subscribers)

pub delivered-handle_packet :
    (r : Reader) (host : Endian) (d : Demuxer r) (p : ComPacket)
    → (handle_packet r host d p).delivered ≡ d.delivered ++ calls (queues d) p
unfolding handle_packet handle_control_message dispatch
delivered-handle_packet r host d p = ground (arith, append-nil d.delivered)

-- Handling a packet has nothing to do with the transport.
pub handle_packet_keeps :
    (r : Reader) (host : Endian) (d : Demuxer r) (p : ComPacket)
    → ((handle_packet r host d p).transport ≡ d.transport)
      × ((handle_packet r host d p).transport_error ≡ d.transport_error)
unfolding handle_packet handle_control_message dispatch
handle_packet_keeps r host d p = ground arith

frames_first : (p : ComPacket) (ps : List ComPacket) → frames (p ∷ ps) ≢ []
unfolding frames
frames_first p ps e =
    absurd (omega (arith, ap length e, length-append {0} (frame p) (frames ps), length-frame p))

module _ (r : Reader) (laws : ReaderLaws r) (host : Endian) where
  open laws use {pending, patience, waited, timed_out}

  round_timed_out :
      (fuel : ℕ) (d : Demuxer r)
      → (r.ready_for_reading d.transport receive_timeout).1 ≡ false
      → receive_round r host fuel d
        ≡ done (record d { transport = (r.ready_for_reading d.transport receive_timeout).0 })
  unfolding receive_round
  round_timed_out fuel d e = rw (receive_timed_out r laws host fuel receive_timeout d e) refl

  round_got :
      (fuel : ℕ) (d d' : Demuxer r) (p : ComPacket)
      → receive_packet r host fuel d receive_timeout ≡ done (d', some p)
      → receive_round r host fuel d ≡ done (handle_packet r host d' p)
  unfolding receive_round
  round_got fuel d d' p e = rw (e, receive_round)

  rounds_next :
      (k fuel : ℕ) (d d' : Demuxer r)
      → d.transport_error ≡ false
      → receive_round r host fuel d ≡ done d'
      → receive_rounds r host (suc k) fuel d ≡ receive_rounds r host k fuel d'
  unfolding receive_rounds
  rounds_next k fuel d d' calm e = ground arith

  -- What the receive loop has done when it has read the frames of some packets.
  pub record Received (d : Demuxer r) (ps : List ComPacket) (d' : Demuxer r) : Type 0 where
    pub calls_made : d'.delivered ≡ d.delivered ++ all_calls (queues d) ps
    pub same_queues : queues d' ≡ queues d
    pub no_error : d'.transport_error ≡ false
    pub nothing_left : pending d'.transport ≡ []

  Received-next :
      (d d₁ d' : Demuxer r) (p : ComPacket) (ps : List ComPacket)
      → d₁.delivered ≡ d.delivered ++ calls (queues d) p
      → queues d₁ ≡ queues d
      → Received d₁ ps d'
      → Received d (p ∷ ps) d'
  Received-next d d₁ d' p ps made same v = record {
    calls_made =
        v.calls_made ∙ rw (made, same) (append_assoc d.delivered _ _ ∙ (unfold all_calls in refl));
    same_queues = v.same_queues ∙ same;
    no_error = v.no_error;
    nothing_left = v.nothing_left;
  }

  -- With no transport error before, enough fuel, and the frames of some sendable packets on their way
  -- and nothing else, the loop has received them all after at most as many rounds as there are
  -- packets and stalls. Every packet but a control packet was then given to each subscriber of its
  -- type, in the order of the stream, the subscribers are the same, and there is no error.
  pub receive_rounds_lem :
      (m fuel n : ℕ) (d : Demuxer r) (ps : List ComPacket)
      → d.transport_error ≡ false
      → All IsSendable ps
      → All (λ p. length p.contents ≤ n) ps
      → pending d.transport ≡ frames ps
      → patience d.transport + length ps ≤ m
      → patience d.transport + 4 + n ≤ fuel
      → (k : ℕ) × (d' : Demuxer r) × (k ≤ m)
        × (receive_rounds r host k fuel d ≡ done d')
        × Received d ps d'
  receive_rounds_lem m fuel n d [] calm valid short e hm hf = (
    0,
    d,
    omega arith,
    unfold receive_rounds in refl,
    record {
      calls_made = unfold all_calls in sym (append-nil d.delivered);
      same_queues = refl;
      no_error = calm;
      nothing_left = e ∙ (unfold frames in refl);
    },
  )
  receive_rounds_lem zero fuel n d (p ∷ ps) calm valid short e hm hf = absurd (omega arith)
  receive_rounds_lem (suc m) fuel n d (p ∷ ps) calm valid short e hm hf =
      elim (Bool-cases (r.ready_for_reading d.transport receive_timeout).1) [
        | inl ready ↦
            let got =
              receive_packet-frame r laws host fuel receive_timeout d p (frames ps) calm valid.0
                (e ∙ (unfold frames in refl)) ready (omega (arith, short.0)) in
            let d₀ : Demuxer r = record d { transport = got.0 } in
            let d₁ = handle_packet r host d₀ p in
            let keeps = handle_packet_keeps r host d₀ p in
            let still : patience d₁.transport ≤ patience d.transport = rw keeps.0 got.3 in
            let ih =
              receive_rounds_lem m fuel n d₁ ps (keeps.1 ∙ calm) valid.1 short.1
                (ap pending keeps.0 ∙ got.2) (omega arith) (omega arith) in
            (
              suc ih.0,
              ih.1,
              omega (arith, ih.2),
              rounds_next ih.0 fuel d d₁ calm (round_got fuel d d₀ p got.1) ∙ ih.3,
              Received-next d d₁ ih.1 p ps (delivered-handle_packet r host d₀ p)
                  (queues-handle_packet r host d₀ p) ih.4,
            )
        | inr late ↦
            let d₀ : Demuxer r = record d {
              transport = (r.ready_for_reading d.transport receive_timeout).0;
            } in
            let less =
              timed_out d.transport receive_timeout late (λ z. frames_first p ps (sym e ∙ z)) in
            let w = waited d.transport receive_timeout in
            let ih =
              receive_rounds_lem m fuel n d₀ (p ∷ ps) calm valid short (w.0 ∙ e) (omega arith)
                (omega arith) in
            (
              suc ih.0,
              ih.1,
              omega (arith, ih.2),
              rounds_next ih.0 fuel d d₀ calm (round_timed_out fuel d late) ∙ ih.3,
              record {
                calls_made = (ih.4).calls_made;
                same_queues = (ih.4).same_queues;
                no_error = (ih.4).no_error;
                nothing_left = (ih.4).nothing_left;
              },
            )
      ]
