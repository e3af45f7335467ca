-- ===== src/Demuxer/Thread/Calls.antt =====
-- What a call of receivePacket leaves alone, and the calls of one subscriber among all calls.
use packetcomms.Base.{
  ℕ, ◌≡◌, refl, ◌∙◌, false, Bool-cases, inl, inr, List, [], ◌∷◌, ◌++◌, map, replicate, Option,
  Option-cases, ◌==◌, if◌then◌else◌, Outcome, done, >>=-eq-done, arith,
}
use packetcomms.Wire.{Endian}
use packetcomms.ComPacket.{ComPacket}
use packetcomms.Subscribers.{Subscriber, count}
use packetcomms.Transport.{Reader}
use packetcomms.Demuxer.{
  Demuxer, ReadRun, read_bytes, signal_transport_error, after_read, unless_failed, receive_data,
  receive_header, receive_packet, check_hello, receive_hello_message,
}

-- The members that have nothing to do with the transport.
pub record Keeps {r : Reader} (d d' : Demuxer r) : Type 0 where
  pub ids : d'.packet_ids ≡ d.packet_ids
  pub subscribers : d'.subscribers ≡ d.subscribers
  pub next_address : d'.next_address ≡ d.next_address
  pub delivered : d'.delivered ≡ d.delivered

module _ (r : Reader) (host : Endian) where
  Keeps-refl : (d : Demuxer r) → Keeps d d
  Keeps-refl d = record { ids = refl; subscribers = refl; next_address = refl; delivered = refl }

  Keeps-trans : (d₁ d₂ d₃ : Demuxer r) → Keeps d₁ d₂ → Keeps d₂ d₃ → Keeps d₁ d₃
  Keeps-trans d₁ d₂ d₃ v u = record {
    ids = u.ids ∙ v.ids;
    subscribers = u.subscribers ∙ v.subscribers;
    next_address = u.next_address ∙ v.next_address;
    delivered = u.delivered ∙ v.delivered;
  }

  receive_data-Keeps :
      (fuel type size : ℕ) (d d' : Demuxer r) (got : Option ComPacket)
      → receive_data r host fuel d type size ≡ done (d', got)
      → Keeps d d'
  unfolding receive_data
  receive_data-Keeps fuel type size d d' got h = ground arith

  after_read-Keeps : (d : Demuxer r) (run : ReadRun r) → Keeps d (after_read r d run)
  after_read-Keeps d run = record {
    ids = refl;
    subscribers = refl;
    next_address = refl;
    delivered = refl;
  }

  unless_failed-Keeps :
      (d d' : Demuxer r) (run : ReadRun r) (k : Outcome (Demuxer r × Option ComPacket))
      (got : Option ComPacket)
      → (k ≡ done (d', got) → Keeps d d')
      → unless_failed r host d run k ≡ done (d', got)
      → Keeps d d'
  unless_failed-Keeps d d' run k got keeps h = elim (Bool-cases run.success) [
    | inl e ↦ keeps (rw e at h)
    | inr e ↦
        let h' = rw e at h in
        let same : after_read r d run ≡ d' = cc in rw (← same) (after_read-Keeps d run)
  ]

  receive_header-Keeps :
      (fuel : ℕ) (d d' : Demuxer r) (got : Option ComPacket)
      → receive_header r host fuel d ≡ done (d', got)
      → Keeps d d'
  unfolding receive_header
  receive_header-Keeps fuel d d' got h =
      let a = >>=-eq-done (read_bytes r fuel false d.transport_error d.transport 4 []) _ h in
      unless_failed-Keeps d d' a.0 _ got
        (λ h₂.
          let b =
            >>=-eq-done (read_bytes r fuel false a.0.transport_error a.0.transport 4 []) _ h₂ in
          unless_failed-Keeps d d' b.0 _ got
            (λ h₃.
              Keeps-trans d (after_read r d b.0) d' (after_read-Keeps d b.0)
                (receive_data-Keeps fuel _ _ (after_read r d b.0) d' got h₃))
            b.2)
        a.2

  pub receive_packet-Keeps :
      (fuel ms : ℕ) (d d' : Demuxer r) (got : Option ComPacket)
      → receive_packet r host fuel d ms ≡ done (d', got)
      → Keeps d d'
  unfolding receive_packet
  receive_packet-Keeps fuel ms d d' got h =
      let waited = record d { transport = (r.ready_for_reading d.transport ms).0 } in
      elim (Bool-cases (r.ready_for_reading d.transport ms).1) [
        | inl e ↦
            let v = receive_header-Keeps fuel waited d' got (rw (e, receive_packet) at h) in
            record {
              ids = v.ids;
              subscribers = v.subscribers;
              next_address = v.next_address;
              delivered = v.delivered;
            }
        | inr e ↦
            let same : waited ≡ d' = cc (rw (e, receive_packet) at h) in
            rw (← same)
              (record { ids = refl; subscribers = refl; next_address = refl; delivered = refl })
      ]

  check_hello-Keeps :
      (d d' : Demuxer r) (p : ComPacket) → check_hello r host d p ≡ done d' → Keeps d d'
  unfolding check_hello signal_transport_error
  check_hello-Keeps d d' p h = ground arith

  pub receive_hello_message-Keeps :
      (fuel ms : ℕ) (d d' : Demuxer r)
      → receive_hello_message r host fuel d ms ≡ done d'
      → Keeps d d'
  unfolding receive_hello_message
  receive_hello_message-Keeps fuel ms d d' h =
      let a = >>=-eq-done (receive_packet r host fuel d ms) _ h in
      let v = receive_packet-Keeps fuel ms d a.0.0 a.0.1 a.1 in
      elim (Option-cases a.0.1) [
        | inl e ↦ let same : a.0.0 ≡ d' = cc (rw e at (a.2)) in rw (← same) v
        | inr (p, e) ↦ Keeps-trans d a.0.0 d' v (check_hello-Keeps a.0.0 d' p (rw e at (a.2)))
      ]

-- The packets that one subscriber was called with, in order.
unfoldable pub calls_to : ℕ → List (ℕ × ComPacket) → List ComPacket
calls_to a [] = []
calls_to a ((b, p) ∷ calls) = if b == a then p ∷ calls_to a calls else calls_to a calls

pub calls_to-append :
    (a : ℕ) (cs ds : List (ℕ × ComPacket)) → calls_to a (cs ++ ds) ≡ calls_to a cs ++ calls_to a ds
unfolding calls_to
calls_to-append a [] ds = refl
calls_to-append a ((b, p) ∷ cs) ds = ground (arith, calls_to-append a cs ds)

-- A subscriber is called as often as it stands in the queue.
pub calls_to-queue :
    (a : ℕ) (p : ComPacket) (q : List Subscriber)
    → calls_to a (map (λ (x : Subscriber). (x.address, p)) q) ≡ replicate (count a q) p
unfolding calls_to count
calls_to-queue a p [] = refl
calls_to-queue a p (x ∷ q) = ground (arith, calls_to-queue a p q)
