-- ===== src/Muxer/Keeps.antt =====
-- What a successful send leaves alone, and the count of sent packets, on any transport.
use packetcomms.Base.{
  ℕ, ◌+◌, ◌%◌, ◌^◌, ◌≤◌, ◌<◌, ◌≡◌, refl, sym, ◌∙◌, List, [], ◌∷◌, true, false, length, Bool-cases,
  inl, inr, done, ◌>>=◌, >>=-eq-done, arith,
}
use packetcomms.Wire.{Endian}
use packetcomms.ComPacket.{ComPacket}
use packetcomms.Transport.{Writer}
use packetcomms.Muxer.{Muxer, send_packet, send_all, count_sent}

-- The parts of a muxer that no send touches.
pub record Keeps {w : Writer} (m m' : Muxer w) : Type 0 where
  pub ids : m'.packet_ids ≡ m.packet_ids
  pub posted : m'.num_posted ≡ m.num_posted
  pub queues : m'.tx_queues ≡ m.tx_queues

module _ (w : Writer) (host : Endian) where
  pub send_packet-Keeps :
      (fuel : ℕ) (m m' : Muxer w) (p : ComPacket)
      → send_packet w host fuel m p ≡ done m'
      → Keeps m m' × (m'.num_sent ≡ m.num_sent)
  unfolding send_packet
  send_packet-Keeps fuel m m' p h = ground arith

  -- Sent and still queued packets add up to what they were before, modulo 2^32.
  pub record Counts (m : Muxer w) (ps : List ComPacket) (m' : Muxer w) (left : List ComPacket)
      : Type 0 where
    pub kept : Keeps m m'
    pub shorter : length left ≤ length ps
    pub bounded : m'.num_sent < 2 ^ 32
    pub counted : (m'.num_sent + length left) % 2 ^ 32 ≡ (m.num_sent + length ps) % 2 ^ 32
    pub calm : m'.transport_error ≡ false → left ≡ []

  pub send_all_halted :
      (fuel : ℕ) (m : Muxer w) (ps : List ComPacket)
      → m.transport_error ≡ true
      → send_all w host fuel m ps ≡ done (m, ps)
  unfolding send_all
  send_all_halted fuel m [] e = refl
  send_all_halted fuel m (p ∷ ps) e = ground arith

  pub send_all_next :
      (fuel : ℕ) (m : Muxer w) (p : ComPacket) (ps : List ComPacket)
      → m.transport_error ≡ false
      → send_all w host fuel m (p ∷ ps)
        ≡ (send_packet w host fuel m p >>= λ m'. send_all w host fuel (count_sent w host m') ps)
  unfolding send_all
  send_all_next fuel m p ps e = ground arith

  pub send_all-Counts :
      (fuel : ℕ) (m : Muxer w) (ps : List ComPacket) (m' : Muxer w) (left : List ComPacket)
      → m.num_sent < 2 ^ 32
      → send_all w host fuel m ps ≡ done (m', left)
      → Counts m ps m' left
  send_all-Counts fuel m [] m' left b h =
      let e : m ≡ m' = unfold send_all in cc in
      let e' : left ≡ [] = unfold send_all in cc in
      rw (← e, e')
        (record {
          kept = record { ids = refl; posted = refl; queues = refl };
          shorter = omega arith;
          bounded = b;
          counted = refl;
          calm = λ _. refl;
        })
  send_all-Counts fuel m (p ∷ ps) m' left b h = elim (Bool-cases m.transport_error) [
    | inl e ↦
        let same = sym (send_all_halted fuel m (p ∷ ps) e) ∙ h in
        let e₁ : m ≡ m' = cc in
        let e₂ : p ∷ ps ≡ left = cc in
        rw (← e₁, ← e₂)
          (record {
            kept = record { ids = refl; posted = refl; queues = refl };
            shorter = omega arith;
            bounded = b;
            counted = refl;
            calm = λ f. cc;
          })
    | inr e ↦
        let run =
          >>=-eq-done (send_packet w host fuel m p) _ (sym (send_all_next fuel m p ps e) ∙ h) in
        let kept = send_packet-Keeps fuel m run.0 p run.1 in
        let ih = send_all-Counts fuel (count_sent w host run.0) ps m' left (omega arith) run.2 in
        record {
          kept = record {
            ids = ih.kept.ids ∙ kept.0.ids;
            posted = ih.kept.posted ∙ kept.0.posted;
            queues = ih.kept.queues ∙ kept.0.queues;
          };
          shorter = omega arith;
          bounded = ih.bounded;
          counted = omega arith;
          calm = ih.calm;
        }
  ]
