-- ===== src/Muxer/Pass.antt =====
-- sendAll and a pass over all the queues, on a transport that keeps its laws.
use packetcomms.Base.{
  ℕ, ◌+◌, ◌-◌, ◌%◌, ◌^◌, ◌≤◌, ◌<◌, ◌≡◌, ◌≢◌, refl, sym, ap, ◌∙◌, List, [], ◌∷◌, ◌++◌, append_assoc,
  append-nil, true, false, length, Bool-cases, inl, inr, done, ◌>>=◌, >>=-eq-done, All, Distinct,
  arith,
}
use packetcomms.Wire.{Endian}
use packetcomms.ComPacket.{ComPacket}
use packetcomms.Frame.{frame, frames}
use packetcomms.TxQueues.{TxQueues, queue, put, total, keys, in_order, cleared, AllQueued}
use packetcomms.TxQueues.Laws.{total-put}
use packetcomms.TxQueues.Order.{put_self, put-Distinct, All-queue, AllQueued-put_nil, in_order-put}
use packetcomms.Transport.{Writer, WriterLaws}
use packetcomms.Muxer.{Muxer, send_all, send_pass, count_sent}
use packetcomms.Muxer.Send.{send_packet_lem}
use packetcomms.Muxer.Keeps.{send_all_halted, send_all_next, send_all-Counts}

-- What sendPacket needs of a packet, where no payload is longer than `n` bytes.
abbrev pub Fits : ℕ → ComPacket → Type 0
Fits n p = (p.type ≢ 0) × (length p.contents ≤ n)

pub frames-append : (ps qs : List ComPacket) → frames (ps ++ qs) ≡ frames ps ++ frames qs
unfolding frames
frames-append [] qs = refl
frames-append (p ∷ ps) qs = simp (frames-append ps qs, append_assoc)

module _ (w : Writer) (host : Endian) where
  pub send_pass_next :
      (fuel k : ℕ) (order : List ℕ) (m m' : Muxer w) (left : List ComPacket)
      → send_all w host fuel m (queue k m.tx_queues) ≡ done (m', left)
      → send_pass w host fuel (k ∷ order) m
        ≡ send_pass w host fuel order (record m' { tx_queues = put k left m'.tx_queues })
  unfolding send_pass
  send_pass_next fuel k order m m' left e = rw (e, send_pass)

  pub send_pass_step :
      (fuel k : ℕ) (order : List ℕ) (m : Muxer w)
      → send_pass w host fuel (k ∷ order) m ≡ (
          send_all w host fuel m (queue k m.tx_queues) >>= λ r.
          send_pass w host fuel order (record (r.0) { tx_queues = put k r.1 (r.0).tx_queues }))
  unfolding send_pass
  send_pass_step fuel k order m = refl

  -- Once there is a transport error a pass over the queues changes nothing: no packet leaves its
  -- queue, none is counted and nothing is written.
  pub send_pass_halted :
      (fuel : ℕ) (order : List ℕ) (m : Muxer w)
      → m.transport_error ≡ true
      → send_pass w host fuel order m ≡ done m
  send_pass_halted fuel [] m e = unfold send_pass in refl
  send_pass_halted fuel (k ∷ order) m e =
      send_pass_next fuel k order m m (queue k m.tx_queues) (send_all_halted w host fuel m _ e)
      ∙ ap (λ t. send_pass w host fuel order (record m { tx_queues = t })) (put_self k m.tx_queues)
      ∙ send_pass_halted fuel order m e

  -- The packets that wait and those that were sent keep their sum, modulo 2^32.
  pub record Balanced (m m' : Muxer w) : Type 0 where
    pub ids : m'.packet_ids ≡ m.packet_ids
    pub posted : m'.num_posted ≡ m.num_posted
    pub bounded : m'.num_sent < 2 ^ 32
    pub counted :
        (m'.num_sent + total m'.tx_queues) % 2 ^ 32 ≡ (m.num_sent + total m.tx_queues) % 2 ^ 32
    pub distinct : Distinct (keys m'.tx_queues)

  -- Whatever the transport does, a pass that ends keeps the sum of the sent and the waiting packets
  -- modulo 2^32, the number of posted packets, the names and the queues' being distinct, and leaves a
  -- uint32_t in the counter of sent packets.
  pub send_pass-Balanced :
      (fuel : ℕ) (order : List ℕ) (m m' : Muxer w)
      → m.num_sent < 2 ^ 32
      → Distinct (keys m.tx_queues)
      → send_pass w host fuel order m ≡ done m'
      → Balanced m m'
  send_pass-Balanced fuel [] m m' b d h =
      let e : m ≡ m' = unfold send_pass in cc in
      rw (← e) (record { ids = refl; posted = refl; bounded = b; counted = refl; distinct = d })
  send_pass-Balanced fuel (k ∷ order) m m' b d h =
      let run =
        >>=-eq-done (send_all w host fuel m (queue k m.tx_queues)) _
          (sym (send_pass_step fuel k order m) ∙ h) in
      let m₁ = run.0.0 in
      let left = run.0.1 in
      let c = send_all-Counts w host fuel m (queue k m.tx_queues) m₁ left b run.1 in
      let ih =
        send_pass-Balanced fuel order (record m₁ { tx_queues = put k left m₁.tx_queues }) m'
          c.bounded (put-Distinct k left m₁.tx_queues (rw c.kept.queues d)) run.2 in
      let change =
        total-put k (length (queue k m.tx_queues) - length left) left m₁.tx_queues
          (rw c.kept.queues (omega (arith, c.shorter))) in
      record {
        ids = ih.ids ∙ c.kept.ids;
        posted = ih.posted ∙ c.kept.posted;
        bounded = ih.bounded;
        counted = omega (arith, ih.counted, c.counted, change, ap total c.kept.queues, c.shorter);
        distinct = ih.distinct;
      }

module _ (w : Writer) (laws : WriterLaws w) (host : Endian) where
  open laws use {sent, patience}

  -- An error is never taken back.
  send_all_clean :
      (fuel : ℕ) (m m' : Muxer w) (ps left : List ComPacket)
      → send_all w host fuel m ps ≡ done (m', left)
      → m'.transport_error ≡ false
      → m.transport_error ≡ false
  send_all_clean fuel m m' ps left e f = elim (Bool-cases m.transport_error) [
    | inl t ↦ cc (send_all_halted w host fuel m ps t)
    | inr g ↦ g
  ]

  frames_after :
      (before sent₁ sent₂ : List ℕ) (p : ComPacket) (ps : List ComPacket)
      → sent₁ ≡ before ++ frame p
      → sent₂ ≡ sent₁ ++ frames ps
      → sent₂ ≡ before ++ frames (p ∷ ps)
  unfolding frames
  frames_after before sent₁ sent₂ p ps e₁ e₂ = simp (e₂, e₁, append_assoc)

  -- sendAll returns, and unless it leaves an error it has sent the frames of the whole queue.
  pub send_all_lem :
      (fuel n : ℕ) (m : Muxer w) (ps : List ComPacket)
      → All (Fits n) ps
      → patience m.transport + 4 + n ≤ fuel
      → (m' : Muxer w) × (left : List ComPacket) × (send_all w host fuel m ps ≡ done (m', left))
        × (m'.transport_error ≡ false → sent m'.transport ≡ sent m.transport ++ frames ps)
        × (patience m'.transport ≤ patience m.transport)
  send_all_lem fuel n m [] a h =
      (m, [], unfold send_all in refl, (λ _. unfold frames in sym (append-nil _)), omega arith)
  send_all_lem fuel n m (p ∷ ps) a h = elim (Bool-cases m.transport_error) [
    | inl e ↦ (m, p ∷ ps, send_all_halted w host fuel m _ e, (λ f. cc), omega arith)
    | inr e ↦
        let one = send_packet_lem w laws host fuel m p e a.0.0 (omega arith) in
        let m₁ = record m { transport = one.0; transport_error = one.1 } in
        let ih = send_all_lem fuel n (count_sent w host m₁) ps a.1 (omega arith) in
        (
          ih.0,
          ih.1,
          send_all_next w host fuel m p ps e ∙ rw one.2 ih.2,
          (λ f.
              frames_after (sent m.transport) (sent one.0) (sent (ih.0).transport) p ps
                (one.3 (send_all_clean fuel (count_sent w host m₁) ih.0 ps ih.1 ih.2 f)) (ih.3 f)),
          omega arith,
        )
  ]

  frames_visited :
      (before sent₁ sent₂ : List ℕ) (k : ℕ) (order : List ℕ) (t : TxQueues)
      → All (λ j. k ≢ j) order
      → sent₁ ≡ before ++ frames (queue k t)
      → sent₂ ≡ sent₁ ++ frames (in_order order (put k [] t))
      → sent₂ ≡ before ++ frames (in_order (k ∷ order) t)
  unfolding in_order
  frames_visited before sent₁ sent₂ k order t d e₁ e₂ =
      simp (e₂, e₁, in_order-put k order t d, frames-append, append_assoc)

  -- Where every waiting packet has a valid type and at most `n` bytes, the order names no queue
  -- twice, and the fuel covers `n`, a header word and every stall of the transport, a pass over the
  -- queues returns. Unless it leaves a transport error, the transport has taken the frames of the
  -- waiting packets of the queues visited, queue by queue in the order of the visit and first-in
  -- first-out in each queue, and those queues are empty.
  pub send_pass_lem :
      (fuel n : ℕ) (order : List ℕ) (m : Muxer w)
      → m.num_sent < 2 ^ 32
      → Distinct order
      → AllQueued (Fits n) m.tx_queues
      → patience m.transport + 4 + n ≤ fuel
      → (m' : Muxer w) × (send_pass w host fuel order m ≡ done m')
        × (m'.transport_error ≡ false
            → (sent m'.transport ≡ sent m.transport ++ frames (in_order order m.tx_queues))
              × (m'.tx_queues ≡ cleared order m.tx_queues))
        × (patience m'.transport ≤ patience m.transport)
  unfolding put cleared
  send_pass_lem fuel n [] m b d a h = (
    m,
    unfold send_pass in refl,
    (λ _. (unfold frames in_order in sym (append-nil _), unfold cleared in refl)),
    omega arith,
  )
  send_pass_lem fuel n (k ∷ order) m b d a h =
      let all =
        send_all_lem fuel n m (queue k m.tx_queues) (All-queue (Fits n) k m.tx_queues a) h in
      let m₁ = all.0 in
      let c = send_all-Counts w host fuel m (queue k m.tx_queues) m₁ all.1 b all.2 in
      let next = send_pass_next w host fuel k order m m₁ all.1 all.2 in
      elim (Bool-cases m₁.transport_error) [
        | inl t ↦ (
          record m₁ { tx_queues = put k all.1 m₁.tx_queues },
          next ∙ send_pass_halted w host fuel order _ t,
          (λ f. cc),
          all.4,
        )
        | inr f ↦
            let m₂ : Muxer w = record m₁ { tx_queues = put k [] m.tx_queues } in
            let same : ◌≡◌ {A = Muxer w} (record m₁ { tx_queues = put k all.1 m₁.tx_queues }) m₂ =
              rw (c.calm f, c.kept.queues) refl in
            let ih =
              send_pass_lem fuel n order m₂ c.bounded d.1
                (AllQueued-put_nil (Fits n) k m.tx_queues a) (omega (arith, all.4)) in
            (
              ih.0,
              next ∙ ap (send_pass w host fuel order) same ∙ ih.1,
              (λ g. (
                frames_visited (sent m.transport) (sent m₁.transport) (sent (ih.0).transport) k
                    order m.tx_queues d.0 (all.3 f) (ih.2 g).0,
                (ih.2 g).1,
              )),
              omega (arith, all.4, ih.3),
            )
      ]
