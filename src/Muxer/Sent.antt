-- ===== src/Muxer/Sent.antt =====
-- What the transport has taken when a call has returned without an error, however much fuel the call
-- was given.
use packetcomms.Base.{
  ℕ, zero, suc, length, ◌≡◌, refl, sym, ap, ◌∙◌, List, [], ◌∷◌, ◌++◌, append_assoc, append-nil,
  Bool, true, false, not, ◌&&◌, negsuc, ℤ-cases, inl, inr, drop, take-append-drop, Bool-cases, ◌==◌,
  done, >>=-eq-done, Distinct, arith,
}
use packetcomms.Wire.{Endian}
use packetcomms.IdManager.{invalid_packet}
use packetcomms.ComPacket.{ComPacket, get_data_size}
use packetcomms.Frame.{frame, frames}
use packetcomms.TxQueues.{queue, put, in_order, cleared}
use packetcomms.TxQueues.Order.{in_order-put}
use packetcomms.Transport.{Writer, WriterLaws}
use packetcomms.Muxer.{Muxer, word, write_bytes, send_packet, send_all, send_pass, count_sent}
use packetcomms.Muxer.Write.{write_step}
use packetcomms.Muxer.Send.{word_lem}
use packetcomms.Muxer.Keeps.{send_packet-Keeps, send_all_halted, send_all_next}
use packetcomms.Muxer.Pass.{frames-append, send_pass_halted, send_pass_step}

module _ (w : Writer) (laws : WriterLaws w) where
  open laws use {sent, accepted}

  write_failed :
      (fuel n b : ℕ) (bs : List ℕ) (s : w.State)
      → (w.write s (b ∷ bs)).1 ≡ negsuc n
      → write_bytes w (suc fuel) false s (b ∷ bs)
        ≡ done ((w.write s (b ∷ bs)).0, false, suc (length bs))
  unfolding write_bytes
  write_failed fuel n b bs s e = ground arith

  -- A run that returns true has handed over the whole buffer.
  pub write_bytes_sent :
      (fuel : ℕ) (s s' : w.State) (buffer : List ℕ) (left : ℕ)
      → write_bytes w fuel false s buffer ≡ done (s', true, left)
      → sent s' ≡ sent s ++ buffer
  write_bytes_sent fuel s s' [] left h =
      let e : s ≡ s' = unfold write_bytes in cc in rw (← e) (sym (append-nil (sent s)))
  write_bytes_sent zero s s' (b ∷ bs) left h = unfold write_bytes in cc
  write_bytes_sent (suc fuel) s s' (b ∷ bs) left h = elim (ℤ-cases (w.write s (b ∷ bs)).1) [
    | inr (n, e) ↦ cc (write_failed fuel n b bs s e)
    | inl (n, e) ↦
        write_bytes_sent fuel (w.write s (b ∷ bs)).0 s' (drop n (b ∷ bs)) left
          (sym (write_step w laws fuel n b bs s e) ∙ h)
        ∙ rw ((accepted s (b ∷ bs) n e).1)
            (append_assoc (sent s) _ _ ∙ ap (◌++◌ (sent s)) (take-append-drop n (b ∷ bs)))
  ]

module _ (w : Writer) (laws : WriterLaws w) (host : Endian) where
  open laws use {sent}

  three_runs :
      (fuel : ℕ) (m m' : Muxer w) (p : ComPacket)
      → send_packet w host fuel m p ≡ done m'
      → (r₁ : w.State × Bool × ℕ) × (r₂ : w.State × Bool × ℕ) × (r₃ : w.State × Bool × ℕ)
        × (write_bytes w fuel m.transport_error m.transport (word w host p.type) ≡ done r₁)
        × (write_bytes w fuel m.transport_error r₁.0 (word w host (get_data_size p)) ≡ done r₂)
        × (write_bytes w fuel m.transport_error r₂.0 p.contents ≡ done r₃)
        × (m' ≡ record m { transport = r₃.0; transport_error = not (r₁.1 && r₂.1 && r₃.1) })
  unfolding send_packet
  three_runs fuel m m' p h = elim (Bool-cases (p.type == invalid_packet)) [
    | inl e ↦ absurd (ground arith)
    | inr e ↦
        let h' = rw (e, send_packet) at h in
        let a =
          >>=-eq-done (write_bytes w fuel m.transport_error m.transport (word w host p.type)) _
            h' in
        let b =
          >>=-eq-done (write_bytes w fuel m.transport_error a.0.0 (word w host (get_data_size p))) _
            a.2 in
        let c = >>=-eq-done (write_bytes w fuel m.transport_error b.0.0 p.contents) _ b.2 in
        (a.0, b.0, c.0, a.1, b.1, c.1, cc (c.2))
  ]

  whole_run :
      (fuel : ℕ) (error : Bool) (s : w.State) (buffer : List ℕ) (r : w.State × Bool × ℕ)
      → write_bytes w fuel error s buffer ≡ done r
      → error ≡ false
      → r.1 ≡ true
      → sent r.0 ≡ sent s ++ buffer
  whole_run fuel error s buffer r h e ok =
      let h' : write_bytes w fuel false s buffer ≡ done (r.0, true, r.2) = rw (← e, ← ok) h in
      write_bytes_sent w laws fuel s r.0 buffer r.2 h'

  -- sendPacket that returns without an error has sent the frame of the packet.
  pub send_packet_sent :
      (fuel : ℕ) (m m' : Muxer w) (p : ComPacket)
      → m.transport_error ≡ false
      → send_packet w host fuel m p ≡ done m'
      → m'.transport_error ≡ false
      → sent m'.transport ≡ sent m.transport ++ frame p
  unfolding frame get_data_size
  send_packet_sent fuel m m' p calm h fine =
      let t = three_runs fuel m m' p h in
      let ok : not (t.0.1 && t.1.1 && t.2.1) ≡ false =
        sym (ap (λ (x : Muxer w). x.transport_error) t.6) ∙ fine in
      let e₁ = whole_run fuel m.transport_error m.transport _ t.0 t.3 calm (ground arith) in
      let e₂ = whole_run fuel m.transport_error t.0.0 _ t.1 t.4 calm (ground arith) in
      let e₃ = whole_run fuel m.transport_error t.1.0 _ t.2 t.5 calm (ground arith) in
      ap (λ (x : Muxer w). sent x.transport) t.6 ∙ simp (e₃, e₂, e₁, word_lem, append_assoc)

  calm_before :
      (fuel : ℕ) (m m' : Muxer w) (ps left : List ComPacket)
      → send_all w host fuel m ps ≡ done (m', left)
      → m'.transport_error ≡ false
      → m.transport_error ≡ false
  calm_before fuel m m' ps left h fine = elim (Bool-cases m.transport_error) [
    | inl e ↦ cc (send_all_halted w host fuel m ps e)
    | inr e ↦ e
  ]

  -- sendAll that returns without an error has sent the frames of the whole queue.
  pub send_all_sent :
      (fuel : ℕ) (m m' : Muxer w) (ps left : List ComPacket)
      → send_all w host fuel m ps ≡ done (m', left)
      → m'.transport_error ≡ false
      → (left ≡ [])
        × (sent m'.transport ≡ sent m.transport ++ frames ps)
        × (m'.tx_queues ≡ m.tx_queues)
  unfolding frames
  send_all_sent fuel m m' [] left h fine =
      let e : m ≡ m' = unfold send_all in cc in
      let e' : left ≡ [] = unfold send_all in cc in
      rw (← e) (e', sym (append-nil (sent m.transport)), refl)
  send_all_sent fuel m m' (p ∷ ps) left h fine =
      let calm = calm_before fuel m m' (p ∷ ps) left h fine in
      let run =
        >>=-eq-done (send_packet w host fuel m p) _
          (sym (send_all_next w host fuel m p ps calm) ∙ h) in
      let kept = send_packet-Keeps w host fuel m run.0 p run.1 in
      let ih = send_all_sent fuel (count_sent w host run.0) m' ps left run.2 fine in
      let first =
        send_packet_sent fuel m run.0 p calm run.1
          (calm_before fuel (count_sent w host run.0) m' ps left run.2 fine) in
      (ih.0, ih.1 ∙ rw first (append_assoc (sent m.transport) _ _), ih.2 ∙ kept.0.queues)

  -- A pass that returns without an error has emptied the queues that it visited into the transport.
  pub send_pass_sent :
      (fuel : ℕ) (order : List ℕ) (m m' : Muxer w)
      → Distinct order
      → send_pass w host fuel order m ≡ done m'
      → m'.transport_error ≡ false
      → (sent m'.transport ≡ sent m.transport ++ frames (in_order order m.tx_queues))
        × (m'.tx_queues ≡ cleared order m.tx_queues)
  unfolding in_order cleared
  send_pass_sent fuel [] m m' d h fine =
      let e : m ≡ m' = unfold send_pass in cc in
      rw (← e) (unfold frames in sym (append-nil (sent m.transport)), refl)
  send_pass_sent fuel (k ∷ order) m m' d h fine =
      let run =
        >>=-eq-done (send_all w host fuel m (queue k m.tx_queues)) _
          (sym (send_pass_step w host fuel k order m) ∙ h) in
      let m₁ = run.0.0 in
      let m₂ : Muxer w = record m₁ { tx_queues = put k run.0.1 m₁.tx_queues } in
      let calm : m₁.transport_error ≡ false = elim (Bool-cases m₁.transport_error) [
        | inl e ↦ cc (send_pass_halted w host fuel order m₂ e, run.2)
        | inr e ↦ e
      ] in
      let all = send_all_sent fuel m m₁ (queue k m.tx_queues) run.0.1 run.1 calm in
      let ih = send_pass_sent fuel order m₂ m' d.1 run.2 fine in
      let queues : m₂.tx_queues ≡ put k [] m.tx_queues = rw (all.0, all.2) refl in
      (
        ih.0
            ∙ rw (all.1, queues, in_order-put k order m.tx_queues d.0)
                (append_assoc (sent m.transport) _ _
                  ∙ ap (◌++◌ (sent m.transport)) (sym (frames-append (queue k m.tx_queues) _))),
        ih.1 ∙ ap (cleared order) queues,
      )
