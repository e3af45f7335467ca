-- ===== src/Muxer/Send.antt =====
-- sendPacket on a transport that keeps its laws: a frame, or a transport error.
use packetcomms.Base.{
  ℕ, ◌+◌, ◌-◌, ◌≤◌, ◌≡◌, ◌≢◌, ap, ◌∙◌, List, ◌++◌, append_assoc, Bool, true, false, not, ◌&&◌,
  length, take_all, ◌==◌, done, arith,
}
use packetcomms.Wire.{Endian, htonl, to_u32, network_bytes}
use packetcomms.Wire.ByteOrder.{store_u32-htonl, length-store_u32}
use packetcomms.ComPacket.{ComPacket, get_data_size}
use packetcomms.Frame.{frame}
use packetcomms.Transport.{Writer, WriterLaws}
use packetcomms.Muxer.{Muxer, write_bytes, send_packet, word}
use packetcomms.Muxer.Write.{Wrote, write_bytes_lem}

module _ (w : Writer) (laws : WriterLaws w) (host : Endian) where
  open laws use {sent, patience}

  -- A run that was complete sent the whole buffer.
  Wrote-whole :
      (s s' : w.State) (buffer : List ℕ) (left : ℕ)
      → Wrote w laws s buffer s' left
      → (left == 0) ≡ true
      → sent s' ≡ sent s ++ buffer
  Wrote-whole s s' buffer left r h =
      r.1 ∙ ap (◌++◌ (sent s)) (take_all (length buffer - left) buffer (ground arith))

  pub word_lem : (v : ℕ) → word w host v ≡ network_bytes (to_u32 v)
  word_lem v = store_u32-htonl host (to_u32 v) (omega arith)

  Wrote-frame :
      (s s₁ s₂ s₃ : w.State) (p : ComPacket) (left₁ left₂ left₃ : ℕ)
      → Wrote w laws s (word w host p.type) s₁ left₁
      → Wrote w laws s₁ (word w host (get_data_size p)) s₂ left₂
      → Wrote w laws s₂ p.contents s₃ left₃
      → not ((left₁ == 0) && (left₂ == 0) && (left₃ == 0)) ≡ false
      → sent s₃ ≡ sent s ++ frame p
  unfolding frame get_data_size
  Wrote-frame s s₁ s₂ s₃ p left₁ left₂ left₃ r₁ r₂ r₃ h =
      let e₁ = Wrote-whole s s₁ _ left₁ r₁ (ground arith) in
      let e₂ = Wrote-whole s₁ s₂ _ left₂ r₂ (ground arith) in
      let e₃ = Wrote-whole s₂ s₃ _ left₃ r₃ (ground arith) in
      simp (e₃, e₂, e₁, word_lem, append_assoc)

  three_runs :
      (m : Muxer w) (p : ComPacket) (fuel : ℕ) (s₁ s₂ s₃ : w.State) (left₁ left₂ left₃ : ℕ)
      → m.transport_error ≡ false
      → p.type ≢ 0
      → write_bytes w fuel false m.transport (word w host p.type) ≡ done (s₁, left₁ == 0, left₁)
      → write_bytes w fuel false s₁ (word w host (get_data_size p)) ≡ done (s₂, left₂ == 0, left₂)
      → write_bytes w fuel false s₂ p.contents ≡ done (s₃, left₃ == 0, left₃)
      → send_packet w host fuel m p
        ≡ done (record m {
          transport = s₃;
          transport_error = not ((left₁ == 0) && (left₂ == 0) && (left₃ == 0));
        })
  unfolding send_packet
  three_runs m p fuel s₁ s₂ s₃ left₁ left₂ left₃ calm valid e₁ e₂ e₃ = ground arith

  -- With no transport error before, a valid type, and fuel for the payload, a header word and every
  -- stall, sendPacket returns and changes the transport and the error flag alone. Unless it leaves an
  -- error, the transport has taken exactly the frame of the packet.
  pub send_packet_lem :
      (fuel : ℕ) (m : Muxer w) (p : ComPacket)
      → m.transport_error ≡ false
      → p.type ≢ 0
      → patience m.transport + 4 + length p.contents ≤ fuel
      → (s : w.State) × (error : Bool) × (send_packet w host fuel m p
          ≡ done (record m { transport = s; transport_error = error }))
        × (error ≡ false → sent s ≡ sent m.transport ++ frame p)
        × (patience s ≤ patience m.transport)
  send_packet_lem fuel m p calm valid h =
      let t₁ = word w host p.type in
      let t₂ = word w host (get_data_size p) in
      let long₁ = length-store_u32 host (htonl host (to_u32 p.type)) in
      let long₂ = length-store_u32 host (htonl host (to_u32 (get_data_size p))) in
      let r₁ = write_bytes_lem w laws fuel m.transport t₁ (omega arith) in
      let r₂ = write_bytes_lem w laws fuel r₁.0 t₂ (omega arith) in
      let r₃ = write_bytes_lem w laws fuel r₂.0 p.contents (omega arith) in
      (
        r₃.0,
        not ((r₁.1 == 0) && (r₂.1 == 0) && (r₃.1 == 0)),
        three_runs m p fuel r₁.0 r₂.0 r₃.0 r₁.1 r₂.1 r₃.1 calm valid r₁.2 r₂.2 r₃.2,
        Wrote-frame m.transport r₁.0 r₂.0 r₃.0 p r₁.1 r₂.1 r₃.1 r₁.3 r₂.3 r₃.3,
        omega arith,
      )
