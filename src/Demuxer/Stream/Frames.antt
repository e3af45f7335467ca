-- ===== src/Demuxer/Stream/Frames.antt =====
-- What receivePacket takes from a stream of frames whenever it returns, whatever the fuel.
use packetcomms.Base.{
  ℕ, ◌≡◌, inl, inr, refl, sym, ap, ap₂, ◌∙◌, List, [], ◌∷◌, ◌++◌, false, Bool-cases, none, some,
  length, length-append, done, All, arith,
}
use packetcomms.Wire.{Endian, network_bytes, to_u32, load_u32, ntohl}
use packetcomms.Wire.ByteOrder.{length-network_bytes, ntohl-load_u32}
use packetcomms.ComPacket.{ComPacket}
use packetcomms.Frame.{frame, frames, IsSendable}
use packetcomms.Transport.{Reader, ReaderLaws}
use packetcomms.Demuxer.{Demuxer, receive_packet}
use packetcomms.Demuxer.Receive.{frame_parts, receive_ready, receive_timed_out}
use packetcomms.Demuxer.Stream.{GotPacket, receive_header_cases}

-- Two lists put together in two ways, of which the first parts are equally long.
append_injective :
    (xs xs' ys ys' : List ℕ)
    → xs ++ ys ≡ xs' ++ ys'
    → length xs ≡ length xs'
    → (xs ≡ xs') × (ys ≡ ys')
append_injective [] [] ys ys' e l = (refl, e)
append_injective [] (x ∷ xs') ys ys' e l = absurd (omega arith)
append_injective (x ∷ xs) [] ys ys' e l = absurd (omega arith)
append_injective (x ∷ xs) (x' ∷ xs') ys ys' e l =
    let head-eq : x ≡ x' = cc in
    let tail-eq : xs ++ ys ≡ xs' ++ ys' = cc in
    let l' : length xs ≡ length xs' = omega (arith, l) in
    let ih = append_injective xs xs' ys ys' tail-eq l' in (ap₂ ◌∷◌ head-eq ih.0, ih.1)

module _ (r : Reader) (laws : ReaderLaws r) (host : Endian) where
  open laws use {pending, waited}

  -- Header and data against the frame that was sent.
  same_packet :
      (q p : ComPacket) (b₁ b₂ rest after : List ℕ)
      → IsSendable q
      → length b₁ ≡ 4
      → length b₂ ≡ 4
      → p.type ≡ ntohl host (load_u32 host b₁)
      → length p.contents ≡ ntohl host (load_u32 host b₂)
      → frame q ++ rest ≡ b₁ ++ (b₂ ++ (p.contents ++ after))
      → (q ≡ p) × (rest ≡ after)
  same_packet q p b₁ b₂ rest after v l₁ l₂ t z e =
      let w₁ = network_bytes (to_u32 q.type) in
      let w₂ = network_bytes (to_u32 (length q.contents)) in
      let i₁ =
        append_injective w₁ b₁ _ _ (sym (frame_parts q rest) ∙ e)
          (length-network_bytes (to_u32 q.type) ∙ sym l₁) in
      let i₂ =
        append_injective w₂ b₂ _ _ i₁.1
          (length-network_bytes (to_u32 (length q.contents)) ∙ sym l₂) in
      let type-fits : to_u32 q.type ≡ q.type = omega (arith, v.type_fits) in
      let size-fits : to_u32 (length q.contents) ≡ length q.contents = omega (arith, v.size_fits) in
      let type-eq : q.type ≡ p.type = sym (
        t
        ∙ ap (λ b. ntohl host (load_u32 host b)) (sym i₁.0)
        ∙ ntohl-load_u32 host (to_u32 q.type) (omega arith)
        ∙ type-fits) in
      let size-eq : length q.contents ≡ length p.contents = sym (
        z
        ∙ ap (λ b. ntohl host (load_u32 host b)) (sym i₂.0)
        ∙ ntohl-load_u32 host (to_u32 (length q.contents)) (omega arith)
        ∙ size-fits) in
      let i₃ = append_injective q.contents p.contents rest after i₂.1 size-eq in
      (ap₂ (λ (k : ℕ) (bytes : List ℕ). record { type = k; contents = bytes }) type-eq i₃.0, i₃.1)

  next_packet :
      (d' : Demuxer r) (p : ComPacket) (ps : List ComPacket) (coming : List ℕ)
      → All IsSendable ps
      → coming ≡ frames ps
      → GotPacket r laws host coming d' (some p)
      → (ps' : List ComPacket) × (ps ≡ p ∷ ps')
        × (pending d'.transport ≡ frames ps')
        × (d'.transport_error ≡ false)
  unfolding frames
  next_packet d' p [] coming a e g = absurd (
      omega (
        arith,
        ap length (sym e ∙ g.7),
        length-append g.1 (g.2 ++ (p.contents ++ pending d'.transport)),
        g.3,
      ))
  next_packet d' p (q ∷ ps) coming a e g =
      let k =
        same_packet q p g.1 g.2 (frames ps) (pending d'.transport) a.0 g.3 g.4 g.5 g.6
          (sym e ∙ g.7) in
      (ps, ap (λ z. z ∷ ps) k.0, sym k.1, g.0)

  -- Whenever receivePacket returns from a stream of frames with a packet, it is the first of them, and
  -- the stream goes on behind it.
  pub receive_packet_next :
      (fuel ms : ℕ) (d d' : Demuxer r) (p : ComPacket) (ps : List ComPacket)
      → d.transport_error ≡ false
      → All IsSendable ps
      → pending d.transport ≡ frames ps
      → receive_packet r host fuel d ms ≡ done (d', some p)
      → (ps' : List ComPacket) × (ps ≡ p ∷ ps')
        × (pending d'.transport ≡ frames ps')
        × (d'.transport_error ≡ false)
  receive_packet_next fuel ms d d' p ps calm a e h =
      let d₀ : Demuxer r = record d { transport = (r.ready_for_reading d.transport ms).0 } in
      elim (Bool-cases (r.ready_for_reading d.transport ms).1) [
        | inl y ↦
            let g =
              receive_header_cases r laws host fuel d₀ d' (some p) calm
                (sym (receive_ready r laws host fuel ms d y) ∙ h) in
            next_packet d' p ps (pending d₀.transport) a ((waited d.transport ms).0 ∙ e) g
        | inr n ↦ let late = receive_timed_out r laws host fuel ms d n in absurd cc
      ]

  -- Whenever it returns without a packet and without an error, nothing was taken from the stream.
  pub receive_packet-none :
      (fuel ms : ℕ) (d d' : Demuxer r)
      → d.transport_error ≡ false
      → d'.transport_error ≡ false
      → receive_packet r host fuel d ms ≡ done (d', none)
      → pending d'.transport ≡ pending d.transport
  receive_packet-none fuel ms d d' calm calm' h =
      let d₀ : Demuxer r = record d { transport = (r.ready_for_reading d.transport ms).0 } in
      elim (Bool-cases (r.ready_for_reading d.transport ms).1) [
        | inl y ↦
            let g =
              receive_header_cases r laws host fuel d₀ d' none calm
                (sym (receive_ready r laws host fuel ms d y) ∙ h) in
            absurd cc
        | inr n ↦
            let same : d₀ ≡ d' = cc (receive_timed_out r laws host fuel ms d n, h) in
            ap (λ (x : Demuxer r). pending x.transport) (sym same) ∙ (waited d.transport ms).0
      ]
