-- ===== src/Demuxer/Receive.antt =====
-- receivePacket against the frames that sendPacket writes.
use packetcomms.Base.{
  ℕ, ◌+◌, ◌≤◌, ◌<◌, ◌^◌, ◌≡◌, refl, ◌∙◌, List, [], ◌++◌, append_assoc, true, false, none, some,
  length, length-replicate, done, arith,
}
use packetcomms.Wire.{Endian, network_bytes, to_u32}
use packetcomms.Wire.ByteOrder.{length-network_bytes, ntohl-load_u32}
use packetcomms.ComPacket.{ComPacket, preallocated, get_data_size}
use packetcomms.Frame.{frame, IsSendable}
use packetcomms.Transport.{Reader, ReaderLaws}
use packetcomms.Demuxer.{Demuxer, read_bytes, receive_data, receive_header, receive_packet}
use packetcomms.Demuxer.Read.{complete, read_bytes_lem}

pub frame_parts :
    (p : ComPacket) (rest : List ℕ)
    → frame p ++ rest
      ≡ network_bytes (to_u32 p.type)
        ++ (network_bytes (to_u32 (length p.contents)) ++ (p.contents ++ rest))
unfolding frame
frame_parts p rest = simp append_assoc

module _ (r : Reader) (laws : ReaderLaws r) (host : Endian) where
  open laws use {pending, patience, waited}

  data_run :
      (fuel : ℕ) (d : Demuxer r) (s : r.State) (p : ComPacket)
      → d.transport_error ≡ false
      → IsSendable p
      → read_bytes r fuel false false d.transport (length p.contents) []
        ≡ done (complete r laws s p.contents)
      → receive_data r host fuel d p.type (length p.contents)
        ≡ done (record d { transport = s }, some p)
  unfolding receive_data preallocated get_data_size
  data_run fuel d s p calm v e = ground (arith, length-replicate {A = ℕ} (length p.contents) 0)

  pub header_runs :
      (fuel : ℕ) (d : Demuxer r) (s₁ s₂ : r.State) (type size : ℕ)
      → d.transport_error ≡ false
      → type < 2 ^ 32
      → size < 2 ^ 32
      → read_bytes r fuel false false d.transport 4 []
        ≡ done (complete r laws s₁ (network_bytes (to_u32 type)))
      → read_bytes r fuel false false s₁ 4 []
        ≡ done (complete r laws s₂ (network_bytes (to_u32 size)))
      → receive_header r host fuel d
        ≡ receive_data r host fuel (record d { transport = s₂ }) type size
  unfolding receive_header
  header_runs fuel d s₁ s₂ type size calm t z e₁ e₂ =
      let type-eq : to_u32 type ≡ type = omega arith in
      let size-eq : to_u32 size ≡ size = omega arith in
      ground (
        arith,
        ntohl-load_u32 host (to_u32 type) (omega arith),
        ntohl-load_u32 host (to_u32 size) (omega arith),
      )

  -- Where the frame of a packet is on its way, the header and the data are read whole: the packet
  -- is the one that was framed, and the reading stops behind its last byte.
  pub receive_header_lem :
      (fuel : ℕ) (d : Demuxer r) (p : ComPacket) (rest : List ℕ)
      → d.transport_error ≡ false
      → IsSendable p
      → pending d.transport ≡ frame p ++ rest
      → patience d.transport + 4 + length p.contents ≤ fuel
      → (s : r.State) × (receive_header r host fuel d ≡ done (record d { transport = s }, some p))
        × (pending s ≡ rest)
        × (patience s ≤ patience d.transport)
  receive_header_lem fuel d p rest calm v e h =
      let w₁ = network_bytes (to_u32 p.type) in
      let w₂ = network_bytes (to_u32 (length p.contents)) in
      let r₁ =
        read_bytes_lem r laws fuel 4 d.transport [] w₁ (w₂ ++ (p.contents ++ rest))
          (e ∙ frame_parts p rest) (length-network_bytes (to_u32 p.type)) (omega arith) in
      let r₂ =
        read_bytes_lem r laws fuel 4 r₁.0 [] w₂ (p.contents ++ rest) r₁.2
          (length-network_bytes (to_u32 (length p.contents))) (omega arith) in
      let r₃ =
        read_bytes_lem r laws fuel (length p.contents) r₂.0 [] p.contents rest r₂.2 refl
          (omega arith) in
      (
        r₃.0,
        header_runs fuel d r₁.0 r₂.0 p.type (length p.contents) calm v.type_fits
              (omega (arith, v.size_fits)) r₁.1 r₂.1
            ∙ data_run fuel (record d { transport = r₂.0 }) r₃.0 p calm v r₃.1,
        r₃.2,
        omega arith,
      )

  pub receive_ready :
      (fuel ms : ℕ) (d : Demuxer r)
      → (r.ready_for_reading d.transport ms).1 ≡ true
      → receive_packet r host fuel d ms
        ≡ receive_header r host fuel
            (record d { transport = (r.ready_for_reading d.transport ms).0 })
  unfolding receive_packet
  receive_ready fuel ms d e = rw (e, receive_packet)

  pub receive_timed_out :
      (fuel ms : ℕ) (d : Demuxer r)
      → (r.ready_for_reading d.transport ms).1 ≡ false
      → receive_packet r host fuel d ms
        ≡ done (record d { transport = (r.ready_for_reading d.transport ms).0 }, none)
  unfolding receive_packet
  receive_timed_out fuel ms d e = rw (e, receive_packet)

  -- Where the next bytes on their way are the frame of a sendable packet, there is no transport
  -- error, the transport is ready, and the fuel is enough, receivePacket returns that packet and
  -- leaves the bytes that follow the frame for the next call.
  pub receive_packet-frame :
      (fuel ms : ℕ) (d : Demuxer r) (p : ComPacket) (rest : List ℕ)
      → d.transport_error ≡ false
      → IsSendable p
      → pending d.transport ≡ frame p ++ rest
      → (r.ready_for_reading d.transport ms).1 ≡ true
      → patience d.transport + 4 + length p.contents ≤ fuel
      → (s : r.State) × (receive_packet r host fuel d ms
          ≡ done (record d { transport = s }, some p))
        × (pending s ≡ rest)
        × (patience s ≤ patience d.transport)
  receive_packet-frame fuel ms d p rest calm v e ready h =
      let w = waited d.transport ms in
      let d' : Demuxer r = record d { transport = (r.ready_for_reading d.transport ms).0 } in
      let got = receive_header_lem fuel d' p rest calm v (w.0 ∙ e) (omega arith) in
      (got.0, receive_ready fuel ms d ready ∙ got.1, got.2, omega arith)
