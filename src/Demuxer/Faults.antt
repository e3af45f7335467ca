-- ===== src/Demuxer/Faults.antt =====
-- Input on which the receive thread does not return: what a peer can do to it.
use packetcomms.Base.{
  ℕ, zero, suc, ◌+◌, ◌≤◌, ◌<◌, ◌^◌, ◌≡◌, refl, ◌∙◌, List, [], ◌++◌, true, false, pos, length,
  length-replicate, done, throws, aborts, stuck, arith,
}
use packetcomms.Wire.{Endian, IsU32, network_bytes, to_u32}
use packetcomms.Wire.ByteOrder.{length-network_bytes}
use packetcomms.ComPacket.{preallocated, get_data_size}
use packetcomms.Transport.{Reader, ReaderLaws}
use packetcomms.Demuxer.{Demuxer, read_bytes, receive_data, receive_header, receive_packet}
use packetcomms.Demuxer.Read.{complete, read_bytes_lem}
use packetcomms.Demuxer.Receive.{header_runs, receive_ready}

-- A transport on which every read brings nothing and gives no error, as a Socket's read does once
-- the peer has closed its side: recv returns 0 there, which is also what read returns when nothing
-- has come yet.
abbrev pub IsHungUp : Reader → Type 0
IsHungUp r = (s : r.State) (max : ℕ) → (r.read s max).1 ≡ pos 0

module _ (r : Reader) (quiet : IsHungUp r) where
  -- Then readBytes does not return, however long it runs, and m_transportError is never set.
  pub read_bytes_hangs :
      (fuel size : ℕ) (s : r.State) (buffer : List ℕ)
      → 0 < size
      → read_bytes r fuel false false s size buffer ≡ stuck
  unfolding read_bytes
  read_bytes_hangs fuel zero s buffer h = absurd (omega arith)
  read_bytes_hangs zero (suc size) s buffer h = refl
  read_bytes_hangs (suc fuel) (suc size) s buffer h = ground (
    arith,
    quiet s (suc size),
    read_bytes_hangs fuel (suc size) (r.read s (suc size)).0 (buffer ++ (r.read s (suc size)).2),
  )

  -- On such a transport, if the wait for the next packet reports it ready and there is no transport
  -- error, receivePacket does not return, whatever the fuel.
  pub receive_packet_hangs :
      (host : Endian) (fuel ms : ℕ) (d : Demuxer r)
      → d.transport_error ≡ false
      → (r.ready_for_reading d.transport ms).1 ≡ true
      → receive_packet r host fuel d ms ≡ stuck
  unfolding receive_packet receive_header
  receive_packet_hangs host fuel ms d calm ready =
      ground (arith, read_bytes_hangs fuel 4 (r.ready_for_reading d.transport ms).0 [])

module _ (r : Reader) (laws : ReaderLaws r) (host : Endian) where
  open laws use {pending, patience, waited}

  throwing_data :
      (fuel : ℕ) (d : Demuxer r) (type size : ℕ)
      → 2 ^ 31 ≤ size
      → receive_data r host fuel d type size ≡ throws
  unfolding receive_data preallocated
  throwing_data fuel d type size h = ground arith

  header_lem :
      (fuel ms : ℕ) (d : Demuxer r) (type size : ℕ) (rest : List ℕ)
      → d.transport_error ≡ false
      → IsU32 type
      → IsU32 size
      → pending d.transport ≡ network_bytes type ++ (network_bytes size ++ rest)
      → (r.ready_for_reading d.transport ms).1 ≡ true
      → patience d.transport + 4 ≤ fuel
      → (s : r.State) × (receive_packet r host fuel d ms
          ≡ receive_data r host fuel (record d { transport = s }) type size)
        × (pending s ≡ rest)
        × (patience s ≤ patience d.transport)
  header_lem fuel ms d type size rest calm t z e ready hf =
      let w = waited d.transport ms in
      let d₀ : Demuxer r = record d { transport = (r.ready_for_reading d.transport ms).0 } in
      let type-eq : to_u32 type ≡ type = omega arith in
      let size-eq : to_u32 size ≡ size = omega arith in
      let r₁ =
        read_bytes_lem r laws fuel 4 d₀.transport [] (network_bytes (to_u32 type))
          (network_bytes (to_u32 size) ++ rest) (w.0 ∙ rw (type-eq, size-eq) e)
          (length-network_bytes (to_u32 type)) (omega arith) in
      let r₂ =
        read_bytes_lem r laws fuel 4 r₁.0 [] (network_bytes (to_u32 size)) rest r₁.2
          (length-network_bytes (to_u32 size)) (omega arith) in
      (
        r₂.0,
        receive_ready r laws host fuel ms d ready
            ∙ header_runs r laws host fuel d₀ r₁.0 r₂.0 type size calm t z r₁.1 r₂.1,
        r₂.2,
        omega arith,
      )

  -- A header that is on its way and announces 2^31 bytes or more makes receivePacket throw, from the
  -- packet's constructor, if the transport is ready and has no error and the fuel is enough.
  pub receive_packet_throws :
      (fuel ms : ℕ) (d : Demuxer r) (type size : ℕ) (rest : List ℕ)
      → d.transport_error ≡ false
      → IsU32 type
      → IsU32 size
      → 2 ^ 31 ≤ size
      → pending d.transport ≡ network_bytes type ++ (network_bytes size ++ rest)
      → (r.ready_for_reading d.transport ms).1 ≡ true
      → patience d.transport + 4 ≤ fuel
      → receive_packet r host fuel d ms ≡ throws
  receive_packet_throws fuel ms d type size rest calm t z big e ready hf =
      let got = header_lem fuel ms d type size rest calm t z e ready hf in
      got.1 ∙ throwing_data fuel (record d { transport = got.0 }) type size big

  invalid_data :
      (fuel : ℕ) (d : Demuxer r) (s : r.State) (bytes : List ℕ)
      → d.transport_error ≡ false
      → length bytes < 2 ^ 31
      → read_bytes r fuel false false d.transport (length bytes) [] ≡ done (complete r laws s bytes)
      → receive_data r host fuel d 0 (length bytes) ≡ aborts
  unfolding receive_data preallocated get_data_size
  invalid_data fuel d s bytes calm h e = ground (arith, length-replicate {A = ℕ} (length bytes) 0)

  -- A packet of the invalid type and fewer than 2^31 bytes fails the assert of receivePacket once it
  -- has come in, if the transport is ready and has no error and the fuel is enough.
  pub receive_packet_aborts :
      (fuel ms : ℕ) (d : Demuxer r) (bytes rest : List ℕ)
      → d.transport_error ≡ false
      → length bytes < 2 ^ 31
      → pending d.transport ≡ network_bytes 0 ++ (network_bytes (length bytes) ++ (bytes ++ rest))
      → (r.ready_for_reading d.transport ms).1 ≡ true
      → patience d.transport + 4 + length bytes ≤ fuel
      → receive_packet r host fuel d ms ≡ aborts
  receive_packet_aborts fuel ms d bytes rest calm short e ready hf =
      let got =
        header_lem fuel ms d 0 (length bytes) (bytes ++ rest) calm (omega arith) (omega arith) e
          ready (omega arith) in
      let run =
        read_bytes_lem r laws fuel (length bytes) got.0 [] bytes rest got.2 refl
          (omega (arith, got.3)) in
      got.1 ∙ invalid_data fuel (record d { transport = got.0 }) run.0 bytes calm short run.1
