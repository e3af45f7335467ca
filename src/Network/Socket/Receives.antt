-- ===== src/Network/Socket/Receives.antt =====
-- src/network/Socket.h as the transport of the demuxer's thread, while the peer keeps its side open.
use packetcomms.Base.{
  ℕ, ◌≤◌, ◌<◌, ◌≡◌, ◌≢◌, inl, inr, sym, ap, ◌∙◌, List, [], ◌++◌, ◌+◌, Bool, true, false, ◌&&◌, ℤ,
  pos, negsuc, minus_one, length, done, some, arith,
}
use packetcomms.Wire.{Endian}
use packetcomms.ComPacket.{ComPacket}
use packetcomms.Frame.{frame, IsSendable}
use packetcomms.Transport.{ReaderLaws}
use packetcomms.Demuxer.{Demuxer, receive_packet}
use packetcomms.Demuxer.Receive.{receive_packet-frame}
use packetcomms.Network.Posix.{Posix, pollin_event}
use packetcomms.Network.Socket.{
  flag_of, set_blocking, would_block, mask_would_block, is_one, has_event, read, ready_for_reading,
  wait_for_single_event,
}
use packetcomms.Network.Socket.Stream.{socket_reader, mask_cases}

-- What recv(2), poll(2) and fcntl(2) document for a connected stream socket that does not block, while the
-- bytes `pending` are on their way: recv stores a prefix of them and returns its length, or returns
-- -1 where it would have blocked; it returns 0 only at the end of the stream. `patience` bounds how
-- often nothing has come yet.
pub record ReceivesInOrder (k : Posix) (fd : ℤ) : Type 0 where
  pub pending : k.State → List ℕ
  pub patience : k.State → ℕ
  pub set :
      (s : k.State) (b : Bool)
      → (pending (k.fcntl_setfl s fd (flag_of b)) ≡ pending s)
        × (patience (k.fcntl_setfl s fd (flag_of b)) ≤ patience s)
  pub receives :
      (s : k.State) (max n : ℕ)
      → (k.recv s fd max).returned ≡ pos n
      → (n ≤ max)
        × (length (k.recv s fd max).bytes ≡ n)
        × (pending s ≡ (k.recv s fd max).bytes ++ pending (k.recv s fd max).state)
        × (patience (k.recv s fd max).state ≤ patience s)
  pub receives_some :
      (s : k.State) (max : ℕ) → pending s ≢ [] → 0 < max → (k.recv s fd max).returned ≢ pos 0
  pub open_yet :
      (s : k.State) (max n : ℕ)
      → pending s ≢ []
      → (k.recv s fd max).returned ≡ negsuc n
      → (n ≡ 0) × (would_block (k.recv s fd max).errno ≡ true)
  pub blocks :
      (s : k.State) (max : ℕ)
      → (k.recv s fd max).returned ≡ minus_one
      → ((k.recv s fd max).bytes ≡ [])
        × (pending (k.recv s fd max).state ≡ pending s)
        × (patience (k.recv s fd max).state ≤ patience s)
        × (pending s ≢ [] → patience (k.recv s fd max).state < patience s)
  pub polls :
      (s : k.State) (ms : ℕ)
      → (pending (k.poll s fd pollin_event ms).state ≡ pending s)
        × (patience (k.poll s fd pollin_event ms).state ≤ patience s)
  pub polls_late :
      (s : k.State) (ms : ℕ)
      → (is_one (k.poll s fd pollin_event ms).returned
          && (k.poll s fd pollin_event ms).revents.pollin)
        ≡ false
      → pending s ≢ []
      → patience (k.poll s fd pollin_event ms).state < patience s

module _ (k : Posix) (fd : ℤ) (v : ReceivesInOrder k fd) where
  pub blocking_lem :
      (s : k.State) (b : Bool)
      → (v.pending (set_blocking k fd s b) ≡ v.pending s)
        × (v.patience (set_blocking k fd s b) ≤ v.patience s)
  unfolding set_blocking
  blocking_lem s b = v.set s b

  pub stored_lem :
      (s : k.State) (max n : ℕ)
      → (read k fd s max).1 ≡ pos n
      → (n ≤ max)
        × (length (read k fd s max).2 ≡ n)
        × (v.pending s ≡ (read k fd s max).2 ++ v.pending (read k fd s max).0)
        × (v.patience (read k fd s max).0 ≤ v.patience s)
  unfolding read
  stored_lem s max n e = elim (mask_cases (k.recv s fd max).returned (k.recv s fd max).errno) [
    | inl (r, b, z) ↦
        let zero-eq : ◌≡◌ {A = ℕ} 0 n = cc in
        let f = v.blocks s max r in
        rw (← zero-eq) (omega arith, ap length f.0, rw f.0 (sym f.1), f.2)
    | inr q ↦ v.receives s max n (sym q ∙ e)
  ]

  -- An error that would have blocked is not seen.
  masked :
      (s : k.State) (max n : ℕ)
      → (n ≡ 0) × (would_block (k.recv s fd max).errno ≡ true)
      → (read k fd s max).1 ≡ negsuc n
      → (k.recv s fd max).returned ≡ negsuc n
      → ⊥
  unfolding read mask_would_block
  masked s max n o e r = ground arith

  pub no_error_lem : (s : k.State) (max n : ℕ) → v.pending s ≢ [] → (read k fd s max).1 ≢ negsuc n
  unfolding read
  no_error_lem s max n more e =
      elim (mask_cases (k.recv s fd max).returned (k.recv s fd max).errno) [
        | inl (r, b, z) ↦ cc
        | inr q ↦ masked s max n (v.open_yet s max n more (sym q ∙ e)) e (sym q ∙ e)
      ]

  pub stalled_read :
      (s : k.State) (max : ℕ)
      → (read k fd s max).1 ≡ pos 0
      → v.pending s ≢ []
      → 0 < max
      → v.patience (read k fd s max).0 < v.patience s
  unfolding read
  stalled_read s max e more h =
      elim (mask_cases (k.recv s fd max).returned (k.recv s fd max).errno) [
        | inl (r, b, z) ↦ (v.blocks s max r).3 more
        | inr q ↦ absurd (v.receives_some s max more h (sym q ∙ e))
      ]

  pub waited_lem :
      (s : k.State) (ms : ℕ)
      → (v.pending (ready_for_reading k fd s ms).0 ≡ v.pending s)
        × (v.patience (ready_for_reading k fd s ms).0 ≤ v.patience s)
  unfolding ready_for_reading wait_for_single_event
  waited_lem s ms = v.polls s ms

  pub late_lem :
      (s : k.State) (ms : ℕ)
      → (ready_for_reading k fd s ms).1 ≡ false
      → v.pending s ≢ []
      → v.patience (ready_for_reading k fd s ms).0 < v.patience s
  unfolding ready_for_reading wait_for_single_event has_event
  late_lem s ms e more = v.polls_late s ms e more

  abbrev pub socket_reader_laws : ReaderLaws (socket_reader k fd)
  socket_reader_laws = record {
    pending = v.pending;
    patience = v.patience;
    blocking_pending = blocking_lem;
    stored = stored_lem;
    no_error = no_error_lem;
    stalled = stalled_read;
    waited = waited_lem;
    timed_out = late_lem;
  }

  -- On a connected socket that receives in order and is reported readable, with no transport error
  -- before and enough fuel, receivePacket returns the sendable packet whose frame is next on its way
  -- and leaves the bytes behind it.
  pub socket_receive_packet :
      (host : Endian) (fuel ms : ℕ) (d : Demuxer (socket_reader k fd)) (p : ComPacket)
      (rest : List ℕ)
      → d.transport_error ≡ false
      → IsSendable p
      → v.pending d.transport ≡ frame p ++ rest
      → (ready_for_reading k fd d.transport ms).1 ≡ true
      → v.patience d.transport + 4 + length p.contents ≤ fuel
      → (s : k.State) × (receive_packet (socket_reader k fd) host fuel d ms
          ≡ done (record d { transport = s }, some p))
        × (v.pending s ≡ rest)
        × (v.patience s ≤ v.patience d.transport)
  socket_receive_packet host fuel ms d p rest calm fits e ready h =
      receive_packet-frame (socket_reader k fd) socket_reader_laws host fuel ms d p rest calm fits e
        ready h
