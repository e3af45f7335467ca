-- ===== src/Network/Socket/Stream.antt =====
-- src/network/Socket.h as the transport of the two threads: Socket derives from AbstractWriter and
-- from AbstractReader.
use packetcomms.Base.{
  ℕ, zero, suc, append-nil, ◌≤◌, ◌<◌, ◌≡◌, ◌≢◌, ◌⊎◌, inl, inr, refl, sym, ◌∙◌, List, [], ◌++◌, Bool,
  true, false, Bool-cases, ℤ, pos, negsuc, minus_one, take, length, stuck, done, ◌+◌, ◌-◌, ◌==◌,
  arith,
}
use packetcomms.Wire.{Endian}
use packetcomms.Transport.{Writer, WriterLaws, Reader}
use packetcomms.Muxer.{write_bytes}
use packetcomms.Muxer.Write.{write_bytes_lem}
use packetcomms.Demuxer.{Demuxer, receive_packet}
use packetcomms.Demuxer.Faults.{receive_packet_hangs}
use packetcomms.Network.Posix.{Posix, Errno, pollin_event}
use packetcomms.Network.Socket.{
  would_block, mask_would_block, flag_of, has_event, read, write, set_blocking, ready_for_reading,
  wait_for_single_event,
}

abbrev pub socket_writer : Posix → ℤ → Writer
socket_writer k fd = record {
  State = k.State;
  set_blocking = set_blocking k fd;
  write = write k fd;
}

abbrev pub socket_reader : Posix → ℤ → Reader
socket_reader k fd = record {
  State = k.State;
  set_blocking = set_blocking k fd;
  read = read k fd;
  ready_for_reading = ready_for_reading k fd;
}

-- What send(2) and fcntl(2) document for a connected stream socket that does not block: a call takes
-- a prefix of the bytes and returns its length, or returns -1 and takes nothing. `patience` bounds
-- how often it has no room.
pub record SendsInOrder (k : Posix) (fd : ℤ) : Type 0 where
  pub sent : k.State → List ℕ
  pub patience : k.State → ℕ
  pub set : (s : k.State) (b : Bool) → sent (k.fcntl_setfl s fd (flag_of b)) ≡ sent s
  pub sends :
      (s : k.State) (bytes : List ℕ) (n : ℕ)
      → (k.send s fd bytes).returned ≡ pos n
      → (n ≤ length bytes)
        × (sent (k.send s fd bytes).state ≡ sent s ++ take n bytes)
        × (patience (k.send s fd bytes).state ≤ patience s)
  pub sends_some :
      (s : k.State) (bytes : List ℕ) → bytes ≢ [] → (k.send s fd bytes).returned ≢ pos 0
  pub fails :
      (s : k.State) (bytes : List ℕ) (n : ℕ)
      → (k.send s fd bytes).returned ≡ negsuc n
      → (sent (k.send s fd bytes).state ≡ sent s)
        × (patience (k.send s fd bytes).state ≤ patience s)
  pub blocks :
      (s : k.State) (bytes : List ℕ)
      → (k.send s fd bytes).returned ≡ minus_one
      → would_block (k.send s fd bytes).errno ≡ true
      → patience (k.send s fd bytes).state < patience s

-- A call that would have blocked counts as zero bytes, and any other result is as it was.
pub mask_cases :
    (n : ℤ) (e : Errno)
    → ((n ≡ minus_one) × (would_block e ≡ true) × (mask_would_block n e ≡ pos 0))
      ⊎ (mask_would_block n e ≡ n)
unfolding mask_would_block
mask_cases (pos n) e = inr refl
mask_cases (negsuc zero) e = elim (Bool-cases (would_block e)) [
  | inl b ↦ inl (refl, b, ground arith)
  | inr b ↦ inr (ground arith)
]
mask_cases (negsuc (suc n)) e = inr refl

module _ (k : Posix) (fd : ℤ) (v : SendsInOrder k fd) where
  pub accepted_lem :
      (s : k.State) (bytes : List ℕ) (n : ℕ)
      → (write k fd s bytes).1 ≡ pos n
      → (n ≤ length bytes)
        × (v.sent (write k fd s bytes).0 ≡ v.sent s ++ take n bytes)
        × (v.patience (write k fd s bytes).0 ≤ v.patience s)
  unfolding write
  accepted_lem s bytes n e =
      elim (mask_cases (k.send s fd bytes).returned (k.send s fd bytes).errno) [
        | inl (r, b, z) ↦
            let zero-eq : ◌≡◌ {A = ℕ} 0 n = cc in
            let f = v.fails s bytes 0 r in
            rw (← zero-eq) (omega arith, f.0 ∙ sym (append-nil (v.sent s)), f.1)
        | inr q ↦ v.sends s bytes n (sym q ∙ e)
      ]

  pub refused_lem :
      (s : k.State) (bytes : List ℕ) (n : ℕ)
      → (write k fd s bytes).1 ≡ negsuc n
      → (v.sent (write k fd s bytes).0 ≡ v.sent s)
        × (v.patience (write k fd s bytes).0 ≤ v.patience s)
  unfolding write
  refused_lem s bytes n e =
      elim (mask_cases (k.send s fd bytes).returned (k.send s fd bytes).errno) [
        | inl (r, b, z) ↦ cc
        | inr q ↦ v.fails s bytes n (sym q ∙ e)
      ]

  pub stalled_lem :
      (s : k.State) (bytes : List ℕ)
      → (write k fd s bytes).1 ≡ pos 0
      → bytes ≢ []
      → v.patience (write k fd s bytes).0 < v.patience s
  unfolding write
  stalled_lem s bytes e some =
      elim (mask_cases (k.send s fd bytes).returned (k.send s fd bytes).errno) [
        | inl (r, b, z) ↦ v.blocks s bytes r b
        | inr q ↦ absurd (v.sends_some s bytes some (sym q ∙ e))
      ]

  pub set_lem : (s : k.State) (b : Bool) → v.sent (set_blocking k fd s b) ≡ v.sent s
  unfolding set_blocking
  set_lem s b = v.set s b

  abbrev pub socket_writer_laws : WriterLaws (socket_writer k fd)
  socket_writer_laws = record {
    sent = v.sent;
    patience = v.patience;
    blocking_sent = set_lem;
    accepted = accepted_lem;
    refused = refused_lem;
    stalled = stalled_lem;
  }

  -- On a connected socket that sends in order, with no transport error before and fuel for every byte
  -- and every time that the socket has no room, the muxer's writeBytes returns, true exactly when no
  -- byte is left, and the socket has taken all the bytes but the last ones, which `size` counts.
  pub socket_write_bytes :
      (fuel : ℕ) (s : k.State) (buffer : List ℕ)
      → v.patience s + length buffer ≤ fuel
      → (s' : k.State) × (left : ℕ) × (write_bytes (socket_writer k fd) fuel false s buffer
          ≡ done (s', left == 0, left))
        × ((left ≤ length buffer)
            × (v.sent s' ≡ v.sent s ++ take (length buffer - left) buffer)
            × (v.patience s' ≤ v.patience s))
  socket_write_bytes fuel s buffer h =
      write_bytes_lem (socket_writer k fd) socket_writer_laws fuel s buffer h

module _ (k : Posix) (fd : ℤ) where
  -- recv(2) once the peer has closed its side of the connection: 0 for ever.
  abbrev pub IsClosed : Type 0
  IsClosed = (s : k.State) (max : ℕ) → (k.recv s fd max).returned ≡ pos 0

  closed_read : IsClosed → (s : k.State) (max : ℕ) → (read k fd s max).1 ≡ pos 0
  unfolding read mask_would_block
  closed_read closed s max = rw (closed s max) refl

  reported :
      (s : k.State) (ms : ℕ)
      → (k.poll s fd pollin_event ms).returned ≡ pos 1
      → (k.poll s fd pollin_event ms).revents.pollin ≡ true
      → (ready_for_reading k fd s ms).1 ≡ true
  unfolding ready_for_reading wait_for_single_event has_event
  reported s ms one readable = rw (one, readable) refl

  -- A socket whose peer has closed its side, and for which poll(2) reports that as readable: the
  -- demuxer's receivePacket does not return, whatever the fuel, if there is no transport error yet.
  pub socket_hangs :
      (host : Endian) (fuel ms : ℕ) (d : Demuxer (socket_reader k fd))
      → IsClosed
      → d.transport_error ≡ false
      → (k.poll d.transport fd pollin_event ms).returned ≡ pos 1
      → (k.poll d.transport fd pollin_event ms).revents.pollin ≡ true
      → receive_packet (socket_reader k fd) host fuel d ms ≡ stuck
  socket_hangs host fuel ms d closed calm one readable =
      receive_packet_hangs (socket_reader k fd) (closed_read closed) host fuel ms d calm
        (reported d.transport ms one readable)
