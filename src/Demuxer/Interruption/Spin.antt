-- ===== src/Demuxer/Interruption/Spin.antt =====
-- receivePacket of src/PacketDemuxer.cpp in a read that brings nothing for ever, when the destructor
-- sets m_transportError.
use packetcomms.Base.{ℕ, zero, suc, ◌≡◌, refl, List, [], ◌++◌, true, false, none, done, arith}
use packetcomms.Wire.{Endian}
use packetcomms.Transport.{Reader}
use packetcomms.Demuxer.{Demuxer, receive_timeout}
use packetcomms.Demuxer.Faults.{IsHungUp}
use packetcomms.Demuxer.Interruption.{interrupted_read, interrupted_header, interrupted_packet}
use packetcomms.Demuxer.Thread.{
  System, idle, exited, waits_for, cut_off, interrupts, exits, Reach, here, next,
}

module _ (r : Reader) where
  -- A transport after this many reads into the word of the type.
  unfoldable pub spun : ℕ → r.State → r.State
  spun zero s = s
  spun (suc reads) s = spun reads (r.read s 4).0

  -- The receive thread between two rounds, and behind the loop.
  abbrev pub between : Demuxer r → System r
  between d = record { demuxer = d; phase = idle }

  abbrev pub behind_loop : Demuxer r → r.State → System r
  behind_loop d s = record {
    demuxer = record d { transport = s; transport_error = true };
    phase = exited;
  }

module _ (r : Reader) (quiet : IsHungUp r) where
  read_spins :
      (tests : ℕ) (s : r.State) (buffer : List ℕ)
      → (stored : List ℕ) × (interrupted_read r tests false s 4 buffer
          ≡ done (record { transport = spun r tests s; buffer = stored; tests_left = none }))
  unfolding interrupted_read spun
  read_spins zero s buffer = (buffer, refl)
  read_spins (suc tests) s buffer =
      let rest = read_spins tests (r.read s 4).0 (buffer ++ (r.read s 4).2) in
      (rest.0, ground (arith, quiet s 4, rest.1))

  packet_spins :
      (host : Endian) (tests ms : ℕ) (s : r.State)
      → (r.ready_for_reading s ms).1 ≡ true
      → interrupted_packet r host tests s ms
        ≡ done (spun r tests (r.ready_for_reading s ms).0, none)
  unfolding interrupted_packet interrupted_header
  packet_spins host tests ms s ready =
      rw (ready, (read_spins tests (r.ready_for_reading s ms).0 []).1) refl

  -- On a transport that reports itself ready and whose reads bring nothing, let the receive thread be
  -- between two rounds without a transport error. However many times it has tested the flag in the
  -- read of its next packet when the destructor sets it, it has made one read for each of those tests,
  -- receivePacket then returns false, and the thread leaves its loop, with the flag set, with the
  -- transport as those reads leave it, and with nothing else of the demuxer changed.
  pub spinning_thread_ends :
      (host : Endian) (fuel tests : ℕ) (d : Demuxer r)
      → d.transport_error ≡ false
      → (r.ready_for_reading d.transport receive_timeout).1 ≡ true
      → (interrupted_packet r host tests d.transport receive_timeout
          ≡ done (spun r tests (r.ready_for_reading d.transport receive_timeout).0, none))
        × Reach r host fuel
            (between r d)
            (behind_loop r d (spun r tests (r.ready_for_reading d.transport receive_timeout).0))
  unfolding waits_for cut_off
  spinning_thread_ends host fuel tests d calm ready =
      let x = spun r tests (r.ready_for_reading d.transport receive_timeout).0 in
      let cut = packet_spins host tests receive_timeout d.transport ready in
      (
        cut,
        next {t = between r (cut_off r x d)}
            (next here (interrupts tests receive_timeout x refl calm cut refl))
            (exits refl refl refl),
      )
