-- ===== src/Demuxer/Interruption.antt =====
-- receivePacket of src/PacketDemuxer.cpp while another thread sets m_transportError: how many more
-- tests of the flag still find it unset is an argument.
pub mod Completed
pub mod Spin
use packetcomms.Base.{
  length, ℕ, zero, suc, ◌-◌, ◌≤◌, ◌≡◌, ◌≢◌, refl, sym, ap, ◌∙◌, List, [], ◌++◌, Bool, true, false,
  Bool-cases, ◌&&◌, pos, negsuc, ℤ-cases, inl, inr, Option, Option-cases, none, some, ltb, ◌==◌,
  if◌then◌else◌, Outcome, done, aborts, faults, stuck, ◌>>=◌, >>=-eq-done, arith,
}
use packetcomms.Wire.{Endian, load_u32, ntohl}
use packetcomms.IdManager.{invalid_packet}
use packetcomms.ComPacket.{ComPacket, preallocated, get_data_size}
use packetcomms.Transport.{Reader}
use packetcomms.Demuxer.{
  in_room, Demuxer, ReadRun, read_bytes, receive_data, receive_header, receive_packet,
}

-- What a run of readBytes leaves: the transport, the bytes stored, and how many more tests find the
-- flag unset, if it returned true. Where it returned false the flag is set.
pub record Run (r : Reader) : Type 0 where
  pub transport : r.State
  pub buffer : List ℕ
  pub tests_left : Option ℕ

module _ (r : Reader) where
  -- The loop of readBytes and the test behind it, with `tests` more tests of the flag before it is set.
  -- `size > 0` is tested first, so that each round, and the end, has one test of the flag.
  unfoldable pub interrupted_read : ℕ → Bool → r.State → ℕ → List ℕ → Outcome (Run r)
  interrupted_read zero on_zero s size buffer =
      done (record { transport = s; buffer = buffer; tests_left = none })
  interrupted_read (suc tests) on_zero s zero buffer =
      done (record { transport = s; buffer = buffer; tests_left = some tests })
  interrupted_read (suc tests) on_zero s (suc size) buffer =
      let s' = (r.read s (suc size)).0 in
      let failed : Outcome (Run r) =
        done (record { transport = s'; buffer = buffer; tests_left = none }) in
      elim (r.read s (suc size)).1 [
        | negsuc n ↦ failed
        | pos n ↦
            let rest =
              interrupted_read tests on_zero s' (suc size - n)
                (buffer ++ (r.read s (suc size)).2) in
            if n == 0 && on_zero then failed else if ltb (suc size) n then faults else rest
      ]

module _ (r : Reader) (host : Endian) where
  -- A return of false, or what is done with the tests that are left.
  abbrev pub unless_interrupted :
      Run r → (ℕ → Outcome (r.State × Option ComPacket)) → Outcome (r.State × Option ComPacket)
  unless_interrupted run k = elim run.tests_left [
    | none ↦ done (run.transport, none)
    | some tests ↦ k tests
  ]

  unfoldable pub interrupted_data : ℕ → r.State → ℕ → ℕ → Outcome (r.State × Option ComPacket)
  interrupted_data tests s type size = do
    p ← preallocated type size
    run ←
        in_room (length p.contents) (get_data_size p)
          (interrupted_read r tests false s (get_data_size p) [])
    unless_interrupted run λ _.
        if p.type == invalid_packet
        then aborts
        else done (run.transport, some (record p { contents = run.buffer }))

  unfoldable pub interrupted_header : ℕ → r.State → Outcome (r.State × Option ComPacket)
  interrupted_header tests s = do
    run₁ ← in_room 4 4 (interrupted_read r tests false s 4 [])
    unless_interrupted run₁ λ tests₁. do
      run₂ ← in_room 4 4 (interrupted_read r tests₁ false run₁.transport 4 [])
      unless_interrupted run₂ λ tests₂.
          interrupted_data tests₂ run₂.transport (ntohl host (load_u32 host run₁.buffer))
            (ntohl host (load_u32 host run₂.buffer))

  -- The flag is unset when receivePacket is called. `none` is a return of false.
  unfoldable pub interrupted_packet : ℕ → r.State → ℕ → Outcome (r.State × Option ComPacket)
  interrupted_packet tests s ms =
      let waited = (r.ready_for_reading s ms).0 in
      if (r.ready_for_reading s ms).1 then interrupted_header tests waited else done (waited, none)
