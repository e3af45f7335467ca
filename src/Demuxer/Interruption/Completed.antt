-- ===== src/Demuxer/Interruption/Completed.antt =====
-- A receivePacket that returns before m_transportError is set, as one that nobody interrupts.
use packetcomms.Base.{
  ℕ, zero, suc, ◌-◌, ◌≤◌, ◌<◌, ◌≡◌, ◌≢◌, refl, sym, ap, ◌∙◌, List, [], ◌++◌, true, false,
  Bool-cases, pos, negsuc, ℤ-cases, inl, inr, Option, Option-cases, none, some, ltb, if◌then◌else◌,
  Outcome, done, faults, >>=-eq-done, arith,
}
use packetcomms.Wire.{Endian}
use packetcomms.ComPacket.{ComPacket, preallocated, get_data_size}
use packetcomms.Transport.{Reader}
use packetcomms.Demuxer.{
  in_room-get_data_size, Demuxer, ReadRun, read_bytes, receive_data, receive_header, receive_packet,
}
use packetcomms.Demuxer.Interruption.{
  Run, unless_interrupted, interrupted_read, interrupted_data, interrupted_header,
  interrupted_packet,
}

module _ (r : Reader) where
  -- A run that nobody interrupts and that returns true.
  abbrev whole : Run r → ReadRun r
  whole run = record {
    transport = run.transport;
    transport_error = false;
    success = true;
    left = 0;
    buffer = run.buffer;
  }

  some_injective : {m n : ℕ} → some m ≡ some n → m ≡ n
  some_injective e = cc

  -- The transport and the bytes after one more read.
  abbrev pub read_on : r.State → ℕ → r.State
  read_on s size = (r.read s (suc size)).0

  abbrev pub stored_by : r.State → ℕ → List ℕ
  stored_by s size = (r.read s (suc size)).2

  pub interrupted_fails :
      (tests size n : ℕ) (s : r.State) (buffer : List ℕ)
      → (r.read s (suc size)).1 ≡ negsuc n
      → interrupted_read r (suc tests) false s (suc size) buffer
        ≡ done (record { transport = read_on s size; buffer = buffer; tests_left = none })
  unfolding interrupted_read
  interrupted_fails tests size n s buffer q = ground arith

  pub interrupted_step :
      (tests size n : ℕ) (s : r.State) (buffer : List ℕ)
      → (r.read s (suc size)).1 ≡ pos n
      → interrupted_read r (suc tests) false s (suc size) buffer ≡ (
          if ltb (suc size) n
          then faults
          else interrupted_read r tests false
              (read_on s size)
              (suc size - n)
              (buffer ++ stored_by s size))
  unfolding interrupted_read
  interrupted_step tests size n s buffer q = ground arith

  whole_step :
      (fuel size n : ℕ) (s : r.State) (buffer : List ℕ)
      → (r.read s (suc size)).1 ≡ pos n
      → ltb (suc size) n ≡ false
      → read_bytes r (suc fuel) false false s (suc size) buffer
        ≡ read_bytes r fuel false false (read_on s size) (suc size - n) (buffer ++ stored_by s size)
  unfolding read_bytes
  whole_step fuel size n s buffer q b = ground arith

  tests_of :
      (x : r.State) (buffer : List ℕ) (left : Option ℕ) (run : Run r)
      → done (record { transport = x; buffer = buffer; tests_left = left }) ≡ done run
      → (record { transport = x; buffer = buffer; tests_left = left } ≡ run)
        × (left ≡ run.tests_left)
  tests_of x buffer left run e =
      let same : record { transport = x; buffer = buffer; tests_left = left } ≡ run = cc in
      (same, ap (λ (y : Run r). y.tests_left) same)

  not_both : {n : ℕ} → none ≢ some n
  not_both e = cc

  faults_done : (run : Run r) → faults ≢ done run
  faults_done run e = cc

  read_none :
      (fuel : ℕ) (s : r.State) (buffer : List ℕ)
      → read_bytes r fuel false false s 0 buffer
        ≡ done (whole (record { transport = s; buffer = buffer; tests_left = none }))
  unfolding read_bytes
  read_none zero s buffer = refl
  read_none (suc fuel) s buffer = refl

  read_completed :
      (tests fuel size left : ℕ) (s : r.State) (buffer : List ℕ) (run : Run r)
      → interrupted_read r tests false s size buffer ≡ done run
      → run.tests_left ≡ some left
      → tests ≤ fuel
      → (left < tests) × (read_bytes r fuel false false s size buffer ≡ done (whole run))
  read_completed zero fuel size left s buffer run h e l =
      let stop = tests_of s buffer none run (unfold interrupted_read in h) in
      absurd (not_both (stop.1 ∙ e))
  read_completed (suc tests) fuel zero left s buffer run h e l =
      let stop = tests_of s buffer (some tests) run (unfold interrupted_read in h) in
      let n = some_injective (stop.1 ∙ e) in (omega arith, rw (← stop.0) (read_none fuel s buffer))
  read_completed (suc tests) zero (suc size) left s buffer run h e l = absurd (omega arith)
  read_completed (suc tests) (suc fuel) (suc size) left s buffer run h e l =
      elim (ℤ-cases (r.read s (suc size)).1) [
        | inl (n, q) ↦
            let again = sym (interrupted_step tests size n s buffer q) ∙ h in
            elim (Bool-cases (ltb (suc size) n)) [
              | inl b ↦ absurd (faults_done run (rw b at again))
              | inr b ↦
                  let ih =
                    read_completed tests fuel (suc size - n) left (read_on s size)
                      (buffer ++ stored_by s size) run (rw b at again) e (omega arith) in
                  (omega (arith, ih.0), whole_step fuel size n s buffer q b ∙ ih.1)
            ]
        | inr (n, q) ↦
            let failed = sym (interrupted_fails tests size n s buffer q) ∙ h in
            absurd (not_both ((tests_of (read_on s size) buffer none run failed).1 ∙ e))
      ]

module _ (r : Reader) (host : Endian) where
  -- The demuxer once the transport has been read from, without a transport error.
  abbrev pub read_from : Demuxer r → r.State → Demuxer r
  read_from d x = record d { transport = x; transport_error = false }

  no_packet :
      (x y : r.State) (p : ComPacket)
      → ◌≢◌ {A = Outcome (r.State × Option ComPacket)} (done (y, none)) (done (x, some p))
  no_packet x y p e = cc

  -- A chain that ends in a packet has got past its run of readBytes.
  past :
      (run : Run r) (k : ℕ → Outcome (r.State × Option ComPacket)) (x : r.State) (p : ComPacket)
      → unless_interrupted r host run k ≡ done (x, some p)
      → (left : ℕ) × (run.tests_left ≡ some left) × (k left ≡ done (x, some p))
  past run k x p h = elim (Option-cases run.tests_left) [
    | inl e ↦ absurd (no_packet x run.transport p (rw e at h))
    | inr (left, e) ↦ (left, e, rw e at h)
  ]

  data_completed :
      (tests fuel type size : ℕ) (d : Demuxer r) (x : r.State) (p : ComPacket)
      → d.transport_error ≡ false
      → interrupted_data r host tests d.transport type size ≡ done (x, some p)
      → tests ≤ fuel
      → receive_data r host fuel d type size ≡ done (read_from d x, some p)
  unfolding interrupted_data receive_data
  data_completed tests fuel type size d x p calm h l =
      let a = >>=-eq-done (preallocated type size) _ h in
      let b =
        >>=-eq-done (interrupted_read r tests false d.transport (get_data_size a.0) []) _
          (rw (in_room-get_data_size a.0 _) at a.2) in
      let c = past b.0 _ x p b.2 in
      let read = read_completed r tests fuel (get_data_size a.0) c.0 d.transport [] b.0 b.1 c.1 l in
      rw (a.1, in_room-get_data_size, calm, read.1) (ground arith)

  header_completed :
      (tests fuel : ℕ) (d : Demuxer r) (x : r.State) (p : ComPacket)
      → d.transport_error ≡ false
      → interrupted_header r host tests d.transport ≡ done (x, some p)
      → tests ≤ fuel
      → receive_header r host fuel d ≡ done (read_from d x, some p)
  unfolding interrupted_header receive_header
  header_completed tests fuel d x p calm h l =
      let a = >>=-eq-done (interrupted_read r tests false d.transport 4 []) _ h in
      let a' = past a.0 _ x p a.2 in
      let b = >>=-eq-done (interrupted_read r a'.0 false (a.0).transport 4 []) _ a'.2 in
      let b' = past b.0 _ x p b.2 in
      let first = read_completed r tests fuel 4 a'.0 d.transport [] a.0 a.1 a'.1 l in
      let second =
        read_completed r a'.0 fuel 4 b'.0 (a.0).transport [] b.0 b.1 b'.1
          (omega (arith, first.0)) in
      rw (calm, first.1, second.1)
        (data_completed b'.0 fuel _ _ (read_from d (b.0).transport) x p refl b'.2
          (omega (arith, first.0, second.0)))

  -- A receivePacket that returns true before the flag is set does what receive_packet does, with fuel
  -- for as many reads as it makes tests.
  pub packet_completed :
      (tests fuel ms : ℕ) (d : Demuxer r) (x : r.State) (p : ComPacket)
      → d.transport_error ≡ false
      → interrupted_packet r host tests d.transport ms ≡ done (x, some p)
      → tests ≤ fuel
      → receive_packet r host fuel d ms ≡ done (read_from d x, some p)
  unfolding interrupted_packet receive_packet
  packet_completed tests fuel ms d x p calm h l =
      elim (Bool-cases (r.ready_for_reading d.transport ms).1) [
        | inl e ↦ rw e (
            header_completed tests fuel
              (record d { transport = (r.ready_for_reading d.transport ms).0 }) x p calm (rw e at h)
              l)
        | inr e ↦ absurd (no_packet x (r.ready_for_reading d.transport ms).0 p (rw e at h))
      ]
