-- ===== src/Demuxer/Bounds.antt =====
-- What readBytes and receivePacket of src/PacketDemuxer.cpp do to memory, on any transport that does
-- not claim more than it was asked for, whatever else it does: no law of a stream is used.
use packetcomms.Base.{
  ℕ, zero, suc, ◌+◌, ◌-◌, ◌≤◌, ◌<◌, ◌^◌, ◌≡◌, ◌≢◌, ◌⊎◌, inl, inr, refl, Bool, true, false,
  Bool-cases, pos, ℤ-cases, List, [], ◌++◌, Option, none, some, length, length-append,
  length-replicate, ltb, ◌==◌, ◌&&◌, if◌then◌else◌, NoFault, NoFault->>=, Outcome, done, aborts,
  throws, faults, stuck, arith,
}
use packetcomms.Wire.{Endian}
use packetcomms.IdManager.{invalid_packet}
use packetcomms.ComPacket.{ComPacket, preallocated, get_data_size}
use packetcomms.Transport.{Reader}
use packetcomms.Demuxer.{
  in_room-get_data_size, Demuxer, ReadRun, unless_failed, after_read, read_bytes, receive_data,
  receive_header, receive_packet,
}

-- A read stores as many bytes as it returns, and no more than it was asked for.
abbrev pub IsBounded : Reader → Type 0
IsBounded r =
    (s : r.State) (max n : ℕ) → (r.read s max).1 ≡ pos n → (n ≤ max) × (length (r.read s max).2 ≡ n)

module _ (r : Reader) (bounded : IsBounded r) where
  -- What is left to read and what was stored are together what was asked for, and a run that succeeds
  -- leaves nothing.
  pub record Fills (size : ℕ) (buffer : List ℕ) (run : ReadRun r) : Type 0 where
    pub filled : length run.buffer + run.left ≡ length buffer + size
    pub complete : run.success ≡ true → run.left ≡ 0

  read_bytes_cases :
      (fuel : ℕ) (on_zero : Bool) (s : r.State) (size : ℕ) (buffer : List ℕ)
      → ((run : ReadRun r) × (read_bytes r (suc fuel) on_zero false s (suc size) buffer ≡ done run)
          × Fills (suc size) buffer run)
        ⊎ ((n : ℕ) × ((r.read s (suc size)).1 ≡ pos n)
            × (read_bytes r (suc fuel) on_zero false s (suc size) buffer
                ≡ read_bytes r fuel on_zero false
                    (r.read s (suc size)).0
                    (suc size - n)
                    (buffer ++ (r.read s (suc size)).2)))
  unfolding read_bytes
  read_bytes_cases fuel on_zero s size buffer =
      let failed : ReadRun r = record {
        transport = (r.read s (suc size)).0;
        transport_error = true;
        success = false;
        left = suc size;
        buffer = buffer;
      } in
      elim (ℤ-cases (r.read s (suc size)).1) [
        | inl (n, e) ↦
            let b = bounded s (suc size) n e in
            let l : ltb (suc size) n ≡ false = ground (arith, b.0) in
            elim (Bool-cases (n == 0 && on_zero)) [
              | inl z ↦ inl (failed, rw (e, z) refl, record { filled = refl; complete = λ h. cc })
              | inr z ↦ inr (n, e, rw (e, z, l) refl)
            ]
        | inr (n, e) ↦ inl (failed, rw e refl, record { filled = refl; complete = λ h. cc })
      ]

  halted_read :
      (fuel : ℕ) (on_zero : Bool) (s : r.State) (size : ℕ) (buffer : List ℕ)
      → (run : ReadRun r) × (read_bytes r fuel on_zero true s size buffer ≡ done run)
        × Fills size buffer run
  unfolding read_bytes
  halted_read fuel on_zero s zero buffer = (_, refl, record { filled = refl; complete = λ h. refl })
  halted_read zero on_zero s (suc size) buffer =
      (_, refl, record { filled = refl; complete = λ h. cc })
  halted_read (suc fuel) on_zero s (suc size) buffer =
      (_, refl, record { filled = refl; complete = λ h. cc })

  nothing_to_read :
      (fuel : ℕ) (on_zero : Bool) (s : r.State) (buffer : List ℕ)
      → (run : ReadRun r) × (read_bytes r fuel on_zero false s 0 buffer ≡ done run)
        × Fills 0 buffer run
  unfolding read_bytes
  nothing_to_read fuel on_zero s buffer = (_, refl, record { filled = refl; complete = λ h. refl })

  out_of_fuel :
      (on_zero : Bool) (s : r.State) (size : ℕ) (buffer : List ℕ)
      → read_bytes r 0 on_zero false s (suc size) buffer ≡ stuck
  unfolding read_bytes
  out_of_fuel on_zero s size buffer = refl

  Fills-more :
      (size n : ℕ) (buffer bytes : List ℕ) (out : Outcome (ReadRun r))
      → n ≤ size
      → length bytes ≡ n
      → NoFault (Fills (size - n) (buffer ++ bytes)) out
      → NoFault (Fills size buffer) out
  Fills-more size n buffer bytes (done run) h e f = record {
    filled = omega (arith, f.filled, length-append buffer bytes);
    complete = f.complete;
  }
  Fills-more size n buffer bytes aborts h e f = tt
  Fills-more size n buffer bytes throws h e f = tt
  Fills-more size n buffer bytes faults h e f = f
  Fills-more size n buffer bytes stuck h e f = tt

  -- On a transport that never claims to have read more than it was asked for, and stores as much as it
  -- claims, readBytes never writes outside the memory it was given, whatever the transport brings and
  -- for any fuel: it does not fault, and when it returns, the bytes stored and those that `size` says
  -- are left make up the length asked for, with nothing left if it returns true.
  pub read_bytes_bounds :
      (fuel : ℕ) (on_zero error : Bool) (s : r.State) (size : ℕ) (buffer : List ℕ)
      → NoFault (Fills size buffer) (read_bytes r fuel on_zero error s size buffer)
  read_bytes_bounds fuel on_zero true s size buffer =
      let h = halted_read fuel on_zero s size buffer in rw h.1 h.2
  read_bytes_bounds fuel on_zero false s zero buffer =
      let h = nothing_to_read fuel on_zero s buffer in rw h.1 h.2
  read_bytes_bounds zero on_zero false s (suc size) buffer =
      rw (out_of_fuel on_zero s size buffer) tt
  read_bytes_bounds (suc fuel) on_zero false s (suc size) buffer =
      elim (read_bytes_cases fuel on_zero s size buffer) [
        | inl (run, e, f) ↦ rw e f
        | inr (n, e, step) ↦
            let b = bounded s (suc size) n e in
            let ih =
              read_bytes_bounds fuel on_zero false (r.read s (suc size)).0 (suc size - n)
                (buffer ++ (r.read s (suc size)).2) in
            rw step (Fills-more (suc size) n buffer _ _ b.0 b.1 ih)
      ]

  -- A packet as receivePacket may return it.
  abbrev pub IsReceivable : Demuxer r × Option ComPacket → Type 0
  IsReceivable (d, none) = Unit {0}
  IsReceivable (d, some p) = (p.type ≢ invalid_packet) × (length p.contents < 2 ^ 31)

  if-NoFault :
      (b : Bool) (d : Demuxer r) (out : Outcome (Demuxer r × Option ComPacket))
      → (b ≡ true → NoFault IsReceivable out)
      → NoFault IsReceivable (if b then out else done (d, none))
  if-NoFault true d out safe = safe refl
  if-NoFault false d out safe = tt

  after-NoFault :
      (host : Endian) (d : Demuxer r) (size : ℕ) (run : ReadRun r)
      (k : Outcome (Demuxer r × Option ComPacket))
      → Fills size [] run
      → (length run.buffer ≡ size → NoFault IsReceivable k)
      → NoFault IsReceivable (unless_failed r host d run k)
  after-NoFault host d size run k f safe =
      if-NoFault run.success (after_read r d run) k
        (λ h. safe (omega (arith, f.filled, f.complete h)))

  data_got :
      (d : Demuxer r) (type size : ℕ) (bytes : List ℕ)
      → size < 2 ^ 31
      → length bytes ≡ size
      → NoFault IsReceivable (
          if type == invalid_packet
          then aborts
          else done (d, some (record { type = type; contents = bytes })))
  data_got d type size bytes h e = elim (Bool-cases (type == invalid_packet)) [
    | inl y ↦ rw y tt
    | inr n ↦ let ne : type ≢ invalid_packet = ground arith in rw n (ne, rw e h)
  ]

  receive_data-NoFault :
      (host : Endian) (fuel : ℕ) (d : Demuxer r) (type size : ℕ)
      → NoFault IsReceivable (receive_data r host fuel d type size)
  unfolding receive_data preallocated get_data_size
  receive_data-NoFault host fuel d type size = elim (Bool-cases (ltb size (2 ^ 31))) [
    | inl y ↦
        let h : size < 2 ^ 31 = ground arith in
        rw (y, in_room-get_data_size, length-replicate {A = ℕ} size 0)
          (NoFault->>= (Fills size []) IsReceivable _ _
            (read_bytes_bounds fuel false d.transport_error d.transport size [])
            (λ run f.
              after-NoFault host d size run _ f
                (λ e. data_got (after_read r d run) type size run.buffer h e)))
    | inr n ↦ rw n tt
  ]

  receive_header-NoFault :
      (host : Endian) (fuel : ℕ) (d : Demuxer r)
      → NoFault IsReceivable (receive_header r host fuel d)
  unfolding receive_header
  receive_header-NoFault host fuel d =
      NoFault->>= (Fills 4 []) IsReceivable _ _
        (read_bytes_bounds fuel false d.transport_error d.transport 4 [])
        (λ run₁ f₁. after-NoFault host d 4 run₁ _ f₁ (λ e₁.
          NoFault->>= (Fills 4 []) IsReceivable _ _
            (read_bytes_bounds fuel false run₁.transport_error run₁.transport 4 [])
            (λ run₂ f₂.
              after-NoFault host d 4 run₂ _ f₂
                (λ e₂. receive_data-NoFault host fuel (after_read r d run₂) _ _))))

  pub receive_packet_bounds :
      (host : Endian) (fuel ms : ℕ) (d : Demuxer r)
      → NoFault IsReceivable (receive_packet r host fuel d ms)
  unfolding receive_packet
  receive_packet_bounds host fuel ms d =
      let waited : Demuxer r = record d { transport = (r.ready_for_reading d.transport ms).0 } in
      if-NoFault (r.ready_for_reading d.transport ms).1 waited (receive_header r host fuel waited)
        (λ h. receive_header-NoFault host fuel waited)
