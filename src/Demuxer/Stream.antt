-- ===== src/Demuxer/Stream.antt =====
-- What readBytes and receivePacket take from a stream whenever they return, whatever the fuel.
pub mod Frames
use packetcomms.Base.{
  ℕ, zero, suc, ◌+◌, ◌-◌, ◌≤◌, ◌<◌, ◌^◌, ◌≡◌, ◌≢◌, ◌⊎◌, inl, inr, refl, sym, ap, ap₂, ◌∙◌, List, [],
  ◌∷◌, ◌++◌, append_assoc, append-nil, Bool, true, false, Bool-cases, pos, negsuc, ℤ-cases, Option,
  none, some, Option-cases, length, length-append, length-replicate, replicate, ltb, ◌==◌,
  if◌then◌else◌, Outcome, done, aborts, stuck, ◌>>=◌, >>=-eq-done, All, arith,
}
use packetcomms.Wire.{Endian, network_bytes, to_u32, load_u32, ntohl}
use packetcomms.Wire.ByteOrder.{length-network_bytes, ntohl-load_u32}
use packetcomms.IdManager.{invalid_packet}
use packetcomms.ComPacket.{ComPacket, preallocated, get_data_size}
use packetcomms.Frame.{frame, frames, IsSendable}
use packetcomms.Transport.{Reader, ReaderLaws}
use packetcomms.Demuxer.{
  in_room-get_data_size, Demuxer, ReadRun, read_bytes, after_read, unless_failed, receive_data,
  receive_header, receive_packet,
}
use packetcomms.Demuxer.Receive.{frame_parts, receive_ready, receive_timed_out}
use packetcomms.Demuxer.Read.{complete, read_step}

module _ (r : Reader) (laws : ReaderLaws r) where
  open laws use {pending, stored}

  -- A run of readBytes that has taken its bytes, or that has set m_transportError.
  abbrev pub Took : r.State → ℕ → List ℕ → ReadRun r → Type 0
  Took s size buffer run =
      ((run.success ≡ true)
        × (run.transport_error ≡ false)
        × (added : List ℕ) × (run.buffer ≡ buffer ++ added)
        × (length added ≡ size)
        × (pending s ≡ added ++ pending run.transport))
      ⊎ ((run.success ≡ false) × (run.transport_error ≡ true))

  failed : r.State → ℕ → List ℕ → ReadRun r
  failed s size buffer = record {
    transport = (r.read s (suc size)).0;
    transport_error = true;
    success = false;
    left = suc size;
    buffer = buffer;
  }

  read_fails :
      (fuel size n : ℕ) (s : r.State) (buffer : List ℕ)
      → (r.read s (suc size)).1 ≡ negsuc n
      → read_bytes r (suc fuel) false false s (suc size) buffer ≡ done (failed s size buffer)
  unfolding read_bytes failed
  read_fails fuel size n s buffer e = rw e refl

  read_none :
      (fuel : ℕ) (s : r.State) (buffer : List ℕ) (run : ReadRun r)
      → read_bytes r fuel false false s 0 buffer ≡ done run
      → Took s 0 buffer run
  unfolding read_bytes
  read_none fuel s buffer run h =
      let same : complete r laws s buffer ≡ run = cc in
      rw (← same) (inl (refl, refl, [], sym (append-nil buffer), refl, refl))

  out_of_fuel :
      (size : ℕ) (s : r.State) (buffer : List ℕ)
      → read_bytes r 0 false false s (suc size) buffer ≡ stuck
  unfolding read_bytes
  out_of_fuel size s buffer = refl

  Took-more :
      (s : r.State) (size n : ℕ) (buffer : List ℕ) (run : ReadRun r)
      → (r.read s size).1 ≡ pos n
      → Took (r.read s size).0 (size - n) (buffer ++ (r.read s size).2) run
      → Took s size buffer run
  Took-more s size n buffer run e (inr f) = inr f
  Took-more s size n buffer run e (inl t) =
      let v = stored s size n e in
      let chunk = (r.read s size).2 in
      inl (
        t.0,
        t.1,
        chunk ++ t.2,
        t.3 ∙ append_assoc buffer chunk t.2,
        omega (arith, length-append chunk t.2, v.0, v.1, t.4),
        v.2 ∙ ap (◌++◌ chunk) t.5 ∙ sym (append_assoc chunk t.2 _),
      )

  read_bytes-Took :
      (fuel size : ℕ) (s : r.State) (buffer : List ℕ) (run : ReadRun r)
      → read_bytes r fuel false false s size buffer ≡ done run
      → Took s size buffer run
  read_bytes-Took fuel zero s buffer run h = read_none fuel s buffer run h
  read_bytes-Took zero (suc size) s buffer run h = let e = out_of_fuel size s buffer in absurd cc
  read_bytes-Took (suc fuel) (suc size) s buffer run h = elim (ℤ-cases (r.read s (suc size)).1) [
    | inr (n, e) ↦
        let same : failed s size buffer ≡ run = cc (read_fails fuel size n s buffer e, h) in
        rw (← same) (inr (unfold failed in refl, unfold failed in refl))
    | inl (n, e) ↦ Took-more s (suc size) n buffer run e (
        read_bytes-Took fuel (suc size - n) (r.read s (suc size)).0
          (buffer ++ (r.read s (suc size)).2) run
          (sym (read_step r laws fuel size n s buffer e) ∙ h))
  ]

preallocated_cases :
    (type size : ℕ) (p : ComPacket)
    → preallocated type size ≡ done p
    → (p.type ≡ type) × (get_data_size p ≡ size)
unfolding preallocated get_data_size
preallocated_cases type size p h = elim (Bool-cases (ltb size (2 ^ 31))) [
  | inl e ↦
      let same : record { type = type; contents = replicate size 0 } ≡ p = cc (rw e at h) in
      rw (← same) (refl, length-replicate {A = ℕ} size 0)
  | inr e ↦ absurd (cc (rw e at h))
]

module _ (r : Reader) (laws : ReaderLaws r) (host : Endian) where
  open laws use {pending, waited}

  -- What a receivePacket has done that returns: it has taken the bytes of one packet, or set
  -- m_transportError, or timed out.
  abbrev GotData : Demuxer r → ℕ → ℕ → Demuxer r → Option ComPacket → Type 0
  GotData d type size d' none = d'.transport_error ≡ true
  GotData d type size d' (some p) =
      (d'.transport_error ≡ false)
      × (p.type ≡ type)
      × (length p.contents ≡ size)
      × (pending d.transport ≡ p.contents ++ pending d'.transport)

  checked_cases :
      (d d' : Demuxer r) (p : ComPacket) (got : Option ComPacket)
      → if◌then◌else◌ {A = Outcome (Demuxer r × Option ComPacket)}
          (p.type == invalid_packet)
          aborts
          (done (d, some p))
        ≡ done (d', got)
      → (d ≡ d') × (some p ≡ got)
  checked_cases d d' p got h = elim (Bool-cases (p.type == invalid_packet)) [
    | inl e ↦ absurd (cc (rw e at h))
    | inr e ↦ (cc (rw e at h), cc (rw e at h))
  ]

  receive_data_cases :
      (fuel : ℕ) (d d' : Demuxer r) (type size : ℕ) (got : Option ComPacket)
      → d.transport_error ≡ false
      → receive_data r host fuel d type size ≡ done (d', got)
      → GotData d type size d' got
  unfolding receive_data
  receive_data_cases fuel d d' type size got calm h =
      let a = >>=-eq-done (preallocated type size) _ h in
      let c = preallocated_cases type size a.0 a.1 in
      let b =
        >>=-eq-done (read_bytes r fuel false d.transport_error d.transport (get_data_size a.0) []) _
          (rw (in_room-get_data_size a.0 _) at a.2) in
      elim (read_bytes-Took r laws fuel (get_data_size a.0) d.transport [] b.0 (rw calm at (b.1))) [
        | inl t ↦
            let q : ComPacket = record (a.0) { contents = (b.0).buffer } in
            let k = checked_cases (after_read r d b.0) d' q got (rw (t.0) at (b.2)) in
            rw (← (k.0), ← (k.1)) (t.1, c.0, ap length t.3 ∙ t.4 ∙ c.1, rw (t.3) (t.5))
        | inr t ↦
            let none-eq : none ≡ got = cc (rw (t.0) at (b.2)) in
            let d-eq : after_read r d b.0 ≡ d' = cc (rw (t.0) at (b.2)) in
            rw (← none-eq, ← d-eq) (t.1)
      ]

  -- The two words of the header and the data, as they were on their way.
  abbrev pub GotPacket : List ℕ → Demuxer r → Option ComPacket → Type 0
  GotPacket coming d' none = d'.transport_error ≡ true
  GotPacket coming d' (some p) =
      (d'.transport_error ≡ false)
      × (b₁ : List ℕ) × (b₂ : List ℕ) × (length b₁ ≡ 4)
      × (length b₂ ≡ 4)
      × (p.type ≡ ntohl host (load_u32 host b₁))
      × (length p.contents ≡ ntohl host (load_u32 host b₂))
      × (coming ≡ b₁ ++ (b₂ ++ (p.contents ++ pending d'.transport)))

  GotPacket-data :
      (d d' : Demuxer r) (got : Option ComPacket) (coming b₁ b₂ : List ℕ)
      → length b₁ ≡ 4
      → length b₂ ≡ 4
      → coming ≡ b₁ ++ (b₂ ++ pending d.transport)
      → GotData d (ntohl host (load_u32 host b₁)) (ntohl host (load_u32 host b₂)) d' got
      → GotPacket coming d' got
  GotPacket-data d d' none coming b₁ b₂ l₁ l₂ e g = g
  GotPacket-data d d' (some p) coming b₁ b₂ l₁ l₂ e g =
      (g.0, b₁, b₂, l₁, l₂, g.1, g.2, e ∙ ap (λ z. b₁ ++ (b₂ ++ z)) g.3)

  -- `if (!ok) return false;`
  gave_up :
      (d d' : Demuxer r) (run : ReadRun r) (k : Outcome (Demuxer r × Option ComPacket))
      (got : Option ComPacket) (coming : List ℕ)
      → run.success ≡ false
      → run.transport_error ≡ true
      → unless_failed r host d run k ≡ done (d', got)
      → GotPacket coming d' got
  gave_up d d' run k got coming s e h =
      let none-eq : none ≡ got = cc (rw s at h) in
      let d-eq : after_read r d run ≡ d' = cc (rw s at h) in rw (← none-eq, ← d-eq) e

  pub receive_header_cases :
      (fuel : ℕ) (d d' : Demuxer r) (got : Option ComPacket)
      → d.transport_error ≡ false
      → receive_header r host fuel d ≡ done (d', got)
      → GotPacket (pending d.transport) d' got
  unfolding receive_header
  receive_header_cases fuel d d' got calm h =
      let a = >>=-eq-done (read_bytes r fuel false d.transport_error d.transport 4 []) _ h in
      elim (read_bytes-Took r laws fuel 4 d.transport [] a.0 (rw calm at (a.1))) [
        | inr f ↦ gave_up d d' a.0 _ got (pending d.transport) f.0 f.1 a.2
        | inl t ↦
            let b =
              >>=-eq-done (read_bytes r fuel false (a.0).transport_error (a.0).transport 4 []) _
                (rw (t.0) at (a.2)) in
            elim (read_bytes-Took r laws fuel 4 (a.0).transport [] b.0 (rw (t.1) at (b.1))) [
              | inr f ↦ gave_up d d' b.0 _ got (pending d.transport) f.0 f.1 b.2
              | inl u ↦
                  GotPacket-data (after_read r d b.0) d' got (pending d.transport) t.2 u.2 t.4 u.4
                    (t.5 ∙ ap (◌++◌ t.2) u.5)
                    (receive_data_cases fuel (after_read r d b.0) d' _ _ got u.1
                      (rw (u.0, t.3, u.3) at (b.2)))
            ]
      ]
