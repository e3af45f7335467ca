-- ===== src/Muxer/Thread/Shutdown.antt =====
-- What follows a transport error, or the destructor, which sets the same flag.
use packetcomms.Base.{
  ℕ, ◌+◌, ◌%◌, ◌^◌, ◌≡◌, inl, inr, refl, subst, String, List, [], ◌∷◌, true, false, done, Distinct,
  All, In,
}
use packetcomms.Wire.{Endian}
use packetcomms.IdManager.{to_id, control_string}
use packetcomms.ControlMessage.{ControlMessage, hello, heart_beat, underlying}
use packetcomms.TxQueues.{TxQueues, emplace, keys, Visits}
use packetcomms.ComPacket.{from_buffer}
use packetcomms.Transport.{Writer}
use packetcomms.Muxer.{Muxer, shut_down, emplace_packet, send_control_message, send_pass}
use packetcomms.Muxer.Pass.{send_pass_halted}
use packetcomms.Muxer.Thread.{
  Phase, starting, greeted, ready, waiting, exited, CvStatus, timeout, no_timeout, System, unblock,
  woken, Step, posts, destroys, unblocks, greets, locks, exits, waits, sends, wakes, Reach, here,
  next,
}
use packetcomms.Muxer.Thread.Invariant.{emplace_packet_cases, emplace_packet_lem, IsCounted}

module _ (w : Writer) where
  -- A transport that is as it was, but for calls of setBlocking(false).
  pub data Unwritten (s : w.State) : w.State → Type 0 where
    untouched : Unwritten s s
    unblocked : {x : w.State} → Unwritten s x → Unwritten s (w.set_blocking x false)

  -- A muxer with an error, over a transport that was not written to.
  abbrev pub IsHalted : w.State → Muxer w → Type 0
  IsHalted s m = (m.transport_error ≡ true) × Unwritten s m.transport

  emplace_packet-IsHalted :
      (s : w.State) (m m' : Muxer w) (name : String) (bytes : List ℕ)
      → emplace_packet w m name bytes ≡ done m'
      → IsHalted s m
      → IsHalted s m'
  emplace_packet-IsHalted s m m' name bytes e h =
      let r = emplace_packet_cases w m m' name bytes e in rw r.2 h

  control-IsHalted :
      (s : w.State) (m m' : Muxer w) (msg : ControlMessage)
      → send_control_message w m msg ≡ done m'
      → IsHalted s m
      → IsHalted s m'
  unfolding send_control_message
  control-IsHalted s m m' msg e h = emplace_packet-IsHalted s m m' _ _ e h

  pub control_lem :
      (m : Muxer w) (msg : ControlMessage) (k : ℕ)
      → to_id m.packet_ids control_string ≡ done k
      → send_control_message w m msg
        ≡ done (record m {
          num_posted = (m.num_posted + 1) % 2 ^ 32;
          tx_queues = emplace k (from_buffer k (underlying msg ∷ [])) m.tx_queues;
        })
  unfolding send_control_message
  control_lem m msg k known = emplace_packet_lem w m control_string (underlying msg ∷ []) k known

  woken-IsHalted :
      (s : w.State) (status : CvStatus) (m m' : Muxer w)
      → woken w status m ≡ done m'
      → IsHalted s m
      → IsHalted s m'
  unfolding woken
  woken-IsHalted s timeout m m' e h = control-IsHalted s m m' heart_beat e h
  woken-IsHalted s no_timeout m m' e h = let q : m ≡ m' = cc in subst (IsHalted s) q h

module _ (w : Writer) (host : Endian) (fuel : ℕ) where
  send_pass-IsHalted :
      (s : w.State) (order : List ℕ) (m m' : Muxer w)
      → send_pass w host fuel order m ≡ done m'
      → IsHalted w s m
      → IsHalted w s m'
  send_pass-IsHalted s order m m' e h =
      let q : m ≡ m' = cc (send_pass_halted w host fuel order m h.0) in subst (IsHalted w s) q h

  pub Step-IsHalted :
      (x : w.State) (s t : System w)
      → Step w host fuel s t
      → IsHalted w x s.muxer
      → IsHalted w x t.muxer
  Step-IsHalted x s t (posts name bytes m free e q) h =
      rw q (emplace_packet-IsHalted w x s.muxer m name bytes e h)
  Step-IsHalted x s t (destroys free q) h = rw q (unfold shut_down in (refl, h.1))
  Step-IsHalted x s t (unblocks q) h = rw q (unfold unblock in (h.0, unblocked h.1))
  Step-IsHalted x s t (greets m p e q) h = rw q (control-IsHalted w x s.muxer m hello e h)
  Step-IsHalted x s t (locks p q) h = rw q h
  Step-IsHalted x s t (exits p e q) h = rw q h
  Step-IsHalted x s t (waits p e d q) h = rw q h
  Step-IsHalted x s t (sends order m p e d o r q) h = cc (h.0)
  Step-IsHalted x s t (wakes status order m₁ m p e o r q) h =
      rw q (send_pass-IsHalted x order m₁ m r (woken-IsHalted w x status s.muxer m₁ e h))

  -- Once a muxer has a transport error, or was destroyed, no thread writes to the transport again,
  -- and the error stays.
  pub Reach-IsHalted :
      (x : w.State) (s t : System w)
      → Reach w host fuel s t
      → IsHalted w x s.muxer
      → IsHalted w x t.muxer
  Reach-IsHalted x s t here h = h
  Reach-IsHalted x s t (next {t = u} r st) h = Step-IsHalted x u t st (Reach-IsHalted x s u r h)

  pub visit_keys : (t : TxQueues) → Distinct (keys t) → Visits (keys t) t
  visit_keys t d = record { once = d; every = all (keys t) }
    where
      later : (k : ℕ) (ks js : List ℕ) → All (λ j. In j ks) js → All (λ j. In j (k ∷ ks)) js
      later k ks [] a = tt
      later k ks (j ∷ js) a = (inr a.0, later k ks js a.1)

      all : (ks : List ℕ) → All (λ k. In k ks) ks
      all [] = tt
      all (k ∷ ks) = (inl refl, later k ks ks (all ks))

  -- A send thread whose muxer has a transport error, or is destroyed, can end from wherever it is
  -- without a write to the transport, if the counters are right and the control packets are known.
  pub halted_exits :
      (s : System w) (k : ℕ)
      → to_id (s.muxer).packet_ids control_string ≡ done k
      → IsCounted s.muxer
      → (s.muxer).transport_error ≡ true
      → (t : System w) × Reach w host fuel s t
        × (t.phase ≡ exited)
        × ((t.muxer).transport ≡ (s.muxer).transport)
  halted_exits s k known v h = go s.phase refl
    where
      leave :
          (u : System w)
          → Reach w host fuel s u
          → u.phase ≡ ready
          → (u.muxer).transport_error ≡ true
          → (u.muxer).transport ≡ (s.muxer).transport
          → (t : System w) × Reach w host fuel s t
            × (t.phase ≡ exited)
            × ((t.muxer).transport ≡ (s.muxer).transport)
      leave u r p e same = (record u { phase = exited }, next r (exits p e refl), refl, same)

      go :
          (p : Phase)
          → s.phase ≡ p
          → (t : System w) × Reach w host fuel s t
            × (t.phase ≡ exited)
            × ((t.muxer).transport ≡ (s.muxer).transport)
      go starting p =
          leave _
            (next (next here (greets _ p (control_lem w s.muxer hello k known) refl))
              (locks refl refl))
            refl h refl
      go greeted p = leave _ (next here (locks p refl)) refl h refl
      go ready p = leave s here p h refl
      go waiting p =
          leave _
            (next here (
              wakes no_timeout (keys (s.muxer).tx_queues) s.muxer s.muxer p (unfold woken in refl)
                (visit_keys (s.muxer).tx_queues v.distinct)
                (send_pass_halted w host fuel _ s.muxer h) refl))
            refl h refl
      go exited p = (s, here, p, refl)
