-- ===== src/Muxer/Lifetime/End.antt =====
-- The end of a muxer's life: what holds from the destructor on.
use packetcomms.Base.{ℕ, ◌≡◌, refl, ap, ◌∙◌, true}
use packetcomms.Wire.{Endian}
use packetcomms.Transport.{Writer}
use packetcomms.Muxer.{Muxer, shut_down}
use packetcomms.Muxer.Thread.{
  exited, System, Step, posts, destroys, unblocks, greets, locks, exits, waits, sends, wakes,
}
use packetcomms.Muxer.Thread.Shutdown.{Unwritten, untouched, IsHalted, Step-IsHalted}
use packetcomms.Muxer.Lifetime.{
  Stage, constructing, constructed, signalled, destroyed, sender, destructor, Object, begin, actor,
  Event, constructs, works, uses, signals, joins, Life, here, next,
}

-- The destructor has set the flag.
abbrev IsEnding : Stage → Type 0
IsEnding constructing = ⊥
IsEnding constructed = ⊥
IsEnding signalled = Unit {0}
IsEnding destroyed = Unit {0}

-- The flag is set where the destructor has set it, and the thread has ended where it was joined.
record IsSound {w : Writer} (s : Object w) : Type 0 where
  flagged : IsEnding s.stage → ((s.system).muxer).transport_error ≡ true
  ended : s.stage ≡ destroyed → (s.system).phase ≡ exited

module _ (w : Writer) (host : Endian) (fuel : ℕ) where
  -- The send thread has no step left once it has exited.
  exited_still :
      (s t : System w) (st : Step w host fuel s t)
      → actor w host fuel st ≡ sender
      → s.phase ≡ exited
      → ⊥
  unfolding actor
  exited_still s t (posts name bytes m free e q) a h = cc
  exited_still s t (destroys free q) a h = cc
  exited_still s t (unblocks q) a h = cc
  exited_still s t (greets m p e q) a h = cc
  exited_still s t (locks p q) a h = cc
  exited_still s t (exits p e q) a h = cc
  exited_still s t (waits p e d q) a h = cc
  exited_still s t (sends order m p e d o r q) a h = cc
  exited_still s t (wakes status order m₁ m p e o r q) a h = cc

  destructor_flags :
      (s t : System w) (st : Step w host fuel s t)
      → actor w host fuel st ≡ destructor
      → (t.muxer).transport_error ≡ true
  unfolding actor
  destructor_flags s t (posts name bytes m free e q) a = cc
  destructor_flags s t (destroys free q) a = rw q (unfold shut_down in refl)
  destructor_flags s t (unblocks q) a = cc
  destructor_flags s t (greets m p e q) a = cc
  destructor_flags s t (locks p q) a = cc
  destructor_flags s t (exits p e q) a = cc
  destructor_flags s t (waits p e d q) a = cc
  destructor_flags s t (sends order m p e d o r q) a = cc
  destructor_flags s t (wakes status order m₁ m p e o r q) a = cc

  halted :
      (s t : System w)
      → Step w host fuel s t
      → (s.muxer).transport_error ≡ true
      → (t.muxer).transport_error ≡ true
  halted s t st e = (Step-IsHalted w host fuel (s.muxer).transport s t st (e, untouched)).0

  Event-IsSound : (s t : Object w) → Event w host fuel s t → IsSound s → IsSound t
  Event-IsSound s t (constructs u st g a q) v =
      rw q (record { flagged = λ e. absurd e; ended = λ e. cc })
  Event-IsSound s t (works u st a q) v = rw q (record {
    flagged = λ e. halted s.system u st (v.flagged e);
    ended = λ e. absurd (exited_still s.system u st a (v.ended e));
  })
  Event-IsSound s t (uses u st usable a q) v = rw q (record {
    flagged = λ e. halted s.system u st (v.flagged e);
    ended = λ e. absurd (rw e at usable);
  })
  Event-IsSound s t (signals u st g a q) v =
      rw q (record { flagged = λ _. destructor_flags s.system u st a; ended = λ e. cc })
  Event-IsSound s t (joins g p q) v =
      rw q (record { flagged = λ _. v.flagged (rw g tt); ended = λ _. p })

  Life-IsSound : (s t : Object w) → Life w host fuel s t → IsSound s → IsSound t
  Life-IsSound s t here v = v
  Life-IsSound s t (next {t = m} life ev) v = Event-IsSound m t ev (Life-IsSound s m life v)

  -- From the destructor on the transport is not written to.
  Event-IsHalted :
      (x : w.State) (s t : Object w)
      → Event w host fuel s t
      → IsHalted w x (s.system).muxer
      → IsHalted w x (t.system).muxer
  Event-IsHalted x s t (constructs u st g a q) h =
      rw q (Step-IsHalted w host fuel x s.system u st h)
  Event-IsHalted x s t (works u st a q) h = rw q (Step-IsHalted w host fuel x s.system u st h)
  Event-IsHalted x s t (uses u st usable a q) h = rw q (Step-IsHalted w host fuel x s.system u st h)
  Event-IsHalted x s t (signals u st g a q) h = rw q (Step-IsHalted w host fuel x s.system u st h)
  Event-IsHalted x s t (joins g p q) h = rw q h

  Life-IsHalted :
      (x : w.State) (s t : Object w)
      → Life w host fuel s t
      → IsHalted w x (s.system).muxer
      → IsHalted w x (t.system).muxer
  Life-IsHalted x s t here h = h
  Life-IsHalted x s t (next {t = m} life ev) h =
      Event-IsHalted x m t ev (Life-IsHalted x s m life h)

  destroyed_still : (s t : Object w) → Event w host fuel s t → IsSound s → s.stage ≡ destroyed → ⊥
  destroyed_still s t (constructs u st g a q) v h = cc
  destroyed_still s t (works u st a q) v h = exited_still s.system u st a (v.ended h)
  destroyed_still s t (uses u st usable a q) v h = rw h at usable
  destroyed_still s t (signals u st g a q) v h = cc
  destroyed_still s t (joins g p q) v h = cc

  still : (s t : Object w) → Life w host fuel s t → IsSound s → s.stage ≡ destroyed → t ≡ s
  still s t here v h = refl
  still s t (next {t = m} life ev) v h =
      let same = still s m life v h in
      absurd
        (destroyed_still m t ev (Life-IsSound s m life v) (ap (λ (y : Object w). y.stage) same ∙ h))

  -- Over the life of a muxer, through every interleaving of its send thread with its constructor, its
  -- destructor and the threads that post in between: from the moment when the destructor has set the
  -- flag, the transport is not written to; and when the destructor has returned, the send thread has
  -- ended, and nothing of the muxer happens any more if no thread uses it after that.
  pub ended_muxer_silent :
      (m : Muxer w) (transport : w.State) (s t u : Object w)
      → Life w host fuel (begin w m transport) s
      → s.stage ≡ signalled
      → Life w host fuel s t
      → t.stage ≡ destroyed
      → Life w host fuel t u
      → Unwritten w ((s.system).muxer).transport ((t.system).muxer).transport
        × ((t.system).phase ≡ exited)
        × (u ≡ t)
  ended_muxer_silent m transport s t u life h later h' after =
      let v =
        Life-IsSound (begin w m transport) s life
          (record { flagged = λ e. absurd e; ended = λ e. cc }) in
      let v' = Life-IsSound s t later v in
      let quiet =
        Life-IsHalted ((s.system).muxer).transport s t later (v.flagged (rw h tt), untouched) in
      (quiet.1, v'.ended h', still t u after v' h')
