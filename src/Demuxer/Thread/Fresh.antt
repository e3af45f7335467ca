-- ===== src/Demuxer/Thread/Fresh.antt =====
-- An object that is not made yet was not called, through every interleaving; and runs one after another.
use packetcomms.Base.{ℕ, ◌≤◌, ◌≡◌, refl, ap, ◌∙◌, sym, [], ◌++◌, append_assoc, append-nil, arith}
use packetcomms.Wire.{Endian}
use packetcomms.ComPacket.{ComPacket}
use packetcomms.Subscribers.{lookup}
use packetcomms.Transport.{Reader}
use packetcomms.Demuxer.{Demuxer, signal_transport_error, handle_control_message}
use packetcomms.Demuxer.Subscriptions.{IsUnique, times, subscribe_cases}
use packetcomms.Demuxer.Thread.{
  Phase, idle, exited, delivering, System, pending_calls, open_queue, unblock, cut_off, call, Step,
  greets, gets_nothing, gets_control, gets, calls, unlocks, exits, subscribes, unsubscribes,
  destroys, unblocks, interrupts, Reach, here, next,
}
use packetcomms.Demuxer.Thread.Calls.{
  Keeps, receive_packet-Keeps, receive_hello_message-Keeps, calls_to, calls_to-append,
  calls_to-queue,
}
use packetcomms.Demuxer.Thread.Registrations.{
  unsubscribe_cases, received_by, received, Step-IsUnique,
}
use packetcomms.Demuxer.Thread.Handed.{handed, handed_calls, receiving-pending}

module _ (r : Reader) (host : Endian) (fuel : ℕ) where
  -- No object from the next address on was called or is about to be.
  abbrev pub IsUncalled : System r → Type 0
  IsUncalled s = (a : ℕ) → (s.demuxer).next_address ≤ a → handed r host fuel a s ≡ []

  same-IsUncalled :
      (s : System r) (d : Demuxer r) (ph : Phase)
      → (s.demuxer).next_address ≤ d.next_address
      → d.delivered ≡ (s.demuxer).delivered
      → pending_calls ph ≡ pending_calls s.phase
      → IsUncalled s
      → IsUncalled (record { demuxer = d; phase = ph })
  same-IsUncalled s d ph l e q v a h = rw (e, q) (v a (omega arith))

  gets-IsUncalled :
      (s : System r) (d : Demuxer r) (p : ComPacket)
      → Keeps s.demuxer d
      → s.phase ≡ idle
      → IsUnique s.demuxer
      → IsUncalled s
      → IsUncalled (record {
        demuxer = open_queue r p d;
        phase = delivering p (lookup p.type d.subscribers);
      })
  unfolding open_queue pending_calls
  gets-IsUncalled s d p k i u v a h =
      let old : calls_to a (d.delivered ++ []) ≡ [] =
        rw (k.delivered) (rw i at (v a (rw (k.next_address) at h))) in
      let none : times d p.type a ≡ 0 =
        rw (k.subscribers) (u.fresh p.type a (rw (k.next_address) at h)) in
      calls_to-append a d.delivered _
      ∙ rw (calls_to-queue a p (lookup p.type d.subscribers), none)
          (append-nil (calls_to a d.delivered)
            ∙ ap (calls_to a) (sym (append-nil d.delivered))
            ∙ old)

  Step-IsUncalled :
      (s t : System r) → Step r host fuel s t → IsUnique s.demuxer → IsUncalled s → IsUncalled t
  Step-IsUncalled s t (greets d i e q) u v =
      let k = receive_hello_message-Keeps r host fuel _ s.demuxer d e in
      rw q (
        same-IsUncalled s d idle (rw (k.next_address) (omega arith)) k.delivered
          (rw i (unfold pending_calls in refl)) v)
  Step-IsUncalled s t (gets_nothing d i c e q) u v =
      let k = receive_packet-Keeps r host fuel _ s.demuxer d _ e in
      rw q (same-IsUncalled s d idle (rw (k.next_address) (omega arith)) k.delivered (rw i refl) v)
  Step-IsUncalled s t (gets_control d p i c e m q) u v =
      let k = receive_packet-Keeps r host fuel _ s.demuxer d _ e in
      rw q (
        same-IsUncalled s (handle_control_message r p d) idle
          (unfold handle_control_message in rw (k.next_address) (omega arith))
          (unfold handle_control_message in k.delivered) (rw i refl) v)
  Step-IsUncalled s t (gets d p i c e m q) u v =
      rw q (gets-IsUncalled s d p (receive_packet-Keeps r host fuel _ s.demuxer d _ e) i u v)
  Step-IsUncalled s t (calls p x todo i q) u v =
      rw q λ a h. handed_calls r host fuel a p x todo s i ∙ v a (unfold call in h)
  Step-IsUncalled s t (unlocks p i q) u v =
      rw q (
        same-IsUncalled s s.demuxer idle (omega arith) refl (rw i (unfold pending_calls in refl)) v)
  Step-IsUncalled s t (exits i e q) u v = rw q (
      same-IsUncalled s s.demuxer exited (omega arith) refl (rw i (unfold pending_calls in refl)) v)
  Step-IsUncalled s t (subscribes name d x f e q) u v =
      let c = subscribe_cases r s.demuxer d name x e in
      rw q (
        same-IsUncalled s d s.phase (rw (c.2) (omega arith))
          (ap (λ (y : Demuxer r). y.delivered) c.2) refl v)
  Step-IsUncalled s t (unsubscribes x d f e q) u v =
      let c = unsubscribe_cases r s.demuxer d x u e in
      rw q (same-IsUncalled s d s.phase (rw (c.2) (omega arith)) c.4 refl v)
  Step-IsUncalled s t (destroys q) u v = rw q (
      unfold signal_transport_error in
      same-IsUncalled s (signal_transport_error r s.demuxer) s.phase (omega arith) refl refl v)
  Step-IsUncalled s t (unblocks q) u v =
      rw q (
        unfold unblock in same-IsUncalled s (unblock r s.demuxer) s.phase (omega arith) refl refl v)
  Step-IsUncalled s t (interrupts n ms x i c e q) u v = rw q (
      unfold cut_off in
      same-IsUncalled s (cut_off r x s.demuxer) idle (omega arith) refl
        (receiving-pending s.phase ms i) v)

  pub Reach-IsUncalled :
      (s t : System r)
      → Reach r host fuel s t
      → IsUnique s.demuxer
      → IsUncalled s
      → IsUnique t.demuxer × IsUncalled t
  Reach-IsUncalled s t here u v = (u, v)
  Reach-IsUncalled s t (next {t = m} run st) u v =
      let ih = Reach-IsUncalled s m run u v in
      (Step-IsUnique r host fuel m t st ih.0, Step-IsUncalled m t st ih.0 ih.1)

  -- One run after another.
  unfoldable pub after :
      (s t u : System r) → Reach r host fuel s t → Reach r host fuel t u → Reach r host fuel s u
  after s t u first here = first
  after s t u first (next {t = m} run st) = next (after s t m first run) st

  pub received-after :
      (s t u : System r) (first : Reach r host fuel s t) (run : Reach r host fuel t u)
      → received r host fuel (after s t u first run)
        ≡ received r host fuel first ++ received r host fuel run
  unfolding after received
  received-after s t u first here = sym (append-nil (received r host fuel first))
  received-after s t u first (next {t = m} run st) = rw (received-after s t m first run) (
      append_assoc (received r host fuel first) (received r host fuel run)
        (received_by r host fuel st))
