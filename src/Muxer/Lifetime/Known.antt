-- ===== src/Muxer/Lifetime/Known.antt =====
-- The names of a muxer over its life: the control packets keep their number.
use packetcomms.Base.{
  ℕ, ◌+◌, ◌^◌, ◌≤◌, ◌≡◌, refl, sym, ap, ◌∙◌, String, List, length, done, >>=-eq-done,
}
use packetcomms.Wire.{Endian}
use packetcomms.IdManager.{
  IdManager, new_id_manager, to_id, to_string, control_string, control_packet,
}
use packetcomms.IdManager.Numbering.{to_id-to_string, new_id_manager-Agrees}
use packetcomms.ControlMessage.{ControlMessage}
use packetcomms.Transport.{Writer}
use packetcomms.Muxer.{Muxer, new_muxer, shut_down, emplace_packet, send_control_message}
use packetcomms.Muxer.Pass.{send_pass-Balanced}
use packetcomms.Muxer.Thread.{
  CvStatus, timeout, no_timeout, System, unblock, woken, Step, posts, destroys, unblocks, greets,
  locks, exits, waits, sends, wakes, Reach, here, next,
}
use packetcomms.Muxer.Thread.Invariant.{
  IsCounted, IsSound, emplace_packet_cases, woken-IsCounted, Step-IsSound,
}

control_known :
    (names : List String) (m : IdManager)
    → length names + 2 ≤ 2 ^ 32
    → new_id_manager names ≡ done m
    → to_id m control_string ≡ done control_packet
unfolding to_string
control_known names m small made =
    (to_id-to_string names m small made control_string control_packet).1
      (rw ((new_id_manager-Agrees names m small made).1) refl)

module _ (w : Writer) where
  emplace_packet_ids :
      (m m' : Muxer w) (name : String) (bytes : List ℕ)
      → emplace_packet w m name bytes ≡ done m'
      → m'.packet_ids ≡ m.packet_ids
  emplace_packet_ids m m' name bytes e =
      ap (λ (y : Muxer w). y.packet_ids) ((emplace_packet_cases w m m' name bytes e).2)

  control_ids :
      (m m' : Muxer w) (msg : ControlMessage)
      → send_control_message w m msg ≡ done m'
      → m'.packet_ids ≡ m.packet_ids
  unfolding send_control_message
  control_ids m m' msg e = emplace_packet_ids m m' _ _ e

  woken_ids :
      (status : CvStatus) (m m' : Muxer w)
      → woken w status m ≡ done m'
      → m'.packet_ids ≡ m.packet_ids
  unfolding woken
  woken_ids timeout m m' e = control_ids m m' _ e
  woken_ids no_timeout m m' e = let q : m ≡ m' = cc in sym (ap (λ (y : Muxer w). y.packet_ids) q)

module _ (w : Writer) (host : Endian) (fuel : ℕ) where
  Step-ids :
      (s t : System w)
      → Step w host fuel s t
      → IsSound s
      → (t.muxer).packet_ids ≡ (s.muxer).packet_ids
  Step-ids s t (posts name bytes m free e q) v = rw q (emplace_packet_ids w s.muxer m name bytes e)
  Step-ids s t (destroys free q) v = rw q (unfold shut_down in refl)
  Step-ids s t (unblocks q) v = rw q (unfold unblock in refl)
  Step-ids s t (greets m p e q) v = rw q (control_ids w s.muxer m _ e)
  Step-ids s t (locks p q) v = rw q refl
  Step-ids s t (exits p e q) v = rw q refl
  Step-ids s t (waits p e d q) v = rw q refl
  Step-ids s t (sends order m p e d o r q) v =
      let c = v.muxer_counted in
      rw q ((send_pass-Balanced w host fuel order s.muxer m c.sent_bounded c.distinct r).ids)
  Step-ids s t (wakes status order m₁ m p e o r q) v =
      let c = woken-IsCounted w status s.muxer m₁ e v.muxer_counted in
      rw q (
        (send_pass-Balanced w host fuel order m₁ m c.sent_bounded c.distinct r).ids
        ∙ woken_ids w status s.muxer m₁ e)

  Reach-ids :
      (s t : System w)
      → Reach w host fuel s t
      → IsSound s
      → IsSound t × ((t.muxer).packet_ids ≡ (s.muxer).packet_ids)
  Reach-ids s t here v = (v, refl)
  Reach-ids s t (next {t = m} run st) v =
      let ih = Reach-ids s m run v in
      (Step-IsSound w host fuel m t st ih.0, Step-ids m t st ih.0 ∙ ih.1)

  -- The counters are right throughout, and the control packets are known.
  pub Reach-known :
      (names : List String) (x : w.State) (m : Muxer w) (s t : System w)
      → length names + 2 ≤ 2 ^ 32
      → new_muxer w names x ≡ done m
      → (s.muxer).packet_ids ≡ m.packet_ids
      → IsSound s
      → Reach w host fuel s t
      → IsCounted t.muxer × (to_id (t.muxer).packet_ids control_string ≡ done control_packet)
  unfolding new_muxer
  Reach-known names x m s t small made same v run =
      let r = Reach-ids s t run v in
      let a = >>=-eq-done (new_id_manager names) _ made in
      let ids : a.0 ≡ m.packet_ids = cc (a.2) in
      ((r.0).muxer_counted, rw (r.1, same, ← ids) (control_known names a.0 small a.1))
