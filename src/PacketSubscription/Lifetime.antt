-- ===== src/PacketSubscription/Lifetime.antt =====
-- What the end of a subscription's scope does.
use packetcomms.Base.{
  ℕ, ◌≡◌, ◌≢◌, ◌⊎◌, inl, inr, refl, sym, ◌∙◌, String, Bool-cases, Option, none, some, ◌==◌, done,
  arith,
}
use packetcomms.IdManager.{to_string}
use packetcomms.Subscribers.{Subscriber}
use packetcomms.Transport.{Reader}
use packetcomms.Demuxer
use packetcomms.Demuxer.{Demuxer, subscribe}
use packetcomms.Demuxer.Subscriptions.{IsUnique, times, subscribe_lem, unsubscribe_lem}
use packetcomms.PacketSubscription.{Handle, move_construct, destroy}

module _ (r : Reader) where
  destroy_registered :
      (d d' : Demuxer r) (x : Subscriber)
      → times d x.type x.address ≡ 1
      → Demuxer.unsubscribe r d x ≡ done d'
      → destroy r (some d) (some x) ≡ done (some d')
  unfolding destroy
  destroy_registered d d' x one e = rw (one, e, destroy) refl

  -- Where no object is registered twice for a type, a subscription whose type has a name and whose
  -- scope ends right after it was made, while its demuxer lives, leaves every registration as it was
  -- before it was made.
  pub destroy-subscribe :
      (d d' : Demuxer r) (name : String) (x : Subscriber) (type_name : String)
      → IsUnique d
      → subscribe r d name ≡ done (d', x)
      → to_string d'.packet_ids x.type ≡ done type_name
      → (d'' : Demuxer r) × (destroy r (some d') (some x) ≡ done (some d''))
        × IsUnique d''
        × ((k a : ℕ) → times d'' k a ≡ times d k a)
  destroy-subscribe d d' name x type_name v h known =
      let s = subscribe_lem r d d' name x v h in
      let u = unsubscribe_lem r d' x type_name s.0 known s.3 in
      (u.0, destroy_registered d' u.0 x s.3 u.1, u.2, same u.0 s.2 u.3 s.4 u.4)
    where
      same :
          (e : Demuxer r)
          → times d x.type x.address ≡ 0
          → times e x.type x.address ≡ 0
          → ((k a : ℕ) → (a ≢ x.address) ⊎ (k ≢ x.type) → times d' k a ≡ times d k a)
          → ((k a : ℕ) → (a ≢ x.address) ⊎ (k ≢ x.type) → times e k a ≡ times d' k a)
          → (k a : ℕ) → times e k a ≡ times d k a
      same e before after f g k a = elim (Bool-cases (a == x.address)) [
        | inr n ↦ let o : (a ≢ x.address) ⊎ (k ≢ x.type) = inl (ground arith) in g k a o ∙ f k a o
        | inl y ↦ elim (Bool-cases (k == x.type)) [
          | inr n ↦ let o : (a ≢ x.address) ⊎ (k ≢ x.type) = inr (ground arith) in g k a o ∙ f k a o
          | inl z ↦
              let ea : a ≡ x.address = ground arith in
              let ek : k ≡ x.type = ground arith in rw (ea, ek) (after ∙ sym before)
        ]
      ]

  -- A handle that was moved from, and a handle whose demuxer is gone, do nothing when their scope
  -- ends: the destroyed demuxer is not touched.
  pub destroy_idle :
      (owner : Option (Demuxer r)) (h : Handle) (x : Subscriber)
      → (destroy r owner (move_construct h).1 ≡ done owner)
        × (destroy r none (move_construct (some x)).0 ≡ done none)
  unfolding destroy move_construct
  destroy_idle owner h x = (refl, refl)
