-- ===== src/Demuxer/Subscriptions.antt =====
-- subscribe, unsubscribe and isSubscribed of src/PacketDemuxer.cpp.
use packetcomms.Base.{
  ℕ, ◌+◌, ◌≤◌, ◌≡◌, ◌≢◌, ◌⊎◌, inl, inr, refl, sym, ap, ◌∙◌, String, List, [], ◌∷◌, ◌++◌, true,
  false, Bool-cases, ◌==◌, if◌then◌else◌, done, >>=-eq-done, arith,
}
use packetcomms.IdManager.{to_id, to_string}
use packetcomms.Subscribers.{Subscriber, lookup, insert, without, count}
use packetcomms.Subscribers.Laws.{
  lookup-insert, contains-count, count-append, count_one, count-without, count-without_other,
  remove_one_once,
}
use packetcomms.Transport.{Reader}
use packetcomms.Demuxer.{Demuxer, subscribe, unsubscribe, is_subscribed}

-- How often an object is registered for a type.
abbrev pub times : {r : Reader} → Demuxer r → ℕ → ℕ → ℕ
times d k a = count a (lookup k d.subscribers)

-- No object is registered twice for a type, and none that does not exist yet.
pub record IsUnique {r : Reader} (d : Demuxer r) : Type 0 where
  pub once : (k a : ℕ) → times d k a ≤ 1
  pub fresh : (k a : ℕ) → d.next_address ≤ a → times d k a ≡ 0

abbrev pub register : {r : Reader} → Demuxer r → Subscriber → Demuxer r
register d x = record d {
  subscribers = insert x.type (lookup x.type d.subscribers ++ (x ∷ [])) d.subscribers;
  next_address = d.next_address + 1;
}

module _ (r : Reader) where
  pub subscribe_cases :
      (d d' : Demuxer r) (name : String) (x : Subscriber)
      → subscribe r d name ≡ done (d', x)
      → (to_id d.packet_ids name ≡ done x.type) × (x.address ≡ d.next_address) × (d' ≡ register d x)
  unfolding subscribe
  subscribe_cases d d' name x h =
      let run = >>=-eq-done (to_id d.packet_ids name) _ h in
      let x₀ : Subscriber = record { address = d.next_address; type = run.0 } in
      let e : x₀ ≡ x = cc (run.2) in
      let first : register d x₀ ≡ d' = cc (run.2) in
      let t : run.0 ≡ x.type = ap (λ (y : Subscriber). y.type) e in
      (run.1 ∙ ap done t, sym (ap (λ (y : Subscriber). y.address) e), sym first ∙ ap (register d) e)

  pub times-subscribe :
      (d d' : Demuxer r) (name : String) (x : Subscriber) (k a : ℕ)
      → subscribe r d name ≡ done (d', x)
      → times d' k a ≡ times d k a + (if x.type == k then (if x.address == a then 1 else 0) else 0)
  times-subscribe d d' name x k a h =
      let c = subscribe_cases d d' name x h in
      rw c.2 (
        ground (
          arith,
          lookup-insert x.type k (lookup x.type d.subscribers ++ (x ∷ [])) d.subscribers,
          count-append a (lookup x.type d.subscribers) (x ∷ []),
          count_one a x,
        ))

  -- Where no object is registered twice for a type, a subscribe that succeeds registers a new
  -- subscriber for the type of its name, once, leaves every other registration as it was, and keeps
  -- that no object is registered twice.
  pub subscribe_lem :
      (d d' : Demuxer r) (name : String) (x : Subscriber)
      → IsUnique d
      → subscribe r d name ≡ done (d', x)
      → IsUnique d'
        × (to_id d.packet_ids name ≡ done x.type)
        × (times d x.type x.address ≡ 0)
        × (times d' x.type x.address ≡ 1)
        × ((k a : ℕ) → (a ≢ x.address) ⊎ (k ≢ x.type) → times d' k a ≡ times d k a)
  subscribe_lem d d' name x v h =
      let c = subscribe_cases d d' name x h in
      let now = λ (k a : ℕ). times-subscribe d d' name x k a h in
      let next : d'.next_address ≡ d.next_address + 1 =
        ap (λ (y : Demuxer r). y.next_address) c.2 in
      (
        record {
          once = λ k a. ground (arith, now k a, v.once k a, v.fresh k a, c.1);
          fresh = λ k a i. ground (arith, now k a, v.fresh k a, c.1, next);
        },
        c.0,
        v.fresh x.type x.address (omega (arith, c.1)),
        ground (arith, now x.type x.address, v.fresh x.type x.address, c.1),
        λ k a o. ground (arith, now k a),
      )

  pub times-insert :
      (d : Demuxer r) (q : List Subscriber) (j k a : ℕ)
      → times (record d { subscribers = insert j q d.subscribers }) k a
        ≡ (if j == k then count a q else times d k a)
  times-insert d q j k a = ground (arith, lookup-insert j k q d.subscribers)

  pub kept_times :
      (d : Demuxer r) (x : Subscriber) (k a : ℕ)
      → (a ≡ x.address)
        ⊎ (count a (without x.address (lookup x.type d.subscribers)) ≡ times d x.type a)
  kept_times d x k a = elim (Bool-cases (x.address == a)) [
    | inl e ↦ inl (ground arith)
    | inr e ↦ inr (count-without_other x.address a (lookup x.type d.subscribers) e)
  ]

  pub unsubscribe_run :
      (d : Demuxer r) (x : Subscriber) (name : String)
      → to_string d.packet_ids x.type ≡ done name
      → times d x.type x.address ≡ 1
      → unsubscribe r d x
        ≡ done (record d {
          subscribers =
              insert x.type (without x.address (lookup x.type d.subscribers)) d.subscribers;
        })
  unfolding unsubscribe
  unsubscribe_run d x name known one =
      rw (known, remove_one_once x.address (lookup x.type d.subscribers) one) refl

  -- Where no object is registered twice for a type, a registered subscriber whose type has a name is
  -- removed without a failed assert, every other registration is as it was, and still no object is
  -- registered twice.
  pub unsubscribe_lem :
      (d : Demuxer r) (x : Subscriber) (name : String)
      → IsUnique d
      → to_string d.packet_ids x.type ≡ done name
      → times d x.type x.address ≡ 1
      → (d' : Demuxer r) × (unsubscribe r d x ≡ done d')
        × IsUnique d'
        × (times d' x.type x.address ≡ 0)
        × ((k a : ℕ) → (a ≢ x.address) ⊎ (k ≢ x.type) → times d' k a ≡ times d k a)
  unsubscribe_lem d x name v known one =
      let q = without x.address (lookup x.type d.subscribers) in
      let now = λ (k a : ℕ). times-insert d q x.type k a in
      let gone = count-without x.address (lookup x.type d.subscribers) in
      let kept = λ (k a : ℕ). kept_times d x k a in
      (
        record d { subscribers = insert x.type q d.subscribers },
        unsubscribe_run d x name known one,
        record {
          once = λ k a. ground (arith, now k a, kept k a, gone, v.once k a);
          fresh = λ k a i. ground (arith, now k a, kept k a, gone, v.fresh k a);
        },
        ground (arith, now x.type x.address, gone),
        λ k a o. ground (arith, now k a, kept k a),
      )

  -- isSubscribed tells whether the object is registered for its type.
  pub is_subscribed-times :
      (d : Demuxer r) (x : Subscriber)
      → is_subscribed r d x ≡ (if times d x.type x.address == 0 then false else true)
  unfolding is_subscribed
  is_subscribed-times d x = contains-count x.address (lookup x.type d.subscribers)
