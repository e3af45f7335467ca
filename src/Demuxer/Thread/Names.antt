-- ===== src/Demuxer/Thread/Names.antt =====
-- The names of the types that have subscribers: toString, which is called for the log by unsubscribe
-- and by the destructor's warnings, reads past its table for a type that has none.
use packetcomms.Base.{
  ℕ, In, ◌+◌, ◌^◌, ◌≤◌, ◌≡◌, ◌≢◌, ◌⊎◌, inl, inr, refl, sym, ap, ◌∙◌, Bool-cases, String, List, [],
  ◌∷◌, ◌++◌, ◌==◌, length, done, >>=-eq-done, arith,
}
use packetcomms.Wire.{Endian}
use packetcomms.IdManager.{IdManager, to_id, to_string, new_id_manager}
use packetcomms.IdManager.Numbering.{to_id-to_string}
use packetcomms.Subscribers.{Subscriber, lookup, insert, count, remove_one}
use packetcomms.Subscribers.Laws.{lookup-insert}
use packetcomms.Transport.{Reader}
use packetcomms.Demuxer.{
  Demuxer, new_demuxer, signal_transport_error, handle_control_message, unsubscribe,
  warn_about_subscribers,
}
use packetcomms.Demuxer.Subscriptions.{IsUnique, times, subscribe_cases, register, unsubscribe_lem}
use packetcomms.Demuxer.Thread.{
  System, start, open_queue, unblock, cut_off, call, Step, greets, gets_nothing, gets_control, gets,
  calls, unlocks, exits, subscribes, unsubscribes, destroys, unblocks, interrupts, Reach, here,
  next,
}
use packetcomms.Demuxer.Thread.Calls.{Keeps, receive_packet-Keeps, receive_hello_message-Keeps}
use packetcomms.Demuxer.Thread.Registrations.{Step-IsUnique}

List-cases :
    (q : List Subscriber) → (q ≡ []) ⊎ ((x : Subscriber) × (xs : List Subscriber) × (q ≡ x ∷ xs))
List-cases [] = inl refl
List-cases (x ∷ xs) = inr (x, xs, refl)

-- The demuxer's numbering is `m`, and each type that has a subscriber has a name in it.
pub record IsNamed (m : IdManager) {r : Reader} (d : Demuxer r) : Type 0 where
  pub ids : d.packet_ids ≡ m
  pub named : (k : ℕ) → lookup k d.subscribers ≢ [] → (name : String) × (to_string m k ≡ done name)

-- What the warnings are to say: the number and the name for each type that has subscribers.
abbrev pub Tells : {r : Reader} → Demuxer r → List ℕ → List (ℕ × String) → Type 0
Tells d order ws =
    (k : ℕ)
    → In k order
    → lookup k d.subscribers ≢ []
    → (name : String) × (to_id d.packet_ids name ≡ done k)
      × In (length (lookup k d.subscribers), name) ws

module _ (r : Reader) (m : IdManager) where
  -- A change of one queue, to one that is empty or has a name.
  insert-IsNamed :
      (d d' : Demuxer r) (j : ℕ) (q : List Subscriber)
      → IsNamed m d
      → d'.packet_ids ≡ d.packet_ids
      → d'.subscribers ≡ insert j q d.subscribers
      → (q ≢ [] → (name : String) × (to_string m j ≡ done name))
      → IsNamed m d'
  insert-IsNamed d d' j q v e s named = record {
    ids = e ∙ v.ids;
    named = λ k n. elim (Bool-cases (j == k)) [
      | inl y ↦
          let y' : j ≡ k = ground arith in
          let same : lookup k d'.subscribers ≡ q =
            ap (lookup k) s ∙ lookup-insert j k q d.subscribers ∙ rw y refl in
          rw (← y') (named (λ z. n (same ∙ z)))
      | inr o ↦
          let same : lookup k d'.subscribers ≡ lookup k d.subscribers =
            ap (lookup k) s ∙ lookup-insert j k q d.subscribers ∙ rw o refl in
          v.named k (λ z. n (same ∙ z))
    ];
  }

  IsNamed-Keeps : (d d' : Demuxer r) → Keeps d d' → IsNamed m d → IsNamed m d'
  IsNamed-Keeps d d' k v = record {
    ids = k.ids ∙ v.ids;
    named = λ j n. v.named j (λ z. n (ap (lookup j) k.subscribers ∙ z));
  }

  unsubscribe-IsNamed :
      (d d' : Demuxer r) (x : Subscriber) → unsubscribe r d x ≡ done d' → IsNamed m d → IsNamed m d'
  unfolding unsubscribe
  unsubscribe-IsNamed d d' x h v =
      let a = >>=-eq-done (to_string d.packet_ids x.type) _ h in
      let b = >>=-eq-done (remove_one x.address (lookup x.type d.subscribers)) _ a.2 in
      let made : record d { subscribers = insert x.type b.0 d.subscribers } ≡ d' = cc (b.2) in
      insert-IsNamed d d' x.type b.0 v (sym (ap (λ (y : Demuxer r). y.packet_ids) made))
        (sym (ap (λ (y : Demuxer r). y.subscribers) made)) (λ n. (a.0, rw (v.ids) at a.1))

module _ (r : Reader) (host : Endian) (fuel : ℕ) (names : List String) (m : IdManager)
    (small : length names + 2 ≤ 2 ^ 32) (made : new_id_manager names ≡ done m) where
  Step-IsNamed : (s t : System r) → Step r host fuel s t → IsNamed m s.demuxer → IsNamed m t.demuxer
  Step-IsNamed s t (greets d i e q) v =
      rw q
        (IsNamed-Keeps r m s.demuxer d (receive_hello_message-Keeps r host fuel _ s.demuxer d e) v)
  Step-IsNamed s t (gets_nothing d i c e q) v =
      rw q (IsNamed-Keeps r m s.demuxer d (receive_packet-Keeps r host fuel _ s.demuxer d _ e) v)
  Step-IsNamed s t (gets_control d p i c e n q) v = rw q (
      unfold handle_control_message in
      IsNamed-Keeps r m s.demuxer d (receive_packet-Keeps r host fuel _ s.demuxer d _ e) v)
  Step-IsNamed s t (gets d p i c e n q) v =
      let u =
        IsNamed-Keeps r m s.demuxer d (receive_packet-Keeps r host fuel _ s.demuxer d _ e) v in
      rw q (
        insert-IsNamed r m d (open_queue r p d) p.type (lookup p.type d.subscribers) u
          (unfold open_queue in refl) (unfold open_queue in refl) (u.named p.type))
  Step-IsNamed s t (calls p x todo i q) v =
      rw q (unfold call in record { ids = v.ids; named = v.named })
  Step-IsNamed s t (unlocks p i q) v = rw q v
  Step-IsNamed s t (exits i e q) v = rw q v
  Step-IsNamed s t (subscribes name d x f e q) v =
      let c = subscribe_cases r s.demuxer d name x e in
      let known : to_id m name ≡ done x.type = rw (v.ids) at c.0 in
      rw (q, c.2)
        (insert-IsNamed r m s.demuxer (register s.demuxer x) x.type
          (lookup x.type (s.demuxer).subscribers ++ (x ∷ [])) v refl refl
          (λ n. (name, (to_id-to_string names m small made name x.type).0 known)))
  Step-IsNamed s t (unsubscribes x d f e q) v = rw q (unsubscribe-IsNamed r m s.demuxer d x e v)
  Step-IsNamed s t (destroys q) v =
      rw q (unfold signal_transport_error in record { ids = v.ids; named = v.named })
  Step-IsNamed s t (unblocks q) v = rw q (unfold unblock in record { ids = v.ids; named = v.named })
  Step-IsNamed s t (interrupts n ms x i c e q) v =
      rw q (unfold cut_off in record { ids = v.ids; named = v.named })

  -- What holds of a demuxer throughout its life.
  abbrev pub IsSound : Demuxer r → Type 0
  IsSound d = IsUnique d × IsNamed m d

  pub Reach-IsSound :
      (s t : System r) → Reach r host fuel s t → IsSound s.demuxer → IsSound t.demuxer
  Reach-IsSound s t here v = v
  Reach-IsSound s t (next {t = u} run st) v =
      let ih = Reach-IsSound s u run v in
      (Step-IsUnique r host fuel u t st ih.0, Step-IsNamed u t st ih.1)

  pub new-IsSound :
      (d : Demuxer r) (transport : r.State) → new_demuxer r names transport ≡ done d → IsSound d
  unfolding new_demuxer lookup count
  new-IsSound d transport h =
      let a = >>=-eq-done (new_id_manager names) _ h in
      let same : a.0 ≡ m = cc (a.1, made) in
      let ids : d.packet_ids ≡ m = cc (a.2, same) in
      let empty : d.subscribers ≡ [] = cc (a.2) in
      (
        record { once = λ k a. rw (empty) (omega arith); fresh = λ k a i. rw (empty) refl },
        record { ids = ids; named = λ k n. absurd (n (rw (empty) refl)) },
      )

  registered_named :
      (d : Demuxer r) (k a : ℕ)
      → IsNamed m d
      → times d k a ≢ 0
      → (name : String) × (to_string d.packet_ids k ≡ done name)
  unfolding count
  registered_named d k a v n = rw (v.ids) (v.named k (λ z. n (ap (count a) z)))

  -- Over the life of a demuxer that was made of fewer than 2^32 - 1 names, through every interleaving,
  -- an object that is registered for its type can be unsubscribed: the look-up of the name for the log
  -- and the assert both succeed, and the object is then not registered for that type.
  pub unsubscribe_returns :
      (d : Demuxer r) (transport : r.State) (t : System r) (x : Subscriber)
      → new_demuxer r names transport ≡ done d
      → Reach r host fuel (start r d) t
      → times t.demuxer x.type x.address ≢ 0
      → (d' : Demuxer r) × (unsubscribe r t.demuxer x ≡ done d') × (times d' x.type x.address ≡ 0)
  unsubscribe_returns d transport t x h run n =
      let v = Reach-IsSound (start r d) t run (new-IsSound d transport h) in
      let known = registered_named t.demuxer x.type x.address v.1 n in
      let one : times t.demuxer x.type x.address ≡ 1 =
        omega (arith, n, (v.0).once x.type x.address) in
      let u = unsubscribe_lem r t.demuxer x known.0 v.0 known.1 one in (u.0, u.1, u.3)

  warn_step :
      (d : Demuxer r) (k : ℕ) (order : List ℕ) (name : String) (ws : List (ℕ × String))
      → lookup k d.subscribers ≢ []
      → to_string d.packet_ids k ≡ done name
      → warn_about_subscribers r d order ≡ done ws
      → warn_about_subscribers r d (k ∷ order) ≡ done ((length (lookup k d.subscribers), name) ∷ ws)
  unfolding warn_about_subscribers
  warn_step d k order name ws n known rest = elim (List-cases (lookup k d.subscribers)) [
    | inl e ↦ absurd (n e)
    | inr (x, xs, e) ↦ rw (e, known, rest) (ground arith)
  ]

  warn_skip :
      (d : Demuxer r) (k : ℕ) (order : List ℕ)
      → lookup k d.subscribers ≡ []
      → warn_about_subscribers r d (k ∷ order) ≡ warn_about_subscribers r d order
  unfolding warn_about_subscribers
  warn_skip d k order e = rw e refl

  pub warnings :
      (d : Demuxer r) (order : List ℕ)
      → IsNamed m d
      → (ws : List (ℕ × String)) × (warn_about_subscribers r d order ≡ done ws) × Tells d order ws
  warnings d [] v = ([], unfold warn_about_subscribers in refl, λ k i. absurd i)
  warnings d (k ∷ order) v =
      let ih = warnings d order v in
      elim (List-cases (lookup k d.subscribers)) [
        | inl e ↦ (
          ih.0,
          warn_skip d k order e ∙ ih.1,
          λ j i n. elim i [ inl q ↦ absurd (n (rw (← q) e)) | inr later ↦ ih.2 j later n ],
        )
        | inr (x, xs, e) ↦
            let full : lookup k d.subscribers ≢ [] = λ z. absurd cc in
            let known = v.named k full in
            let known' : to_string d.packet_ids k ≡ done known.0 = rw (v.ids) (known.1) in
            (
              (length (lookup k d.subscribers), known.0) ∷ ih.0,
              warn_step d k order known.0 ih.0 full known' ih.1,
              λ j i n. elim i [
                | inl q ↦
                    rw (← q, v.ids)
                      (known.0, (to_id-to_string names m small made known.0 k).1 known.1, inl refl)
                | inr later ↦ let w = ih.2 j later n in (w.0, w.1, inr w.2)
              ],
            )
      ]

  -- Over the same life, the destructor can give its warnings, in whatever order the table is gone
  -- through: no look-up of a name reads past the names, and for each type gone through that has
  -- subscribers one of the warnings gives their number with the name of that type.
  pub warn_about_subscribers_lem :
      (d : Demuxer r) (transport : r.State) (t : System r) (order : List ℕ)
      → new_demuxer r names transport ≡ done d
      → Reach r host fuel (start r d) t
      → (ws : List (ℕ × String)) × (warn_about_subscribers r t.demuxer order ≡ done ws)
        × Tells t.demuxer order ws
  warn_about_subscribers_lem d transport t order h run =
      warnings t.demuxer order ((Reach-IsSound (start r d) t run (new-IsSound d transport h)).1)
