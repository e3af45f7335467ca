-- ===== src/Network/Descriptors/Owned.antt =====
-- What a process with socket objects keeps: every object has a descriptor of its own.
use packetcomms.Base.{
  ◌≡◌, ◌≢◌, inl, inr, sym, ◌∙◌, List, ◌∷◌, ◌++◌, true, false, ℤ, ℤ-same, minus_one, All, All-map,
  All-remove, All-insert, All-both, Distinct, Distinct-remove,
}
use packetcomms.Network.Posix.{Posix}
use packetcomms.Network.Descriptors.{Process}
use packetcomms.Network.Descriptors.Laws.{Opens, DescriptorLaws}

module _ (k : Posix) (laws : DescriptorLaws k) where
  open laws use {is_open}

  -- Against the state in which no object was there yet: every object has a descriptor of its own, opened
  -- since then, and all other descriptors are as they were.
  pub record IsOwned (s₀ : k.State) (p : Process k) : Type 0 where
    pub distinct : Distinct p.sockets
    pub valid : All (λ d. d ≢ minus_one) p.sockets
    pub open_now : All (λ d. is_open p.system d ≡ true) p.sockets
    pub closed_first : All (λ d. is_open s₀ d ≡ false) p.sockets
    pub others : (d : ℤ) → All (λ x. x ≢ d) p.sockets → is_open p.system d ≡ is_open s₀ d

  pub opened-IsOwned :
      (s₀ : k.State) (p : Process k) (s : k.State) (fd : ℤ)
      → Opens is_open p.system s fd
      → fd ≢ minus_one
      → IsOwned s₀ p
      → IsOwned s₀ (record { system = s; sockets = fd ∷ p.sockets })
  opened-IsOwned s₀ p s fd o r v =
      let away : (x : ℤ) → is_open p.system x ≡ true → fd ≢ x =
        λ x e q. let no : is_open p.system fd ≡ true = rw q e in absurd (cc (o.fresh)) in
      let apart =
        All-map (λ x. is_open p.system x ≡ true) (λ x. fd ≢ x) away p.sockets v.open_now in
      record {
        distinct = (apart, v.distinct);
        valid = (r, v.valid);
        open_now = (
          o.open_now,
          All-map (λ x. is_open p.system x ≡ true) (λ x. is_open s x ≡ true)
              (λ x e. o.others_kept x (λ q. away x e (sym q)) ∙ e) p.sockets v.open_now,
        );
        closed_first = (
          sym (
                v.others fd
                  (All-map (λ x. fd ≢ x) (λ x. x ≢ fd) (λ x n q. n (sym q)) p.sockets apart))
              ∙ o.fresh,
          v.closed_first,
        );
        others = λ d n. o.others_kept d (λ q. n.0 (sym q)) ∙ v.others d n.1;
      }

  pub kept-IsOwned :
      (s₀ : k.State) (p : Process k) (s : k.State)
      → ((d : ℤ) → is_open s d ≡ is_open p.system d)
      → IsOwned s₀ p
      → IsOwned s₀ (record p { system = s })
  kept-IsOwned s₀ p s e v = record {
    distinct = v.distinct;
    valid = v.valid;
    open_now =
        All-map (λ x. is_open p.system x ≡ true) (λ x. is_open s x ≡ true) (λ x o. e x ∙ o)
          p.sockets v.open_now;
    closed_first = v.closed_first;
    others = λ d n. e d ∙ v.others d n;
  }

  pub closed-IsOwned :
      (s₀ : k.State) (p : Process k) (before : List ℤ) (fd : ℤ) (after : List ℤ)
      → p.sockets ≡ before ++ (fd ∷ after)
      → IsOwned s₀ p
      → IsOwned s₀ (record { system = k.close p.system fd; sockets = before ++ after })
  closed-IsOwned s₀ p before fd after e v =
      let d = Distinct-remove before after fd (rw e at (v.distinct)) in
      let r = All-remove (λ x. x ≢ minus_one) before after fd (rw e at (v.valid)) in
      let o = All-remove (λ x. is_open p.system x ≡ true) before after fd (rw e at (v.open_now)) in
      let c = All-remove (λ x. is_open s₀ x ≡ false) before after fd (rw e at (v.closed_first)) in
      let shut = laws.closes p.system fd o.0 in
      record {
        distinct = d.0;
        valid = r.1;
        open_now =
            All-map (λ x. (x ≢ fd) × (is_open p.system x ≡ true))
              (λ x. is_open (k.close p.system fd) x ≡ true) (λ x h. shut.1 x h.0 ∙ h.1)
              (before ++ after)
              (All-both (λ x. x ≢ fd) (λ x. is_open p.system x ≡ true) (before ++ after) d.1 o.1);
        closed_first = c.1;
        others = λ x n. elim (ℤ-same fd x) [
          | inl q ↦ rw (← q) (shut.0 ∙ sym c.0)
          | inr m ↦
              shut.1 x (λ q. m (sym q))
              ∙ v.others x (rw e (All-insert (λ y. y ≢ x) before after fd m n))
        ];
      }
