-- ===== src/Network/Descriptors/Copies.antt =====
-- The implicit copy constructor of Socket of src/network/Socket.h.
use packetcomms.Base.{
  ℕ, ◌≡◌, ◌≢◌, refl, String, List, [], ◌∷◌, ◌++◌, true, false, Option, ℤ, minus_one, In, All,
  All-In, All-remove, All-insert, Distinct-remove,
}
use packetcomms.Wire.{Endian}
use packetcomms.Network.Posix.{Posix}
use packetcomms.Network.Socket.{destroy}
use packetcomms.Network.Descriptors.{
  Process, copies, assigns, destroys, Reach, here, next, Uncopied,
}
use packetcomms.Network.Descriptors.Laws.{DescriptorLaws}
use packetcomms.Network.Descriptors.Lifetimes.{
  closed-destroy, without_sockets, without_sockets-IsOwned, Reach-IsOwned,
}

module _ (k : Posix) (laws : DescriptorLaws k) (host : Endian)
    (resolve : String → Option (List ℕ)) where
  open laws use {is_open}

  -- From a process without sockets, let any steps be made but copies and assignments of sockets. Then
  -- every socket object that there is can be copied and the copy be destroyed, which leaves the objects
  -- that there were, and the one that was copied with a descriptor that was open and is closed now.
  pub copy_closes :
      (s₀ : k.State) (p : Process k)
      (run : Reach k host resolve (without_sockets k laws host resolve s₀) p) (fd : ℤ)
      → Uncopied k host resolve run
      → In fd p.sockets
      → (q : Process k) × Reach k host resolve p q
        × (q.sockets ≡ p.sockets)
        × (is_open p.system fd ≡ true)
        × (is_open q.system fd ≡ false)
  copy_closes s₀ p run fd own i =
      let v =
        Reach-IsOwned k laws host resolve s₀ (without_sockets k laws host resolve s₀) p run own
          (without_sockets-IsOwned k laws host resolve s₀) in
      let now = All-In (λ d. is_open p.system d ≡ true) p.sockets fd v.open_now i in
      let valid = All-In (λ d. d ≢ minus_one) p.sockets fd v.valid i in
      (
        record { system = destroy k p.system fd; sockets = p.sockets },
        next {q = record p { sockets = fd ∷ p.sockets }} (next here (copies fd i refl))
            (destroys [] fd p.sockets refl refl),
        refl,
        now,
        rw (closed-destroy k laws p.system fd valid) ((laws.closes p.system fd now).0),
      )

  -- Between two socket objects of such a process, one can be assigned to the other, which keeps the
  -- descriptor that the other had open, though it was closed at the start and no object has it now.
  pub assign_leaks :
      (s₀ : k.State) (p : Process k)
      (run : Reach k host resolve (without_sockets k laws host resolve s₀) p) (before : List ℤ)
      (old : ℤ) (after : List ℤ) (fd : ℤ)
      → Uncopied k host resolve run
      → p.sockets ≡ before ++ (old ∷ after)
      → In fd p.sockets
      → fd ≢ old
      → (q : Process k) × Reach k host resolve p q
        × (q.sockets ≡ before ++ (fd ∷ after))
        × All (λ d. d ≢ old) q.sockets
        × (is_open q.system old ≡ true)
        × (is_open s₀ old ≡ false)
  assign_leaks s₀ p run before old after fd own split i other =
      let v =
        Reach-IsOwned k laws host resolve s₀ (without_sockets k laws host resolve s₀) p run own
          (without_sockets-IsOwned k laws host resolve s₀) in
      let rest = Distinct-remove before after old (rw split at (v.distinct)) in
      let now =
        All-remove (λ d. is_open p.system d ≡ true) before after old (rw split at (v.open_now)) in
      let first =
        All-remove (λ d. is_open s₀ d ≡ false) before after old (rw split at (v.closed_first)) in
      (
        record p { sockets = before ++ (fd ∷ after) },
        next here (assigns before old after fd split i refl),
        refl,
        All-insert (λ d. d ≢ old) before after fd other rest.1,
        now.0,
        first.0,
      )
