-- ===== src/Network/Descriptors/Lifetimes.antt =====
-- Whose descriptor is whose, over the life of the socket objects of a process.
use packetcomms.Base.{
  ℕ, ◌≡◌, ◌≢◌, inl, inr, refl, ap, String, List, [], ◌∷◌, true, false, Bool-cases, Option, none,
  some, ℤ, minus_one, is_minus_one, is_minus_one-false, is_minus_one-true, Outcome, done, aborts,
  All, All-remove, All-both, Distinct,
}
use packetcomms.Wire.{Endian}
use packetcomms.Network.Posix.{Posix, sock_stream, sock_dgram, so_reuseaddr}
use packetcomms.Network.Socket.{destroy}
use packetcomms.Network.TcpSocket.{new_tcp_socket, accept}
use packetcomms.Network.UdpSocket.{new_udp_socket}
use packetcomms.Network.Descriptors.{
  Process, operate, Step, makes_tcp, makes_udp, accepts, accepts_none, operates, destroys, copies,
  assigns, Reach, here, next, IsOwn, Uncopied,
}
use packetcomms.Network.Descriptors.Laws.{DescriptorLaws, operate_keeps}
use packetcomms.Network.Descriptors.Owned.{IsOwned, opened-IsOwned, kept-IsOwned, closed-IsOwned}

module _ (k : Posix) where
  aborts_done : (s : k.State) (fd : ℤ) → ◌≢◌ {A = Outcome (k.State × ℤ)} aborts (done (s, fd))
  aborts_done s fd e = cc

  done_pair :
      (s : k.State) (fd : ℤ) (s' : k.State) (fd' : ℤ)
      → ◌≡◌ {A = Outcome (k.State × ℤ)} (done (s, fd)) (done (s', fd'))
      → (s ≡ s') × (fd ≡ fd')
  done_pair s fd s' fd' e = (cc, cc)

module _ (k : Posix) (laws : DescriptorLaws k) where
  open laws use {is_open}

  made_tcp :
      (s₀ : k.State) (p : Process k) (s : k.State) (fd : ℤ)
      → new_tcp_socket k p.system ≡ done (s, fd)
      → IsOwned k laws s₀ p
      → IsOwned k laws s₀ (record { system = s; sockets = fd ∷ p.sockets })
  unfolding new_tcp_socket
  made_tcp s₀ p s fd h v = elim (Bool-cases (is_minus_one (k.socket p.system sock_stream).1)) [
    | inl e ↦ absurd (aborts_done k s fd (rw e at h))
    | inr e ↦
        let n = is_minus_one-false (k.socket p.system sock_stream).1 e in
        let same =
          done_pair k (k.socket p.system sock_stream).0 (k.socket p.system sock_stream).1 s fd
            (rw e at h) in
        rw (← same.0, ← same.1)
          (opened-IsOwned k laws s₀ p (k.socket p.system sock_stream).0
            (k.socket p.system sock_stream).1 (laws.socket_opens p.system sock_stream n) n v)
  ]

  made_udp :
      (s₀ : k.State) (p : Process k) (s : k.State) (fd : ℤ)
      → new_udp_socket k p.system ≡ done (s, fd)
      → IsOwned k laws s₀ p
      → IsOwned k laws s₀ (record { system = s; sockets = fd ∷ p.sockets })
  unfolding new_udp_socket
  made_udp s₀ p s fd h v = elim (Bool-cases (is_minus_one (k.socket p.system sock_dgram).1)) [
    | inl e ↦ absurd (aborts_done k s fd (rw e at h))
    | inr e ↦
        let n = is_minus_one-false (k.socket p.system sock_dgram).1 e in
        let same =
          done_pair k (k.socket p.system sock_dgram).0 (k.socket p.system sock_dgram).1 s fd
            (rw e at h) in
        rw (← same.0, ← same.1)
          (opened-IsOwned k laws s₀ p (k.socket p.system sock_dgram).0
            (k.socket p.system sock_dgram).1 (laws.socket_opens p.system sock_dgram n) n v)
  ]

  -- The option that Accept sets first, which opens nothing.
  abbrev reusing : k.State → ℤ → k.State
  reusing s listening = (k.setsockopt s listening so_reuseaddr 1).0

  reusing-IsOwned :
      (s₀ : k.State) (p : Process k) (listening : ℤ)
      → IsOwned k laws s₀ p
      → IsOwned k laws s₀ (record p { system = reusing p.system listening })
  reusing-IsOwned s₀ p listening v =
      kept-IsOwned k laws s₀ p (reusing p.system listening)
        (λ d. laws.setsockopt_keeps p.system listening d so_reuseaddr 1) v

  accept_some :
      (s s' : k.State) (listening fd : ℤ)
      → accept k s listening ≡ (s', some fd)
      → ((k.accept (reusing s listening) listening).1 ≢ minus_one)
        × ((k.accept (reusing s listening) listening).0 ≡ s')
        × ((k.accept (reusing s listening) listening).1 ≡ fd)
  unfolding accept
  accept_some s s' listening fd h =
      let r = k.accept (reusing s listening) listening in
      elim (Bool-cases (is_minus_one r.1)) [
        | inl e ↦
            let no : ◌≡◌ {A = Option ℤ} none (some fd) =
              ap (λ (z : k.State × Option ℤ). z.1) (rw e at h) in
            absurd (cc)
        | inr e ↦
            let same : some r.1 ≡ some fd = ap (λ (z : k.State × Option ℤ). z.1) (rw e at h) in
            (is_minus_one-false r.1 e, ap (λ (z : k.State × Option ℤ). z.0) h, cc (same))
      ]

  accept_none :
      (s s' : k.State) (listening : ℤ)
      → accept k s listening ≡ (s', none)
      → ((k.accept (reusing s listening) listening).1 ≡ minus_one)
        × ((k.accept (reusing s listening) listening).0 ≡ s')
  unfolding accept
  accept_none s s' listening h =
      let r = k.accept (reusing s listening) listening in
      elim (Bool-cases (is_minus_one r.1)) [
        | inl e ↦ (is_minus_one-true r.1 e, ap (λ (z : k.State × Option ℤ). z.0) h)
        | inr e ↦
            let no : some r.1 ≡ none = ap (λ (z : k.State × Option ℤ). z.1) (rw e at h) in
            absurd (cc)
      ]

  pub closed-destroy : (s : k.State) (fd : ℤ) → fd ≢ minus_one → destroy k s fd ≡ k.close s fd
  unfolding destroy
  closed-destroy s fd n = elim (Bool-cases (is_minus_one fd)) [
    | inl e ↦ absurd (n (is_minus_one-true fd e))
    | inr e ↦ rw e refl
  ]

  module _ (host : Endian) (resolve : String → Option (List ℕ)) where
    Step-IsOwned :
        (s₀ : k.State) (p q : Process k) (st : Step k host resolve p q)
        → IsOwn k host resolve st
        → IsOwned k laws s₀ p
        → IsOwned k laws s₀ q
    unfolding IsOwn
    Step-IsOwned s₀ p q (makes_tcp s fd h e) own v = rw e (made_tcp s₀ p s fd h v)
    Step-IsOwned s₀ p q (makes_udp s fd h e) own v = rw e (made_udp s₀ p s fd h v)
    Step-IsOwned s₀ p q (accepts listening s fd h e) own v =
        let a = accept_some p.system s listening fd h in
        let ready = reusing p.system listening in
        let o = laws.accept_opens ready listening a.0 in
        let w =
          opened-IsOwned k laws s₀ (record p { system = ready }) (k.accept ready listening).0
            (k.accept ready listening).1 o a.0 (reusing-IsOwned s₀ p listening v) in
        rw (e, ← a.1, ← a.2) w
    Step-IsOwned s₀ p q (accepts_none listening s h e) own v =
        let a = accept_none p.system s listening h in
        let ready = reusing p.system listening in
        let w =
          kept-IsOwned k laws s₀ (record p { system = ready }) (k.accept ready listening).0
            (λ d. laws.accept_fails ready listening d a.0) (reusing-IsOwned s₀ p listening v) in
        rw (e, ← a.1) w
    Step-IsOwned s₀ p q (operates fd op e) own v = rw e (
        kept-IsOwned k laws s₀ p (operate k host resolve p.system fd op)
          (λ d. operate_keeps k laws host resolve p.system fd d op) v)
    Step-IsOwned s₀ p q (destroys before fd after split e) own v =
        let r = All-remove (λ x. x ≢ minus_one) before after fd (rw split at (v.valid)) in
        rw (e, closed-destroy p.system fd r.0) (closed-IsOwned k laws s₀ p before fd after split v)
    Step-IsOwned s₀ p q (copies fd i e) own v = absurd own
    Step-IsOwned s₀ p q (assigns before old after fd split i e) own v = absurd own

    pub Reach-IsOwned :
        (s₀ : k.State) (p q : Process k) (run : Reach k host resolve p q)
        → Uncopied k host resolve run
        → IsOwned k laws s₀ p
        → IsOwned k laws s₀ q
    unfolding Uncopied
    Reach-IsOwned s₀ p q here own v = v
    Reach-IsOwned s₀ p q (next {q = m} run st) own v =
        Step-IsOwned s₀ m q st own.1 (Reach-IsOwned s₀ p m run own.0 v)

    -- A process without sockets.
    abbrev pub without_sockets : k.State → Process k
    without_sockets s₀ = record { system = s₀; sockets = [] }

    pub without_sockets-IsOwned : (s₀ : k.State) → IsOwned k laws s₀ (without_sockets s₀)
    without_sockets-IsOwned s₀ = record {
      distinct = tt;
      valid = tt;
      open_now = tt;
      closed_first = tt;
      others = λ d n. refl;
    }

    -- From a process without sockets, let it make TCP and UDP sockets, accept connections, call any other
    -- methods, and destroy socket objects, in any order, and let it not copy or assign any. Then no two
    -- socket objects have the same descriptor; each has one that is open, and that was closed at the
    -- start, so that its destructor closes that one and no other; and every descriptor that no object
    -- has is as it was at the start, so that none has leaked.
    pub sockets_own :
        (s₀ : k.State) (q : Process k) (run : Reach k host resolve (without_sockets s₀) q)
        → Uncopied k host resolve run
        → Distinct q.sockets
          × All (λ d. (is_open q.system d ≡ true) × (is_open s₀ d ≡ false)) q.sockets
          × ((d : ℤ) → All (λ x. x ≢ d) q.sockets → is_open q.system d ≡ is_open s₀ d)
    sockets_own s₀ q run own =
        let v = Reach-IsOwned s₀ (without_sockets s₀) q run own (without_sockets-IsOwned s₀) in
        (
          v.distinct,
          All-both (λ d. is_open q.system d ≡ true) (λ d. is_open s₀ d ≡ false) q.sockets v.open_now
              v.closed_first,
          v.others,
        )
