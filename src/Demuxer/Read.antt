-- ===== src/Demuxer/Read.antt =====
-- readBytes on a transport that keeps its laws.
use packetcomms.Base.{
  ℕ, zero, suc, ◌+◌, ◌-◌, ◌≤◌, ◌≡◌, ◌≢◌, refl, sym, ap, ap₂, ◌∙◌, List, [], ◌∷◌, ◌++◌, append_assoc,
  append-nil, true, false, pos, ℤ-cases, inl, inr, length, length-append, done, arith,
}
use packetcomms.Transport.{Reader, ReaderLaws}
use packetcomms.Demuxer.{ReadRun, read_bytes}

∷_tail : {x y : ℕ} {xs ys : List ℕ} → x ∷ xs ≡ y ∷ ys → xs ≡ ys
∷_tail e = cc

∷_head : {x y : ℕ} {xs ys : List ℕ} → x ∷ xs ≡ y ∷ ys → x ≡ y
∷_head e = cc

-- A prefix of `wanted ++ rest` that is not longer than `wanted` is a prefix of `wanted`.
prefix_split :
    (chunk after wanted rest : List ℕ)
    → chunk ++ after ≡ wanted ++ rest
    → length chunk ≤ length wanted
    → (more : List ℕ) × (wanted ≡ chunk ++ more) × (after ≡ more ++ rest)
prefix_split [] after wanted rest e h = (wanted, refl, e)
prefix_split (c ∷ chunk) after [] rest e h = absurd (omega arith)
prefix_split (c ∷ chunk) after (x ∷ wanted) rest e h =
    let ih = prefix_split chunk after wanted rest (∷_tail e) (omega arith) in
    (ih.0, ap₂ ◌∷◌ (sym (∷_head e)) ih.1, ih.2)

module _ (r : Reader) (laws : ReaderLaws r) where
  open laws use {pending, patience, stored, no_error, stalled}

  -- A run that stored all it was asked for.
  abbrev pub complete : r.State → List ℕ → ReadRun r
  complete s buffer = record {
    transport = s;
    transport_error = false;
    success = true;
    left = 0;
    buffer = buffer;
  }

  -- Each call of `read` brings a byte or uses up some patience.
  fuel_left :
      (fuel size n : ℕ) (s : r.State)
      → pending s ≢ []
      → (r.read s (suc size)).1 ≡ pos n
      → patience s + suc size ≤ suc fuel
      → patience (r.read s (suc size)).0 + (suc size - n) ≤ fuel
  fuel_left fuel size zero s more e h = omega (arith, stalled s (suc size) e more)
  fuel_left fuel size (suc n) s more e h = omega (arith, stored s (suc size) (suc n) e)

  pub read_step :
      (fuel size n : ℕ) (s : r.State) (buffer : List ℕ)
      → (r.read s (suc size)).1 ≡ pos n
      → read_bytes r (suc fuel) false false s (suc size) buffer
        ≡ read_bytes r fuel false false
            (r.read s (suc size)).0
            (suc size - n)
            (buffer ++ (r.read s (suc size)).2)
  unfolding read_bytes
  read_step fuel size n s buffer e = ground (arith, stored s (suc size) n)

  -- With no transport error before, at least `size` bytes on their way, and fuel for every byte and
  -- every stall, readBytes returns true: it stores exactly the next `size` pending bytes behind what
  -- it had and leaves the rest.
  pub read_bytes_lem :
      (fuel size : ℕ) (s : r.State) (buffer : List ℕ) (wanted rest : List ℕ)
      → pending s ≡ wanted ++ rest
      → length wanted ≡ size
      → patience s + size ≤ fuel
      → (s' : r.State) × (read_bytes r fuel false false s size buffer
          ≡ done (complete s' (buffer ++ wanted)))
        × (pending s' ≡ rest)
        × (patience s' ≤ patience s)
  read_bytes_lem fuel zero s buffer [] rest e l h =
      (s, unfold read_bytes in rw (append-nil buffer) refl, e, omega arith)
  read_bytes_lem fuel zero s buffer (b ∷ wanted) rest e l h = absurd (omega arith)
  read_bytes_lem zero (suc size) s buffer wanted rest e l h = absurd (omega arith)
  read_bytes_lem (suc fuel) (suc size) s buffer [] rest e l h = absurd (omega arith)
  read_bytes_lem (suc fuel) (suc size) s buffer (b ∷ wanted) rest e l h =
      elim (ℤ-cases (r.read s (suc size)).1) [
        | inr (n, q) ↦ absurd (no_error s (suc size) n (λ z. cc) q)
        | inl (n, q) ↦
            let v = stored s (suc size) n q in
            let chunk = (r.read s (suc size)).2 in
            let split =
              prefix_split chunk (pending (r.read s (suc size)).0) (b ∷ wanted) rest (sym v.2 ∙ e)
                (omega arith) in
            let ih =
              read_bytes_lem fuel (suc size - n) (r.read s (suc size)).0 (buffer ++ chunk) split.0
                rest split.2
                (omega (arith, v.1, ap length split.1, length-append {0} chunk split.0))
                (fuel_left fuel size n s (λ z. cc) q h) in
            (
              ih.0,
              read_step fuel size n s buffer q
                  ∙ ih.1
                  ∙ ap (λ x. done (complete ih.0 x))
                      (append_assoc buffer chunk split.0 ∙ ap (◌++◌ buffer) (sym split.1)),
              ih.2,
              omega (arith, v.3),
            )
      ]
