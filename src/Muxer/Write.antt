-- ===== src/Muxer/Write.antt =====
-- writeBytes on a transport that keeps its laws.
use packetcomms.Base.{
  ℕ, zero, suc, ◌+◌, ◌-◌, ◌≤◌, ◌≡◌, refl, sym, ap, ◌∙◌, List, [], ◌∷◌, ◌++◌, append_assoc,
  append-nil, false, pos, negsuc, ℤ-cases, inl, inr, length, length-drop, take, drop, take_split,
  ◌==◌, done, arith,
}
use packetcomms.Transport.{Writer, WriterLaws}
use packetcomms.Muxer.{write_bytes}

nothing_taken : (n : ℕ) (xs before : List ℕ) → n ≡ 0 → before ≡ before ++ take n xs
nothing_taken zero xs before e = sym (append-nil before)
nothing_taken (suc n) xs before e = absurd (omega arith)

module _ (w : Writer) (laws : WriterLaws w) where
  open laws use {sent, patience, accepted, refused, stalled}

  -- What a run leaves: the transport took all but the last `left` bytes.
  abbrev pub Wrote : w.State → List ℕ → w.State → ℕ → Type 0
  Wrote s buffer s' left =
      (left ≤ length buffer)
      × (sent s' ≡ sent s ++ take (length buffer - left) buffer)
      × (patience s' ≤ patience s)

  pub write_step :
      (fuel n b : ℕ) (bs : List ℕ) (s : w.State)
      → (w.write s (b ∷ bs)).1 ≡ pos n
      → write_bytes w (suc fuel) false s (b ∷ bs)
        ≡ write_bytes w fuel false (w.write s (b ∷ bs)).0 (drop n (b ∷ bs))
  unfolding write_bytes
  write_step fuel n b bs s e = ground (arith, accepted s (b ∷ bs) n)

  write_stop :
      (fuel n b : ℕ) (bs : List ℕ) (s : w.State)
      → (w.write s (b ∷ bs)).1 ≡ negsuc n
      → write_bytes w (suc fuel) false s (b ∷ bs)
        ≡ done ((w.write s (b ∷ bs)).0, suc (length bs) == 0, suc (length bs))
  unfolding write_bytes
  write_stop fuel n b bs s e = ground arith

  -- A chunk of `n` bytes followed by a run over the rest.
  Wrote-chunk :
      (s s₁ s' : w.State) (buffer : List ℕ) (n left : ℕ)
      → n ≤ length buffer
      → sent s₁ ≡ sent s ++ take n buffer
      → patience s₁ ≤ patience s
      → Wrote s₁ (drop n buffer) s' left
      → Wrote s buffer s' left
  Wrote-chunk s s₁ s' buffer n left fits first calm r =
      let kept = length-drop n buffer in
      (
        omega arith,
        r.1
            ∙ rw first (
                append_assoc (sent s) _ _
                ∙ ap (◌++◌ (sent s))
                    (sym (take_split n _ (length buffer - left) buffer (omega arith)))),
        omega arith,
      )

  -- Each call of `write` uses up a byte or some patience.
  fuel_left :
      (fuel n b : ℕ) (bs : List ℕ) (s : w.State)
      → (w.write s (b ∷ bs)).1 ≡ pos n
      → patience s + suc (length bs) ≤ suc fuel
      → patience (w.write s (b ∷ bs)).0 + length (drop n (b ∷ bs)) ≤ fuel
  fuel_left fuel zero b bs s e h = omega (arith, stalled s (b ∷ bs) e (λ c. cc))
  fuel_left fuel (suc n) b bs s e h = omega (arith, accepted s (b ∷ bs) (suc n) e, length-drop n bs)

  -- With no transport error before, and with fuel for every byte and every stall, writeBytes
  -- returns. It returns true exactly when no byte is left, and the transport has taken all the bytes
  -- but the last ones, which `size` counts.
  pub write_bytes_lem :
      (fuel : ℕ) (s : w.State) (buffer : List ℕ)
      → patience s + length buffer ≤ fuel
      → (s' : w.State) × (left : ℕ) × (write_bytes w fuel false s buffer
          ≡ done (s', left == 0, left))
        × Wrote s buffer s' left
  write_bytes_lem fuel s [] h =
      (s, 0, unfold write_bytes in refl, (omega arith, sym (append-nil (sent s)), omega arith))
  write_bytes_lem zero s (b ∷ bs) h = absurd (omega arith)
  write_bytes_lem (suc fuel) s (b ∷ bs) h = elim (ℤ-cases (w.write s (b ∷ bs)).1) [
    | inr (n, e) ↦
        let r = refused s (b ∷ bs) n e in
        (
          (w.write s (b ∷ bs)).0,
          suc (length bs),
          write_stop fuel n b bs s e,
          (omega arith, r.0 ∙ nothing_taken _ (b ∷ bs) (sent s) (omega arith), r.1),
        )
    | inl (n, e) ↦
        let r = accepted s (b ∷ bs) n e in
        let ih =
          write_bytes_lem fuel (w.write s (b ∷ bs)).0 (drop n (b ∷ bs))
            (fuel_left fuel n b bs s e h) in
        (
          ih.0,
          ih.1,
          write_step fuel n b bs s e ∙ ih.2,
          Wrote-chunk s _ ih.0 (b ∷ bs) n ih.1 r.0 r.1 r.2 ih.3,
        )
  ]
