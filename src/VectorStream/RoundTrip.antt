-- ===== src/VectorStream/RoundTrip.antt =====
-- What is read back from what was written.
use packetcomms.Base.{
  ℕ, ◌≡◌, ◌≢◌, refl, sym, ap, ap₂, ◌∙◌, ◌<◌, List, [], ◌∷◌, ◌++◌, append_assoc, append-nil, map,
  length, length-append, length-replicate, take-append, drop-append, replicate, arith,
}
use packetcomms.VectorStream.{
  OutputStream, new_output, new_output_reserving, get, Output, one, run, bytes_of, output,
  new_input, input,
}

abbrev pub concat : List (List ℕ) → List ℕ
concat [] = []
concat (x ∷ xs) = x ++ concat xs

pub get-output :
    (o : OutputStream) (outs : List Output)
    → get (output o outs) ≡ get o ++ concat (map bytes_of outs)
unfolding get output bytes_of
get-output o [] = sym (append-nil o.written)
get-output o (one c ∷ rest) =
    get-output (record { written = o.written ++ (c ∷ []) }) rest ∙ append_assoc o.written (c ∷ []) _
get-output o (run bytes ∷ rest) =
    get-output (record { written = o.written ++ bytes }) rest ∙ append_assoc o.written bytes _

input-concat :
    (chunks : List (List ℕ)) → input (new_input (concat chunks)) (map length chunks) ≡ chunks
unfolding input new_input
input-concat [] = refl
input-concat (c ∷ chunks) = ap₂ ◌∷◌ (take-append c (concat chunks) (length c) refl) (
    ap (λ xs. input (new_input xs) (map length chunks))
      (drop-append c (concat chunks) (length c) refl)
    ∙ input-concat chunks)

written_all : (outs : List Output) → get (output new_output outs) ≡ concat (map bytes_of outs)
unfolding new_output get
written_all outs = get-output new_output outs

-- What is written into a new output stream, by single characters and by runs, is read back piece by
-- piece from an input stream over its vector.
pub input-output :
    (outs : List Output)
    → input (new_input (get (output new_output outs))) (map length (map bytes_of outs))
      ≡ map bytes_of outs
input-output outs =
    ap (λ v. input (new_input v) (map length (map bytes_of outs))) (written_all outs)
    ∙ input-concat (map bytes_of outs)

-- A stream that was made with a size to reserve holds that many zeros ahead of all that is written,
-- so that for any size but 0 its vector is not what was written.
pub get_reserving :
    (n : ℕ) (outs : List Output)
    → 0 < n
    → (get (output (new_output_reserving n) outs) ≡ replicate n 0 ++ concat (map bytes_of outs))
      × (get (output (new_output_reserving n) outs) ≢ concat (map bytes_of outs))
unfolding new_output_reserving get
get_reserving n outs h =
    let made = get-output (new_output_reserving n) outs in
    (
      made,
      λ e. absurd (
          omega (
            arith,
            ap length (sym made ∙ e),
            length-append {0} (replicate n 0) (concat (map bytes_of outs)),
            length-replicate {A = ℕ} n 0,
          )),
    )
