-- ===== src/Serialisation/RoundTrip.antt =====
-- What deserialise reads of what serialise wrote.
use packetcomms.Base.{
  ℕ, ◌≡◌, refl, sym, ap, ◌∙◌, ℤ, List, [], ◌∷◌, ◌++◌, append_assoc, append-nil, map, done,
}
use packetcomms.ComPacket.{ComPacket}
use packetcomms.VectorStream.{
  OutputStream, new_output, get, InputStream, new_input, Output, bytes_of,
}
use packetcomms.VectorStream.RoundTrip.{concat, get-output}
use packetcomms.Serialisation.{
  Cereal, CerealLaws, Args, nothing, more, Values, save_all, load_all, serialise, deserialise,
  deserialise_packet, save_timespec, load_timespec, timespec,
}

-- Each argument's archives keep cereal's promise, for the values that its type has, and each of the
-- arguments is such a value.
pub data Keeps : (args : Args) → Values args → Type 1 where
  none_left : (vs : Values nothing) → Keeps nothing vs
  also :
      {A : Type 0} {c : Cereal A} {args : Args} (IsValid : A → Type 0) (x : A) (vs : Values args)
      → CerealLaws c IsValid
      → IsValid x
      → Keeps args vs
      → Keeps (more c args) (x, vs)

-- The bytes of the arguments, one after the other.
abbrev pub bytes : (args : Args) → Values args → List ℕ
bytes args vs = concat (map bytes_of (save_all args vs))

concat-append :
    (xs ys : List Output)
    → concat (map bytes_of (xs ++ ys)) ≡ concat (map bytes_of xs) ++ concat (map bytes_of ys)
concat-append [] ys = refl
concat-append (x ∷ xs) ys =
    ap (◌++◌ (bytes_of x)) (concat-append xs ys) ∙ sym (append_assoc (bytes_of x) _ _)

pub load_all-save_all :
    (args : Args) (vs : Values args) (rest : List ℕ)
    → Keeps args vs
    → load_all args (new_input (bytes args vs ++ rest)) ≡ done (new_input rest, vs)
unfolding load_all save_all
load_all-save_all args vs rest (none_left _) = refl
load_all-save_all args vs rest (also {c = c} {args = more_args} IsValid x ys laws valid k) =
    let split : bytes (more c more_args) (x, ys) ++ rest
        ≡ concat (map bytes_of (c.save x)) ++ (bytes more_args ys ++ rest) =
      ap (λ z. z ++ rest) (concat-append (c.save x) (save_all more_args ys))
      ∙ append_assoc (concat (map bytes_of (c.save x))) (bytes more_args ys) rest in
    rw
      (
        split,
        laws.restores x (bytes more_args ys ++ rest) valid,
        load_all-save_all more_args ys rest k,
      )
      refl

get-serialise :
    (args : Args) (vs : Values args) (o : OutputStream)
    → get (serialise args vs o) ≡ get o ++ bytes args vs
unfolding serialise
get-serialise args vs o = get-output o (save_all args vs)

pub serialised_alone :
    (args : Args) (vs : Values args) → get (serialise args vs new_output) ≡ bytes args vs
unfolding new_output get
serialised_alone args vs = get-serialise args vs new_output

-- Let two packs of arguments, for whose types the archives keep cereal's promise, be serialised one
-- after the other to one new output stream. A deserialise of the first pack's types from an input
-- stream over its vector gives the arguments of the first, and one of the second pack's types from
-- there gives those of the second and leaves nothing.
pub deserialise-serialise :
    (args args' : Args) (vs : Values args) (vs' : Values args')
    → Keeps args vs
    → Keeps args' vs'
    → (i : InputStream) × (deserialise args
          (new_input (get (serialise args' vs' (serialise args vs new_output))))
        ≡ done (i, vs))
      × (deserialise args' i ≡ done (new_input [], vs'))
unfolding deserialise
deserialise-serialise args args' vs vs' k k' =
    let whole : get (serialise args' vs' (serialise args vs new_output))
        ≡ bytes args vs ++ bytes args' vs' =
      get-serialise args' vs' (serialise args vs new_output)
      ∙ ap (λ z. z ++ bytes args' vs') (serialised_alone args vs) in
    (
      new_input (bytes args' vs'),
      rw whole (load_all-save_all args vs (bytes args' vs') k),
      rw (← append-nil (bytes args' vs')) (load_all-save_all args' vs' [] k'),
    )

pub deserialise_packet_lem :
    (args : Args) (vs : Values args) (p : ComPacket)
    → Keeps args vs
    → p.contents ≡ get (serialise args vs new_output)
    → deserialise_packet args p ≡ done vs
unfolding deserialise_packet deserialise
deserialise_packet_lem args vs p k e =
    let whole : p.contents ≡ bytes args vs ++ [] =
      e ∙ serialised_alone args vs ∙ sym (append-nil (bytes args vs)) in
    rw (whole, load_all-save_all args vs [] k) refl

-- If the archives of int64_t keep cereal's promise, then those of a timespec do, for every timespec
-- of which both members are int64_t.
pub timespec-CerealLaws :
    (int64 : Cereal ℤ) (IsValid : ℤ → Type 0)
    → CerealLaws int64 IsValid
    → CerealLaws (timespec int64) (λ t. IsValid t.sec × IsValid t.nsec)
unfolding save_timespec load_timespec
timespec-CerealLaws int64 IsValid laws = record {
  restores = λ t rest v.
      let args = more int64 (more int64 nothing) in
      let k = also IsValid t.sec _ laws v.0 (also IsValid t.nsec _ laws v.1 (none_left tt)) in
      let e = load_all-save_all args (t.sec, (t.nsec, tt)) rest k in rw e refl;
}
