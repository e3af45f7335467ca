-- ===== src/Transport/Script.antt =====
-- Transports that follow a script: instances of the two interfaces, for the concrete runs.
use packetcomms.Base.{
  ℕ, zero, suc, ◌≤◌, ◌<◌, ◌≡◌, ◌≢◌, refl, sym, ap, ◌∙◌, List, [], ◌∷◌, ◌++◌, Bool, true, false, ℤ,
  pos, negsuc, minus_one, length, take, drop, take-append-drop, arith,
}
use packetcomms.Transport.{Writer, WriterLaws, Reader, ReaderLaws}

-- What the next call does: takes at most some bytes, or fails. When the script is over a call takes
-- all that it is given.
pub data Act : Type 0 where
  some_bytes : ℕ → Act
  fail : Act

pub record Sink : Type 0 where
  pub script : List Act
  pub taken : List ℕ

abbrev pub put_bytes : List Act → List ℕ → List ℕ → Sink × ℤ
put_bytes [] before bytes = (record { script = []; taken = before ++ bytes }, pos (length bytes))
put_bytes (some_bytes n ∷ rest) before bytes =
    (record { script = rest; taken = before ++ take n bytes }, pos (length (take n bytes)))
put_bytes (fail ∷ rest) before bytes = (record { script = rest; taken = before }, minus_one)

abbrev pub sink : Writer
sink = record {
  State = Sink;
  set_blocking = λ s b. s;
  write = λ s bytes. put_bytes s.script s.taken bytes;
}

length-take-le : (n : ℕ) (xs : List ℕ) → length (take n xs) ≤ length xs
length-take-le zero xs = omega arith
length-take-le (suc n) [] = omega arith
length-take-le (suc n) (x ∷ xs) = omega (arith, length-take-le n xs)

take-length-take : (n : ℕ) (xs : List ℕ) → take (length (take n xs)) xs ≡ take n xs
take-length-take zero xs = refl
take-length-take (suc n) [] = refl
take-length-take (suc n) (x ∷ xs) = ap (◌∷◌ x) (take-length-take n xs)

take-length : (xs : List ℕ) → take (length xs) xs ≡ xs
take-length [] = refl
take-length (x ∷ xs) = ap (◌∷◌ x) (take-length xs)

pub put_accepted :
    (script : List Act) (before bytes : List ℕ) (n : ℕ)
    → (put_bytes script before bytes).1 ≡ pos n
    → (n ≤ length bytes)
      × ((put_bytes script before bytes).0.taken ≡ before ++ take n bytes)
      × (length (put_bytes script before bytes).0.script ≤ length script)
put_accepted [] before bytes n e =
    let e' : length bytes ≡ n = ground arith in
    rw (← e') (omega arith, ap (◌++◌ before) (sym (take-length bytes)), omega arith)
put_accepted (some_bytes k ∷ rest) before bytes n e =
    let e' : length (take k bytes) ≡ n = ground arith in
    rw (← e')
      (length-take-le k bytes, ap (◌++◌ before) (sym (take-length-take k bytes)), omega arith)
put_accepted (fail ∷ rest) before bytes n e = cc

pub put_refused :
    (script : List Act) (before bytes : List ℕ) (n : ℕ)
    → (put_bytes script before bytes).1 ≡ negsuc n
    → ((put_bytes script before bytes).0.taken ≡ before)
      × (length (put_bytes script before bytes).0.script ≤ length script)
put_refused [] before bytes n e = cc
put_refused (some_bytes k ∷ rest) before bytes n e = cc
put_refused (fail ∷ rest) before bytes n e = (refl, omega arith)

pub put_stalled :
    (script : List Act) (before bytes : List ℕ)
    → (put_bytes script before bytes).1 ≡ pos 0
    → bytes ≢ []
    → length (put_bytes script before bytes).0.script < length script
put_stalled [] before [] e h = absurd (h refl)
put_stalled [] before (b ∷ bytes) e h = absurd (ground arith)
put_stalled (some_bytes k ∷ rest) before bytes e h = omega arith
put_stalled (fail ∷ rest) before bytes e h = cc

abbrev pub sink_laws : WriterLaws sink
sink_laws = record {
  sent = λ s. s.taken;
  patience = λ s. length s.script;
  blocking_sent = λ s b. refl;
  accepted = λ s bytes n e. put_accepted s.script s.taken bytes n e;
  refused = λ s bytes n e. put_refused s.script s.taken bytes n e;
  stalled = λ s bytes e h. put_stalled s.script s.taken bytes e h;
}

-- What the next call of a source does: a wait times out, or a read brings at most some bytes. When
-- the script is over a read brings all that is pending, and waits succeed.
pub data Wait : Type 0 where
  late : Wait
  at_most : ℕ → Wait

pub record Source : Type 0 where
  pub script : List Wait
  pub coming : List ℕ

abbrev pub take_bytes : List Wait → List ℕ → ℕ → Source × ℤ × List ℕ
take_bytes [] coming max = (
  record { script = []; coming = drop max coming },
  pos (length (take max coming)),
  take max coming,
)
take_bytes (late ∷ rest) coming max = (record { script = rest; coming = coming }, pos 0, [])
take_bytes (at_most n ∷ rest) coming max = (
  record { script = rest; coming = drop n (take max coming) ++ drop max coming },
  pos (length (take n (take max coming))),
  take n (take max coming),
)

abbrev pub wait_bytes : List Wait → List ℕ → Source × Bool
wait_bytes [] coming = (record { script = []; coming = coming }, true)
wait_bytes (late ∷ rest) coming = (record { script = rest; coming = coming }, false)
wait_bytes (at_most n ∷ rest) coming = (record { script = at_most n ∷ rest; coming = coming }, true)

abbrev pub source : Reader
source = record {
  State = Source;
  set_blocking = λ s b. s;
  read = λ s max. take_bytes s.script s.coming max;
  ready_for_reading = λ s ms. wait_bytes s.script s.coming;
}

length-take_max : (n : ℕ) (xs : List ℕ) → length (take n xs) ≤ n
length-take_max zero xs = omega arith
length-take_max (suc n) [] = omega arith
length-take_max (suc n) (x ∷ xs) = omega (arith, length-take_max n xs)

pub take_stored :
    (script : List Wait) (coming : List ℕ) (max n : ℕ)
    → (take_bytes script coming max).1 ≡ pos n
    → (n ≤ max)
      × (length (take_bytes script coming max).2 ≡ n)
      × (coming ≡ (take_bytes script coming max).2 ++ (take_bytes script coming max).0.coming)
      × (length (take_bytes script coming max).0.script ≤ length script)
take_stored [] coming max n e =
    let e' : length (take max coming) ≡ n = ground arith in
    (omega (arith, length-take_max max coming), e', sym (take-append-drop max coming), omega arith)
take_stored (late ∷ rest) coming max n e =
    let e' : ◌≡◌ {A = ℕ} 0 n = ground arith in (omega arith, e', refl, omega arith)
take_stored (at_most k ∷ rest) coming max n e =
    let e' : length (take k (take max coming)) ≡ n = ground arith in
    (
      omega (arith, length-take-le k (take max coming), length-take_max max coming),
      e',
      sym (rejoin k (take max coming) (drop max coming) ∙ take-append-drop max coming),
      omega arith,
    )
  where
    rejoin : (k : ℕ) (xs ys : List ℕ) → take k xs ++ (drop k xs ++ ys) ≡ xs ++ ys
    rejoin zero xs ys = refl
    rejoin (suc k) [] ys = refl
    rejoin (suc k) (x ∷ xs) ys = ap (◌∷◌ x) (rejoin k xs ys)

pub take_no_error :
    (script : List Wait) (coming : List ℕ) (max n : ℕ) → (take_bytes script coming max).1 ≢ negsuc n
take_no_error [] coming max n e = cc
take_no_error (late ∷ rest) coming max n e = cc
take_no_error (at_most k ∷ rest) coming max n e = cc

pub take_stalled :
    (script : List Wait) (coming : List ℕ) (max : ℕ)
    → (take_bytes script coming max).1 ≡ pos 0
    → coming ≢ []
    → 0 < max
    → length (take_bytes script coming max).0.script < length script
take_stalled [] [] max e h m = absurd (h refl)
take_stalled [] (b ∷ coming) zero e h m = absurd (omega arith)
take_stalled [] (b ∷ coming) (suc max) e h m = absurd (ground arith)
take_stalled (late ∷ rest) coming max e h m = omega arith
take_stalled (at_most k ∷ rest) coming max e h m = omega arith

pub wait_lem :
    (script : List Wait) (coming : List ℕ)
    → ((wait_bytes script coming).0.coming ≡ coming)
      × (length (wait_bytes script coming).0.script ≤ length script)
wait_lem [] coming = (refl, omega arith)
wait_lem (late ∷ rest) coming = (refl, omega arith)
wait_lem (at_most n ∷ rest) coming = (refl, omega arith)

pub wait_late :
    (script : List Wait) (coming : List ℕ)
    → (wait_bytes script coming).1 ≡ false
    → length (wait_bytes script coming).0.script < length script
wait_late [] coming e = cc
wait_late (late ∷ rest) coming e = omega arith
wait_late (at_most n ∷ rest) coming e = cc

abbrev pub source_laws : ReaderLaws source
source_laws = record {
  pending = λ s. s.coming;
  patience = λ s. length s.script;
  blocking_pending = λ s b. (refl, omega arith);
  stored = λ s max n e. take_stored s.script s.coming max n e;
  no_error = λ s max n h. take_no_error s.script s.coming max n;
  stalled = λ s max e h m. take_stalled s.script s.coming max e h m;
  waited = λ s ms. wait_lem s.script s.coming;
  timed_out = λ s ms e h. wait_late s.script s.coming e;
}
