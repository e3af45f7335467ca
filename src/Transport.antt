-- ===== src/Transport.antt =====
-- src/network/AbstractSocket.h: the transport that the muxer writes to and the demuxer reads from.
-- An implementation is a state and its methods. What the methods do is a parameter; what a stream
-- transport promises are the records of laws.
pub mod Script
use packetcomms.Base.{
  ℕ, ◌+◌, ◌≤◌, ◌<◌, ◌≡◌, ◌≢◌, Bool, false, List, [], ◌++◌, ℤ, pos, negsuc, take, length,
}

-- class AbstractWriter. `write` is given the bytes [buffer, buffer + size).
pub record Writer : Type 1 where
  pub State : Type 0
  pub set_blocking : State → Bool → State
  pub write : State → List ℕ → State × ℤ

-- class AbstractReader. `read` returns its int and the bytes that it stored; `ready_for_reading`
-- waits, so that the state can change.
pub record Reader : Type 1 where
  pub State : Type 0
  pub set_blocking : State → Bool → State
  pub read : State → ℕ → State × ℤ × List ℕ
  pub ready_for_reading : State → ℕ → State × Bool

-- What a stream writer does: it accepts a prefix of what it is given and returns its length, or
-- returns a negative number and accepts nothing. `patience` bounds how many more times it accepts
-- nothing without an error.
pub record WriterLaws (w : Writer) : Type 0 where
  pub sent : w.State → List ℕ
  pub patience : w.State → ℕ
  pub blocking_sent : (s : w.State) (b : Bool) → sent (w.set_blocking s b) ≡ sent s
  pub accepted :
      (s : w.State) (bytes : List ℕ) (n : ℕ)
      → (w.write s bytes).1 ≡ pos n
      → (n ≤ length bytes)
        × (sent (w.write s bytes).0 ≡ sent s ++ take n bytes)
        × (patience (w.write s bytes).0 ≤ patience s)
  pub refused :
      (s : w.State) (bytes : List ℕ) (n : ℕ)
      → (w.write s bytes).1 ≡ negsuc n
      → (sent (w.write s bytes).0 ≡ sent s) × (patience (w.write s bytes).0 ≤ patience s)
  pub stalled :
      (s : w.State) (bytes : List ℕ)
      → (w.write s bytes).1 ≡ pos 0
      → bytes ≢ []
      → patience (w.write s bytes).0 < patience s

-- What a stream reader does while the bytes `pending` are on their way and the peer is there: it
-- stores a prefix of them, of the length that it returns; it gives no error; `patience` bounds how many
-- more times it has nothing yet, or a wait for it times out; and setBlocking and a wait take nothing.
pub record ReaderLaws (r : Reader) : Type 0 where
  pub pending : r.State → List ℕ
  pub patience : r.State → ℕ
  pub blocking_pending :
      (s : r.State) (b : Bool)
      → (pending (r.set_blocking s b) ≡ pending s) × (patience (r.set_blocking s b) ≤ patience s)
  pub stored :
      (s : r.State) (max n : ℕ)
      → (r.read s max).1 ≡ pos n
      → (n ≤ max)
        × (length (r.read s max).2 ≡ n)
        × (pending s ≡ (r.read s max).2 ++ pending (r.read s max).0)
        × (patience (r.read s max).0 ≤ patience s)
  pub no_error : (s : r.State) (max n : ℕ) → pending s ≢ [] → (r.read s max).1 ≢ negsuc n
  pub stalled :
      (s : r.State) (max : ℕ)
      → (r.read s max).1 ≡ pos 0
      → pending s ≢ []
      → 0 < max
      → patience (r.read s max).0 < patience s
  pub waited :
      (s : r.State) (ms : ℕ)
      → (pending (r.ready_for_reading s ms).0 ≡ pending s)
        × (patience (r.ready_for_reading s ms).0 ≤ patience s)
  pub timed_out :
      (s : r.State) (ms : ℕ)
      → (r.ready_for_reading s ms).1 ≡ false
      → pending s ≢ []
      → patience (r.ready_for_reading s ms).0 < patience s
