-- ===== src/Muxer/Thread.antt =====
-- sendLoop of src/PacketMuxer.cpp, its lock and its condition variable, as a step relation: one
-- send thread, any number of threads that post, and the thread that constructs and destroys the
-- muxer.
pub mod Invariant
pub mod Shutdown
pub mod Hello
pub mod Fifo
pub mod Progress
use packetcomms.Base.{ℕ, ◌≡◌, ◌≢◌, ◌==◌, Bool, true, false, String, List, Outcome, done}
use packetcomms.Wire.{Endian}
use packetcomms.ControlMessage.{ControlMessage, heart_beat, hello}
use packetcomms.TxQueues.{Visits}
use packetcomms.Transport.{Writer}
use packetcomms.Muxer.{Muxer, new_muxer, shut_down, emplace_packet, send_control_message, send_pass}

-- Where the send thread is. It holds m_txLock at `ready` alone, from the head of the `while` on;
-- `greeted` is the moment between sendControlMessage(Hello) and taking the lock.
pub data Phase : Type 0 where
  starting greeted ready waiting exited : Phase

pub data CvStatus : Type 0 where
  no_timeout timeout : CvStatus

pub record System (w : Writer) : Type 0 where
  pub muxer : Muxer w
  pub phase : Phase
  -- m_txReady was notified since the thread began to wait.
  pub notified : Bool

module _ (w : Writer) where
  -- The thread starts on a muxer that was just made.
  abbrev pub start : Muxer w → System w
  start m = record { muxer = m; phase = starting; notified = false }

  -- The body of the constructor, which runs when the thread has already been started.
  unfoldable pub unblock : Muxer w → Muxer w
  unblock m = record m { transport = w.set_blocking m.transport false }

  -- What the thread does with the lock on its return from `wait_for`.
  unfoldable pub woken : CvStatus → Muxer w → Outcome (Muxer w)
  woken timeout m = send_control_message w m heart_beat
  woken no_timeout m = done m

  -- A thread can take the lock.
  abbrev pub IsFree : System w → Type 0
  IsFree s = s.phase ≢ ready

-- `fuel` bounds the writes of each pass.
pub data Step (w : Writer) (host : Endian) (fuel : ℕ) (s t : System w) : Type 0 where
  posts :
      (name : String) (bytes : List ℕ) (m : Muxer w)
      → IsFree w s
      → emplace_packet w s.muxer name bytes ≡ done m
      → t ≡ record s { muxer = m; notified = true }
      → Step w host fuel s t
  destroys :
      IsFree w s
      → t ≡ record s { muxer = shut_down w s.muxer; notified = true }
      → Step w host fuel s t
  unblocks : t ≡ record s { muxer = unblock w s.muxer } → Step w host fuel s t
  greets :
      (m : Muxer w)
      → s.phase ≡ starting
      → send_control_message w s.muxer hello ≡ done m
      → t ≡ record s { muxer = m; phase = greeted }
      → Step w host fuel s t
  locks : s.phase ≡ greeted → t ≡ record s { phase = ready } → Step w host fuel s t
  exits :
      s.phase ≡ ready
      → (s.muxer).transport_error ≡ true
      → t ≡ record s { phase = exited }
      → Step w host fuel s t
  waits :
      s.phase ≡ ready
      → (s.muxer).transport_error ≡ false
      → ((s.muxer).num_posted == (s.muxer).num_sent) ≡ true
      → t ≡ record s { phase = waiting; notified = false }
      → Step w host fuel s t
  sends :
      (order : List ℕ) (m : Muxer w)
      → s.phase ≡ ready
      → (s.muxer).transport_error ≡ false
      → ((s.muxer).num_posted == (s.muxer).num_sent) ≡ false
      → Visits order (s.muxer).tx_queues
      → send_pass w host fuel order s.muxer ≡ done m
      → t ≡ record s { muxer = m }
      → Step w host fuel s t
  wakes :
      (status : CvStatus) (order : List ℕ) (m₁ m : Muxer w)
      → s.phase ≡ waiting
      → woken w status s.muxer ≡ done m₁
      → Visits order m₁.tx_queues
      → send_pass w host fuel order m₁ ≡ done m
      → t ≡ record s { muxer = m; phase = ready }
      → Step w host fuel s t

pub data Reach (w : Writer) (host : Endian) (fuel : ℕ) (s : System w) : System w → Type 0 where
  here : Reach w host fuel s s
  next : {t u : System w} → Reach w host fuel s t → Step w host fuel t u → Reach w host fuel s u
