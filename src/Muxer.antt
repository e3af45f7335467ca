-- ===== src/Muxer.antt =====
-- src/PacketMuxer.h and src/PacketMuxer.cpp: the sending half. The transport is any writer, and the
-- host has either byte order. A method is a function of the muxer's state. A loop takes fuel, which
-- bounds the calls of `write` for one run of bytes.
pub mod Write
pub mod Send
pub mod Keeps
pub mod Pass
pub mod Sent
pub mod Thread
pub mod Lifetime
use packetcomms.Base.{
  ℕ, zero, suc, ◌+◌, ◌%◌, ◌^◌, String, List, [], ◌∷◌, Bool, true, false, not, ◌&&◌, ℤ, pos, negsuc,
  length, drop, ltb, ◌==◌, if◌then◌else◌, Outcome, done, aborts, faults, stuck, ◌>>=◌,
}
use packetcomms.Wire.{Endian, store_u32, htonl, to_u32}
use packetcomms.IdManager.{IdManager, new_id_manager, to_id, control_string, invalid_packet}
use packetcomms.ComPacket.{ComPacket, from_buffer, get_data_size}
use packetcomms.ControlMessage.{ControlMessage, underlying}
use packetcomms.TxQueues.{TxQueues, queue, emplace, put}
use packetcomms.Transport.{Writer}

pub record Muxer (w : Writer) : Type 0 where
  pub packet_ids : IdManager
  pub num_posted : ℕ
  pub num_sent : ℕ
  pub tx_queues : TxQueues
  pub transport : w.State
  pub transport_error : Bool

module _ (w : Writer) where
  -- The constructor, less the start of the send thread.
  unfoldable pub new_muxer : List String → w.State → Outcome (Muxer w)
  new_muxer names transport = do
    ids ← new_id_manager names
    done (record {
      packet_ids = ids;
      num_posted = 0;
      num_sent = 0;
      tx_queues = [];
      transport = w.set_blocking transport false;
      transport_error = false;
    })

  unfoldable pub ok : Muxer w → Bool
  ok m = not m.transport_error

  -- The destructor's part under the lock.
  unfoldable pub shut_down : Muxer w → Muxer w
  shut_down m = record m { transport_error = true }

  -- Counts the packet; that a waiting send thread is woken is in Muxer/Thread.
  unfoldable pub signal_packet_posted : Muxer w → Muxer w
  signal_packet_posted m = record m { num_posted = (m.num_posted + 1) % 2 ^ 32 }

  -- `toId` throws for an unknown name, before anything is changed.
  unfoldable pub emplace_packet : Muxer w → String → List ℕ → Outcome (Muxer w)
  unfolding signal_packet_posted
  emplace_packet m name bytes = do
    type ← to_id m.packet_ids name
    done (
        signal_packet_posted
          (record m { tx_queues = emplace type (from_buffer type bytes) m.tx_queues }))

  unfoldable pub send_control_message : Muxer w → ControlMessage → Outcome (Muxer w)
  unfolding emplace_packet
  send_control_message m msg = emplace_packet m control_string (underlying msg ∷ [])

  -- The loop of writeBytes over what is left of the buffer, with m_transportError as it is during
  -- the call. The result is the transport, what writeBytes returns, and `size` afterwards. A writer
  -- that claims more than it was given makes `size` wrap and the loop run past the buffer.
  unfoldable pub write_bytes : ℕ → Bool → w.State → List ℕ → Outcome (w.State × Bool × ℕ)
  write_bytes fuel error s [] = done (s, true, 0)
  write_bytes zero error s (b ∷ bs) = stuck
  write_bytes (suc fuel) error s (b ∷ bs) =
      let size = length (b ∷ bs) in
      let s' = (w.write s (b ∷ bs)).0 in
      elim (w.write s (b ∷ bs)).1 [
        | negsuc n ↦ done (s', false, size)
        | pos n ↦
            let rest = write_bytes fuel error s' (drop n (b ∷ bs)) in
            if error then done (s', false, size) else if ltb size n then faults else rest
      ]

module _ (w : Writer) (host : Endian) where
  -- The bytes of a word of the header, as sendPacket hands them to writeBytes.
  abbrev pub word : ℕ → List ℕ
  word v = store_u32 host (htonl host (to_u32 v))

  -- All three runs of bytes are written, also after one of them failed.
  unfoldable pub send_packet : ℕ → Muxer w → ComPacket → Outcome (Muxer w)
  send_packet fuel m p = if p.type == invalid_packet then aborts else (do
    (s₁, ok₁, left₁) ← write_bytes w fuel m.transport_error m.transport (word p.type)
    (s₂, ok₂, left₂) ← write_bytes w fuel m.transport_error s₁ (word (get_data_size p))
    (s₃, ok₃, left₃) ← write_bytes w fuel m.transport_error s₂ p.contents
    done (record m { transport = s₃; transport_error = not (ok₁ && ok₂ && ok₃) }))

  -- `m_numSent += 1` on a uint32_t.
  abbrev pub count_sent : Muxer w → Muxer w
  count_sent m = record m { num_sent = (m.num_sent + 1) % 2 ^ 32 }

  -- The loop of sendAll over the queue that it was given, with what is left of the queue.
  unfoldable pub send_all : ℕ → Muxer w → List ComPacket → Outcome (Muxer w × List ComPacket)
  send_all fuel m [] = done (m, [])
  send_all fuel m (p ∷ ps) =
      if m.transport_error
      then done (m, p ∷ ps)
      else (send_packet fuel m p >>= λ m'. send_all fuel (count_sent m') ps)

  -- The `for` over the queues in sendLoop, in the order in which the container yields them.
  unfoldable pub send_pass : ℕ → List ℕ → Muxer w → Outcome (Muxer w)
  send_pass fuel [] m = done m
  send_pass fuel (k ∷ order) m = do
    (m', left) ← send_all fuel m (queue k m.tx_queues)
    send_pass fuel order (record m' { tx_queues = put k left m'.tx_queues })
