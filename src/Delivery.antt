-- ===== src/Delivery.antt =====
-- The two halves together: what src/PacketMuxer.cpp writes at one end, src/PacketDemuxer.cpp reads at
-- the other. The connection carries the bytes in order.
pub mod Threads
pub mod Since
use packetcomms.Base.{
  ℕ, ◌+◌, ◌^◌, ◌≤◌, ◌<◌, ◌≡◌, refl, sym, ap, ◌∙◌, List, [], ◌∷◌, true, false, length, done, All,
  All-append, All-map, Distinct, arith,
}
use packetcomms.Wire.{Endian}
use packetcomms.ComPacket.{ComPacket}
use packetcomms.Frame.{frame, frames, IsSendable}
use packetcomms.TxQueues.{TxQueues, queue, in_order, AllQueued}
use packetcomms.TxQueues.Order.{All-queue}
use packetcomms.Transport.{Writer, WriterLaws, Reader, ReaderLaws}
use packetcomms.Muxer.{Muxer, send_pass}
use packetcomms.Muxer.Pass.{Fits, send_pass_lem}
use packetcomms.Muxer.Thread.Hello.{hello_packet}
use packetcomms.Demuxer.{Demuxer, receive_loop, hello_timeout}
use packetcomms.Demuxer.Deliver.{Received}
use packetcomms.Demuxer.Hello.{receive_loop_lem}

-- A packet that the format can carry, with at most `n` bytes.
pub record IsCarried (n : ℕ) (p : ComPacket) : Type 0 where
  pub sendable : IsSendable p
  pub short : length p.contents ≤ n

All-in_order :
    (P : ComPacket → Type 0) (order : List ℕ) (t : TxQueues)
    → AllQueued P t
    → All P (in_order order t)
unfolding in_order
All-in_order P [] t a = tt
All-in_order P (k ∷ order) t a =
    All-append P (queue k t) (in_order order t) (All-queue P k t a) (All-in_order P order t a)

fits : (n : ℕ) (t : TxQueues) → AllQueued (IsCarried n) t → AllQueued (Fits n) t
fits n =
    All-map (λ entry. All (IsCarried n) entry.1) (λ entry. All (Fits n) entry.1)
      (λ entry. All-map (IsCarried n) (Fits n) (λ p c. (c.sendable.valid, c.short)) entry.1)

hello-IsSendable : IsSendable hello_packet
hello-IsSendable = record { valid = λ e. cc; type_fits = omega arith; size_fits = omega arith }

module _ (w : Writer) (wl : WriterLaws w) (r : Reader) (rl : ReaderLaws r) where
  stream :
      (host : Endian) (fuel n : ℕ) (order : List ℕ) (m m' : Muxer w)
      → wl.sent m.transport ≡ frame hello_packet
      → m.num_sent < 2 ^ 32
      → Distinct order
      → AllQueued (IsCarried n) m.tx_queues
      → wl.patience m.transport + 4 + n ≤ fuel
      → send_pass w host fuel order m ≡ done m'
      → m'.transport_error ≡ false
      → wl.sent m'.transport ≡ frames (hello_packet ∷ in_order order m.tx_queues)
  unfolding frames
  stream host fuel n order m m' said b d a h run calm =
      let pass = send_pass_lem w wl host fuel n order m b d (fits n m.tx_queues a) h in
      let same : pass.0 ≡ m' = cc (pass.1) in
      let e = (pass.2 (ap (λ (x : Muxer w). x.transport_error) same ∙ calm)).0 in
      ap (λ (x : Muxer w). wl.sent x.transport) (sym same) ∙ e ∙ rw said refl

  -- Let a muxer have sent Hello and no more, and make a pass over its queues that leaves no transport
  -- error, with packets that the format can carry, of at most `n` bytes. A demuxer without an error
  -- at the other end of the connection, on a host of the same or of the other byte order, that has
  -- all these bytes on their way, the first of them in time, and enough fuel, then gives every
  -- subscriber of a type other than the control packets' all the packets of its type as they were
  -- posted, in the order in which the pass visited the queues and first-in first-out in each of them,
  -- within as many rounds as there are packets and stalls, and without an error.
  pub delivery :
      (sender receiver : Endian) (fuel fuel' n : ℕ) (order : List ℕ) (m m' : Muxer w)
      (d : Demuxer r)
      → wl.sent m.transport ≡ frame hello_packet
      → m.num_sent < 2 ^ 32
      → Distinct order
      → AllQueued (IsCarried n) m.tx_queues
      → 1 ≤ n
      → wl.patience m.transport + 4 + n ≤ fuel
      → send_pass w sender fuel order m ≡ done m'
      → m'.transport_error ≡ false
      → d.transport_error ≡ false
      → rl.pending d.transport ≡ wl.sent m'.transport
      → (r.ready_for_reading d.transport hello_timeout).1 ≡ true
      → rl.patience d.transport + 4 + n ≤ fuel'
      → (k : ℕ) × (d' : Demuxer r) × (k
          ≤ rl.patience d.transport + length (in_order order m.tx_queues))
        × (receive_loop r receiver k fuel' d ≡ done d')
        × Received r rl receiver d (in_order order m.tx_queues) d'
  delivery sender receiver fuel fuel' n order m m' d said b o a one h run calm quiet carried ready
        h' =
      let all = All-in_order (IsCarried n) order m.tx_queues a in
      let ps = in_order order m.tx_queues in
      receive_loop_lem r rl receiver fuel' n d hello_packet ps quiet (refl, [], refl)
        (hello-IsSendable, All-map (IsCarried n) IsSendable (λ p c. c.sendable) ps all)
        (omega arith, All-map (IsCarried n) (λ p. length p.contents ≤ n) (λ p c. c.short) ps all)
        (carried ∙ stream sender fuel n order m m' said b o a h run calm) ready h'
