-- ===== src/Muxer/Thread/Hello.antt =====
-- The first packet on the wire.
use packetcomms.Base.{
  ℕ, ◌+◌, ◌≤◌, ◌≡◌, ◌≢◌, inl, inr, refl, sym, ap, subst, ◌∙◌, String, List, [], ◌∷◌, ◌++◌,
  append-nil, true, false, done, Distinct, All, length, In, arith,
}
use packetcomms.Wire.{Endian}
use packetcomms.ComPacket.{ComPacket, from_buffer}
use packetcomms.IdManager.{to_id, control_string, control_packet}
use packetcomms.ControlMessage.{hello, underlying}
use packetcomms.Frame.{frame, frames}
use packetcomms.TxQueues.{total, emplace, queue, in_order, Visits}
use packetcomms.TxQueues.Order.{In-ne, total-cleared}
use packetcomms.Transport.{Writer, WriterLaws}
use packetcomms.Muxer.{Muxer, emplace_packet, send_control_message, send_pass}
use packetcomms.Muxer.Pass.{send_pass_lem}
use packetcomms.Muxer.Thread.{ready, start, posts, greets, locks, sends, Reach, here, next}
use packetcomms.Muxer.Thread.Invariant.{emplace_packet_lem}
use packetcomms.Muxer.Thread.Shutdown.{control_lem}
use packetcomms.Muxer.Thread.Fifo.{control_of, packet_of, packet_of_known, posted_by, posted}
use packetcomms.Muxer.Lifetime.{actor}
use packetcomms.Muxer.Lifetime.Steps.{Undestroyed}

abbrev pub hello_packet : ComPacket
hello_packet = from_buffer control_packet (underlying hello ∷ [])

frames_one : (p : ComPacket) → frames (p ∷ []) ≡ frame p
unfolding frames
frames_one p = append-nil (frame p)

two_frames :
    (k : ℕ) (p : ComPacket)
    → k ≢ control_packet
    → frames (
        in_order (k ∷ control_packet ∷ []) ((control_packet, hello_packet ∷ []) ∷ (k, p ∷ []) ∷ []))
      ≡ frame p ++ frame hello_packet
unfolding in_order queue frames
two_frames k p user = ground (arith, append-nil (frame hello_packet))

in_order_none :
    (k : ℕ) (q : List ComPacket) (order : List ℕ)
    → All (λ j. k ≢ j) order
    → in_order order ((k, q) ∷ []) ≡ []
unfolding in_order queue
in_order_none k q [] a = refl
in_order_none k q (j ∷ order) a = ground (arith, in_order_none k q order a.1)

-- A visit of a map with one queue yields that queue.
in_order_single :
    (k : ℕ) (q : List ComPacket) (order : List ℕ)
    → Distinct order
    → In k order
    → in_order order ((k, q) ∷ []) ≡ q
unfolding in_order queue
in_order_single k q [] d i = absurd i
in_order_single k q (j ∷ order) d (inl e) =
    let e' : k ≡ j = sym e in
    let none : in_order order ((k, q) ∷ []) ≡ [] =
      in_order_none k q order (subst (λ x. All (λ i. x ≢ i) order) e d.0) in
    ground (arith, none, append-nil q)
in_order_single k q (j ∷ order) d (inr i) =
    ground (arith, In-ne j k order d.0 i, in_order_single k q order d.1 i)

module _ (w : Writer) (laws : WriterLaws w) (host : Endian) where
  open laws use {sent, patience}

  -- A muxer as its constructor leaves it.
  pub record IsFresh (m : Muxer w) : Type 0 where
    pub none_posted : m.num_posted ≡ 0
    pub none_sent : m.num_sent ≡ 0
    pub no_queue : m.tx_queues ≡ []
    pub no_error : m.transport_error ≡ false
    pub control_known : to_id m.packet_ids control_string ≡ done control_packet

  -- The muxer after sendControlMessage(Hello), if nothing was posted before.
  abbrev pub after_hello : Muxer w → Muxer w
  after_hello m = record m { num_posted = 1; tx_queues = (control_packet, hello_packet ∷ []) ∷ [] }

  after_hello_lem :
      (m : Muxer w) → IsFresh m → send_control_message w m hello ≡ done (after_hello m)
  unfolding emplace
  after_hello_lem m v =
      control_lem w m hello control_packet v.control_known ∙ rw (v.none_posted, v.no_queue) refl

  -- On a fresh muxer that knows the control packets, if nobody posts before the send thread has the
  -- lock, the first pass returns with enough fuel in whatever order the queues are visited, the
  -- thread reaches the state behind it, and unless it leaves a transport error the frame of Hello is
  -- all that was sent.
  pub hello_first :
      (fuel : ℕ) (m : Muxer w) (order : List ℕ)
      → IsFresh m
      → Visits order (after_hello m).tx_queues
      → patience m.transport + 5 ≤ fuel
      → (m' : Muxer w) × (send_pass w host fuel order (after_hello m) ≡ done m')
        × Reach w host fuel (start w m) (record { muxer = m'; phase = ready; notified = false })
        × (m'.transport_error ≡ false → sent m'.transport ≡ sent m.transport ++ frame hello_packet)
  hello_first fuel m order v visit h =
      let pass =
        send_pass_lem w laws host fuel 1 order (after_hello m) (omega (arith, v.none_sent))
          visit.once ((((λ e. cc), omega arith), tt), tt) (omega arith) in
      (
        pass.0,
        pass.1,
        next
            (next (next here (greets (after_hello m) refl (after_hello_lem m v) refl))
              (locks refl refl))
            (sends order pass.0 refl v.no_error (rw v.none_sent refl) visit pass.1 refl),
        (λ e.
            (pass.2 e).0
            ∙ ap (◌++◌ (sent m.transport)) (
                ap frames (
                  in_order_single control_packet (hello_packet ∷ []) order visit.once visit.every.0)
                ∙ frames_one hello_packet)),
      )

  overtaking_lem :
      (k : ℕ) (m : Muxer w) (name : String) (bytes : List ℕ)
      → to_id m.packet_ids name ≡ done k
      → k ≢ control_packet
      → emplace_packet w (after_hello m) name bytes
        ≡ done (record m {
          num_posted = 2;
          tx_queues = (control_packet, hello_packet ∷ []) ∷ (k, from_buffer k bytes ∷ []) ∷ [];
        })
  unfolding emplace
  overtaking_lem k m name bytes known user =
      emplace_packet_lem w (after_hello m) name bytes k known ∙ ground arith

  both_posted :
      (k : ℕ) (m : Muxer w) (name : String) (bytes : List ℕ)
      → to_id m.packet_ids control_string ≡ done control_packet
      → to_id m.packet_ids name ≡ done k
      → ((control_of w m hello ++ packet_of w (after_hello m) name bytes) ++ []) ++ []
        ≡ hello_packet ∷ from_buffer k bytes ∷ []
  both_posted k m name bytes control known =
      rw
        (
          packet_of_known w laws m control_string (underlying hello ∷ []) control_packet control,
          packet_of_known w laws (after_hello m) name bytes k known,
        )
        refl

  -- On a fresh muxer that knows the control packets, a packet of another valid type that a thread
  -- posts before the send thread has the lock can be sent ahead of Hello, since no order of the queues
  -- is promised. With enough fuel there is a run of the threads, without a step of the destructor, in
  -- which Hello and behind it the packet are all that is posted, and which ends with no packet waiting
  -- and the frame of the packet sent first and that of Hello behind it, or with a transport error that
  -- the writes have left.
  pub hello_overtaken :
      (fuel k : ℕ) (m : Muxer w) (name : String) (bytes : List ℕ)
      → IsFresh m
      → to_id m.packet_ids name ≡ done k
      → k ≢ 0
      → k ≢ control_packet
      → patience m.transport + 5 + length bytes ≤ fuel
      → (m' : Muxer w) × (run : Reach w host fuel
          (start w m)
          (record { muxer = m'; phase = ready; notified = true }))
        × Undestroyed w host fuel run
        × (posted w host fuel run ≡ hello_packet ∷ from_buffer k bytes ∷ [])
        × (m'.transport_error ≡ false
            → (total m'.tx_queues ≡ 0)
              × (sent m'.transport
                  ≡ sent m.transport ++ (frame (from_buffer k bytes) ++ frame hello_packet)))
  unfolding actor posted posted_by underlying
  hello_overtaken fuel k m name bytes v known valid user h =
      let p = from_buffer k bytes in
      let order : List ℕ = k ∷ control_packet ∷ [] in
      let m₂ : Muxer w = record m {
        num_posted = 2;
        tx_queues = (control_packet, hello_packet ∷ []) ∷ (k, p ∷ []) ∷ [];
      } in
      let pass =
        send_pass_lem w laws host fuel (1 + length bytes) order m₂ (omega (arith, v.none_sent))
          ((user, tt), (tt, tt)) ((((λ e. cc), omega arith), tt), (((valid, omega arith), tt), tt))
          (omega arith) in
      let visit : Visits order m₂.tx_queues = record {
        once = ((user, tt), (tt, tt));
        every = (inr (inl refl), (inl refl, tt));
      } in
      (
        pass.0,
        next
            (next
              (next (next here (greets (after_hello m) refl (after_hello_lem m v) refl))
                (posts name bytes m₂ (λ e. cc) (overtaking_lem k m name bytes known user) refl))
              (locks refl refl))
            (sends order pass.0 refl v.no_error (rw v.none_sent refl) visit pass.1 refl),
        ((((tt, (λ e. cc)), (λ e. cc)), (λ e. cc)), (λ e. cc)),
        both_posted k m name bytes v.control_known known,
        (λ e. (
          ap total (pass.2 e).1
              ∙ total-cleared order m₂.tx_queues visit (((λ q. user (sym q)), tt), (tt, tt)),
          (pass.2 e).0 ∙ ap (◌++◌ (sent m.transport)) (two_frames k p user),
        )),
      )
