-- ===== src/Muxer/Thread/Invariant.antt =====
-- The counters of a muxer against its queues, in every state that its threads can reach.
use packetcomms.Base.{
  ℕ, ◌+◌, ◌%◌, ◌^◌, ◌<◌, ◌≡◌, refl, sym, subst, ◌∙◌, String, List, true, false, ◌==◌, done,
  >>=-eq-done, Distinct, arith,
}
use packetcomms.Wire.{Endian}
use packetcomms.ComPacket.{from_buffer}
use packetcomms.IdManager.{to_id, new_id_manager}
use packetcomms.ControlMessage.{ControlMessage, hello}
use packetcomms.TxQueues.{emplace, total, keys}
use packetcomms.TxQueues.Laws.{total-emplace}
use packetcomms.TxQueues.Order.{emplace-Distinct}
use packetcomms.Transport.{Writer}
use packetcomms.Muxer.{Muxer, new_muxer, shut_down, emplace_packet, send_control_message, send_pass}
use packetcomms.Muxer.Pass.{send_pass-Balanced}
use packetcomms.Muxer.Thread.{
  waiting, CvStatus, timeout, no_timeout, System, start, unblock, woken, Step, posts, destroys,
  unblocks, greets, locks, exits, waits, sends, wakes, Reach, here, next,
}

-- The counters are uint32_t; posted packets are sent or wait, modulo 2^32; the keys are distinct.
pub record IsCounted {w : Writer} (m : Muxer w) : Type 0 where
  pub sent_bounded : m.num_sent < 2 ^ 32
  pub counted : m.num_posted ≡ (m.num_sent + total m.tx_queues) % 2 ^ 32
  pub distinct : Distinct (keys m.tx_queues)

-- While the thread waits and nobody has notified it, the number of packets in the queues is a
-- multiple of 2^32.
pub record IsSound {w : Writer} (s : System w) : Type 0 where
  pub muxer_counted : IsCounted s.muxer
  pub idle : s.phase ≡ waiting → s.notified ≡ false → total (s.muxer).tx_queues % 2 ^ 32 ≡ 0

pub done_injective {ℓ} : {A : Type ℓ} {a b : A} → done a ≡ done b → a ≡ b
done_injective h = cc

module _ (w : Writer) where
  pub emplace_packet_cases :
      (m m' : Muxer w) (name : String) (bytes : List ℕ)
      → emplace_packet w m name bytes ≡ done m'
      → (k : ℕ) × (to_id m.packet_ids name ≡ done k)
        × (m' ≡ record m {
          num_posted = (m.num_posted + 1) % 2 ^ 32;
          tx_queues = emplace k (from_buffer k bytes) m.tx_queues;
        })
  unfolding emplace_packet
  emplace_packet_cases m m' name bytes h =
      let r = >>=-eq-done (to_id m.packet_ids name) _ h in (r.0, r.1, sym (done_injective r.2))

  pub emplace_packet_lem :
      (m : Muxer w) (name : String) (bytes : List ℕ) (k : ℕ)
      → to_id m.packet_ids name ≡ done k
      → emplace_packet w m name bytes
        ≡ done (record m {
          num_posted = (m.num_posted + 1) % 2 ^ 32;
          tx_queues = emplace k (from_buffer k bytes) m.tx_queues;
        })
  unfolding emplace_packet
  emplace_packet_lem m name bytes k e = rw (e, emplace_packet)

  pub emplace_packet-IsCounted :
      (m m' : Muxer w) (name : String) (bytes : List ℕ)
      → emplace_packet w m name bytes ≡ done m'
      → IsCounted m
      → IsCounted m'
  emplace_packet-IsCounted m m' name bytes h v =
      let r = emplace_packet_cases m m' name bytes h in
      let p = from_buffer r.0 bytes in
      rw r.2 (record {
        sent_bounded = v.sent_bounded;
        counted = omega (arith, v.counted, total-emplace r.0 p m.tx_queues);
        distinct = emplace-Distinct r.0 p m.tx_queues v.distinct;
      })

  pub new_muxer-IsCounted :
      (names : List String) (s : w.State) (m : Muxer w) → new_muxer w names s ≡ done m → IsCounted m
  unfolding new_muxer total
  new_muxer-IsCounted names s m h =
      let r = >>=-eq-done (new_id_manager names) _ h in
      subst IsCounted (done_injective r.2)
        (record { sent_bounded = omega arith; counted = refl; distinct = tt })

  control-IsCounted :
      (m m' : Muxer w) (msg : ControlMessage)
      → send_control_message w m msg ≡ done m'
      → IsCounted m
      → IsCounted m'
  unfolding send_control_message
  control-IsCounted m m' msg h v = emplace_packet-IsCounted m m' _ _ h v

  pub idle_total :
      (m : Muxer w)
      → (m.num_posted == m.num_sent) ≡ true
      → IsCounted m
      → total m.tx_queues % 2 ^ 32 ≡ 0
  idle_total m d v =
      let e : m.num_posted ≡ m.num_sent = ground arith in omega (arith, v.counted, v.sent_bounded)

  pub woken-IsCounted :
      (status : CvStatus) (m m' : Muxer w) → woken w status m ≡ done m' → IsCounted m → IsCounted m'
  unfolding woken
  woken-IsCounted timeout m m' h v = control-IsCounted m m' _ h v
  woken-IsCounted no_timeout m m' h v = let e : m ≡ m' = cc in subst IsCounted e v

module _ (w : Writer) (host : Endian) (fuel : ℕ) where
  pub send_pass-IsCounted :
      (order : List ℕ) (m m' : Muxer w)
      → send_pass w host fuel order m ≡ done m'
      → IsCounted m
      → IsCounted m'
  send_pass-IsCounted order m m' h v =
      let b = send_pass-Balanced w host fuel order m m' v.sent_bounded v.distinct h in
      record {
        sent_bounded = b.bounded;
        counted = b.posted ∙ v.counted ∙ sym b.counted;
        distinct = b.distinct;
      }

  -- Every step keeps the counters right, whatever the transport does, and the thread goes to wait
  -- only when the number of waiting packets is a multiple of 2^32.
  pub Step-IsSound : (s t : System w) → Step w host fuel s t → IsSound s → IsSound t
  Step-IsSound s t (posts name bytes m free e q) v = rw q (record {
    muxer_counted = emplace_packet-IsCounted w s.muxer m name bytes e v.muxer_counted;
    idle = λ p n. cc;
  })
  Step-IsSound s t (destroys free q) v = rw q (record {
    muxer_counted =
        unfold shut_down in
        record {
          sent_bounded = v.muxer_counted.sent_bounded;
          counted = v.muxer_counted.counted;
          distinct = v.muxer_counted.distinct;
        };
    idle = λ p n. cc;
  })
  Step-IsSound s t (unblocks q) v = rw q (record {
    muxer_counted =
        unfold unblock in
        record {
          sent_bounded = v.muxer_counted.sent_bounded;
          counted = v.muxer_counted.counted;
          distinct = v.muxer_counted.distinct;
        };
    idle = unfold unblock in v.idle;
  })
  Step-IsSound s t (greets m p e q) v = rw q (record {
    muxer_counted = control-IsCounted w s.muxer m hello e v.muxer_counted;
    idle = λ p n. cc;
  })
  Step-IsSound s t (locks p q) v =
      rw q (record { muxer_counted = v.muxer_counted; idle = λ p n. cc })
  Step-IsSound s t (exits p e q) v =
      rw q (record { muxer_counted = v.muxer_counted; idle = λ p n. cc })
  Step-IsSound s t (waits p e d q) v = rw q (record {
    muxer_counted = v.muxer_counted;
    idle = λ _ _. idle_total w s.muxer d v.muxer_counted;
  })
  Step-IsSound s t (sends order m p e d o r q) v = rw q (record {
    muxer_counted = send_pass-IsCounted order s.muxer m r v.muxer_counted;
    idle = λ p' n. cc;
  })
  Step-IsSound s t (wakes status order m₁ m p e o r q) v = rw q (record {
    muxer_counted =
        send_pass-IsCounted order m₁ m r (woken-IsCounted w status s.muxer m₁ e v.muxer_counted);
    idle = λ p' n. cc;
  })

  pub Reach-IsSound : (s t : System w) → IsSound s → Reach w host fuel s t → IsSound t
  Reach-IsSound s t v here = v
  Reach-IsSound s t v (next {t = u} r st) = Step-IsSound u t st (Reach-IsSound s u v r)

  -- In every state that its threads can bring a muxer to that was just constructed, by any
  -- interleaving and whatever the transport does: the counters are uint32_t, the packets posted are
  -- those sent and those that wait, modulo 2^32, no two queues have the same type, and while the
  -- send thread waits without having been notified, a multiple of 2^32 packets is in the queues.
  pub Reach-new_muxer :
      (names : List String) (x : w.State) (m : Muxer w) (t : System w)
      → new_muxer w names x ≡ done m
      → Reach w host fuel (start w m) t
      → IsSound t
  Reach-new_muxer names x m t made r =
      Reach-IsSound (start w m) t
        (record { muxer_counted = new_muxer-IsCounted w names x m made; idle = λ p n. cc }) r
