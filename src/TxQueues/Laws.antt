-- ===== src/TxQueues/Laws.antt =====
-- Lookup and count in the send queues.
use packetcomms.Base.{
  ℕ, ◌+◌, ◌≤◌, ◌≡◌, refl, List, [], ◌∷◌, ◌++◌, length, length-append, ◌==◌, if◌then◌else◌, false,
  arith,
}
use packetcomms.ComPacket.{ComPacket}
use packetcomms.TxQueues.{TxQueues, queue, emplace, put, total}

pub queue-emplace :
    (k j : ℕ) (p : ComPacket) (t : TxQueues)
    → queue j (emplace k p t) ≡ (if k == j then queue j t ++ (p ∷ []) else queue j t)
unfolding queue emplace
queue-emplace k j p [] = ground arith
queue-emplace k j p ((i, q) ∷ rest) = ground (arith, queue-emplace k j p rest)

pub total-emplace : (k : ℕ) (p : ComPacket) (t : TxQueues) → total (emplace k p t) ≡ total t + 1
unfolding total emplace
total-emplace k p [] = omega arith
total-emplace k p ((i, q) ∷ rest) = ground (arith, total-emplace k p rest, length-append q (p ∷ []))

pub length-queue-le : (k : ℕ) (t : TxQueues) → length (queue k t) ≤ total t
unfolding queue total
length-queue-le k [] = omega arith
length-queue-le k ((i, q) ∷ rest) = ground (arith, length-queue-le k rest)

-- Exchanging a queue for one of another length changes the count by the difference.
pub total-put :
    (k n : ℕ) (q : List ComPacket) (t : TxQueues)
    → length (queue k t) ≡ length q + n
    → total (put k q t) + n ≡ total t
unfolding total put queue
total-put k n q [] h = omega arith
total-put k n q ((i, q') ∷ rest) h = ground (arith, total-put k n q rest)

pub queue-put_other :
    (k j : ℕ) (q : List ComPacket) (t : TxQueues)
    → (k == j) ≡ false
    → queue j (put k q t) ≡ queue j t
unfolding queue put
queue-put_other k j q [] h = refl
queue-put_other k j q ((i, q') ∷ rest) h = ground (arith, queue-put_other k j q rest)

-- The queue that was put back, where the map has the key or the queue is empty.
pub queue-put_nil : (k : ℕ) (t : TxQueues) → queue k (put k [] t) ≡ []
unfolding queue put
queue-put_nil k [] = refl
queue-put_nil k ((i, q') ∷ rest) = ground (arith, queue-put_nil k rest)
