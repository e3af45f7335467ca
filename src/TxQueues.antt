-- ===== src/TxQueues.antt =====
-- m_txQueues of src/PacketMuxer.h: std::unordered_map from packet types to FIFO queues, as an
-- association list. Its order is that of insertion: an iteration of the map takes its order as an
-- argument, since the container fixes none.
pub mod Laws
pub mod Order
pub mod Types
use packetcomms.Base.{
  ℕ, suc, ◌+◌, List, [], ◌∷◌, ◌++◌, map, length, ◌==◌, if◌then◌else◌, Distinct, All, In,
}
use packetcomms.ComPacket.{ComPacket}

abbrev pub TxQueues : Type 0
TxQueues = List (ℕ × List ComPacket)

-- The queue of a type, empty if there is none.
unfoldable pub queue : ℕ → TxQueues → List ComPacket
queue k [] = []
queue k ((j, q) ∷ rest) = if j == k then q else queue k rest

-- `m_txQueues[type].emplace(packet)`.
unfoldable pub emplace : ℕ → ComPacket → TxQueues → TxQueues
emplace k p [] = (k, p ∷ []) ∷ []
emplace k p ((j, q) ∷ rest) =
    if j == k then (j, q ++ (p ∷ [])) ∷ rest else (j, q) ∷ emplace k p rest

-- A queue after its packets were taken through the reference `pair.second`.
unfoldable pub put : ℕ → List ComPacket → TxQueues → TxQueues
put k q' [] = []
put k q' ((j, q) ∷ rest) = if j == k then (j, q') ∷ rest else (j, q) ∷ put k q' rest

abbrev pub keys : TxQueues → List ℕ
keys = map λ entry. entry.0

-- How many packets wait in all the queues.
unfoldable pub total : TxQueues → ℕ
total [] = 0
total ((j, q) ∷ rest) = length q + total rest

-- The packets of all the queues, when the queues are visited in this order.
unfoldable pub in_order : List ℕ → TxQueues → List ComPacket
in_order [] t = []
in_order (k ∷ order) t = queue k t ++ in_order order t

-- The map after every queue of the order was emptied.
unfoldable pub cleared : List ℕ → TxQueues → TxQueues
cleared [] t = t
cleared (k ∷ order) t = cleared order (put k [] t)

-- What an iteration of the container promises: it yields every key, and none twice.
pub record Visits (order : List ℕ) (t : TxQueues) : Type 0 where
  pub once : Distinct order
  pub every : All (λ k. In k order) (keys t)

-- A property of every packet that waits.
abbrev pub AllQueued : (ComPacket → Type 0) → TxQueues → Type 0
AllQueued P = All λ entry. All P entry.1
