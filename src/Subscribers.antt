-- ===== src/Subscribers.antt =====
-- m_subscribers of src/PacketDemuxer.h and src/PacketSubscriber.h: for each packet type the
-- subscribers in the order in which they came. A shared pointer is the address of its object.
pub mod Laws
use packetcomms.Base.{
  ℕ, zero, suc, ◌+◌, ◌-◌, List, [], ◌∷◌, ◌++◌, length, map, take, drop, Bool, true, false, ◌||◌,
  ◌==◌, if◌then◌else◌, Outcome, done, aborts,
}

-- class PacketSubscriber. The callback is named by the object's address, see Demuxer.dispatch.
pub record Subscriber : Type 0 where
  pub address : ℕ
  pub type : ℕ

abbrev pub SubscriberTable : Type 0
SubscriberTable = List (ℕ × List Subscriber)

-- The subscribers of a type, none if there is no entry.
unfoldable pub lookup : ℕ → SubscriberTable → List Subscriber
lookup k [] = []
lookup k ((j, q) ∷ rest) = if j == k then q else lookup k rest

-- `m_subscribers[type] = queue`: an entry is made where there is none.
unfoldable pub insert : ℕ → List Subscriber → SubscriberTable → SubscriberTable
insert k q [] = (k, q) ∷ []
insert k q ((j, r) ∷ rest) = if j == k then (j, q) ∷ rest else (j, r) ∷ insert k q rest

-- What std::remove_if keeps.
unfoldable pub without : ℕ → List Subscriber → List Subscriber
without a [] = []
without a (x ∷ xs) = if x.address == a then without a xs else x ∷ without a xs

unfoldable pub count : ℕ → List Subscriber → ℕ
count a [] = 0
count a (x ∷ xs) = if x.address == a then suc (count a xs) else count a xs

-- An element that was moved from: a null pointer.
abbrev pub moved_from : Subscriber
moved_from = record { address = 0; type = 0 }

-- The array as remove_if leaves it: the elements kept, and behind the new end the rest of the
-- original places, of which those kept were moved from. Only what lies behind the new end matters, and
-- every place there is behind the first element removed.
unfoldable pub remove_if : ℕ → List Subscriber → List Subscriber
unfolding without
remove_if a q =
    without a q
    ++ drop (length (without a q)) (map (λ x. if x.address == a then x else moved_from) q)

-- remove_if, the assert that it removed something, and an erase of the one element at the new end.
unfoldable pub remove_one : ℕ → List Subscriber → Outcome (List Subscriber)
unfolding remove_if
remove_one a q =
    let end = length (without a q) in
    if count a q == 0
    then aborts
    else done (take end (remove_if a q) ++ drop (suc end) (remove_if a q))

unfoldable pub contains : ℕ → List Subscriber → Bool
contains a [] = false
contains a (x ∷ xs) = x.address == a || contains a xs
