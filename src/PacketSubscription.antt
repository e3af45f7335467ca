-- ===== src/PacketSubscription.antt =====
-- src/PacketSubscription.h and .cpp, with src/PacketSubscriber.cpp: the handle that a client of a
-- demuxer holds. A handle is the one owner of its subscriber beside the demuxer's table, since it
-- cannot be copied. A demuxer that was destroyed is `none`.
pub mod Lifetime
use packetcomms.Base.{
  ℕ, suc, ◌+◌, Bool, Option, none, some, ltb, if◌then◌else◌, Outcome, done, faults, ◌>>=◌,
}
use packetcomms.Subscribers.{Subscriber, lookup, count}
use packetcomms.Transport.{Reader}
use packetcomms.Demuxer
use packetcomms.Demuxer.{Demuxer}

abbrev pub Handle : Type 0
Handle = Option Subscriber

-- The move constructor swaps with an empty handle: the new handle, and what is left in the old one.
unfoldable pub move_construct : Handle → Handle × Handle
move_construct h = (h, none)

-- Move assignment swaps: the target afterwards, and the source.
unfoldable pub move_assign : Handle → Handle → Handle × Handle
move_assign target source = (source, target)

module _ (r : Reader) where
  -- The handle's own reference and those of the table, which goes with the demuxer.
  unfoldable pub use_count : Option (Demuxer r) → Subscriber → ℕ
  use_count none x = 1
  use_count (some d) x = suc (count x.address (lookup x.type d.subscribers))

  -- PacketSubscriber::unsubscribe, through its reference to the demuxer.
  unfoldable pub unsubscribe : Option (Demuxer r) → Subscriber → Outcome (Option (Demuxer r))
  unsubscribe none x = faults
  unsubscribe (some d) x = Demuxer.unsubscribe r d x >>= λ d'. done (some d')

  unfoldable pub destroy : Option (Demuxer r) → Handle → Outcome (Option (Demuxer r))
  unfolding use_count unsubscribe
  destroy owner none = done owner
  destroy owner (some x) = if ltb 1 (use_count owner x) then unsubscribe owner x else done owner

  -- Through the handle's pointer, and the subscriber's reference to the demuxer.
  unfoldable pub is_subscribed : Option (Demuxer r) → Handle → Outcome Bool
  is_subscribed owner none = faults
  is_subscribed none (some x) = faults
  is_subscribed (some d) (some x) = done (Demuxer.is_subscribed r d x)
