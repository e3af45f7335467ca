-- ===== src/Examples/Clients.antt =====
-- The theorems on the subscriptions of src/PacketDemuxer.cpp and src/PacketSubscription.cpp at
-- concrete inputs.
use packetcomms.Base.{ℕ, ◌≡◌, refl, [], ◌∷◌, false, true, some, ◌==◌, if◌then◌else◌, done, arith}
use packetcomms.IdManager.{reserved, to_id, to_string, find, control_string}
use packetcomms.Subscribers.{Subscriber, lookup, insert, count}
use packetcomms.Transport.Script.{source}
use packetcomms.Demuxer
use packetcomms.Demuxer.{Demuxer, subscribe}
use packetcomms.Demuxer.Subscriptions.{IsUnique, times, subscribe_lem, is_subscribed-times}
use packetcomms.PacketSubscription.{destroy}
use packetcomms.PacketSubscription.Lifetime.{destroy-subscribe}

abbrev alone : Demuxer source
alone = record {
  packet_ids = reserved;
  subscribers = [];
  transport = record { script = []; coming = [] };
  transport_error = false;
  next_address = 1;
  delivered = [];
}

abbrev client : Subscriber
client = record { address = 1; type = 1 }

abbrev shared : Demuxer source
shared = record alone { subscribers = (1, client ∷ []) ∷ []; next_address = 2 }

alone-IsUnique : IsUnique alone
unfolding lookup count
alone-IsUnique = record { once = λ k a. omega arith; fresh = λ k a h. refl }

joined : subscribe source alone control_string ≡ done (shared, client)
unfolding subscribe to_id find lookup insert
joined = refl

name_known : to_string reserved 1 ≡ done control_string
unfolding to_string
name_known = refl

shared-IsUnique : IsUnique shared
shared-IsUnique = (subscribe_lem source alone shared control_string client alone-IsUnique joined).0

registered : times shared 1 1 ≡ 1
registered = (subscribe_lem source alone shared control_string client alone-IsUnique joined).3

client_is_subscribed :
    Demuxer.is_subscribed source shared client ≡ (if times shared 1 1 == 0 then false else true)
client_is_subscribed = is_subscribed-times source shared client

destroy-subscribe_example :
    (d'' : Demuxer source) × (destroy source (some shared) (some client) ≡ done (some d''))
    × IsUnique d''
    × ((k a : ℕ) → times d'' k a ≡ times alone k a)
destroy-subscribe_example =
    destroy-subscribe source alone shared control_string client control_string alone-IsUnique joined
      name_known
