-- ===== src/Examples/Values.antt =====
-- The theorems on src/Serialisation.h and src/PacketSerialisation.h, and on the memory that
-- src/PacketDemuxer.cpp fills, at concrete inputs.
use packetcomms.Base.{
  ℕ, ◌-◌, ◌<◌, ◌≡◌, refl, inl, inr, Bool, true, false, ℤ, pos, negsuc, List, [], ◌∷◌, ◌++◌,
  replicate, In, ltb, ◌==◌, if◌then◌else◌, Outcome, done, throws, arith,
}
use packetcomms.Wire.{little, big, network_bytes, store_u32, htonl}
use packetcomms.IdManager.{IdManager, reserved, to_id, find}
use packetcomms.ComPacket.{ComPacket, from_buffer, get_data_size}
use packetcomms.ControlMessage.{underlying}
use packetcomms.Frame.{frame}
use packetcomms.Subscribers.{Subscriber, lookup}
use packetcomms.TxQueues.{queue, put, emplace}
use packetcomms.Transport.Script.{at_most, sink, sink_laws, source, source_laws}
use packetcomms.Muxer.{Muxer, emplace_packet, write_bytes, send_packet, send_all, send_pass}
use packetcomms.Muxer.Thread.Hello.{hello_packet}
use packetcomms.Demuxer.{Demuxer, receive_loop}
use packetcomms.Delivery.{IsCarried}
use packetcomms.VectorStream.{
  run, bytes_of, InputStream, new_input, new_output, sgetn, get, output, xsputn,
}
use packetcomms.Serialisation.{
  Cereal, CerealLaws, Args, nothing, more, Values, save_all, serialise, serialise_packet,
  deserialise, deserialise_packet, TimeSpec, timespec,
}
use packetcomms.Serialisation.RoundTrip.{
  Keeps, none_left, also, deserialise-serialise, timespec-CerealLaws,
}
use packetcomms.Serialisation.Typed.{typed_delivery}
use packetcomms.Sync.Messages.{send_ready, hear, hear-send_ready}

-- Archives for a bool, as one byte.
abbrev bool_byte : Bool → ℕ
bool_byte true = 1
bool_byte false = 0

abbrev load_bool : InputStream → List ℕ → Outcome (InputStream × Bool)
load_bool rest [] = throws
load_bool rest (b ∷ bs) = done (rest, if b == 0 then false else true)

abbrev bool : Cereal Bool
bool = record {
  save = λ b. run (bool_byte b ∷ []) ∷ [];
  load = λ i. load_bool (sgetn i 1).0 (sgetn i 1).1;
}

bool_laws : CerealLaws bool (λ b. Unit {0})
unfolding sgetn new_input bytes_of
bool_laws = record { restores = restores_bool }
  where
    restores_bool :
        (b : Bool) (rest : List ℕ)
        → Unit {0}
        → load_bool
            (sgetn (new_input (bool_byte b ∷ rest)) 1).0
            (sgetn (new_input (bool_byte b ∷ rest)) 1).1
          ≡ done (new_input rest, b)
    restores_bool true rest v = refl
    restores_bool false rest v = refl

-- Archives for an int64_t between -128 and 127, as eight bytes in two's complement, the lowest first.
abbrev int_bytes : ℤ → List ℕ
int_bytes (pos n) = n ∷ replicate 7 0
int_bytes (negsuc n) = (255 - n) ∷ replicate 7 255

abbrev load_int : InputStream → List ℕ → Outcome (InputStream × ℤ)
load_int rest (b ∷ _ ∷ _ ∷ _ ∷ _ ∷ _ ∷ _ ∷ _ ∷ []) =
    done (rest, if ltb b 128 then pos b else negsuc (255 - b))
load_int rest _ = throws

abbrev int64 : Cereal ℤ
int64 = record {
  save = λ z. run (int_bytes z) ∷ [];
  load = λ i. load_int (sgetn i 8).0 (sgetn i 8).1;
}

abbrev IsSmall : ℤ → Type 0
IsSmall (pos n) = n < 128
IsSmall (negsuc n) = n < 128

int64_laws : CerealLaws int64 IsSmall
unfolding sgetn new_input bytes_of
int64_laws = record { restores = restores_int }
  where
    restores_int :
        (z : ℤ) (rest : List ℕ)
        → IsSmall z
        → load_int
            (sgetn (new_input ((int_bytes z ++ []) ++ rest)) 8).0
            (sgetn (new_input ((int_bytes z ++ []) ++ rest)) 8).1
          ≡ done (new_input rest, z)
    restores_int (pos n) rest v = ground arith
    restores_int (negsuc n) rest v = ground arith

abbrev now : TimeSpec
now = record { sec = pos 100; nsec = negsuc 4 }

-- The arguments of two calls: a bool and a timespec, and a bool.
abbrev two : Args
two = more bool (more (timespec int64) nothing)

abbrev two_values : Values two
two_values = (true, (now, tt))

abbrev one : Args
one = more bool nothing

two-Keeps : Keeps two two_values
two-Keeps =
    also (λ b. Unit {0}) true (now, tt) bool_laws tt
      (also (λ t. IsSmall t.sec × IsSmall t.nsec) now tt
        (timespec-CerealLaws int64 IsSmall int64_laws) (omega arith, omega arith) (none_left tt))

one-Keeps : Keeps one (false, tt)
one-Keeps = also (λ b. Unit {0}) false tt bool_laws tt (none_left tt)

deserialise-serialise_example :
    (i : InputStream) × (deserialise two
        (new_input (get (serialise one (false, tt) (serialise two two_values new_output))))
      ≡ done (i, two_values))
    × (deserialise one i ≡ done (new_input [], (false, tt)))
deserialise-serialise_example =
    deserialise-serialise two one two_values (false, tt) two-Keeps one-Keeps

archived_times : CerealLaws (timespec int64) (λ t. IsSmall t.sec × IsSmall t.nsec)
archived_times = timespec-CerealLaws int64 IsSmall int64_laws

-- A ready message over a muxer that knows the name "ready".
abbrev ids : IdManager
ids = record { map = ("ready", 2) ∷ reserved.map; reverse = reserved.reverse ++ ("ready" ∷ []) }

abbrev said : List ℕ
said = 0 ∷ 0 ∷ 0 ∷ 1 ∷ 0 ∷ 0 ∷ 0 ∷ 1 ∷ 254 ∷ []

abbrev all_said : List ℕ
all_said = 0 ∷ 0 ∷ 0 ∷ 1 ∷ 0 ∷ 0 ∷ 0 ∷ 1 ∷ 254 ∷ 0 ∷ 0 ∷ 0 ∷ 2 ∷ 0 ∷ 0 ∷ 0 ∷ 1 ∷ 1 ∷ []

abbrev quiet : Muxer sink
quiet = record {
  packet_ids = ids;
  num_posted = 1;
  num_sent = 1;
  tx_queues = (1, []) ∷ [];
  transport = record { script = []; taken = said };
  transport_error = false;
}

abbrev ready : ComPacket
ready = from_buffer 2 (1 ∷ [])

abbrev posted : Muxer sink
posted = record quiet { num_posted = 2; tx_queues = (1, []) ∷ (2, ready ∷ []) ∷ [] }

abbrev sent : Muxer sink
sent = record posted {
  num_sent = 2;
  tx_queues = (1, []) ∷ (2, []) ∷ [];
  transport = record { script = []; taken = all_said };
}

ready_known : to_id ids "ready" ≡ done 2
unfolding to_id find
ready_known = refl

ready_serialised : serialise_packet sink one quiet "ready" (true, tt) ≡ done posted
unfolding serialise_packet serialise save_all emplace_packet to_id find get output xsputn new_output
    emplace
ready_serialised = refl

ready_posted : send_ready sink bool quiet "ready" ≡ done posted
unfolding send_ready
ready_posted = ready_serialised

ready_sent : send_pass sink little 6 (1 ∷ 2 ∷ []) posted ≡ done sent
unfolding send_pass send_all send_packet write_bytes store_u32 htonl queue put get_data_size
ready_sent = refl

ready_is_heard :
    (p : ComPacket) × (p.type ≡ 2)
    × ((j : ℕ)
        → queue j posted.tx_queues
          ≡ (if 2 == j then queue j quiet.tx_queues ++ (p ∷ []) else queue j quiet.tx_queues))
    × ((flag : Bool) → hear bool p flag ≡ done true)
ready_is_heard = hear-send_ready bool bool_laws sink quiet posted "ready" 2 ready_known ready_posted

abbrev listener : Subscriber
listener = record { address = 1; type = 2 }

abbrev other_end : Demuxer source
other_end = record {
  packet_ids = ids;
  subscribers = (2, listener ∷ []) ∷ [];
  transport = record { script = at_most 3 ∷ []; coming = all_said };
  transport_error = false;
  next_address = 2;
  delivered = [];
}

hello_said : said ≡ frame hello_packet
unfolding frame network_bytes underlying
hello_said = refl

listening : In listener (lookup 2 other_end.subscribers)
unfolding lookup
listening = inl refl

ready-IsCarried : IsCarried 1 ready
ready-IsCarried = record {
  sendable = record { valid = λ e. cc; type_fits = omega arith; size_fits = omega arith };
  short = omega arith;
}

typed_delivery_example :
    (rounds : ℕ) × (d' : Demuxer source) × (receive_loop source big rounds 7 other_end ≡ done d')
    × (p : ComPacket) × In (1, p) d'.delivered
    × (deserialise_packet one p ≡ done (true, tt))
typed_delivery_example =
    typed_delivery sink sink_laws source source_laws one (true, tt) little big 6 7 1 (1 ∷ 2 ∷ [])
      quiet posted sent other_end "ready" 2 listener
      (also (λ b. Unit {0}) true tt bool_laws tt (none_left tt)) ready_known (λ e. cc)
      ready_serialised (inr (inl refl)) listening hello_said (omega arith)
      (((λ e. cc), tt), (tt, tt)) (tt, ((ready-IsCarried, tt), tt)) (omega arith) (omega arith)
      ready_sent refl refl refl refl (omega arith)
