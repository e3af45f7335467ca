-- ===== src/Demuxer.antt =====
-- src/PacketDemuxer.h and src/PacketDemuxer.cpp: the receiving half. The transport is any reader,
-- and the host has either byte order. A loop over reads takes fuel, which bounds the calls of
-- `read` for one run of bytes.
pub mod Read
pub mod Receive
pub mod Deliver
pub mod Hello
pub mod Bounds
pub mod Faults
pub mod Subscriptions
pub mod Stream
pub mod Interruption
pub mod Thread
pub mod Lifetime
use packetcomms.Base.{
  ℕ, zero, suc, ◌+◌, ◌-◌, String, List, [], ◌∷◌, ◌++◌, map, Bool, true, false, not, ◌&&◌, ℤ, pos,
  negsuc, Option, none, some, length, ltb, ◌==◌, if◌then◌else◌, Outcome, done, aborts, faults,
  stuck, ◌>>=◌, ◌>>◌, ◌≡◌, refl, arith,
}
use packetcomms.Wire.{Endian, load_u32, ntohl}
use packetcomms.IdManager.{
  IdManager, new_id_manager, to_id, to_string, invalid_packet, control_packet,
}
use packetcomms.ComPacket.{ComPacket, preallocated, get_data_size}
use packetcomms.ControlMessage.{ControlMessage, hello, underlying}
use packetcomms.Subscribers.{Subscriber, SubscriberTable, lookup, insert, remove_one, contains}
use packetcomms.Transport.{Reader}

pub record Demuxer (r : Reader) : Type 0 where
  pub packet_ids : IdManager
  pub subscribers : SubscriberTable
  pub transport : r.State
  pub transport_error : Bool
  -- The address of the next subscriber object.
  pub next_address : ℕ
  -- The calls of callbacks so far: which subscriber was given which packet.
  pub delivered : List (ℕ × ComPacket)

-- What a run of readBytes leaves: the transport, m_transportError, the value returned, `size`, and
-- the bytes stored.
pub record ReadRun (r : Reader) : Type 0 where
  pub transport : r.State
  pub transport_error : Bool
  pub success : Bool
  pub left : ℕ
  pub buffer : List ℕ

-- helloTimeoutInMilliseconds and timeoutInMilliseconds of receiveLoop.
abbrev pub hello_timeout : ℕ
hello_timeout = 2000

abbrev pub receive_timeout : ℕ
receive_timeout = 1000

-- A run of readBytes that is asked for `size` bytes, into a memory that has room for `room` of them.
abbrev pub in_room {ℓ} : {A : Type ℓ} → ℕ → ℕ → Outcome A → Outcome A
in_room room size run = if ltb room size then faults else run

-- The data of a packet has room for as many bytes as getDataSize says.
pub in_room-get_data_size {ℓ} :
    {A : Type ℓ} (p : ComPacket) (run : Outcome A)
    → in_room (length p.contents) (get_data_size p) run ≡ run
unfolding get_data_size
in_room-get_data_size p run =
    let fits : ltb (length p.contents) (length p.contents) ≡ false = ground arith in rw fits refl

module _ (r : Reader) where
  -- The constructor, less the start of the receive thread.
  unfoldable pub new_demuxer : List String → r.State → Outcome (Demuxer r)
  new_demuxer names transport = do
    ids ← new_id_manager names
    done (record {
      packet_ids = ids;
      subscribers = [];
      transport = r.set_blocking transport false;
      transport_error = false;
      next_address = 1;
      delivered = [];
    })

  unfoldable pub ok : Demuxer r → Bool
  ok d = not d.transport_error

  unfoldable pub signal_transport_error : Demuxer r → Demuxer r
  signal_transport_error d = record d { transport_error = true }

  -- The loop of readBytes, behind the bytes `buffer` that it has stored. A reader that claims more
  -- than it was asked for makes `size` wrap and the loop run past the buffer.
  unfoldable pub read_bytes : ℕ → Bool → Bool → r.State → ℕ → List ℕ → Outcome (ReadRun r)
  read_bytes fuel on_zero error s zero buffer = done (record {
    transport = s;
    transport_error = error;
    success = not error;
    left = 0;
    buffer = buffer;
  })
  read_bytes zero on_zero error s (suc size) buffer =
      if error
      then done (record {
        transport = s;
        transport_error = true;
        success = false;
        left = suc size;
        buffer = buffer;
      })
      else stuck
  read_bytes (suc fuel) on_zero error s (suc size) buffer =
      let s' = (r.read s (suc size)).0 in
      let failed : Outcome (ReadRun r) = done (record {
        transport = s';
        transport_error = true;
        success = false;
        left = suc size;
        buffer = buffer;
      }) in
      let run : Outcome (ReadRun r) = elim (r.read s (suc size)).1 [
        | negsuc n ↦ failed
        | pos n ↦
            let rest =
              read_bytes fuel on_zero error s' (suc size - n) (buffer ++ (r.read s (suc size)).2) in
            if n == 0 && on_zero then failed else if ltb (suc size) n then faults else rest
      ] in
      if error
      then done (record {
        transport = s;
        transport_error = true;
        success = false;
        left = suc size;
        buffer = buffer;
      })
      else run

  -- The members that a run of readBytes changes.
  abbrev pub after_read : Demuxer r → ReadRun r → Demuxer r
  after_read d run = record d { transport = run.transport; transport_error = run.transport_error }

  -- The first byte of the packet's data; of an empty vector `data()` may not be read.
  unfoldable pub get_control_message : ComPacket → Outcome ℕ
  get_control_message p = elim p.contents [ [] ↦ faults | b ∷ bs ↦ done b ]

  unfoldable pub handle_control_message : ComPacket → Demuxer r → Demuxer r
  handle_control_message p d = d

  -- Every subscriber of the packet's type is called with it. `m_subscribers[type]` makes an entry.
  unfoldable pub dispatch : ComPacket → Demuxer r → Demuxer r
  dispatch p d =
      let queue = lookup p.type d.subscribers in
      record d {
        subscribers = insert p.type queue d.subscribers;
        delivered = d.delivered ++ map (λ (x : Subscriber). (x.address, p)) queue;
      }

  -- A new subscriber object at the end of its type's queue, and its address.
  unfoldable pub subscribe : Demuxer r → String → Outcome (Demuxer r × Subscriber)
  subscribe d name = do
    type ← to_id d.packet_ids name
    let x : Subscriber = record { address = d.next_address; type = type }
    done (
      record d {
        subscribers = insert type (lookup type d.subscribers ++ (x ∷ [])) d.subscribers;
        next_address = d.next_address + 1;
      },
      x,
    )

  -- `toString` is called for the log, before anything else.
  unfoldable pub unsubscribe : Demuxer r → Subscriber → Outcome (Demuxer r)
  unsubscribe d x = do
    logged ← to_string d.packet_ids x.type
    queue ← remove_one x.address (lookup x.type d.subscribers)
    done (record d { subscribers = insert x.type queue d.subscribers })

  unfoldable pub is_subscribed : Demuxer r → Subscriber → Bool
  is_subscribed d x = contains x.address (lookup x.type d.subscribers)

  -- warnAboutSubscribers: for each type that has live subscribers, their number and its name, as they
  -- are logged. The unordered_map is gone through in some order of its keys.
  unfoldable pub warn_about_subscribers : Demuxer r → List ℕ → Outcome (List (ℕ × String))
  warn_about_subscribers d [] = done []
  warn_about_subscribers d (k ∷ order) =
      let n = length (lookup k d.subscribers) in
      let rest = warn_about_subscribers d order in
      let warned = to_string d.packet_ids k >>= λ name. rest >>= λ more. done ((n, name) ∷ more) in
      if n == 0 then rest else warned

module _ (r : Reader) (host : Endian) where
  -- `if (!ok) return false;` behind a run of readBytes.
  abbrev pub unless_failed :
      Demuxer r
      → ReadRun r
      → Outcome (Demuxer r × Option ComPacket)
      → Outcome (Demuxer r × Option ComPacket)
  unless_failed d run k = if run.success then k else done (after_read r d run, none)

  -- The packet of the size in the header, filled from the transport. The assert is active in every
  -- build.
  unfoldable pub receive_data : ℕ → Demuxer r → ℕ → ℕ → Outcome (Demuxer r × Option ComPacket)
  receive_data fuel d type size = do
    p ← preallocated type size
    run ←
        in_room (length p.contents) (get_data_size p)
          (read_bytes r fuel false d.transport_error d.transport (get_data_size p) [])
    unless_failed d run (
        if p.type == invalid_packet
        then aborts
        else done (after_read r d run, some (record p { contents = run.buffer })))

  -- The two words of the header, each read into the four bytes of a uint32_t, and then the data.
  unfoldable pub receive_header : ℕ → Demuxer r → Outcome (Demuxer r × Option ComPacket)
  receive_header fuel d = do
    run₁ ← in_room 4 4 (read_bytes r fuel false d.transport_error d.transport 4 [])
    unless_failed d run₁ (do
      run₂ ← in_room 4 4 (read_bytes r fuel false run₁.transport_error run₁.transport 4 [])
      unless_failed d run₂ (
          receive_data fuel (after_read r d run₂) (ntohl host (load_u32 host run₁.buffer))
            (ntohl host (load_u32 host run₂.buffer))))

  -- `none` is a return of false.
  unfoldable pub receive_packet : ℕ → Demuxer r → ℕ → Outcome (Demuxer r × Option ComPacket)
  receive_packet fuel d ms =
      let waited = record d { transport = (r.ready_for_reading d.transport ms).0 } in
      if (r.ready_for_reading d.transport ms).1
      then receive_header fuel waited
      else done (waited, none)

  -- The first packet must be Hello; no packet within the time is no error.
  unfoldable pub check_hello : Demuxer r → ComPacket → Outcome (Demuxer r)
  unfolding get_control_message
  check_hello d p =
      if p.type == control_packet
      then (get_control_message r p >>= λ msg.
          done (if msg == underlying hello then d else signal_transport_error r d))
      else done (signal_transport_error r d)

  unfoldable pub receive_hello_message : ℕ → Demuxer r → ℕ → Outcome (Demuxer r)
  receive_hello_message fuel d ms = do
    (d', got) ← receive_packet fuel d ms
    elim got [ none ↦ done d' | some p ↦ check_hello d' p ]

  -- What the loop does with a packet.
  unfoldable pub handle_packet : Demuxer r → ComPacket → Demuxer r
  handle_packet d p =
      if p.type == control_packet then handle_control_message r p d else dispatch r p d

  -- The body of the `while` in receiveLoop.
  unfoldable pub receive_round : ℕ → Demuxer r → Outcome (Demuxer r)
  receive_round fuel d = do
    (d', got) ← receive_packet fuel d receive_timeout
    elim got [ none ↦ done d' | some p ↦ done (handle_packet d' p) ]

  -- The state after at most that many rounds of the `while`, which ends by a transport error alone.
  unfoldable pub receive_rounds : ℕ → ℕ → Demuxer r → Outcome (Demuxer r)
  receive_rounds zero fuel d = done d
  receive_rounds (suc n) fuel d =
      if d.transport_error then done d else (receive_round fuel d >>= receive_rounds n fuel)

  unfoldable pub receive_loop : ℕ → ℕ → Demuxer r → Outcome (Demuxer r)
  receive_loop n fuel d = do
    d' ← receive_hello_message fuel d hello_timeout
    receive_rounds n fuel d'
