-- ===== src/Lib.antt =====
-- packetcomms sends typed packets over a byte stream. A PacketMuxer takes packets that any thread
-- posts, keeps them in a queue for each type, and has a thread that writes them as frames to its
-- transport. A PacketDemuxer at the other end has a thread that reads the frames, and calls the
-- subscribers of each packet's type. The first frame is meant to be the control message Hello.
--
-- Base: library names and the shared types. Outcome is the result of code that can fail: `done`,
--   a failed assert (`aborts`), an exception (`throws`), undefined behaviour (`faults`), or a
--   loop that is not over when its fuel is (`stuck`). The assert of the sources is active in
--   every build.
-- Wire: the header words (htonl, ntohl and the memory of a uint32_t). Wire/ByteOrder has the
--   laws.
-- Frame: the frame of a packet, after the comment of sendPacket in src/PacketMuxer.cpp.
-- IdManager: src/IdManager.h; IdManager/Numbering, Acceptance and Decision are about it.
-- ComPacket, ControlMessage: src/ComPacket.h and src/ControlMessage.h.
-- Transport: src/network/AbstractSocket.h. Writer and Reader are the two interfaces. WriterLaws
--   and ReaderLaws say what a stream transport does, without fixing how much a call accepts or
--   brings; `patience` bounds the calls that get nothing done. Transport/Script has instances of
--   both.
-- TxQueues: m_txQueues of src/PacketMuxer.h. An iteration takes its order as an argument, since
--   std::unordered_map fixes none.
-- Muxer: src/PacketMuxer.h and src/PacketMuxer.cpp. new_muxer, emplace_packet, write_bytes,
--   send_packet and send_all are the methods of those names, send_pass is the `for` of sendLoop,
--   shut_down is the destructor's part under the lock. Muxer/Write, Send, Sent, Keeps and Pass
--   are about them. Muxer/Thread has sendLoop with the lock and the condition variable as a step
--   relation, in which posting threads, the constructor and the destructor interleave with the
--   send thread; Muxer/Thread/Fifo follows the packets of each type through it, and
--   Muxer/Thread/Progress is about its wake-up. Muxer/Lifetime puts the constructor's setBlocking,
--   the destructor and its join in their order around that relation.
-- Subscribers, Demuxer: src/PacketDemuxer.h, src/PacketDemuxer.cpp and src/PacketSubscriber.h.
--   subscribe, unsubscribe, is_subscribed, read_bytes, receive_packet, receive_hello_message and
--   receive_loop are the methods of those names. A call of a callback is recorded in `delivered`.
--   Demuxer/Bounds is about the memory they fill, whose room in_room states, Demuxer/Stream about
--   what they take from a stream whenever they return. Demuxer/Interruption has receivePacket while
--   another thread sets the flag, by the number of tests of the flag before that. Demuxer/Thread
--   has receiveLoop with m_subscriberLock as a step relation: threads that subscribe and
--   unsubscribe and the destructor interleave with the receive thread, which calls the callbacks
--   one by one with the lock. Its children follow the registrations (Registrations, Names), the
--   calls of one object (Handed, Once, Fresh), the packets that arrive (Arrivals), the loop on its
--   own (Simulation) and the end of the thread (Shutdown). Demuxer/Lifetime puts the constructor's
--   setBlocking, the destructor, its warnings and its join in their order around that relation.
-- PacketSubscription: src/PacketSubscription.h, src/PacketSubscription.cpp and
--   src/PacketSubscriber.cpp.
-- SimpleQueue: src/SimpleQueue.h, as a step relation of any number of threads.
-- VectorStream: src/VectorStream.h.
-- Serialisation: src/Serialisation.h and src/PacketSerialisation.h, for any list of argument
--   types. What an archive of the cereal library does with a value of a type is a parameter
--   (Cereal), and that it loads what it saved a hypothesis (CerealLaws). Serialisation/Typed goes
--   from a value at one end of a connection to the callback at the other.
-- Sync: src/Sync.cpp, as a step relation of its two ends. Sync/Messages has its messages.
-- Network: src/network, over a parameter for the system calls (Network/Posix).
--   Network/Socket/Stream and Network/Socket/Receives have a Socket as the transport of a muxer
--   and of a demuxer, where the system's calls do what their manual pages say of a stream, and
--   Network/Socket/Memory for any peer. Network/Descriptors follows the descriptors of all socket
--   objects of a process from their constructors to their destructors, with the implicit copies.
-- Delivery: the two halves at the ends of one connection: one pass and one loop, and in
--   Delivery/Threads the threads of both ends through every interleaving; Delivery/Since is the
--   same for a client that subscribes at any time.
-- Examples: concrete runs.
--
-- Bounds: a uint32_t is a natural number with its wrap-around written out; the counters of posted
-- and sent packets wrap at 2^32. A size_t is a natural number, since no size here comes near
-- 2^64. A buffer is the list of its bytes. A loop over `read` or `write` takes fuel for its
-- calls. Each call moves a byte or uses up patience, so that the number of bytes and the patience
-- are enough; the theorems ask for that much and show that the loop returns. The loop of
-- receive_rounds takes a number of rounds. GetHostNameInfo retries five times at most.
--
-- Not modelled: the cereal library; the WIN32 branches and src/network/WinsockInit.h; what is
-- written to the log, but for the numbers and names of warnAboutSubscribers; a thread that uses
-- an object after its destructor has returned; a Socket that is neither a TcpSocket nor a
-- UdpSocket and so has no descriptor; a callback that itself subscribes or unsubscribes, which
-- waits for the lock for ever, or that destroys its demuxer, whose thread then joins itself; the
-- tests.
pub mod Base
pub mod Wire
pub mod IdManager
pub mod ComPacket
pub mod Transport
pub mod ControlMessage
pub mod TxQueues
pub mod Muxer
pub mod Frame
pub mod Subscribers
pub mod Demuxer
pub mod PacketSubscription
pub mod SimpleQueue
pub mod VectorStream
pub mod Serialisation
pub mod Sync
pub mod Network
pub mod Delivery
mod Examples
