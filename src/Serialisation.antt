-- ===== src/Serialisation.antt =====
-- src/Serialisation.h and src/PacketSerialisation.h: values through the archives of the cereal library
-- into and out of packets. What cereal does with one value of a type is a parameter.
pub mod RoundTrip
pub mod Typed
use packetcomms.Base.{ℕ, ◌≡◌, ℤ, String, List, [], ◌∷◌, ◌++◌, map, Outcome, done, ◌>>=◌}
use packetcomms.ComPacket.{ComPacket}
use packetcomms.VectorStream.{
  OutputStream, new_output, get, InputStream, new_input, Output, bytes_of, output,
}
use packetcomms.VectorStream.RoundTrip.{concat}
use packetcomms.Transport.{Writer}
use packetcomms.Muxer.{Muxer, emplace_packet}

-- How cereal's binary archives treat the values of a type: the writes that a BinaryOutputArchive makes
-- to its stream, and the value that a BinaryInputArchive reads off its own. At the end of its stream
-- the latter throws.
pub record Cereal (A : Type 0) : Type 0 where
  pub save : A → List Output
  pub load : InputStream → Outcome (InputStream × A)

-- cereal's promise for the values of the machine type: what was saved is loaded again, and what stands
-- behind it is left in the stream.
pub record CerealLaws {A : Type 0} (c : Cereal A) (IsValid : A → Type 0) : Type 0 where
  pub restores :
      (x : A) (rest : List ℕ)
      → IsValid x
      → c.load (new_input (concat (map bytes_of (c.save x)) ++ rest)) ≡ done (new_input rest, x)

-- The types of a parameter pack `Args...`, each with its archives, and the arguments of those types.
pub data Args : Type 1 where
  nothing : Args
  more : {A : Type 0} → Cereal A → Args → Args

abbrev pub Values : Args → Type 0
Values nothing = Unit {0}
Values (more {A = A} c args) = A × Values args

-- `archive(types...)`: the arguments from left to right.
unfoldable pub save_all : (args : Args) → Values args → List Output
save_all nothing vs = []
save_all (more c args) vs = c.save vs.0 ++ save_all args vs.1

unfoldable pub load_all : (args : Args) → InputStream → Outcome (InputStream × Values args)
load_all nothing i = done (i, tt)
load_all (more c args) i =
    c.load i >>= λ first. load_all args first.0 >>= λ rest. done (rest.0, (first.1, rest.1))

-- serialise(std::streambuf&, ...) and deserialise(std::streambuf&, ...).
unfoldable pub serialise : (args : Args) → Values args → OutputStream → OutputStream
unfolding save_all
serialise args vs stream = output stream (save_all args vs)

unfoldable pub deserialise : (args : Args) → InputStream → Outcome (InputStream × Values args)
unfolding load_all
deserialise args stream = load_all args stream

-- serialise(PacketMuxer&, ...): a stream of its own, whose vector goes into a packet.
unfoldable pub serialise_packet :
    (w : Writer) (args : Args) → Muxer w → String → Values args → Outcome (Muxer w)
serialise_packet w args muxer id vs = emplace_packet w muxer id (get (serialise args vs new_output))

-- deserialise(const ComPacket::ConstSharedPacket&, ...).
unfoldable pub deserialise_packet : (args : Args) → ComPacket → Outcome (Values args)
deserialise_packet args packet = deserialise args (new_input packet.contents) >>= λ run. done run.1

-- struct timespec, where time_t and long have 64 bits, so that no assignment changes a value.
pub record TimeSpec : Type 0 where
  pub sec : ℤ
  pub nsec : ℤ

-- save and load for a timespec, which cereal calls for one: two int64_t by their own archives.
unfoldable pub save_timespec : Cereal ℤ → TimeSpec → List Output
save_timespec int64 t = save_all (more int64 (more int64 nothing)) (t.sec, (t.nsec, tt))

unfoldable pub load_timespec : Cereal ℤ → InputStream → Outcome (InputStream × TimeSpec)
load_timespec int64 i = load_all (more int64 (more int64 nothing)) i >>= λ run.
    done (run.0, record { sec = (run.1).0; nsec = ((run.1).1).0 })

abbrev pub timespec : Cereal ℤ → Cereal TimeSpec
timespec int64 = record { save = save_timespec int64; load = load_timespec int64 }
