-- ===== src/VectorStream.antt =====
-- src/VectorStream.h: stream buffers over a vector of bytes. The base class std::streambuf hands a
-- single character to `overflow` and a run of characters to `xsputn`, and reads from the get area.
pub mod RoundTrip
use packetcomms.Base.{
  ℕ, zero, suc, ◌+◌, List, [], ◌∷◌, ◌++◌, length, take, drop, replicate, Option, none, some,
}

-- VectorOutputStream: m_v.
pub record OutputStream : Type 0 where
  pub written : List ℕ

unfoldable pub new_output : OutputStream
new_output = record { written = [] }

-- VectorOutputStream(reserve): `m_v(reserve)` makes a vector of that many zeros.
unfoldable pub new_output_reserving : ℕ → OutputStream
new_output_reserving n = record { written = replicate n 0 }

-- get() and clear().
unfoldable pub get : OutputStream → List ℕ
get o = o.written

unfoldable pub clear : OutputStream → OutputStream
clear o = record { written = [] }

-- The move constructor: the new stream, and what is left in the old one.
unfoldable pub move_construct : OutputStream → OutputStream × OutputStream
move_construct o = (record { written = o.written }, record { written = [] })

-- streambuf's int_type: a character, or eof.
pub data IntType : Type 0 where
  eof : IntType
  char : ℕ → IntType

unfoldable pub overflow : OutputStream → IntType → OutputStream × IntType
overflow o eof = (o, eof)
overflow o (char c) = (record { written = o.written ++ (c ∷ []) }, char c)

-- The bytes, and the number returned.
unfoldable pub xsputn : OutputStream → List ℕ → OutputStream × ℕ
xsputn o bytes = (record { written = o.written ++ bytes }, length bytes)

-- VectorInputStream: the get area from its next character to its end.
pub record InputStream : Type 0 where
  pub unread : List ℕ

unfoldable pub new_input : List ℕ → InputStream
new_input v = record { unread = v }

-- overflow of the input stream: it takes no output.
unfoldable pub input_overflow : InputStream → IntType → InputStream × IntType
input_overflow i c = (i, eof)

-- std::streambuf::sgetn over the get area, which is never refilled.
unfoldable pub sgetn : InputStream → ℕ → InputStream × List ℕ
sgetn i n = (record { unread = drop n i.unread }, take n i.unread)

-- What a writer of a stream does: single characters and runs.
pub data Output : Type 0 where
  one : ℕ → Output
  run : List ℕ → Output

unfoldable pub bytes_of : Output → List ℕ
bytes_of (one c) = c ∷ []
bytes_of (run bytes) = bytes

unfoldable pub output : OutputStream → List Output → OutputStream
unfolding overflow xsputn
output o [] = o
output o (one c ∷ rest) = output (overflow o (char c)).0 rest
output o (run bytes ∷ rest) = output (xsputn o bytes).0 rest

-- Reads of the given lengths.
unfoldable pub input : InputStream → List ℕ → List (List ℕ)
unfolding sgetn
input i [] = []
input i (n ∷ rest) = (sgetn i n).1 ∷ input (sgetn i n).0 rest
