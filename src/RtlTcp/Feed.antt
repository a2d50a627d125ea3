-- ===== src/RtlTcp/Feed.antt =====
-- The parser of src/rtl_tcp.c reads every sequence of commands back.
use mathlib.Core.Option.{Option, some, none}
use flex1500d.Base.{ℕ, ◌+◌, ◌*◌, ◌/◌, ◌%◌, ◌<◌, ◌≡◌, refl, List, [], ◌∷◌, arith}
use flex1500d.RtlTcp.{RtlTcpCommand, RtlTcpParser, parse_byte, load_be32}

abbrev pub empty : RtlTcpParser
empty = record { pending = [] }

-- A command in front of others, where the parser gave one.
unfoldable pub keep : Option RtlTcpCommand → List RtlTcpCommand → List RtlTcpCommand
keep none commands = commands
keep (some c) commands = c ∷ commands

-- The commands of a stream of bytes, and the parser behind it.
unfoldable pub feed : RtlTcpParser → List ℕ → List RtlTcpCommand × RtlTcpParser
feed parser [] = ([], parser)
feed parser (byte ∷ bytes) =
    let (command, parser') = parse_byte parser byte in
    let (commands, last) = feed parser' bytes in (keep command commands, last)

-- The five bytes of a command, big-endian, before the bytes of the others.
unfoldable pub send : List RtlTcpCommand → List ℕ
send [] = []
send (c ∷ commands) =
    c.id
    ∷ c.parameter / 16777216 % 256
    ∷ c.parameter / 65536 % 256
    ∷ c.parameter / 256 % 256
    ∷ c.parameter % 256
    ∷ send commands

unfoldable pub AreWords : List RtlTcpCommand → Type 0
AreWords [] = Unit
AreWords (c ∷ commands) = c.parameter < 4294967296 × AreWords commands

bytes_of :
    (v : ℕ)
    → v < 4294967296
    → v / 16777216 % 256 * 16777216 + v / 65536 % 256 * 65536 + v / 256 % 256 * 256 + v % 256 ≡ v
bytes_of v h = omega arith

-- The bytes of any commands with 32-bit parameters, sent one after another, are read back as these
-- commands, and no byte is left pending.
pub feed-send :
    (commands : List RtlTcpCommand)
    → AreWords commands
    → feed empty (send commands) ≡ (commands, empty)
unfolding feed send keep parse_byte load_be32 AreWords
feed-send [] h = refl
feed-send (c ∷ commands) h = rw (feed-send commands h.1, bytes_of c.parameter h.0) refl
