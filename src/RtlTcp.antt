-- ===== src/RtlTcp.antt =====
-- The command parser of src/rtl_tcp.c, which is fed one byte at a time.
pub mod Feed
mod Tests
use mathlib.Core.Option.{Option, some, none}
use flex1500d.Base.{ℕ, ◌+◌, ◌*◌, List, [], ◌∷◌, ◌++◌, if◌then◌else◌, not, ◌==◌}
use flex1500d.Base.Lists.{length, get_or}

abbrev pub command_size : ℕ
command_size = 5

pub record RtlTcpCommand : Type 0 where
  pub id : ℕ
  pub parameter : ℕ

-- The first `pending_length` bytes of the buffer.
pub record RtlTcpParser : Type 0 where
  pub pending : List ℕ

-- The word from byte `at` on.
unfoldable pub load_be32 : List ℕ → ℕ → ℕ
load_be32 input at =
    get_or input at 0 * 16777216
    + get_or input (at + 1) 0 * 65536
    + get_or input (at + 2) 0 * 256
    + get_or input (at + 3) 0

unfoldable pub parse_byte : RtlTcpParser → ℕ → Option RtlTcpCommand × RtlTcpParser
parse_byte parser byte =
    let pending = parser.pending ++ (byte ∷ []) in
    if not (length pending == command_size) then (none, record { pending = pending }) else (
      some record { id = get_or pending 0 0; parameter = load_be32 pending 1 },
      record { pending = [] },
    )
