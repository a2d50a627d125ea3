-- ===== src/RtlTcp/Tests.antt =====
-- The theorem on the parser of src/rtl_tcp.c at two commands.
use flex1500d.Base.{◌≡◌, List, [], ◌∷◌, arith}
use flex1500d.RtlTcp.{RtlTcpCommand}
use flex1500d.RtlTcp.Feed.{empty, feed, send, AreWords, feed-send}

-- Set the frequency to 7.2 MHz, then the sample rate to 240000.
abbrev two_commands : List RtlTcpCommand
two_commands = record { id = 1; parameter = 7200000 } ∷ record { id = 2; parameter = 240000 } ∷ []

two_commands-AreWords : AreWords two_commands
unfolding AreWords
two_commands-AreWords = (omega arith, (omega arith, tt))

two_commands_read : feed empty (send two_commands) ≡ (two_commands, empty)
two_commands_read = feed-send two_commands two_commands-AreWords
