-- ===== src/Kcp/Connection/Races.antt =====
-- transport/internet/kcp/connection.go: `Close` at the same time as `Input`.
use reflex_network_project.Prelude.{ℕ, ◌≡◌, [], ◌∷◌}
use reflex_network_project.Kcp.Segment.{CmdOnlySegment, cmd_only_segment}
use reflex_network_project.Kcp.Connection.{Around, Connection, input}

-- No other goroutine comes between.
abbrev pub alone : ℕ → ℕ → Around
alone now n = record { before = λ c. c; between = λ c. c; storing = λ k c. c; clock = now }

-- Input of the segments comes between the reading and the writing of the state.
abbrev pub during : ℕ → ℕ → CmdOnlySegment → Around
during clock now s = record {
  before = λ c. c;
  between = λ c. input (alone now) now (cmd_only_segment s ∷ []) c;
  storing = λ k c. c;
  clock = clock;
}

-- Nothing comes between the accesses of `SetState`.
abbrev Settles : Around → Type 0
Settles a = a.storing ≡ λ k c. c
