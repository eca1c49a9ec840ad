-- ===== src/Kcp/Uint32.antt =====
-- Go's arithmetic on `uint32`, which wraps around.
use reflex_network_project.Prelude.{ℕ, ◌+◌, ◌-◌, ◌%◌, ◌^◌}

abbrev pub add : ℕ → ℕ → ℕ
add a b = (a + b) % 2 ^ 32

-- For `a` and `b` below `2 ^ 32`.
abbrev pub sub : ℕ → ℕ → ℕ
sub a b = (a + 2 ^ 32 - b) % 2 ^ 32
