-- ===== src/Inbound/Fallback.antt =====
-- proxy/reflex/inbound/inbound.go: `handleFallback` up to the start of its two copying goroutines.
--
-- The copies themselves run in goroutines of the runtime and are not modelled, nor is what becomes of
-- the two connections when the handler returns.
use reflex_network_project.Prelude.{ℕ, true, Option, none, some, List}
use reflex_network_project.Io.{Error}
use reflex_network_project.Inbound.Server.{Conn}

-- What `io.Copy(target, wrapped)` and `io.Copy(wrapped, target)` begin with: the bytes that the client
-- still sends, the peeked ones in front, and those of the target's answer.
pub record Relay : Type 0 where
  pub up_left : List ℕ
  pub down_left : List ℕ

-- `handleFallback` up to the goroutines: no fallback and a failed dial close the connection, and
-- otherwise the copies start. `dial` gives the target's answer, or the error of `Dial`, by the port.
pub data Fallback : Type 0 where
  ended : Conn → Error → Fallback
  copying : Relay → Fallback

unfoldable pub handle_fallback : (ℕ → Option (List ℕ)) → Option ℕ → Conn → Fallback
handle_fallback dial none c = ended (record c { is_closed = true }) Error.no_fallback
handle_fallback dial (some port) c = elim (dial port) [
  | none ↦ ended (record c { is_closed = true }) (Error.failure 2)
  | some answer ↦ copying (record { up_left = c.input.pending; down_left = answer })
]
