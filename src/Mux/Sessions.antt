-- ===== src/Mux/Sessions.antt =====
-- common/mux/session.go: the table of the sessions over one connection.
--
-- A session is an object that others hold, too: `objects` has all sessions that were made, in the
-- order of their making, and a session stands for its place there. The table is a list of
-- numbers with these places; the nil map of a closed manager is the empty one. A method runs under
-- the manager's lock, so that it is one step. What `Session.Close` does to the streams of the
-- session and to `XUDPManager` is left out.
pub mod Invariant
pub mod Closing
use reflex_network_project.Prelude.{
  ℕ, zero, suc, ◌+◌, ◌%◌, ◌^◌, Bool, true, false, ◌&&◌, ◌||◌, not, Option, none, some, List, [],
  ◌∷◌, ◌++◌, ltb, leb, ◌==◌, if◌then◌else◌, length,
}

pub record Session : Type 0 where
  pub id : ℕ
  pub closed : Bool

pub record SessionManager : Type 0 where
  pub sessions : List (ℕ × ℕ)
  pub count : ℕ
  pub closed : Bool
  pub objects : List Session

-- `NewSessionManager`
unfoldable pub new_session_manager : SessionManager
new_session_manager = record { sessions = []; count = 0; closed = false; objects = [] }

-- `ClientStrategy`
pub record ClientStrategy : Type 0 where
  pub max_concurrency : ℕ
  pub max_connection : ℕ

-- `m.sessions[id] = s`
unfoldable pub put : ℕ → ℕ → List (ℕ × ℕ) → List (ℕ × ℕ)
put id s [] = (id, s) ∷ []
put id s ((j, t) ∷ rest) = if j == id then (id, s) ∷ rest else (j, t) ∷ put id s rest

-- `delete(m.sessions, id)`
unfoldable pub delete : ℕ → List (ℕ × ℕ) → List (ℕ × ℕ)
delete id [] = []
delete id ((j, t) ∷ rest) = let later = delete id rest in if j == id then later else (j, t) ∷ later

-- `m.sessions[id]`
unfoldable pub find : ℕ → List (ℕ × ℕ) → Option ℕ
find id [] = none
find id ((j, t) ∷ rest) = if j == id then some t else find id rest

unfoldable pub next_count : SessionManager → ℕ
next_count m = (m.count + 1) % 2 ^ 16

abbrev pub is_full : ClientStrategy → SessionManager → Bool
is_full strategy m =
    (ltb 0 strategy.max_concurrency && leb strategy.max_concurrency (length m.sessions))
    || (ltb 0 (strategy.max_connection % 2 ^ 16) && leb (strategy.max_connection % 2 ^ 16) m.count)

-- `Allocate`
unfoldable pub allocate : ClientStrategy → SessionManager → SessionManager × Option ℕ
unfolding next_count
allocate strategy m = if m.closed || is_full strategy m then (m, none) else (
  record m {
    count = next_count m;
    sessions = put (next_count m) (length m.objects) m.sessions;
    objects = m.objects ++ (record { id = next_count m; closed = false } ∷ []);
  },
  some (length m.objects),
)

-- `Add` of a new session with the number that the peer has given it.
unfoldable pub add : ℕ → SessionManager → SessionManager × Bool
unfolding next_count
add id m = if m.closed then (m, false) else (
  record m {
    count = next_count m;
    sessions = put id (length m.objects) m.sessions;
    objects = m.objects ++ (record { id = id; closed = false } ∷ []);
  },
  true,
)

-- `Remove`
unfoldable pub remove : ℕ → SessionManager → SessionManager
remove id m = if m.closed then m else record m { sessions = delete id m.sessions }

-- `Get`
unfoldable pub get : ℕ → SessionManager → Option ℕ
get id m = if m.closed then none else find id m.sessions

-- `Size`
unfoldable pub size : SessionManager → ℕ
size m = length m.sessions

-- `CloseIfNoSessionAndIdle`
unfoldable pub close_if_no_session_and_idle : ℕ → ℕ → SessionManager → SessionManager × Bool
close_if_no_session_and_idle check_size check_count m =
    if m.closed
    then (m, true)
    else if not (length m.sessions == 0) || not (check_size == 0) || not (check_count == m.count)
    then (m, false)
    else (record m { closed = true; sessions = [] }, true)

unfoldable pub object : ℕ → List Session → Option Session
object s [] = none
object zero (o ∷ os) = some o
object (suc s) (o ∷ os) = object s os

-- `s.closed = true`
unfoldable pub mark_closed : ℕ → List Session → List Session
mark_closed s [] = []
mark_closed zero (o ∷ os) = record o { closed = true } ∷ os
mark_closed (suc s) (o ∷ os) = o ∷ mark_closed s os

-- `Session.Close` of the session at a place.
unfoldable pub close_object : ℕ → Option Session → SessionManager → SessionManager
close_object s none m = m
close_object s (some o) m =
    if o.closed then m else remove o.id (record m { objects = mark_closed s m.objects })

unfoldable pub close_session : ℕ → SessionManager → SessionManager
close_session s m = close_object s (object s m.objects) m

-- The loop of `Close` over the table, in any order.
unfoldable pub close_each : List (ℕ × ℕ) → SessionManager → SessionManager
close_each [] m = m
close_each ((id, s) ∷ sessions) m = close_each sessions (close_session s m)

-- `SessionManager.Close`
unfoldable pub close : SessionManager → SessionManager
close m =
    if m.closed
    then m
    else record (close_each m.sessions (record m { closed = true })) { sessions = [] }
