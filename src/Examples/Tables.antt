-- ===== src/Examples/Tables.antt =====
-- Runs of the session table of common/mux.
use reflex_network_project.Prelude.{
  ◌≡◌, subst, refl, true, false, none, some, List, [], ◌∷◌, arith, All,
}
use reflex_network_project.Mux.Sessions.{
  SessionManager, ClientStrategy, new_session_manager, allocate, add, get, put, delete, remove,
  object, mark_closed, close_object, close_session, close,
}
use reflex_network_project.Mux.Sessions.Invariant.{
  Call, allocate_next, close_at, step, run, Valid, open_session, run-Valid,
}
use reflex_network_project.Mux.Sessions.Closing.{IsShut, close_lem, close_session-add}

abbrev strategy : ClientStrategy
strategy = record { max_concurrency = 2; max_connection = 3 }

abbrev calls : List Call
calls =
    allocate_next ∷ allocate_next ∷ allocate_next ∷ close_at 0 ∷ allocate_next ∷ allocate_next ∷ []

run-Valid_example : Valid strategy (run strategy calls new_session_manager)
run-Valid_example = run-Valid strategy calls (omega arith) (omega arith)

-- The third session waits for a place, and the fourth is one too many for the connection.
abbrev two_open : SessionManager
two_open = record {
  sessions = (2, 1) ∷ (3, 2) ∷ [];
  count = 3;
  closed = false;
  objects = record { id = 1; closed = true } ∷ open_session 2 ∷ open_session 3 ∷ [];
}

runs_calls : run strategy calls new_session_manager ≡ two_open
unfolding run step allocate close_session close_object remove put delete object mark_closed
    new_session_manager
runs_calls = refl

two_open-Valid : Valid strategy two_open
two_open-Valid =
    subst (Valid strategy) runs_calls (run-Valid strategy calls (omega arith) (omega arith))

close_lem_example :
    All (IsShut (close two_open).objects) ((2, 1) ∷ (3, 2) ∷ [])
    × (get 2 (close two_open) ≡ none)
    × ((allocate strategy (close two_open)).1 ≡ none)
    × ((add 2 (close two_open)).1 ≡ false)
close_lem_example = close_lem strategy 2 2 two_open two_open-Valid

close_session-add_example :
    (get 2 (add 2 two_open).0 ≡ some 3)
    × (get 2 (close_session 1 (add 2 two_open).0) ≡ none)
    × (object 3 (close_session 1 (add 2 two_open).0).objects ≡ some (open_session 2))
unfolding object
close_session-add_example = close_session-add 2 1 two_open refl refl
