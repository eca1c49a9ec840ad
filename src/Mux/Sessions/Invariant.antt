-- ===== src/Mux/Sessions/Invariant.antt =====
-- The table of a client: the numbers rise, and each entry is the open session of its number.
use reflex_network_project.Prelude.{
  ℕ, zero, suc, ◌+◌, ◌%◌, ◌^◌, ◌≤◌, ◌<◌, ◌≡◌, ◌≢◌, ◌∙◌, sym, ap, refl, true, false, not, ◌||◌, ◌⊎◌,
  some, List, [], ◌∷◌, ◌++◌, arith, ◌==◌, length, Bool-cases, Option-cases, inl, inr,
}
use reflex_network_project.Mux.Sessions.{
  Session, SessionManager, new_session_manager, ClientStrategy, is_full, put, delete, find,
  next_count, allocate, remove, close_if_no_session_and_idle, object, mark_closed, close_object,
  close_session, close_each, close,
}

abbrev pub open_session : ℕ → Session
open_session id = record { id = id; closed = false }

-- Numbers above `low` and up to `high`, rising, each with its open session.
abbrev pub Table : ℕ → ℕ → List Session → List (ℕ × ℕ) → Type 0
Table low high os [] = Unit
Table low high os ((id, s) ∷ sessions) =
    (low < id) × (id ≤ high) × (object s os ≡ some (open_session id)) × Table id high os sessions

pub object-append :
    (s : ℕ) (os : List Session) (o new : Session)
    → object s os ≡ some o
    → object s (os ++ (new ∷ [])) ≡ some o
unfolding object
object-append s [] o new h = cc h
object-append zero (x ∷ os) o new h = h
object-append (suc s) (x ∷ os) o new h = object-append s os o new h

pub object-last :
    (os : List Session) (new : Session) → object (length os) (os ++ (new ∷ [])) ≡ some new
unfolding object
object-last [] new = refl
object-last (x ∷ os) new = object-last os new

pub object-mark_closed :
    (s : ℕ) (os : List Session) (o : Session)
    → object s os ≡ some o
    → object s (mark_closed s os) ≡ some (record o { closed = true })
unfolding object mark_closed
object-mark_closed s [] o h = cc h
object-mark_closed zero (x ∷ os) o h = ground (arith, h)
object-mark_closed (suc s) (x ∷ os) o h = object-mark_closed s os o h

pub object-mark_closed_ne :
    (t s : ℕ) (os : List Session) → t ≢ s → object t (mark_closed s os) ≡ object t os
unfolding object mark_closed
object-mark_closed_ne t s [] h = refl
object-mark_closed_ne zero zero (x ∷ os) h = absurd (h refl)
object-mark_closed_ne zero (suc s) (x ∷ os) h = refl
object-mark_closed_ne (suc t) zero (x ∷ os) h = refl
object-mark_closed_ne (suc t) (suc s) (x ∷ os) h = object-mark_closed_ne t s os (λ e. h (ap suc e))

Table-low :
    (low low' high : ℕ) (os : List Session) (l : List (ℕ × ℕ))
    → low ≤ low'
    → Table low' high os l
    → Table low high os l
Table-low low low' high os [] h t = tt
Table-low low low' high os ((id, s) ∷ l) h (a, b, c, d) = (omega arith, b, c, d)

Table-put :
    (low high : ℕ) (os : List Session) (l : List (ℕ × ℕ))
    → low ≤ high
    → Table low high os l
    → Table low (high + 1) (os ++ (open_session (high + 1) ∷ [])) (put (high + 1) (length os) l)
unfolding put
Table-put low high os [] h t =
    (omega arith, omega arith, object-last os (open_session (high + 1)), tt)
Table-put low high os ((id, s) ∷ l) h (a, b, c, d) = elim (Bool-cases (id == high + 1)) [
  | inl e ↦ absurd (ground (arith, e))
  | inr n ↦ rw n (
    omega arith,
    omega arith,
    object-append s os (open_session id) (open_session (high + 1)) c,
    Table-put id high os l b d,
  )
]

length-put : (id s : ℕ) (l : List (ℕ × ℕ)) → length (put id s l) ≤ length l + 1
unfolding put
length-put id s [] = omega arith
length-put id s ((j, t) ∷ l) = ground (arith, length-put id s l)

length-delete : (id : ℕ) (l : List (ℕ × ℕ)) → length (delete id l) ≤ length l
unfolding delete
length-delete id [] = omega arith
length-delete id ((j, t) ∷ l) = ground (arith, length-delete id l)

-- To close a session takes its own entry out of the table, and no other.
Table-delete :
    (s low high : ℕ) (o : Session) (os : List Session) (l : List (ℕ × ℕ))
    → object s os ≡ some o
    → Table low high os l
    → Table low high (mark_closed s os) (delete o.id l)
unfolding delete
Table-delete s low high o os [] h t = tt
Table-delete s low high o os ((id, t) ∷ l) h (a, b, c, d) =
    let rest = Table-delete s id high o os l h d in
    elim (Bool-cases (id == o.id)) [
      | inl e ↦ simp e (Table-low low id high (mark_closed s os) (delete o.id l) (omega arith) rest)
      | inr n ↦
          let other : t ≢ s = λ (same : t ≡ s).
            let e : some o ≡ some (open_session id) =
              sym h ∙ ap (λ k. object k os) (sym same) ∙ c in
            ground (arith, e, n) in
          simp n (a, b, object-mark_closed_ne t s os other ∙ c, rest)
    ]

-- What `Get` finds is the open session of the number.
pub find-Table :
    (id s low high : ℕ) (os : List Session) (l : List (ℕ × ℕ))
    → Table low high os l
    → find id l ≡ some s
    → object s os ≡ some (open_session id)
unfolding find
find-Table id s low high os [] t h = cc h
find-Table id s low high os ((j, r) ∷ l) (a, b, c, d) h = elim (Bool-cases (j == id)) [
  | inl e ↦ ground (arith, e, c, h)
  | inr n ↦ find-Table id s j high os l d (ground (arith, n, h))
]

-- What a client does with its table.
pub data Call : Type 0 where
  allocate_next : Call
  close_at : ℕ → Call
  close_if_idle : ℕ → ℕ → Call
  close_all : Call

unfoldable pub step : ClientStrategy → Call → SessionManager → SessionManager
step strategy allocate_next m = (allocate strategy m).0
step strategy (close_at s) m = close_session s m
step strategy (close_if_idle check_size check_count) m =
    (close_if_no_session_and_idle check_size check_count m).0
step strategy close_all m = close m

unfoldable pub run : ClientStrategy → List Call → SessionManager → SessionManager
run strategy [] m = m
run strategy (c ∷ calls) m = run strategy calls (step strategy c m)

-- The table, the two limits of the strategy, and that a closed manager has no table.
pub record Valid (strategy : ClientStrategy) (m : SessionManager) : Type 0 where
  pub table : Table 0 m.count m.objects m.sessions
  pub concurrency : length m.sessions ≤ strategy.max_concurrency
  pub connection : m.count ≤ strategy.max_connection % 2 ^ 16
  pub settled : (m.closed ≡ false) ⊎ (m.sessions ≡ [])

allocate-Valid :
    (strategy : ClientStrategy) (m : SessionManager)
    → 0 < strategy.max_concurrency
    → 0 < strategy.max_connection % 2 ^ 16
    → Valid strategy m
    → Valid strategy (allocate strategy m).0
unfolding allocate next_count
allocate-Valid strategy m p q v = elim (Bool-cases (m.closed || is_full strategy m)) [
  | inl e ↦ simp e v
  | inr e ↦
      let below : m.count < strategy.max_connection % 2 ^ 16 = ground (arith, e) in
      let room : length m.sessions < strategy.max_concurrency = ground (arith, e) in
      let next : (m.count + 1) % 2 ^ 16 ≡ m.count + 1 = omega arith in
      simp (e, next)
        (record {
          table = Table-put 0 m.count m.objects m.sessions (omega arith) v.table;
          concurrency = omega (arith, length-put (m.count + 1) (length m.objects) m.sessions);
          connection = omega arith;
          settled = inl (ground (arith, e));
        })
]

remove-Valid :
    (strategy : ClientStrategy) (s : ℕ) (o : Session) (m : SessionManager)
    → object s m.objects ≡ some o
    → Valid strategy m
    → Valid strategy (remove o.id (record m { objects = mark_closed s m.objects }))
unfolding remove
remove-Valid strategy s o m h v = elim (Bool-cases m.closed) [
  | inl e ↦
      let gone : m.sessions ≡ [] = elim v.settled [ inl live ↦ cc | inr none_left ↦ none_left ] in
      simp e (record {
        table = simp gone tt;
        concurrency = v.concurrency;
        connection = v.connection;
        settled = inr gone;
      })
  | inr e ↦ simp e (record {
    table = Table-delete s 0 m.count o m.objects m.sessions h v.table;
    concurrency = omega (arith, length-delete o.id m.sessions, v.concurrency);
    connection = v.connection;
    settled = inl refl;
  })
]

close_session-Valid :
    (strategy : ClientStrategy) (s : ℕ) (m : SessionManager)
    → Valid strategy m
    → Valid strategy (close_session s m)
unfolding close_session close_object
close_session-Valid strategy s m v = elim (Option-cases (object s m.objects)) [
  | inl e ↦ rw (e, close_session, close_object) v
  | inr (o, e) ↦ elim (Bool-cases o.closed) [
    | inl shut ↦ rw (e, close_session, close_object) (simp shut v)
    | inr live ↦ rw (e, close_session, close_object) (simp live (remove-Valid strategy s o m e v))
  ]
]

close_session-keeps :
    (s : ℕ) (m : SessionManager)
    → ((close_session s m).count ≡ m.count) × ((close_session s m).closed ≡ m.closed)
unfolding close_session close_object remove
close_session-keeps s m = (ground arith, ground arith)

pub close_each-keeps :
    (l : List (ℕ × ℕ)) (m : SessionManager)
    → ((close_each l m).count ≡ m.count) × ((close_each l m).closed ≡ m.closed)
unfolding close_each
close_each-keeps [] m = (refl, refl)
close_each-keeps ((id, s) ∷ l) m =
    let (count, closed) = close_each-keeps l (close_session s m) in
    let (count', closed') = close_session-keeps s m in (count ∙ count', closed ∙ closed')

close-Valid :
    (strategy : ClientStrategy) (m : SessionManager) → Valid strategy m → Valid strategy (close m)
unfolding close
close-Valid strategy m v = elim (Bool-cases m.closed) [
  | inl e ↦ simp e v
  | inr e ↦
      let count = (close_each-keeps m.sessions (record m { closed = true })).0 in
      simp e (record {
        table = tt;
        concurrency = omega arith;
        connection = omega (arith, count, v.connection);
        settled = inr refl;
      })
]

idle-Valid :
    (strategy : ClientStrategy) (check_size check_count : ℕ) (m : SessionManager)
    → Valid strategy m
    → Valid strategy (close_if_no_session_and_idle check_size check_count m).0
unfolding close_if_no_session_and_idle
idle-Valid strategy check_size check_count m v = elim (Bool-cases m.closed) [
  | inl e ↦ simp e v
  | inr e ↦
      elim (Bool-cases
        (not (length m.sessions == 0) || not (check_size == 0) || not (check_count == m.count))) [
          | inl busy ↦ simp (e, busy) v
          | inr idle ↦
              simp (e, idle)
                (record {
                  table = tt;
                  concurrency = omega arith;
                  connection = v.connection;
                  settled = inr refl;
                })
        ]
]

step-Valid :
    (strategy : ClientStrategy) (c : Call) (m : SessionManager)
    → 0 < strategy.max_concurrency
    → 0 < strategy.max_connection % 2 ^ 16
    → Valid strategy m
    → Valid strategy (step strategy c m)
unfolding step
step-Valid strategy allocate_next m p q v = allocate-Valid strategy m p q v
step-Valid strategy (close_at s) m p q v = close_session-Valid strategy s m v
step-Valid strategy close_all m p q v = close-Valid strategy m v
step-Valid strategy (close_if_idle check_size check_count) m p q v =
    idle-Valid strategy check_size check_count m v

run-Valid_from :
    (strategy : ClientStrategy) (calls : List Call) (m : SessionManager)
    → 0 < strategy.max_concurrency
    → 0 < strategy.max_connection % 2 ^ 16
    → Valid strategy m
    → Valid strategy (run strategy calls m)
unfolding run
run-Valid_from strategy [] m p q v = v
run-Valid_from strategy (c ∷ calls) m p q v =
    run-Valid_from strategy calls (step strategy c m) p q (step-Valid strategy c m p q v)

-- Whatever a client allocates and closes, with a limit on the sessions at once and one on those
-- over the connection's life: the numbers in its table rise, none is above the count, each stands
-- for an open session of that number, both limits hold, and a closed manager has no sessions.
pub run-Valid :
    (strategy : ClientStrategy) (calls : List Call)
    → 0 < strategy.max_concurrency
    → 0 < strategy.max_connection % 2 ^ 16
    → Valid strategy (run strategy calls new_session_manager)
unfolding new_session_manager
run-Valid strategy calls p q =
    run-Valid_from strategy calls new_session_manager p q (record {
      table = tt;
      concurrency = omega arith;
      connection = omega arith;
      settled = inl refl;
    })
