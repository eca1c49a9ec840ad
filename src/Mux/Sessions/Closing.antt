-- ===== src/Mux/Sessions/Closing.antt =====
-- What closing does to the sessions of the table, and to a number that is used again.
use reflex_network_project.Prelude.{
  ℕ, ◌≡◌, ◌≢◌, ◌∙◌, sym, ap, refl, true, false, Option, none, some, List, [], ◌∷◌, ◌++◌, arith,
  ◌==◌, length, Bool-cases, ==_iff, subst, ◌⊎◌, All, inl, inr,
}
use reflex_network_project.Mux.Sessions.{
  Session, SessionManager, ClientStrategy, put, delete, find, next_count, allocate, add, remove,
  get, object, mark_closed, close_object, close_session, close_each, close,
}
use reflex_network_project.Mux.Sessions.Invariant.{
  open_session, Table, Valid, object-append, object-last, object-mark_closed, object-mark_closed_ne,
  close_each-keeps,
}

abbrev shut : Session → Session
shut o = record o { closed = true }

objects-remove : (id : ℕ) (m : SessionManager) → (remove id m).objects ≡ m.objects
unfolding remove
objects-remove id m = ground arith

close_object_self :
    (s : ℕ) (o : Session) (m : SessionManager)
    → object s m.objects ≡ some o
    → object s (close_object s (some o) m).objects ≡ some (shut o)
unfolding close_object
close_object_self s o m e = elim (Bool-cases o.closed) [
  | inl old ↦ ground (arith, e, old)
  | inr live ↦ simp live (
      ap (object s) (objects-remove o.id (record m { objects = mark_closed s m.objects }))
      ∙ object-mark_closed s m.objects o e)
]

close_object_other :
    (t s : ℕ) (p : Option Session) (m : SessionManager)
    → t ≢ s
    → object t (close_object s p m).objects ≡ object t m.objects
unfolding close_object
close_object_other t s none m h = refl
close_object_other t s (some o) m h = elim (Bool-cases o.closed) [
  | inl old ↦ simp old refl
  | inr live ↦ simp live (
      ap (object t) (objects-remove o.id (record m { objects = mark_closed s m.objects }))
      ∙ object-mark_closed_ne t s m.objects h)
]

close_session_self :
    (s : ℕ) (o : Session) (m : SessionManager)
    → object s m.objects ≡ some o
    → object s (close_session s m).objects ≡ some (shut o)
unfolding close_session
close_session_self s o m e = rw (e, close_session) (close_object_self s o m e)

-- A session that is closed stays closed.
close_session_stays :
    (t s : ℕ) (o : Session) (m : SessionManager)
    → object t m.objects ≡ some (shut o)
    → object t (close_session s m).objects ≡ some (shut o)
unfolding close_session
close_session_stays t s o m e = elim (Bool-cases (t == s)) [
  | inl here ↦
      let same : t ≡ s = (==_iff t s).0 here in
      subst (λ k. object t (close_session k m).objects ≡ some (shut o)) same
        (close_session_self t (shut o) m e)
  | inr away ↦
      close_object_other t s (object s m.objects) m (λ same. ground (arith, away, same)) ∙ e
]

close_each_stays :
    (l : List (ℕ × ℕ)) (t : ℕ) (o : Session) (m : SessionManager)
    → object t m.objects ≡ some (shut o)
    → object t (close_each l m).objects ≡ some (shut o)
unfolding close_each
close_each_stays [] t o m e = e
close_each_stays ((id, s) ∷ l) t o m e =
    close_each_stays l t o (close_session s m) (close_session_stays t s o m e)

-- An entry whose session is there, open or closed.
abbrev Known : SessionManager → ℕ × ℕ → Type 0
Known m (id, t) =
    (object t m.objects ≡ some (open_session id))
    ⊎ (object t m.objects ≡ some (shut (open_session id)))

abbrev pub IsShut : List Session → ℕ × ℕ → Type 0
IsShut os (id, t) = object t os ≡ some (shut (open_session id))

-- The other session of two is left alone, and the same one is closed.
close_session-Known :
    (s : ℕ) (e : ℕ × ℕ) (m : SessionManager) → Known m e → Known (close_session s m) e
unfolding close_session
close_session-Known s (id, t) m k = elim (Bool-cases (t == s)) [
  | inl here ↦
      let same : t ≡ s = (==_iff t s).0 here in
      inr (
        subst (λ r. object t (close_session r m).objects ≡ some (shut (open_session id))) same
          (shut_self k))
  | inr away ↦ elim k [
    | inl e ↦ inl (untouched (λ same. ground (arith, away, same)) ∙ e)
    | inr e ↦ inr (untouched (λ same. ground (arith, away, same)) ∙ e)
  ]
]
  where
    untouched : t ≢ s → object t (close_session s m).objects ≡ object t m.objects
    untouched h = close_object_other t s (object s m.objects) m h

    shut_self : Known m (id, t) → IsShut (close_session t m).objects (id, t)
    shut_self (inl e) = close_session_self t (open_session id) m e
    shut_self (inr e) = close_session_self t (shut (open_session id)) m e

All-close_session-Known :
    (s : ℕ) (l : List (ℕ × ℕ)) (m : SessionManager)
    → All (Known m) l
    → All (Known (close_session s m)) l
All-close_session-Known s [] m k = tt
All-close_session-Known s (e ∷ l) m (k, ks) =
    (close_session-Known s e m k, All-close_session-Known s l m ks)

close_each-IsShut :
    (l : List (ℕ × ℕ)) (m : SessionManager)
    → All (Known m) l
    → All (IsShut (close_each l m).objects) l
unfolding close_each
close_each-IsShut [] m k = tt
close_each-IsShut ((id, s) ∷ l) m (k, ks) = (
  close_each_stays l s (open_session id) (close_session s m) (first k),
  close_each-IsShut l (close_session s m) (All-close_session-Known s l m ks),
)
  where
    first : Known m (id, s) → IsShut (close_session s m).objects (id, s)
    first (inl e) = close_session_self s (open_session id) m e
    first (inr e) = close_session_self s (shut (open_session id)) m e

Table-Known :
    (low high : ℕ) (l : List (ℕ × ℕ)) (m : SessionManager)
    → Table low high m.objects l
    → All (Known m) l
Table-Known low high [] m t = tt
Table-Known low high ((id, s) ∷ l) m (a, b, c, d) = (inl c, Table-Known id high l m d)

-- Once a table that is in order is closed, with sessions or without, every session that it had is
-- closed, no number is found any more, none is allocated, and none is added.
pub close_lem :
    (strategy : ClientStrategy) (i j : ℕ) (m : SessionManager)
    → Valid strategy m
    → All (IsShut (close m).objects) m.sessions
      × (get i (close m) ≡ none)
      × ((allocate strategy (close m)).1 ≡ none)
      × ((add j (close m)).1 ≡ false)
unfolding close get allocate add
close_lem strategy i j m v = elim (Bool-cases m.closed) [
  | inl e ↦ simp e (nothing_left e v.settled, refl, refl, refl)
  | inr e ↦
      let m' = record m { closed = true } in
      let known : All (Known m') m.sessions = Table-Known 0 m.count m.sessions m' v.table in
      let closed = (close_each-keeps m.sessions m').1 in
      simp (e, closed) (close_each-IsShut m.sessions m' known, refl, refl, refl)
]
  where
    nothing_left :
        m.closed ≡ true → (m.closed ≡ false) ⊎ (m.sessions ≡ []) → All (IsShut m.objects) m.sessions
    nothing_left e (inl live) = absurd (ground (arith, e, live))
    nothing_left e (inr empty) = rw empty tt

find-put : (id s : ℕ) (l : List (ℕ × ℕ)) → find id (put id s l) ≡ some s
unfolding find put
find-put id s [] = ground arith
find-put id s ((j, t) ∷ l) = ground (arith, find-put id s l)

find-delete : (id : ℕ) (l : List (ℕ × ℕ)) → find id (delete id l) ≡ none
unfolding find delete
find-delete id [] = refl
find-delete id ((j, t) ∷ l) = ground (arith, find-delete id l)

object_past : (os : List Session) → object (length os) os ≡ none
unfolding object
object_past [] = refl
object_past (o ∷ os) = object_past os

abbrev added : ℕ → SessionManager → SessionManager
added id m = record m {
  count = next_count m;
  sessions = put id (length m.objects) m.sessions;
  objects = m.objects ++ (open_session id ∷ []);
}

add_live : (id : ℕ) (m : SessionManager) → m.closed ≡ false → (add id m).0 ≡ added id m
unfolding add
add_live id m live = simp live refl

abbrev without_old : ℕ → ℕ → SessionManager → SessionManager
without_old id s m = record m { sessions = delete id m.sessions; objects = mark_closed s m.objects }

close_session_live :
    (id s : ℕ) (m : SessionManager)
    → m.closed ≡ false
    → object s m.objects ≡ some (open_session id)
    → close_session s m ≡ without_old id s m
unfolding close_session close_object remove
close_session_live id s m live e = rw (e, close_session) (simp live refl)

get_live : (id : ℕ) (m : SessionManager) → m.closed ≡ false → get id m ≡ find id m.sessions
unfolding get
get_live id m live = simp live refl

-- A number that is added while it has an open session stands for the new session; when the old
-- session closes, the new one, which stays open, is no longer found.
pub close_session-add :
    (id s : ℕ) (m : SessionManager)
    → m.closed ≡ false
    → object s m.objects ≡ some (open_session id)
    → (get id (add id m).0 ≡ some (length m.objects))
      × (get id (close_session s (add id m).0) ≡ none)
      × (object (length m.objects) (close_session s (add id m).0).objects ≡ some (open_session id))
close_session-add id s m live old =
    let now = added id m in
    let kept = object-append s m.objects (open_session id) (open_session id) old in
    let after = close_session_live id s now live kept in
    let new_place : length m.objects ≢ s = λ same.
      let gone : ◌≡◌ {A = Option Session} none (some (open_session id)) =
        sym (object_past m.objects) ∙ ap (λ k. object k m.objects) same ∙ old in
      cc in
    rw (add_live id m live, after)
      (
        get_live id now live ∙ find-put id (length m.objects) m.sessions,
        get_live id (without_old id s now) live ∙ find-delete id now.sessions,
        object-mark_closed_ne (length m.objects) s now.objects new_place
            ∙ object-last m.objects (open_session id),
      )
