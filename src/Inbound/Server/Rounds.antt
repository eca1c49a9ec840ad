-- ===== src/Inbound/Server/Rounds.antt =====
-- proxy/reflex/inbound/inbound.go: the rounds of `handleSession`: what a round keeps, and when the loop
-- returns.
use reflex_network_project.Prelude.{
  ℕ, zero, suc, ◌+◌, ◌<◌, ◌≡◌, ◌≢◌, refl, inl, inr, Bool, true, false, Option, none, some, List, [],
  arith, ◌==◌, if◌then◌else◌, length, Bool-cases,
}
use reflex_network_project.Io.{Error, Outcome, ok, err, Stream, feed, read_full}
use reflex_network_project.Session.{Session, Frame, read_frame, write_frame, frame_type_data}
use reflex_network_project.Session.Progress.{read_frame-length}
use reflex_network_project.Morph.{Float, write_frame_with_morphing, wait_after}
use reflex_network_project.MultiBuffer
use reflex_network_project.Inbound.Server.{
  Env, Link, Serving, reply, relay_answer, after_read, forward, handle_data, handle_frame,
  session_loop, session_end, handle_session,
}

module _ (fl : Float) (env : Env fl.Carrier) where
  open fl use {Carrier}

  -- A round keeps the input and what the session has read.
  pub record SameReads (s t : Serving Carrier) : Type 0 where
    pub input : t.input ≡ s.input
    pub key : t.session.key ≡ s.session.key
    pub seen_flag : t.session.read_seen ≡ s.session.read_seen
    pub count : t.session.read_nonce_count ≡ s.session.read_nonce_count

  reply-SameReads :
      (round : ℕ) (bytes : List ℕ) (s : Serving Carrier)
      → SameReads s (reply fl env round bytes s)
        × ((reply fl env round bytes s).forwarded ≡ s.forwarded)
  unfolding reply write_frame_with_morphing wait_after write_frame
  reply-SameReads round bytes s = ground arith

  SameReads-if :
      (b : Bool) (s t u : Serving Carrier)
      → SameReads s t
      → SameReads s u
      → SameReads s (if b then t else u)
  SameReads-if true s t u h k = h
  SameReads-if false s t u h k = k

  SameReads-refl : (s : Serving Carrier) → SameReads s s
  SameReads-refl s = record { input = refl; key = refl; seen_flag = refl; count = refl }

  relay_answer-SameReads :
      (round : ℕ) (o : Option MultiBuffer.MultiBuffer) (s : Serving Carrier)
      → SameReads s (relay_answer fl env round o s)
  unfolding relay_answer
  relay_answer-SameReads round none s = SameReads-refl s
  relay_answer-SameReads round (some mb) s =
      SameReads-if (MultiBuffer.is_empty mb) s s _ (SameReads-refl s) (reply-SameReads round _ s).0

  relay_answer-forwarded :
      (round : ℕ) (o : Option MultiBuffer.MultiBuffer) (s : Serving Carrier)
      → (relay_answer fl env round o s).forwarded ≡ s.forwarded
  unfolding relay_answer
  relay_answer-forwarded round none s = refl
  relay_answer-forwarded round (some mb) s = elim (Bool-cases (MultiBuffer.is_empty mb)) [
    | inl e ↦ rw e refl
    | inr e ↦ rw e (reply-SameReads round (MultiBuffer.copy mb (MultiBuffer.len mb)) s).1
  ]

  after_read-SameReads :
      (round : ℕ) (o : Option (Option MultiBuffer.MultiBuffer)) (s : Serving Carrier)
      → SameReads s (after_read fl env round o s)
  unfolding after_read
  after_read-SameReads round none s = record {
    input = refl;
    key = refl;
    seen_flag = refl;
    count = refl;
  }
  after_read-SameReads round (some answer) s = relay_answer-SameReads round answer s

  pub after_read-forwarded :
      (round : ℕ) (o : Option (Option MultiBuffer.MultiBuffer)) (s : Serving Carrier)
      → (after_read fl env round o s).forwarded ≡ s.forwarded
  unfolding after_read
  after_read-forwarded round none s = refl
  after_read-forwarded round (some answer) s = relay_answer-forwarded round answer s

  handle_data-SameReads :
      (d : Option (ℕ → Option Link)) (round : ℕ) (payload : List ℕ) (s : Serving Carrier)
      → SameReads s (handle_data fl env d round payload s)
  unfolding handle_data
  handle_data-SameReads none round payload s = SameReads-refl s
  handle_data-SameReads (some dispatch) round payload s = through (dispatch round)
    where
      through : (o : Option Link) → SameReads s (forward fl env round payload o s)
      through none = SameReads-refl s
      through (some link) =
          let r = after_read-SameReads round (link _) _ in
          record { input = r.input; key = r.key; seen_flag = r.seen_flag; count = r.count }

  pub handle_frame-SameReads :
      (round : ℕ) (f : Frame) (s : Serving Carrier) → SameReads s (handle_frame fl env round f s)
  unfolding handle_frame
  handle_frame-SameReads round f s =
      SameReads-if (f.frame_type == frame_type_data) s _ _
        (handle_data-SameReads env.dispatcher round f.payload s)
        (SameReads-if _ s _ s (record { input = refl; key = refl; seen_flag = refl; count = refl })
          (SameReads-refl s))

  session_step-ne-none :
      (fuel round : ℕ) (s : Serving Carrier) (o : Outcome Stream (Frame × Session))
      → ((f : Frame) (t : Session) (st : Stream)
          → o ≡ ok (f, t) st
          → session_loop fl env fuel
              (round + 1)
              (handle_frame fl env round f (record s { session = t; input = st }))
            ≢ none)
      → elim o [
        | err e st ↦ some (record s { input = st }, session_end fl env e)
        | ok (f, t) st ↦
            let s' = handle_frame fl env round f (record s { session = t; input = st }) in
            let rest = session_loop fl env fuel (round + 1) s' in
            if s'.blocked then some (s', none) else rest
      ]
        ≢ none
  session_step-ne-none fuel round s (err e st) h = λ k. cc
  session_step-ne-none fuel round s (ok (f, t) st) h =
      let s' = handle_frame fl env round f (record s { session = t; input = st }) in
      λ k. elim (Bool-cases s'.blocked) [
        | inl waits ↦ ground (arith, k, waits)
        | inr runs ↦ h f t st refl (ground (arith, k, runs))
      ]

  session_loop-ne-none :
      (fuel round : ℕ) (s : Serving Carrier)
      → length s.input.pending < fuel
      → session_loop fl env fuel round s ≢ none
  unfolding session_loop
  session_loop-ne-none zero round s h = elim h [ ]
  session_loop-ne-none (suc fuel) round s h =
      session_step-ne-none fuel round s (read_frame env.aead s.session s.input) λ f t st e.
        session_loop-ne-none fuel (round + 1) _ (
          rw (handle_frame-SameReads round f (record s { session = t; input = st })).input
            (omega (arith, read_frame-length env.aead s.session s.input e)))

  -- The fuel is enough on every input.
  pub handle_session-ne-none : (s : Serving Carrier) → handle_session fl env s ≢ none
  unfolding handle_session
  handle_session-ne-none s = session_loop-ne-none (length s.input.pending + 1) 0 s (omega arith)

  pub session_loop_step :
      (fuel round : ℕ) (s : Serving Carrier) {f : Frame} {t : Session} {st : Stream}
      → read_frame env.aead s.session s.input ≡ ok (f, t) st
      → (handle_frame fl env round f (record s { session = t; input = st })).blocked ≡ false
      → session_loop fl env (suc fuel) round s
        ≡ session_loop fl env fuel
            (round + 1)
            (handle_frame fl env round f (record s { session = t; input = st }))
  unfolding session_loop
  session_loop_step fuel round s e runs = rw (e, session_loop, runs) refl

  pub session_loop_end :
      (fuel round : ℕ) (s : Serving Carrier) {st : Stream}
      → read_frame env.aead s.session s.input ≡ err Error.eof st
      → session_loop fl env (suc fuel) round s ≡ some (record s { input = st }, none)
  unfolding session_loop
  session_loop_end fuel round s e = rw (e, session_loop) refl

  pub read_frame-end :
      (s : Session) → read_frame env.aead s (feed [] Error.eof) ≡ err Error.eof (feed [] Error.eof)
  unfolding read_frame read_full
  read_frame-end s = refl

-- The reader of every link that a dispatch opens returns, with something or with an error.
pub record Answers {W : Type 0} (env : Env W) : Type 0 where
  pub answers :
      (dispatch : ℕ → Option Link) (round : ℕ) (link : Link) (bytes : List ℕ)
      → env.dispatcher ≡ some dispatch
      → dispatch round ≡ some link
      → (answer : Option MultiBuffer.MultiBuffer) × (link bytes ≡ some answer)

module _ (fl : Float) (env : Env fl.Carrier) (all : Answers env) where
  open fl use {Carrier}

  relay_answer-blocked :
      (round : ℕ) (o : Option MultiBuffer.MultiBuffer) (s : Serving Carrier)
      → (relay_answer fl env round o s).blocked ≡ s.blocked
  unfolding relay_answer reply
  relay_answer-blocked round none s = refl
  relay_answer-blocked round (some mb) s = elim (Bool-cases (MultiBuffer.is_empty mb)) [
    | inl e ↦ rw e refl
    | inr e ↦ rw e refl
  ]

  after_read-blocked :
      (round : ℕ) (o : Option (Option MultiBuffer.MultiBuffer))
      (answer : Option MultiBuffer.MultiBuffer) (s : Serving Carrier)
      → o ≡ some answer
      → (after_read fl env round o s).blocked ≡ s.blocked
  unfolding after_read
  after_read-blocked round none answer s e = cc e
  after_read-blocked round (some a) answer s e = relay_answer-blocked round a s

  forward-blocked :
      (dispatch : ℕ → Option Link) (round : ℕ) (payload : List ℕ) (o : Option Link)
      (s : Serving Carrier)
      → env.dispatcher ≡ some dispatch
      → dispatch round ≡ o
      → (forward fl env round payload o s).blocked ≡ s.blocked
  unfolding forward
  forward-blocked dispatch round payload none s d e = refl
  forward-blocked dispatch round payload (some link) s d e =
      let (answer, got) = all.answers dispatch round link _ d e in
      after_read-blocked round _ answer _ got

  handle_data-blocked :
      (o : Option (ℕ → Option Link)) (round : ℕ) (payload : List ℕ) (s : Serving Carrier)
      → env.dispatcher ≡ o
      → (handle_data fl env o round payload s).blocked ≡ s.blocked
  unfolding handle_data
  handle_data-blocked none round payload s d = refl
  handle_data-blocked (some dispatch) round payload s d =
      forward-blocked dispatch round payload (dispatch round) s d refl

  pub handle_frame-blocked :
      (round : ℕ) (f : Frame) (s : Serving Carrier)
      → (handle_frame fl env round f s).blocked ≡ s.blocked
  unfolding handle_frame
  handle_frame-blocked round f s = elim (Bool-cases (f.frame_type == frame_type_data)) [
    | inl data_frame ↦
        rw (data_frame, handle_frame) (handle_data-blocked env.dispatcher round f.payload s refl)
    | inr control ↦ rw (control, handle_frame) (if_blocked _ _ s refl)
  ]
    where
      if_blocked :
          (b : Bool) (t u : Serving Carrier)
          → t.blocked ≡ u.blocked
          → (if b then t else u).blocked ≡ u.blocked
      if_blocked true t u e = e
      if_blocked false t u e = refl

  -- A loop that has returned.
  abbrev Returns : Option (Serving Carrier × Option Error) → Type 0
  Returns o = (t : Serving Carrier) × (e : Option Error) × (o ≡ some (t, e)) × (t.blocked ≡ false)
