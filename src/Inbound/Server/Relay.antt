-- ===== src/Inbound/Server/Relay.antt =====
-- proxy/reflex/inbound/inbound.go: what `handleSession` does with the frames of a client.
use reflex_network_project.Prelude.{
  ℕ, zero, suc, ◌+◌, ◌-◌, ◌^◌, ◌≤◌, ◌<◌, ◌≡◌, refl, ap, ◌∙◌, sym, inl, inr, Bool, true, false,
  Option, none, some, List, [], ◌∷◌, ◌++◌, arith, ◌==◌, if◌then◌else◌, length, take, All,
  append-nil, append_assoc, Bool-cases, length-append,
}
use reflex_network_project.Io.{Error, ok, Stream, Wire, feed}
use reflex_network_project.Session.{IsAead, Session, Frame, is_replay, frame_type_data}
use reflex_network_project.Session.Frames.{encoded, seen, read_frame-encoded, length-encoded}
use reflex_network_project.Session.RoundTrip.{
  IsSmall, Behind, encodings, write_frames, write_frames-encodings,
}
use reflex_network_project.Morph.{Float, apply_control_frame}
use reflex_network_project.Buffer.{size}
use reflex_network_project.Buffer.Content.{bytes-write-new}
use reflex_network_project.Inbound.Server.{
  Env, Link, Serving, forward, handle_data, handle_frame, session_loop, handle_session,
}
use reflex_network_project.Inbound.Server.Rounds.{
  handle_frame-SameReads, after_read-forwarded, session_loop_step, session_loop_end, read_frame-end,
  Answers, handle_frame-blocked,
}

-- What the dispatcher is sent: the first 8192 bytes of each data frame's payload.
unfoldable pub sent_list : List Frame → List (List ℕ)
sent_list [] = []
sent_list (f ∷ fs) =
    if f.frame_type == frame_type_data then take size f.payload ∷ sent_list fs else sent_list fs

-- The handler has a dispatcher, each dispatch opens a link, and each link's reader returns.
pub record Dispatches {W : Type 0} (env : Env W) : Type 0 where
  pub dispatch : ℕ → Option Link
  pub present : env.dispatcher ≡ some dispatch
  pub opens : (round : ℕ) → (link : Link) × (dispatch round ≡ some link)
  pub answers : Answers env
  -- A new buffer's memory has its regular size.
  pub memory : size ≤ length env.memory

module _ (fl : Float) (env : Env fl.Carrier) (law : IsAead env.aead) (d : Dispatches env) where
  open fl use {Carrier}

  forward-forwarded :
      (round : ℕ) (payload : List ℕ) (link : Link) (s : Serving Carrier)
      → (forward fl env round payload (some link) s).forwarded
        ≡ s.forwarded ++ (take size payload ∷ [])
  unfolding forward
  forward-forwarded round payload link s =
      after_read-forwarded fl env round (link _) _
      ∙ ap (λ sent. s.forwarded ++ (sent ∷ [])) (bytes-write-new env.memory d.memory payload)

  handle_data-forwarded :
      (round : ℕ) (payload : List ℕ) (s : Serving Carrier)
      → (handle_data fl env env.dispatcher round payload s).forwarded
        ≡ s.forwarded ++ (take size payload ∷ [])
  unfolding handle_data
  handle_data-forwarded round payload s =
      let (link, e) = d.opens round in rw (d.present, e) (forward-forwarded round payload link s)

  handle_frame-forwarded :
      (round : ℕ) (f : Frame) (s : Serving Carrier)
      → (handle_frame fl env round f s).forwarded ≡ s.forwarded ++ sent_list (f ∷ [])
  unfolding handle_frame sent_list
  handle_frame-forwarded round f s = elim (Bool-cases (f.frame_type == frame_type_data)) [
    | inl data_frame ↦ rw (data_frame, handle_frame) (handle_data-forwarded round f.payload s)
    | inr control ↦
        rw (control, handle_frame)
          (if_forwarded _
              (record s { profile = apply_control_frame s.profile f.frame_type f.payload }) s refl
            ∙ sym (append-nil s.forwarded))
  ]
    where
      if_forwarded :
          (b : Bool) (t u : Serving Carrier)
          → t.forwarded ≡ u.forwarded
          → (if b then t else u).forwarded ≡ u.forwarded
      if_forwarded true t u e = e
      if_forwarded false t u e = refl

  sent_list-cons :
      (f : Frame) (fs : List Frame) → sent_list (f ∷ []) ++ sent_list fs ≡ sent_list (f ∷ fs)
  unfolding sent_list
  sent_list-cons f fs = ground arith

  length-encodings :
      (key : List ℕ) (c : ℕ) (fs : List Frame) → length fs ≤ length (encodings env.aead key c fs)
  unfolding encodings
  length-encodings key c [] = omega arith
  length-encodings key c (f ∷ fs) = omega (
    arith,
    length-append (encoded env.aead key c f) (encodings env.aead key (c + 1) fs),
    length-encoded law key c f,
    length-encodings key (c + 1) fs,
  )

  -- The loop on the frames of a client, from its counter `c` on.
  session_loop-encodings :
      (fs : List Frame) (fuel round c : ℕ) (s : Serving Carrier)
      → s.blocked ≡ false
      → s.input ≡ feed (encodings env.aead s.session.key c fs) Error.eof
      → length s.session.key ≡ 32
      → All IsSmall fs
      → c + length fs < 2 ^ 64
      → Behind s.session c
      → length fs < fuel
      → (t : Serving Carrier) × (session_loop fl env fuel round s ≡ some (t, none))
        × (t.forwarded ≡ s.forwarded ++ sent_list fs)
        × (t.blocked ≡ false)
  unfolding encodings
  session_loop-encodings fs zero round c s running input key small fits behind h = elim h [ ]
  session_loop-encodings [] (suc fuel) round c s running input key small fits behind h = (
    record s { input = feed [] Error.eof },
    session_loop_end fl env fuel round s (rw input (read_frame-end fl env s.session)),
    sym (unfold sent_list in append-nil s.forwarded),
    running,
  )
  session_loop-encodings (f ∷ fs) (suc fuel) round c s running input key small fits behind h =
      let rest = encodings env.aead s.session.key (c + 1) fs in
      let accepted =
        read_frame-encoded law s.session c f rest Error.eof key small.0 (omega arith)
          (not_replay s.session behind) in
      let s₁ = record s { session = seen s.session c; input = feed rest Error.eof } in
      let s₂ = handle_frame fl env round f s₁ in
      let same = handle_frame-SameReads fl env round f s₁ in
      let s₂_runs = handle_frame-blocked fl env d.answers round f s₁ ∙ running in
      let (t, ran, sent, runs) =
        session_loop-encodings fs fuel (round + 1) (c + 1) s₂ s₂_runs
          (same.input ∙ ap (λ k. feed (encodings env.aead k (c + 1) fs) Error.eof) (sym same.key))
          (rw same.key key) small.1 (omega arith) (inr (omega (arith, same.count))) (omega arith) in
      (
        t,
        session_loop_step fl env fuel round s (rw input accepted) s₂_runs ∙ ran,
        sent
            ∙ (ap (λ xs. xs ++ sent_list fs) (handle_frame-forwarded round f s₁)
                ∙ (append_assoc s.forwarded (sent_list (f ∷ [])) (sent_list fs)
                    ∙ ap (◌++◌ s.forwarded) (sent_list-cons f fs))),
        runs,
      )
    where
      not_replay : (r : Session) → Behind r c → is_replay r c ≡ false
      not_replay r b = ground arith

  -- The same, for an input that holds the frames.
  pub handle_session-encodings :
      (fs : List Frame) (c : ℕ) (s : Serving Carrier)
      → s.blocked ≡ false
      → s.input ≡ feed (encodings env.aead s.session.key c fs) Error.eof
      → length s.session.key ≡ 32
      → All IsSmall fs
      → c + length fs < 2 ^ 64
      → Behind s.session c
      → (t : Serving Carrier) × (handle_session fl env s ≡ some (t, none))
        × (t.forwarded ≡ s.forwarded ++ sent_list fs)
        × (t.blocked ≡ false)
  unfolding handle_session
  handle_session-encodings fs c s running input key small fits behind =
      session_loop-encodings fs (length s.input.pending + 1) 0 c s running input key small fits
        behind
        (omega (
          arith,
          length-encodings s.session.key c fs,
          ap (λ (st : Stream). length st.pending) input,
        ))

  -- A client whose session has the server's 32-byte key writes frames on its connection and closes
  -- it: the writes succeed, and the server's session ends without an error, after it has sent to the
  -- dispatcher the first 8192 bytes of each data frame's payload, in order, and nothing else. The
  -- payloads are within the frame limit, the client's counter does not reach 2^64 and is not behind
  -- the server's, the connection has room for the frames, each dispatch opens a link, and the
  -- reader of each link returns, whatever it gives.
  pub handle_session-write_frames :
      (client : Session) (fs : List Frame) (room : ℕ) (s : Serving Carrier)
      → s.blocked ≡ false
      → client.key ≡ s.session.key
      → length s.session.key ≡ 32
      → All IsSmall fs
      → client.write_nonce_count + length fs < 2 ^ 64
      → Behind s.session client.write_nonce_count
      → length (encodings env.aead client.key client.write_nonce_count fs) ≤ room
      → (client' : Session) × (w : Wire) × (t : Serving Carrier) × (write_frames env.aead client fs
            (record { written = []; room = room })
          ≡ (client', ok tt w))
        × (handle_session fl env (record s { input = feed w.written Error.eof }) ≡ some (t, none))
        × (t.forwarded ≡ s.forwarded ++ sent_list fs)
        × (t.blocked ≡ false)
  handle_session-write_frames client fs room s running same key small fits behind enough =
      let c = client.write_nonce_count in
      let bytes = encodings env.aead client.key c fs in
      let (t, ran, sent, runs) =
        handle_session-encodings fs c (record s { input = feed bytes Error.eof }) running
          (ap (λ k. feed (encodings env.aead k c fs) Error.eof) same) key small fits behind in
      (
        record client { write_nonce_count = c + length fs },
        record { written = bytes; room = room - length bytes },
        t,
        write_frames-encodings law client fs (record { written = []; room = room }) small fits
            enough,
        ran,
        sent,
        runs,
      )
