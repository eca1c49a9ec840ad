-- ===== src/Session/Replay.antt =====
-- proxy/reflex/session.go: the replay check over further frames.
use reflex_network_project.Prelude.{ℕ, zero, suc, ◌≤◌, ◌<◌, ◌≡◌, ◌∙◌, true, false, List, arith, ◌⊎◌}
use reflex_network_project.Io.{Error, ok, err, Stream, >>=-eq-ok}
use reflex_network_project.Session.{Aead, Session, Frame, read_frame}
use reflex_network_project.Session.RoundTrip.{read_frames}

-- An accepted frame has a counter above every one accepted before, and moves nothing else.
pub record Advances (s t : Session) : Type 0 where
  pub seen_now : t.read_seen ≡ true
  pub above : (s.read_seen ≡ false) ⊎ (s.read_nonce_count < t.read_nonce_count)
  pub same_key : t.key ≡ s.key
  pub same_writes : t.write_nonce_count ≡ s.write_nonce_count

pub read_frame-Advances :
    (a : Aead) (s : Session) (st : Stream) {f : Frame} {t : Session} {st' : Stream}
    → read_frame a s st ≡ ok (f, t) st'
    → Advances s t
unfolding read_frame
read_frame-Advances a s st h = ground arith

-- The same input, at a session that has gone on from the acceptance.
pub read_frame_again :
    (a : Aead) (s r : Session) (st : Stream) {f : Frame} {t : Session} {st' : Stream}
    → read_frame a s st ≡ ok (f, t) st'
    → r.key ≡ s.key
    → r.read_seen ≡ true
    → t.read_nonce_count ≤ r.read_nonce_count
    → read_frame a r st ≡ err Error.replay_detected st'
unfolding read_frame
read_frame_again a s r st h same was above = ground arith

-- Reading on, the counter of the last accepted frame never falls.
pub read_frames_keeps :
    (a : Aead) (n : ℕ) (s : Session) (st : Stream) {fs : List Frame} {t : Session} {st' : Stream}
    → s.read_seen ≡ true
    → read_frames a n s st ≡ ok (fs, t) st'
    → (t.read_seen ≡ true) × (s.read_nonce_count ≤ t.read_nonce_count) × (t.key ≡ s.key)
unfolding read_frames
read_frames_keeps a zero s st was h = ground arith
read_frames_keeps a (suc n) s st was h =
    let ((f, s'), st', e, h') = >>=-eq-ok (read_frame a s) _ st h in
    let ((fs, u), st'', e', h'') = >>=-eq-ok (read_frames a n s') _ st' h' in
    let v = read_frame-Advances a s st e in
    ground (arith, v, read_frames_keeps a n s' st' v.seen_now e', h'')

-- A frame that a session accepted is refused as a replay after any number of further frames, from
-- whatever input, that the session accepted since.
pub read_frame-read_frames_replay :
    (a : Aead) (n : ℕ) (s : Session) (st later : Stream) {f : Frame} {t u : Session}
    {fs : List Frame} {st' later' : Stream}
    → read_frame a s st ≡ ok (f, t) st'
    → read_frames a n t later ≡ ok (fs, u) later'
    → read_frame a u st ≡ err Error.replay_detected st'
read_frame-read_frames_replay a n s st later {t = t} {u = u} h k =
    let v = read_frame-Advances a s st h in
    let keep = read_frames_keeps a n t later v.seen_now k in
    read_frame_again a s u st h (keep.2 ∙ v.same_key) keep.0 keep.1
