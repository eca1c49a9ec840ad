-- ===== src/Session/RoundTrip.antt =====
-- proxy/reflex/session.go: frames between two sessions with the same key.
use reflex_network_project.Prelude.{
  ℕ, zero, suc, ◌+◌, ◌-◌, ◌^◌, ◌≤◌, ◌<◌, ◌≡◌, refl, false, List, [], ◌∷◌, ◌++◌, arith, length,
  length-append, append_assoc, append-nil, All, ◌⊎◌,
}
use reflex_network_project.Io.{Error, Outcome, ok, err, ◌>>=◌, pure, Stream, feed, Wire}
use reflex_network_project.Session.{Aead, IsAead, Session, Frame, write_frame, read_frame}
use reflex_network_project.Session.Frames.{
  max_payload, encoded, seen, write_frame-encoded, read_frame-encoded,
}

-- The frames written one after the other, up to the first error.
unfoldable pub write_frames : Aead → Session → List Frame → Wire → Session × Outcome Wire (Unit {0})
write_frames a s [] w = (s, ok tt w)
write_frames a s (f ∷ fs) w =
    let r = write_frame a s f.frame_type f.payload w in
    elim (r.1) [ ok _ w' ↦ write_frames a r.0 fs w' | err e w' ↦ (r.0, err e w') ]

-- A number of frames read one after the other.
unfoldable pub read_frames : Aead → ℕ → Session → Stream → Outcome Stream (List Frame × Session)
read_frames a zero s st = ok ([], s) st
read_frames a (suc n) s st =
    (do (f, s') ← read_frame a s; (fs, t) ← read_frames a n s'; pure (f ∷ fs, t)) st

abbrev pub IsSmall : Frame → Type 0
IsSmall f = length f.payload ≤ max_payload

-- The reader has not yet accepted the counter `c` or one above it.
abbrev pub Behind : Session → ℕ → Type 0
Behind r c = (r.read_seen ≡ false) ⊎ (r.read_nonce_count < c)

unfoldable pub encodings : Aead → List ℕ → ℕ → List Frame → List ℕ
encodings a key c [] = []
encodings a key c (f ∷ fs) = encoded a key c f ++ encodings a key (c + 1) fs

-- The reader behind the frames.
unfoldable pub all_seen : Session → ℕ → List Frame → Session
all_seen r c [] = r
all_seen r c (f ∷ fs) = all_seen (seen r c) (c + 1) fs

pub write_frames-encodings :
    {a : Aead} (law : IsAead a) (s : Session) (fs : List Frame) (w : Wire)
    → All IsSmall fs
    → s.write_nonce_count + length fs < 2 ^ 64
    → length (encodings a s.key s.write_nonce_count fs) ≤ w.room
    → write_frames a s fs w ≡ (
      record s { write_nonce_count = s.write_nonce_count + length fs },
      ok tt (record {
        written = w.written ++ encodings a s.key s.write_nonce_count fs;
        room = w.room - length (encodings a s.key s.write_nonce_count fs);
      }),
    )
unfolding write_frames encodings
write_frames-encodings law s [] w small fits room = ground (arith, append-nil w.written)
write_frames-encodings {a} law s (f ∷ fs) w small fits room =
    let c = s.write_nonce_count in
    let front = encoded a s.key c f in
    let back = encodings a s.key (c + 1) fs in
    ground (
      arith,
      length-append front back,
      write_frame-encoded law s f w small.0,
      append_assoc w.written front back,
      write_frames-encodings law (record s { write_nonce_count = c + 1 }) fs
          (record { written = w.written ++ front; room = w.room - length front }) small.1,
    )

pub read_frames-encodings :
    {a : Aead} (law : IsAead a) (r : Session) (c : ℕ) (fs : List Frame) (rest : List ℕ) (e : Error)
    → length r.key ≡ 32
    → All IsSmall fs
    → c + length fs < 2 ^ 64
    → Behind r c
    → read_frames a (length fs) r (feed (encodings a r.key c fs ++ rest) e)
      ≡ ok (fs, all_seen r c fs) (feed rest e)
unfolding read_frames encodings all_seen
read_frames-encodings law r c [] rest e key small fits fresh = refl
read_frames-encodings {a} law r c (f ∷ fs) rest e key small fits fresh = ground (
  arith,
  append_assoc (encoded a r.key c f) (encodings a r.key (c + 1) fs) rest,
  read_frame-encoded law r c f (encodings a r.key (c + 1) fs ++ rest) e key small.0 (omega arith),
  read_frames-encodings law (seen r c) (c + 1) fs rest e key small.1 (omega arith),
)

-- The frames that a session writes on an empty output are read back, in order and unchanged, by any
-- session with the same 32-byte key that has accepted no counter from the writer's on. The payloads
-- are within the limit, the write counter does not reach 2^64, and the output has room for them.
-- Every write succeeds, and the reader leaves nothing over.
pub read_frames-write_frames :
    {a : Aead} (law : IsAead a) (s r : Session) (fs : List Frame) (room : ℕ) (e : Error)
    → r.key ≡ s.key
    → length s.key ≡ 32
    → All IsSmall fs
    → s.write_nonce_count + length fs < 2 ^ 64
    → Behind r s.write_nonce_count
    → length (encodings a s.key s.write_nonce_count fs) ≤ room
    → (s' r' : Session) × (w : Wire) × (write_frames a s fs (record { written = []; room = room })
        ≡ (s', ok tt w))
      × (read_frames a (length fs) r (feed w.written e) ≡ ok (fs, r') (feed [] e))
read_frames-write_frames {a} law s r fs room e same key small fits fresh enough =
    let c = s.write_nonce_count in
    let bytes = encodings a s.key c fs in
    (
      record s { write_nonce_count = c + length fs },
      all_seen r c fs,
      record { written = bytes; room = room - length bytes },
      write_frames-encodings law s fs (record { written = []; room = room }) small fits enough,
      ground (
        arith,
        append-nil bytes,
        read_frames-encodings law r c fs [] e (rw same key) small fits fresh,
      ),
    )
