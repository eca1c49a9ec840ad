-- ===== src/Session/Frames.antt =====
-- The format of one frame on the wire, as a description of its own: two bytes of length, the nonce,
-- the sealed type and payload. `write_frame` writes it, and `read_frame` reads it.
use reflex_network_project.Prelude.{
  ℕ, ◌+◌, ◌-◌, ◌%◌, ◌^◌, ◌≤◌, ◌<◌, ◌≡◌, refl, ap, true, false, List, [], ◌∷◌, ◌++◌, arith, length,
  take, drop, replicate, length-append, append_assoc, some, append-nil, ◌↔◌,
}
use reflex_network_project.Prelude.Bytes.{
  put_uint16, uint16, put_uint64, uint64, length-put_uint16, length-put_uint64, uint16-put_uint16,
}
use reflex_network_project.Io.{Error, ok, ◌>>◌, feed, read_full-append, Wire, write, write_fits}
use reflex_network_project.Session.{
  Aead, IsAead, Session, Frame, make_nonce, write_frame, read_frame, is_replay,
}

-- Four zero bytes and the counter.
abbrev pub nonce_of : ℕ → List ℕ
nonce_of c = replicate 4 0 ++ put_uint64 c

-- The longest payload whose frame fits the two length bytes: 65535 less nonce, tag and type.
abbrev pub max_payload : ℕ
max_payload = 65506

unfoldable pub frame_body : Aead → List ℕ → ℕ → Frame → List ℕ
frame_body a key c f = a.seal key (nonce_of c) (f.frame_type ∷ f.payload)

unfoldable pub encoded : Aead → List ℕ → ℕ → Frame → List ℕ
unfolding frame_body
encoded a key c f = put_uint16 (29 + length f.payload) ++ (nonce_of c ++ frame_body a key c f)

pub length-nonce_of : (c : ℕ) → length (nonce_of c) ≡ 12
length-nonce_of c = omega (arith, length-put_uint64 c)

pub make_nonce-zeros : (n c : ℕ) → n ≡ 12 → make_nonce (replicate n 0) c ≡ nonce_of c
unfolding make_nonce put_uint64
make_nonce-zeros n c e = rw e refl

pub length-frame_body :
    {a : Aead} (law : IsAead a) (key : List ℕ) (c : ℕ) (f : Frame)
    → length (frame_body a key c f) ≡ 17 + length f.payload
unfolding frame_body
length-frame_body law key c f =
    omega (arith, law.length_seal key (nonce_of c) (f.frame_type ∷ f.payload), law.overhead_16)

pub length-encoded :
    {a : Aead} (law : IsAead a) (key : List ℕ) (c : ℕ) (f : Frame)
    → length (encoded a key c f) ≡ 31 + length f.payload
unfolding encoded
length-encoded {a} law key c f = omega (
  arith,
  length-append (put_uint16 (29 + length f.payload)) (nonce_of c ++ frame_body a key c f),
  length-append (nonce_of c) (frame_body a key c f),
  length-put_uint16 (29 + length f.payload),
  length-nonce_of c,
  length-frame_body law key c f,
)

-- Three writes that fit are one write.
write_three :
    (p q r : List ℕ) (w : Wire)
    → length (p ++ (q ++ r)) ≤ w.room
    → (write p >> write q >> write r) w
      ≡ ok tt (record {
        written = w.written ++ (p ++ (q ++ r));
        room = w.room - length (p ++ (q ++ r));
      })
write_three p q r w h = ground (
  arith,
  length-append p (q ++ r),
  length-append q r,
  write_fits p w,
  write_fits q (record { written = w.written ++ p; room = w.room - length p }),
  write_fits r (record { written = (w.written ++ p) ++ q; room = (w.room - length p) - length q }),
  append_assoc (w.written ++ p) q r,
  append_assoc w.written p (q ++ r),
)

-- The session after a write.
abbrev pub bumped : Session → Session
bumped s = record s { write_nonce_count = (s.write_nonce_count + 1) % 2 ^ 64 }

-- The two length bytes of a frame within the limit.
total_len_eq :
    {a : Aead} (law : IsAead a) (key : List ℕ) (c : ℕ) (f : Frame)
    → length f.payload ≤ max_payload
    → (length (nonce_of c) + length (frame_body a key c f)) % 2 ^ 16 ≡ 29 + length f.payload
total_len_eq law key c f h = omega (arith, length-frame_body law key c f, length-nonce_of c)

-- A frame within the limit, on a wire with room for it, is written in full.
pub write_frame-encoded :
    {a : Aead} (law : IsAead a) (s : Session) (f : Frame) (w : Wire)
    → length f.payload ≤ max_payload
    → length (encoded a s.key s.write_nonce_count f) ≤ w.room
    → write_frame a s f.frame_type f.payload w ≡ (
      bumped s,
      ok tt (record {
        written = w.written ++ encoded a s.key s.write_nonce_count f;
        room = w.room - length (encoded a s.key s.write_nonce_count f);
      }),
    )
unfolding write_frame encoded frame_body
write_frame-encoded {a} law s f w small room =
    rw (make_nonce-zeros a.nonce_size s.write_nonce_count law.nonce_size_12) (
      rw (total_len_eq law s.key s.write_nonce_count f small) (
        ap (λ o. (bumped s, o))
          (write_three (put_uint16 (29 + length f.payload)) (nonce_of s.write_nonce_count)
            (frame_body a s.key s.write_nonce_count f) w room)))

unseal-frame_body :
    {a : Aead} (law : IsAead a) (key : List ℕ) (c : ℕ) (f : Frame)
    → length key ≡ 32
    → a.unseal key (nonce_of c) (frame_body a key c f) ≡ some (f.frame_type ∷ f.payload)
unfolding frame_body
unseal-frame_body law key c f h =
    law.unseal_seal key (nonce_of c) (f.frame_type ∷ f.payload) h (length-nonce_of c)

-- `binary.BigEndian.Uint64(nonce[4:12])` gives the counter back.
counter-nonce_of : (c : ℕ) → c < 2 ^ 64 → uint64 (take 8 (drop 4 (nonce_of c))) ≡ c
unfolding uint64 put_uint64
counter-nonce_of c h = omega arith

-- The session that accepted the frame with counter `c`.
abbrev pub seen : Session → ℕ → Session
seen s c = record s { read_seen = true; read_nonce_count = c }

-- What comes behind the length of a frame that is not read twice is read as that frame.
pub read_frame-encoded :
    {a : Aead} (law : IsAead a) (s : Session) (c : ℕ) (f : Frame) (rest : List ℕ) (e : Error)
    → length s.key ≡ 32
    → length f.payload ≤ max_payload
    → c < 2 ^ 64
    → is_replay s c ≡ false
    → read_frame a s (feed (encoded a s.key c f ++ rest) e) ≡ ok (f, seen s c) (feed rest e)
unfolding read_frame encoded
read_frame-encoded {a} law s c f rest e key small fits fresh = ground (
  arith,
  law.nonce_size_12,
  law.overhead_16,
  length-frame_body law s.key c f,
  length-nonce_of c,
  append_assoc (put_uint16 (29 + length f.payload)) (nonce_of c ++ frame_body a s.key c f) rest,
  append_assoc (nonce_of c) (frame_body a s.key c f) rest,
  read_full-append 2 (put_uint16 (29 + length f.payload))
      (nonce_of c ++ (frame_body a s.key c f ++ rest)) e,
  length-put_uint16 (29 + length f.payload),
  uint16-put_uint16 (29 + length f.payload) [],
  append-nil (put_uint16 (29 + length f.payload)),
  read_full-append a.nonce_size (nonce_of c) (frame_body a s.key c f ++ rest) e,
  read_full-append (17 + length f.payload) (frame_body a s.key c f) rest e,
  unseal-frame_body law s.key c f key,
  counter-nonce_of c fits,
)

module _ {a : Aead} (law : IsAead a) (s : Session) (f : Frame) (room : ℕ) where
  -- What a write leaves on an empty output with room for it, for a payload of any length.
  abbrev any_frame : List ℕ
  any_frame =
      put_uint16 ((29 + length f.payload) % 2 ^ 16)
      ++ (nonce_of s.write_nonce_count ++ frame_body a s.key s.write_nonce_count f)

  length-any_frame : length any_frame ≡ 31 + length f.payload
  length-any_frame = omega (
    arith,
    length-append (put_uint16 ((29 + length f.payload) % 2 ^ 16))
        (nonce_of s.write_nonce_count ++ frame_body a s.key s.write_nonce_count f),
    length-append (nonce_of s.write_nonce_count) (frame_body a s.key s.write_nonce_count f),
    length-put_uint16 ((29 + length f.payload) % 2 ^ 16),
    length-nonce_of s.write_nonce_count,
    length-frame_body law s.key s.write_nonce_count f,
  )

  write_frame-any_frame :
      31 + length f.payload ≤ room
      → (write_frame a s f.frame_type f.payload (record { written = []; room = room })).1
        ≡ ok tt (record { written = any_frame; room = room - length any_frame })
  unfolding write_frame frame_body
  write_frame-any_frame h =
      rw (make_nonce-zeros a.nonce_size s.write_nonce_count law.nonce_size_12) (
        rw total (
          write_three (put_uint16 ((29 + length f.payload) % 2 ^ 16)) (nonce_of s.write_nonce_count)
            (frame_body a s.key s.write_nonce_count f) (record { written = []; room = room })
            (omega (arith, length-any_frame))))
    where
      total :
          length (nonce_of s.write_nonce_count) + length (frame_body a s.key s.write_nonce_count f)
          ≡ 29 + length f.payload
      total = omega (
        arith,
        length-frame_body law s.key s.write_nonce_count f,
        length-nonce_of s.write_nonce_count,
      )

  -- A write to an empty output with room for the frame reports success, and the two length bytes
  -- say how many bytes follow them exactly when the payload has at most 65506 bytes.
  pub write_frame-length_iff :
      31 + length f.payload ≤ room
      → (w : Wire) × ((write_frame a s f.frame_type f.payload
            (record { written = []; room = room })).1
          ≡ ok tt w)
        × ((2 + uint16 w.written ≡ length w.written) ↔ (length f.payload ≤ max_payload))
  write_frame-length_iff h = (
    record { written = any_frame; room = room - length any_frame },
    write_frame-any_frame h,
    rw length-any_frame (
        rw
          (uint16-put_uint16 ((29 + length f.payload) % 2 ^ 16)
            (nonce_of s.write_nonce_count ++ frame_body a s.key s.write_nonce_count f)
            (omega arith))
          (omega arith)),
  )
