-- ===== src/Morph/Padding.antt =====
-- proxy/reflex/morph.go: `AddPadding` and `WriteFrameWithMorphing`.
use reflex_network_project.Prelude.{
  ℕ, suc, ◌+◌, ◌-◌, ◌≤◌, ◌≡◌, refl, ap, ◌↔◌, some, List, ◌++◌, arith, length, take, length-append,
  length-take, take-append, take_all,
}
use native.Mathlib.Decide.{dec_le}
use reflex_network_project.Prelude.Int.{pos}
use reflex_network_project.Io.{ok, Wire}
use reflex_network_project.Session.{Aead, IsAead, Session, Frame}
use reflex_network_project.Session.Frames.{
  max_payload, encoded, write_frame-encoded, length-encoded,
}
use reflex_network_project.Morph.{
  Float, TrafficProfile, get_packet_size, add_padding, wait_after, write_frame_with_morphing,
}

-- `crypto/rand` fills the slice that it is given.
abbrev pub Fills : (ℕ → List ℕ) → Type 0
Fills noise = (n : ℕ) → length (noise n) ≡ n

pub length-add_padding :
    (noise : ℕ → List ℕ) (bytes : List ℕ) (t : ℕ)
    → Fills noise
    → length (add_padding noise bytes (pos (suc t))) ≡ suc t
unfolding add_padding
length-add_padding noise bytes t fills = ground (
  arith,
  length-take (suc t) bytes,
  fills (suc t - length bytes),
  length-append bytes (noise (suc t - length bytes)),
)

-- The two branches for a positive target.
add_padding_long :
    (noise : ℕ → List ℕ) (bytes : List ℕ) (t : ℕ)
    → suc t ≤ length bytes
    → add_padding noise bytes (pos (suc t)) ≡ take (suc t) bytes
unfolding add_padding
add_padding_long noise bytes t h = ground arith

add_padding_short :
    (noise : ℕ → List ℕ) (bytes : List ℕ) (t : ℕ)
    → length bytes ≤ t
    → add_padding noise bytes (pos (suc t)) ≡ bytes ++ noise (suc t - length bytes)
unfolding add_padding
add_padding_short noise bytes t h = ground arith

take-add_padding_fits :
    (noise : ℕ → List ℕ) (bytes : List ℕ) (t : ℕ)
    → length bytes ≤ suc t
    → take (length bytes) (add_padding noise bytes (pos (suc t))) ≡ bytes
take-add_padding_fits noise bytes t h = elim (dec_le (length bytes) t) [
  | yes short ↦ rw (add_padding_short noise bytes t short) (take-append bytes _)
  | no exact ↦
      rw (add_padding_long noise bytes t (omega arith), take_all (suc t) bytes (omega arith))
        (take_all (length bytes) bytes (omega arith))
]

-- The payload is a prefix of the padded one exactly when it is no longer than the target.
take-add_padding :
    (noise : ℕ → List ℕ) (bytes : List ℕ) (t : ℕ)
    → Fills noise
    → (take (length bytes) (add_padding noise bytes (pos (suc t))) ≡ bytes) ↔ (length bytes ≤ suc t)
take-add_padding noise bytes t fills = (forth, take-add_padding_fits noise bytes t)
  where
    forth :
        take (length bytes) (add_padding noise bytes (pos (suc t))) ≡ bytes → length bytes ≤ suc t
    forth e = omega (
      arith,
      ap length e,
      length-take (length bytes) (add_padding noise bytes (pos (suc t))),
      length-add_padding noise bytes t fills,
    )

module _ (fl : Float) (a : Aead) (noise : ℕ → List ℕ) where
  open fl use {Carrier}

  -- Under a profile whose next sample is positive and within the frame limit, a morphed write on an
  -- output with room for it succeeds and appends one frame of the given type whose payload has
  -- exactly the sampled size, whatever the length of the payload given; and that payload begins
  -- with the one given exactly when the latter is no longer than the sample.
  pub write_frame_with_morphing-encoded :
      IsAead a
      → Fills noise
      → (s : Session) (w : Wire) (frame_type : ℕ) (payload : List ℕ) (p : TrafficProfile Carrier)
        (x y : Carrier) (t : ℕ)
      → (get_packet_size fl p x).0 ≡ pos (suc t)
      → suc t ≤ max_payload
      → 32 + t ≤ w.room
      → (f : Frame) × (w' : Wire) × ((write_frame_with_morphing fl a noise s w frame_type payload
            (some p)
            x
            y).result
          ≡ ok tt w')
        × (w'.written ≡ w.written ++ encoded a s.key s.write_nonce_count f)
        × (f.frame_type ≡ frame_type)
        × (length f.payload ≡ suc t)
        × ((take (length payload) f.payload ≡ payload) ↔ (length payload ≤ suc t))
  unfolding write_frame_with_morphing wait_after
  write_frame_with_morphing-encoded law fills s w frame_type payload p x y t e small room =
      let f : Frame = record {
        frame_type = frame_type;
        payload = add_padding noise payload (pos (suc t));
      } in
      let size = length-add_padding noise payload t fills in
      let bytes = encoded a s.key s.write_nonce_count f in
      let long = length-encoded law s.key s.write_nonce_count f in
      let wrote = write_frame-encoded law s f w (omega (arith, size)) (omega (arith, size, long)) in
      (
        f,
        record { written = w.written ++ bytes; room = w.room - length bytes },
        rw (e, wrote) refl,
        refl,
        refl,
        size,
        take-add_padding noise payload t fills,
      )
