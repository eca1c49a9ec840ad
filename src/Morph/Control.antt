-- ===== src/Morph/Control.antt =====
-- proxy/reflex/morph.go: `ApplyControlFrame`, from the bytes of a control frame to the next sample.
use reflex_network_project.Prelude.{
  ℕ, ◌*◌, ◌^◌, ◌≤◌, ◌<◌, ◌≡◌, ◌⊎◌, ◌≢◌, some, List, ◌++◌, arith, length, length-append,
}
use reflex_network_project.Prelude.Int.{pos, to_i64}
use reflex_network_project.Prelude.Bytes.{
  put_uint16, put_uint64, uint16-put_uint16, uint64-put_uint64, length-put_uint16,
  length-put_uint64,
}
use reflex_network_project.Session.{frame_type_padding_ctrl, frame_type_timing_ctrl}
use reflex_network_project.Morph.{
  Float, TrafficProfile, zero_ℤ, get_packet_size, get_delay, apply_control_frame, millisecond,
  set_next_packet_size, set_next_delay,
}

-- A control frame with a short payload, and a frame of any other type, leave the profile alone.
pub apply_control_frame_ignored :
    {W : Type 0} (p : TrafficProfile W) (frame_type : ℕ) (payload : List ℕ)
    → ((frame_type ≡ frame_type_padding_ctrl) × (length payload < 2))
      ⊎ ((frame_type ≡ frame_type_timing_ctrl) × (length payload < 8))
      ⊎ ((frame_type ≢ frame_type_padding_ctrl) × (frame_type ≢ frame_type_timing_ctrl))
    → apply_control_frame (some p) frame_type payload ≡ some p
unfolding apply_control_frame
apply_control_frame_ignored p frame_type payload h = ground arith

apply_padding_ctrl :
    {W : Type 0} (p : TrafficProfile W) (n : ℕ) (rest : List ℕ)
    → n < 2 ^ 16
    → apply_control_frame (some p) frame_type_padding_ctrl (put_uint16 n ++ rest)
      ≡ some (record p { next_packet_size = pos n })
unfolding apply_control_frame set_next_packet_size
apply_padding_ctrl p n rest h =
    ground
      (arith, uint16-put_uint16 n rest h, length-append (put_uint16 n) rest, length-put_uint16 n)

apply_timing_ctrl :
    {W : Type 0} (p : TrafficProfile W) (ms : ℕ) (rest : List ℕ)
    → ms < 2 ^ 64
    → apply_control_frame (some p) frame_type_timing_ctrl (put_uint64 ms ++ rest)
      ≡ some (record p { next_delay = to_i64 (ms * millisecond) })
unfolding apply_control_frame set_next_delay
apply_timing_ctrl p ms rest h =
    ground
      (arith, uint64-put_uint64 ms rest h, length-append (put_uint64 ms) rest, length-put_uint64 ms)

module _ (fl : Float) where
  open fl use {Carrier}

  -- A padding frame for a positive two-byte size fixes the next packet size, once: the sample after
  -- it is that size whatever the draw, and the profile is then as it was, with no override.
  pub get_packet_size-padding_ctrl :
      (p : TrafficProfile Carrier) (n : ℕ) (rest : List ℕ) (draw : Carrier)
      → 0 < n
      → n < 2 ^ 16
      → (q : TrafficProfile Carrier) × (apply_control_frame
            (some p)
            frame_type_padding_ctrl
            (put_uint16 n ++ rest)
          ≡ some q)
        × (get_packet_size fl q draw ≡ (pos n, record p { next_packet_size = zero_ℤ }))
  unfolding get_packet_size
  get_packet_size-padding_ctrl p n rest draw h fits =
      (record p { next_packet_size = pos n }, apply_padding_ctrl p n rest fits, ground arith)

  -- A timing frame for 1 to 9223372036854 milliseconds fixes the next delay, once, in nanoseconds.
  pub get_delay-timing_ctrl :
      (p : TrafficProfile Carrier) (ms : ℕ) (rest : List ℕ) (draw : Carrier)
      → 0 < ms
      → ms ≤ 9223372036854
      → (q : TrafficProfile Carrier) × (apply_control_frame
            (some p)
            frame_type_timing_ctrl
            (put_uint64 ms ++ rest)
          ≡ some q)
        × (get_delay fl q draw ≡ (pos (ms * millisecond), record p { next_delay = zero_ℤ }))
  unfolding get_delay
  get_delay-timing_ctrl p ms rest draw h fits = (
    record p { next_delay = to_i64 (ms * millisecond) },
    apply_timing_ctrl p ms rest (omega arith),
    ground arith,
  )

  -- From 9223372036855 to 18446744073709 milliseconds the product is negative in 64 bits: the next
  -- delay is then the one that a profile without an override gives.
  pub get_delay-timing_ctrl_wraps :
      (p : TrafficProfile Carrier) (ms : ℕ) (rest : List ℕ) (draw : Carrier)
      → 9223372036855 ≤ ms
      → ms ≤ 18446744073709
      → (q : TrafficProfile Carrier) × (apply_control_frame
            (some p)
            frame_type_timing_ctrl
            (put_uint64 ms ++ rest)
          ≡ some q)
        × ((get_delay fl q draw).0 ≡ (get_delay fl (record p { next_delay = zero_ℤ }) draw).0)
  unfolding get_delay
  get_delay-timing_ctrl_wraps p ms rest draw lo hi = (
    record p { next_delay = to_i64 (ms * millisecond) },
    apply_timing_ctrl p ms rest (omega arith),
    ground arith,
  )
