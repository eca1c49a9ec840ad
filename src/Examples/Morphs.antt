-- ===== src/Examples/Morphs.antt =====
-- Runs of proxy/reflex/morph.go.
use reflex_network_project.Prelude.{
  ℕ, ◌≤◌, ◌≡◌, ◌↔◌, refl, some, List, [], ◌∷◌, ◌++◌, arith, length, take,
}
use reflex_network_project.Prelude.Int.{ℤ, pos}
use reflex_network_project.Prelude.Bytes.{put_uint64}
use reflex_network_project.Io.{ok, Wire}
use reflex_network_project.Session.{Frame, frame_type_timing_ctrl}
use reflex_network_project.Session.Frames.{encoded}
use reflex_network_project.Morph.{
  TrafficProfile, zero_ℤ, sample, get_packet_size, get_delay, apply_control_frame,
  write_frame_with_morphing, calculate_distribution,
}
use reflex_network_project.Morph.Padding.{write_frame_with_morphing-encoded}
use reflex_network_project.Morph.Control.{get_delay-timing_ctrl_wraps}
use reflex_network_project.Morph.Capture.{
  Increasing, weight_of, share, occurrences, calculate_distribution_lem,
}
use reflex_network_project.Examples.Setup.{
  toy_float, toy_aead, toy_aead-IsAead, zeros, zeros-Fills, fresh_session, key,
}

abbrev profile : TrafficProfile ℕ
profile = record {
  name = [];
  packet_sizes = record { value = pos 5; weight = 1 } ∷ record { value = pos 3; weight = 2 } ∷ [];
  delays = record { value = pos 10; weight = 1 } ∷ [];
  next_packet_size = zero_ℤ;
  next_delay = zero_ℤ;
}

-- The second bucket is drawn.
draw_three : get_packet_size toy_float profile 3 ≡ (pos 3, profile)
unfolding get_packet_size sample
draw_three = refl

write_frame_with_morphing-encoded_example :
    (f : Frame) × (w' : Wire) × ((write_frame_with_morphing toy_float toy_aead zeros fresh_session
        (record { written = []; room = 100 })
        0
        (1 ∷ 2 ∷ 3 ∷ 4 ∷ [])
        (some profile)
        3
        0).result
      ≡ ok tt w')
    × (w'.written ≡ encoded toy_aead key 0 f)
    × (f.frame_type ≡ 0)
    × (length f.payload ≡ 3)
    × ((take 4 f.payload ≡ 1 ∷ 2 ∷ 3 ∷ 4 ∷ []) ↔ (4 ≤ 3))
write_frame_with_morphing-encoded_example =
    write_frame_with_morphing-encoded toy_float toy_aead zeros toy_aead-IsAead zeros-Fills
      fresh_session (record { written = []; room = 100 }) 0 (1 ∷ 2 ∷ 3 ∷ 4 ∷ []) profile 3 0 2
      (unfold get_packet_size sample in refl) (omega arith) (omega arith)

get_delay-timing_ctrl_wraps_example :
    (q : TrafficProfile ℕ) × (apply_control_frame
        (some profile)
        frame_type_timing_ctrl
        (put_uint64 9223372036855 ++ [])
      ≡ some q)
    × ((get_delay toy_float q 0).0 ≡ (get_delay toy_float profile 0).0)
get_delay-timing_ctrl_wraps_example =
    get_delay-timing_ctrl_wraps toy_float profile 9223372036855 [] 0 (omega arith) (omega arith)

abbrev capture : List ℤ
capture = pos 7 ∷ pos 2 ∷ pos 7 ∷ []

calculate_distribution_lem_example :
    Increasing (calculate_distribution toy_float capture)
    × ((v : ℤ)
        → weight_of v (calculate_distribution toy_float capture)
          ≡ share toy_float 3 (occurrences v capture))
calculate_distribution_lem_example = calculate_distribution_lem toy_float capture
