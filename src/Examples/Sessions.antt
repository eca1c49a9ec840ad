-- ===== src/Examples/Sessions.antt =====
-- Runs of proxy/reflex/session.go.
use reflex_network_project.Prelude.{
  ℕ, ◌+◌, ◌≤◌, ◌≡◌, ◌↔◌, inl, refl, true, List, [], ◌∷◌, arith, length,
}
use reflex_network_project.Prelude.Bytes.{put_uint16, put_uint64, uint16, uint64}
use reflex_network_project.Io.{Error, ok, err, Wire, feed, read_full}
use reflex_network_project.Session.{Session, write_frame, read_frame}
use reflex_network_project.Session.Frames.{encoded, max_payload, write_frame-length_iff}
use reflex_network_project.Session.RoundTrip.{
  encodings, write_frames, read_frames, read_frames-write_frames,
}
use reflex_network_project.Session.Replay.{read_frame-read_frames_replay}
use reflex_network_project.Examples.Setup.{toy_aead, toy_aead-IsAead, key, fresh_session, frames}

length_example : length (encodings toy_aead key 0 frames) ≡ 97
unfolding encodings encoded put_uint16 put_uint64
length_example = refl

read_frames-write_frames_example :
    (s' r' : Session) × (w : Wire) × (write_frames toy_aead fresh_session frames
        (record { written = []; room = 1000 })
      ≡ (s', ok tt w))
    × (read_frames toy_aead 3 fresh_session (feed w.written Error.eof)
        ≡ ok (frames, r') (feed [] Error.eof))
read_frames-write_frames_example =
    read_frames-write_frames toy_aead-IsAead fresh_session fresh_session frames 1000 Error.eof refl
      refl (omega arith, (omega arith, (omega arith, tt))) (omega arith) (inl refl)
      (omega (arith, length_example))

abbrev one_frame : List ℕ
one_frame = encoded toy_aead key 4 (record { frame_type = 0; payload = 11 ∷ [] })

abbrev after_one : Session
after_one = record { key = key; write_nonce_count = 0; read_nonce_count = 4; read_seen = true }

abbrev next_frame : List ℕ
next_frame = encoded toy_aead key 6 (record { frame_type = 0; payload = [] })

abbrev after_two : Session
after_two = record { key = key; write_nonce_count = 0; read_nonce_count = 6; read_seen = true }

first_read :
    read_frame toy_aead fresh_session (feed one_frame Error.eof)
    ≡ ok (record { frame_type = 0; payload = 11 ∷ [] }, after_one) (feed [] Error.eof)
unfolding read_frame encoded read_full put_uint16 put_uint64 uint16 uint64
first_read = refl

later_read :
    read_frames toy_aead 1 after_one (feed next_frame Error.eof)
    ≡ ok (record { frame_type = 0; payload = [] } ∷ [], after_two) (feed [] Error.eof)
unfolding read_frames read_frame encoded read_full put_uint16 put_uint64 uint16 uint64
later_read = refl

read_frame-read_frames_replay_example :
    read_frame toy_aead after_two (feed one_frame Error.eof)
    ≡ err Error.replay_detected (feed [] Error.eof)
read_frame-read_frames_replay_example =
    read_frame-read_frames_replay toy_aead 1 fresh_session (feed one_frame Error.eof)
      (feed next_frame Error.eof) first_read later_read

write_frame-length_iff_example :
    (w : Wire) × ((write_frame toy_aead fresh_session 0
        (11 ∷ 22 ∷ [])
        (record { written = []; room = 40 })).1
      ≡ ok tt w)
    × ((2 + uint16 w.written ≡ length w.written) ↔ (2 ≤ max_payload))
write_frame-length_iff_example =
    write_frame-length_iff toy_aead-IsAead fresh_session
      (record { frame_type = 0; payload = 11 ∷ 22 ∷ [] }) 40 (omega arith)
