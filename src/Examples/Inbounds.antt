-- ===== src/Examples/Inbounds.antt =====
-- Runs of proxy/reflex/inbound/inbound.go.
use reflex_network_project.Prelude.{
  ℕ, ◌≤◌, ◌≡◌, ◌↔◌, ◌⊎◌, inl, inr, refl, true, false, Option, some, none, List, [], ◌∷◌, ◌++◌,
  arith, length, replicate, take,
}
use reflex_network_project.Prelude.Int.{pos, ◌+ℤ◌, ◌-ℤ◌}
use reflex_network_project.Prelude.Bytes.{put_uint16, put_uint64, uint32}
use reflex_network_project.Io.{Error, ok, Wire, feed}
use reflex_network_project.Session.{Session}
use reflex_network_project.Session.Frames.{encoded}
use reflex_network_project.Session.RoundTrip.{encodings, write_frames}
use reflex_network_project.Inbound.{new_handler}
use reflex_network_project.Inbound.Detect.{
  codes, is_http_post_like, contains_http_version, is_http_post_like_iff, LooksLikePost,
}
use reflex_network_project.Inbound.Handshake.{
  WellSized, handshake_of, packet_back, read_magic_handshake, read_magic_handshake-packet,
}
use reflex_network_project.Inbound.Server.{
  Conn, Serving, served, refused, process_handshake, handle_session, marshal_server_handshake,
  ok_header, derive_session_key,
}
use reflex_network_project.Inbound.Server.Answer.{
  IsFresh, Registered, process_handshake-served, process_handshake-accepts,
}
use reflex_network_project.Inbound.Server.Relay.{sent_list, handle_session-write_frames}
use reflex_network_project.Inbound.Process.{process, answered}
use reflex_network_project.Inbound.Routing.{process-post}
use reflex_network_project.Inbound.Client.{
  Conversation, handshake, IsReady, connection, process-client,
}
use reflex_network_project.Examples.Setup.{
  toy_float, toy_aead, toy_aead-IsAead, env, env-Dispatches, config, key, private_key, user_id,
  fresh_session, frames,
}

abbrev dial : ℕ → Option (List ℕ)
dial port = some (1 ∷ 2 ∷ 3 ∷ [])

abbrev conversation : Conversation
conversation = record {
  public_key = replicate 32 3;
  user_id = user_id;
  timestamp = 1100;
  nonce = replicate 16 6;
  policy = 8 ∷ [];
  session = fresh_session;
  frames = frames;
}

sizes : WellSized (replicate 32 3) user_id 1100 (replicate 16 6)
sizes = record { key_32 = refl; id_16 = refl; timestamp_64 = omega arith; nonce_16 = refl }

ready : IsReady toy_float env private_key conversation
unfolding derive_session_key
ready = record {
  sizes = sizes;
  policy_16 = omega arith;
  key = refl;
  key_32 = refl;
  unused = refl;
  small = (omega arith, (omega arith, (omega arith, tt)));
  few = omega arith;
}

length-frames : length (encodings toy_aead key 0 frames) ≡ 97
unfolding encodings encoded put_uint16 put_uint64
length-frames = refl

abbrev body : List ℕ
body = marshal_server_handshake private_key

answer_fits : length (ok_header body ++ body) ≤ 1000
unfolding marshal_server_handshake ok_header
answer_fits = omega arith

fresh : IsFresh toy_float env (pos 1100)
unfolding ◌+ℤ◌ ◌-ℤ◌
fresh = (omega arith, omega arith)

abbrev output : Wire
output = record { written = []; room = 1000 }

process-client_example :
    (client' : Session) × (w : Wire) × (t : Serving ℕ) × (write_frames toy_aead fresh_session frames
        (record { written = []; room = 200 })
      ≡ (client', ok tt w))
    × (process toy_float env dial
          (new_handler config none)
          (connection toy_float env conversation w.written output)
        ≡ answered (served t none))
    × (t.forwarded ≡ sent_list frames)
    × (t.blocked ≡ false)
process-client_example =
    process-client toy_float env dial toy_aead-IsAead env-Dispatches config none private_key
      conversation ready fresh (inr (inl refl)) refl 200 output (omega (arith, length-frames))
      answer_fits

abbrev server : Serving ℕ
server = record {
  input = feed [] Error.eof;
  output = output;
  session = fresh_session;
  profile = none;
  forwarded = [];
  blocked = false;
}

handle_session-write_frames_example :
    (client' : Session) × (w : Wire) × (t : Serving ℕ) × (write_frames toy_aead fresh_session frames
        (record { written = []; room = 200 })
      ≡ (client', ok tt w))
    × (handle_session toy_float env (record server { input = feed w.written Error.eof })
        ≡ some (t, none))
    × (t.forwarded ≡ sent_list frames)
    × (t.blocked ≡ false)
handle_session-write_frames_example =
    handle_session-write_frames toy_float env toy_aead-IsAead env-Dispatches fresh_session frames
      200 server refl refl refl (omega arith, (omega arith, (omega arith, tt))) (omega arith)
      (inl refl) (omega (arith, length-frames))

abbrev hello : Conn
hello = record { input = feed [] Error.eof; output = output; is_closed = false }

process_handshake-accepts_example :
    (s₀ s : Serving ℕ) × (e : Option Error) × (process_handshake toy_float env
        (new_handler config none)
        (handshake conversation)
        hello
      ≡ served s e)
    × (handle_session toy_float env s₀ ≡ some (s, e))
    × (s₀.input ≡ feed [] Error.eof)
    × (s₀.output.written ≡ ok_header body ++ body)
    × (s₀.session ≡ fresh_session)
    × (s₀.forwarded ≡ [])
    × (s₀.blocked ≡ false)
unfolding derive_session_key
process_handshake-accepts_example =
    process_handshake-accepts toy_float env toy_aead-IsAead config none (handshake conversation)
      hello private_key fresh (inr (inl refl)) refl refl answer_fits

-- A session that was served.
served_run :
    (s : Serving ℕ) × (e : Option Error) × (process_handshake toy_float env
        (new_handler config none)
        (handshake conversation)
        hello
      ≡ served s e)
unfolding derive_session_key
served_run =
    let r =
      process_handshake-accepts toy_float env toy_aead-IsAead config none (handshake conversation)
        hello private_key fresh (inr (inl refl)) refl refl answer_fits in
    (r.1, r.2, r.3)

process_handshake-served_example :
    IsFresh toy_float env (pos 1100) × Registered user_id config.clients
process_handshake-served_example =
    process_handshake-served toy_float env config none (handshake conversation) hello served_run.2

abbrev post : List ℕ
post =
    codes "POST /api HTTP/1.1\r\nHost: example.org\r\nContent-Length: 5\r\nAccept: */*\r\n\r\nhello"

abbrev post_conn : Conn
post_conn = record { input = feed post Error.eof; output = output; is_closed = false }

post_looks : LooksLikePost (take 64 post)
unfolding is_http_post_like contains_http_version
post_looks = (is_http_post_like_iff (take 64 post)).0 refl

process-post_example :
    (c' : Conn) × (e : Error) × (process toy_float env dial (new_handler config none) post_conn
      ≡ answered (refused c' (some e)))
    × (c'.output ≡ output)
    × ((e ≡ Error.invalid_content_length) ⊎ (e ≡ Error.eof))
unfolding uint32
process-post_example =
    process-post toy_float env dial (new_handler config none) post_conn (omega arith) (omega arith)
      post_looks

read_magic_handshake-packet_example :
    read_magic_handshake (
      feed
        (codes "RFXL"
          ++ (packet_back (replicate 32 3) user_id 1100 (replicate 16 6) sizes (8 ∷ [])
              ++ ((8 ∷ []) ++ (7 ∷ []))))
        Error.eof)
    ≡ ok
        (handshake_of (replicate 32 3) user_id 1100 (replicate 16 6) (8 ∷ []))
        (feed (7 ∷ []) Error.eof)
read_magic_handshake-packet_example =
    read_magic_handshake-packet (replicate 32 3) user_id 1100 (replicate 16 6) sizes (codes "RFXL")
      (8 ∷ []) (7 ∷ []) Error.eof refl (omega arith)

is_http_post_like_iff_example : (is_http_post_like post ≡ true) ↔ LooksLikePost post
is_http_post_like_iff_example = is_http_post_like_iff post
