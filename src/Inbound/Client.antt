-- ===== src/Inbound/Client.antt =====
-- proxy/reflex/inbound/inbound.go: a whole conversation, from the client's handshake and frames to
-- what the dispatcher is sent.
use reflex_network_project.Prelude.{
  ℕ, ◌+◌, ◌-◌, ◌^◌, ◌≤◌, ◌<◌, ◌≡◌, refl, ap, ◌∙◌, sym, inl, false, Option, none, some, List, [],
  ◌++◌, arith, length, All, length-append,
}
use reflex_network_project.Prelude.Bytes.{put_uint16}
use reflex_network_project.Io.{Error, ok, Wire, feed}
use reflex_network_project.Session.{IsAead, Session, Frame}
use reflex_network_project.Session.RoundTrip.{
  IsSmall, encodings, write_frames, write_frames-encodings,
}
use reflex_network_project.Morph.{Float, TrafficProfile}
use reflex_network_project.Inbound.{InboundConfig, new_handler}
use reflex_network_project.Inbound.Detect.{codes}
use reflex_network_project.Inbound.Handshake.{
  ClientHandshake, WellSized, read_magic_handshake, handshake_of, packet_front,
  read_magic_handshake-packet, length-front,
}
use reflex_network_project.Inbound.Server.{
  Env, Conn, Serving, served, finished, process_handshake, derive_session_key,
  marshal_server_handshake, ok_header,
}
use reflex_network_project.Inbound.Server.Answer.{IsFresh, Registered, process_handshake-accepts}
use reflex_network_project.Inbound.Server.Relay.{Dispatches, sent_list, handle_session-encodings}
use reflex_network_project.Inbound.Process.{answered, process, handle_reflex_magic}
use reflex_network_project.Inbound.Routing.{letters-HasMagic, process_magic}

-- What the client of a conversation has: its packet's fields, its private side's shared session, the
-- frames that it will send.
pub record Conversation : Type 0 where
  pub public_key : List ℕ
  pub user_id : List ℕ
  pub timestamp : ℕ
  pub nonce : List ℕ
  pub policy : List ℕ
  pub session : Session
  pub frames : List Frame

abbrev pub handshake : Conversation → ClientHandshake
handshake k = handshake_of k.public_key k.user_id k.timestamp k.nonce k.policy

module _ (fl : Float) (env : Env fl.Carrier) where
  open fl use {Carrier}

  -- The sizes of the packet; the session is new and has the key that the server derives; the frames
  -- are within the limits.
  pub record IsReady (priv : List ℕ) (k : Conversation) : Type 0 where
    pub sizes : WellSized k.public_key k.user_id k.timestamp k.nonce
    pub policy_16 : length k.policy < 2 ^ 16
    pub key : k.session.key ≡ derive_session_key fl env priv (handshake k)
    pub key_32 : length (derive_session_key fl env priv (handshake k)) ≡ 32
    pub unused : k.session.write_nonce_count ≡ 0
    pub small : All IsSmall k.frames
    pub few : length k.frames < 2 ^ 64

  -- What the client sends, with the bytes of its frames.
  abbrev pub sends : Conversation → List ℕ → List ℕ
  sends k frame_bytes =
      codes "RFXL"
      ++ ((packet_front k.public_key k.user_id k.timestamp k.nonce ++ put_uint16 (length k.policy))
          ++ (k.policy ++ frame_bytes))

  -- The connection that the client opens, writes to and closes, and an output with room.
  abbrev pub connection : Conversation → List ℕ → Wire → Conn
  connection k frame_bytes output = record {
    input = feed (sends k frame_bytes) Error.eof;
    output = output;
    is_closed = false;
  }

  module _ (dial : ℕ → Option (List ℕ)) (law : IsAead env.aead) (d : Dispatches env)
      (config : InboundConfig) (p : Option (TrafficProfile Carrier)) (priv : List ℕ)
      (k : Conversation) (ready : IsReady priv k) where
    read_packet :
        (bytes : List ℕ)
        → read_magic_handshake (feed (sends k bytes) Error.eof)
          ≡ ok (handshake k) (feed bytes Error.eof)
    read_packet bytes =
        read_magic_handshake-packet k.public_key k.user_id k.timestamp k.nonce ready.sizes
          (codes "RFXL") k.policy bytes Error.eof refl ready.policy_16

    long_enough : (bytes : List ℕ) → 64 ≤ length (sends k bytes)
    long_enough bytes =
        let front = packet_front k.public_key k.user_id k.timestamp k.nonce in
        omega (
          arith,
          length-append (codes "RFXL")
              ((front ++ put_uint16 (length k.policy)) ++ (k.policy ++ bytes)),
          length-append (front ++ put_uint16 (length k.policy)) (k.policy ++ bytes),
          length-append front (put_uint16 (length k.policy)),
          length-front k.public_key k.user_id k.timestamp k.nonce ready.sizes,
        )

    process-packet :
        (bytes : List ℕ) (output : Wire)
        → process fl env dial (new_handler config p) (connection k bytes output)
          ≡ answered (
              process_handshake fl env
                (new_handler config p)
                (handshake k)
                (record { input = feed bytes Error.eof; output = output; is_closed = false }))
    unfolding handle_reflex_magic
    process-packet bytes output =
        process_magic fl env dial (new_handler config p) (connection k bytes output)
          (long_enough bytes) (letters-HasMagic (connection k bytes output) _ refl)
        ∙ ap answered (rw (read_packet bytes, handle_reflex_magic) refl)

    -- A client of the configuration sends a fresh handshake, whose fields have their widths and whose
    -- policy is shorter than 2^16 bytes, then fewer than 2^64 frames of at most 65506 bytes of
    -- payload under a new session with the key that the server derives, which has 32 bytes, and
    -- closes the connection. The server draws its private key, both outputs have room for what is
    -- written, a new buffer has 8192 bytes at least, each dispatch opens a link, and the reader of
    -- each link returns. Then the client's writes succeed, Process serves the connection to its end
    -- without an error, and the links are sent the first 8192 bytes of each data frame's payload, in
    -- order, and nothing else.
    pub process-client :
        IsFresh fl env (handshake k).timestamp
        → Registered (env.uuid_text k.user_id) config.clients
        → env.entropy ≡ some priv
        → (room : ℕ) (output : Wire)
        → length (encodings env.aead k.session.key k.session.write_nonce_count k.frames) ≤ room
        → (let body = marshal_server_handshake (env.scalar_base_mult priv) in
            length (ok_header body ++ body) ≤ output.room)
        → (client' : Session) × (w : Wire) × (t : Serving Carrier) × (write_frames env.aead
              k.session k.frames
              (record { written = []; room = room })
            ≡ (client', ok tt w))
          × (process fl env dial (new_handler config p) (connection k w.written output)
              ≡ answered (served t none))
          × (t.forwarded ≡ sent_list k.frames)
          × (t.blocked ≡ false)
    process-client fresh known drawn room output enough answer_room =
        let c = k.session.write_nonce_count in
        let bytes = encodings env.aead k.session.key c k.frames in
        let conn : Conn = record {
          input = feed bytes Error.eof;
          output = output;
          is_closed = false;
        } in
        let (s₀, s, e, accepted, ran, input, _, session, nothing, running) =
          process_handshake-accepts fl env law config p (handshake k) conn priv fresh known drawn
            ready.key_32 answer_room in
        let key : s₀.session.key ≡ k.session.key =
          ap (λ (x : Session). x.key) session ∙ sym ready.key in
        let (t, ended, sent, runs) =
          handle_session-encodings fl env law d k.frames c s₀ running
            (input ∙ ap (λ x. feed (encodings env.aead x c k.frames) Error.eof) (sym key))
            (ap (λ (x : Session). length x.key) session ∙ ready.key_32) ready.small
            (omega (arith, ready.few, ready.unused))
            (inl (ap (λ (x : Session). x.read_seen) session)) in
        (
          record k.session { write_nonce_count = c + length k.frames },
          record { written = bytes; room = room - length bytes },
          t,
          write_frames-encodings law k.session k.frames (record { written = []; room = room })
              ready.small (omega (arith, ready.few, ready.unused)) enough,
          process-packet bytes output
              ∙ ap answered (accepted ∙ ap (finished fl env) (sym ran ∙ ended)),
          sent ∙ ap (λ xs. xs ++ sent_list k.frames) nothing,
          runs,
        )
