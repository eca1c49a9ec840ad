-- ===== src/Inbound/Server.antt =====
-- proxy/reflex/inbound/inbound.go: `processHandshake`, `handleSession` and the replies, on the state
-- of one connection.
--
-- `Env` is what the handler calls and this repository does not hold: the AEAD, curve25519, HKDF,
-- UUIDs as text, the clock, randomness, and the dispatcher with the links that it opens. A link is
-- seen as an exchange: the bytes written to it, and what its reader then gives, if it ever does.
mod Environment
pub mod Rounds
pub mod Relay
pub mod Answer
pub use Environment.{Env, Link, Conn, Serving}
use reflex_network_project.Prelude.{
  ℕ, zero, suc, ◌+◌, ◌-◌, ◌*◌, ◌/◌, ◌%◌, Bool, true, false, ◌||◌, Option, none, some, List, [], ◌∷◌,
  ◌++◌, ltb, ◌==◌, if◌then◌else◌, length,
}
use reflex_network_project.Prelude.Int.{ℤ, pos, ltb_ℤ, ◌+ℤ◌, ◌-ℤ◌}
use reflex_network_project.Io.{Error, Outcome, ok, err, ◌>>=◌, ◌>>◌, Stream, Wire, write}
use reflex_network_project.Session.{
  Session, Frame, new_session, read_frame, frame_type_data, frame_type_padding_ctrl,
  frame_type_timing_ctrl,
}
use reflex_network_project.Morph.{
  Float, TrafficProfile, write_frame_with_morphing, apply_control_frame,
}
use reflex_network_project.Buffer
use reflex_network_project.MultiBuffer
use reflex_network_project.Inbound.{Handler, MemoryUser, authenticate_user}
use reflex_network_project.Inbound.Detect.{codes}
use reflex_network_project.Inbound.Handshake.{ClientHandshake}

-- `strconv.Itoa` of a number that is not negative. The number itself is enough fuel.
unfoldable pub itoa_fuel : ℕ → ℕ → List ℕ
itoa_fuel zero n = (b'0' + n % 10) ∷ []
itoa_fuel (suc fuel) n =
    let front = itoa_fuel fuel (n / 10) in
    if ltb n 10 then (b'0' + n) ∷ [] else front ++ ((b'0' + n % 10) ∷ [])

unfoldable pub itoa : ℕ → List ℕ
unfolding itoa_fuel
itoa n = itoa_fuel n n

-- `json.Marshal` of a byte array: its numbers, with commas between.
unfoldable pub json_numbers : List ℕ → List ℕ
unfolding itoa
json_numbers [] = []
json_numbers (b ∷ []) = itoa b
json_numbers (b ∷ c ∷ bs) = itoa b ++ (codes "," ++ json_numbers (c ∷ bs))

-- `json.Marshal(ServerHandshake{serverPub, nil})`
unfoldable pub marshal_server_handshake : List ℕ → List ℕ
unfolding json_numbers
marshal_server_handshake server_pub =
    codes "{\"public_key\":[" ++ (json_numbers server_pub ++ codes "],\"policy_grant\":null}")

abbrev pub json_header : List ℕ → List ℕ → List ℕ
json_header status body =
    status
    ++ (codes "Content-Type: application/json\r\nContent-Length: "
        ++ (itoa (length body) ++ codes "\r\n\r\n"))

unfoldable pub ok_header : List ℕ → List ℕ
unfolding itoa
ok_header body = json_header (codes "HTTP/1.1 200 OK\r\n") body

unfoldable pub error_body : List ℕ → List ℕ
error_body reason = codes "{\"error\":\"" ++ (reason ++ codes "\"}")

-- `writeHTTPErrorAndClose`: the connection is closed on every path. `conn.Close()` gives no error.
unfoldable pub write_http_error_and_close : List ℕ → Conn → Conn × Option Error
unfolding error_body itoa
write_http_error_and_close reason c =
    let body = error_body reason in
    let header = json_header (codes "HTTP/1.1 403 Forbidden\r\n") body in
    elim ((write header >> write body) c.output) [
      | err e w ↦ (record c { output = w; is_closed = true }, some e)
      | ok _ w ↦ (record c { output = w; is_closed = true }, none)
    ]

module _ (fl : Float) (env : Env fl.Carrier) where
  open fl use {Carrier}

  -- The answer of a link, as one frame; its write error is ignored. The draws of the round are the
  -- two behind the number of the round.
  unfoldable pub reply : ℕ → List ℕ → Serving Carrier → Serving Carrier
  reply round bytes s =
      let m =
        write_frame_with_morphing fl env.aead env.noise s.session s.output frame_type_data bytes
          s.profile (env.draws (2 * round)) (env.draws (2 * round + 1)) in
      let output : Wire = elim m.result [ ok _ w ↦ w | err _ w ↦ w ] in
      record s { session = m.session; profile = m.profile; output = output }

  -- What the link gives back goes to the client, if there is any.
  unfoldable pub relay_answer :
      ℕ → Option MultiBuffer.MultiBuffer → Serving Carrier → Serving Carrier
  unfolding reply
  relay_answer round none s = s
  relay_answer round (some mb) s =
      if MultiBuffer.is_empty mb
      then s
      else reply round (MultiBuffer.copy mb (MultiBuffer.len mb)) s

  -- `link.Reader.ReadMultiBuffer()`, which may never return.
  unfoldable pub after_read :
      ℕ → Option (Option MultiBuffer.MultiBuffer) → Serving Carrier → Serving Carrier
  unfolding relay_answer
  after_read round none s = record s { blocked = true }
  after_read round (some answer) s = relay_answer round answer s

  -- What a new buffer holds of the payload goes to the link that was opened, if any was.
  unfoldable pub forward : ℕ → List ℕ → Option Link → Serving Carrier → Serving Carrier
  unfolding after_read
  forward round payload none s = s
  forward round payload (some link) s =
      let sent = Buffer.bytes (Buffer.write (Buffer.new env.memory) payload).0 in
      after_read round (link sent) (record s { forwarded = s.forwarded ++ (sent ∷ []) })

  -- A data frame; with no dispatcher it is dropped.
  unfoldable pub handle_data :
      Option (ℕ → Option Link) → ℕ → List ℕ → Serving Carrier → Serving Carrier
  unfolding forward
  handle_data none round payload s = s
  handle_data (some dispatch) round payload s = forward round payload (dispatch round) s

  unfoldable pub handle_frame : ℕ → Frame → Serving Carrier → Serving Carrier
  unfolding handle_data
  handle_frame round f s =
      if f.frame_type == frame_type_data
      then handle_data env.dispatcher round f.payload s
      else if (f.frame_type == frame_type_padding_ctrl) || (f.frame_type == frame_type_timing_ctrl)
      then record s { profile = apply_control_frame s.profile f.frame_type f.payload }
      else s

  -- `if err == io.EOF { return nil }; return err`
  abbrev pub session_end : Error → Option Error
  session_end Error.eof = none
  session_end e = some e

  -- The loop of `handleSession`, with the error that it returns; it has not returned where the
  -- state is `blocked`. The outer `none` means that the fuel ran out.
  unfoldable pub session_loop : ℕ → ℕ → Serving Carrier → Option (Serving Carrier × Option Error)
  session_loop zero round s = none
  session_loop (suc fuel) round s = elim (read_frame env.aead s.session s.input) [
    | err e st ↦ some (record s { input = st }, session_end e)
    | ok (f, session') st ↦
        let s' = handle_frame round f (record s { session = session'; input = st }) in
        let rest = session_loop fuel (round + 1) s' in if s'.blocked then some (s', none) else rest
  ]

  -- A frame takes two bytes at least, so more fuel than there are bytes is enough.
  unfoldable pub handle_session : Serving Carrier → Option (Serving Carrier × Option Error)
  unfolding session_loop
  handle_session s = session_loop (length s.input.pending + 1) 0 s

  -- `clientHS.Timestamp < now-300 || clientHS.Timestamp > now+300`
  unfoldable pub is_stale : ℤ → Bool
  unfolding ◌+ℤ◌ ◌-ℤ◌
  is_stale timestamp = ltb_ℤ timestamp (env.now -ℤ pos 300) || ltb_ℤ (env.now +ℤ pos 300) timestamp

  unfoldable pub derive_session_key : List ℕ → ClientHandshake → List ℕ
  derive_session_key server_priv hs =
      env.hkdf (env.scalar_mult server_priv hs.public_key) hs.nonce (codes "reflex-session")

  -- What a handshake leaves: the connection, the session's state if it came to one, and the error.
  pub data Answered : Type 0 where
    -- The handshake ended before a session.
    refused : Conn → Option Error → Answered
    -- The session ran to its end, or stands in a read that never returns.
    served : Serving Carrier → Option Error → Answered
    out_of_fuel : Answered

  abbrev pub finished : Option (Serving Carrier × Option Error) → Answered
  finished none = out_of_fuel
  finished (some (s, e)) = served s e

  -- From the reply on: the header, the body, and the session.
  unfoldable pub start_session : Handler Carrier → List ℕ → List ℕ → Conn → Answered
  start_session h server_pub session_key c =
      let body = marshal_server_handshake server_pub in
      elim ((write (ok_header body) >> write body) c.output) [
        | err e w ↦ refused (record c { output = w }) (some e)
        | ok _ w ↦ elim (new_session env.aead session_key) [
          | none ↦ refused (record c { output = w }) (some Error.bad_key_length)
          | some session ↦ finished (
              handle_session (record {
                input = c.input;
                output = w;
                session = session;
                profile = h.default_profile;
                forwarded = [];
                blocked = false;
              }))
        ]
      ]

  abbrev pub closed_with : Conn × Option Error → Answered
  closed_with (c, e) = refused c e

  unfoldable pub process_handshake : Handler Carrier → ClientHandshake → Conn → Answered
  process_handshake h hs c =
      if is_stale hs.timestamp
      then closed_with (write_http_error_and_close (codes "invalid timestamp") c)
      else elim env.entropy [
        | none ↦ refused c (some (Error.failure 1))
        | some server_priv ↦ elim (authenticate_user h.clients (env.uuid_text hs.user_id)) [
          | none ↦ closed_with (write_http_error_and_close (codes "forbidden") c)
          | some user ↦
              start_session h (env.scalar_base_mult server_priv) (derive_session_key server_priv hs)
                c
        ]
      ]
