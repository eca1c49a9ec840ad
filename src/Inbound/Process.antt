-- ===== src/Inbound/Process.antt =====
-- proxy/reflex/inbound/inbound.go: `Process`, from the first peeked bytes of a connection to the
-- handler that it goes to.
use reflex_network_project.Prelude.{
  ℕ, Option, some, List, ltb, leb, ◌&&◌, ◌==◌, if◌then◌else◌, length, take,
}
use reflex_network_project.Prelude.Bytes.{uint32}
use reflex_network_project.Io.{ok, err}
use reflex_network_project.Morph.{Float}
use reflex_network_project.Inbound.{Handler}
use reflex_network_project.Inbound.Detect.{
  reflex_magic, reflex_min_handshake_size, is_reflex_handshake, is_http_post_like,
}
use reflex_network_project.Inbound.Handshake.{read_magic_handshake}
use reflex_network_project.Inbound.HttpRequest.{read_http_handshake}
use reflex_network_project.Inbound.Server.{
  Env, Conn, Answered, refused, process_handshake, session_end,
}
use reflex_network_project.Inbound.Fallback.{Fallback, handle_fallback}

pub data Processed (A : Type 0) : Type 0 where
  answered : A → Processed A
  fell_back : Fallback → Processed A

module _ (fl : Float) (env : Env fl.Carrier) (dial : ℕ → Option (List ℕ)) where
  open fl use {Carrier}

  -- `handleReflexMagic` and `handleReflexHTTP`.
  unfoldable pub handle_reflex_magic : Handler Carrier → Conn → Answered fl env
  handle_reflex_magic h c = elim (read_magic_handshake c.input) [
    | err e st ↦ refused (record c { input = st }) (some e)
    | ok hs st ↦ process_handshake fl env h hs (record c { input = st })
  ]

  unfoldable pub handle_reflex_http : Handler Carrier → Conn → Answered fl env
  handle_reflex_http h c = elim (read_http_handshake env.unmarshal_data env.decode_base64 c.input) [
    | err e st ↦ refused (record c { input = st }) (some e)
    | ok hs st ↦ process_handshake fl env h hs (record c { input = st })
  ]

  -- `Peek` waits for 64 bytes, and gives the input's error where it ends before; it takes nothing.
  unfoldable pub process : Handler Carrier → Conn → Processed (Answered fl env)
  process h c =
      let peeked = take reflex_min_handshake_size c.input.pending in
      let fallback = fell_back (handle_fallback dial h.fallback c) in
      if ltb (length c.input.pending) reflex_min_handshake_size
      then answered (refused c (session_end fl env c.input.closing))
      else if is_reflex_handshake peeked
      then (if leb 4 (length peeked) && (uint32 (take 4 peeked) == reflex_magic)
          then answered (handle_reflex_magic h c)
          else if is_http_post_like peeked
          then answered (handle_reflex_http h c)
          else fallback)
      else fallback
