-- ===== src/Inbound/Routing.antt =====
-- proxy/reflex/inbound/inbound.go: where `Process` sends a connection, and what becomes of it there.
use reflex_network_project.Prelude.{
  ℕ, ◌≤◌, ◌≡◌, refl, ap, ◌∙◌, ◌⊎◌, true, Option, some, List, ◌++◌, arith, length, take, length-take,
}
use reflex_network_project.Prelude.Bytes.{uint32}
use reflex_network_project.Io.{Error}
use reflex_network_project.Morph.{Float}
use reflex_network_project.Inbound.{Handler}
use reflex_network_project.Inbound.Detect.{
  codes, reflex_magic, reflex_min_handshake_size, is_reflex_magic, is_reflex_handshake,
  is_http_post_like, LooksLikePost, is_http_post_like_iff,
}
use reflex_network_project.Inbound.HttpRequest.{read_http_handshake_fails}
use reflex_network_project.Inbound.Server.{Env, Conn, refused}
use reflex_network_project.Inbound.Process.{
  answered, process, handle_reflex_magic, handle_reflex_http,
}

-- The first 64 bytes, which `Process` peeks at.
abbrev pub peeked : Conn → List ℕ
peeked c = take reflex_min_handshake_size c.input.pending

-- The magic number stands in front of the peeked bytes.
abbrev pub HasMagic : List ℕ → Type 0
HasMagic bs = uint32 (take 4 bs) ≡ reflex_magic

module _ (fl : Float) (env : Env fl.Carrier) (dial : ℕ → Option (List ℕ)) where
  open fl use {Carrier}

  length-peeked : (c : Conn) → 64 ≤ length c.input.pending → length (peeked c) ≡ 64
  length-peeked c h = omega (arith, length-take reflex_min_handshake_size c.input.pending)

  pub process_magic :
      (h : Handler Carrier) (c : Conn)
      → 64 ≤ length c.input.pending
      → HasMagic (peeked c)
      → process fl env dial h c ≡ answered (handle_reflex_magic fl env dial h c)
  unfolding process is_reflex_handshake is_reflex_magic
  process_magic h c long magic = ground (arith, length-peeked c long)

  process_post :
      (h : Handler Carrier) (c : Conn)
      → 64 ≤ length c.input.pending
      → ¬ HasMagic (peeked c)
      → is_http_post_like (peeked c) ≡ true
      → process fl env dial h c ≡ answered (handle_reflex_http fl env dial h c)
  unfolding process is_reflex_handshake is_reflex_magic
  process_post h c long magic post = ground (arith, length-peeked c long)

  -- A connection whose first 64 bytes are there, do not begin with the magic number, and look like an
  -- HTTP POST never gets a session: Process ends in "invalid content length" or in the error of the
  -- connection's input, and has written nothing to the client.
  pub process-post :
      (h : Handler Carrier) (c : Conn)
      → 64 ≤ length c.input.pending
      → ¬ HasMagic (peeked c)
      → LooksLikePost (peeked c)
      → (c' : Conn) × (e : Error) × (process fl env dial h c ≡ answered (refused c' (some e)))
        × (c'.output ≡ c.output)
        × ((e ≡ Error.invalid_content_length) ⊎ (e ≡ c.input.closing))
  unfolding handle_reflex_http
  process-post h c long magic post =
      let (e, t, failed, why) =
        read_http_handshake_fails env.unmarshal_data env.decode_base64 c.input in
      (
        record c { input = t },
        e,
        process_post h c long magic ((is_http_post_like_iff (peeked c)).1 post)
            ∙ ap answered (rw (failed, handle_reflex_http) refl),
        refl,
        why,
      )

pub letters-HasMagic :
    (c : Conn) (rest : List ℕ) → c.input.pending ≡ codes "RFXL" ++ rest → HasMagic (peeked c)
unfolding uint32
letters-HasMagic c rest e = rw e refl
