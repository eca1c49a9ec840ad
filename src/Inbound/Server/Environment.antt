-- ===== src/Inbound/Server/Environment.antt =====
-- The environment of the inbound handler, and the state of one connection.
use reflex_network_project.Prelude.{ℕ, Bool, Option, List}
use reflex_network_project.Prelude.Int.{ℤ}
use reflex_network_project.Io.{Stream, Wire}
use reflex_network_project.Session.{Aead, Session}
use reflex_network_project.Morph.{TrafficProfile}
use reflex_network_project.MultiBuffer.{MultiBuffer}

-- A link as an exchange: what its reader gives for the bytes that were written to it, where the inner
-- `none` is an error. The outer `none` is a read that never returns.
abbrev pub Link : Type 0
Link = List ℕ → Option (Option MultiBuffer)

-- `W` is the type of float64 values.
pub record Env (W : Type 0) : Type 0 where
  pub aead : Aead
  pub noise : ℕ → List ℕ
  pub draws : ℕ → W
  -- The memory of a new buffer.
  pub memory : List ℕ
  -- `time.Now().Unix()`
  pub now : ℤ
  -- The 32 bytes of a private key, or none where the reader of randomness fails.
  pub entropy : Option (List ℕ)
  pub scalar_base_mult : List ℕ → List ℕ
  pub scalar_mult : List ℕ → List ℕ → List ℕ
  -- The first 32 bytes of HKDF-SHA256 of a secret, a salt and an info text.
  pub hkdf : List ℕ → List ℕ → List ℕ → List ℕ
  pub uuid_text : List ℕ → List ℕ
  -- The links that `Dispatch` opens, or none where it fails, by the round of the session loop.
  pub dispatcher : Option (ℕ → Option Link)
  -- encoding/json and encoding/base64, for the HTTP form of the handshake.
  pub unmarshal_data : List ℕ → Option (List ℕ)
  pub decode_base64 : List ℕ → Option (List ℕ)

pub record Conn : Type 0 where
  pub input : Stream
  pub output : Wire
  pub is_closed : Bool

-- `forwarded` holds what was written to the links, in order. `blocked`: the handler stands in a read
-- from a link that never returns.
pub record Serving (W : Type 0) : Type 0 where
  pub input : Stream
  pub output : Wire
  pub session : Session
  pub profile : Option (TrafficProfile W)
  pub forwarded : List (List ℕ)
  pub blocked : Bool
