-- ===== src/Inbound/Server/Answer.antt =====
-- proxy/reflex/inbound/inbound.go: what `processHandshake` answers, by the handshake.
use reflex_network_project.Prelude.{
  ℕ, ◌-◌, ◌≤◌, ◌≡◌, refl, ap, ◌∙◌, ◌⊎◌, inl, inr, false, Option, none, some, List, [], ◌∷◌, ◌++◌,
  arith, length, same, same→eq, same_refl, map, Option-cases, Bool-cases,
}
use reflex_network_project.Prelude.Int.{ℤ, pos, ◌≤ℤ◌, ◌+ℤ◌, ◌-ℤ◌}
use reflex_network_project.Io.{Error, write_two}
use reflex_network_project.Session.{IsAead, new_session}
use reflex_network_project.Morph.{Float, TrafficProfile}
use reflex_network_project.Inbound.{
  Handler, InboundConfig, new_handler, new_user, authenticate_user,
}
use reflex_network_project.Inbound.Detect.{codes}
use reflex_network_project.Inbound.Handshake.{ClientHandshake}
use reflex_network_project.Inbound.Server.{
  Env, Conn, Serving, refused, served, is_stale, process_handshake, start_session,
  write_http_error_and_close, derive_session_key, closed_with, finished, handle_session,
  marshal_server_handshake, ok_header,
}
use reflex_network_project.Inbound.Server.Rounds.{handle_session-ne-none}

-- The id is one of the configured clients'.
abbrev pub Registered : List ℕ → List (List ℕ) → Type 0
Registered id [] = ⊥
Registered id (x ∷ xs) = (x ≡ id) ⊎ Registered id xs

authenticate_user-some :
    (ids : List (List ℕ)) (id : List ℕ)
    → Registered id ids
    → authenticate_user (map new_user ids) id ≡ some (new_user id)
unfolding authenticate_user new_user
authenticate_user-some [] id h = absurd h
authenticate_user-some (x ∷ xs) id (inl e) = rw e (rw (same_refl id) refl)
authenticate_user-some (x ∷ xs) id (inr h) = elim (Bool-cases (same x id)) [
  | inl hit ↦ rw (hit, authenticate_user) (ap some (rw (same→eq x id hit) refl))
  | inr miss ↦ rw (miss, authenticate_user) (authenticate_user-some xs id h)
]

authenticate_user-none :
    (ids : List (List ℕ)) (id : List ℕ)
    → ¬ Registered id ids
    → authenticate_user (map new_user ids) id ≡ none
unfolding authenticate_user new_user
authenticate_user-none [] id h = refl
authenticate_user-none (x ∷ xs) id h = elim (Bool-cases (same x id)) [
  | inl hit ↦ absurd (h (inl (same→eq x id hit)))
  | inr miss ↦ rw (miss, authenticate_user) (authenticate_user-none xs id (λ r. h (inr r)))
]

registered? : (id : List ℕ) (ids : List (List ℕ)) → Dec (Registered id ids)
registered? id [] = no (λ h. h)
registered? id (x ∷ xs) = elim (Bool-cases (same x id)) [
  | inl hit ↦ yes (inl (same→eq x id hit))
  | inr miss ↦ elim (registered? id xs) [
    | yes r ↦ yes (inr r)
    | no r ↦
        no (λ h. elim h [ inl e ↦ cc (ap (λ y. same y id) e, same_refl id, miss) | inr k ↦ r k ])
  ]
]

module _ (fl : Float) (env : Env fl.Carrier) where
  open fl use {Carrier}

  -- Within five minutes of the server's clock, both ends included.
  abbrev pub IsFresh : ℤ → Type 0
  IsFresh timestamp = (env.now -ℤ pos 300 ≤ℤ timestamp) × (timestamp ≤ℤ env.now +ℤ pos 300)

  fresh→not_stale : (timestamp : ℤ) → IsFresh timestamp → is_stale fl env timestamp ≡ false
  unfolding is_stale
  fresh→not_stale timestamp h = ground arith

  not_stale→fresh : (timestamp : ℤ) → is_stale fl env timestamp ≡ false → IsFresh timestamp
  unfolding is_stale
  not_stale→fresh timestamp h = (ground arith, ground arith)

  -- A session is served only to a handshake whose timestamp is within five minutes of the server's
  -- clock and whose user id, as text, is that of a configured client.
  pub process_handshake-served :
      (config : InboundConfig) (p : Option (TrafficProfile Carrier)) (hs : ClientHandshake)
      (c : Conn) {s : Serving Carrier} {e : Option Error}
      → process_handshake fl env (new_handler config p) hs c ≡ served s e
      → IsFresh hs.timestamp × Registered (env.uuid_text hs.user_id) config.clients
  unfolding process_handshake new_handler
  process_handshake-served config p hs c {s} {e} h =
      elim (Bool-cases (is_stale fl env hs.timestamp)) [
        | inl stale ↦ cc (rw stale at h)
        | inr fresh ↦ (not_stale→fresh hs.timestamp fresh, known (rw fresh at h))
      ]
    where
      id : List ℕ
      id = env.uuid_text hs.user_id

      known :
          elim env.entropy [
            | none ↦ refused c (some (Error.failure 1))
            | some server_priv ↦ elim (authenticate_user (map new_user config.clients) id) [
              | none ↦ closed_with fl env (write_http_error_and_close (codes "forbidden") c)
              | some user ↦
                  start_session fl env
                    (new_handler config p)
                    (env.scalar_base_mult server_priv)
                    (derive_session_key fl env server_priv hs)
                    c
            ]
          ]
            ≡ served s e
          → Registered id config.clients
      known k = elim (registered? id config.clients) [
        | yes r ↦ r
        | no r ↦ ground (arith, authenticate_user-none config.clients id r)
      ]

  -- The state in which a session starts.
  abbrev session_start : Handler Carrier → List ℕ → List ℕ → Conn → Serving Carrier
  session_start h server_pub session_key c =
      let body = marshal_server_handshake server_pub in
      record {
        input = c.input;
        output = record {
          written = c.output.written ++ (ok_header body ++ body);
          room = c.output.room - length (ok_header body ++ body);
        };
        session = record {
          key = session_key;
          write_nonce_count = 0;
          read_nonce_count = 0;
          read_seen = false;
        };
        profile = h.default_profile;
        forwarded = [];
        blocked = false;
      }

  new_session-some :
      IsAead env.aead
      → (key : List ℕ) → length key ≡ 32
      → new_session env.aead key
        ≡ some
            (record { key = key; write_nonce_count = 0; read_nonce_count = 0; read_seen = false })
  unfolding new_session
  new_session-some law key h = ground (arith, law.valid_key_32 key h)

  start_session_lem :
      IsAead env.aead
      → (h : Handler Carrier) (server_pub session_key : List ℕ) (c : Conn) → length session_key ≡ 32
      → let body = marshal_server_handshake server_pub in
        length (ok_header body ++ body) ≤ c.output.room
        → start_session fl env h server_pub session_key c
          ≡ finished fl env (handle_session fl env (session_start h server_pub session_key c))
  unfolding start_session
  start_session_lem law h server_pub session_key c key room =
      let body = marshal_server_handshake server_pub in
      ground
        (arith, write_two (ok_header body) body c.output room, new_session-some law session_key key)

  -- To a fresh handshake of a configured client the server answers with status 200 and its public
  -- key, and runs handleSession with a new session under the derived key on the rest of the input,
  -- to its end or to a read from a link that never returns. The private key is drawn, the derived
  -- key has 32 bytes, and the answer has room.
  pub process_handshake-accepts :
      IsAead env.aead
      → (config : InboundConfig) (p : Option (TrafficProfile Carrier)) (hs : ClientHandshake)
        (c : Conn) (priv : List ℕ)
      → IsFresh hs.timestamp
      → Registered (env.uuid_text hs.user_id) config.clients
      → env.entropy ≡ some priv
      → length (derive_session_key fl env priv hs) ≡ 32
      → let body = marshal_server_handshake (env.scalar_base_mult priv) in
        length (ok_header body ++ body) ≤ c.output.room
        → (s₀ s : Serving Carrier) × (e : Option Error) × (process_handshake fl env
              (new_handler config p)
              hs
              c
            ≡ served s e)
          × (handle_session fl env s₀ ≡ some (s, e))
          × (s₀.input ≡ c.input)
          × (s₀.output.written ≡ c.output.written ++ (ok_header body ++ body))
          × (s₀.session ≡ record {
            key = derive_session_key fl env priv hs;
            write_nonce_count = 0;
            read_nonce_count = 0;
            read_seen = false;
          })
          × (s₀.forwarded ≡ [])
          × (s₀.blocked ≡ false)
  unfolding process_handshake new_handler
  process_handshake-accepts law config p hs c priv fresh known drawn key room =
      let h = new_handler config p in
      let s₀ = session_start h (env.scalar_base_mult priv) (derive_session_key fl env priv hs) c in
      elim (Option-cases (handle_session fl env s₀)) [
        | inl never ↦ absurd (handle_session-ne-none fl env s₀ never)
        | inr ((s, e), ran) ↦ (
          s₀,
          s,
          e,
          rw
              (
                fresh→not_stale hs.timestamp fresh,
                drawn,
                authenticate_user-some config.clients (env.uuid_text hs.user_id) known,
              )
              (start_session_lem law h (env.scalar_base_mult priv)
                  (derive_session_key fl env priv hs) c key room
                ∙ ap (finished fl env) ran),
          ran,
          refl,
          refl,
          refl,
          refl,
          refl,
        )
      ]
