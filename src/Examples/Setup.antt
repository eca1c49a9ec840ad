-- ===== src/Examples/Setup.antt =====
-- The environment of the examples: an AEAD that appends a tag of zeros, numbers for float64, and a
-- dispatcher whose links send back what they were sent.
use reflex_network_project.Prelude.{
  false, ℕ, ◌+◌, ◌-◌, ◌/◌, refl, ap, true, Option, none, some, List, [], ◌∷◌, ◌++◌, ◌≡◌, ◌∙◌, sym,
  arith, leb, length, take, replicate, length-append, length-replicate, take-append_eq,
}
use reflex_network_project.Prelude.Int.{pos}
use reflex_network_project.Session.{Aead, IsAead, Session, Frame}
use reflex_network_project.Morph.{Float}
use reflex_network_project.Morph.Padding.{Fills}
use reflex_network_project.Buffer.{from_bytes}
use reflex_network_project.MultiBuffer.{MultiBuffer}
use reflex_network_project.Inbound.{InboundConfig}
use reflex_network_project.Inbound.Server.{Env, Link}
use reflex_network_project.Inbound.Server.Rounds.{Answers}
use reflex_network_project.Inbound.Server.Relay.{Dispatches}

abbrev pub tag : List ℕ
tag = replicate 16 0

abbrev pub toy_aead : Aead
toy_aead = record {
  valid_key = λ key. true;
  nonce_size = 12;
  overhead = 16;
  seal = λ key nonce plain. plain ++ tag;
  unseal = λ key nonce sealed. some (take (length sealed - 16) sealed);
}

pub toy_aead-IsAead : IsAead toy_aead
toy_aead-IsAead = record {
  valid_key_32 = λ key h. refl;
  nonce_size_12 = refl;
  overhead_16 = refl;
  length_seal = λ key nonce plain. length-append plain tag;
  unseal_seal = λ key nonce plain h k. ap some (
      take-append_eq (length (plain ++ tag) - 16) plain tag
        (omega (arith, length-append plain tag)));
}

abbrev pub toy_float : Float
toy_float = record {
  Carrier = ℕ;
  zero = 0;
  add = λ a b. a + b;
  le = leb;
  div = λ a b. a / b;
  of_int = λ n. n;
}

abbrev pub zeros : ℕ → List ℕ
zeros n = replicate n 0

pub zeros-Fills : Fills zeros
zeros-Fills n = length-replicate n 0

abbrev pub key : List ℕ
key = replicate 32 1

abbrev pub echo : Link
echo sent = some (some (from_bytes sent ∷ []))

abbrev pub private_key : List ℕ
private_key = replicate 32 7

-- The derived key is the same whatever the handshake.
abbrev pub env : Env ℕ
env = record {
  aead = toy_aead;
  noise = zeros;
  draws = λ n. 0;
  memory = zeros 8192;
  now = pos 1000;
  entropy = some private_key;
  scalar_base_mult = λ priv. priv;
  scalar_mult = λ priv pub_key. priv;
  hkdf = λ secret salt info. key;
  uuid_text = λ id. id;
  dispatcher = some (λ round. some echo);
  unmarshal_data = λ body. some body;
  decode_base64 = λ text. some text;
}

-- The links of this environment answer.
echo_answers :
    (dispatch : ℕ → Option Link) (round : ℕ) (link : Link) (bytes : List ℕ)
    → env.dispatcher ≡ some dispatch
    → dispatch round ≡ some link
    → (answer : Option MultiBuffer) × (link bytes ≡ some answer)
echo_answers dispatch round link bytes d e =
    let same : (λ (r : ℕ). some echo) ≡ dispatch =
      ap (λ o. elim o as (λ _. ℕ → Option Link) [ none ↦ λ r. none | some f ↦ f ]) d in
    let here : some echo ≡ some link = ap (λ f. f round) same ∙ e in
    (
      some (from_bytes bytes ∷ []),
      ap (λ o. elim o as (λ _. Option (Option MultiBuffer)) [ none ↦ none | some l ↦ l bytes ])
          (sym here),
    )

pub env-Answers : Answers env
env-Answers = record { answers = echo_answers }

pub env-Dispatches : Dispatches env
env-Dispatches = record {
  dispatch = λ round. some echo;
  present = refl;
  opens = λ round. (echo, refl);
  answers = env-Answers;
  memory = omega (arith, length-replicate {A = ℕ} 8192 0);
}

abbrev pub user_id : List ℕ
user_id = replicate 16 5

abbrev pub config : InboundConfig
config = record { clients = replicate 16 4 ∷ user_id ∷ []; fallback = some 80 }

abbrev pub fresh_session : Session
fresh_session = record { key = key; write_nonce_count = 0; read_nonce_count = 0; read_seen = false }

-- A data frame, a padding frame and a frame of an unknown type.
abbrev pub frames : List Frame
frames =
    record { frame_type = 0; payload = 11 ∷ 22 ∷ [] }
    ∷ record { frame_type = 1; payload = 0 ∷ 40 ∷ [] }
    ∷ record { frame_type = 9; payload = [] }
    ∷ []
