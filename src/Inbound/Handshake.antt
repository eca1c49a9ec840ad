-- ===== src/Inbound/Handshake.antt =====
-- proxy/reflex/inbound/inbound.go: the client's handshake packet, binary behind the magic number and
-- as the decoded body of an HTTP request.
use reflex_network_project.Prelude.{
  ℕ, ◌^◌, ◌<◌, ◌≡◌, refl, ap, Option, none, some, List, [], ◌∷◌, ◌++◌, arith, ltb, if◌then◌else◌,
  length, take, drop, length-append, append_assoc, append-nil, take-append_eq, drop-append_eq,
  drop-append_add, take_all, lt→ltb, le→ltb,
}
use reflex_network_project.Prelude.Int.{ℤ, to_i64}
use reflex_network_project.Prelude.Bytes.{
  uint16, uint64, put_uint16, put_uint64, uint64-put_uint64, uint16-put_uint16, length-put_uint64,
  length-put_uint16,
}
use reflex_network_project.Io.{
  Error, Outcome, ok, ◌>>=◌, pure, Stream, read_full, feed, read_full-append,
}

pub record ClientHandshake : Type 0 where
  pub public_key : List ℕ
  pub user_id : List ℕ
  pub policy_req : List ℕ
  pub timestamp : ℤ
  pub nonce : List ℕ

-- The four fields at the front of `fixed`, and a policy request.
unfoldable pub handshake_fields : List ℕ → List ℕ → ClientHandshake
handshake_fields fixed policy_req = record {
  public_key = take 32 fixed;
  user_id = take 16 (drop 32 fixed);
  policy_req = policy_req;
  timestamp = to_i64 (uint64 (take 8 (drop 48 fixed)));
  nonce = take 16 (drop 56 fixed);
}

-- `handleReflexMagic`, up to its call of `processHandshake`.
unfoldable pub read_magic_handshake : Stream → Outcome Stream ClientHandshake
read_magic_handshake = do
  magic_buf ← read_full 4
  fixed ← read_full 74
  let policy_len = uint16 (take 2 (drop 72 fixed))
  policy_req ← (if ltb 0 policy_len then read_full policy_len else pure [])
  pure (handshake_fields fixed policy_req)

unfoldable pub parse_client_handshake_from_bytes : List ℕ → Option ClientHandshake
parse_client_handshake_from_bytes b =
    if ltb (length b) 72
    then none
    else some (handshake_fields b (if ltb 72 (length b) then drop 72 b else []))

-- The packet without its magic number and policy length: magic(4) | pub(32) | user(16) | ts(8) |
-- nonce(16) | policyLen(2) | policyReq, big endian. The timestamp is the bit pattern.
abbrev pub packet_front : List ℕ → List ℕ → ℕ → List ℕ → List ℕ
packet_front public_key user_id timestamp nonce =
    public_key ++ (user_id ++ (put_uint64 timestamp ++ nonce))

pub record WellSized (public_key user_id : List ℕ) (timestamp : ℕ) (nonce : List ℕ) : Type 0 where
  pub key_32 : length public_key ≡ 32
  pub id_16 : length user_id ≡ 16
  pub timestamp_64 : timestamp < 2 ^ 64
  pub nonce_16 : length nonce ≡ 16

-- The handshake that a packet stands for.
abbrev pub handshake_of : List ℕ → List ℕ → ℕ → List ℕ → List ℕ → ClientHandshake
handshake_of public_key user_id timestamp nonce policy = record {
  public_key = public_key;
  user_id = user_id;
  policy_req = policy;
  timestamp = to_i64 timestamp;
  nonce = nonce;
}

module _ (public_key user_id : List ℕ) (timestamp : ℕ) (nonce : List ℕ)
    (sizes : WellSized public_key user_id timestamp nonce) where
  abbrev pub front : List ℕ
  front = packet_front public_key user_id timestamp nonce

  pub length-front : length front ≡ 72
  length-front = omega (
    arith,
    length-append public_key (user_id ++ (put_uint64 timestamp ++ nonce)),
    length-append user_id (put_uint64 timestamp ++ nonce),
    length-append (put_uint64 timestamp) nonce,
    length-put_uint64 timestamp,
    sizes.key_32,
    sizes.id_16,
    sizes.nonce_16,
  )

  -- The parts of a packet, by their offsets.
  front_append :
      (rest : List ℕ)
      → front ++ rest ≡ public_key ++ (user_id ++ (put_uint64 timestamp ++ (nonce ++ rest)))
  front_append rest = simp append_assoc

  handshake_fields-front :
      (rest policy : List ℕ)
      → handshake_fields (front ++ rest) policy
        ≡ handshake_of public_key user_id timestamp nonce policy
  unfolding handshake_fields
  handshake_fields-front rest policy = rw (front_append rest) (
      ground (
        arith,
        take-append_eq 32 public_key (user_id ++ (put_uint64 timestamp ++ (nonce ++ rest))),
        drop-append_add 32 0 public_key (user_id ++ (put_uint64 timestamp ++ (nonce ++ rest))),
        drop-append_add 48 16 public_key (user_id ++ (put_uint64 timestamp ++ (nonce ++ rest))),
        drop-append_add 56 24 public_key (user_id ++ (put_uint64 timestamp ++ (nonce ++ rest))),
        take-append_eq 16 user_id (put_uint64 timestamp ++ (nonce ++ rest)),
        drop-append_add 16 0 user_id (put_uint64 timestamp ++ (nonce ++ rest)),
        drop-append_add 24 8 user_id (put_uint64 timestamp ++ (nonce ++ rest)),
        drop-append_add 8 0 (put_uint64 timestamp) (nonce ++ rest),
        take-append_eq 8 (put_uint64 timestamp) (nonce ++ rest),
        take-append_eq 16 nonce rest,
        length-put_uint64 timestamp,
        append-nil (put_uint64 timestamp),
        uint64-put_uint64 timestamp [],
        sizes.key_32,
        sizes.id_16,
        sizes.nonce_16,
        sizes.timestamp_64,
      ))

  rest_of_body :
      (policy : List ℕ)
      → (if ltb 72 (length (front ++ policy)) then drop 72 (front ++ policy) else []) ≡ policy
  rest_of_body [] =
      rw (le→ltb 72 (length (front ++ [])) (omega (arith, length-append front [], length-front)))
        refl
  rest_of_body (b ∷ bs) =
      rw
        (lt→ltb 72 (length (front ++ (b ∷ bs)))
          (omega (arith, length-append front (b ∷ bs), length-front)))
        (drop-append_eq 72 front (b ∷ bs) (omega (arith, length-front)))

  -- A decoded body is read as its handshake, with everything behind the first 72 bytes as the policy
  -- request.
  pub parse_client_handshake_from_bytes-packet :
      (policy : List ℕ)
      → parse_client_handshake_from_bytes (front ++ policy)
        ≡ some (handshake_of public_key user_id timestamp nonce policy)
  unfolding parse_client_handshake_from_bytes
  parse_client_handshake_from_bytes-packet policy =
      rw
        (
          le→ltb (length (front ++ policy)) 72
              (omega (arith, length-append front policy, length-front)),
          rest_of_body policy,
        )
        (ap some (handshake_fields-front policy policy))

  -- `read_full` of a policy request, or of none.
  abbrev read_policy : List ℕ → Stream → Outcome Stream (List ℕ)
  read_policy policy = if ltb 0 (length policy) then read_full (length policy) else pure []

  read_policy_lem :
      (policy rest : List ℕ) (e : Error)
      → read_policy policy (feed (policy ++ rest) e) ≡ ok policy (feed rest e)
  read_policy_lem [] rest e = refl
  read_policy_lem (b ∷ bs) rest e =
      rw (lt→ltb 0 (length (b ∷ bs)) (omega arith))
        (read_full-append (length (b ∷ bs)) (b ∷ bs) rest e refl)

  -- The whole packet of the magic form, behind its four magic bytes.
  abbrev pub packet_back : List ℕ → List ℕ
  packet_back policy = front ++ put_uint16 (length policy)

  -- A binary packet whose policy request has fewer than 65536 bytes is read as its handshake, and
  -- leaves the bytes behind it.
  pub read_magic_handshake-packet :
      (magic policy rest : List ℕ) (e : Error)
      → length magic ≡ 4
      → length policy < 2 ^ 16
      → read_magic_handshake (feed (magic ++ (packet_back policy ++ (policy ++ rest))) e)
        ≡ ok (handshake_of public_key user_id timestamp nonce policy) (feed rest e)
  unfolding read_magic_handshake
  read_magic_handshake-packet magic policy rest e four fits = ground (
    arith,
    read_full-append 4 magic (packet_back policy ++ (policy ++ rest)) e,
    read_full-append 74 (packet_back policy) (policy ++ rest) e,
    length-append front (put_uint16 (length policy)),
    length-front,
    length-put_uint16 (length policy),
    drop-append_eq 72 front (put_uint16 (length policy)),
    take_all 2 (put_uint16 (length policy)),
    append-nil (put_uint16 (length policy)),
    uint16-put_uint16 (length policy) [],
    read_policy_lem policy rest e,
    handshake_fields-front (put_uint16 (length policy)) policy,
  )
