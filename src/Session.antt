-- ===== src/Session.antt =====
-- proxy/reflex/session.go: frames sealed by an AEAD, with a counter in the nonce. The AEAD
-- (golang.org/x/crypto/chacha20poly1305) is a parameter, with its documented laws in `IsAead`.
-- The mutex makes each counter update one step; here a session is passed along.
pub mod Frames
pub mod RoundTrip
pub mod Replay
pub mod Progress
use reflex_network_project.Prelude.{
  ℕ, ◌+◌, ◌-◌, ◌%◌, ◌^◌, ◌≡◌, Bool, true, false, not, ◌&&◌, Option, none, some, List, [], ◌∷◌, ◌++◌,
  ltb, leb, ◌==◌, if◌then◌else◌, length, take, drop, replicate,
}
use reflex_network_project.Prelude.Bytes.{put_uint16, uint16, put_uint64, uint64}
use reflex_network_project.Io.{
  Error, Outcome, ok, err, ◌>>=◌, ◌>>◌, pure, guard, or_fail, Stream, read_full, Wire, write,
}

-- `chacha20poly1305.New(key)` and the methods of the `cipher.AEAD` that it returns; the additional
-- data is nil throughout. `none` is the error of `Open`.
pub record Aead : Type 0 where
  pub valid_key : List ℕ → Bool
  pub nonce_size : ℕ
  pub overhead : ℕ
  pub seal : List ℕ → List ℕ → List ℕ → List ℕ
  pub unseal : List ℕ → List ℕ → List ℕ → Option (List ℕ)

-- What the package documents: 32-byte keys, 12-byte nonces, a 16-byte tag, and `Open` undoes `Seal`.
pub record IsAead (a : Aead) : Type 0 where
  pub valid_key_32 : (key : List ℕ) → length key ≡ 32 → a.valid_key key ≡ true
  pub nonce_size_12 : a.nonce_size ≡ 12
  pub overhead_16 : a.overhead ≡ 16
  pub length_seal :
      (key nonce plain : List ℕ) → length (a.seal key nonce plain) ≡ length plain + a.overhead
  pub unseal_seal :
      (key nonce plain : List ℕ)
      → length key ≡ 32
      → length nonce ≡ 12
      → a.unseal key nonce (a.seal key nonce plain) ≡ some plain

abbrev pub frame_type_data : ℕ
frame_type_data = 0x00

abbrev pub frame_type_padding_ctrl : ℕ
frame_type_padding_ctrl = 0x01

abbrev pub frame_type_timing_ctrl : ℕ
frame_type_timing_ctrl = 0x02

-- `aead` is the key that the AEAD was made for.
pub record Session : Type 0 where
  pub key : List ℕ
  pub write_nonce_count : ℕ
  pub read_nonce_count : ℕ
  pub read_seen : Bool

pub record Frame : Type 0 where
  pub frame_type : ℕ
  pub payload : List ℕ

unfoldable pub new_session : Aead → List ℕ → Option Session
new_session a session_key =
    if not (length session_key == 32)
    then none
    else if a.valid_key session_key
    then some (record {
      key = session_key;
      write_nonce_count = 0;
      read_nonce_count = 0;
      read_seen = false;
    })
    else none

unfoldable pub make_nonce : List ℕ → ℕ → List ℕ
make_nonce nonce_out counter =
    if ltb (length nonce_out) 12
    then nonce_out
    else take 4 nonce_out ++ (put_uint64 counter ++ drop 12 nonce_out)

-- The counter moves also where a write fails.
unfoldable pub write_frame : Aead → Session → ℕ → List ℕ → Wire → Session × Outcome Wire (Unit {0})
write_frame a s frame_type payload w =
    let nonce_count = s.write_nonce_count in
    let s' = record s { write_nonce_count = (nonce_count + 1) % 2 ^ 64 } in
    let plaintext : List ℕ = frame_type ∷ payload in
    let nonce = make_nonce (replicate a.nonce_size 0) nonce_count in
    let ciphertext = a.seal s.key nonce plaintext in
    let total_len = length nonce + length ciphertext in
    let header = put_uint16 (total_len % 2 ^ 16) in
    (s', (write header >> write nonce >> write ciphertext) w)

-- `plaintext[0]` and `plaintext[1:]`, or the error for an empty plaintext.
abbrev pub split_plaintext : List ℕ → Option Frame
split_plaintext [] = none
split_plaintext (b ∷ bs) = some (record { frame_type = b; payload = bs })

abbrev pub is_replay : Session → ℕ → Bool
is_replay s read_counter = s.read_seen && leb read_counter s.read_nonce_count

-- The session after the frame, too: it changes only where the frame is accepted.
unfoldable pub read_frame : Aead → Session → Stream → Outcome Stream (Frame × Session)
read_frame a s = do
  len_buf ← read_full 2
  let total_len = uint16 len_buf
  guard (not (ltb total_len a.nonce_size)) Error.frame_too_short
  let cipher_len = total_len - a.nonce_size
  guard (not (ltb cipher_len a.overhead)) Error.ciphertext_too_short
  nonce ← read_full a.nonce_size
  ciphertext ← read_full cipher_len
  plaintext ← or_fail (a.unseal s.key nonce ciphertext) Error.auth_failed
  frame ← or_fail (split_plaintext plaintext) Error.empty_plaintext
  let read_counter = uint64 (take 8 (drop 4 nonce))
  guard (not (is_replay s read_counter)) Error.replay_detected
  pure (frame, record s { read_seen = true; read_nonce_count = read_counter })
