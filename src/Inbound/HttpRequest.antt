-- ===== src/Inbound/HttpRequest.antt =====
-- proxy/reflex/inbound/inbound.go: the request reader of `handleReflexHTTP`, up to its call of
-- `processHandshake`. encoding/json and encoding/base64 are parameters.
use reflex_network_project.Prelude.{
  ℕ, zero, suc, ◌+◌, ◌-◌, ◌*◌, ◌%◌, ◌^◌, ◌≡◌, refl, ◌⊎◌, inl, inr, Bool, false, ◌&&◌, ◌||◌, Option,
  none, some, subst, List, [], ◌∷◌, arith, leb, ◌==◌, if◌then◌else◌, length, take, same,
  same_ne-length, le→leb, lt→leb, length-take, Bool-cases,
}
use native.Mathlib.Decide.{dec_le}
use reflex_network_project.Prelude.Int.{ℤ, pos, ltb_ℤ, to_i64, pos_part}
use reflex_network_project.Io.{
  Error, Outcome, ok, err, ◌>>=◌, ◌>>◌, guard, or_fail, Stream, read_full,
}
use reflex_network_project.Inbound.Detect.{codes}
use reflex_network_project.Inbound.Handshake.{ClientHandshake, parse_client_handshake_from_bytes}

-- The bytes up to the first newline and with it, and those behind it; none if there is no newline.
unfoldable pub split_line : List ℕ → Option (List ℕ × List ℕ)
split_line [] = none
split_line (b ∷ bs) =
    let rest = split_line bs in
    if b == 10
    then some (b ∷ [], bs)
    else elim rest [ none ↦ none | some (line, after) ↦ some (b ∷ line, after) ]

-- `reader.ReadString('\n')`
unfoldable pub read_string : Stream → Outcome Stream (List ℕ)
read_string s = elim (split_line s.pending) [
  | none ↦ err s.closing (record s { pending = [] })
  | some (line, after) ↦ ok line (record s { pending = after })
]

abbrev pub is_digit : ℕ → Bool
is_digit c = leb b'0' c && leb c b'9'

-- The inner loop, over the digits from here on, in 64 bits.
unfoldable pub take_digits : ℕ → List ℕ → ℕ
take_digits v [] = v
take_digits v (c ∷ cs) =
    let rest = take_digits ((v * 10 + (c - b'0')) % 2 ^ 64) cs in if is_digit c then rest else v

-- The number at the first digit of the line; none leaves the length as it was.
unfoldable pub first_number : List ℕ → Option ℕ
first_number [] = none
first_number (c ∷ cs) =
    let rest = first_number cs in if is_digit c then some (take_digits 0 (c ∷ cs)) else rest

abbrev pub is_content_length : List ℕ → Bool
is_content_length line =
    leb 16 (length line)
    && (same (take 15 line) (codes "Content-Length")
        || same (take 15 line) (codes "content-length"))

unfoldable pub header_length : List ℕ → ℤ → ℤ
unfolding first_number take_digits
header_length line content_length =
    if is_content_length line
    then elim (first_number line) [ none ↦ content_length | some v ↦ to_i64 v ]
    else content_length

-- The header loop. A line takes a byte at least, so more fuel than there are bytes is enough.
unfoldable pub read_headers : ℕ → ℤ → Stream → Outcome Stream ℤ
read_headers zero content_length s = err s.closing s
read_headers (suc fuel) content_length s = elim (read_string s) [
  | err e s' ↦ err e s'
  | ok line s' ↦
      (let rest = read_headers fuel (header_length line content_length) s' in
        if same line (codes "\r\n") then ok content_length s' else rest)
]

module _ (unmarshal_data decode_base64 : List ℕ → Option (List ℕ)) where
  -- Behind the headers. `unmarshal_data` gives the "data" field of a JSON body, `decode_base64` the
  -- bytes of a text.
  unfoldable pub read_http_body : ℤ → Stream → Outcome Stream ClientHandshake
  read_http_body content_length = do
    guard (ltb_ℤ (pos 0) content_length) Error.invalid_content_length
    body ← read_full (pos_part content_length)
    text ← or_fail (unmarshal_data body) Error.bad_json
    raw ← or_fail (decode_base64 text) Error.bad_base64
    or_fail (parse_client_handshake_from_bytes raw) Error.packet_too_short

  unfoldable pub read_http_handshake : Stream → Outcome Stream ClientHandshake
  unfolding read_headers read_http_body
  read_http_handshake s =
      (do
        content_length ← read_headers (length s.pending + 1) (pos 0)
        read_http_body content_length)
        s

-- The first 15 bytes of a line are never the 14 bytes of the header's name.
never_content_length : (line : List ℕ) → is_content_length line ≡ false
never_content_length line = elim (dec_le 16 (length line)) [
  | no short ↦ rw (lt→leb 16 (length line) (omega arith)) refl
  | yes long ↦
      let cut : length (take 15 line) ≡ 15 = omega (arith, length-take 15 line) in
      rw (
        same_ne-length (take 15 line) (codes "Content-Length") (omega arith),
        same_ne-length (take 15 line) (codes "content-length") (omega arith),
        le→leb 16 (length line) long,
      )
]

header_length_kept : (line : List ℕ) (n : ℤ) → header_length line n ≡ n
unfolding header_length
header_length_kept line n = rw (never_content_length line) refl

-- The result of the header loop: the length that it started with, or the error that ends the input.
abbrev Kept : ℤ → Error → Outcome Stream ℤ → Type 0
Kept n e (ok m t) = m ≡ n
Kept n e (err x t) = x ≡ e

header_step :
    (fuel : ℕ) (n : ℤ) (e : Error) (o : Outcome Stream (List ℕ))
    → ((line : List ℕ) (s' : Stream)
        → o ≡ ok line s'
        → Kept n e (read_headers fuel (header_length line n) s'))
    → ((x : Error) (s' : Stream) → o ≡ err x s' → x ≡ e)
    → Kept n e (elim o [
      | err x s' ↦ err x s'
      | ok line s' ↦
          (let rest = read_headers fuel (header_length line n) s' in
            if same line (codes "\r\n") then ok n s' else rest)
    ])
header_step fuel n e (err x s') loop ends = ends x s' refl
header_step fuel n e (ok line s') loop ends = elim (Bool-cases (same line (codes "\r\n"))) [
  | inl blank ↦ rw blank refl
  | inr header ↦ rw header (loop line s' refl)
]

read_string_closing :
    (s : Stream)
    → ((line : List ℕ) (t : Stream) → read_string s ≡ ok line t → t.closing ≡ s.closing)
      × ((x : Error) (t : Stream) → read_string s ≡ err x t → x ≡ s.closing)
unfolding read_string
read_string_closing s = (λ line t h. ground arith, λ x t h. ground arith)

read_headers-Kept : (fuel : ℕ) (n : ℤ) (s : Stream) → Kept n s.closing (read_headers fuel n s)
unfolding read_headers
read_headers-Kept zero n s = refl
read_headers-Kept (suc fuel) n s =
    header_step fuel n s.closing (read_string s)
      (λ line t h. rw (← (read_string_closing s).0 line t h) (
        subst (λ k. Kept k t.closing (read_headers fuel (header_length line n) t))
          (header_length_kept line n) (read_headers-Kept fuel (header_length line n) t)))
      (read_string_closing s).1

module _ (unmarshal_data decode_base64 : List ℕ → Option (List ℕ)) where
  read_http_body_fails :
      (s : Stream) (o : Outcome Stream ℤ)
      → Kept (pos 0) s.closing o
      → (e : Error) × (t : Stream) × (elim o [
        | ok n u ↦ read_http_body unmarshal_data decode_base64 n u
        | err x u ↦ err x u
      ]
          ≡ err e t)
        × ((e ≡ Error.invalid_content_length) ⊎ (e ≡ s.closing))
  unfolding read_http_body
  read_http_body_fails s (err x t) k = (x, t, refl, inr k)
  read_http_body_fails s (ok n t) k = (Error.invalid_content_length, t, rw k refl, inl refl)

  -- No HTTP request is ever read as a handshake: reading it ends in the error of the input, or in
  -- "invalid content length", whatever its headers, its body and the decoders.
  pub read_http_handshake_fails :
      (s : Stream)
      → (e : Error) × (t : Stream) × (read_http_handshake unmarshal_data decode_base64 s ≡ err e t)
        × ((e ≡ Error.invalid_content_length) ⊎ (e ≡ s.closing))
  unfolding read_http_handshake
  read_http_handshake_fails s =
      read_http_body_fails s (read_headers (length s.pending + 1) (pos 0) s)
        (read_headers-Kept (length s.pending + 1) (pos 0) s)
