-- ===== src/Inbound/Detect.antt =====
-- proxy/reflex/inbound/inbound.go: the detection of a Reflex handshake in the peeked bytes.
use Prim.Native.Char.{code}
use Prim.Native.String.{String}
use reflex_network_project.Prelude.{
  ℕ, ◌≤◌, ◌≡◌, refl, ap, ◌∙◌, sym, ◌↔◌, inl, inr, Bool, true, false, not, List, [], ◌∷◌, ◌++◌,
  arith, ltb, ◌==◌, if◌then◌else◌, length, take, drop, same, same→eq, Bool-cases, length-append,
  take-append-drop, le→ltb,
}
use reflex_network_project.Prelude.Bytes.{uint32}

-- The bytes of an ASCII text.
abbrev pub codes : String → List ℕ
codes String.[] = []
codes (String.◌∷◌ c s) = code c ∷ codes s

abbrev pub reflex_magic : ℕ
reflex_magic = 0x5246584C

abbrev pub reflex_min_handshake_size : ℕ
reflex_min_handshake_size = 64

unfoldable pub is_reflex_magic : List ℕ → Bool
is_reflex_magic bs = if ltb (length bs) 4 then false else uint32 (take 4 bs) == reflex_magic

-- `for i := 0; i+8 <= len(b); i++`: the window of eight bytes at each position.
unfoldable pub contains_http_version : List ℕ → Bool
contains_http_version [] = false
contains_http_version (b ∷ bs) =
    let rest = contains_http_version bs in
    if ltb (length (b ∷ bs)) 8
    then false
    else if same (take 8 (b ∷ bs)) (codes "HTTP/1.1")
    then true
    else rest

unfoldable pub is_http_post_like : List ℕ → Bool
unfolding contains_http_version
is_http_post_like peeked =
    if ltb (length peeked) 14
    then false
    else if not (same (take 4 peeked) (codes "POST"))
    then false
    else if not (contains_http_version peeked)
    then false
    else true

unfoldable pub is_reflex_handshake : List ℕ → Bool
is_reflex_handshake bs =
    if is_reflex_magic bs then true else if is_http_post_like bs then true else false

-- A text stands somewhere in the bytes.
abbrev pub Contains : List ℕ → List ℕ → Type 0
Contains bs text = (front back : List ℕ) × (bs ≡ front ++ (text ++ back))

-- The magic number is the four letters "RFXL".
magic_letters : uint32 (codes "RFXL") ≡ reflex_magic
unfolding uint32
magic_letters = refl

-- The window of eight bytes at the front of a text that stands there.
Contains-here : (bs : List ℕ) → contains_http_version bs ≡ true → Contains bs (codes "HTTP/1.1")
unfolding contains_http_version
Contains-here [] h = cc
Contains-here (b ∷ bs) h = elim (Bool-cases (ltb (length (b ∷ bs)) 8)) [
  | inl short ↦ cc (rw short at h)
  | inr long ↦ elim (Bool-cases (same (take 8 (b ∷ bs)) (codes "HTTP/1.1"))) [
    | inl match ↦ (
      [],
      drop 8 (b ∷ bs),
      sym (take-append-drop 8 (b ∷ bs))
          ∙ ap (λ xs. xs ++ drop 8 (b ∷ bs)) (same→eq (take 8 (b ∷ bs)) (codes "HTTP/1.1") match),
    )
    | inr other ↦
        let (front, back, e) = Contains-here bs (rw other at (rw long at h)) in
        (b ∷ front, back, ap (◌∷◌ b) e)
  ]
]

contains_there :
    (front back : List ℕ) → contains_http_version (front ++ (codes "HTTP/1.1" ++ back)) ≡ true
unfolding contains_http_version
contains_there [] back = ground arith
contains_there (b ∷ front) back =
    ground (arith, contains_there front back, length-append front (codes "HTTP/1.1" ++ back))

pub contains_http_version_iff :
    (bs : List ℕ) → (contains_http_version bs ≡ true) ↔ Contains bs (codes "HTTP/1.1")
contains_http_version_iff bs =
    (Contains-here bs, λ c. let (front, back, e) = c in rw e (contains_there front back))

-- The peeked bytes of a POST request: at least 14, with the method in front and the version somewhere.
abbrev pub LooksLikePost : List ℕ → Type 0
LooksLikePost bs = (14 ≤ length bs) × (take 4 bs ≡ codes "POST") × Contains bs (codes "HTTP/1.1")

-- The test for an HTTP POST holds exactly of at least 14 bytes with "POST" in front and "HTTP/1.1"
-- somewhere.
pub is_http_post_like_iff : (bs : List ℕ) → (is_http_post_like bs ≡ true) ↔ LooksLikePost bs
unfolding is_http_post_like
is_http_post_like_iff bs = (forth, back)
  where
    forth : is_http_post_like bs ≡ true → LooksLikePost bs
    forth h =
        let e : (14 ≤ length bs)
            × (same (take 4 bs) (codes "POST") ≡ true)
            × (contains_http_version bs ≡ true) =
          ground arith in
        (e.0, same→eq (take 4 bs) (codes "POST") e.1, Contains-here bs e.2)

    back : LooksLikePost bs → is_http_post_like bs ≡ true
    back (long, post, version) =
        let v : contains_http_version bs ≡ true = (contains_http_version_iff bs).1 version in
        let m : same (take 4 bs) (codes "POST") ≡ true = rw post refl in
        rw (le→ltb (length bs) 14 long, m, v) refl
