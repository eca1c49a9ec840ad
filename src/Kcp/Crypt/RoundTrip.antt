-- ===== src/Kcp/Crypt/RoundTrip.antt =====
-- What was sealed is opened again, and only that.
use Prim.Native.Nat.{bit_xor}
use reflex_network_project.Prelude.{
  ℕ, ◌*◌, ◌+◌, ◌-◌, ◌%◌, ◌^◌, ◌≤◌, ◌<◌, ◌≡◌, ◌∙◌, sym, ap, refl, some, List, [], ◌∷◌, ◌++◌, arith,
  ltb, ◌==◌, if◌then◌else◌, length, drop, All,
}
use reflex_network_project.Prelude.Bytes.{
  put_uint16, uint16, put_uint32, uint32, uint32-put_uint32, uint16-put_uint16,
}
use reflex_network_project.Kcp.Crypt.{
  fnv_loop, fnv32a, put_at, labelled, seal, plain, invalid_auth, checked, open_sealed,
}
use reflex_network_project.Kcp.Crypt.Xor.{
  scrambled, unscrambled, length-scrambled, unscrambled-scrambled, scrambled-unscrambled,
  All-unscrambled,
}

sized : List ℕ → List ℕ
sized p = put_uint16 (length p % 2 ^ 16) ++ p

labelled_lem : (p : List ℕ) → labelled [] p ≡ put_uint32 (fnv32a (sized p)) ++ sized p
unfolding labelled put_at sized put_uint16 put_uint32
labelled_lem p = refl

fnv_loop-lt : (hash : ℕ) (bytes : List ℕ) → hash < 2 ^ 32 → fnv_loop hash bytes < 2 ^ 32
unfolding fnv_loop
fnv_loop-lt hash [] h = h
fnv_loop-lt hash (c ∷ bytes) h =
    fnv_loop-lt (bit_xor hash c * 16777619 % 2 ^ 32) bytes (omega arith)

pub length-labelled : (p : List ℕ) → length (labelled [] p) ≡ length p + 6
unfolding sized put_uint16 put_uint32
length-labelled p = ap length (labelled_lem p) ∙ omega arith

seal_lem : (p : List ℕ) → seal [] p ≡ scrambled (labelled [] p)
unfolding seal
seal_lem p = refl

pub length-seal : (p : List ℕ) → length (seal [] p) ≡ length p + 6
length-seal p = ap length (seal_lem p) ∙ length-scrambled (labelled [] p) ∙ length-labelled p

drop_hash : (h : ℕ) (rest : List ℕ) → drop 4 (put_uint32 h ++ rest) ≡ rest
unfolding put_uint32
drop_hash h rest = refl

drop_label : (h n : ℕ) (rest : List ℕ) → drop 6 (put_uint32 h ++ (put_uint16 n ++ rest)) ≡ rest
unfolding put_uint32 put_uint16
drop_label h n rest = refl

-- The tests of `Open` on bytes whose parts are known.
checked_lem :
    (capacity n hash : ℕ) (dst body p : List ℕ)
    → 6 ≤ capacity
    → length dst ≡ length p + 6
    → drop 4 dst ≡ body
    → drop 6 dst ≡ p
    → uint32 dst ≡ hash
    → fnv32a body ≡ hash
    → uint16 body ≡ n
    → checked capacity dst ≡ some (if length p == n then plain p else invalid_auth)
unfolding checked
checked_lem capacity n hash dst body p h len four six sum hashed size =
    rw (four, six, sum, hashed, size, len) (ground arith)

checked-labelled :
    (capacity : ℕ) (p : List ℕ)
    → 6 ≤ capacity
    → checked capacity (labelled [] p)
      ≡ some (if ltb (length p) (2 ^ 16) then plain p else invalid_auth)
unfolding sized
checked-labelled capacity p h =
    let hash =
      uint32-put_uint32 (fnv32a (sized p)) (sized p)
        (fnv_loop-lt 2166136261 (sized p) (omega arith)) in
    let size = uint16-put_uint16 (length p % 2 ^ 16) p (omega arith) in
    let known =
      checked_lem capacity (length p % 2 ^ 16) (fnv32a (sized p))
        (put_uint32 (fnv32a (sized p)) ++ sized p) (sized p) p h
        (ap length (sym (labelled_lem p)) ∙ length-labelled p)
        (drop_hash (fnv32a (sized p)) (sized p))
        (drop_label (fnv32a (sized p)) (length p % 2 ^ 16) p) hash refl size in
    rw (labelled_lem p, known) (ground arith)

-- Opening what was sealed gives the plain bytes again if there are fewer than 2^16 of them; more
-- do not fit the length, and are refused.
pub open_sealed-seal :
    (capacity : ℕ) (p : List ℕ)
    → length (seal [] p) ≤ capacity
    → open_sealed capacity [] (seal [] p)
      ≡ some (if ltb (length p) (2 ^ 16) then plain p else invalid_auth)
unfolding open_sealed
open_sealed-seal capacity p h =
    rw (seal_lem p, unscrambled-scrambled (labelled [] p))
      (checked-labelled capacity p (omega (arith, length-seal p)))

sized-bytes :
    (f g : ℕ) (p : List ℕ) → f < 256 → g < 256 → length p ≡ f * 256 + g → sized p ≡ f ∷ g ∷ p
unfolding sized put_uint16
sized-bytes f g p hf hg len = ground arith

put_uint32-bytes :
    (a b c d n : ℕ) (rest : List ℕ)
    → a < 256
    → b < 256
    → c < 256
    → d < 256
    → a * 2 ^ 24 + b * 2 ^ 16 + c * 256 + d ≡ n
    → put_uint32 n ++ rest ≡ a ∷ b ∷ c ∷ d ∷ rest
unfolding put_uint32
put_uint32-bytes a b c d n rest ha hb hc hd e = ground arith

-- What `Open` has accepted before the passes is what `Seal` has before them.
record Accepted (dst p : List ℕ) : Type 0 where
  long : 6 ≤ length dst
  hash : uint32 dst ≡ fnv32a (drop 4 dst)
  size : length dst - 6 ≡ uint16 (drop 4 dst)
  rest : drop 6 dst ≡ p

checked-Accepted :
    (capacity : ℕ) (dst p : List ℕ) → checked capacity dst ≡ some (plain p) → Accepted dst p
unfolding checked
checked-Accepted capacity dst p h = ground arith

Accepted-labelled : (dst p : List ℕ) → All (λ b. b < 256) dst → Accepted dst p → labelled [] p ≡ dst
unfolding uint32 uint16
Accepted-labelled (a ∷ b ∷ c ∷ d ∷ f ∷ g ∷ dst) p (ha, (hb, (hc, (hd, (hf, (hg, _)))))) t =
    let body : sized dst ≡ f ∷ g ∷ dst = sized-bytes f g dst hf hg (omega (arith, t.size)) in
    rw (← t.rest, labelled_lem dst, body)
      (put_uint32-bytes a b c d (fnv32a (f ∷ g ∷ dst)) (f ∷ g ∷ dst) ha hb hc hd t.hash)
Accepted-labelled [] p bytes t = absurd (omega (arith, t.long))
Accepted-labelled (a ∷ []) p bytes t = absurd (omega (arith, t.long))
Accepted-labelled (a ∷ b ∷ []) p bytes t = absurd (omega (arith, t.long))
Accepted-labelled (a ∷ b ∷ c ∷ []) p bytes t = absurd (omega (arith, t.long))
Accepted-labelled (a ∷ b ∷ c ∷ d ∷ []) p bytes t = absurd (omega (arith, t.long))
Accepted-labelled (a ∷ b ∷ c ∷ d ∷ f ∷ []) p bytes t = absurd (omega (arith, t.long))

-- Whatever bytes are opened with success, they are the sealed form of what comes out.
pub seal-open_sealed :
    (capacity : ℕ) (cipher_text p : List ℕ)
    → All (λ b. b < 256) cipher_text
    → open_sealed capacity [] cipher_text ≡ some (plain p)
    → seal [] p ≡ cipher_text
unfolding open_sealed
seal-open_sealed capacity cipher_text p bytes h =
    let same =
      Accepted-labelled (unscrambled cipher_text) p (All-unscrambled cipher_text bytes)
        (checked-Accepted capacity (unscrambled cipher_text) p h) in
    seal_lem p ∙ ap scrambled same ∙ scrambled-unscrambled cipher_text
