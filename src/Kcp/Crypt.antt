-- ===== src/Kcp/Crypt.antt =====
-- transport/internet/kcp/crypt.go with xor.go: the packet cipher of a connection without a seed.
-- A result is `none` on a Go panic. `fnv32a` is Go's hash/fnv, `NewAEADAESGCMBasedOnSeed` is not
-- modelled, since it only calls the standard library.
pub mod Xor
pub mod RoundTrip
use Prim.Native.Nat.{bit_xor}
use reflex_network_project.Prelude.{
  ℕ, zero, suc, ◌+◌, ◌-◌, ◌*◌, ◌%◌, ◌^◌, Bool, Option, none, some, List, [], ◌∷◌, ◌++◌, ltb, ◌==◌,
  not, if◌then◌else◌, length, take, drop, get_or, set, replicate,
}
use reflex_network_project.Prelude.Bytes.{put_uint16, uint16, put_uint32, uint32}

-- `x[i] ^= x[i-4]`
unfoldable pub xor_at : ℕ → List ℕ → List ℕ
xor_at i x = set x i (bit_xor (get_or x i 0) (get_or x (i - 4) 0))

-- The rounds of the loop that are left, from `i` on.
unfoldable pub forward : ℕ → ℕ → List ℕ → List ℕ
forward zero i x = x
forward (suc rounds) i x = forward rounds (i + 1) (xor_at i x)

unfoldable pub xorfwd : List ℕ → List ℕ
xorfwd x = forward (length x - 4) 4 x

-- The rounds of the loop that are left, from `rounds + 3` down to 4.
unfoldable pub backward : ℕ → List ℕ → List ℕ
backward zero x = x
backward (suc rounds) x = backward rounds (xor_at (rounds + 4) x)

unfoldable pub xorbkd : List ℕ → List ℕ
xorbkd x = backward (length x - 4) x

unfoldable pub fnv_loop : ℕ → List ℕ → ℕ
fnv_loop hash [] = hash
fnv_loop hash (c ∷ bytes) = fnv_loop (bit_xor hash c * 16777619 % 2 ^ 32) bytes

-- `fnv.New32a`, written and summed.
abbrev pub fnv32a : List ℕ → ℕ
fnv32a bytes = fnv_loop 2166136261 bytes

-- Bytes are put over those from `i` on.
unfoldable pub put_at : ℕ → List ℕ → List ℕ → List ℕ
put_at i bytes dst = take i dst ++ (bytes ++ drop (i + length bytes) dst)

abbrev pub xtra : ℕ → ℕ
xtra n = 4 - n % 4

-- `append(dst, make([]byte, xtra)...)`, unless that is a whole word.
unfoldable pub padded : List ℕ → List ℕ
padded dst = if xtra (length dst) == 4 then dst else dst ++ replicate (xtra (length dst)) 0

-- `SimpleAuthenticator.Overhead`
abbrev pub overhead : ℕ
overhead = 6

-- `dst` of `Seal` before the passes.
unfoldable pub labelled : List ℕ → List ℕ → List ℕ
labelled dst plain =
    let sized = put_at 4 (put_uint16 (length plain % 2 ^ 16)) (dst ++ replicate 6 0) ++ plain in
    put_at 0 (put_uint32 (fnv32a (drop 4 sized))) sized

-- `SimpleAuthenticator.Seal`
unfoldable pub seal : List ℕ → List ℕ → List ℕ
seal dst plain = take (length (labelled dst plain)) (xorfwd (padded (labelled dst plain)))

pub data Opened : Type 0 where
  plain : List ℕ → Opened
  invalid_auth : Opened

-- `Open` behind the passes, where `capacity` is that of `dst`: `dst[4:]` and `dst[4:6]` may panic.
unfoldable pub checked : ℕ → List ℕ → Option Opened
checked capacity dst =
    if ltb (length dst) 4
    then none
    else if not (uint32 dst == fnv32a (drop 4 dst))
    then some invalid_auth
    else if ltb capacity 6
    then none
    else if ltb (length dst) 6
    then some invalid_auth
    else if length dst - 6 == uint16 (drop 4 dst)
    then some (plain (drop 6 dst))
    else some invalid_auth

-- `SimpleAuthenticator.Open`
unfoldable pub open_sealed : ℕ → List ℕ → List ℕ → Option Opened
open_sealed capacity dst cipher_text =
    checked capacity (take (length (dst ++ cipher_text)) (xorbkd (padded (dst ++ cipher_text))))
