-- ===== src/Io.antt =====
-- What the proxy uses of Go's `io` and `net`: errors, an input that is read to its end, an output
-- that a peer may cut off, and the early `return err` as a monad.
--
-- A `Stream` is everything that a connection will still deliver, and the error that a read meets
-- behind it (`io.EOF` if the peer closed it in order). A `Wire` is an output: what was written to
-- it, and how many more bytes it takes before a write fails. Both ends are the environment's, so
-- theorems range over them.
use reflex_network_project.Prelude.{
  ℕ, ◌+◌, ◌-◌, ◌≤◌, ◌≡◌, refl, Bool, true, false, Option, none, some, List, [], ◌++◌, arith, leb,
  ◌==◌, if◌then◌else◌, length, take, drop, length-append, length-drop, take-append_eq,
  drop-append_eq, le→leb, append_assoc,
}

pub data Error : Type 0 where
  eof unexpected_eof : Error
  bad_key_length frame_too_short ciphertext_too_short auth_failed empty_plaintext : Error
  replay_detected : Error
  invalid_content_length bad_json bad_base64 packet_too_short : Error
  user_not_found no_fallback buffer_full : Error
  -- Any other error of the network or of the system, by its number.
  failure : ℕ → Error

-- The result of an action on a state `S`: the state is there after an error too.
pub data Outcome {ℓ κ} (S : Type ℓ) (A : Type κ) : Type (ℓ ⊔ κ) where
  ok : A → S → Outcome S A
  err : Error → S → Outcome S A

infixl 5 ◌>>=◌ ◌>>◌
abbrev pub ◌>>=◌ {ℓ κ μ} :
    {S : Type ℓ} {A : Type κ} {B : Type μ}
    → (S → Outcome S A)
    → (A → S → Outcome S B)
    → S
    → Outcome S B
◌>>=◌ m f s = elim (m s) [ ok a s' ↦ f a s' | err e s' ↦ err e s' ]

abbrev pub ◌>>◌ {ℓ κ} :
    {S : Type ℓ} {B : Type κ} → (S → Outcome S (Unit {0})) → (S → Outcome S B) → S → Outcome S B
m >> k = m >>= λ _. k

abbrev pub pure {ℓ κ} : {S : Type ℓ} {A : Type κ} → A → S → Outcome S A
pure a s = ok a s

-- `if !b { return err }`
abbrev pub guard {ℓ} : {S : Type ℓ} → Bool → Error → S → Outcome S (Unit {0})
guard true e s = ok tt s
guard false e s = err e s

abbrev pub or_fail {ℓ κ} : {S : Type ℓ} {A : Type κ} → Option A → Error → S → Outcome S A
or_fail none e s = err e s
or_fail (some a) e s = ok a s

bind_inversion {ℓ κ μ} :
    {S : Type ℓ} {A : Type κ} {B : Type μ} (f : A → S → Outcome S B) (o : Outcome S A)
    {o' : Outcome S A} {b : B} {u : S}
    → o' ≡ o
    → elim o' [ ok a s' ↦ f a s' | err e s' ↦ err e s' ] ≡ ok b u
    → (a : A) × (t : S) × (o' ≡ ok a t) × (f a t ≡ ok b u)
bind_inversion f (ok a t) e h = (a, t, e, rw e at h)
bind_inversion f (err x t) e h = cc (rw e at h)

-- Inversion of a chain that succeeds.
pub >>=-eq-ok {ℓ κ μ} :
    {S : Type ℓ} {A : Type κ} {B : Type μ} (m : S → Outcome S A) (f : A → S → Outcome S B) (s : S)
    {b : B} {u : S}
    → (m >>= f) s ≡ ok b u
    → (a : A) × (t : S) × (m s ≡ ok a t) × (f a t ≡ ok b u)
>>=-eq-ok m f s h = bind_inversion f (m s) refl h

pub record Stream : Type 0 where
  pub pending : List ℕ
  pub closing : Error

-- A partial read turns the orderly end into `io.ErrUnexpectedEOF`.
abbrev pub short_read : Error → Error
short_read Error.eof = Error.unexpected_eof
short_read e = e

-- `io.ReadFull(r, buf)` with `len(buf) == n`.
unfoldable pub read_full : ℕ → Stream → Outcome Stream (List ℕ)
read_full n s =
    if leb n (length s.pending)
    then ok (take n s.pending) (record s { pending = drop n s.pending })
    else err (if length s.pending == 0 then s.closing else short_read s.closing)
        (record s { pending = [] })

pub record Wire : Type 0 where
  pub written : List ℕ
  pub room : ℕ

-- `w.Write(p)`: all of it, or a prefix and an error.
unfoldable pub write : List ℕ → Wire → Outcome Wire (Unit {0})
write p w =
    if leb (length p) w.room
    then ok tt (record { written = w.written ++ p; room = w.room - length p })
    else err (Error.failure 0) (record { written = w.written ++ take w.room p; room = 0 })

abbrev pub feed : List ℕ → Error → Stream
feed bs e = record { pending = bs; closing = e }

-- `ReadFull` takes exactly the bytes in front, and leaves what follows them.
pub read_full-append :
    (n : ℕ) (front rest : List ℕ) (e : Error)
    → n ≡ length front
    → read_full n (feed (front ++ rest) e) ≡ ok front (feed rest e)
unfolding read_full
read_full-append n front rest e h =
    ground (
      arith,
      length-append front rest,
      take-append_eq n front rest h,
      drop-append_eq n front rest h,
    )

-- A successful `ReadFull` shortens the input by what it took.
pub read_full-length :
    (n : ℕ) (s : Stream) {bs : List ℕ} {t : Stream}
    → read_full n s ≡ ok bs t
    → length t.pending + n ≡ length s.pending
unfolding read_full
read_full-length n s h = ground (arith, length-drop n s.pending)

pub read_full_closing :
    (n : ℕ) (s : Stream) {bs : List ℕ} {t : Stream}
    → read_full n s ≡ ok bs t
    → t.closing ≡ s.closing
unfolding read_full
read_full_closing n s h = ground arith

pub write_fits :
    (p : List ℕ) (w : Wire)
    → length p ≤ w.room
    → write p w ≡ ok tt (record { written = w.written ++ p; room = w.room - length p })
unfolding write
write_fits p w h = rw (le→leb _ _ h)

-- Two writes that fit are one write.
pub write_two :
    (p q : List ℕ) (w : Wire)
    → length (p ++ q) ≤ w.room
    → (write p >> write q) w
      ≡ ok tt (record { written = w.written ++ (p ++ q); room = w.room - length (p ++ q) })
write_two p q w h = ground (
  arith,
  length-append p q,
  write_fits p w,
  write_fits q (record { written = w.written ++ p; room = w.room - length p }),
  append_assoc w.written p q,
)
