-- ===== src/Kcp/Sending/Numbers.antt =====
-- transport/internet/kcp/sending.go: the numbers in the window, as increasing lists.
use reflex_network_project.Prelude.{
  ℕ, suc, ◌≤◌, ◌<◌, ◌≡◌, ◌≢◌, refl, ap, sym, inl, inr, true, false, none, some, List, [], ◌∷◌,
  arith, ltb, leb, ◌==◌, if◌then◌else◌, length, Bool-cases, Option-cases, le→ltb, leb→le, ltb→lt,
}
use reflex_network_project.Kcp.Segment.{DataSegment, AckSegment}
use reflex_network_project.Kcp.SendingWindow.{
  SendingWindow, clear_cache, fast_ack_cache, remove_cache, remove,
}
use reflex_network_project.Kcp.Sending.{first_number}
use reflex_network_project.Kcp.AckList.{is_empty}

-- The numbers of the segments that wait to be acknowledged.
unfoldable pub numbers : List DataSegment → List ℕ
numbers [] = []
numbers (s ∷ ss) = s.number ∷ numbers ss

-- The numbers that an acknowledgement leaves: those it does not report one by one, from the next one
-- that the peer expects.
unfoldable pub without : ℕ → List ℕ → List ℕ
without n [] = []
without n (m ∷ ms) = if m == n then without n ms else m ∷ without n ms

unfoldable pub without_all : List ℕ → List ℕ → List ℕ
unfolding without
without_all [] ms = ms
without_all (n ∷ ns) ms = without_all ns (without n ms)

unfoldable pub from_number : ℕ → List ℕ → List ℕ
from_number una [] = []
from_number una (m ∷ ms) = if ltb m una then from_number una ms else m ∷ from_number una ms

-- Increasing numbers between two bounds.
abbrev pub Rising : ℕ → ℕ → List ℕ → Type 0
Rising lo hi [] = Unit
Rising lo hi (m ∷ ms) = (lo ≤ m) × (m < hi) × Rising (suc m) hi ms

pub Rising-weaken : (lo lo' hi : ℕ) (ms : List ℕ) → lo' ≤ lo → Rising lo hi ms → Rising lo' hi ms
Rising-weaken lo lo' hi [] h r = tt
Rising-weaken lo lo' hi (m ∷ ms) h r = (omega (arith, h, r.0), r.1, r.2)

-- Nothing is below or at a number that all others exceed.
pub from_number-Rising :
    (una lo hi : ℕ) (ms : List ℕ) → una ≤ lo → Rising lo hi ms → from_number una ms ≡ ms
unfolding from_number
from_number-Rising una lo hi [] h r = refl
from_number-Rising una lo hi (m ∷ ms) h r =
    rw
      (
        le→ltb m una (omega (arith, h, r.0)),
        from_number-Rising una (suc m) hi ms (omega (arith, h, r.0)) r.2,
      )
      refl

pub without-Rising : (n lo hi : ℕ) (ms : List ℕ) → n < lo → Rising lo hi ms → without n ms ≡ ms
unfolding without
without-Rising n lo hi [] h r = refl
without-Rising n lo hi (m ∷ ms) h r =
    let other : (m == n) ≡ false = ground (arith, h, r.0) in
    rw (other, without-Rising n (suc m) hi ms (omega (arith, h, r.0)) r.2) refl

pub without-Rising_above :
    (n lo hi : ℕ) (ms : List ℕ) → hi ≤ n → Rising lo hi ms → without n ms ≡ ms
unfolding without
without-Rising_above n lo hi [] h r = refl
without-Rising_above n lo hi (m ∷ ms) h r =
    let other : (m == n) ≡ false = ground (arith, h, r.1) in
    rw (other, without-Rising_above n (suc m) hi ms h r.2) refl

pub clear_cache-numbers :
    (una lo hi : ℕ) (ss : List DataSegment)
    → Rising lo hi (numbers ss)
    → numbers (clear_cache una ss) ≡ from_number una (numbers ss)
unfolding clear_cache numbers from_number
clear_cache-numbers una lo hi [] r = refl
clear_cache-numbers una lo hi (s ∷ ss) r = elim (Bool-cases (leb una s.number)) [
  | inl stop ↦
      let below : una ≤ s.number = leb→le una s.number stop in
      rw
        (
          stop,
          le→ltb s.number una below,
          from_number-Rising una (suc s.number) hi (numbers ss) (omega (arith, below)) r.2,
        )
        refl
  | inr go ↦
      let above : ltb s.number una ≡ true = ground (arith, go) in
      rw (go, above) (clear_cache-numbers una (suc s.number) hi ss r.2)
]

-- What `Remove` leaves in the list.
abbrev pub left_cache : ℕ → List DataSegment → List DataSegment
left_cache n ss = elim (remove_cache n ss) [ none ↦ ss | some ss' ↦ ss' ]

pub left_cache-cons :
    (n : ℕ) (s : DataSegment) (ss : List DataSegment)
    → n ≢ s.number
    → ltb n s.number ≡ false
    → left_cache n (s ∷ ss) ≡ s ∷ left_cache n ss
unfolding remove_cache
left_cache-cons n s ss other go =
    let miss : (s.number == n) ≡ false = ground (arith, other) in
    elim (Option-cases (remove_cache n ss)) [
      | inl gone ↦ rw (left_cache, remove_cache, go, miss, gone) refl
      | inr (ss', found) ↦ rw (left_cache, remove_cache, go, miss, found) refl
    ]

pub left_cache-numbers :
    (n lo hi : ℕ) (ss : List DataSegment)
    → Rising lo hi (numbers ss)
    → numbers (left_cache n ss) ≡ without n (numbers ss)
unfolding remove_cache numbers without
left_cache-numbers n lo hi [] r = refl
left_cache-numbers n lo hi (s ∷ ss) r = elim (Bool-cases (ltb n s.number)) [
  | inl before ↦
      let other : (s.number == n) ≡ false = ground (arith, before) in
      rw
        (
          left_cache,
          remove_cache,
          before,
          other,
          without-Rising n (suc s.number) hi (numbers ss) (omega (arith, ltb→lt n s.number before))
              r.2,
        )
        refl
  | inr after ↦ elim (Bool-cases (s.number == n)) [
    | inl hit ↦
        let same : s.number ≡ n = ground (arith, hit) in
        rw (left_cache, remove_cache, after, hit)
          (sym (without-Rising n (suc s.number) hi (numbers ss) (omega (arith, same)) r.2))
    | inr miss ↦
        let other : n ≢ s.number = λ e. ground (arith, e, miss) in
        rw (left_cache-cons n s ss other after, miss)
          (ap (◌∷◌ s.number) (left_cache-numbers n (suc s.number) hi ss r.2))
  ]
]

pub remove-left : (n : ℕ) (sw : SendingWindow) → (remove n sw).1.cache ≡ left_cache n sw.cache
unfolding remove
remove-left n sw = elim (Option-cases (remove_cache n sw.cache)) [
  | inl gone ↦ rw (remove, left_cache, gone) refl
  | inr (ss, found) ↦ rw (remove, left_cache, found) refl
]

pub remove-false : (n : ℕ) (sw : SendingWindow) → (remove n sw).0 ≡ false → (remove n sw).1 ≡ sw
unfolding remove
remove-false n sw h = elim (Option-cases (remove_cache n sw.cache)) [
  | inl gone ↦ rw (remove, gone) refl
  | inr (ss, found) ↦ cc (rw (remove, found) at h)
]

pub fast_ack_cache-numbers :
    (n rto : ℕ) (ss : List DataSegment) → numbers (fast_ack_cache n rto ss) ≡ numbers ss
unfolding fast_ack_cache numbers
fast_ack_cache-numbers n rto [] = refl
fast_ack_cache-numbers n rto (s ∷ ss) = ground (arith, fast_ack_cache-numbers n rto ss)

pub first_number-fast_ack_cache :
    (n rto : ℕ) (ss : List DataSegment) (next : ℕ)
    → first_number (fast_ack_cache n rto ss) next ≡ first_number ss next
unfolding fast_ack_cache
first_number-fast_ack_cache n rto [] next = refl
first_number-fast_ack_cache n rto (s ∷ ss) next = ground arith

pub without_all-none :
    (s : AckSegment) (ms : List ℕ) → is_empty s ≡ true → without_all s.number_list ms ≡ ms
unfolding without_all is_empty
without_all-none s ms h = go s.number_list (ground (arith, h))
  where
    go : (ns : List ℕ) → length ns ≡ 0 → without_all ns ms ≡ ms
    go [] e = refl
    go (n ∷ ns) e = absurd (omega arith)

pub Rising-first :
    (lo hi : ℕ) (ss : List DataSegment)
    → Rising lo hi (numbers ss)
    → Rising (first_number ss hi) hi (numbers ss)
unfolding numbers
Rising-first lo hi [] r = tt
Rising-first lo hi (s ∷ ss) r = (omega arith, r.1, r.2)

pub Rising-without : (n lo hi : ℕ) (ms : List ℕ) → Rising lo hi ms → Rising lo hi (without n ms)
unfolding without
Rising-without n lo hi [] r = tt
Rising-without n lo hi (m ∷ ms) r = elim (Bool-cases (m == n)) [
  | inl hit ↦ rw hit (
      Rising-weaken (suc m) lo hi (without n ms) (omega (arith, r.0))
        (Rising-without n (suc m) hi ms r.2))
  | inr miss ↦ rw miss (r.0, r.1, Rising-without n (suc m) hi ms r.2)
]

pub Rising-from_number :
    (una lo hi : ℕ) (ms : List ℕ) → Rising lo hi ms → Rising lo hi (from_number una ms)
unfolding from_number
Rising-from_number una lo hi [] r = tt
Rising-from_number una lo hi (m ∷ ms) r = elim (Bool-cases (ltb m una)) [
  | inl below ↦ rw below (
      Rising-weaken (suc m) lo hi (from_number una ms) (omega (arith, r.0))
        (Rising-from_number una (suc m) hi ms r.2))
  | inr above ↦ rw above (r.0, r.1, Rising-from_number una (suc m) hi ms r.2)
]
