-- ===== src/Kcp/Receiving/Complete.antt =====
-- transport/internet/kcp/receiving.go: the segments that a read finds in the window.
use reflex_network_project.Prelude.{
  ℕ, zero, suc, ◌^◌, ◌≤◌, ◌<◌, ◌≡◌, ◌≢◌, refl, subst, ◌∙◌, lt→leb, ◌⊎◌, inl, inr, true, false, none,
  some, List, [], ◌∷◌, arith, leb, ◌==◌, length, Bool-cases, Option-cases,
}
use reflex_network_project.Kcp.Uint32
use reflex_network_project.Kcp.Segment.{DataSegment}
use reflex_network_project.Kcp.Receiving.{
  ReceivingWindow, ReceivingWorker, lookup, delete, has, set, read_ready, read_multi_buffer,
  process_segment,
}
use reflex_network_project.Kcp.Receiving.Delivery.{
  lookup-delete_other, length-delete-some, read_ready-some,
}

has→lookup :
    (w : ReceivingWindow) (id : ℕ) → has w id ≡ true → (s : DataSegment) × (lookup w id ≡ some s)
unfolding has
has→lookup w id h = elim (Option-cases (lookup w id)) [
  | inl gone ↦ cc (rw (has, gone) at h)
  | inr found ↦ found
]

has-delete_other : (w : ReceivingWindow) (id j : ℕ) → j ≢ id → has (delete w id) j ≡ has w j
unfolding has
has-delete_other w id j h = rw (has, lookup-delete_other w id j h) refl

has-here : (w : ReceivingWindow) (id : ℕ) (s : DataSegment) → has ((id, s) ∷ w) id ≡ true
unfolding has lookup
has-here w id s = ground arith

has-behind :
    (w : ReceivingWindow) (k j : ℕ) (s : DataSegment) → has w j ≡ true → has ((k, s) ∷ w) j ≡ true
unfolding has lookup
has-behind w k j s h = elim (Bool-cases (k == j)) [
  | inl hit ↦ rw (has, lookup, hit) refl
  | inr miss ↦ rw (has, lookup, miss) h
]

has-set_new : (w : ReceivingWindow) (id : ℕ) (s : DataSegment) → has (set w id s).1 id ≡ true
unfolding set
has-set_new w id s = elim (Bool-cases (has w id)) [
  | inl there ↦ rw (set, there) there
  | inr new ↦ rw (set, new) (has-here w id s)
]

has-set_keeps :
    (w : ReceivingWindow) (id j : ℕ) (s : DataSegment)
    → has w j ≡ true
    → has (set w id s).1 j ≡ true
unfolding set
has-set_keeps w id j s h = elim (Bool-cases (has w id)) [
  | inl there ↦ rw (set, there) h
  | inr new ↦ rw (set, new) (has-behind w id j s h)
]

-- The loop goes on for as long as it finds the next number.
read_ready-length :
    (fuel n next : ℕ) (w : ReceivingWindow)
    → length w ≤ fuel
    → n ≤ 2 ^ 32
    → next < 2 ^ 32
    → ((i : ℕ) → i < n → has w (Uint32.add next i) ≡ true)
    → n ≤ length (read_ready fuel w next).0
read_ready-length fuel zero next w h small at all = omega arith
read_ready-length zero (suc n) next w h small at all = absurd (
    elim w as (λ v. length v ≤ 0 → has v (Uint32.add next 0) ≡ true → ⊥) [
      | [] ↦ (λ _ e. unfold has lookup in cc e)
      | x ∷ xs ↦ (λ le _. omega (arith, le))
    ]
      h (all 0 (omega arith)))
read_ready-length (suc fuel) (suc n) next w h small at all =
    let here : Uint32.add next 0 ≡ next = omega arith in
    let (s, found) = has→lookup w next (rw here at (all 0 (omega arith))) in
    let fewer = length-delete-some w next s found in
    let rest =
      read_ready-length fuel n (Uint32.add next 1) (delete w next) (omega (arith, fewer))
        (omega arith) (omega arith)
        (λ i less.
          let step : Uint32.add (Uint32.add next 1) i ≡ Uint32.add next (suc i) = omega arith in
          rw (step, has-delete_other w next (Uint32.add next (suc i)) (λ e. omega (arith, e)))
            (all (suc i) (omega (arith, less)))) in
    rw (read_ready-some fuel w next s found) (omega (arith, rest))

module _ (w : ReceivingWorker) (s : DataSegment) where
  process_segment-next : (process_segment s w).next_number ≡ w.next_number
  unfolding process_segment
  process_segment-next = ground arith

  process_segment-size : (process_segment s w).window_size ≡ w.window_size
  unfolding process_segment
  process_segment-size = ground arith

  process_segment-left : (process_segment s w).left_over ≡ w.left_over
  unfolding process_segment
  process_segment-left = ground arith

  process_segment-keeps :
      (id : ℕ) → has w.window id ≡ true → has (process_segment s w).window id ≡ true
  unfolding process_segment
  process_segment-keeps id h =
      elim (Bool-cases (leb w.window_size (Uint32.sub s.number w.next_number))) [
        | inl outside ↦ rw outside h
        | inr inside ↦ rw inside (has-set_keeps w.window s.number id s h)
      ]

  process_segment-stores :
      Uint32.sub s.number w.next_number < w.window_size
      → has (process_segment s w).window s.number ≡ true
  unfolding process_segment
  process_segment-stores less =
      let inside : leb w.window_size (Uint32.sub s.number w.next_number) ≡ false =
        lt→leb _ _ less in
      rw inside (has-set_new w.window s.number s)

abbrev pub Numbered : ℕ → List DataSegment → Type 0
Numbered id [] = ⊥
Numbered id (s ∷ ss) = (s.number ≡ id) ⊎ Numbered id ss

unfoldable pub arrive_all : List DataSegment → ReceivingWorker → ReceivingWorker
unfolding process_segment
arrive_all [] w = w
arrive_all (s ∷ ss) w = arrive_all ss (process_segment s w)

arrive_all-keeps :
    (ss : List DataSegment) (w : ReceivingWorker) (id : ℕ)
    → has w.window id ≡ true
    → has (arrive_all ss w).window id ≡ true
unfolding arrive_all
arrive_all-keeps [] w id h = h
arrive_all-keeps (s ∷ ss) w id h =
    arrive_all-keeps ss (process_segment s w) id (process_segment-keeps w s id h)

arrive_all-same :
    (ss : List DataSegment) (w : ReceivingWorker)
    → ((arrive_all ss w).next_number ≡ w.next_number) × ((arrive_all ss w).left_over ≡ w.left_over)
unfolding arrive_all
arrive_all-same [] w = (refl, refl)
arrive_all-same (s ∷ ss) w =
    let (n, l) = arrive_all-same ss (process_segment s w) in
    (n ∙ process_segment-next w s, l ∙ process_segment-left w s)

arrive_all-stores :
    (ss : List DataSegment) (w : ReceivingWorker) (id : ℕ)
    → Uint32.sub id w.next_number < w.window_size
    → Numbered id ss
    → has (arrive_all ss w).window id ≡ true
unfolding arrive_all
arrive_all-stores [] w id less here = absurd here
arrive_all-stores (s ∷ ss) w id less (inl it) = arrive_all-keeps ss (process_segment s w) id (
    subst (λ n. has (process_segment s w).window n ≡ true) it
      (process_segment-stores w s (rw it less)))
arrive_all-stores (s ∷ ss) w id less (inr behind) =
    arrive_all-stores ss (process_segment s w) id
      (rw (process_segment-next w s, process_segment-size w s) less) behind

-- Where the next `n` numbers of a window are among those of the segments that arrive, whatever their
-- order and whatever comes between them, the read that follows gives the buffers of `n` segments at
-- least. The window is not larger than the numbers are, and no earlier read left anything over.
pub read_multi_buffer-arrive_all :
    (w : ReceivingWorker) (ss : List DataSegment) (n : ℕ)
    → w.left_over ≡ none
    → w.next_number < 2 ^ 32
    → w.window_size ≤ 2 ^ 32
    → n ≤ w.window_size
    → ((i : ℕ) → i < n → Numbered (Uint32.add w.next_number i) ss)
    → n ≤ length (read_multi_buffer (arrive_all ss w)).0
unfolding read_multi_buffer
read_multi_buffer-arrive_all w ss n empty small size_ok le all =
    let (same_next, same_left) = arrive_all-same ss w in
    let v = arrive_all ss w in
    rw (read_multi_buffer, same_left, empty, same_next)
      (read_ready-length (length v.window) n w.next_number v.window (omega arith)
        (omega (arith, le)) small
        (λ i less.
          arrive_all-stores ss w (Uint32.add w.next_number i) (omega (arith, less)) (all i less)))
