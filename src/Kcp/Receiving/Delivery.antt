-- ===== src/Kcp/Receiving/Delivery.antt =====
-- transport/internet/kcp/receiving.go: the window, and the loop of `ReadMultiBuffer`.
use reflex_network_project.Prelude.{
  ℕ, zero, suc, ◌+◌, ◌%◌, ◌^◌, ◌≤◌, ◌<◌, ◌≡◌, ◌≢◌, refl, ap, subst, ◌∙◌, ◌⊎◌, sym, inl, inr, none,
  some, List, [], ◌∷◌, ◌++◌, arith, ◌==◌, length, All, append_assoc, append-nil, Bool-cases,
  Option-cases,
}
use reflex_network_project.Buffer.{Buffer, IsValid}
use reflex_network_project.Buffer
use reflex_network_project.MultiBuffer.{MultiBuffer}
use reflex_network_project.MultiBuffer.Content.{content}
use reflex_network_project.Kcp.Uint32
use reflex_network_project.Kcp.Segment.{DataSegment}
use reflex_network_project.Kcp.Receiving.{
  ReceivingWindow, lookup, delete, remove, detach, read_ready,
}

pub lookup-here :
    (k id : ℕ) (s : DataSegment) (w : ReceivingWindow)
    → ((k ≡ id) × (lookup ((k, s) ∷ w) id ≡ some s))
      ⊎ ((k ≢ id) × (lookup ((k, s) ∷ w) id ≡ lookup w id))
unfolding lookup
lookup-here k id s w = elim (Bool-cases (k == id)) [
  | inl hit ↦ inl (ground (arith, hit), ground (arith, hit))
  | inr miss ↦ inr ((λ h. ground (arith, miss, h)), ground (arith, miss))
]

-- Taking an entry out of a window takes that entry alone.
lookup-delete : (w : ReceivingWindow) (id : ℕ) → lookup (delete w id) id ≡ none
unfolding lookup delete
lookup-delete [] id = refl
lookup-delete ((k, s) ∷ w) id = ground (arith, lookup-delete w id)

pub lookup-delete_other :
    (w : ReceivingWindow) (id j : ℕ) → j ≢ id → lookup (delete w id) j ≡ lookup w j
unfolding lookup delete
lookup-delete_other [] id j h = refl
lookup-delete_other ((k, s) ∷ w) id j h = ground (arith, lookup-delete_other w id j h)

length-delete : (w : ReceivingWindow) (id : ℕ) → length (delete w id) ≤ length w
unfolding delete
length-delete [] id = omega arith
length-delete ((k, s) ∷ w) id = ground (arith, length-delete w id)

pub length-delete-some :
    (w : ReceivingWindow) (id : ℕ) (s : DataSegment)
    → lookup w id ≡ some s
    → length (delete w id) < length w
unfolding lookup delete
length-delete-some [] id s h = ground arith
length-delete-some ((k, t) ∷ w) id s h =
    ground (arith, length-delete w id, length-delete-some w id s)

pub read_ready-none :
    (fuel : ℕ) (w : ReceivingWindow) (next : ℕ)
    → lookup w next ≡ none
    → read_ready (suc fuel) w next ≡ ([], (w, next))
unfolding read_ready remove
read_ready-none fuel w next h = ground (arith, h)

pub read_ready-some :
    (fuel : ℕ) (w : ReceivingWindow) (next : ℕ) (s : DataSegment)
    → lookup w next ≡ some s
    → read_ready (suc fuel) w next ≡ (
        let rest = read_ready fuel (delete w next) (Uint32.add next 1) in
        (detach s ∷ rest.0, rest.1))
unfolding read_ready remove
read_ready-some fuel w next s h = ground (arith, h)

module _ (p : ℕ → List ℕ) where
  -- A segment that carries what the sender numbered with its number.
  abbrev pub Carries : DataSegment → Type 0
  Carries s = IsValid (detach s) × (Buffer.bytes (detach s) ≡ p s.number)

  abbrev pub Entry : ℕ × DataSegment → Type 0
  Entry e = IsValid (detach e.1) × (Buffer.bytes (detach e.1) ≡ p e.0)

  -- The first `n` payloads of the sender, one behind the other. Numbers wrap around.
  unfoldable pub stream : ℕ → List ℕ
  stream zero = []
  stream (suc n) = stream n ++ p (n % 2 ^ 32)

  lookup-Entry :
      (w : ReceivingWindow) (id : ℕ) (s : DataSegment)
      → All Entry w
      → lookup w id ≡ some s
      → Entry (id, s)
  unfolding lookup
  lookup-Entry [] id s all h = ground arith
  lookup-Entry ((k, t) ∷ w) id s (e, es) h = elim (lookup-here k id t w) [
    | inl (here, found) ↦
        let it : t ≡ s = cc in subst (λ n. Entry (n, s)) here (subst (λ u. Entry (k, u)) it e)
    | inr (other, passed) ↦ lookup-Entry w id s es (sym passed ∙ h)
  ]

  delete-Entry : (w : ReceivingWindow) (id : ℕ) → All Entry w → All Entry (delete w id)
  unfolding delete
  delete-Entry [] id all = tt
  delete-Entry ((k, t) ∷ w) id (e, es) = elim (Bool-cases (k == id)) [
    | inl hit ↦ rw hit (delete-Entry w id es)
    | inr miss ↦ rw miss (e, delete-Entry w id es)
  ]

  pub record Ran (k : ℕ) (mb : MultiBuffer) (w : ReceivingWindow) (next : ℕ) : Type 0 where
    pub taken : ℕ
    pub next_eq : next ≡ (k + taken) % 2 ^ 32
    pub cached : All Entry w
    pub valid : All IsValid mb
    pub in_order : stream k ++ content mb ≡ stream (k + taken)
    pub exhausted : lookup w next ≡ none

  -- One turn that finds its segment, and the turns behind it.
  Ran-step :
      (k next : ℕ) (s : DataSegment) (mb : MultiBuffer) (w : ReceivingWindow) (last : ℕ)
      → next ≡ k % 2 ^ 32
      → Entry (next, s)
      → Ran (suc k) mb w last
      → Ran k (detach s ∷ mb) w last
  unfolding stream content
  Ran-step k next s mb w last at e r =
      let plus : suc k + r.taken ≡ k + suc r.taken = omega arith in
      let now : Buffer.bytes (detach s) ≡ p (k % 2 ^ 32) = e.1 ∙ ap p at in
      record {
        taken = suc r.taken;
        next_eq = r.next_eq ∙ ap (λ n. n % 2 ^ 32) plus;
        cached = r.cached;
        valid = (e.0, r.valid);
        in_order = rw now (
            sym (append_assoc (stream k) (p (k % 2 ^ 32)) (content mb))
            ∙ (r.in_order ∙ ap stream plus));
        exhausted = r.exhausted;
      }

  Ran-stop :
      (k : ℕ) (w : ReceivingWindow) (next : ℕ)
      → next ≡ k % 2 ^ 32
      → All Entry w
      → lookup w next ≡ none
      → Ran k [] w next
  unfolding content
  Ran-stop k w next at all gone = record {
    taken = 0;
    next_eq = omega (arith, at);
    cached = all;
    valid = tt;
    in_order = append-nil (stream k) ∙ ap stream (omega arith);
    exhausted = gone;
  }

  pub read_ready_lem :
      (fuel k next : ℕ) (w : ReceivingWindow)
      → length w ≤ fuel
      → next ≡ k % 2 ^ 32
      → All Entry w
      → let (mb, (w', next')) = read_ready fuel w next in Ran k mb w' next'
  unfolding read_ready remove
  read_ready_lem zero k next [] h at all = Ran-stop k [] next at all (unfold lookup in refl)
  read_ready_lem zero k next (e ∷ w) h at all = absurd (omega arith)
  read_ready_lem (suc fuel) k next w h at all = elim (Option-cases (lookup w next)) [
    | inl gone ↦ rw (read_ready-none fuel w next gone) (Ran-stop k w next at all gone)
    | inr (s, found) ↦
        let fewer = length-delete-some w next s found in
        let rest =
          read_ready_lem fuel (suc k) (Uint32.add next 1) (delete w next) (omega (arith, fewer))
            (omega (arith, at)) (delete-Entry w next all) in
        rw (read_ready-some fuel w next s found)
          (Ran-step k next s _ _ _ at (lookup-Entry w next s all found) rest)
  ]
