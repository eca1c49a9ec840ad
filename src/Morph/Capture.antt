-- ===== src/Morph/Capture.antt =====
-- proxy/reflex/morph.go: the distribution of captured sizes or delays.
use reflex_network_project.Prelude.{
  ℕ, suc, ◌+◌, ◌<◌, ◌≡◌, refl, ap, ◌∙◌, inl, inr, Option, none, some, List, [], ◌∷◌, map, arith,
  ◌==◌, if◌then◌else◌, length, Bool-cases,
}
use reflex_network_project.Prelude.Int.{
  ℤ, ltb_ℤ, eqb_ℤ, ◌<ℤ◌, eqb_ℤ→eq, eqb_ℤ_sym, lt_of_neither, ltb_ℤ→lt,
}
use reflex_network_project.Morph.{
  Float, Dist, count_one, count_all, weigh, insert_dist, sort_dists, calculate_distribution,
}

-- How often a value stands in the capture.
unfoldable pub occurrences : ℤ → List ℤ → ℕ
occurrences v [] = 0
occurrences v (x ∷ xs) = if eqb_ℤ x v then suc (occurrences v xs) else occurrences v xs

-- The count that the map holds for a value, 0 if it has none.
unfoldable pub frequency : ℤ → List (ℤ × ℕ) → ℕ
frequency v [] = 0
frequency v ((k, n) ∷ freq) = if eqb_ℤ k v then n else frequency v freq

-- The weight of the bucket for a value.
unfoldable pub weight_of : {W : Type 0} → ℤ → List (Dist W) → Option W
weight_of v [] = none
weight_of v (d ∷ ds) = if eqb_ℤ d.value v then some d.weight else weight_of v ds

abbrev pub AboveAll : {W : Type 0} → ℤ → List (Dist W) → Type 0
AboveAll v [] = Unit {0}
AboveAll v (d ∷ ds) = (v <ℤ d.value) × AboveAll v ds

-- Each bucket's value is below those behind it.
abbrev pub Increasing : {W : Type 0} → List (Dist W) → Type 0
Increasing [] = Unit {0}
Increasing (d ∷ ds) = AboveAll d.value ds × Increasing ds

abbrev AllPositive : List (ℤ × ℕ) → Type 0
AllPositive [] = Unit {0}
AllPositive ((k, n) ∷ freq) = (0 < n) × AllPositive freq

abbrev DistinctKeys : List (ℤ × ℕ) → Type 0
DistinctKeys [] = Unit {0}
DistinctKeys ((k, n) ∷ freq) = (frequency k freq ≡ 0) × DistinctKeys freq

frequency-count_one :
    (fl : Float) (v w : ℤ) (freq : List (ℤ × ℕ))
    → frequency v (count_one fl w freq)
      ≡ (if eqb_ℤ w v then suc (frequency v freq) else frequency v freq)
unfolding frequency count_one
frequency-count_one fl v w [] = refl
frequency-count_one fl v w ((k, n) ∷ freq) =
    ground (arith, frequency-count_one fl v w freq, eqb_ℤ→eq k w, eqb_ℤ→eq k v, eqb_ℤ→eq w v)

frequency-count_all :
    (fl : Float) (v : ℤ) (vs : List ℤ) (freq : List (ℤ × ℕ))
    → frequency v (count_all fl vs freq) ≡ frequency v freq + occurrences v vs
unfolding count_all occurrences
frequency-count_all fl v [] freq = omega arith
frequency-count_all fl v (x ∷ xs) freq =
    ground
      (arith, frequency-count_all fl v xs (count_one fl x freq), frequency-count_one fl v x freq)

count_one-AllPositive :
    (fl : Float) (w : ℤ) (freq : List (ℤ × ℕ))
    → AllPositive freq
    → AllPositive (count_one fl w freq)
unfolding count_one
count_one-AllPositive fl w [] h = omega arith
count_one-AllPositive fl w ((k, n) ∷ freq) h = ground (arith, count_one-AllPositive fl w freq h.1)

count_all-AllPositive :
    (fl : Float) (vs : List ℤ) (freq : List (ℤ × ℕ))
    → AllPositive freq
    → AllPositive (count_all fl vs freq)
unfolding count_all
count_all-AllPositive fl [] freq h = h
count_all-AllPositive fl (v ∷ vs) freq h =
    count_all-AllPositive fl vs (count_one fl v freq) (count_one-AllPositive fl v freq h)

count_all-frequency :
    (fl : Float) (v : ℤ) (values : List ℤ)
    → frequency v (count_all fl values []) ≡ occurrences v values
unfolding frequency
count_all-frequency fl v values = frequency-count_all fl v values [] ∙ omega arith

count_one-DistinctKeys :
    (fl : Float) (w : ℤ) (freq : List (ℤ × ℕ))
    → DistinctKeys freq
    → DistinctKeys (count_one fl w freq)
unfolding count_one frequency
count_one-DistinctKeys fl w [] h = (refl, tt)
count_one-DistinctKeys fl w ((k, n) ∷ freq) h =
    ground
      (arith, eqb_ℤ_sym k w, frequency-count_one fl k w freq, count_one-DistinctKeys fl w freq h.1)

count_all-DistinctKeys :
    (fl : Float) (vs : List ℤ) (freq : List (ℤ × ℕ))
    → DistinctKeys freq
    → DistinctKeys (count_all fl vs freq)
unfolding count_all
count_all-DistinctKeys fl [] freq h = h
count_all-DistinctKeys fl (v ∷ vs) freq h =
    count_all-DistinctKeys fl vs (count_one fl v freq) (count_one-DistinctKeys fl v freq h)

module _ (fl : Float) where
  open fl use {Carrier, div, of_int}

  -- The weight that a value with the given count has among `total` values.
  abbrev pub share : ℕ → ℕ → Option Carrier
  share total count = if count == 0 then none else some (div (of_int count) (of_int total))

  weight_of-weigh :
      (v : ℤ) (total : ℕ) (freq : List (ℤ × ℕ))
      → AllPositive freq
      → weight_of v (map (weigh fl total) freq) ≡ share total (frequency v freq)
  unfolding weight_of weigh frequency
  weight_of-weigh v total [] h = refl
  weight_of-weigh v total ((k, n) ∷ freq) h = ground (arith, weight_of-weigh v total freq h.1)

  weight_of-insert_dist :
      (v : ℤ) (d : Dist Carrier) (ds : List (Dist Carrier))
      → weight_of v (insert_dist fl d ds)
        ≡ (if eqb_ℤ d.value v then some d.weight else weight_of v ds)
  unfolding weight_of insert_dist
  weight_of-insert_dist v d [] = refl
  weight_of-insert_dist v d (e ∷ ds) =
      ground (arith, weight_of-insert_dist v d ds, eqb_ℤ→eq d.value v, eqb_ℤ→eq e.value v)

  weight_of-sort_dists :
      (v : ℤ) (ds : List (Dist Carrier)) → weight_of v (sort_dists fl ds) ≡ weight_of v ds
  unfolding sort_dists weight_of
  weight_of-sort_dists v [] = refl
  weight_of-sort_dists v (d ∷ ds) =
      weight_of-insert_dist v d (sort_dists fl ds) ∙ ground (arith, weight_of-sort_dists v ds)

  calculate_distribution-weight_of :
      (values : List ℤ) (v : ℤ)
      → weight_of v (calculate_distribution fl values)
        ≡ share (length values) (occurrences v values)
  unfolding calculate_distribution
  calculate_distribution-weight_of values v =
      let freq = count_all fl values [] in
      weight_of-sort_dists v (map (weigh fl (length values)) freq)
      ∙ (weight_of-weigh v (length values) freq (count_all-AllPositive fl values [] tt)
          ∙ ap (share (length values)) (count_all-frequency fl v values))

  AboveAll-insert_dist :
      (v : ℤ) (d : Dist Carrier) (ds : List (Dist Carrier))
      → v <ℤ d.value
      → AboveAll v ds
      → AboveAll v (insert_dist fl d ds)
  unfolding insert_dist
  AboveAll-insert_dist v d [] h k = (h, tt)
  AboveAll-insert_dist v d (e ∷ ds) h k = ground (arith, AboveAll-insert_dist v d ds h k.1)

  AboveAll-mono : (v w : ℤ) (ds : List (Dist Carrier)) → v <ℤ w → AboveAll w ds → AboveAll v ds
  AboveAll-mono v w [] h k = tt
  AboveAll-mono v w (d ∷ ds) h k = (omega arith, AboveAll-mono v w ds h k.1)

  -- Insertion keeps the order where the value is not there yet.
  insert_dist-Increasing :
      (d : Dist Carrier) (ds : List (Dist Carrier))
      → Increasing ds
      → weight_of d.value ds ≡ none
      → Increasing (insert_dist fl d ds)
  unfolding insert_dist weight_of
  insert_dist-Increasing d [] h absent = (tt, tt)
  insert_dist-Increasing d (e ∷ ds) h absent = elim (Bool-cases (ltb_ℤ e.value d.value)) [
    | inl below ↦ rw below (
      AboveAll-insert_dist e.value d ds (ltb_ℤ→lt e.value d.value below) h.0,
      insert_dist-Increasing d ds h.1 (ground arith),
    )
    | inr above ↦
        let less = lt_of_neither e.value d.value above (ground arith) in
        rw above ((less, AboveAll-mono d.value e.value ds less h.0), h)
  ]

  sort_dists-Increasing :
      (total : ℕ) (freq : List (ℤ × ℕ))
      → AllPositive freq
      → DistinctKeys freq
      → Increasing (sort_dists fl (map (weigh fl total) freq))
  unfolding sort_dists weigh
  sort_dists-Increasing total [] h k = tt
  sort_dists-Increasing total ((v, n) ∷ freq) h k =
      insert_dist-Increasing (weigh fl total (v, n)) (sort_dists fl (map (weigh fl total) freq))
        (sort_dists-Increasing total freq h.1 k.1)
        (weight_of-sort_dists v (map (weigh fl total) freq)
          ∙ (weight_of-weigh v total freq h.1 ∙ ap (share total) k.0))

  -- The distribution of a capture: its buckets stand in strictly increasing order of their values,
  -- a value that occurs has the bucket whose weight is its number of occurrences divided by the
  -- number of values, and a value that does not occur has none.
  pub calculate_distribution_lem :
      (values : List ℤ)
      → Increasing (calculate_distribution fl values)
        × ((v : ℤ)
            → weight_of v (calculate_distribution fl values)
              ≡ share (length values) (occurrences v values))
  calculate_distribution_lem values = (
    unfold calculate_distribution in
        sort_dists-Increasing (length values) (count_all fl values [])
          (count_all-AllPositive fl values [] tt) (count_all-DistinctKeys fl values [] tt),
    calculate_distribution-weight_of values,
  )
