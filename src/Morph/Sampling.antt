-- ===== src/Morph/Sampling.antt =====
-- proxy/reflex/morph.go: `GetPacketSize`, `GetDelay` and their one-shot overrides.
use reflex_network_project.Prelude.{
  ℕ, suc, ◌≡◌, refl, ◌⊎◌, inl, inr, Bool, true, false, List, [], ◌∷◌, arith, if◌then◌else◌, ◌≢◌,
}
use reflex_network_project.Prelude.Int.{ℤ, pos}
use reflex_network_project.Morph.{
  Float, Dist, TrafficProfile, zero_ℤ, sample, sample_or_zero, get_packet_size, get_delay,
  set_next_packet_size, set_next_delay,
}

-- The value of one of the buckets.
abbrev pub Among : {W : Type 0} → ℤ → List (Dist W) → Type 0
Among v [] = ⊥
Among v (d ∷ ds) = (v ≡ d.value) ⊎ Among v ds

if-Among :
    {W : Type 0} (u v : ℤ) (b : Bool) (ds : List (Dist W))
    → Among u ds
    → Among v ds
    → Among (if b then u else v) ds
if-Among u v true ds h k = h
if-Among u v false ds h k = k

module _ (fl : Float) where
  open fl use {Carrier}

  pub sample-Among :
      (r sum : Carrier) (d : Dist Carrier) (ds : List (Dist Carrier))
      → Among (sample fl r sum d ds) (d ∷ ds)
  unfolding sample
  sample-Among r sum d [] = inl refl
  sample-Among r sum d (e ∷ ds) =
      if-Among _ _ (fl.le r (fl.add sum d.weight)) (d ∷ e ∷ ds) (inl refl)
        (inr (sample-Among r (fl.add sum d.weight) e ds))

  sample_or_zero-Among :
      (r : Carrier) (ds : List (Dist Carrier)) → ds ≢ [] → Among (sample_or_zero fl r ds) ds
  sample_or_zero-Among r [] h = absurd (h refl)
  sample_or_zero-Among r (d ∷ ds) h = sample-Among r fl.zero d ds

  -- The size set for the next packet is given out once, whatever the draws: the first sample after
  -- it is that size, the second is a size of the profile's distribution, and no other field of the
  -- profile changes. The size is positive, and the distribution is not empty.
  pub get_packet_size-set_next_packet_size :
      (p : TrafficProfile Carrier) (n : ℕ) (x y : Carrier)
      → p.packet_sizes ≢ []
      → let (size, q) = get_packet_size fl (set_next_packet_size p (pos (suc n))) x in
        (size ≡ pos (suc n))
        × (q ≡ record p { next_packet_size = zero_ℤ })
        × Among (get_packet_size fl q y).0 p.packet_sizes
        × ((get_packet_size fl q y).1 ≡ q)
  unfolding get_packet_size set_next_packet_size
  get_packet_size-set_next_packet_size p n x y h =
      let q = record p { next_packet_size = zero_ℤ } in
      let once : get_packet_size fl (set_next_packet_size p (pos (suc n))) x ≡ (pos (suc n), q) =
        ground arith in
      rw once (refl, refl, sample_or_zero-Among y p.packet_sizes h, refl)

  -- The delay set for the next packet is given out once, whatever the draws: the first sample after it
  -- is that delay, the second is a delay of the profile's distribution, and no other field of the
  -- profile changes. The delay is positive, and the distribution is not empty.
  pub get_delay-set_next_delay :
      (p : TrafficProfile Carrier) (n : ℕ) (x y : Carrier)
      → p.delays ≢ []
      → let (delay, q) = get_delay fl (set_next_delay p (pos (suc n))) x in
        (delay ≡ pos (suc n))
        × (q ≡ record p { next_delay = zero_ℤ })
        × Among (get_delay fl q y).0 p.delays
        × ((get_delay fl q y).1 ≡ q)
  unfolding get_delay set_next_delay
  get_delay-set_next_delay p n x y h =
      let q = record p { next_delay = zero_ℤ } in
      let once : get_delay fl (set_next_delay p (pos (suc n))) x ≡ (pos (suc n), q) =
        ground arith in
      rw once (refl, refl, sample_or_zero-Among y p.delays h, refl)
