-- ===== src/Morph.antt =====
-- proxy/reflex/morph.go: traffic profiles, padding, control frames and capture statistics.
--
-- The weights are float64 values: their arithmetic is the parameter `Float`. Each draw of
-- `rand.Float64()` and the bytes of `crypto/rand` are arguments. Go's `int` and `time.Duration` are
-- integers `ℤ`; a duration from the network wraps at 64 bits as in the source.
pub mod Sampling
pub mod Padding
pub mod Control
pub mod Capture
use reflex_network_project.Prelude.{
  ℕ, ◌+◌, ◌-◌, ◌*◌, ◌^◌, ◌≡◌, Bool, true, false, Option, none, some, List, [], ◌∷◌, ◌++◌, map, ltb,
  leb, ◌==◌, if◌then◌else◌, length, take,
}
use reflex_network_project.Prelude.Int.{ℤ, pos, negsuc, ltb_ℤ, eqb_ℤ, to_i64}
use reflex_network_project.Prelude.Bytes.{uint16, uint64}
use reflex_network_project.Io.{Outcome, ok, err, Wire}
use reflex_network_project.Session.{
  Aead, Session, write_frame, frame_type_padding_ctrl, frame_type_timing_ctrl,
}

-- float64: 0.0, +, <=, / and the conversion from int.
pub record Float : Type 1 where
  pub Carrier : Type 0
  pub zero : Carrier
  pub add : Carrier → Carrier → Carrier
  pub le : Carrier → Carrier → Bool
  pub div : Carrier → Carrier → Carrier
  pub of_int : ℕ → Carrier

-- A bucket of a distribution. `PacketSizeDist` and `DelayDist` have this one shape: an int or a
-- time.Duration, and a weight.
pub record Dist (W : Type 0) : Type 0 where
  pub value : ℤ
  pub weight : W

pub record TrafficProfile (W : Type 0) : Type 0 where
  pub name : List ℕ
  pub packet_sizes : List (Dist W)
  pub delays : List (Dist W)
  pub next_packet_size : ℤ
  pub next_delay : ℤ

abbrev pub zero_ℤ : ℤ
zero_ℤ = pos 0

module _ (fl : Float) where
  open fl use {Carrier, add, le, div, of_int}

  -- `for _, dist := range dists`: the first bucket at which the running sum reaches the draw, and
  -- the last bucket if none does.
  unfoldable pub sample : Carrier → Carrier → Dist Carrier → List (Dist Carrier) → ℤ
  sample r cumsum d [] = d.value
  sample r cumsum d (e ∷ ds) =
      let sum = add cumsum d.weight in
      let rest = sample r sum e ds in if le r sum then d.value else rest

  abbrev pub sample_or_zero : Carrier → List (Dist Carrier) → ℤ
  sample_or_zero r [] = zero_ℤ
  sample_or_zero r (d ∷ ds) = sample r fl.zero d ds

  unfoldable pub get_packet_size : TrafficProfile Carrier → Carrier → ℤ × TrafficProfile Carrier
  get_packet_size p r =
      if ltb_ℤ zero_ℤ p.next_packet_size
      then (p.next_packet_size, record p { next_packet_size = zero_ℤ })
      else (sample_or_zero r p.packet_sizes, p)

  unfoldable pub get_delay : TrafficProfile Carrier → Carrier → ℤ × TrafficProfile Carrier
  get_delay p r =
      if ltb_ℤ zero_ℤ p.next_delay
      then (p.next_delay, record p { next_delay = zero_ℤ })
      else (sample_or_zero r p.delays, p)

  -- `calculateSizeDistribution` and `calculateDelayDistribution`: the frequencies, in a map.
  unfoldable pub count_one : ℤ → List (ℤ × ℕ) → List (ℤ × ℕ)
  count_one v [] = (v, 1) ∷ []
  count_one v ((k, n) ∷ freq) = if eqb_ℤ k v then (k, n + 1) ∷ freq else (k, n) ∷ count_one v freq

  unfoldable pub count_all : List ℤ → List (ℤ × ℕ) → List (ℤ × ℕ)
  count_all [] freq = freq
  count_all (v ∷ vs) freq = count_all vs (count_one v freq)

  unfoldable pub weigh : ℕ → ℤ × ℕ → Dist Carrier
  weigh total (v, count) = record { value = v; weight = div (of_int count) (of_int total) }

  -- `sort.Slice` by value.
  unfoldable pub insert_dist : Dist Carrier → List (Dist Carrier) → List (Dist Carrier)
  insert_dist d [] = d ∷ []
  insert_dist d (e ∷ ds) = if ltb_ℤ e.value d.value then e ∷ insert_dist d ds else d ∷ e ∷ ds

  unfoldable pub sort_dists : List (Dist Carrier) → List (Dist Carrier)
  sort_dists [] = []
  sort_dists (d ∷ ds) = insert_dist d (sort_dists ds)

  -- For no values Go returns nil, which is the empty list here.
  unfoldable pub calculate_distribution : List ℤ → List (Dist Carrier)
  calculate_distribution values = sort_dists (map (weigh (length values)) (count_all values []))

  unfoldable pub create_profile_from_capture : List ℕ → List ℤ → List ℤ → TrafficProfile Carrier
  create_profile_from_capture name packet_sizes delays = record {
    name = name;
    packet_sizes = calculate_distribution packet_sizes;
    delays = calculate_distribution delays;
    next_packet_size = zero_ℤ;
    next_delay = zero_ℤ;
  }

unfoldable pub set_next_packet_size : {W : Type 0} → TrafficProfile W → ℤ → TrafficProfile W
set_next_packet_size p size = record p { next_packet_size = size }

unfoldable pub set_next_delay : {W : Type 0} → TrafficProfile W → ℤ → TrafficProfile W
set_next_delay p delay = record p { next_delay = delay }

-- `noise n` stands for the n bytes that `crypto/rand` gives.
unfoldable pub add_padding : (ℕ → List ℕ) → List ℕ → ℤ → List ℕ
add_padding noise bytes (negsuc _) = bytes
add_padding noise bytes (pos target) =
    if target == 0
    then bytes
    else if leb target (length bytes)
    then take target bytes
    else bytes ++ noise (target - length bytes)

-- What a morphed write leaves behind: `slept` is the time that it waited.
pub record Morphed (W : Type 0) : Type 0 where
  pub session : Session
  pub profile : Option (TrafficProfile W)
  pub slept : ℤ
  pub result : Outcome Wire (Unit {0})

module _ (fl : Float) (a : Aead) (noise : ℕ → List ℕ) where
  open fl use {Carrier}

  -- `if d := profile.GetDelay(); d > 0 { time.Sleep(d) }`, where the write succeeded.
  unfoldable pub wait_after :
      TrafficProfile Carrier → Carrier → Session × Outcome Wire (Unit {0}) → Morphed Carrier
  unfolding get_delay
  wait_after p draw (s, err e w) = record {
    session = s;
    profile = some p;
    slept = zero_ℤ;
    result = err e w;
  }
  wait_after p draw (s, ok _ w) =
      let (d, p') = get_delay fl p draw in
      record {
        session = s;
        profile = some p';
        slept = if ltb_ℤ zero_ℤ d then d else zero_ℤ;
        result = ok tt w;
      }

  -- The two draws are those that the size and the delay would take.
  unfoldable pub write_frame_with_morphing :
      Session
      → Wire
      → ℕ
      → List ℕ
      → Option (TrafficProfile Carrier)
      → Carrier
      → Carrier
      → Morphed Carrier
  unfolding get_packet_size
  write_frame_with_morphing s w frame_type payload none size_draw delay_draw =
      let (s', result) = write_frame a s frame_type payload w in
      record { session = s'; profile = none; slept = zero_ℤ; result = result }
  write_frame_with_morphing s w frame_type payload (some p) size_draw delay_draw =
      let (target_size, p') = get_packet_size fl p size_draw in
      let morphed = add_padding noise payload target_size in
      wait_after p' delay_draw (write_frame a s frame_type morphed w)

abbrev pub millisecond : ℕ
millisecond = 1000000

unfoldable pub apply_control_frame :
    {W : Type 0} → Option (TrafficProfile W) → ℕ → List ℕ → Option (TrafficProfile W)
apply_control_frame none frame_type payload = none
apply_control_frame (some p) frame_type payload =
    if frame_type == frame_type_padding_ctrl
    then (if leb 2 (length payload)
        then some (set_next_packet_size p (pos (uint16 payload)))
        else some p)
    else if frame_type == frame_type_timing_ctrl
    then (if leb 8 (length payload)
        then some (set_next_delay p (to_i64 (uint64 payload * millisecond)))
        else some p)
    else some p
