-- ===== src/Kcp/RoundTripInfo.antt =====
-- transport/internet/kcp/connection.go: `RoundTripInfo`, from which the timeout of a segment comes. All
-- fields are `uint32`.
use reflex_network_project.Prelude.{
  ℕ, min, ◌+◌, ◌-◌, ◌*◌, ◌/◌, ◌%◌, ◌^◌, ◌≤◌, ◌<◌, arith, ltb, ◌==◌, if◌then◌else◌,
}
use reflex_network_project.Kcp.Uint32

pub record RoundTripInfo : Type 0 where
  pub variation : ℕ
  pub srtt : ℕ
  pub rto : ℕ
  pub min_rtt : ℕ
  pub updated_timestamp : ℕ

unfoldable pub update_peer_rto : ℕ → ℕ → RoundTripInfo → RoundTripInfo
update_peer_rto rto current info =
    if ltb (Uint32.sub current info.updated_timestamp) 3000
    then info
    else record info { updated_timestamp = current; rto = rto }

-- The smoothed time and the variation.
unfoldable pub smooth : ℕ → RoundTripInfo → RoundTripInfo
smooth rtt info =
    if info.srtt == 0
    then record info { srtt = rtt; variation = rtt / 2 }
    else (let delta = if ltb rtt info.srtt then info.srtt - rtt else Uint32.sub rtt info.srtt in
        let srtt = (7 * info.srtt + rtt) % 2 ^ 32 / 8 in
        record info {
          variation = (3 * info.variation + delta) % 2 ^ 32 / 4;
          srtt = if ltb srtt info.min_rtt then info.min_rtt else srtt;
        })

unfoldable pub update : ℕ → ℕ → RoundTripInfo → RoundTripInfo
unfolding smooth
update rtt current info =
    let s = smooth rtt info in
    let spread = 4 * s.variation % 2 ^ 32 in
    let rto =
      if ltb s.min_rtt spread then Uint32.add s.srtt spread else Uint32.add s.srtt s.variation in
    let capped = if ltb 10000 rto then 10000 else rto in
    if ltb 0x7FFFFFFF rtt
    then info
    else record s { rto = capped * 5 / 4; updated_timestamp = current }

-- After a sample the timeout is at most 12500 milliseconds, and at least five quarters of the smoothed
-- time where that is below 10000. The times are below `2 ^ 28`.
pub update_lem :
    (rtt current : ℕ) (info : RoundTripInfo)
    → rtt < 2 ^ 28
    → info.srtt < 2 ^ 28
    → info.variation < 2 ^ 28
    → info.min_rtt < 2 ^ 28
    → let after = update rtt current info in
      (after.rto ≤ 12500) × (min after.srtt 10000 * 5 / 4 ≤ after.rto)
unfolding update
update_lem rtt current info h1 h2 h3 h4 = ground (arith, h1, h2, h3, h4)
