-- ===== src/Kcp/Sending/Limits.antt =====
-- transport/internet/kcp/sending.go: how much a flush sends, and the control window.
use reflex_network_project.Prelude.{
  ℕ, ◌+◌, ◌-◌, ◌^◌, ◌≤◌, ◌<◌, ◌≡◌, refl, inl, inr, List, [], ◌∷◌, arith, ltb, leb, length,
  length-append, Bool-cases, ltb→lt,
}
use reflex_network_project.Kcp.Uint32
use reflex_network_project.Kcp.Segment.{DataSegment}
use reflex_network_project.Kcp.SendingWindow.{
  no_segments, Flight, send_one, count_one, flush_cache, flush_window,
}
use reflex_network_project.Kcp.Sending.{SendingWorker, SenderView, write, flush, flush_limit}

length-flush_cache :
    (fill : DataSegment → DataSegment) (current rto max : ℕ) (ss : List DataSegment) (f : Flight)
    → max < 2 ^ 32
    → f.in_flight ≡ length f.written
    → f.in_flight ≤ max - 1
    → length (flush_cache fill current rto max ss f).1.written ≤ 1 + (max - 1)
unfolding flush_cache count_one
length-flush_cache fill current rto max [] f small same h = omega (arith, same, h)
length-flush_cache fill current rto max (s ∷ ss) f small same h =
    let sent = send_one fill current rto s in
    let skip = length-flush_cache fill current rto max ss f small same h in
    let more = length-append f.written (sent ∷ []) in
    elim (Bool-cases (leb 0x7FFFFFFF (Uint32.sub current s.timeout))) [
      | inl early ↦ simp early skip
      | inr late ↦ elim (Bool-cases (ltb (Uint32.add f.in_flight 1) max)) [
        | inl room ↦
            let less : Uint32.add f.in_flight 1 < max = ltb→lt _ _ room in
            simp (late, room)
              (length-flush_cache fill current rto max ss (count_one s sent f) small
                (omega (arith, same, more, h)) (omega (arith, less)))
        | inr full ↦ simp (late, full) (omega (arith, more, same, h))
      ]
    ]

-- A flush sends no more segments than its limit, or one where the limit is zero.
pub length-flush :
    (conn : SenderView) (current : ℕ) (w : SendingWorker)
    → length (flush conn current w).1.0 ≤ 1 + (flush_limit conn w - 1)
unfolding flush flush_window
length-flush conn current w =
    let small : flush_limit conn w < 2 ^ 32 = unfold flush_limit in omega arith in
    let most =
      length-flush_cache (write conn w) current conn.timeout (flush_limit conn w) w.window.cache
        (record { total = w.window.total_in_flight_size; lost = 0; in_flight = 0; written = [] })
        small refl (omega arith) in
    elim (Bool-cases w.closed) [
      | inl closed ↦ simp closed (omega arith)
      | inr alive ↦ elim (Bool-cases (no_segments w.window.cache)) [
        | inl idle ↦ simp (alive, idle) (omega arith)
        | inr busy ↦ simp (alive, busy) most
      ]
    ]
