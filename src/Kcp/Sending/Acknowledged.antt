-- ===== src/Kcp/Sending/Acknowledged.antt =====
-- transport/internet/kcp/sending.go: acknowledgements and the numbers in the window.
use reflex_network_project.Prelude.{
  ℕ, ◌-◌, ◌^◌, ◌<◌, ◌≡◌, refl, ap, ◌∙◌, sym, inl, inr, Bool, true, false, ◌||◌, List, [], ◌∷◌,
  arith, ltb, if◌then◌else◌, All, Bool-cases, ltb→lt,
}
use reflex_network_project.Kcp.Uint32
use reflex_network_project.Kcp.Segment.{AckSegment}
use reflex_network_project.Kcp.SendingWindow.{clear, handle_fast_ack, remove}
use reflex_network_project.Kcp.Sending.{
  SendingWorker, find_first_unacknowledged, process_receiving_next, process_ack, process_acks,
  process_segment, acknowledge, first_number,
}
use reflex_network_project.Kcp.AckList.{is_empty}
use reflex_network_project.Kcp.Sending.Numbers.{
  without-Rising, without-Rising_above, clear_cache-numbers, left_cache-numbers,
  fast_ack_cache-numbers, first_number-fast_ack_cache, without_all-none, Rising-first,
  Rising-without, Rising-from_number, remove-left, remove-false, numbers, without, without_all,
  from_number, Rising,
}

-- A worker that has numbered fewer than `2 ^ 31 - 1` segments: the numbers in the window rise from the
-- first unacknowledged one, and stay below the next.
pub record Ordered (w : SendingWorker) : Type 0 where
  pub rising : Rising w.first_unacknowledged w.next_number (numbers w.window.cache)
  pub first_eq : w.first_unacknowledged ≡ first_number w.window.cache w.next_number
  pub bounded : w.next_number < 2 ^ 31 - 1

-- A worker after `FindFirstUnacknowledged` is ordered if its window is.
find_first_unacknowledged-Ordered :
    (w : SendingWorker) (lo : ℕ)
    → Rising lo w.next_number (numbers w.window.cache)
    → w.next_number < 2 ^ 31 - 1
    → Ordered (find_first_unacknowledged w)
unfolding find_first_unacknowledged
find_first_unacknowledged-Ordered w lo r h = record {
  rising = Rising-first lo w.next_number w.window.cache r;
  first_eq = refl;
  bounded = h;
}

-- Where `processAck` does not look into the window, the number is not in it.
outside :
    (n first next : ℕ) (ms : List ℕ)
    → next < 2 ^ 31 - 1
    → Rising first next ms
    → (ltb 0x7FFFFFFF (Uint32.sub n first) || ltb (Uint32.sub n next) 0x7FFFFFFF) ≡ true
    → n < 2 ^ 32
    → without n ms ≡ ms
outside n first next [] h r out small = unfold without in refl
outside n first next (m ∷ ms) h r out small = elim (Bool-cases (ltb n first)) [
  | inl below ↦ without-Rising n first next (m ∷ ms) (ltb→lt n first below) r
  | inr not_below ↦
      without-Rising_above n first next (m ∷ ms)
        (ground (arith, not_below, out, small, h, r.0, r.1)) r
]

process_ack-Ordered :
    (n : ℕ) (w : SendingWorker)
    → n < 2 ^ 32
    → Ordered w
    → let w' = (process_ack n w).1 in
      Ordered w' × (numbers w'.window.cache ≡ without n (numbers w.window.cache))
unfolding process_ack
process_ack-Ordered n w small o =
    elim (Bool-cases (
      ltb 0x7FFFFFFF (Uint32.sub n w.first_unacknowledged)
      || ltb (Uint32.sub n w.next_number) 0x7FFFFFFF)) [
        | inl out ↦ rw out (
          o,
          sym (
              outside n w.first_unacknowledged w.next_number (numbers w.window.cache) o.bounded
                o.rising out small),
        )
        | inr inside ↦
            let cache = w.window.cache in
            let left : numbers (remove n w.window).1.cache ≡ without n (numbers cache) =
              ap numbers (remove-left n w.window)
              ∙ left_cache-numbers n w.first_unacknowledged w.next_number cache o.rising in
            elim (Bool-cases (remove n w.window).0) [
              | inl removed ↦
                  rw (inside, removed)
                    (
                      find_first_unacknowledged-Ordered
                          (record w { window = (remove n w.window).1 }) w.first_unacknowledged
                          (rw left (
                            Rising-without n w.first_unacknowledged w.next_number (numbers cache)
                              o.rising))
                          o.bounded,
                      left,
                    )
              | inr kept ↦
                  let same = remove-false n w.window kept in
                  rw (inside, kept, same) (o, ap (λ sw. numbers sw.cache) (sym same) ∙ left)
            ]
      ]

process_acks-Ordered :
    (ns : List ℕ) (top : ℕ × Bool) (w : SendingWorker)
    → All (λ n. n < 2 ^ 32) ns
    → Ordered w
    → let w' = (process_acks ns top w).1 in
      Ordered w' × (numbers w'.window.cache ≡ without_all ns (numbers w.window.cache))
unfolding process_acks without_all
process_acks-Ordered [] top w small o = (o, refl)
process_acks-Ordered (n ∷ ns) top w (h, hs) o =
    let one = process_ack-Ordered n w h o in
    let rest = process_acks-Ordered ns _ (process_ack n w).1 hs one.0 in
    (rest.0, rest.1 ∙ ap (without_all ns) one.1)

pub process_receiving_next-Ordered :
    (una : ℕ) (w : SendingWorker)
    → Ordered w
    → let w' = process_receiving_next una w in
      Ordered w' × (numbers w'.window.cache ≡ from_number una (numbers w.window.cache))
unfolding process_receiving_next clear
process_receiving_next-Ordered una w o =
    let left =
      clear_cache-numbers una w.first_unacknowledged w.next_number w.window.cache o.rising in
    (
      find_first_unacknowledged-Ordered (record w { window = clear una w.window })
          w.first_unacknowledged
          (rw left (
            Rising-from_number una w.first_unacknowledged w.next_number (numbers w.window.cache)
              o.rising))
          o.bounded,
      left,
    )

handle_fast_ack-Ordered :
    (n rto : ℕ) (w : SendingWorker)
    → Ordered w
    → let w' = record w { window = handle_fast_ack n rto w.window } in
      Ordered w' × (numbers w'.window.cache ≡ numbers w.window.cache)
unfolding handle_fast_ack
handle_fast_ack-Ordered n rto w o =
    let same = fast_ack_cache-numbers n rto w.window.cache in
    (
      record {
        rising = rw same o.rising;
        first_eq =
            o.first_eq ∙ sym (first_number-fast_ack_cache n rto w.window.cache w.next_number);
        bounded = o.bounded;
      },
      same,
    )

acknowledge-Ordered :
    (current rto : ℕ) (seg : AckSegment) (w : SendingWorker)
    → Ordered w
    → All (λ n. n < 2 ^ 32) seg.number_list
    → let w' = (acknowledge current seg rto w).0 in
      Ordered w'
      × (numbers w'.window.cache
          ≡ without_all seg.number_list (from_number seg.receiving_next (numbers w.window.cache)))
unfolding acknowledge
acknowledge-Ordered current rto seg w o small =
    let remote =
      if ltb w.remote_next_number seg.receiving_window
      then seg.receiving_window
      else w.remote_next_number in
    let (o1, left1) =
      process_receiving_next-Ordered seg.receiving_next (record w { remote_next_number = remote })
        (record { rising = o.rising; first_eq = o.first_eq; bounded = o.bounded }) in
    let w1 = process_receiving_next seg.receiving_next (record w { remote_next_number = remote }) in
    let (o2, left2) = process_acks-Ordered seg.number_list (0, false) w1 small o1 in
    let (top, w2) = process_acks seg.number_list (0, false) w1 in
    let (o3, left3) = handle_fast_ack-Ordered top.0 rto w2 o2 in
    let left = left2 ∙ ap (without_all seg.number_list) left1 in
    elim (Bool-cases (is_empty seg)) [
      | inl none_acked ↦ rw none_acked (o1, left1 ∙ sym (without_all-none seg _ none_acked))
      | inr acked ↦ elim (Bool-cases top.1) [
        | inl fast ↦ rw (acked, fast) (o3, left3 ∙ left)
        | inr slow ↦ rw (acked, slow) (o2, left)
      ]
    ]

-- An acknowledgement that a worker takes, before it is closed, leaves in the window exactly the
-- segments whose numbers are not below the next one that the peer expects and are not among those that
-- it reports. The worker, which has numbered fewer than `2 ^ 31 - 1` segments, stays ordered: the
-- numbers rise, and the first unacknowledged one is the first in the window, or the next to be given.
pub process_segment-Ordered :
    (current rto : ℕ) (seg : AckSegment) (w : SendingWorker)
    → w.closed ≡ false
    → Ordered w
    → All (λ n. n < 2 ^ 32) seg.number_list
    → let w' = (process_segment current seg rto w).0 in
      Ordered w'
      × (numbers w'.window.cache
          ≡ without_all seg.number_list (from_number seg.receiving_next (numbers w.window.cache)))
unfolding process_segment
process_segment-Ordered current rto seg w alive o small =
    simp alive (acknowledge-Ordered current rto seg w o small)
