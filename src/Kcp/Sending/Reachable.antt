-- ===== src/Kcp/Sending/Reachable.antt =====
-- transport/internet/kcp/sending.go: the order of the window over any run of an open worker.
use reflex_network_project.Prelude.{
  ℕ, suc, ◌+◌, ◌-◌, ◌^◌, ◌≤◌, ◌<◌, ◌≡◌, refl, ap, subst, ◌∙◌, sym, inl, inr, Bool, false, not, ◌||◌,
  Option, none, some, List, [], ◌∷◌, ◌++◌, arith, ltb, leb, ◌==◌, if◌then◌else◌, length, All,
  Bool-cases,
}
use reflex_network_project.Buffer.{Buffer}
use reflex_network_project.Kcp.Uint32
use reflex_network_project.Kcp.Segment.{DataSegment, AckSegment, new_data_segment}
use reflex_network_project.Kcp.AckList.{is_empty}
use reflex_network_project.Kcp.SendingWindow.{
  remove, no_segments, push_window, Flight, send_one, count_one, flush_cache, flush_window,
}
use reflex_network_project.Kcp.Sending.{
  SendingWorker, SenderView, process_receiving_next, process_segment, acknowledge, push, write,
  on_packet_loss, report_loss, process_ack, process_acks, flush, flush_limit, first_number,
  find_first_unacknowledged,
}
use reflex_network_project.Kcp.Sending
use reflex_network_project.Kcp.Sending.Numbers.{numbers, Rising}
use reflex_network_project.Kcp.Sending.Acknowledged.{
  Ordered, process_segment-Ordered, process_receiving_next-Ordered,
}
use reflex_network_project.Kcp.Sending.Stream.{
  Event, pushes, acknowledges, receiving_next, flushes, closes_write, releases, step, run,
  push-cases, report_loss-next,
}

Rising-snoc :
    (lo hi : ℕ) (ms : List ℕ) → lo ≤ hi → Rising lo hi ms → Rising lo (suc hi) (ms ++ (hi ∷ []))
Rising-snoc lo hi [] h r = (h, omega arith, tt)
Rising-snoc lo hi (m ∷ ms) h r =
    (r.0, omega (arith, r.1), Rising-snoc (suc m) hi ms (omega (arith, r.1)) r.2)

numbers-snoc :
    (ss : List DataSegment) (s : DataSegment)
    → numbers (ss ++ (s ∷ [])) ≡ numbers ss ++ (s.number ∷ [])
unfolding numbers
numbers-snoc [] s = refl
numbers-snoc (x ∷ xs) s = ap (◌∷◌ x.number) (numbers-snoc xs s)

first_number-snoc :
    (ss : List DataSegment) (s : DataSegment) (next : ℕ)
    → first_number (ss ++ (s ∷ [])) next ≡ first_number ss s.number
first_number-snoc [] s next = refl
first_number-snoc (x ∷ xs) s next = refl

-- Windows with the same numbers have the same first number.
first_number-numbers :
    (ss ts : List DataSegment) (next : ℕ)
    → numbers ss ≡ numbers ts
    → first_number ss next ≡ first_number ts next
unfolding numbers
first_number-numbers [] [] next e = refl
first_number-numbers [] (t ∷ ts) next e = cc
first_number-numbers (s ∷ ss) [] next e = cc
first_number-numbers (s ∷ ss) (t ∷ ts) next e = cc

first_below :
    (ss : List DataSegment) (lo hi : ℕ) → Rising lo hi (numbers ss) → first_number ss hi ≤ hi
unfolding numbers
first_below [] lo hi r = omega arith
first_below (s ∷ ss) lo hi r = omega (arith, r.1)

push-Ordered :
    (b : Buffer) (w : SendingWorker)
    → Ordered w
    → suc w.next_number < 2 ^ 31 - 1
    → Ordered (push b w).1 × ((push b w).1.next_number ≤ suc w.next_number)
unfolding push_window new_data_segment
push-Ordered b w o h = elim (push-cases b w) [
  | inl refused ↦ rw refused (o, omega arith)
  | inr taken ↦
      let cache = w.window.cache in
      let next : Uint32.add w.next_number 1 ≡ suc w.next_number = omega (arith, h) in
      let below : w.first_unacknowledged ≤ w.next_number =
        omega
          (arith, o.first_eq, first_below cache w.first_unacknowledged w.next_number o.rising) in
      rw (taken, next)
        (
          record {
            rising =
                rw
                  (numbers-snoc cache
                    (record new_data_segment { number = w.next_number; payload = some b }))
                  (Rising-snoc w.first_unacknowledged w.next_number (numbers cache) below o.rising);
            first_eq = o.first_eq ∙ sym (first_number-snoc cache _ (suc w.next_number));
            bounded = h;
          },
          omega arith,
        )
]

flush_cache-numbers :
    (write : DataSegment → DataSegment) (current rto max : ℕ) (ss : List DataSegment) (f : Flight)
    → ((t : DataSegment) → (write t).number ≡ t.number)
    → numbers (flush_cache write current rto max ss f).0 ≡ numbers ss
unfolding flush_cache numbers send_one
flush_cache-numbers write current rto max [] f same = refl
flush_cache-numbers write current rto max (s ∷ ss) f same =
    let sent = send_one write current rto s in
    let skip = flush_cache-numbers write current rto max ss f same in
    let go_on = flush_cache-numbers write current rto max ss (count_one s sent f) same in
    let more = numbers (flush_cache write current rto max ss (count_one s sent f)).0 in
    let number : sent.number ≡ s.number = same _ in
    elim (Bool-cases (leb 0x7FFFFFFF (Uint32.sub current s.timeout))) [
      | inl early ↦ simp early (ap (◌∷◌ s.number) skip)
      | inr late ↦ elim (Bool-cases (ltb (count_one s sent f).in_flight max)) [
        | inl room ↦ simp (late, room) (ap (λ n. n ∷ more) number ∙ ap (◌∷◌ s.number) go_on)
        | inr full ↦ simp (late, full) (ap (λ n. n ∷ numbers ss) number)
      ]
    ]

on_packet_loss-first :
    (conn : SenderView) (rate : ℕ) (w : SendingWorker)
    → (on_packet_loss conn rate w).first_unacknowledged ≡ w.first_unacknowledged
unfolding on_packet_loss
on_packet_loss-first conn rate w = elim (Bool-cases (not conn.congestion || (conn.timeout == 0))) [
  | inl off ↦ simp off refl
  | inr on ↦ simp on refl
]

report_loss-first :
    (conn : SenderView) (rate : Option ℕ) (w : SendingWorker)
    → (report_loss conn rate w).first_unacknowledged ≡ w.first_unacknowledged
unfolding report_loss
report_loss-first conn none w = refl
report_loss-first conn (some r) w = on_packet_loss-first conn r w

Ordered-same :
    (w w' : SendingWorker)
    → numbers w'.window.cache ≡ numbers w.window.cache
    → w'.first_unacknowledged ≡ w.first_unacknowledged
    → w'.next_number ≡ w.next_number
    → Ordered w
    → Ordered w'
Ordered-same w w' same first next o = record {
  rising = rw (same, first, next) o.rising;
  first_eq =
      first
      ∙ (o.first_eq
          ∙ rw next (sym (first_number-numbers w'.window.cache w.window.cache w.next_number same)));
  bounded = rw next o.bounded;
}

process_ack-next : (n : ℕ) (w : SendingWorker) → (process_ack n w).1.next_number ≡ w.next_number
unfolding process_ack find_first_unacknowledged
process_ack-next n w =
    elim (Bool-cases (
      ltb 0x7FFFFFFF (Uint32.sub n w.first_unacknowledged)
      || ltb (Uint32.sub n w.next_number) 0x7FFFFFFF)) [
        | inl out ↦ simp out refl
        | inr inside ↦ elim (Bool-cases (remove n w.window).0) [
          | inl removed ↦ simp (inside, removed) refl
          | inr kept ↦ simp (inside, kept) refl
        ]
      ]

process_acks-next :
    (ns : List ℕ) (top : ℕ × Bool) (w : SendingWorker)
    → (process_acks ns top w).1.next_number ≡ w.next_number
unfolding process_acks
process_acks-next [] top w = refl
process_acks-next (n ∷ ns) top w = process_acks-next ns _ (process_ack n w).1 ∙ process_ack-next n w

acknowledge-next :
    (current rto : ℕ) (seg : AckSegment) (w : SendingWorker)
    → (acknowledge current seg rto w).0.next_number ≡ w.next_number
unfolding acknowledge process_receiving_next find_first_unacknowledged
acknowledge-next current rto seg w =
    let remote =
      if ltb w.remote_next_number seg.receiving_window
      then seg.receiving_window
      else w.remote_next_number in
    let w1 = process_receiving_next seg.receiving_next (record w { remote_next_number = remote }) in
    let same : (process_acks seg.number_list (0, false) w1).1.next_number ≡ w.next_number =
      process_acks-next seg.number_list (0, false) w1 in
    let top = (process_acks seg.number_list (0, false) w1).0 in
    elim (Bool-cases (is_empty seg)) [
      | inl none_acked ↦ simp none_acked refl
      | inr acked ↦ elim (Bool-cases top.1) [
        | inl fast ↦ simp (acked, fast) same
        | inr slow ↦ simp (acked, slow) same
      ]
    ]

process_segment-next :
    (current rto : ℕ) (seg : AckSegment) (w : SendingWorker)
    → (process_segment current seg rto w).0.next_number ≡ w.next_number
unfolding process_segment
process_segment-next current rto seg w = elim (Bool-cases w.closed) [
  | inl closed ↦ simp closed refl
  | inr alive ↦ simp alive (acknowledge-next current rto seg w)
]

-- A flush moves times and the control window only.
flush-Ordered :
    (conn : SenderView) (current : ℕ) (w : SendingWorker)
    → Ordered w
    → Ordered (flush conn current w).0 × ((flush conn current w).0.next_number ≡ w.next_number)
unfolding flush flush_window
flush-Ordered conn current w o =
    let same =
      flush_cache-numbers (write conn w) current conn.timeout (flush_limit conn w) w.window.cache
        (record { total = w.window.total_in_flight_size; lost = 0; in_flight = 0; written = [] })
        (λ t. unfold write in refl) in
    elim (Bool-cases w.closed) [
      | inl closed ↦ simp closed (o, refl)
      | inr alive ↦ elim (Bool-cases (no_segments w.window.cache)) [
        | inl idle ↦
            simp (alive, idle)
              (record { rising = o.rising; first_eq = o.first_eq; bounded = o.bounded }, refl)
        | inr busy ↦
            simp (alive, busy)
              (
                Ordered-same w _ same (report_loss-first conn _ w) (report_loss-next conn _ w) o,
                report_loss-next conn _ w,
              )
      ]
    ]

-- What a connection does with its worker before it closes it. Numbers in an acknowledgement are
-- `uint32`.
abbrev pub Open : Event → Type 0
Open (pushes b) = Unit
Open (acknowledges current seg rto) = All (λ n. n < 2 ^ 32) seg.number_list
Open (receiving_next n) = Unit
Open (flushes conn current) = Unit
Open closes_write = ⊥
Open releases = ⊥

acknowledges-Ordered :
    (current rto : ℕ) (seg : AckSegment) (w : SendingWorker)
    → All (λ n. n < 2 ^ 32) seg.number_list
    → Ordered w
    → let w' = (process_segment current seg rto w).0 in
      Ordered w' × (w'.next_number ≡ w.next_number)
acknowledges-Ordered current rto seg w small o =
    let next = process_segment-next current rto seg w in
    elim (Bool-cases w.closed) [
      | inl closed ↦
          let gone : (process_segment current seg rto w).0 ≡ w =
            unfold process_segment in simp closed refl in
          (subst Ordered (sym gone) o, next)
      | inr alive ↦ ((process_segment-Ordered current rto seg w alive o small).0, next)
    ]

run-Ordered :
    (es : List Event) (w : SendingWorker)
    → All Open es
    → w.next_number + length es < 2 ^ 31 - 1
    → Ordered w
    → Ordered (run es w).1
unfolding run step
run-Ordered [] w live h o = o
run-Ordered (pushes b ∷ es) w (l, ls) h o =
    let (o', next) = push-Ordered b w o (omega (arith, h)) in
    run-Ordered es (push b w).1 ls (omega (arith, h, next)) o'
run-Ordered (acknowledges current seg rto ∷ es) w (l, ls) h o =
    let (o', next) = acknowledges-Ordered current rto seg w l o in
    run-Ordered es (process_segment current seg rto w).0 ls (omega (arith, h, next)) o'
run-Ordered (receiving_next n ∷ es) w (l, ls) h o =
    run-Ordered es (process_receiving_next n w) ls
      (unfold process_receiving_next find_first_unacknowledged in omega (arith, h))
      (process_receiving_next-Ordered n w o).0
run-Ordered (flushes conn current ∷ es) w (l, ls) h o =
    let (o', next) = flush-Ordered conn current w o in
    run-Ordered es (flush conn current w).0 ls (omega (arith, h, next)) o'
run-Ordered (closes_write ∷ es) w (l, ls) h o = absurd l
run-Ordered (releases ∷ es) w (l, ls) h o = absurd l

-- Until it is closed, and over fewer than `2 ^ 31 - 1` pushes, acknowledgements and flushes, a worker
-- stays ordered: the numbers in its window rise, between the first unacknowledged one, which is the
-- first in the window if there is any, and the next one.
pub run-new-Ordered :
    (conn : SenderView) (es : List Event)
    → All Open es
    → length es < 2 ^ 31 - 1
    → Ordered (run es (Sending.new conn)).1
unfolding Sending.new numbers
run-new-Ordered conn es live h =
    run-Ordered es (Sending.new conn) live (omega (arith, h))
      (record { rising = tt; first_eq = refl; bounded = omega arith })
