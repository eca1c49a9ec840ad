-- ===== src/Kcp/Sending/Stream.antt =====
-- transport/internet/kcp/sending.go: the segments that a worker sends over any run.
use reflex_network_project.Prelude.{
  ℕ, ◌≡◌, ◌⊎◌, refl, inl, inr, true, false, not, ◌||◌, Option, none, some, List, [], ◌∷◌, ◌++◌, ltb,
  ◌==◌, if◌then◌else◌, length, Bool-cases,
}
use reflex_network_project.Buffer.{Buffer, IsValid}
use reflex_network_project.Buffer
use reflex_network_project.Kcp.Uint32
use reflex_network_project.Kcp.Segment.{DataSegment, AckSegment, new_data_segment}
use reflex_network_project.Kcp.Receiving.{detach}
use reflex_network_project.Kcp.Receiving.Delivery.{Carries}
use reflex_network_project.Kcp.SendingWindow.{no_segments, clear, push_window, flush_window}
use reflex_network_project.Kcp.Sending.{
  SendingWorker, SenderView, find_first_unacknowledged, process_receiving_next, process_segment,
  acknowledge, push, write, on_packet_loss, report_loss, flush, flush_limit, close_write,
}
use reflex_network_project.Kcp.Sending
use reflex_network_project.Kcp.Sending.Carried.{
  AllCarry, All-append, clear_cache-Carries, acknowledge-Carries, flush_window-Carries,
}

-- What other parts of a connection do with its sending worker.
pub data Event : Type 0 where
  pushes : Buffer → Event
  acknowledges : ℕ → AckSegment → ℕ → Event
  receiving_next : ℕ → Event
  flushes : SenderView → ℕ → Event
  closes_write : Event
  releases : Event

-- The segments that the event sends, and the worker behind it.
unfoldable pub step : Event → SendingWorker → List DataSegment × SendingWorker
unfolding push process_segment process_receiving_next flush close_write Sending.release
step (pushes b) w = ([], (push b w).1)
step (acknowledges current seg rto) w = ([], (process_segment current seg rto w).0)
step (receiving_next n) w = ([], process_receiving_next n w)
step (flushes conn current) w = let (w', (written, ping)) = flush conn current w in (written, w')
step closes_write w = ([], close_write w)
step releases w = ([], Sending.release w)

unfoldable pub run : List Event → SendingWorker → List DataSegment × SendingWorker
unfolding step
run [] w = ([], w)
run (e ∷ es) w = let now = step e w in let later = run es now.1 in (now.0 ++ later.0, later.1)

-- The buffers that `Push` takes, in order.
abbrev pub accepted : List Event → SendingWorker → List Buffer
accepted [] w = []
accepted (pushes b ∷ es) w =
    let rest = accepted es (step (pushes b) w).1 in if (push b w).0 then b ∷ rest else rest
accepted (acknowledges current seg rto ∷ es) w =
    accepted es (step (acknowledges current seg rto) w).1
accepted (receiving_next n ∷ es) w = accepted es (step (receiving_next n) w).1
accepted (flushes conn current ∷ es) w = accepted es (step (flushes conn current) w).1
accepted (closes_write ∷ es) w = accepted es (step closes_write w).1
accepted (releases ∷ es) w = accepted es (step releases w).1

-- The buffers, numbered from `n`, hold what `p` says. Numbers wrap around.
abbrev pub Holds : (ℕ → List ℕ) → ℕ → List Buffer → Type 0
Holds p n [] = Unit
Holds p n (b ∷ bs) = IsValid b × (Buffer.bytes b ≡ p n) × Holds p (Uint32.add n 1) bs

record Sends (p : ℕ → List ℕ) (next : ℕ) (written : List DataSegment) (w : SendingWorker)
    : Type 0 where
  waiting : AllCarry p w.window.cache
  sent : AllCarry p written
  next_eq : w.next_number ≡ next

-- A push is refused and changes nothing, or it numbers its buffer.
pub push-cases :
    (b : Buffer) (w : SendingWorker)
    → (push b w ≡ (false, w))
      ⊎ (push b w ≡ (
        true,
        record w {
          window = push_window w.next_number b w.window;
          next_number = Uint32.add w.next_number 1;
        },
      ))
unfolding push
push-cases b w = elim (Bool-cases w.closed) [
  | inl closed ↦ inl (simp closed refl)
  | inr alive ↦ elim (Bool-cases (ltb w.window_size (length w.window.cache))) [
    | inl full ↦ inl (simp (alive, full) refl)
    | inr room ↦ inr (simp (alive, room) refl)
  ]
]

on_packet_loss-next :
    (conn : SenderView) (rate : ℕ) (w : SendingWorker)
    → (on_packet_loss conn rate w).next_number ≡ w.next_number
unfolding on_packet_loss
on_packet_loss-next conn rate w = elim (Bool-cases (not conn.congestion || (conn.timeout == 0))) [
  | inl off ↦ simp off refl
  | inr on ↦ simp on refl
]

pub report_loss-next :
    (conn : SenderView) (rate : Option ℕ) (w : SendingWorker)
    → (report_loss conn rate w).next_number ≡ w.next_number
unfolding report_loss
report_loss-next conn none w = refl
report_loss-next conn (some r) w = on_packet_loss-next conn r w

module _ (p : ℕ → List ℕ) (w : SendingWorker) (a : AllCarry p w.window.cache) where
  process_segment-Sends :
      (current rto : ℕ) (seg : AckSegment)
      → Sends p w.next_number [] (process_segment current seg rto w).0
  unfolding process_segment
  process_segment-Sends current rto seg = elim (Bool-cases w.closed) [
    | inl closed ↦ simp closed (record { waiting = a; sent = tt; next_eq = refl })
    | inr alive ↦
        let (left, same) = acknowledge-Carries p current rto seg w a in
        simp alive (record { waiting = left; sent = tt; next_eq = same })
  ]

  flush-Sends :
      (conn : SenderView) (current : ℕ)
      → let (w', (written, ping)) = flush conn current w in Sends p w.next_number written w'
  unfolding flush
  flush-Sends conn current =
      let sent = flush_window (write conn w) current conn.timeout (flush_limit conn w) w.window in
      let keeps : (t : DataSegment) → Carries p t → Carries p (write conn w t) =
        λ t c. unfold write detach in c in
      let (waiting, written) =
        flush_window-Carries p (write conn w) current conn.timeout (flush_limit conn w) w.window
          keeps a in
      elim (Bool-cases w.closed) [
        | inl closed ↦ simp closed (record { waiting = a; sent = tt; next_eq = refl })
        | inr alive ↦ elim (Bool-cases (no_segments w.window.cache)) [
          | inl idle ↦ simp (alive, idle) (record { waiting = a; sent = tt; next_eq = refl })
          | inr busy ↦
              simp (alive, busy)
                (record {
                  waiting = waiting;
                  sent = written;
                  next_eq = report_loss-next conn sent.1.1 w;
                })
        ]
      ]

run-Carries :
    (p : ℕ → List ℕ) (es : List Event) (w : SendingWorker)
    → AllCarry p w.window.cache
    → Holds p w.next_number (accepted es w)
    → AllCarry p (run es w).0
unfolding run step process_receiving_next find_first_unacknowledged clear close_write
    Sending.release push_window detach new_data_segment
run-Carries p [] w a h = tt
run-Carries p (pushes b ∷ es) w a h = elim (push-cases b w) [
  | inl refused ↦ rw refused (run-Carries p es w a (rw refused at h))
  | inr taken ↦
      let (v, e, rest) = rw taken at h in
      rw taken (run-Carries p es _ (All-append p w.window.cache _ a ((v, e), tt)) rest)
]
run-Carries p (acknowledges current seg rto ∷ es) w a h =
    let s = process_segment-Sends p w a current rto seg in
    run-Carries p es (process_segment current seg rto w).0 s.waiting (rw s.next_eq h)
run-Carries p (receiving_next n ∷ es) w a h =
    run-Carries p es (process_receiving_next n w) (clear_cache-Carries p n w.window.cache a) h
run-Carries p (flushes conn current ∷ es) w a h =
    let s = flush-Sends p w a conn current in
    All-append p (flush conn current w).1.0 _ s.sent
      (run-Carries p es (flush conn current w).0 s.waiting (rw s.next_eq h))
run-Carries p (closes_write ∷ es) w a h =
    run-Carries p es (close_write w) (clear_cache-Carries p 0xFFFFFFFF w.window.cache a) h
run-Carries p (releases ∷ es) w a h = run-Carries p es (Sending.release w) tt h

-- Whatever is done with a new worker, and in whatever order, each segment that it sends, for the first
-- time or again, carries the payload that was pushed with its number.
pub run-new-Carries :
    (p : ℕ → List ℕ) (conn : SenderView) (es : List Event)
    → Holds p 0 (accepted es (Sending.new conn))
    → AllCarry p (run es (Sending.new conn)).0
run-new-Carries p conn es h =
    run-Carries p es (Sending.new conn) (unfold Sending.new in tt) (unfold Sending.new in h)
