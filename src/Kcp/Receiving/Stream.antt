-- ===== src/Kcp/Receiving/Stream.antt =====
-- transport/internet/kcp/receiving.go: the bytes that a worker delivers over any run.
use reflex_network_project.Prelude.{
  ℕ, ◌+◌, ◌%◌, ◌^◌, ◌≡◌, refl, ap, subst, ◌∙◌, sym, inl, inr, none, some, List, [], ◌∷◌, ◌++◌,
  arith, leb, length, All, append_assoc, append-nil, Bool-cases, Option-cases, take-append-drop,
}
use reflex_network_project.Buffer.{IsValid}
use reflex_network_project.MultiBuffer.{MultiBuffer}
use reflex_network_project.MultiBuffer
use reflex_network_project.MultiBuffer.Content.{content, split_bytes_lem, is_empty→content}
use reflex_network_project.Kcp.Uint32
use reflex_network_project.Kcp.Segment.{DataSegment}
use reflex_network_project.Kcp.AckList.{AckList}
use reflex_network_project.Kcp.Receiving.{
  ReceivingWindow, ReceivingWorker, ConnectionView, lookup, has, set, detach, read_ready,
  read_multi_buffer, process_segment, process_sending_next, read, flush,
}
use reflex_network_project.Kcp.Receiving
use reflex_network_project.Kcp.Receiving.Delivery.{Carries, Entry, stream, read_ready_lem}

-- What other parts of a connection do with its receiving worker until it is released.
pub data Event : Type 0 where
  arrives : DataSegment → Event
  sending_next : ℕ → Event
  reads : ℕ → Event
  reads_buffers : Event
  flushes : ConnectionView → ℕ → Event

-- The bytes that the event gives the reader of the connection, and the worker behind it.
unfoldable pub step : Event → ReceivingWorker → List ℕ × ReceivingWorker
unfolding process_segment process_sending_next read read_multi_buffer flush content
step (arrives s) w = ([], process_segment s w)
step (sending_next n) w = ([], process_sending_next n w)
step (reads n) w = read n w
step reads_buffers w = let (mb, w') = read_multi_buffer w in (content mb, w')
step (flushes conn current) w = ([], (flush conn current w).0)

unfoldable pub run : List Event → ReceivingWorker → List ℕ × ReceivingWorker
unfolding step
run [] w = ([], w)
run (e ∷ es) w = let now = step e w in let later = run es now.1 in (now.0 ++ later.0, later.1)

abbrev pub waiting : ReceivingWorker → MultiBuffer
waiting w = elim w.left_over [ none ↦ [] | some mb ↦ mb ]

-- What the sender numbers with `n` is `p n`, and every segment that arrives carries its number's.
abbrev pub EventCarries : (ℕ → List ℕ) → Event → Type 0
EventCarries p (arrives s) = Carries p s
EventCarries p (sending_next n) = Unit
EventCarries p (reads n) = Unit
EventCarries p reads_buffers = Unit
EventCarries p (flushes conn current) = Unit

-- What was delivered and what waits are the sender's first `count` payloads.
pub record InOrder (p : ℕ → List ℕ) (delivered : List ℕ) (w : ReceivingWorker) : Type 0 where
  pub count : ℕ
  pub next_eq : w.next_number ≡ count % 2 ^ 32
  pub cached : All (Entry p) w.window
  pub valid : All IsValid (waiting w)
  pub in_order : delivered ++ content (waiting w) ≡ stream p count

set-Entry :
    (p : ℕ → List ℕ) (w : ReceivingWindow) (s : DataSegment)
    → All (Entry p) w
    → Carries p s
    → All (Entry p) (set w s.number s).1
unfolding set
set-Entry p w s all c = elim (Bool-cases (has w s.number)) [
  | inl there ↦ rw there all
  | inr new ↦ rw new (c, all)
]

process_segment-InOrder :
    (p : ℕ → List ℕ) (d : List ℕ) (w : ReceivingWorker) (s : DataSegment)
    → InOrder p d w
    → Carries p s
    → InOrder p d (process_segment s w)
unfolding process_segment
process_segment-InOrder p d w s o c =
    elim (Bool-cases (leb w.window_size (Uint32.sub s.number w.next_number))) [
      | inl outside ↦ rw outside o
      | inr inside ↦ rw inside (record {
        count = o.count;
        next_eq = o.next_eq;
        cached = set-Entry p w.window s o.cached c;
        valid = o.valid;
        in_order = o.in_order;
      })
    ]

-- What a read takes: the buffers, behind which nothing waits.
record Takes (p : ℕ → List ℕ) (d : List ℕ) (mb : MultiBuffer) (w : ReceivingWorker) : Type 0 where
  count : ℕ
  next_eq : w.next_number ≡ count % 2 ^ 32
  cached : All (Entry p) w.window
  none_left : w.left_over ≡ none
  valid : All IsValid mb
  in_order : d ++ content mb ≡ stream p count

read_multi_buffer-Takes :
    (p : ℕ → List ℕ) (d : List ℕ) (w : ReceivingWorker)
    → InOrder p d w
    → let (mb, w') = read_multi_buffer w in Takes p d mb w'
unfolding read_multi_buffer content
read_multi_buffer-Takes p d w o = elim (Option-cases w.left_over) [
  | inl empty ↦
      let before : d ≡ stream p o.count = sym (append-nil d) ∙ (rw empty at o.in_order) in
      let r =
        read_ready_lem p (length w.window) o.count w.next_number w.window (omega arith) o.next_eq
          o.cached in
      rw (read_multi_buffer, empty)
        (record {
          count = o.count + r.taken;
          next_eq = r.next_eq;
          cached = r.cached;
          none_left = empty;
          valid = r.valid;
          in_order = rw before r.in_order;
        })
  | inr (mb, left) ↦
      rw (read_multi_buffer, left)
        (record {
          count = o.count;
          next_eq = o.next_eq;
          cached = o.cached;
          none_left = refl;
          valid = rw left at o.valid;
          in_order = rw left at o.in_order;
        })
]

-- All that was taken is handed out.
Takes-all :
    (p : ℕ → List ℕ) (d out : List ℕ) (mb : MultiBuffer) (w : ReceivingWorker)
    → Takes p d mb w
    → out ≡ content mb
    → InOrder p (d ++ out) w
unfolding content
Takes-all p d out mb w t e =
    let gone : waiting w ≡ [] = rw t.none_left refl in
    record {
      count = t.count;
      next_eq = t.next_eq;
      cached = t.cached;
      valid = rw gone tt;
      in_order = rw (gone, e) (append-nil (d ++ content mb) ∙ t.in_order);
    }

-- A part of it is, and the rest waits.
Takes-part :
    (p : ℕ → List ℕ) (d out : List ℕ) (mb left : MultiBuffer) (w : ReceivingWorker)
    → Takes p d mb w
    → All IsValid left
    → out ++ content left ≡ content mb
    → InOrder p (d ++ out) (record w { left_over = some left })
Takes-part p d out mb left w t v e = record {
  count = t.count;
  next_eq = t.next_eq;
  cached = t.cached;
  valid = v;
  in_order = append_assoc d out (content left) ∙ (ap (◌++◌ d) e ∙ t.in_order);
}

read-InOrder :
    (p : ℕ → List ℕ) (n : ℕ) (d : List ℕ) (w : ReceivingWorker)
    → InOrder p d w
    → let (out, w') = read n w in InOrder p (d ++ out) w'
unfolding read
read-InOrder p n d w o =
    let (mb, w') = read_multi_buffer w in
    let t = read_multi_buffer-Takes p d w o in
    let cut = split_bytes_lem mb n t.valid in
    let (left, bytes) = MultiBuffer.split_bytes mb n in
    let whole : bytes ++ content left ≡ content mb =
      rw (cut.1, cut.2) (take-append-drop n (content mb)) in
    elim (Bool-cases (MultiBuffer.is_empty mb)) [
      | inl empty ↦ rw empty (Takes-all p d [] mb w' t (sym (is_empty→content mb t.valid empty)))
      | inr some_bytes ↦ elim (Bool-cases (MultiBuffer.is_empty left)) [
        | inl done ↦
            let all : bytes ≡ content mb =
              sym (append-nil bytes)
              ∙ (ap (◌++◌ bytes) (sym (is_empty→content left cut.0 done)) ∙ whole) in
            rw (some_bytes, done) (Takes-all p d bytes mb w' t all)
        | inr more ↦ rw (some_bytes, more) (Takes-part p d bytes mb left w' t cut.0 whole)
      ]
    ]

-- The acknowledgements are no part of it.
acklist-InOrder :
    (p : ℕ → List ℕ) (d : List ℕ) (w : ReceivingWorker) (acks : AckList)
    → InOrder p d w
    → InOrder p (d ++ []) (record w { acklist = acks })
acklist-InOrder p d w acks o = record {
  count = o.count;
  next_eq = o.next_eq;
  cached = o.cached;
  valid = o.valid;
  in_order = rw (append-nil d) o.in_order;
}

step-InOrder :
    (p : ℕ → List ℕ) (e : Event) (d : List ℕ) (w : ReceivingWorker)
    → InOrder p d w
    → EventCarries p e
    → let (out, w') = step e w in InOrder p (d ++ out) w'
unfolding step process_sending_next flush
step-InOrder p (arrives s) d w o c =
    subst (λ d'. InOrder p d' (process_segment s w)) (sym (append-nil d))
      (process_segment-InOrder p d w s o c)
step-InOrder p (sending_next n) d w o c = acklist-InOrder p d w _ o
step-InOrder p (reads n) d w o c = read-InOrder p n d w o
step-InOrder p reads_buffers d w o c = Takes-all p d _ _ _ (read_multi_buffer-Takes p d w o) refl
step-InOrder p (flushes conn current) d w o c = acklist-InOrder p d w _ o

run-InOrder :
    (p : ℕ → List ℕ) (es : List Event) (d : List ℕ) (w : ReceivingWorker)
    → InOrder p d w
    → All (EventCarries p) es
    → let (out, w') = run es w in InOrder p (d ++ out) w'
unfolding run
run-InOrder p [] d w o c = subst (λ d'. InOrder p d' w) (sym (append-nil d)) o
run-InOrder p (e ∷ es) d w o (c, cs) =
    let (out, w') = step e w in
    let later = run es w' in
    subst (λ d'. InOrder p d' later.1) (append_assoc d out later.0)
      (run-InOrder p es (d ++ out) w' (step-InOrder p e d w o c) cs)

-- Whatever segments arrive at a new worker, in whatever order, again or never, and however reads,
-- acknowledgements and flushes come between them, until the worker is released: if each carries what the sender numbered with its
-- number, then what was read, with what waits for the next read behind it, is the sender's first
-- payloads in the order of their numbers, none left out and none twice.
pub run-new-InOrder :
    (p : ℕ → List ℕ) (in_flight : ℕ) (es : List Event)
    → All (EventCarries p) es
    → let (out, w) = run es (Receiving.new in_flight) in InOrder p out w
unfolding Receiving.new stream content
run-new-InOrder p in_flight es c =
    run-InOrder p es [] (Receiving.new in_flight)
      (record { count = 0; next_eq = refl; cached = tt; valid = tt; in_order = refl }) c
