-- ===== src/Kcp/Sending/Carried.antt =====
-- transport/internet/kcp/sending.go: the payloads of the segments in the window.
use reflex_network_project.Prelude.{
  ℕ, ◌/◌, ◌≢◌, ◌≡◌, refl, ◌∙◌, inl, inr, Bool, false, ◌&&◌, ◌||◌, List, [], ◌∷◌, ◌++◌, arith, ltb,
  leb, ◌==◌, if◌then◌else◌, All, Bool-cases,
}
use reflex_network_project.Kcp.Uint32
use reflex_network_project.Kcp.Segment.{DataSegment, AckSegment}
use reflex_network_project.Kcp.AckList.{is_empty}
use reflex_network_project.Kcp.Receiving.{detach}
use reflex_network_project.Kcp.Receiving.Delivery.{Carries}
use reflex_network_project.Kcp.SendingWindow.{
  SendingWindow, clear_cache, clear, fast_ack_cache, handle_fast_ack, remove_cache, remove, Flight,
  send_one, count_one, flush_cache, flush_window,
}
use reflex_network_project.Kcp.Sending.Numbers.{left_cache, left_cache-cons, remove-left}
use reflex_network_project.Kcp.Sending.{
  SendingWorker, find_first_unacknowledged, process_receiving_next, process_ack, process_acks,
  acknowledge, write,
}

module _ (p : ℕ → List ℕ) where
  abbrev pub AllCarry : List DataSegment → Type 0
  AllCarry ss = All (Carries p) ss

  pub All-append : (ss ts : List DataSegment) → AllCarry ss → AllCarry ts → AllCarry (ss ++ ts)
  All-append [] ts a b = b
  All-append (s ∷ ss) ts (h, a) b = (h, All-append ss ts a b)

  pub clear_cache-Carries :
      (una : ℕ) (ss : List DataSegment) → AllCarry ss → AllCarry (clear_cache una ss)
  unfolding clear_cache
  clear_cache-Carries una [] a = tt
  clear_cache-Carries una (s ∷ ss) (h, a) = elim (Bool-cases (leb una s.number)) [
    | inl stop ↦ rw stop (h, a)
    | inr go ↦ rw go (clear_cache-Carries una ss a)
  ]

  fast_ack_cache-Carries :
      (n rto : ℕ) (ss : List DataSegment) → AllCarry ss → AllCarry (fast_ack_cache n rto ss)
  unfolding fast_ack_cache detach
  fast_ack_cache-Carries n rto [] a = tt
  fast_ack_cache-Carries n rto (s ∷ ss) (h, a) =
      elim (Bool-cases ((n == s.number) || ltb 0x7FFFFFFF (Uint32.sub n s.number))) [
        | inl stop ↦ simp stop (h, a)
        | inr go ↦ elim (Bool-cases (ltb 0 s.transmit && ltb (rto / 3) s.timeout)) [
          | inl earlier ↦ simp (go, earlier) (h, fast_ack_cache-Carries n rto ss a)
          | inr same ↦ simp (go, same) (h, fast_ack_cache-Carries n rto ss a)
        ]
      ]

  left_cache-Carries : (n : ℕ) (ss : List DataSegment) → AllCarry ss → AllCarry (left_cache n ss)
  unfolding remove_cache
  left_cache-Carries n [] a = tt
  left_cache-Carries n (s ∷ ss) (c, a) = elim (Bool-cases (ltb n s.number)) [
    | inl before ↦ rw (left_cache, remove_cache, before) (c, a)
    | inr after ↦ elim (Bool-cases (s.number == n)) [
      | inl hit ↦ rw (left_cache, remove_cache, after, hit) a
      | inr miss ↦
          let other : n ≢ s.number = λ e. ground (arith, e, miss) in
          rw (left_cache-cons n s ss other after) (c, left_cache-Carries n ss a)
    ]
  ]

  send_one-Carries :
      (write : DataSegment → DataSegment) (current rto : ℕ) (s : DataSegment)
      → ((t : DataSegment) → Carries p t → Carries p (write t))
      → Carries p s
      → Carries p (send_one write current rto s)
  unfolding send_one detach
  send_one-Carries write current rto s keeps h = keeps _ h

  flush_cache-Carries :
      (write : DataSegment → DataSegment) (current rto max : ℕ) (ss : List DataSegment) (f : Flight)
      → ((t : DataSegment) → Carries p t → Carries p (write t))
      → AllCarry ss
      → AllCarry f.written
      → let (ss', f') = flush_cache write current rto max ss f in AllCarry ss' × AllCarry f'.written
  unfolding flush_cache count_one
  flush_cache-Carries write current rto max [] f keeps a b = (tt, b)
  flush_cache-Carries write current rto max (s ∷ ss) f keeps (h, a) b =
      let sent = send_one write current rto s in
      let now = send_one-Carries write current rto s keeps h in
      let more = All-append f.written (sent ∷ []) b (now, tt) in
      let skip = flush_cache-Carries write current rto max ss f keeps a b in
      let go_on = flush_cache-Carries write current rto max ss (count_one s sent f) keeps a more in
      elim (Bool-cases (leb 0x7FFFFFFF (Uint32.sub current s.timeout))) [
        | inl early ↦ simp early ((h, skip.0), skip.1)
        | inr late ↦ elim (Bool-cases (ltb (Uint32.add f.in_flight 1) max)) [
          | inl room ↦ simp (late, room) ((now, go_on.0), go_on.1)
          | inr full ↦ simp (late, full) ((now, a), more)
        ]
      ]

  pub flush_window-Carries :
      (write : DataSegment → DataSegment) (current rto max : ℕ) (sw : SendingWindow)
      → ((t : DataSegment) → Carries p t → Carries p (write t))
      → AllCarry sw.cache
      → let (sw', (written, rate)) = flush_window write current rto max sw in
        AllCarry sw'.cache × AllCarry written
  unfolding flush_window
  flush_window-Carries write current rto max sw keeps a =
      flush_cache-Carries write current rto max sw.cache _ keeps a tt

  process_ack-Carries :
      (n : ℕ) (w : SendingWorker)
      → AllCarry w.window.cache
      → let w' = (process_ack n w).1 in AllCarry w'.window.cache × (w'.next_number ≡ w.next_number)
  unfolding process_ack find_first_unacknowledged
  process_ack-Carries n w a =
      let left : AllCarry (remove n w.window).1.cache =
        rw (remove-left n w.window) (left_cache-Carries n w.window.cache a) in
      elim (Bool-cases (
        ltb 0x7FFFFFFF (Uint32.sub n w.first_unacknowledged)
        || ltb (Uint32.sub n w.next_number) 0x7FFFFFFF)) [
          | inl out ↦ simp out (a, refl)
          | inr inside ↦ elim (Bool-cases (remove n w.window).0) [
            | inl removed ↦ simp (inside, removed) (left, refl)
            | inr kept ↦ simp (inside, kept) (left, refl)
          ]
        ]

  process_acks-Carries :
      (ns : List ℕ) (top : ℕ × Bool) (w : SendingWorker)
      → AllCarry w.window.cache
      → let w' = (process_acks ns top w).1 in
        AllCarry w'.window.cache × (w'.next_number ≡ w.next_number)
  unfolding process_acks
  process_acks-Carries [] top w a = (a, refl)
  process_acks-Carries (n ∷ ns) top w a =
      let one = process_ack-Carries n w a in
      let rest = process_acks-Carries ns _ (process_ack n w).1 one.0 in (rest.0, rest.1 ∙ one.1)

  pub acknowledge-Carries :
      (current rto : ℕ) (seg : AckSegment) (w : SendingWorker)
      → AllCarry w.window.cache
      → let w' = (acknowledge current seg rto w).0 in
        AllCarry w'.window.cache × (w'.next_number ≡ w.next_number)
  unfolding acknowledge process_receiving_next find_first_unacknowledged clear handle_fast_ack
  acknowledge-Carries current rto seg w a =
      let remote =
        if ltb w.remote_next_number seg.receiving_window
        then seg.receiving_window
        else w.remote_next_number in
      let w1 =
        process_receiving_next seg.receiving_next (record w { remote_next_number = remote }) in
      let a1 = clear_cache-Carries seg.receiving_next w.window.cache a in
      let (a2, same) = process_acks-Carries seg.number_list (0, false) w1 a1 in
      let (top, w2) = process_acks seg.number_list (0, false) w1 in
      elim (Bool-cases (is_empty seg)) [
        | inl none_acked ↦ simp none_acked (a1, refl)
        | inr acked ↦ elim (Bool-cases top.1) [
          | inl fast ↦
              simp (acked, fast) (fast_ack_cache-Carries top.0 rto w2.window.cache a2, same)
          | inr slow ↦ simp (acked, slow) (a2, same)
        ]
      ]
