-- ===== src/Kcp/AckList/Flushing.antt =====
-- transport/internet/kcp/receiving.go: what `AckList.Flush` reports, and when it reports it again.
use reflex_network_project.Prelude.{
  ℕ, suc, ◌+◌, ◌^◌, ◌<◌, ◌≡◌, refl, ap, ◌∙◌, sym, inl, inr, false, not, ◌||◌, List, [], ◌∷◌, ◌++◌,
  arith, length, take, min, All, length-append, append_assoc, append-nil, Bool-cases, take-take,
}
use reflex_network_project.Kcp.Segment.{AckSegment, new_ack_segment}
use reflex_network_project.Kcp.AckList.{
  AckList, AckEntry, Flush, flush_timeout, put_number, is_full, is_empty, flush_entries,
  put_candidates, flush,
}
use reflex_network_project.Kcp.AckList.Loop.{
  numbers, due, not_due, sent, Short, Loop, sent-append, All-snoc, flush_entries-Loop,
  not_full_room,
}

put_candidates_lem :
    (ns : List ℕ) (s : AckSegment)
    → Short s
    → (k : ℕ) × ((put_candidates ns s).number_list ≡ s.number_list ++ take k ns)
      × Short (put_candidates ns s)
unfolding put_candidates put_number
put_candidates_lem [] s h = (0, sym (append-nil s.number_list), h)
put_candidates_lem (n ∷ ns) s h = elim (Bool-cases (is_full s)) [
  | inl full ↦ rw full (0, sym (append-nil s.number_list), h)
  | inr room ↦
      let more =
        put_candidates_lem ns (put_number n s)
          (omega (arith, h, not_full_room s room, length-append s.number_list (n ∷ []))) in
      rw room (suc more.0, more.1 ∙ append_assoc s.number_list (n ∷ []) (take more.0 ns), more.2)
]

with_candidates :
    (current rto : ℕ) (es : List AckEntry) (f : Flush) (k : ℕ) (s : AckSegment)
    → Loop current rto es f
    → s.number_list ≡ f.segment.number_list ++ take k f.candidates
    → sent (f.written ++ (s ∷ [])) ≡ due current es ++ take (min k 128) (not_due current es)
unfolding sent
with_candidates current rto es f k s loop more =
    rw
      (
        sent-append f.written (s ∷ []),
        append-nil s.number_list,
        more,
        loop.held,
        take-take k 128 (not_due current es),
        sym loop.reported,
      )
      (sym (
        append_assoc (sent f.written) f.segment.number_list
          (take (min k 128) (not_due current es))))

nothing_left :
    (f : Flush) → (f.dirty || not (is_empty f.segment)) ≡ false → f.segment.number_list ≡ []
nothing_left f h = length_zero f.segment.number_list (unfold is_empty in ground (arith, h))
  where
    length_zero : (ns : List ℕ) → length ns ≡ 0 → ns ≡ []
    length_zero [] e = refl
    length_zero (n ∷ ns) e = absurd (omega arith)

without_candidates :
    (current rto : ℕ) (es : List AckEntry) (f : Flush)
    → Loop current rto es f
    → f.segment.number_list ≡ []
    → sent f.written ≡ due current es ++ []
without_candidates current rto es f loop none =
    sym (append-nil (sent f.written))
    ∙ (ap (◌++◌ (sent f.written)) (sym none) ∙ (loop.reported ∙ sym (append-nil (due current es))))

-- What a flush writes and leaves.
pub record Flushed (current rto : ℕ) (before after : AckList) (written : List AckSegment)
    : Type 0 where
  pub extra : ℕ
  pub reported :
      sent written ≡ due current before.entries ++ take extra (not_due current before.entries)
  pub short : All Short written
  pub kept : numbers after.entries ≡ numbers before.entries

flush-Flushed :
    (current rto : ℕ) (l : AckList)
    → let (after, written) = flush current rto l in
      Flushed current rto l after written
      × (current + flush_timeout rto < 2 ^ 32 → due current after.entries ≡ [])
unfolding flush due not_due numbers sent new_ack_segment
flush-Flushed current rto l =
    let start : Flush = record {
      entries = [];
      segment = new_ack_segment;
      written = [];
      candidates = [];
      dirty = l.dirty;
    } in
    let f = flush_entries current rto start l.entries in
    let loop : Loop current rto l.entries f =
      flush_entries-Loop current rto l.entries [] start (record {
        reported = refl;
        room = omega arith;
        short = tt;
        held = refl;
        kept = refl;
        quiet = λ h. refl;
      }) in
    let (k, more, short) = put_candidates_lem f.candidates f.segment (omega (arith, loop.room)) in
    elim (Bool-cases (f.dirty || not (is_empty f.segment))) [
      | inl last ↦ rw last (
        record {
          extra = min k 128;
          reported = with_candidates current rto l.entries f k _ loop more;
          short = All-snoc Short f.written _ loop.short short;
          kept = loop.kept;
        },
        loop.quiet,
      )
      | inr none ↦ rw none (
        record {
          extra = 0;
          reported = without_candidates current rto l.entries f loop (nothing_left f none);
          short = loop.short;
          kept = loop.kept;
        },
        loop.quiet,
      )
    ]

-- A flush reports every number whose time has come, once each and in the order of the list, and some
-- of the first of the others behind them; no segment has more than 128 numbers, and the list keeps all
-- its numbers.
pub flush_lem :
    (current rto : ℕ) (l : AckList)
    → let (after, written) = flush current rto l in Flushed current rto l after written
flush_lem current rto l = (flush-Flushed current rto l).0

-- If the clock does not wrap around before the next flush, no number is due again at the same time.
pub due-flush :
    (current rto : ℕ) (l : AckList)
    → current + flush_timeout rto < 2 ^ 32
    → due current (flush current rto l).0.entries ≡ []
due-flush current rto l h = (flush-Flushed current rto l).1 h
