-- ===== src/Kcp/AckList/Loop.antt =====
-- transport/internet/kcp/receiving.go: the loop of `AckList.Flush`.
use reflex_network_project.Prelude.{
  ℕ, ◌+◌, ◌^◌, ◌≤◌, ◌<◌, ◌≡◌, refl, ap, subst, ◌∙◌, sym, inl, inr, true, false, List, [], ◌∷◌, ◌++◌,
  arith, ltb, if◌then◌else◌, length, take, All, length-append, length-take, append_assoc,
  append-nil, Bool-cases, take-append_le, take_all, le→ltb, lt→ltb, ◌≢◌,
}
use reflex_network_project.Kcp.Uint32
use reflex_network_project.Kcp.Segment.{AckSegment, new_ack_segment}
use reflex_network_project.Kcp.AckList.{
  AckEntry, Flush, flush_timeout, put_number, put_timestamp, is_full, flush_entry, flush_entries,
}

unfoldable pub numbers : List AckEntry → List ℕ
numbers [] = []
numbers (e ∷ es) = e.number ∷ numbers es

-- The numbers whose time has come, and those of the others.
unfoldable pub due : ℕ → List AckEntry → List ℕ
due current [] = []
due current (e ∷ es) =
    if ltb current e.next_flush then due current es else e.number ∷ due current es

unfoldable pub not_due : ℕ → List AckEntry → List ℕ
not_due current [] = []
not_due current (e ∷ es) =
    if ltb current e.next_flush then e.number ∷ not_due current es else not_due current es

-- The numbers that segments report, in order.
unfoldable pub sent : List AckSegment → List ℕ
sent [] = []
sent (s ∷ ss) = s.number_list ++ sent ss

numbers-append : (xs ys : List AckEntry) → numbers (xs ++ ys) ≡ numbers xs ++ numbers ys
unfolding numbers
numbers-append [] ys = refl
numbers-append (x ∷ xs) ys = ap (◌∷◌ x.number) (numbers-append xs ys)

due-append : (t : ℕ) (xs ys : List AckEntry) → due t (xs ++ ys) ≡ due t xs ++ due t ys
unfolding due
due-append t [] ys = refl
due-append t (x ∷ xs) ys = ground (arith, due-append t xs ys)

not_due-append :
    (t : ℕ) (xs ys : List AckEntry) → not_due t (xs ++ ys) ≡ not_due t xs ++ not_due t ys
unfolding not_due
not_due-append t [] ys = refl
not_due-append t (x ∷ xs) ys = ground (arith, not_due-append t xs ys)

pub sent-append : (xs ys : List AckSegment) → sent (xs ++ ys) ≡ sent xs ++ sent ys
unfolding sent
sent-append [] ys = refl
sent-append (x ∷ xs) ys =
    rw (sent-append xs ys) (sym (append_assoc x.number_list (sent xs) (sent ys)))

abbrev pub Short : AckSegment → Type 0
Short s = length s.number_list ≤ 128

put_timestamp-numbers : (t : ℕ) (s : AckSegment) → (put_timestamp t s).number_list ≡ s.number_list
unfolding put_timestamp
put_timestamp-numbers t s = ground arith

pub take_snoc :
    (n x : ℕ) (ys : List ℕ)
    → (if ltb (length (take n ys)) n then take n ys ++ (x ∷ []) else take n ys)
      ≡ take n (ys ++ (x ∷ []))
take_snoc n x ys = elim (Bool-cases (ltb (length ys) n)) [
  | inl less ↦
      let fits : length ys < n = ground (arith, less) in
      rw
        (
          take_all n ys (omega arith),
          less,
          take_all n (ys ++ (x ∷ [])) (omega (arith, length-append ys (x ∷ []))),
        )
        refl
  | inr full ↦
      let enough : n ≤ length ys = ground (arith, full) in
      let no_more : ltb (length (take n ys)) n ≡ false =
        le→ltb _ _ (omega (arith, length-take n ys)) in
      rw (no_more, take-append_le n ys (x ∷ []) enough) refl
]

pub All-snoc {ℓ κ} :
    {A : Type ℓ} (P : A → Type κ) (xs : List A) (x : A) → All P xs → P x → All P (xs ++ (x ∷ []))
All-snoc P [] x all px = (px, tt)
All-snoc P (y ∷ ys) x (py, all) px = (py, All-snoc P ys x all px)

flush_timeout-positive : (rto : ℕ) → 20 ≤ flush_timeout rto
flush_timeout-positive rto = ground arith

pub not_full_room : (s : AckSegment) → is_full s ≡ false → length s.number_list ≢ 128
unfolding is_full
not_full_room s h e = ground (arith, h, e)

-- What the loop has made of the entries behind it.
pub record Loop (current rto : ℕ) (done : List AckEntry) (f : Flush) : Type 0 where
  pub reported : sent f.written ++ f.segment.number_list ≡ due current done
  pub room : length f.segment.number_list < 128
  pub short : All Short f.written
  pub held : f.candidates ≡ take 128 (not_due current done)
  pub kept : numbers f.entries ≡ numbers done
  pub quiet : current + flush_timeout rto < 2 ^ 32 → due current f.entries ≡ []

module _ (current rto : ℕ) (done : List AckEntry) (f : Flush) (e : AckEntry) where
  not_yet :
      Loop current rto done f
      → ltb current e.next_flush ≡ true
      → Loop current rto (done ++ (e ∷ [])) (flush_entry current rto f e)
  unfolding flush_entry numbers due not_due
  not_yet l later =
      let none_due : due current (e ∷ []) ≡ [] = rw later refl in
      let held_one : not_due current (e ∷ []) ≡ e.number ∷ [] = rw later refl in
      rw later (record {
        reported =
            rw (due-append current done (e ∷ []), none_due, append-nil (due current done))
              l.reported;
        room = l.room;
        short = l.short;
        held = rw l.held (
            take_snoc 128 e.number (not_due current done)
            ∙ ap (take 128) (
                sym (
                  not_due-append current done (e ∷ [])
                  ∙ ap (◌++◌ (not_due current done)) held_one)));
        kept = rw (numbers-append f.entries (e ∷ []), numbers-append done (e ∷ []), l.kept) refl;
        quiet = λ h. rw (due-append current f.entries (e ∷ []), l.quiet h) none_due;
      })

  now_due :
      Loop current rto done f
      → ltb current e.next_flush ≡ false
      → Loop current rto (done ++ (e ∷ [])) (flush_entry current rto f e)
  unfolding flush_entry numbers due not_due sent new_ack_segment
  now_due l now =
      let seg = put_timestamp e.timestamp (put_number e.number f.segment) in
      let more : seg.number_list ≡ f.segment.number_list ++ (e.number ∷ []) =
        put_timestamp-numbers e.timestamp (put_number e.number f.segment)
        ∙ (unfold put_number in refl) in
      let size : length seg.number_list ≡ length f.segment.number_list + 1 =
        ap length more ∙ length-append f.segment.number_list (e.number ∷ []) in
      let one : due current (e ∷ []) ≡ e.number ∷ [] = rw now refl in
      let none_held : not_due current (e ∷ []) ≡ [] = rw now refl in
      let reported_now : sent f.written ++ seg.number_list ≡ due current (done ++ (e ∷ [])) =
        rw (more, due-append current done (e ∷ []), one, sym l.reported)
          (sym (append_assoc (sent f.written) f.segment.number_list (e.number ∷ []))) in
      let held_now : f.candidates ≡ take 128 (not_due current (done ++ (e ∷ []))) =
        rw (not_due-append current done (e ∷ []), none_held, append-nil (not_due current done))
          l.held in
      let e' = record e { next_flush = Uint32.add current (flush_timeout rto) } in
      let kept_now : numbers (f.entries ++ (e' ∷ [])) ≡ numbers (done ++ (e ∷ [])) =
        rw (numbers-append f.entries (e' ∷ []), numbers-append done (e ∷ []), l.kept) refl in
      let quiet_now : current + flush_timeout rto < 2 ^ 32
          → due current (f.entries ++ (e' ∷ [])) ≡ [] =
        λ h.
          let later : ltb current (Uint32.add current (flush_timeout rto)) ≡ true =
            lt→ltb _ _ (omega (arith, h, flush_timeout-positive rto)) in
          rw (due-append current f.entries (e' ∷ []), l.quiet h, later) refl in
      elim (Bool-cases (is_full seg)) [
        | inl full ↦
            rw (now, full)
              (record {
                reported =
                    rw
                      (
                        append-nil (sent (f.written ++ (seg ∷ []))),
                        sent-append f.written (seg ∷ []),
                        append-nil seg.number_list,
                      )
                      reported_now;
                room = omega arith;
                short = All-snoc Short f.written seg l.short (omega (arith, size, l.room));
                held = held_now;
                kept = kept_now;
                quiet = quiet_now;
              })
        | inr not_full ↦
            rw (now, not_full)
              (record {
                reported = reported_now;
                room = omega (arith, size, l.room, not_full_room seg not_full);
                short = l.short;
                held = held_now;
                kept = kept_now;
                quiet = quiet_now;
              })
      ]

pub flush_entries-Loop :
    (current rto : ℕ) (es done : List AckEntry) (f : Flush)
    → Loop current rto done f
    → Loop current rto (done ++ es) (flush_entries current rto f es)
unfolding flush_entries
flush_entries-Loop current rto [] done f l = rw (append-nil done) l
flush_entries-Loop current rto (e ∷ es) done f l =
    let next : Loop current rto (done ++ (e ∷ [])) (flush_entry current rto f e) =
      elim (Bool-cases (ltb current e.next_flush)) [
        | inl later ↦ not_yet current rto done f e l later
        | inr now ↦ now_due current rto done f e l now
      ] in
    subst (λ all. Loop current rto all (flush_entries current rto (flush_entry current rto f e) es))
      (append_assoc done (e ∷ []) es)
      (flush_entries-Loop current rto es (done ++ (e ∷ [])) (flush_entry current rto f e) next)
