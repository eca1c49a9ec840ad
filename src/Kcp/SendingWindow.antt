-- ===== src/Kcp/SendingWindow.antt =====
-- transport/internet/kcp/sending.go: `SendingWindow`, the segments that were not acknowledged.
--
-- The linked list is a list, in its order; a segment that the window changes is the new one in its
-- place. What is handed to `writer` is a list of segments.
use reflex_network_project.Prelude.{
  ℕ, zero, suc, ◌*◌, ◌/◌, ◌%◌, ◌^◌, Bool, true, false, not, ◌&&◌, ◌||◌, Option, none, some, List,
  [], ◌∷◌, ◌++◌, ltb, leb, ◌==◌, if◌then◌else◌,
}
use reflex_network_project.Buffer.{Buffer}
use reflex_network_project.Kcp.Uint32
use reflex_network_project.Kcp.Segment.{DataSegment, new_data_segment}

pub record SendingWindow : Type 0 where
  pub cache : List DataSegment
  pub total_in_flight_size : ℕ

abbrev pub no_segments : List DataSegment → Bool
no_segments [] = true
no_segments (s ∷ ss) = false

-- `b` is not nil: what `Connection` pushes it has just written to.
unfoldable pub push_window : ℕ → Buffer → SendingWindow → SendingWindow
unfolding new_data_segment
push_window number b sw = record sw {
  cache = sw.cache ++ (record new_data_segment { number = number; payload = some b } ∷ []);
}

unfoldable pub clear_cache : ℕ → List DataSegment → List DataSegment
clear_cache una [] = []
clear_cache una (s ∷ ss) = if leb una s.number then s ∷ ss else clear_cache una ss

unfoldable pub clear : ℕ → SendingWindow → SendingWindow
unfolding clear_cache
clear una sw = record sw { cache = clear_cache una sw.cache }

-- `Visit` with the visitor of `HandleFastAck`.
unfoldable pub fast_ack_cache : ℕ → ℕ → List DataSegment → List DataSegment
fast_ack_cache number rto [] = []
fast_ack_cache number rto (s ∷ ss) =
    let rest = fast_ack_cache number rto ss in
    if (number == s.number) || ltb 0x7FFFFFFF (Uint32.sub number s.number)
    then s ∷ ss
    else if ltb 0 s.transmit && ltb (rto / 3) s.timeout
    then record s { timeout = Uint32.sub s.timeout (rto / 3) } ∷ rest
    else s ∷ rest

unfoldable pub handle_fast_ack : ℕ → ℕ → SendingWindow → SendingWindow
unfolding fast_ack_cache
handle_fast_ack number rto sw = record sw { cache = fast_ack_cache number rto sw.cache }

-- What the visitor of `Flush` counts, and what it has written.
pub record Flight : Type 0 where
  pub total : ℕ
  pub lost : ℕ
  pub in_flight : ℕ
  pub written : List DataSegment

-- A visit sends a segment whose timeout has passed. `write` fills the segment in, which the window
-- holds, too.
unfoldable pub send_one : (DataSegment → DataSegment) → ℕ → ℕ → DataSegment → DataSegment
send_one write current rto s = write (record s {
  timeout = Uint32.add current rto;
  timestamp = current;
  transmit = Uint32.add s.transmit 1;
})

unfoldable pub count_one : DataSegment → DataSegment → Flight → Flight
count_one s sent f = record {
  total = if s.transmit == 0 then Uint32.add f.total 1 else f.total;
  lost = if s.transmit == 0 then f.lost else Uint32.add f.lost 1;
  in_flight = Uint32.add f.in_flight 1;
  written = f.written ++ (sent ∷ []);
}

unfoldable pub flush_cache :
    (DataSegment → DataSegment) → ℕ → ℕ → ℕ → List DataSegment → Flight → List DataSegment × Flight
unfolding send_one count_one
flush_cache write current rto max [] f = ([], f)
flush_cache write current rto max (s ∷ ss) f =
    let skip = flush_cache write current rto max ss f in
    let sent = send_one write current rto s in
    let f' = count_one s sent f in
    let go_on = flush_cache write current rto max ss f' in
    if leb 0x7FFFFFFF (Uint32.sub current s.timeout)
    then (s ∷ skip.0, skip.1)
    else if ltb f'.in_flight max
    then (sent ∷ go_on.0, go_on.1)
    else (sent ∷ ss, f')

-- The window, the segments written, and the rate that `onPacketLoss` is called with, if it is.
unfoldable pub flush_window :
    (DataSegment → DataSegment)
    → ℕ
    → ℕ
    → ℕ
    → SendingWindow
    → SendingWindow × (List DataSegment × Option ℕ)
unfolding flush_cache
flush_window write current rto max sw =
    let start : Flight = record {
      total = sw.total_in_flight_size;
      lost = 0;
      in_flight = 0;
      written = [];
    } in
    let (cache, f) = flush_cache write current rto max sw.cache start in
    (
      record { cache = cache; total_in_flight_size = f.total },
      (
        f.written,
        if ltb 0 f.in_flight && not (f.total == 0)
            then some (f.lost * 100 % 2 ^ 32 / f.total)
            else none,
      ),
    )

-- The list without the segment of a number, if it is found before a larger one.
unfoldable pub remove_cache : ℕ → List DataSegment → Option (List DataSegment)
remove_cache number [] = none
remove_cache number (s ∷ ss) =
    let rest = remove_cache number ss in
    if ltb number s.number
    then none
    else if s.number == number
    then some ss
    else elim rest [ none ↦ none | some ss' ↦ some (s ∷ ss') ]

unfoldable pub remove : ℕ → SendingWindow → Bool × SendingWindow
unfolding remove_cache
remove number sw = elim (remove_cache number sw.cache) [
  | none ↦ (false, sw)
  | some cache ↦ (
    true,
    record {
      cache = cache;
      total_in_flight_size = elim sw.total_in_flight_size [ zero ↦ zero | suc n ↦ n ];
    },
  )
]
