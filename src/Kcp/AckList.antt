-- ===== src/Kcp/AckList.antt =====
-- transport/internet/kcp/receiving.go: `AckList`, the numbers that a receiver has yet to report.
--
-- `Add` and `Clear` lengthen and shorten the three slices together, so they are one list of entries.
-- What `writer` is handed is the list of segments that `Flush` gives.
pub mod Loop
pub mod Flushing
use reflex_network_project.Prelude.{
  ℕ, ◌+◌, ◌/◌, ◌<◌, Bool, true, false, not, ◌||◌, Option, none, some, List, [], ◌∷◌, ◌++◌, ltb,
  ◌==◌, if◌then◌else◌, length, take,
}
use reflex_network_project.Kcp.Uint32
use reflex_network_project.Kcp.Segment.{AckSegment, new_ack_segment}

abbrev pub ack_number_limit : ℕ
ack_number_limit = 128

-- `cap(l.flushCandidates)`, which `append` never raises, since `Flush` stops at it.
abbrev pub candidate_capacity : ℕ
candidate_capacity = 128

unfoldable pub put_timestamp : ℕ → AckSegment → AckSegment
put_timestamp timestamp s =
    if ltb (Uint32.sub timestamp s.timestamp) 0x7FFFFFFF
    then record s { timestamp = timestamp }
    else s

unfoldable pub put_number : ℕ → AckSegment → AckSegment
put_number number s = record s { number_list = s.number_list ++ (number ∷ []) }

unfoldable pub is_full : AckSegment → Bool
is_full s = length s.number_list == ack_number_limit

unfoldable pub is_empty : AckSegment → Bool
is_empty s = length s.number_list == 0

pub record AckEntry : Type 0 where
  pub number : ℕ
  pub timestamp : ℕ
  pub next_flush : ℕ

pub record AckList : Type 0 where
  pub entries : List AckEntry
  pub dirty : Bool

unfoldable pub new : AckList
new = record { entries = []; dirty = false }

unfoldable pub add : ℕ → ℕ → AckList → AckList
add number timestamp l = record {
  entries = l.entries ++ (record { number = number; timestamp = timestamp; next_flush = 0 } ∷ []);
  dirty = true;
}

-- The entries that `Clear` moves to the front and keeps.
unfoldable pub kept : ℕ → List AckEntry → List AckEntry
kept una [] = []
kept una (e ∷ es) = if ltb e.number una then kept una es else e ∷ kept una es

unfoldable pub clear : ℕ → AckList → AckList
unfolding kept
clear una l =
    if ltb (length (kept una l.entries)) (length l.entries)
    then record { entries = kept una l.entries; dirty = true }
    else l

-- What the loop of `Flush` has made: the entries with their new times, the segment it fills, the
-- segments written, the candidates and the flag.
pub record Flush : Type 0 where
  pub entries : List AckEntry
  pub segment : AckSegment
  pub written : List AckSegment
  pub candidates : List ℕ
  pub dirty : Bool

abbrev pub flush_timeout : ℕ → ℕ
flush_timeout rto = if ltb (rto / 2) 20 then 20 else rto / 2

unfoldable pub flush_entry : ℕ → ℕ → Flush → AckEntry → Flush
unfolding put_number put_timestamp is_full new_ack_segment
flush_entry current rto f e =
    if ltb current e.next_flush
    then record f {
      entries = f.entries ++ (e ∷ []);
      candidates =
          if ltb (length f.candidates) candidate_capacity
          then f.candidates ++ (e.number ∷ [])
          else f.candidates;
    }
    else (let seg = put_timestamp e.timestamp (put_number e.number f.segment) in
        let entries =
          f.entries ++ (record e { next_flush = Uint32.add current (flush_timeout rto) } ∷ []) in
        if is_full seg
        then record f {
          entries = entries;
          segment = new_ack_segment;
          written = f.written ++ (seg ∷ []);
          dirty = false;
        }
        else record f { entries = entries; segment = seg })

unfoldable pub flush_entries : ℕ → ℕ → Flush → List AckEntry → Flush
unfolding flush_entry
flush_entries current rto f [] = f
flush_entries current rto f (e ∷ es) = flush_entries current rto (flush_entry current rto f e) es

-- The candidates that the segment has room for.
unfoldable pub put_candidates : List ℕ → AckSegment → AckSegment
unfolding put_number is_full
put_candidates [] s = s
put_candidates (n ∷ ns) s =
    let more = put_candidates ns (put_number n s) in if is_full s then s else more

unfoldable pub flush : ℕ → ℕ → AckList → AckList × List AckSegment
unfolding flush_entries put_candidates is_empty new_ack_segment
flush current rto l =
    let f =
      flush_entries current rto
        (record {
          entries = [];
          segment = new_ack_segment;
          written = [];
          candidates = [];
          dirty = l.dirty;
        })
        l.entries in
    if f.dirty || not (is_empty f.segment)
    then (
      record { entries = f.entries; dirty = false },
      f.written ++ (put_candidates f.candidates f.segment ∷ []),
    )
    else (record { entries = f.entries; dirty = f.dirty }, f.written)
