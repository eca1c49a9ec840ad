-- ===== src/Kcp/Receiving.antt =====
-- transport/internet/kcp/receiving.go: `ReceivingWindow`, a map from numbers to segments, and
-- `ReceivingWorker`, which puts segments in order.
--
-- The map is an association list. A worker's methods hold its lock, so they are steps one after the
-- other. Of the connection they read its conversation, whether its state is `StateReadyToClose`, and
-- the timeout of its round trips: `ConnectionView`. A nil buffer counts as an empty one, which is how
-- the methods of `Buffer` treat it.
pub mod Delivery
pub mod Stream
pub mod Complete
use reflex_network_project.Prelude.{
  ℕ, zero, suc, ◌+◌, ◌%◌, Bool, true, false, Option, none, some, List, [], ◌∷◌, ◌++◌, ltb, leb,
  ◌==◌, if◌then◌else◌, length,
}
use reflex_network_project.Buffer.{Buffer, Ownership}
use reflex_network_project.MultiBuffer.{MultiBuffer}
use reflex_network_project.MultiBuffer
use reflex_network_project.Kcp.Uint32
use reflex_network_project.Kcp.Segment.{DataSegment, AckSegment, segment_option_close}
use reflex_network_project.Kcp.AckList.{AckList}
use reflex_network_project.Kcp.AckList

abbrev pub ReceivingWindow : Type 0
ReceivingWindow = List (ℕ × DataSegment)

unfoldable pub lookup : ReceivingWindow → ℕ → Option DataSegment
lookup [] id = none
lookup ((k, s) ∷ w) id = if k == id then some s else lookup w id

-- Go's `delete(w.cache, id)`.
unfoldable pub delete : ReceivingWindow → ℕ → ReceivingWindow
delete [] id = []
delete ((k, s) ∷ w) id = if k == id then delete w id else (k, s) ∷ delete w id

unfoldable pub has : ReceivingWindow → ℕ → Bool
unfolding lookup
has w id = elim (lookup w id) [ none ↦ false | some s ↦ true ]

unfoldable pub set : ReceivingWindow → ℕ → DataSegment → Bool × ReceivingWindow
unfolding has
set w id value = if has w id then (false, w) else (true, (id, value) ∷ w)

unfoldable pub remove : ReceivingWindow → ℕ → Option DataSegment × ReceivingWindow
unfolding lookup delete
remove w id = elim (lookup w id) [ none ↦ (none, w) | some s ↦ (some s, delete w id) ]

pub record ConnectionView : Type 0 where
  pub conversation : ℕ
  pub ready_to_close : Bool
  pub timeout : ℕ

pub record ReceivingWorker : Type 0 where
  pub left_over : Option MultiBuffer
  pub window : ReceivingWindow
  pub acklist : AckList
  pub next_number : ℕ
  pub window_size : ℕ

-- `in_flight` is `GetReceivingInFlightSize` of the configuration.
unfoldable pub new : ℕ → ReceivingWorker
unfolding AckList.new
new in_flight = record {
  left_over = none;
  window = [];
  acklist = AckList.new;
  next_number = 0;
  window_size = in_flight;
}

unfoldable pub release : ReceivingWorker → ReceivingWorker
release w = record w { left_over = none }

unfoldable pub process_sending_next : ℕ → ReceivingWorker → ReceivingWorker
unfolding AckList.clear
process_sending_next number w = record w { acklist = AckList.clear number w.acklist }

unfoldable pub process_segment : DataSegment → ReceivingWorker → ReceivingWorker
unfolding AckList.clear AckList.add set
process_segment seg w =
    if leb w.window_size (Uint32.sub seg.number w.next_number) then w else record w {
      acklist = AckList.add seg.number seg.timestamp (AckList.clear seg.sending_next w.acklist);
      window = (set w.window seg.number seg).1;
    }

abbrev pub nil_buffer : Buffer
nil_buffer = record { v = []; start = 0; stop = 0; ownership = Ownership.managed; udp = none }

unfoldable pub detach : DataSegment → Buffer
detach s = elim s.payload [ none ↦ nil_buffer | some b ↦ b ]

-- The loop of `ReadMultiBuffer`: the buffers, what is left in the window, and the next number. A turn
-- takes an entry out of the window, so its length is enough fuel.
unfoldable pub read_ready : ℕ → ReceivingWindow → ℕ → MultiBuffer × (ReceivingWindow × ℕ)
unfolding remove detach
read_ready zero w next = ([], (w, next))
read_ready (suc fuel) w next =
    let rest = read_ready fuel (remove w next).1 (Uint32.add next 1) in
    elim (remove w next).0 [ none ↦ ([], (w, next)) | some seg ↦ (detach seg ∷ rest.0, rest.1) ]

unfoldable pub read_multi_buffer : ReceivingWorker → MultiBuffer × ReceivingWorker
unfolding read_ready
read_multi_buffer w = elim w.left_over [
  | some mb ↦ (mb, record w { left_over = none })
  | none ↦
      (let (mb, (window, next)) = read_ready (length w.window) w.window w.next_number in
        (mb, record w { window = window; next_number = next }))
]

-- `Read` into a slice of `n` bytes: the bytes read.
unfoldable pub read : ℕ → ReceivingWorker → List ℕ × ReceivingWorker
unfolding read_multi_buffer MultiBuffer.is_empty MultiBuffer.split_bytes
read n w =
    let (mb, w') = read_multi_buffer w in
    if MultiBuffer.is_empty mb
    then ([], w')
    else (let (left, bytes) = MultiBuffer.split_bytes mb n in
        (bytes, if MultiBuffer.is_empty left then w' else record w' { left_over = some left }))

unfoldable pub is_data_available : ReceivingWorker → Bool
unfolding has
is_data_available w = has w.window w.next_number

-- `Write`: an acknowledgement as it goes to `conn.output`.
unfoldable pub write : ConnectionView → ReceivingWorker → AckSegment → AckSegment
write conn w s = record s {
  conv = conn.conversation;
  receiving_next = w.next_number;
  receiving_window = Uint32.add w.next_number w.window_size;
  option = if conn.ready_to_close then segment_option_close else 0;
}

abbrev pub write_all : ConnectionView → ReceivingWorker → List AckSegment → List AckSegment
write_all conn w [] = []
write_all conn w (s ∷ ss) = write conn w s ∷ write_all conn w ss

unfoldable pub flush : ConnectionView → ℕ → ReceivingWorker → ReceivingWorker × List AckSegment
unfolding AckList.flush write
flush conn current w =
    let (acks, segments) = AckList.flush current conn.timeout w.acklist in
    (record w { acklist = acks }, write_all conn w segments)

unfoldable pub update_necessary : ReceivingWorker → Bool
update_necessary w = ltb 0 (length w.acklist.entries)
