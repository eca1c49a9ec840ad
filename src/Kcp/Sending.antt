-- ===== src/Kcp/Sending.antt =====
-- transport/internet/kcp/sending.go: `SendingWorker`, which numbers segments and sends them until they
-- are acknowledged.
--
-- A worker's methods hold its lock, so they are steps one after the other. `SenderView` is what they
-- read of the connection and its configuration; a segment that `Write` hands to `conn.output` is
-- serialized there at once.
pub mod Numbers
pub mod Acknowledged
pub mod Carried
pub mod Stream
pub mod Reachable
pub mod Limits
use reflex_network_project.Prelude.{
  ℕ, ◌+◌, ◌-◌, ◌*◌, ◌/◌, ◌%◌, ◌^◌, Bool, true, false, not, ◌&&◌, ◌||◌, Option, none, some, List, [],
  ◌∷◌, ◌++◌, ltb, leb, ◌==◌, if◌then◌else◌, length,
}
use reflex_network_project.Buffer.{Buffer}
use reflex_network_project.Kcp.Uint32
use reflex_network_project.Kcp.Segment.{DataSegment, AckSegment, segment_option_close}
use reflex_network_project.Kcp.AckList.{is_empty}
use reflex_network_project.Kcp.SendingWindow.{
  SendingWindow, no_segments, push_window, clear, handle_fast_ack, flush_window, remove,
}

pub record SenderView : Type 0 where
  pub conversation : ℕ
  pub ready_to_close : Bool
  pub timeout : ℕ
  pub congestion : Bool
  pub in_flight_size : ℕ
  pub buffer_size : ℕ

pub record SendingWorker : Type 0 where
  pub window : SendingWindow
  pub first_unacknowledged : ℕ
  pub next_number : ℕ
  pub remote_next_number : ℕ
  pub control_window : ℕ
  pub fast_resend : ℕ
  pub window_size : ℕ
  pub first_unacknowledged_updated : Bool
  pub closed : Bool

unfoldable pub new : SenderView → SendingWorker
new conn = record {
  window = record { cache = []; total_in_flight_size = 0 };
  first_unacknowledged = 0;
  next_number = 0;
  remote_next_number = 32;
  control_window = conn.in_flight_size;
  fast_resend = 2;
  window_size = conn.buffer_size;
  first_unacknowledged_updated = false;
  closed = false;
}

unfoldable pub release : SendingWorker → SendingWorker
release w = record w { window = record w.window { cache = [] }; closed = true }

abbrev first_number : List DataSegment → ℕ → ℕ
first_number [] next = next
first_number (s ∷ ss) next = s.number

unfoldable pub find_first_unacknowledged : SendingWorker → SendingWorker
find_first_unacknowledged w =
    let first = first_number w.window.cache w.next_number in
    record w {
      first_unacknowledged = first;
      first_unacknowledged_updated =
          if w.first_unacknowledged == first then w.first_unacknowledged_updated else true;
    }

unfoldable pub process_receiving_next : ℕ → SendingWorker → SendingWorker
unfolding clear find_first_unacknowledged
process_receiving_next next w =
    find_first_unacknowledged (record w { window = clear next w.window })

unfoldable pub process_ack : ℕ → SendingWorker → Bool × SendingWorker
unfolding remove find_first_unacknowledged
process_ack number w =
    let removed = remove number w.window in
    if ltb 0x7FFFFFFF (Uint32.sub number w.first_unacknowledged)
      || ltb (Uint32.sub number w.next_number) 0x7FFFFFFF
    then (false, w)
    else if removed.0
    then (true, find_first_unacknowledged (record w { window = removed.1 }))
    else (false, record w { window = removed.1 })

-- What the loop over the acknowledged numbers keeps: `maxack` and `maxackRemoved`.
unfoldable pub process_acks : List ℕ → ℕ × Bool → SendingWorker → (ℕ × Bool) × SendingWorker
unfolding process_ack
process_acks [] top w = (top, w)
process_acks (number ∷ ns) top w =
    let (removed, w') = process_ack number w in
    process_acks ns (if ltb top.0 number then (number, removed) else top) w'

-- `ProcessSegment` of a worker that is not closed: the worker, and the sample that `roundTrip.Update`
-- is called with, if it is.
unfoldable pub acknowledge : ℕ → AckSegment → ℕ → SendingWorker → SendingWorker × Option ℕ
unfolding process_receiving_next process_acks is_empty handle_fast_ack
acknowledge current seg rto w =
    let remote =
      if ltb w.remote_next_number seg.receiving_window
      then seg.receiving_window
      else w.remote_next_number in
    let w1 = process_receiving_next seg.receiving_next (record w { remote_next_number = remote }) in
    let (top, w2) = process_acks seg.number_list (0, false) w1 in
    if is_empty seg
    then (w1, none)
    else if top.1
    then (
      record w2 { window = handle_fast_ack top.0 rto w2.window },
      if ltb (Uint32.sub current seg.timestamp) 10000
          then some (Uint32.sub current seg.timestamp)
          else none,
    )
    else (w2, none)

unfoldable pub process_segment : ℕ → AckSegment → ℕ → SendingWorker → SendingWorker × Option ℕ
process_segment current seg rto w = if w.closed then (w, none) else acknowledge current seg rto w

unfoldable pub push : Buffer → SendingWorker → Bool × SendingWorker
unfolding push_window
push b w =
    if w.closed
    then (false, w)
    else if ltb w.window_size (length w.window.cache)
    then (false, w)
    else (
      true,
      record w {
        window = push_window w.next_number b w.window;
        next_number = Uint32.add w.next_number 1;
      },
    )

-- `Write`: a segment as it goes to `conn.output`, and stays in the window.
unfoldable pub write : SenderView → SendingWorker → DataSegment → DataSegment
write conn w s = record s {
  conv = conn.conversation;
  sending_next = w.first_unacknowledged;
  option = if conn.ready_to_close then segment_option_close else 0;
}

unfoldable pub on_packet_loss : SenderView → ℕ → SendingWorker → SendingWorker
on_packet_loss conn loss_rate w =
    if not conn.congestion || (conn.timeout == 0)
    then w
    else (let moved =
          if leb 15 loss_rate
          then 3 * w.control_window % 2 ^ 32 / 4
          else if leb loss_rate 5
          then Uint32.add w.control_window (w.control_window / 4)
          else w.control_window in
        let raised = if ltb moved 16 then 16 else moved in
        let top = 2 * conn.in_flight_size % 2 ^ 32 in
        record w { control_window = if ltb top raised then top else raised })

-- The largest number of segments that one flush sends.
unfoldable pub flush_limit : SenderView → SendingWorker → ℕ
flush_limit conn w =
    let room = Uint32.sub w.remote_next_number w.first_unacknowledged in
    let opened = if ltb room conn.in_flight_size then room else conn.in_flight_size in
    let cwnd =
      if conn.congestion && ltb w.control_window opened then w.control_window else opened in
    cwnd * 20 % 2 ^ 32

-- The call of `onPacketLoss`, where there is a rate.
unfoldable pub report_loss : SenderView → Option ℕ → SendingWorker → SendingWorker
unfolding on_packet_loss
report_loss conn none w = w
report_loss conn (some rate) w = on_packet_loss conn rate w

-- The worker, the segments written, and whether the connection is pinged.
unfoldable pub flush : SenderView → ℕ → SendingWorker → SendingWorker × (List DataSegment × Bool)
unfolding flush_window flush_limit write report_loss
flush conn current w =
    let (window, (written, rate)) =
      flush_window (write conn w) current conn.timeout (flush_limit conn w) w.window in
    let lost = report_loss conn rate w in
    if w.closed
    then (w, ([], false))
    else if no_segments w.window.cache
    then (record w { first_unacknowledged_updated = false }, ([], w.first_unacknowledged_updated))
    else (record lost { window = window; first_unacknowledged_updated = false }, (written, false))

unfoldable pub close_write : SendingWorker → SendingWorker
unfolding clear
close_write w = record w { window = clear 0xFFFFFFFF w.window }
