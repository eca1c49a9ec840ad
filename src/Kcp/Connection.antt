-- ===== src/Kcp/Connection.antt =====
-- transport/internet/kcp/connection.go: the state machine of a connection, what it does with the
-- segments that come in, and its flush.
--
-- No lock is held over these operations: other goroutines may change the connection between any two
-- accesses to it. So an operation takes an `Around` for each place where it may be interrupted. Only
-- what a worker does under its own lock is one step. `now` is `c.Elapsed()` at the start of an
-- operation. `output` is what was handed to the writer of segments. The notifiers and updaters only
-- wake other goroutines up, which then run one of these operations, so of them only the interval of
-- the ping updater is kept, in milliseconds.
pub mod Flush
pub mod Races
use reflex_network_project.Prelude.{
  ℕ, ◌+◌, ◌%◌, Bool, true, false, not, Option, none, some, List, [], ◌∷◌, ◌++◌, map, ltb, leb, ◌==◌,
  if◌then◌else◌,
}
use reflex_network_project.Kcp.Uint32
use reflex_network_project.Kcp.Segment.{
  Segment, data_segment, ack_segment, cmd_only_segment, DataSegment, AckSegment, CmdOnlySegment,
  command_terminate, command_ping, segment_option_close,
}
use reflex_network_project.Kcp.RoundTripInfo.{RoundTripInfo, update, update_peer_rto}
use reflex_network_project.Kcp.Receiving.{ReceivingWorker, ConnectionView}
use reflex_network_project.Kcp.Receiving
use reflex_network_project.Kcp.SendingWindow.{no_segments}
use reflex_network_project.Kcp.Sending.{SendingWorker, SenderView}
use reflex_network_project.Kcp.Sending

pub data State : Type 0 where
  active ready_to_close peer_closed terminating peer_terminating terminated : State

-- The number of a state.
abbrev pub code : State → ℕ
code State.active = 0
code State.ready_to_close = 1
code State.peer_closed = 2
code State.terminating = 3
code State.peer_terminating = 4
code State.terminated = 5

-- What the configuration gives.
pub record Config : Type 0 where
  pub congestion : Bool
  pub sending_in_flight_size : ℕ
  pub sending_buffer_size : ℕ
  pub receiving_in_flight_size : ℕ
  pub tti : ℕ

pub record Connection : Type 0 where
  pub conversation : ℕ
  pub config : Config
  pub state : State
  pub state_begin_time : ℕ
  pub last_incoming_time : ℕ
  pub last_ping_time : ℕ
  pub round_trip : RoundTripInfo
  pub receiving : ReceivingWorker
  pub sending : SendingWorker
  pub ping_interval : ℕ
  pub output : List Segment

-- What other goroutines do before an access, between the reading and the writing of the state, and
-- between the accesses of `SetState`, and what `c.Elapsed()` gives it.
pub record Around : Type 0 where
  pub before : Connection → Connection
  pub between : Connection → Connection
  pub storing : ℕ → Connection → Connection
  pub clock : ℕ

-- The places behind the first `n`.
abbrev pub behind : ℕ → (ℕ → Around) → ℕ → Around
behind n around k = around (n + k)

abbrev pub is : State → Connection → Bool
is s c = code c.state == code s

unfoldable pub close_write : Connection → Connection
unfolding Sending.close_write
close_write c = record c { sending = Sending.close_write c.sending }

-- `SetState`; `CloseRead` of the receiving worker does nothing.
unfoldable pub set_state : Around → State → Connection → Connection
unfolding close_write
set_state around s c =
    let stored = around.storing 0 (record (around.between c) { state = s }) in
    let begun = around.storing 1 (record stored { state_begin_time = around.clock }) in
    let closed = around.storing 2 (close_write begun) in
    elim s [
      | State.active ↦ begun
      | State.ready_to_close ↦ begun
      | State.peer_closed ↦ closed
      | State.terminating ↦ record closed { ping_interval = 1000 }
      | State.peer_terminating ↦ record closed { ping_interval = 1000 }
      | State.terminated ↦ record closed { ping_interval = 1000 }
    ]

-- `Close` behind the reading of the state, with `false` where it is `ErrClosedConnection`.
unfoldable pub close_from : State → Around → Connection → Bool × Connection
unfolding set_state
close_from State.ready_to_close around c = (false, c)
close_from State.terminating around c = (false, c)
close_from State.terminated around c = (false, c)
close_from State.active around c = (true, set_state around State.ready_to_close c)
close_from State.peer_closed around c = (true, set_state around State.terminating c)
close_from State.peer_terminating around c = (true, set_state around State.terminated c)

-- `Close`
unfoldable pub close : Around → Connection → Bool × Connection
unfolding close_from
close around c0 = let c = around.before c0 in close_from c.state around c

-- `Terminate`, which runs when a connection was terminated.
unfoldable pub terminate : Connection → Connection
unfolding Sending.release Receiving.release
terminate c = record c {
  sending = Sending.release c.sending;
  receiving = Receiving.release c.receiving;
}

unfoldable pub on_peer_closed : Around → Connection → Connection
unfolding set_state
on_peer_closed around c0 =
    let c = around.before c0 in
    if is State.ready_to_close c
    then set_state around State.terminating c
    else if is State.active c
    then set_state around State.peer_closed c
    else c

-- `opt & SegmentOptionClose`, whose only bit is the lowest.
unfoldable pub handle_option : Around → ℕ → Connection → Connection
unfolding on_peer_closed
handle_option around opt c = if opt % 2 == segment_option_close then on_peer_closed around c else c

-- The `switch` of `Input` for `CommandTerminate`, behind the reading of the state.
unfoldable pub terminate_from : State → Around → Connection → Connection
unfolding set_state
terminate_from State.active around c = set_state around State.peer_terminating c
terminate_from State.peer_closed around c = set_state around State.peer_terminating c
terminate_from State.ready_to_close around c = set_state around State.terminating c
terminate_from State.terminating around c = set_state around State.terminated c
terminate_from State.peer_terminating around c = c
terminate_from State.terminated around c = c

unfoldable pub on_terminate : Around → Connection → Connection
unfolding terminate_from
on_terminate around c0 = let c = around.before c0 in terminate_from c.state around c

abbrev pub conversation_of : Segment → ℕ
conversation_of (data_segment s) = s.conv
conversation_of (ack_segment s) = s.conv
conversation_of (cmd_only_segment s) = s.conv

unfoldable pub input_data : (ℕ → Around) → DataSegment → Connection → Connection
unfolding handle_option Receiving.process_segment
input_data around s c =
    let c1 = (around 1).before (handle_option (around 0) s.option c) in
    record c1 { receiving = Receiving.process_segment s c1.receiving }

unfoldable pub input_ack : (ℕ → Around) → ℕ → AckSegment → Connection → Connection
unfolding handle_option Sending.process_segment update
input_ack around now s c =
    let c1 = (around 1).before (handle_option (around 0) s.option c) in
    let rto = c1.round_trip.rto in
    let c2 = (around 2).before c1 in
    let (sending, sample) = Sending.process_segment now s rto c2.sending in
    record c2 {
      sending = sending;
      round_trip = elim sample [ none ↦ c2.round_trip | some rtt ↦ update rtt now c2.round_trip ];
    }

unfoldable pub input_cmd : (ℕ → Around) → ℕ → CmdOnlySegment → Connection → Connection
unfolding handle_option on_terminate Sending.process_receiving_next Receiving.process_sending_next
    update_peer_rto
input_cmd around now s c =
    let c1 = handle_option (around 0) s.option c in
    let c2 = if s.cmd == command_terminate then on_terminate (around 1) c1 else c1 in
    let c3 = (around 2).before c2 in
    let c4 =
      (around 3).before
        (record c3 { sending = Sending.process_receiving_next s.receiving_next c3.sending }) in
    let c5 =
      (around 4).before
        (record c4 { receiving = Receiving.process_sending_next s.sending_next c4.receiving }) in
    record c5 { round_trip = update_peer_rto s.peer_rto now c5.round_trip }

unfoldable pub input_one : (ℕ → Around) → ℕ → Segment → Connection → Connection
unfolding input_data input_ack input_cmd
input_one around now (data_segment s) c = input_data around s c
input_one around now (ack_segment s) c = input_ack around now s c
input_one around now (cmd_only_segment s) c = input_cmd around now s c

-- The loop ends at a segment of another conversation.
unfoldable pub input_all : (ℕ → Around) → ℕ → List Segment → Connection → Connection
unfolding input_one
input_all around now [] c = c
input_all around now (s ∷ ss) c =
    let rest = input_all (behind 5 around) now ss (input_one around now s c) in
    if conversation_of s == c.conversation then rest else c

unfoldable pub input : (ℕ → Around) → ℕ → List Segment → Connection → Connection
unfolding input_all
input around now segments c = input_all around now segments (record c { last_incoming_time = now })
