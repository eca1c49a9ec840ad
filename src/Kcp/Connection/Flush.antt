-- ===== src/Kcp/Connection/Flush.antt =====
-- transport/internet/kcp/connection.go: `Ping` and `flush`, with what other goroutines do between their
-- accesses.
use reflex_network_project.Prelude.{ℕ, not, [], ◌∷◌, ◌++◌, map, ltb, leb, if◌then◌else◌}
use reflex_network_project.Kcp.Uint32
use reflex_network_project.Kcp.Segment.{
  data_segment, ack_segment, cmd_only_segment, command_terminate, command_ping,
  segment_option_close,
}
use reflex_network_project.Kcp.Receiving.{ReceivingWorker, ConnectionView}
use reflex_network_project.Kcp.Receiving
use reflex_network_project.Kcp.SendingWindow.{no_segments}
use reflex_network_project.Kcp.Sending.{SendingWorker, SenderView}
use reflex_network_project.Kcp.Sending
use reflex_network_project.Kcp.Connection.{Around, Connection, State, behind, is, set_state, close}

abbrev pub receiver_view : Connection → ConnectionView
receiver_view c = record {
  conversation = c.conversation;
  ready_to_close = is State.ready_to_close c;
  timeout = c.round_trip.rto;
}

abbrev pub sender_view : Connection → SenderView
sender_view c = record {
  conversation = c.conversation;
  ready_to_close = is State.ready_to_close c;
  timeout = c.round_trip.rto;
  congestion = c.config.congestion;
  in_flight_size = c.config.sending_in_flight_size;
  buffer_size = c.config.sending_buffer_size;
}

-- `Ping`, which reads four parts of the connection one after another.
unfoldable pub ping : (ℕ → Around) → ℕ → ℕ → Connection → Connection
ping around now cmd c =
    let c1 = (around 0).before c in
    let c2 = (around 1).before c1 in
    let c3 = (around 2).before c2 in
    let c4 = (around 3).before c3 in
    record c4 {
      output =
          c4.output
          ++ (cmd_only_segment (record {
            conv = c.conversation;
            cmd = cmd;
            option = if is State.ready_to_close c4 then segment_option_close else 0;
            sending_next = c2.sending.first_unacknowledged;
            receiving_next = c1.receiving.next_number;
            peer_rto = c3.round_trip.rto;
          })
              ∷ []);
      last_ping_time = now;
    }

-- The flush of both workers, one after the other.
unfoldable pub flush_workers : (ℕ → Around) → ℕ → Connection → Connection
unfolding ping Receiving.flush Sending.flush
flush_workers around now c =
    let c1 = (around 0).before c in
    let (receiving, acks) = Receiving.flush (receiver_view c1) now c1.receiving in
    let c2 =
      (around 1).before
        (record c1 { receiving = receiving; output = c1.output ++ map ack_segment acks }) in
    let (sending, (segments, updated)) = Sending.flush (sender_view c2) now c2.sending in
    let c3 = record c2 { sending = sending; output = c2.output ++ map data_segment segments } in
    if updated then ping (behind 2 around) now command_ping c3 else c3

-- `flush` of an active connection for which nothing has come in for too long.
unfoldable pub expire_idle : (ℕ → Around) → ℕ → Connection → Connection
unfolding close
expire_idle around now c0 =
    let c = (around 0).before c0 in
    let d = (around 1).before c in
    if not (is State.active c)
    then c
    else if leb 30000 (Uint32.sub now d.last_incoming_time)
    then (close (around 2) d).1
    else d

-- `flush` of a connection that is ready to close and has nothing left to send.
unfoldable pub expire_drained : (ℕ → Around) → Connection → Connection
unfolding set_state
expire_drained around c0 =
    let c = (around 0).before c0 in
    let d = (around 1).before c in
    if not (is State.ready_to_close c)
    then c
    else if no_segments d.sending.window.cache
    then set_state (around 2) State.terminating d
    else d

-- A test of `flush` on the time since a state began.
unfoldable pub expire_state : (ℕ → Around) → State → ℕ → ℕ → Connection → Connection
unfolding set_state
expire_state around s limit now c0 =
    let c = (around 0).before c0 in
    let d = (around 1).before c in
    if not (is s c)
    then c
    else if ltb limit (Uint32.sub now d.state_begin_time)
    then set_state (around 2) State.terminating d
    else d

unfoldable pub flush_terminating : (ℕ → Around) → ℕ → Connection → Connection
unfolding ping set_state
flush_terminating around now c =
    let c1 = (around 4).before (ping around now command_terminate c) in
    if ltb 8000 (Uint32.sub now c1.state_begin_time)
    then set_state (around 5) State.terminated c1
    else c1

unfoldable pub flush_open : (ℕ → Around) → ℕ → Connection → Connection
unfolding expire_state flush_workers ping
flush_open around now c =
    let c1 = expire_state around State.peer_terminating 4000 now c in
    let c2 = expire_state (behind 3 around) State.ready_to_close 15000 now c1 in
    let c3 = (around 12).before (flush_workers (behind 6 around) now c2) in
    if leb 3000 (Uint32.sub now c3.last_ping_time)
    then ping (behind 13 around) now command_ping c3
    else c3

unfoldable pub flush : (ℕ → Around) → ℕ → Connection → Connection
unfolding expire_idle expire_drained flush_terminating flush_open
flush around now c0 =
    let c = (around 0).before c0 in
    let c1 = expire_drained (behind 4 around) (expire_idle (behind 1 around) now c) in
    let c2 = (around 7).before c1 in
    if is State.terminated c
    then c
    else if is State.terminating c2
    then flush_terminating (behind 8 around) now c2
    else flush_open (behind 8 around) now c2
