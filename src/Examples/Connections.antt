-- ===== src/Examples/Connections.antt =====
-- Runs of transport/internet/kcp/connection.go.
use reflex_network_project.Prelude.{◌*◌, ◌/◌, ◌≤◌, ◌≡◌, refl, min, true, false, [], arith}
use reflex_network_project.Kcp.RoundTripInfo.{RoundTripInfo, update, update_lem}
use reflex_network_project.Kcp.Segment.{CmdOnlySegment}
use reflex_network_project.Kcp.Receiving
use reflex_network_project.Kcp.Sending
use reflex_network_project.Kcp.Connection.{
  Config, Connection, State, close, close_from, set_state, close_write,
}
use reflex_network_project.Kcp.Connection.Flush.{
  flush, expire_idle, expire_drained, flush_terminating, ping,
}
use reflex_network_project.Kcp.Connection.Races.{alone}

abbrev info : RoundTripInfo
info = record { variation = 0; srtt = 0; rto = 100; min_rtt = 50; updated_timestamp = 0 }

update_lem_example :
    ((update 80 200 info).rto ≤ 12500)
    × (min (update 80 200 info).srtt 10000 * 5 / 4 ≤ (update 80 200 info).rto)
update_lem_example = update_lem 80 200 info (omega arith) (omega arith) (omega arith) (omega arith)

abbrev config : Config
config = record {
  congestion = true;
  sending_in_flight_size = 32;
  sending_buffer_size = 64;
  receiving_in_flight_size = 32;
  tti = 50;
}

abbrev fresh : Connection
fresh = record {
  conversation = 7;
  config = config;
  state = State.active;
  state_begin_time = 0;
  last_incoming_time = 0;
  last_ping_time = 0;
  round_trip = info;
  receiving = Receiving.new 32;
  sending = Sending.new (record {
    conversation = 7;
    ready_to_close = false;
    timeout = 100;
    congestion = true;
    in_flight_size = 32;
    buffer_size = 64;
  });
  ping_interval = 5000;
  output = [];
}

-- The end of the peer.
abbrev farewell : CmdOnlySegment
farewell = record {
  conv = 7;
  cmd = 2;
  option = 0;
  sending_next = 0;
  receiving_next = 0;
  peer_rto = 100;
}

-- Nothing has come in for half a minute: the connection is closed, and, with nothing to send, ends.
abbrev idle_flush : Connection
idle_flush = flush (alone 30000) 30000 fresh

idle_flush_terminates : idle_flush.state ≡ State.terminating
unfolding flush expire_idle expire_drained close close_from set_state flush_terminating ping
    close_write Sending.new
idle_flush_terminates = refl
