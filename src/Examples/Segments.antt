-- ===== src/Examples/Segments.antt =====
-- Runs of transport/internet/kcp.
use reflex_network_project.Prelude.{
  ℕ, zero, suc, ◌+◌, ◌≤◌, ◌<◌, ◌≡◌, refl, inl, inr, true, false, some, List, [], ◌∷◌, arith, length,
}
use reflex_network_project.Buffer.{Buffer, IsValid, size, from_bytes}
use reflex_network_project.Buffer
use reflex_network_project.Kcp.Uint32
use reflex_network_project.Kcp.Segment.{
  Segment, data_segment, ack_segment, cmd_only_segment, DataSegment, AckSegment, CmdOnlySegment,
}
use reflex_network_project.Kcp.Segment.Packet.{AllFit}
use reflex_network_project.Kcp.AckList
use reflex_network_project.Kcp.AckList.{AckList}
use reflex_network_project.Kcp.AckList.Flushing.{Flushed, flush_lem}
use reflex_network_project.Kcp.Receiving.{ReceivingWorker, read_multi_buffer, detach}
use reflex_network_project.Kcp.Receiving
use reflex_network_project.Kcp.Receiving.Complete.{
  Numbered, arrive_all, read_multi_buffer-arrive_all,
}
use reflex_network_project.Kcp.Receiving.Stream as Reader
use reflex_network_project.Kcp.Sending.{
  SenderView, SendingWorker, process_segment, flush, flush_limit,
}
use reflex_network_project.Kcp.Sending
use reflex_network_project.Kcp.Sending.Numbers.{numbers, without_all, from_number}
use reflex_network_project.Kcp.Sending.Acknowledged.{Ordered, process_segment-Ordered}
use reflex_network_project.Kcp.Sending.Reachable.{run-new-Ordered}
use reflex_network_project.Kcp.Sending.Stream as Writer

abbrev content_of : ℕ → Buffer
content_of n = from_bytes (n ∷ (n + 1) ∷ [])

abbrev numbered : ℕ → DataSegment
numbered n = record {
  conv = 7;
  option = 0;
  timestamp = 100;
  number = n;
  sending_next = 0;
  payload = some (content_of n);
  timeout = 0;
  transmit = 0;
}

content-IsValid : (n : ℕ) → IsValid (content_of n)
unfolding from_bytes
content-IsValid n = record { ordered = omega arith; within = omega arith }

abbrev acks : AckSegment
acks = record {
  conv = 7;
  option = 0;
  receiving_window = 40;
  receiving_next = 1;
  timestamp = 90;
  number_list = 2 ∷ [];
}

abbrev one_ping : CmdOnlySegment
one_ping = record {
  conv = 7;
  cmd = 3;
  option = 0;
  sending_next = 1;
  receiving_next = 2;
  peer_rto = 100;
}

abbrev packet : List Segment
packet = data_segment (numbered 1) ∷ ack_segment acks ∷ cmd_only_segment one_ping ∷ []

packet-AllFit : AllFit packet
unfolding from_bytes Buffer.bytes
packet-AllFit = (
  (
    content_of 1,
    record {
      conv_16 = omega arith;
      timestamp_32 = omega arith;
      number_32 = omega arith;
      sending_next_32 = omega arith;
      present = refl;
      valid = content-IsValid 1;
      short = omega arith;
      not_empty = omega arith;
    },
  ),
  (
    record {
      conv_16 = omega arith;
      window_32 = omega arith;
      next_32 = omega arith;
      timestamp_32 = omega arith;
      numbers_32 = (omega arith, tt);
      few = omega arith;
    },
    (
      record {
        conv_16 = omega arith;
        sending_next_32 = omega arith;
        receiving_next_32 = omega arith;
        peer_rto_32 = omega arith;
        not_data = omega arith;
        not_ack = omega arith;
      },
      tt,
    ),
  ),
)

abbrev pending : AckList
pending = record {
  entries =
      record { number = 4; timestamp = 10; next_flush = 0 }
      ∷ record { number = 5; timestamp = 20; next_flush = 900 }
      ∷ [];
  dirty = true;
}

flush_lem_example :
    let (after, written) = AckList.flush 500 100 pending in Flushed 500 100 pending after written
flush_lem_example = flush_lem 500 100 pending

-- Numbers 1 and 0 arrive, in this order.
read_multi_buffer-arrive_all_example :
    2 ≤ length (read_multi_buffer (arrive_all (numbered 1 ∷ numbered 0 ∷ []) (Receiving.new 32))).0
unfolding Receiving.new
read_multi_buffer-arrive_all_example =
    read_multi_buffer-arrive_all (Receiving.new 32) (numbered 1 ∷ numbered 0 ∷ []) 2 refl
      (omega arith) (omega arith) (omega arith)
      (λ i h.
        elim i as (λ k. k < 2 → Numbered (Uint32.add 0 k) (numbered 1 ∷ numbered 0 ∷ [])) [
          | zero ↦ (λ _. inr (inl refl))
          | suc k ↦ (λ less. inl (omega (arith, less)))
        ]
          h)

abbrev conn : SenderView
conn = record {
  conversation = 7;
  ready_to_close = false;
  timeout = 100;
  congestion = true;
  in_flight_size = 32;
  buffer_size = 64;
}

-- Two payloads are pushed, and sent.
abbrev pushed : List Writer.Event
pushed = Writer.pushes (content_of 0) ∷ Writer.pushes (content_of 1) ∷ Writer.flushes conn 1000 ∷ []

abbrev payload : ℕ → List ℕ
payload n = n ∷ (n + 1) ∷ []

abbrev three : SendingWorker
three = record (Sending.new conn) {
  window = record { cache = numbered 0 ∷ numbered 1 ∷ numbered 2 ∷ []; total_in_flight_size = 3 };
  next_number = 3;
}

three-Ordered : Ordered three
unfolding Sending.new numbers
three-Ordered = record {
  rising = (omega arith, omega arith, (omega arith, omega arith, (omega arith, omega arith, tt)));
  first_eq = refl;
  bounded = omega arith;
}

process_segment-Ordered_example :
    let w' = (process_segment 120 acks 100 three).0 in
    Ordered w'
    × (numbers w'.window.cache ≡ without_all (2 ∷ []) (from_number 1 (numbers three.window.cache)))
process_segment-Ordered_example =
    process_segment-Ordered 120 100 acks three (unfold Sending.new in refl) three-Ordered
      (omega arith, tt)

-- They arrive the other way round, and the second one twice.
abbrev arrived : ℕ → DataSegment
arrived n = record (numbered n) { timestamp = 1000 }

abbrev reads : List Reader.Event
reads =
    Reader.arrives (arrived 1)
    ∷ Reader.reads 3
    ∷ Reader.arrives (arrived 0)
    ∷ Reader.arrives (arrived 1)
    ∷ Reader.reads 3
    ∷ Reader.reads_buffers
    ∷ []

-- What is read is all of it.
run_test : (Reader.run reads (Receiving.new 32)).0 ≡ 0 ∷ 1 ∷ 1 ∷ 2 ∷ []
unfolding Reader.run Receiving.new from_bytes Buffer.is_empty Buffer.read
run_test = refl

abbrev acknowledged : List Writer.Event
acknowledged =
    Writer.pushes (content_of 0)
    ∷ Writer.flushes conn 1000
    ∷ Writer.pushes (content_of 1)
    ∷ Writer.acknowledges 1010 acks 100
    ∷ []

run-new-Ordered_example : Ordered (Writer.run acknowledged (Sending.new conn)).1
run-new-Ordered_example =
    run-new-Ordered conn acknowledged (tt, (tt, (tt, ((omega arith, tt), tt)))) (omega arith)
