-- ===== src/Kcp/Segment.antt =====
-- transport/internet/kcp/segment.go: the three kinds of segments and their format, and the loop of
-- io.go that takes a packet apart.
--
-- A `uint16`, `uint32` or byte is a number; `Serialize` writes each field in its width. The memory of
-- a new buffer is an argument. In `serialize`, `none` is the panic on a data segment without a
-- payload; in the readers it is an invalid segment.
pub mod Fields
pub mod RoundTrip
pub mod Packet
use reflex_network_project.Prelude.{
  ℕ, zero, suc, ◌+◌, ◌*◌, ◌%◌, ◌^◌, Option, none, some, List, [], ◌∷◌, ◌++◌, ltb, ◌==◌,
  if◌then◌else◌, length, take, drop, get_or,
}
use reflex_network_project.Prelude.Bytes.{put_uint16, uint16, put_uint32, uint32}
use reflex_network_project.Buffer.{Buffer}
use reflex_network_project.Buffer

abbrev pub command_ack : ℕ
command_ack = 0

abbrev pub command_data : ℕ
command_data = 1

abbrev pub command_terminate : ℕ
command_terminate = 2

abbrev pub command_ping : ℕ
command_ping = 3

abbrev pub segment_option_close : ℕ
segment_option_close = 1

pub record DataSegment : Type 0 where
  pub conv : ℕ
  pub option : ℕ
  pub timestamp : ℕ
  pub number : ℕ
  pub sending_next : ℕ
  pub payload : Option Buffer
  pub timeout : ℕ
  pub transmit : ℕ

pub record AckSegment : Type 0 where
  pub conv : ℕ
  pub option : ℕ
  pub receiving_window : ℕ
  pub receiving_next : ℕ
  pub timestamp : ℕ
  pub number_list : List ℕ

pub record CmdOnlySegment : Type 0 where
  pub conv : ℕ
  pub cmd : ℕ
  pub option : ℕ
  pub sending_next : ℕ
  pub receiving_next : ℕ
  pub peer_rto : ℕ

pub data Segment : Type 0 where
  data_segment : DataSegment → Segment
  ack_segment : AckSegment → Segment
  cmd_only_segment : CmdOnlySegment → Segment

unfoldable pub new_data_segment : DataSegment
new_data_segment = record {
  conv = 0;
  option = 0;
  timestamp = 0;
  number = 0;
  sending_next = 0;
  payload = none;
  timeout = 0;
  transmit = 0;
}

unfoldable pub new_ack_segment : AckSegment
new_ack_segment = record {
  conv = 0;
  option = 0;
  receiving_window = 0;
  receiving_next = 0;
  timestamp = 0;
  number_list = [];
}

-- `Len` of a payload that may be nil.
abbrev pub payload_len : Option Buffer → ℕ
payload_len none = 0
payload_len (some b) = Buffer.len b

-- `DataSegment.parse` on a new segment, whose buffer is new, too.
unfoldable pub parse_data : List ℕ → ℕ → ℕ → List ℕ → Option (DataSegment × List ℕ)
parse_data memory conv opt b =
    if ltb (length b) 15
    then none
    else (let data_len = uint16 (drop 12 b) in
        let after = drop 14 b in
        if ltb (length after) data_len
        then none
        else some (
          record {
            conv = conv;
            option = opt;
            timestamp = uint32 b;
            number = uint32 (drop 4 b);
            sending_next = uint32 (drop 8 b);
            payload =
                some (Buffer.write (Buffer.clear (Buffer.new memory)) (take data_len after)).0;
            timeout = 0;
            transmit = 0;
          },
          drop data_len after,
        ))

-- `for i := 0; i < count; i++ { s.PutNumber(...) }`: the numbers, and the bytes behind them.
unfoldable pub parse_numbers : ℕ → List ℕ → List ℕ × List ℕ
parse_numbers zero b = ([], b)
parse_numbers (suc n) b = let rest = parse_numbers n (drop 4 b) in (uint32 b ∷ rest.0, rest.1)

unfoldable pub parse_ack : ℕ → ℕ → List ℕ → Option (AckSegment × List ℕ)
parse_ack conv opt b =
    if ltb (length b) 13
    then none
    else (let count = get_or b 12 0 in
        let after = drop 13 b in
        if ltb (length after) (count * 4)
        then none
        else (let (numbers, rest) = parse_numbers count after in
            some (
              record {
                conv = conv;
                option = opt;
                receiving_window = uint32 b;
                receiving_next = uint32 (drop 4 b);
                timestamp = uint32 (drop 8 b);
                number_list = numbers;
              },
              rest,
            )))

unfoldable pub parse_cmd_only : ℕ → ℕ → ℕ → List ℕ → Option (CmdOnlySegment × List ℕ)
parse_cmd_only conv cmd opt b =
    if ltb (length b) 12
    then none
    else some (
      record {
        conv = conv;
        cmd = cmd;
        option = opt;
        sending_next = uint32 b;
        receiving_next = uint32 (drop 4 b);
        peer_rto = uint32 (drop 8 b);
      },
      drop 12 b,
    )

-- A result of one kind as a result of any kind.
abbrev pub as_segment :
    {A : Type 0} → (A → Segment) → Option (A × List ℕ) → Option (Segment × List ℕ)
as_segment kind none = none
as_segment kind (some (s, rest)) = some (kind s, rest)

unfoldable pub read_segment : List ℕ → List ℕ → Option (Segment × List ℕ)
unfolding parse_data parse_ack parse_cmd_only
read_segment memory b =
    if ltb (length b) 4
    then none
    else (let conv = uint16 b in
        let cmd = get_or b 2 0 in
        let opt = get_or b 3 0 in
        let body = drop 4 b in
        if cmd == command_data
        then as_segment data_segment (parse_data memory conv opt body)
        else if cmd == command_ack
        then as_segment ack_segment (parse_ack conv opt body)
        else as_segment cmd_only_segment (parse_cmd_only conv cmd opt body))

unfoldable pub byte_size : Segment → ℕ
byte_size (data_segment s) = 18 + payload_len s.payload
byte_size (ack_segment s) = 17 + length s.number_list * 4
byte_size (cmd_only_segment s) = 16

unfoldable pub put_numbers : List ℕ → List ℕ
put_numbers [] = []
put_numbers (n ∷ ns) = put_uint32 n ++ put_numbers ns

abbrev pub serialize_data : DataSegment → Buffer → List ℕ
serialize_data s b =
    put_uint16 s.conv
    ++ (command_data
        ∷ s.option
        ∷ (put_uint32 s.timestamp
            ++ (put_uint32 s.number
                ++ (put_uint32 s.sending_next
                    ++ (put_uint16 (Buffer.len b % 2 ^ 16) ++ Buffer.bytes b)))))

-- `Serialize` on a slice of `ByteSize` bytes, which the fields fill.
unfoldable pub serialize : Segment → Option (List ℕ)
serialize (data_segment s) = elim s.payload [ none ↦ none | some b ↦ some (serialize_data s b) ]
serialize (ack_segment s) = some (
    put_uint16 s.conv
    ++ (command_ack
        ∷ s.option
        ∷ (put_uint32 s.receiving_window
            ++ (put_uint32 s.receiving_next
                ++ (put_uint32 s.timestamp
                    ++ ((length s.number_list % 256) ∷ put_numbers s.number_list))))))
serialize (cmd_only_segment s) = some (
    put_uint16 s.conv
    ++ (s.cmd
        ∷ s.option
        ∷ (put_uint32 s.sending_next ++ (put_uint32 s.receiving_next ++ put_uint32 s.peer_rto))))

-- The loop of `KCPPacketReader.Read`. A segment takes 16 bytes at least, so the length of the packet
-- is enough fuel.
unfoldable pub read_segments_fuel : List ℕ → ℕ → List ℕ → List Segment
read_segments_fuel memory zero b = []
read_segments_fuel memory (suc fuel) b =
    if length b == 0 then [] else elim (read_segment memory b) [
      | none ↦ []
      | some (s, rest) ↦ s ∷ read_segments_fuel memory fuel rest
    ]

unfoldable pub read_segments : List ℕ → List ℕ → List Segment
unfolding read_segments_fuel
read_segments memory b = read_segments_fuel memory (length b) b
