-- ===== src/Kcp/Segment/RoundTrip.antt =====
-- transport/internet/kcp/segment.go: one segment from `Serialize` to `ReadSegment`.
use reflex_network_project.Prelude.{
  ℕ, ◌%◌, ◌^◌, ◌≤◌, ◌<◌, ◌≡◌, ◌≢◌, refl, ◌∙◌, some, List, ◌∷◌, ◌++◌, arith, length, take_all,
  append_assoc, All,
}
use reflex_network_project.Prelude.Bytes.{put_uint16, put_uint32}
use reflex_network_project.Buffer.{Buffer, IsValid, size}
use reflex_network_project.Buffer
use reflex_network_project.Buffer.Content.{write_lem, new-IsValid, bytes-write-new, length-bytes}
use reflex_network_project.Kcp.Segment.{
  Segment, data_segment, ack_segment, cmd_only_segment, DataSegment, AckSegment, CmdOnlySegment,
  command_data, command_ack, read_segment, serialize, serialize_data, put_numbers, byte_size,
}
use reflex_network_project.Kcp.Segment.Fields.{
  parse_data-fields, length-put_numbers, parse_ack-fields, header_append, read_segment-header,
  three_fields, length-three_fields, stored,
}

-- What a field of its width holds, and a payload that is not empty and fits a regular buffer.
pub record DataFits (s : DataSegment) (b : Buffer) : Type 0 where
  pub conv_16 : s.conv < 2 ^ 16
  pub timestamp_32 : s.timestamp < 2 ^ 32
  pub number_32 : s.number < 2 ^ 32
  pub sending_next_32 : s.sending_next < 2 ^ 32
  pub present : s.payload ≡ some b
  pub valid : IsValid b
  pub short : length (Buffer.bytes b) ≤ size
  pub not_empty : 1 ≤ length (Buffer.bytes b)

pub record AckFits (s : AckSegment) : Type 0 where
  pub conv_16 : s.conv < 2 ^ 16
  pub window_32 : s.receiving_window < 2 ^ 32
  pub next_32 : s.receiving_next < 2 ^ 32
  pub timestamp_32 : s.timestamp < 2 ^ 32
  pub numbers_32 : All (λ n. n < 2 ^ 32) s.number_list
  pub few : length s.number_list < 256

pub record CmdFits (s : CmdOnlySegment) : Type 0 where
  pub conv_16 : s.conv < 2 ^ 16
  pub sending_next_32 : s.sending_next < 2 ^ 32
  pub receiving_next_32 : s.receiving_next < 2 ^ 32
  pub peer_rto_32 : s.peer_rto < 2 ^ 32
  pub not_data : s.cmd ≢ command_data
  pub not_ack : s.cmd ≢ command_ack

abbrev pub Fits : Segment → Type 0
Fits (data_segment s) = (b : Buffer) × DataFits s b
Fits (ack_segment s) = AckFits s
Fits (cmd_only_segment s) = CmdFits s

-- The second data segment is the first as its receiver sees it: the same fields and bytes, in a
-- buffer of the receiver, and not yet sent.
pub record Received (s t : DataSegment) (b b' : Buffer) : Type 0 where
  pub before : s.payload ≡ some b
  pub after : t ≡ record s { payload = some b'; timeout = 0; transmit = 0 }
  pub valid : IsValid b'
  pub same_bytes : Buffer.bytes b' ≡ Buffer.bytes b

-- The segment that a reader makes of another's bytes.
abbrev pub SameWire : Segment → Segment → Type 0
SameWire (data_segment s) (data_segment t) = (b b' : Buffer) × Received s t b b'
SameWire (data_segment s) (ack_segment t) = ⊥
SameWire (data_segment s) (cmd_only_segment t) = ⊥
SameWire (ack_segment s) t = t ≡ ack_segment s
SameWire (cmd_only_segment s) t = t ≡ cmd_only_segment s

-- The bytes of `serialize`, and what reading them gives in front of any others.
pub record Reads (memory : List ℕ) (s : Segment) (out : List ℕ) (t : Segment) : Type 0 where
  pub written : serialize s ≡ some out
  pub size_ok : length out ≡ byte_size s
  pub read_back : (rest : List ℕ) → read_segment memory (out ++ rest) ≡ some (t, rest)
  pub same : SameWire s t

module _ (memory : List ℕ) (enough : size ≤ length memory) where
  bytes-stored : (p : List ℕ) → length p ≤ size → Buffer.bytes (stored memory p) ≡ p
  unfolding Buffer.clear Buffer.new
  bytes-stored p h = bytes-write-new memory enough p ∙ take_all size p h

  pub stored-IsValid : (p : List ℕ) → IsValid (stored memory p)
  unfolding Buffer.clear Buffer.new
  stored-IsValid p = (write_lem (Buffer.new memory) p (new-IsValid memory enough)).0

  data_bytes-read_back :
      (s : DataSegment) (b : Buffer) (rest : List ℕ)
      → DataFits s b
      → read_segment memory (serialize_data s b ++ rest)
        ≡ some (
          data_segment (record s {
            payload = some (stored memory (Buffer.bytes b));
            timeout = 0;
            transmit = 0;
          }),
          rest,
        )
  data_bytes-read_back s b rest f =
      let p = Buffer.bytes b in
      let len : Buffer.len b % 2 ^ 16 ≡ length p = omega (arith, length-bytes b f.valid, f.short) in
      let back = put_uint16 (Buffer.len b % 2 ^ 16) ++ p in
      rw
        (
          header_append s.conv _ rest,
          three_fields s.timestamp s.number s.sending_next back rest,
          append_assoc (put_uint16 (Buffer.len b % 2 ^ 16)) p rest,
          len,
          read_segment-header memory s.conv command_data s.option _ f.conv_16,
          parse_data-fields memory s.conv s.option s.timestamp s.number s.sending_next p rest
              f.timestamp_32 f.number_32 f.sending_next_32 (omega (arith, f.short))
              (omega (arith, f.not_empty)),
        )
        refl

  pub data-Reads :
      (s : DataSegment) (b : Buffer)
      → DataFits s b
      → Reads memory (data_segment s) (serialize_data s b) (
          data_segment (record s {
            payload = some (stored memory (Buffer.bytes b));
            timeout = 0;
            transmit = 0;
          }))
  unfolding serialize byte_size put_uint16
  data-Reads s b f =
      let there : s.payload ≡ some b = f.present in
      let p = Buffer.bytes b in
      record {
        written = rw there refl;
        size_ok = rw there (
            omega (
              arith,
              length-three_fields s.timestamp s.number s.sending_next
                  (put_uint16 (Buffer.len b % 2 ^ 16) ++ p),
              length-bytes b f.valid,
            ));
        read_back = λ rest. data_bytes-read_back s b rest f;
        same = (
          b,
          stored memory p,
          record {
            before = there;
            after = refl;
            valid = stored-IsValid p;
            same_bytes = bytes-stored p f.short;
          },
        );
      }

pub ack_bytes : AckSegment → List ℕ
ack_bytes s =
    put_uint16 s.conv
    ++ (command_ack
        ∷ s.option
        ∷ (put_uint32 s.receiving_window
            ++ (put_uint32 s.receiving_next
                ++ (put_uint32 s.timestamp
                    ++ ((length s.number_list % 256) ∷ put_numbers s.number_list)))))

pub ack-Reads :
    (memory : List ℕ) (s : AckSegment)
    → AckFits s
    → Reads memory (ack_segment s) (ack_bytes s) (ack_segment s)
unfolding serialize byte_size ack_bytes put_uint16
ack-Reads memory s f =
    let ns = s.number_list in
    let few : length ns % 256 ≡ length ns = omega (arith, f.few) in
    record {
      written = refl;
      size_ok = omega (
        arith,
        length-three_fields s.receiving_window s.receiving_next s.timestamp
            ((length ns % 256) ∷ put_numbers ns),
        length-put_numbers ns,
      );
      read_back = λ rest.
          rw
            (
              three_fields s.receiving_window s.receiving_next s.timestamp
                  ((length ns % 256) ∷ put_numbers ns) rest,
              few,
              read_segment-header memory s.conv command_ack s.option _ f.conv_16,
              parse_ack-fields s.conv s.option s.receiving_window s.receiving_next s.timestamp ns
                  rest f.window_32 f.next_32 f.timestamp_32 f.numbers_32,
            )
            refl;
      same = refl;
    }
