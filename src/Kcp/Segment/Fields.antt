-- ===== src/Kcp/Segment/Fields.antt =====
-- transport/internet/kcp/segment.go: the parsers on the fields that `Serialize` writes.
use reflex_network_project.Prelude.{
  ℕ, ◌+◌, ◌*◌, ◌/◌, ◌%◌, ◌^◌, ◌≤◌, ◌<◌, ◌≡◌, refl, some, List, [], ◌∷◌, ◌++◌, arith, length,
  length-append, take-append, if◌then◌else◌, ◌==◌, drop-append, append_assoc, All,
}
use reflex_network_project.Prelude.Bytes.{
  put_uint16, uint16, put_uint32, uint32, uint32-put_uint32, length-put_uint32,
}
use reflex_network_project.Buffer.{Buffer, IsValid, size}
use reflex_network_project.Buffer
use reflex_network_project.Kcp.Segment.{
  data_segment, ack_segment, cmd_only_segment, command_data, command_ack, as_segment, parse_data,
  parse_numbers, parse_ack, parse_cmd_only, read_segment, put_numbers,
}

abbrev pub stored : List ℕ → List ℕ → Buffer
stored memory p = (Buffer.write (Buffer.clear (Buffer.new memory)) p).0

-- Four bytes of a `uint32`, put together again.
pub join_four :
    (n : ℕ)
    → n < 2 ^ 32
    → n / 2 ^ 24 % 256 * 2 ^ 24 + n / 2 ^ 16 % 256 * 2 ^ 16 + n / 256 % 256 * 256 + n % 256 ≡ n
join_four n h = omega arith

pub parse_data-fields :
    (memory : List ℕ) (conv opt t n sn : ℕ) (p rest : List ℕ)
    → t < 2 ^ 32
    → n < 2 ^ 32
    → sn < 2 ^ 32
    → length p < 2 ^ 16
    → 1 ≤ length p + length rest
    → parse_data memory conv opt (
        put_uint32 t ++ (put_uint32 n ++ (put_uint32 sn ++ (put_uint16 (length p) ++ (p ++ rest)))))
      ≡ some (
        record {
          conv = conv;
          option = opt;
          timestamp = t;
          number = n;
          sending_next = sn;
          payload = some (stored memory p);
          timeout = 0;
          transmit = 0;
        },
        rest,
      )
unfolding parse_data put_uint16 put_uint32 uint16 uint32
parse_data-fields memory conv opt t n sn p rest ht hn hs hp more =
    let len : length p / 256 % 256 * 256 + length p % 256 ≡ length p = omega arith in
    ground (
      arith,
      len,
      join_four t ht,
      join_four n hn,
      join_four sn hs,
      length-append p rest,
      take-append p rest,
      drop-append p rest,
    )

pub parse_cmd_only-fields :
    (conv cmd opt sn rn rto : ℕ) (rest : List ℕ)
    → sn < 2 ^ 32
    → rn < 2 ^ 32
    → rto < 2 ^ 32
    → parse_cmd_only conv cmd opt (put_uint32 sn ++ (put_uint32 rn ++ (put_uint32 rto ++ rest)))
      ≡ some (
        record {
          conv = conv;
          cmd = cmd;
          option = opt;
          sending_next = sn;
          receiving_next = rn;
          peer_rto = rto;
        },
        rest,
      )
unfolding parse_cmd_only put_uint32 uint32
parse_cmd_only-fields conv cmd opt sn rn rto rest h1 h2 h3 = ground arith

pub put_numbers-parse_numbers :
    (ns rest : List ℕ)
    → All (λ n. n < 2 ^ 32) ns
    → parse_numbers (length ns) (put_numbers ns ++ rest) ≡ (ns, rest)
unfolding parse_numbers put_numbers
put_numbers-parse_numbers [] rest h = refl
put_numbers-parse_numbers (n ∷ ns) rest h = ground (
  arith,
  append_assoc (put_uint32 n) (put_numbers ns) rest,
  uint32-put_uint32 n (put_numbers ns ++ rest),
  drop-append (put_uint32 n) (put_numbers ns ++ rest),
  length-put_uint32 n,
  put_numbers-parse_numbers ns rest,
)

pub length-put_numbers : (ns : List ℕ) → length (put_numbers ns) ≡ length ns * 4
unfolding put_numbers
length-put_numbers [] = refl
length-put_numbers (n ∷ ns) = omega (
  arith,
  length-append (put_uint32 n) (put_numbers ns),
  length-put_uint32 n,
  length-put_numbers ns,
)

pub parse_ack-fields :
    (conv opt rw rn ts : ℕ) (ns rest : List ℕ)
    → rw < 2 ^ 32
    → rn < 2 ^ 32
    → ts < 2 ^ 32
    → All (λ n. n < 2 ^ 32) ns
    → parse_ack conv opt (
        put_uint32 rw
        ++ (put_uint32 rn ++ (put_uint32 ts ++ (length ns ∷ (put_numbers ns ++ rest)))))
      ≡ some (
        record {
          conv = conv;
          option = opt;
          receiving_window = rw;
          receiving_next = rn;
          timestamp = ts;
          number_list = ns;
        },
        rest,
      )
unfolding parse_ack put_uint32 uint32
parse_ack-fields conv opt rw rn ts ns rest h1 h2 h3 all = ground (
  arith,
  join_four rw h1,
  join_four rn h2,
  join_four ts h3,
  length-append (put_numbers ns) rest,
  length-put_numbers ns,
  put_numbers-parse_numbers ns rest all,
)

pub read_segment-header :
    (memory : List ℕ) (conv cmd opt : ℕ) (body : List ℕ)
    → conv < 2 ^ 16
    → read_segment memory (put_uint16 conv ++ (cmd ∷ opt ∷ body)) ≡ (
        if cmd == command_data
        then as_segment data_segment (parse_data memory conv opt body)
        else if cmd == command_ack
        then as_segment ack_segment (parse_ack conv opt body)
        else as_segment cmd_only_segment (parse_cmd_only conv cmd opt body))
unfolding read_segment put_uint16 uint16
read_segment-header memory conv cmd opt body h =
    let whole : conv / 256 % 256 * 256 + conv % 256 ≡ conv = omega arith in ground (arith, whole)

-- Three `uint32` fields in front.
pub three_fields :
    (a b c : ℕ) (body rest : List ℕ)
    → (put_uint32 a ++ (put_uint32 b ++ (put_uint32 c ++ body))) ++ rest
      ≡ put_uint32 a ++ (put_uint32 b ++ (put_uint32 c ++ (body ++ rest)))
three_fields a b c body rest = simp append_assoc

pub length-three_fields :
    (a b c : ℕ) (body : List ℕ)
    → length (put_uint32 a ++ (put_uint32 b ++ (put_uint32 c ++ body))) ≡ 12 + length body
length-three_fields a b c body = omega (
  arith,
  length-append (put_uint32 a) (put_uint32 b ++ (put_uint32 c ++ body)),
  length-append (put_uint32 b) (put_uint32 c ++ body),
  length-append (put_uint32 c) body,
  length-put_uint32 a,
  length-put_uint32 b,
  length-put_uint32 c,
)

pub header_append :
    (conv : ℕ) (body rest : List ℕ)
    → (put_uint16 conv ++ body) ++ rest ≡ put_uint16 conv ++ (body ++ rest)
header_append conv body rest = append_assoc (put_uint16 conv) body rest
