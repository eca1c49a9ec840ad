-- ===== src/Mux/Frame/Sent.antt =====
-- What is written of an address and of a whole frame, and how it is read again.
use reflex_network_project.Prelude.{
  ℕ, ◌+◌, ◌*◌, ◌%◌, ◌^◌, ◌≤◌, ◌<◌, ◌≡◌, subst, refl, Bool, true, false, Option, none, some, List,
  [], ◌∷◌, ◌++◌, arith, inl, inr, length, append_assoc, length-append, ◌⊎◌,
}
use reflex_network_project.Prelude.Bytes.{put_uint16, uint16, length-put_uint16}
use reflex_network_project.Address.{
  Family, Address, family, family_of, byte_of, read_address_port, write_address, write_address_port,
  is_domain_too_long,
}
use reflex_network_project.Address.RoundTrip.{
  IsFormat, Writes, read_full-append, read_address_port-write, uint16_back,
}
use reflex_network_project.Mux.Frame.{
  Network, Destination, Inbound, FrameMetadata, blank, addr_parser, put_address, write_body,
  write_to, destination, read_destination, read_target, read_rest, read_fields,
  unmarshal_from_buffer, unmarshal,
}

abbrev family_byte : Family → ℕ
family_byte Family.ipv4 = 1
family_byte Family.domain = 2
family_byte Family.ipv6 = 3

addr_parser-IsFormat : (f : Family) → IsFormat addr_parser.families f (family_byte f)
unfolding byte_of family_of
addr_parser-IsFormat Family.ipv4 = record { written = refl; small = omega arith; read = refl }
addr_parser-IsFormat Family.ipv6 = record { written = refl; small = omega arith; read = refl }
addr_parser-IsFormat Family.domain = record { written = refl; small = omega arith; read = refl }

-- A TCP or UDP destination.
abbrev pub transport : Bool → Network
transport true = Network.udp
transport false = Network.tcp

abbrev pub is_some {ℓ} : {A : Type ℓ} → Option A → Bool
is_some none = false
is_some (some x) = true

abbrev pub endpoint : Bool → Address → ℕ → Destination
endpoint u a port = record { network = transport u; address = some a; port = port }

abbrev pub network_byte : Bool → ℕ
network_byte true = 2
network_byte false = 1

-- The first frame of a session without an inbound.
abbrev pub opening : Bool → Address → ℕ → ℕ → ℕ → List ℕ → Option Inbound → FrameMetadata
opening u a port id option gid i = record {
  target = endpoint u a port;
  session_id = id;
  option = option;
  session_status = 1;
  global_id = gid;
  inbound = i;
}

pub destination-endpoint :
    (u : Bool) (a : Address) (port : ℕ)
    → destination (network_byte u) (a, port) ≡ some (endpoint u a port)
unfolding destination
destination-endpoint true a port = refl
destination-endpoint false a port = refl

pub write_to-body :
    (f : FrameMetadata) (from_udp : Option Destination) (body : List ℕ)
    → write_body f from_udp ≡ some body
    → write_to f from_udp ≡ some (put_uint16 (length body % 2 ^ 16) ++ body)
unfolding write_to
write_to-body f from_udp body e = rw e refl

module _ (parse_ip : List ℕ → Option (List ℕ)) (trim_space : List ℕ → List ℕ) where
  -- What is written of an address and a port.
  pub record Sent (a : Address) (port : ℕ) : Type 0 where
    pub bytes : List ℕ
    pub written : put_address (some a) port ≡ some bytes
    pub long : 4 ≤ length bytes
    pub short : length bytes ≤ 259
    pub back :
        (rest : List ℕ)
        → read_address_port parse_ip trim_space addr_parser (bytes ++ rest) ≡ some ((a, port), rest)

  put_address-length :
      (a : Address) (port : ℕ) (bytes : List ℕ)
      → Writes parse_ip trim_space a
      → put_address (some a) port ≡ some bytes
      → (4 ≤ length bytes) × (length bytes ≤ 259)
  unfolding put_address write_address_port write_address byte_of is_domain_too_long put_uint16
  put_address-length (Address.ipv4 ip) port bytes w e = ground arith
  put_address-length (Address.ipv6 ip) port bytes w e = ground arith
  put_address-length (Address.domain name) port bytes w e = ground arith

  pub send : (a : Address) (port : ℕ) → Writes parse_ip trim_space a → port < 2 ^ 16 → Sent a port
  unfolding put_address
  send a port w p =
      let back = λ (rest : List ℕ).
        read_address_port-write parse_ip trim_space addr_parser a port (family_byte (family a)) rest
          (addr_parser-IsFormat (family a)) w p in
      let (bytes, written, _) = back [] in
      let (long, short) = put_address-length a port bytes w written in
      record {
        bytes = bytes;
        written = written;
        long = long;
        short = short;
        back = λ rest.
            let (bytes', written', read) = back rest in
            let e : bytes' ≡ bytes = cc in
            subst
              (λ b.
                read_address_port parse_ip trim_space addr_parser (b ++ rest)
                ≡ some ((a, port), rest))
              e read;
      }

  pub unmarshal-with_length :
      (rsl : Bool) (f g : FrameMetadata) (body rest : List ℕ)
      → length body ≤ 512
      → unmarshal_from_buffer parse_ip trim_space rsl f body ≡ some g
      → unmarshal parse_ip trim_space rsl f ((put_uint16 (length body % 2 ^ 16) ++ body) ++ rest)
        ≡ some (g, rest)
  unfolding unmarshal
  unmarshal-with_length rsl f g body rest short h =
      let small : length body % 2 ^ 16 ≡ length body = omega arith in
      let size : uint16 (put_uint16 (length body)) ≡ length body =
        uint16_back (length body) (omega arith) in
      rw (small, append_assoc (put_uint16 (length body)) body rest)
        (ground (
          arith,
          h,
          size,
          read_full-append 2 (put_uint16 (length body)) (body ++ rest)
              (length-put_uint16 (length body)),
          read_full-append (length body) body rest refl,
        ))

  pub read_destination-Sent :
      (n : ℕ) (d : Destination) (a : Address) (port : ℕ) (rest : List ℕ) (s : Sent a port)
      → destination n (a, port) ≡ some d
      → read_destination parse_ip trim_space n (s.bytes ++ rest) ≡ some (d, rest)
  unfolding read_destination
  read_destination-Sent n d a port rest s e = ground (arith, s.back rest, e)

  -- A target behind its network byte, at its place in the metadata.
  pub from_buffer-target :
      (rsl : Bool) (hi lo status option n : ℕ) (d : Destination) (a : Address) (port : ℕ)
      (more : List ℕ) (s : Sent a port)
      → destination n (a, port) ≡ some d
      → (status ≡ 1) ⊎ ((status ≡ 2) × (n ≡ 2))
      → unmarshal_from_buffer parse_ip trim_space rsl blank
          (hi ∷ lo ∷ status ∷ option ∷ n ∷ (s.bytes ++ more))
        ≡ read_rest parse_ip trim_space rsl
            (record blank {
              target = d;
              session_id = hi * 256 + lo;
              session_status = status;
              option = option;
            })
            more
  unfolding unmarshal_from_buffer read_target read_fields uint16
  from_buffer-target rsl hi lo status option n d a port more s e (inl new) =
      ground
        (arith, new, s.long, length-append s.bytes more, read_destination-Sent n d a port more s e)
  from_buffer-target rsl hi lo status option n d a port more s e (inr (keep, udp)) = ground (
    arith,
    keep,
    udp,
    s.long,
    length-append s.bytes more,
    read_destination-Sent n d a port more s e,
  )
