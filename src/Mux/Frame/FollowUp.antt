-- ===== src/Mux/Frame/FollowUp.antt =====
-- The frames behind the first.
use reflex_network_project.Prelude.{
  ℕ, ◌+◌, ◌*◌, ◌/◌, ◌%◌, ◌^◌, ◌≤◌, ◌<◌, ◌≡◌, ◌≢◌, ◌∙◌, Option-cases, sym, ap, refl, true, false,
  Option, none, some, List, [], ◌∷◌, ◌++◌, arith, ◌==◌, if◌then◌else◌, Bool-cases, inl, inr, length,
  append-nil, ◌⊎◌,
}
use reflex_network_project.Prelude.Bytes.{put_uint16, uint16}
use reflex_network_project.Address.{Address, write_address, write_address_port}
use reflex_network_project.Address.RoundTrip.{Writes}
use reflex_network_project.Mux.Frame.{
  Destination, nowhere, FrameMetadata, blank, addr_parser, put_address, put_follow_up, write_body,
  write_to, read_target, read_rest, read_fields, unmarshal_from_buffer, unmarshal,
}
use reflex_network_project.Mux.Frame.Sent.{
  Sent, send, unmarshal-with_length, from_buffer-target, endpoint, destination-endpoint,
  write_to-body,
}

-- A frame behind the first; its other fields are not written.
abbrev pub arrived : FrameMetadata → Destination → FrameMetadata
arrived f d = record blank {
  target = d;
  session_id = f.session_id;
  option = f.option;
  session_status = f.session_status;
}

-- The address and port of a packet, as `b.UDP`.
abbrev pub packet_source : Option (Address × ℕ) → Option Destination
packet_source none = none
packet_source (some (a, port)) = some (endpoint true a port)

abbrev pub packet_target : ℕ → Option (Address × ℕ) → Destination
packet_target status none = nowhere
packet_target status (some (a, port)) = if status == 2 then endpoint true a port else nowhere

module _ (parse_ip : List ℕ → Option (List ℕ)) (trim_space : List ℕ → List ℕ) where
  abbrev pub WritesPacket : Option (Address × ℕ) → Type 0
  WritesPacket none = Unit
  WritesPacket (some (a, port)) = Writes parse_ip trim_space a × (port < 2 ^ 16)

  from_buffer-fixed :
      (hi lo status option : ℕ) (more : List ℕ)
      → status ≢ 1
      → (status ≢ 2) ⊎ (length more ≡ 0)
      → unmarshal_from_buffer parse_ip trim_space false blank (hi ∷ lo ∷ status ∷ option ∷ more)
        ≡ some
            (record blank { session_id = hi * 256 + lo; session_status = status; option = option })
  unfolding unmarshal_from_buffer read_target read_fields read_rest uint16
  from_buffer-fixed hi lo status option more old (inl other) = ground arith
  from_buffer-fixed hi lo status option more old (inr short) = ground arith

  put_follow_up-Sent :
      (a : Address) (port : ℕ) (s : Sent parse_ip trim_space a port)
      → put_follow_up (some (endpoint true a port)) ≡ some (2 ∷ s.bytes)
  unfolding put_follow_up put_address write_address_port
  put_follow_up-Sent a port s = elim (Option-cases (write_address addr_parser.families a)) [
    | inl e ↦ ground (arith, e, s.written)
    | inr (bytes, e) ↦ ground (arith, e, s.written)
  ]

  write_body-follow_up :
      (f : FrameMetadata) (from_udp : Option Destination) (more : List ℕ)
      → f.session_status ≢ 1
      → put_follow_up from_udp ≡ some more
      → write_body f from_udp
        ≡ some
            ((f.session_id / 256 % 256) ∷ (f.session_id % 256) ∷ f.session_status ∷ f.option ∷ more)
  unfolding write_body put_uint16
  write_body-follow_up f from_udp more old e = ground (arith, e)

  read_rest-old :
      (g : FrameMetadata) (more : List ℕ)
      → g.session_status ≢ 1
      → read_rest parse_ip trim_space false g more ≡ some g
  unfolding read_rest
  read_rest-old g more old = ground arith

  -- What stands behind the fixed fields of a frame behind the first.
  record Follows (f : FrameMetadata) (packet : Option (Address × ℕ)) : Type 0 where
    more : List ℕ
    written : put_follow_up (packet_source packet) ≡ some more
    short : length more ≤ 260
    read :
        unmarshal_from_buffer parse_ip trim_space false blank
          ((f.session_id / 256 % 256) ∷ (f.session_id % 256) ∷ f.session_status ∷ f.option ∷ more)
        ≡ some (arrived f (packet_target f.session_status packet))

  follow :
      (f : FrameMetadata) (packet : Option (Address × ℕ))
      → f.session_status ≢ 1
      → f.session_id < 2 ^ 16
      → WritesPacket packet
      → Follows f packet
  follow f none old small w =
      let number : (f.session_id / 256 % 256) * 256 + f.session_id % 256 ≡ f.session_id =
        omega arith in
      record {
        more = [];
        written = unfold put_follow_up in refl;
        short = omega arith;
        read =
            from_buffer-fixed (f.session_id / 256 % 256) (f.session_id % 256) f.session_status
              f.option [] old (inr refl)
            ∙ simp number;
      }
  follow f (some (a, port)) old small (w, p) =
      let number : (f.session_id / 256 % 256) * 256 + f.session_id % 256 ≡ f.session_id =
        omega arith in
      let s = send parse_ip trim_space a port w p in
      record {
        more = 2 ∷ s.bytes;
        written = put_follow_up-Sent a port s;
        short = omega (arith, s.short);
        read = elim (Bool-cases (f.session_status == 2)) [
          | inl keep ↦
              ap
                (λ t. unmarshal_from_buffer parse_ip trim_space false blank (
                  (f.session_id / 256 % 256)
                  ∷ (f.session_id % 256)
                  ∷ f.session_status
                  ∷ f.option
                  ∷ 2
                  ∷ t))
                (sym (append-nil s.bytes))
              ∙ from_buffer-target parse_ip trim_space false (f.session_id / 256 % 256)
                  (f.session_id % 256) f.session_status f.option 2 (endpoint true a port) a port []
                  s (destination-endpoint true a port) (inr (ground (arith, keep), refl))
              ∙ read_rest-old
                  (record blank {
                    target = endpoint true a port;
                    session_id = (f.session_id / 256 % 256) * 256 + f.session_id % 256;
                    session_status = f.session_status;
                    option = f.option;
                  })
                  [] old
              ∙ simp (number, keep)
          | inr other ↦
              from_buffer-fixed (f.session_id / 256 % 256) (f.session_id % 256) f.session_status
                f.option (2 ∷ s.bytes) old (inl (ground arith))
              ∙ simp (number, other)
        ];
      }

  -- A frame whose status is not that of a first one is read, by a reader that expects no source and
  -- local, with its number, which is a uint16, its status and its option. If it carries a packet of
  -- its own and keeps its session, the packet's address and port arrive as a UDP target; nothing
  -- else arrives with it, whatever fields its writer filled in. The port of a packet is a uint16,
  -- and its address four bytes of IPv4, sixteen bytes of IPv6 that do not stand for an IPv4
  -- address, or a domain of 1 to 255 bytes, all of which a domain may have, that is not the text
  -- of an IP.
  pub unmarshal-write_to_follow_up :
      (f : FrameMetadata) (packet : Option (Address × ℕ)) (rest : List ℕ)
      → f.session_status ≢ 1
      → f.session_id < 2 ^ 16
      → WritesPacket packet
      → (bytes : List ℕ) × (write_to f (packet_source packet) ≡ some bytes)
        × (unmarshal parse_ip trim_space false blank (bytes ++ rest)
            ≡ some (arrived f (packet_target f.session_status packet), rest))
  unmarshal-write_to_follow_up f packet rest old small w =
      let t = follow f packet old small w in
      let body =
        (f.session_id / 256 % 256) ∷ (f.session_id % 256) ∷ f.session_status ∷ f.option ∷ t.more in
      (
        put_uint16 (length body % 2 ^ 16) ++ body,
        write_to-body f (packet_source packet) body
            (write_body-follow_up f (packet_source packet) t.more old t.written),
        unmarshal-with_length parse_ip trim_space false blank
            (arrived f (packet_target f.session_status packet)) body rest (omega (arith, t.short))
            t.read,
      )
