-- ===== src/Mux/Frame/Opening.antt =====
-- The first frame of a session.
use reflex_network_project.Prelude.{
  ℕ, ◌+◌, ◌*◌, ◌/◌, ◌%◌, ◌^◌, ◌≤◌, ◌<◌, ◌≡◌, ◌∙◌, refl, Bool, true, false, ◌&&◌, Option, none, some,
  List, [], ◌∷◌, ◌++◌, arith, if◌then◌else◌, inl, length, replicate, length-append, take_all,
}
use reflex_network_project.Prelude.Bytes.{put_uint16}
use reflex_network_project.Address.{Address}
use reflex_network_project.Address.RoundTrip.{Writes}
use reflex_network_project.Mux.Frame.{
  Destination, Inbound, blank, has_data, put_origin, write_body, write_to, read_rest, unmarshal,
}
use reflex_network_project.Mux.Frame.Sent.{
  Sent, send, unmarshal-with_length, from_buffer-target, is_some, endpoint, network_byte, opening,
  destination-endpoint, write_to-body,
}

module _ (parse_ip : List ℕ → Option (List ℕ)) (trim_space : List ℕ → List ℕ) where
  write_body-opening :
      (u : Bool) (a : Address) (port id option : ℕ) (gid more : List ℕ) (i : Option Inbound)
      (from_udp : Option Destination) (s : Sent parse_ip trim_space a port)
      → put_origin gid i from_udp ≡ some more
      → write_body (opening u a port id option gid i) from_udp
        ≡ some ((id / 256 % 256) ∷ (id % 256) ∷ 1 ∷ option ∷ network_byte u ∷ (s.bytes ++ more))
  unfolding write_body put_uint16
  write_body-opening true a port id option gid more i from_udp s e = rw (s.written, e) refl
  write_body-opening false a port id option gid more i from_udp s e = rw (s.written, e) refl

  origin_of :
      (gid : List ℕ) (from_udp : Option Destination)
      → length gid ≡ 8
      → (more : List ℕ) × (put_origin gid none from_udp ≡ some more) × (length more ≤ 8)
  unfolding put_origin
  origin_of gid none len = ([], refl, omega arith)
  origin_of gid (some d) len = (gid, refl, omega arith)

  read_rest-opening :
      (u : Bool) (a : Address) (port id option : ℕ) (gid more : List ℕ)
      (from_udp : Option Destination)
      → length gid ≡ 8
      → put_origin gid none from_udp ≡ some more
      → read_rest parse_ip trim_space false (opening u a port id option (replicate 8 0) none) more
        ≡ some (
            opening u a port id option
              (if has_data option && u && is_some from_udp then gid else replicate 8 0)
              none)
  unfolding read_rest put_origin
  read_rest-opening true a port id option gid more none len e = ground (arith, e)
  read_rest-opening false a port id option gid more none len e = ground (arith, e)
  read_rest-opening true a port id option gid more (some d) len e =
      ground (arith, e, len, take_all 8 gid (omega arith))
  read_rest-opening false a port id option gid more (some d) len e = ground (arith, e, len)

  -- The first frame of a session without an inbound is read, by a reader that expects no source and
  -- local behind the target, as it was written: its target, which is a TCP or UDP destination, its
  -- number and its option. The global id, of eight bytes, arrives if the frame carries a packet
  -- and data, and the target is UDP; otherwise the reader keeps an empty one. The number and the
  -- port are uint16. The target's address is four bytes of IPv4, sixteen bytes of IPv6 that do not
  -- stand for an IPv4 address, or a domain of 1 to 255 bytes, all of which a domain may have, that
  -- is not the text of an IP.
  pub unmarshal-write_to_new :
      (u : Bool) (a : Address) (port id option : ℕ) (gid rest : List ℕ)
      (from_udp : Option Destination)
      → Writes parse_ip trim_space a
      → port < 2 ^ 16
      → id < 2 ^ 16
      → length gid ≡ 8
      → (bytes : List ℕ) × (write_to (opening u a port id option gid none) from_udp ≡ some bytes)
        × (unmarshal parse_ip trim_space false blank (bytes ++ rest)
            ≡ some (
              opening u a port id option
                  (if has_data option && u && is_some from_udp then gid else replicate 8 0)
                  none,
              rest,
            ))
  unmarshal-write_to_new u a port id option gid rest from_udp w p small len =
      let s = send parse_ip trim_space a port w p in
      let (more, origin, short) = origin_of gid from_udp len in
      let body = (id / 256 % 256) ∷ (id % 256) ∷ 1 ∷ option ∷ network_byte u ∷ (s.bytes ++ more) in
      let written = write_body-opening u a port id option gid more none from_udp s origin in
      let number : (id / 256 % 256) * 256 + id % 256 ≡ id = omega arith in
      let read =
        from_buffer-target parse_ip trim_space false (id / 256 % 256) (id % 256) 1 option
          (network_byte u) (endpoint u a port) a port more s (destination-endpoint u a port)
          (inl refl)
        ∙ rw number (read_rest-opening u a port id option gid more from_udp len origin) in
      (
        put_uint16 (length body % 2 ^ 16) ++ body,
        write_to-body (opening u a port id option gid none) from_udp body written,
        unmarshal-with_length parse_ip trim_space false blank
            (opening u a port id option
              (if has_data option && u && is_some from_udp then gid else replicate 8 0) none)
            body rest (omega (arith, s.short, length-append s.bytes more)) read,
      )
