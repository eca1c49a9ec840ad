-- ===== src/Mux/Frame.antt =====
-- common/mux/frame.go: the metadata of a frame. `WriteTo` gives nothing on an error or a panic; the
-- new buffer that it fills is far larger than any metadata. `Unmarshal` gives nothing on an error.
pub mod Sent
pub mod Opening
pub mod FollowUp
use Prim.Native.Nat.{bit_and}
use reflex_network_project.Prelude.{
  ℕ, zero, suc, ◌+◌, ◌-◌, ◌%◌, ◌^◌, Bool, true, false, ◌&&◌, ◌||◌, not, Option, none, some, List,
  [], ◌∷◌, ◌++◌, ltb, leb, ◌==◌, if◌then◌else◌, length, take, drop, get_or, replicate,
}
use reflex_network_project.Prelude.Bytes.{put_uint16, uint16}
use reflex_network_project.Address.{
  Family, Address, Format, Parser, ◌>>=◌, pure, result, read_full, read_address_port, write_address,
  write_address_port,
}

-- `SessionStatusNew` and `SessionStatusKeep`
abbrev pub status_new : ℕ
status_new = 1

abbrev pub status_keep : ℕ
status_keep = 2

-- `addrParser`
abbrev pub addr_parser : Format
addr_parser = record {
  families = (1, Family.ipv4) ∷ (2, Family.domain) ∷ (3, Family.ipv6) ∷ [];
  port_first = true;
}

pub data Network : Type 0 where
  unknown tcp udp unix : Network

-- A nil address is `none`.
pub record Destination : Type 0 where
  pub network : Network
  pub address : Option Address
  pub port : ℕ

abbrev pub nowhere : Destination
nowhere = record { network = Network.unknown; address = none; port = 0 }

-- Of `session.Inbound`, what a frame carries.
pub record Inbound : Type 0 where
  pub source : Destination
  pub local : Destination

pub record FrameMetadata : Type 0 where
  pub target : Destination
  pub session_id : ℕ
  pub option : ℕ
  pub session_status : ℕ
  pub global_id : List ℕ
  pub inbound : Option Inbound

-- The zero value.
abbrev pub blank : FrameMetadata
blank = record {
  target = nowhere;
  session_id = 0;
  option = 0;
  session_status = 0;
  global_id = replicate 8 0;
  inbound = none;
}

-- `Option.Has(OptionData)`
abbrev pub has_data : ℕ → Bool
has_data option = not (bit_and option 1 == 0)

-- One write after another, until one fails.
infixr 60 ◌+?◌
abbrev pub ◌+?◌ : Option (List ℕ) → Option (List ℕ) → Option (List ℕ)
none +? rest = none
some bytes +? none = none
some bytes +? some more = some (bytes ++ more)

-- `addrParser.WriteAddressPort`
unfoldable pub put_address : Option Address → ℕ → Option (List ℕ)
put_address none port = none
put_address (some a) port = write_address_port addr_parser a port

-- The byte of a target's network.
abbrev pub target_network : Network → List ℕ
target_network Network.tcp = 1 ∷ []
target_network Network.udp = 2 ∷ []
target_network _ = []

-- The byte, address and port of a source or of a local address, and what stands behind them, if the
-- network is TCP or UDP.
unfoldable pub put_end : Network → Destination → Option (List ℕ) → Option (List ℕ)
put_end Network.tcp d more = some (1 ∷ []) +? put_address d.address d.port +? more
put_end Network.udp d more = some (2 ∷ []) +? put_address d.address d.port +? more
put_end _ d more = some []

unfoldable pub put_origin : List ℕ → Option Inbound → Option Destination → Option (List ℕ)
put_origin global_id (some i) from_udp =
    put_end i.source.network i.source (put_end i.local.network i.local (some []))
put_origin global_id none none = some []
put_origin global_id none (some d) = some global_id

-- An error of this write is dropped, behind the port that it has written.
unfoldable pub put_follow_up : Option Destination → Option (List ℕ)
put_follow_up none = some []
put_follow_up (some d) = elim d.address [
  | none ↦ none
  | some a ↦ some (
      2
      ∷ (put_uint16 d.port
          ++ elim (write_address addr_parser.families a) [ none ↦ [] | some bytes ↦ bytes ]))
]

-- `WriteTo` between `len0` and `len1`, where `from_udp` is `b.UDP`.
unfoldable pub write_body : FrameMetadata → Option Destination → Option (List ℕ)
write_body f from_udp =
    some (put_uint16 f.session_id ++ (f.session_status ∷ f.option ∷ []))
    +? (if f.session_status == status_new
        then some (target_network f.target.network)
          +? put_address f.target.address f.target.port
          +? put_origin f.global_id f.inbound from_udp
        else put_follow_up from_udp)

abbrev pub with_length : Option (List ℕ) → Option (List ℕ)
with_length none = none
with_length (some body) = some (put_uint16 (length body % 2 ^ 16) ++ body)

-- `FrameMetadata.WriteTo`
unfoldable pub write_to : FrameMetadata → Option Destination → Option (List ℕ)
write_to f from_udp = with_length (write_body f from_udp)

-- The `switch` on the network byte.
unfoldable pub destination : ℕ → Address × ℕ → Option Destination
destination network (address, port) =
    if network == 1
    then some (record { network = Network.tcp; address = some address; port = port })
    else if network == 2
    then some (record { network = Network.udp; address = some address; port = port })
    else none

abbrev pub is_udp : Network → Bool
is_udp Network.udp = true
is_udp _ = false

module _ (parse_ip : List ℕ → Option (List ℕ)) (trim_space : List ℕ → List ℕ) where
  -- An address and port behind a network byte.
  unfoldable pub read_destination : ℕ → Parser Destination
  read_destination network = do
    to ← read_address_port parse_ip trim_space addr_parser
    result (destination network to)

  -- The target of a new session or of a packet of its own.
  unfoldable pub read_target : FrameMetadata → List ℕ → Option (FrameMetadata × List ℕ)
  read_target f b =
      if f.session_status == status_new
        || (f.session_status == status_keep && ltb 4 (length b) && get_or b 4 0 == 2)
      then (if ltb (length b) 8 then none else elim (read_destination (get_or b 4 0) (drop 5 b)) [
        | none ↦ none
        | some (d, rest) ↦ some (record f { target = d }, rest)
      ])
      else some (f, b)

  -- The local address, behind the source.
  unfoldable pub read_local : Destination → List ℕ → Option Inbound
  read_local source [] = some (record { source = source; local = nowhere })
  read_local source (network ∷ b) =
      if network == 0
      then some (record { source = source; local = nowhere })
      else elim (read_destination network b) [
        | none ↦ none
        | some (d, rest) ↦ some (record { source = source; local = d })
      ]

  unfoldable pub read_inbound : List ℕ → Option Inbound
  read_inbound [] = some (record { source = nowhere; local = nowhere })
  read_inbound (network ∷ b) =
      if network == 0
      then some (record { source = nowhere; local = nowhere })
      else elim (read_destination network b) [ none ↦ none | some (d, rest) ↦ read_local d rest ]

  -- What stands behind the target.
  unfoldable pub read_rest : Bool → FrameMetadata → List ℕ → Option FrameMetadata
  read_rest read_source_and_local f b =
      if f.session_status == status_new && read_source_and_local
      then elim (read_inbound b) [ none ↦ none | some i ↦ some (record f { inbound = some i }) ]
      else if f.session_status == status_new
          && has_data f.option
          && is_udp f.target.network
          && leb 8 (length b)
      then some (record f { global_id = take 8 b })
      else some f

  -- The fixed fields.
  unfoldable pub read_fields : FrameMetadata → List ℕ → FrameMetadata
  read_fields f b = record f {
    session_id = uint16 b;
    session_status = get_or b 2 0;
    option = get_or b 3 0;
    target = record f.target { network = Network.unknown };
  }

  -- `UnmarshalFromBuffer`
  unfoldable pub unmarshal_from_buffer : Bool → FrameMetadata → List ℕ → Option FrameMetadata
  unmarshal_from_buffer read_source_and_local f b =
      if ltb (length b) 4 then none else elim (read_target (read_fields f b) b) [
        | none ↦ none
        | some (g, rest) ↦ read_rest read_source_and_local g rest
      ]

  -- `Unmarshal`
  unfoldable pub unmarshal : Bool → FrameMetadata → Parser FrameMetadata
  unmarshal read_source_and_local f = do
    size ← read_full 2
    b ← read_full (uint16 size)
    result (if ltb 512 (uint16 size) then none else unmarshal_from_buffer read_source_and_local f b)
