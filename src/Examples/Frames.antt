-- ===== src/Examples/Frames.antt =====
-- Runs of common/mux and of common/protocol/address.go.
use reflex_network_project.Prelude.{
  ℕ, ◌≡◌, ◌≢◌, refl, true, false, ◌&&◌, Option, none, some, List, [], ◌∷◌, ◌++◌, arith, replicate,
  if◌then◌else◌, length-replicate,
}
use reflex_network_project.Inbound.Detect.{codes}
use reflex_network_project.Address.{
  Family, Address, parse_address, is_valid_domain, read_address_port, write_address_port, byte_of,
  family_of,
}
use reflex_network_project.Address.RoundTrip.{IsFormat, Writes, read_address_port-write}
use reflex_network_project.Address.Long.{write_address_port-long}
use reflex_network_project.Mux.Frame.{
  FrameMetadata, blank, addr_parser, has_data, write_to, unmarshal,
}
use reflex_network_project.Mux.Frame.Sent.{opening, is_some, endpoint}
use reflex_network_project.Mux.Frame.Opening.{unmarshal-write_to_new}
use reflex_network_project.Mux.Frame.FollowUp.{
  arrived, packet_source, packet_target, unmarshal-write_to_follow_up,
}

-- No text is an IP, and no space is trimmed.
abbrev no_ip : List ℕ → Option (List ℕ)
no_ip s = none

abbrev as_is : List ℕ → List ℕ
as_is s = s

abbrev site : Address
site = Address.domain (codes "a1.org")

site-Writes : Writes no_ip as_is site
unfolding is_valid_domain parse_address
site-Writes = (omega arith, omega arith, refl, refl)

domain_byte : IsFormat addr_parser.families Family.domain 2
unfolding byte_of family_of
domain_byte = record { written = refl; small = omega arith; read = refl }

read_address_port-write_example :
    (bytes : List ℕ) × (write_address_port addr_parser site 443 ≡ some bytes)
    × (read_address_port no_ip as_is addr_parser (bytes ++ (9 ∷ [])) ≡ some ((site, 443), 9 ∷ []))
read_address_port-write_example =
    read_address_port-write no_ip as_is addr_parser site 443 2 (9 ∷ []) domain_byte site-Writes
      (omega arith)

write_address_port-long_example :
    (bytes : List ℕ) × (write_address_port addr_parser (Address.domain (replicate 256 97)) 443
      ≡ some bytes)
    × (read_address_port no_ip as_is addr_parser (bytes ++ [])
        ≢ some ((Address.domain (replicate 256 97), 443), []))
write_address_port-long_example =
    write_address_port-long no_ip as_is addr_parser (replicate 256 97) [] [] 443 443 2 domain_byte
      (length-replicate {A = ℕ} 256 97)

abbrev gid : List ℕ
gid = replicate 8 5

unmarshal-write_to_new_example :
    (bytes : List ℕ) × (write_to (opening true site 53 7 1 gid none) (some (endpoint true site 53))
      ≡ some bytes)
    × (unmarshal no_ip as_is false blank (bytes ++ [])
        ≡ some (
          opening true site 53 7 1
              (if has_data 1 && true && is_some (some (endpoint true site 53))
                then gid
                else replicate 8 0)
              none,
          [],
        ))
unmarshal-write_to_new_example =
    unmarshal-write_to_new no_ip as_is true site 53 7 1 gid [] (some (endpoint true site 53))
      site-Writes (omega arith) (omega arith) refl

abbrev next_frame : FrameMetadata
next_frame = record blank { session_id = 7; option = 1; session_status = 2 }

unmarshal-write_to_follow_up_example :
    (bytes : List ℕ) × (write_to next_frame (packet_source (some (site, 53))) ≡ some bytes)
    × (unmarshal no_ip as_is false blank (bytes ++ [])
        ≡ some (arrived next_frame (packet_target 2 (some (site, 53))), []))
unmarshal-write_to_follow_up_example =
    unmarshal-write_to_follow_up no_ip as_is next_frame (some (site, 53)) [] (omega arith)
      (omega arith) (site-Writes, omega arith)
