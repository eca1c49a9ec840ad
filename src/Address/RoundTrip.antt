-- ===== src/Address/RoundTrip.antt =====
-- An address and its port are read as they were written.
use reflex_network_project.Prelude.{
  ℕ, ◌^◌, ◌<◌, ◌≡◌, ◌∙◌, sym, refl, true, false, Option, none, some, List, [], ◌∷◌, ◌++◌, arith,
  Bool-cases, inl, inr, length, length-append, le→ltb, append_assoc, take-append_eq, drop-append_eq,
}
use reflex_network_project.Prelude.Bytes.{put_uint16, uint16, length-put_uint16, uint16-put_uint16}
use reflex_network_project.Address.{
  Family, Address, family, is_mapped, ip_address, read_full, is_valid_domain, is_domain_too_long,
  Format, family_of, byte_of, parse_address, domain_or_ip, read_family, read_address,
  read_address_port, write_address, write_address_port,
}

pub read_full-append :
    (n : ℕ) (xs rest : List ℕ) → length xs ≡ n → read_full n (xs ++ rest) ≡ some (xs, rest)
unfolding read_full
read_full-append n xs rest e =
    rw
      (
        le→ltb (length (xs ++ rest)) n (omega (arith, length-append xs rest)),
        take-append_eq n xs rest (sym e),
        drop-append_eq n xs rest (sym e),
      )
      refl

pub uint16_back : (n : ℕ) → n < 2 ^ 16 → uint16 (put_uint16 n) ≡ n
unfolding put_uint16
uint16_back n h = uint16-put_uint16 n [] h

-- The bytes that the options give to families are below 16, and are read as these families.
pub record IsFormat (families : List (ℕ × Family)) (f : Family) (b : ℕ) : Type 0 where
  pub written : byte_of families f ≡ some b
  pub small : b < 16
  pub read : family_of families b ≡ some f

module _ (parse_ip : List ℕ → Option (List ℕ)) (trim_space : List ℕ → List ℕ) where
  -- An IP has its length, and an IPv6 address does not stand for an IPv4 address. A domain has 1 to
  -- 255 bytes, all of which a domain may have, and is not the text of an IP.
  abbrev pub Writes : Address → Type 0
  Writes (Address.ipv4 ip) = length ip ≡ 4
  Writes (Address.ipv6 ip) = (length ip ≡ 16) × (is_mapped ip ≡ false)
  Writes (Address.domain name) =
      (0 < length name)
      × (length name < 256)
      × (is_valid_domain name ≡ true)
      × (parse_address parse_ip trim_space name ≡ none)

  domain_or_ip_lem :
      (name : List ℕ)
      → is_valid_domain name ≡ true
      → parse_address parse_ip trim_space name ≡ none
      → domain_or_ip parse_ip trim_space name ≡ some (Address.domain name)
  unfolding domain_or_ip
  domain_or_ip_lem name valid no_ip = rw (valid, no_ip) (ground arith)

  pub read_address-kind :
      (families : List (ℕ × Family)) (buffer body : List ℕ) (fam : Family) (b : ℕ)
      → IsFormat families fam b
      → read_address parse_ip trim_space families buffer (b ∷ body)
        ≡ read_family parse_ip trim_space (buffer ++ (b ∷ [])) fam body
  unfolding read_address
  read_address-kind families buffer body fam b f =
      ground (arith, read_full-append 1 (b ∷ []) body refl, f.small, f.read)

  read_family-ipv4 :
      (buffer ip rest : List ℕ)
      → length ip ≡ 4
      → read_family parse_ip trim_space buffer Family.ipv4 (ip ++ rest)
        ≡ some (Address.ipv4 ip, rest)
  unfolding read_family ip_address
  read_family-ipv4 buffer ip rest e = ground (arith, read_full-append 4 ip rest e, e)

  read_family-ipv6 :
      (buffer ip rest : List ℕ)
      → length ip ≡ 16
      → is_mapped ip ≡ false
      → read_family parse_ip trim_space buffer Family.ipv6 (ip ++ rest)
        ≡ some (Address.ipv6 ip, rest)
  unfolding read_family ip_address
  read_family-ipv6 buffer ip rest e m = ground (arith, read_full-append 16 ip rest e, e, m)

  read_family-domain :
      (buffer name rest : List ℕ)
      → 0 < length name
      → is_valid_domain name ≡ true
      → parse_address parse_ip trim_space name ≡ none
      → read_family parse_ip trim_space buffer Family.domain (length name ∷ (name ++ rest))
        ≡ some (Address.domain name, rest)
  unfolding read_family
  read_family-domain buffer name rest pos valid no_ip = ground (
    arith,
    read_full-append 1 (length name ∷ []) (name ++ rest) refl,
    read_full-append (length name) name rest refl,
    domain_or_ip_lem name valid no_ip,
  )

  -- `writeAddress` gives the family's byte, and what `readAddress` takes for the family.
  pub read_address-write :
      (families : List (ℕ × Family)) (buffer rest : List ℕ) (a : Address) (b : ℕ)
      → IsFormat families (family a) b
      → Writes a
      → (bytes : List ℕ) × (write_address families a ≡ some bytes)
        × (read_address parse_ip trim_space families buffer (bytes ++ rest) ≡ some (a, rest))
  unfolding write_address is_domain_too_long
  read_address-write families buffer rest (Address.ipv4 ip) b f w = (
    b ∷ ip,
    ground (arith, f.written),
    read_address-kind families buffer (ip ++ rest) Family.ipv4 b f
        ∙ read_family-ipv4 (buffer ++ (b ∷ [])) ip rest w,
  )
  read_address-write families buffer rest (Address.ipv6 ip) b f (len, m) = (
    b ∷ ip,
    ground (arith, f.written),
    read_address-kind families buffer (ip ++ rest) Family.ipv6 b f
        ∙ read_family-ipv6 (buffer ++ (b ∷ [])) ip rest len m,
  )
  read_address-write families buffer rest (Address.domain name) b f (pos, short, valid, no_ip) = (
    b ∷ length name ∷ name,
    ground (arith, f.written),
    read_address-kind families buffer (length name ∷ (name ++ rest)) Family.domain b f
        ∙ read_family-domain (buffer ++ (b ∷ [])) name rest pos valid no_ip,
  )

  -- What `WriteAddressPort` puts out for an address whose family a format has a byte for,
  -- `ReadAddressPort` takes back as the same address and port, whichever of them comes first, and
  -- leaves what follows. The port is a uint16. The address is four bytes of IPv4, sixteen bytes of
  -- IPv6 that do not stand for an IPv4 address, or a domain of 1 to 255 bytes, all of which a
  -- domain may have, that is not the text of an IP.
  pub read_address_port-write :
      (format : Format) (a : Address) (port b : ℕ) (rest : List ℕ)
      → IsFormat format.families (family a) b
      → Writes a
      → port < 2 ^ 16
      → (bytes : List ℕ) × (write_address_port format a port ≡ some bytes)
        × (read_address_port parse_ip trim_space format (bytes ++ rest) ≡ some ((a, port), rest))
  unfolding read_address_port write_address_port
  read_address_port-write format a port b rest f w p = elim (Bool-cases format.port_first) [
    | inl first ↦
        let (bytes, written, read) =
          read_address-write format.families (put_uint16 port) rest a b f w in
        (
          put_uint16 port ++ bytes,
          ground (arith, written, first),
          ground (
            arith,
            append_assoc (put_uint16 port) bytes rest,
            read_full-append 2 (put_uint16 port) (bytes ++ rest) (length-put_uint16 port),
            first,
            read,
            uint16_back port p,
          ),
        )
    | inr last ↦
        let (bytes, written, read) =
          read_address-write format.families [] (put_uint16 port ++ rest) a b f w in
        (
          bytes ++ put_uint16 port,
          ground (arith, written, last),
          ground (
            arith,
            append_assoc bytes (put_uint16 port) rest,
            read_full-append 2 (put_uint16 port) rest (length-put_uint16 port),
            last,
            read,
            uint16_back port p,
          ),
        )
  ]
