-- ===== src/Address.antt =====
-- common/net/address.go and common/protocol/address.go: addresses, and the formats in which the
-- protocols write an address with its port.
--
-- An input is the bytes that are left in it, and a reader gives nothing on an error. Go's
-- `net.ParseIP`, which gives the bytes of an IP or nothing, and `strings.TrimSpace` are parameters.
pub mod RoundTrip
pub mod Long
use reflex_network_project.Prelude.{
  ℕ, zero, suc, ◌+◌, ◌-◌, ◌%◌, ◌^◌, Bool, true, false, ◌&&◌, ◌||◌, not, Option, none, some, List,
  [], ◌∷◌, ◌++◌, ltb, leb, ◌==◌, if◌then◌else◌, length, take, drop, get_or, same, replicate,
}
use reflex_network_project.Prelude.Bytes.{put_uint16, uint16}

pub data Family : Type 0 where
  ipv4 ipv6 domain : Family

abbrev pub same_family : Family → Family → Bool
same_family Family.ipv4 Family.ipv4 = true
same_family Family.ipv6 Family.ipv6 = true
same_family Family.domain Family.domain = true
same_family _ _ = false

pub data Address : Type 0 where
  ipv4 : List ℕ → Address
  ipv6 : List ℕ → Address
  domain : List ℕ → Address

-- `Address.Family`
abbrev pub family : Address → Family
family (Address.ipv4 ip) = Family.ipv4
family (Address.ipv6 ip) = Family.ipv6
family (Address.domain name) = Family.domain

-- An IPv6 address that stands for an IPv4 address.
unfoldable pub is_mapped : List ℕ → Bool
is_mapped ip = same (take 10 ip) (replicate 10 0) && get_or ip 10 0 == 255 && get_or ip 11 0 == 255

-- `IPAddress`; another length gives nil.
unfoldable pub ip_address : List ℕ → Option Address
ip_address ip =
    if length ip == 4
    then some (Address.ipv4 ip)
    else if not (length ip == 16)
    then none
    else if is_mapped ip
    then some (Address.ipv4 (drop 12 ip))
    else some (Address.ipv6 ip)

abbrev pub Parser : Type 0 → Type 0
Parser A = List ℕ → Option (A × List ℕ)

infixl 5 ◌>>=◌
abbrev pub ◌>>=◌ : {A B : Type 0} → Parser A → (A → Parser B) → Parser B
◌>>=◌ m f input = elim (m input) [ none ↦ none | some (a, rest) ↦ f a rest ]

abbrev pub pure : {A : Type 0} → A → Parser A
pure a input = some (a, input)

abbrev pub result : {A : Type 0} → Option A → Parser A
result none input = none
result (some a) input = some (a, input)

-- `b.ReadFullFrom(reader, n)`
unfoldable pub read_full : ℕ → Parser (List ℕ)
read_full n input = if ltb (length input) n then none else some (take n input, drop n input)

-- `maybeIPPrefix`
unfoldable pub maybe_ip_prefix : ℕ → Bool
maybe_ip_prefix b = b == 91 || (leb 48 b && leb b 57)

abbrev pub is_domain_char : ℕ → Bool
is_domain_char c =
    (leb 48 c && leb c 57)
    || (leb 97 c && leb c 122)
    || (leb 65 c && leb c 90)
    || c == 45
    || c == 46
    || c == 95

-- `isValidDomain`
unfoldable pub is_valid_domain : List ℕ → Bool
is_valid_domain [] = true
is_valid_domain (c ∷ d) = if is_domain_char c then is_valid_domain d else false

-- `isDomainTooLong`
unfoldable pub is_domain_too_long : List ℕ → Bool
is_domain_too_long d = ltb 256 (length d)

-- `NewAddressParser` over its `AddressFamilyByte` options, `PortThenAddress` among them or not.
pub record Format : Type 0 where
  pub families : List (ℕ × Family)
  pub port_first : Bool

abbrev pub or_else : {A : Type 0} → Option A → Option A → Option A
or_else none o = o
or_else (some a) o = some a

-- `addrTypeMap`, where a later option replaces an earlier one.
unfoldable pub family_of : List (ℕ × Family) → ℕ → Option Family
family_of [] b = none
family_of ((b', f) ∷ options) b = or_else (family_of options b) (if b' == b then some f else none)

-- `addrByteMap`
unfoldable pub byte_of : List (ℕ × Family) → Family → Option ℕ
byte_of [] f = none
byte_of ((b, f') ∷ options) f =
    or_else (byte_of options f) (if same_family f' f then some b else none)

-- `isAlphaNum`
abbrev pub is_alpha_num : ℕ → Bool
is_alpha_num c = (leb 48 c && leb c 57) || (leb 97 c && leb c 122) || (leb 65 c && leb c 90)

-- `addr[1 : lenAddr-1]` of an address in brackets.
unfoldable pub without_brackets : List ℕ → List ℕ
without_brackets s =
    if ltb 0 (length s) && get_or s 0 0 == 91 && get_or s (length s - 1) 0 == 93
    then take (length s - 2) (drop 1 s)
    else s

module _ (parse_ip : List ℕ → Option (List ℕ)) (trim_space : List ℕ → List ℕ) where
  -- `ParseAddress` down to `net.ParseIP`: the IP, or nothing for a domain.
  unfoldable pub parse_address : List ℕ → Option (List ℕ)
  parse_address s =
      let addr = without_brackets s in
      let odd_ends =
        not (is_alpha_num (get_or addr 0 0))
        || not (is_alpha_num (get_or addr (length addr - 1) 0)) in
      parse_ip (if ltb 0 (length addr) && odd_ends then trim_space addr else addr)

  -- The end of the domain's case, from `domain[0]` on.
  unfoldable pub domain_or_ip : List ℕ → Option Address
  domain_or_ip name =
      let domain_only = if is_valid_domain name then some (Address.domain name) else none in
      if maybe_ip_prefix (get_or name 0 0)
      then elim (parse_address name) [ none ↦ domain_only | some ip ↦ ip_address ip ]
      else domain_only

  -- `readAddress` once the family is known, behind the bytes `buffer` that were read before.
  -- `BytesFrom(-0)` of an empty domain is the whole buffer.
  unfoldable pub read_family : List ℕ → Family → Parser Address
  read_family buffer Family.ipv4 = do ip ← read_full 4; result (ip_address ip)
  read_family buffer Family.ipv6 = do ip ← read_full 16; result (ip_address ip)
  read_family buffer Family.domain = do
    size ← read_full 1
    name ← read_full (get_or size 0 0)
    result (domain_or_ip (if get_or size 0 0 == 0 then buffer ++ size else name))

  -- `readAddress`
  unfoldable pub read_address : List (ℕ × Family) → List ℕ → Parser Address
  read_address families buffer = do
    kind ← read_full 1
    f ← result (if ltb (get_or kind 0 0) 16 then family_of families (get_or kind 0 0) else none)
    read_family (buffer ++ kind) f

  -- `ReadAddressPort` of both parsers, into a new buffer.
  unfoldable pub read_address_port : Format → Parser (Address × ℕ)
  read_address_port format =
      if format.port_first
      then (do
        port ← read_full 2
        address ← read_address format.families port
        pure (address, uint16 port))
      else (do
        address ← read_address format.families []
        port ← read_full 2
        pure (address, uint16 port))

-- `writeAddress`; nothing on an error.
unfoldable pub write_address : List (ℕ × Family) → Address → Option (List ℕ)
write_address families (Address.ipv4 ip) = elim (byte_of families Family.ipv4) [
  | none ↦ none
  | some b ↦ some (b ∷ ip)
]
write_address families (Address.ipv6 ip) = elim (byte_of families Family.ipv6) [
  | none ↦ none
  | some b ↦ some (b ∷ ip)
]
write_address families (Address.domain name) = elim (byte_of families Family.domain) [
  | none ↦ none
  | some b ↦ if is_domain_too_long name then none else some (b ∷ (length name % 256) ∷ name)
]

-- `WriteAddressPort` of both parsers.
unfoldable pub write_address_port : Format → Address → ℕ → Option (List ℕ)
write_address_port format address port = elim (write_address format.families address) [
  | none ↦ none
  | some bytes ↦
      some (if format.port_first then put_uint16 port ++ bytes else bytes ++ put_uint16 port)
]
