-- ===== src/Address/Long.antt =====
-- `isDomainTooLong` lets 256 bytes pass, whose length byte is zero.
use reflex_network_project.Prelude.{
  ℕ, ◌+◌, ◌≡◌, ◌≢◌, ◌∙◌, sym, ap, refl, Option, some, List, [], ◌∷◌, ◌++◌, arith, Bool-cases,
  Option-cases, inl, inr, length, length-append, append_assoc,
}
use reflex_network_project.Prelude.Bytes.{put_uint16, length-put_uint16}
use reflex_network_project.Address.{
  Family, Address, read_full, ip_address, is_domain_too_long, Format, parse_address, domain_or_ip,
  read_family, read_address, read_address_port, write_address, write_address_port,
}
use reflex_network_project.Address.RoundTrip.{IsFormat, read_full-append, read_address-kind}

ip_address-ne-domain : (ip name : List ℕ) → ip_address ip ≢ some (Address.domain name)
unfolding ip_address
ip_address-ne-domain ip name h = ground arith

module _ (parse_ip : List ℕ → Option (List ℕ)) (trim_space : List ℕ → List ℕ) where
  -- The only domain that can come out is the text itself.
  domain_or_ip-domain :
      (text name : List ℕ)
      → domain_or_ip parse_ip trim_space text ≡ some (Address.domain name)
      → text ≡ name
  unfolding domain_or_ip
  domain_or_ip-domain text name h = elim (Option-cases (parse_address parse_ip trim_space text)) [
    | inl e ↦ ground (arith, e)
    | inr (ip, e) ↦ ground (arith, e, ip_address-ne-domain ip name)
  ]

  read_address-zero :
      (families : List (ℕ × Family)) (buffer body name rest : List ℕ) (b : ℕ)
      → IsFormat families Family.domain b
      → length name ≢ length buffer + 2
      → read_address parse_ip trim_space families buffer (b ∷ 0 ∷ body)
        ≢ some (Address.domain name, rest)
  unfolding read_family
  read_address-zero families buffer body name rest b f len h =
      let text = (buffer ++ (b ∷ [])) ++ (0 ∷ []) in
      let size : length text ≡ length buffer + 2 =
        omega (arith, length-append (buffer ++ (b ∷ [])) (0 ∷ []), length-append buffer (b ∷ [])) in
      let kind =
        sym (read_address-kind parse_ip trim_space families buffer (0 ∷ body) Family.domain b f)
        ∙ h in
      let same : text ≡ name = domain_or_ip-domain text name (
        ground
          (arith, kind, read_full-append 1 (0 ∷ []) body refl, read_full-append 0 [] body refl)) in
      len (sym (ap length same) ∙ size)

  -- A domain of 256 bytes is written without an error in a format that has a byte for domains, and from what was written, with anything
  -- behind it, that domain is never read, with whatever port and whatever left over, in either order
  -- of address and port.
  pub write_address_port-long :
      (format : Format) (name rest left : List ℕ) (port read_port b : ℕ)
      → IsFormat format.families Family.domain b
      → length name ≡ 256
      → (bytes : List ℕ) × (write_address_port format (Address.domain name) port ≡ some bytes)
        × (read_address_port parse_ip trim_space format (bytes ++ rest)
            ≢ some ((Address.domain name, read_port), left))
  unfolding read_address_port write_address_port write_address is_domain_too_long
  write_address_port-long format name rest left port read_port b f len =
      let port_read =
        read_full-append 2 (put_uint16 port) (b ∷ 0 ∷ (name ++ rest)) (length-put_uint16 port) in
      elim (Bool-cases format.port_first) [
        | inl first ↦ (
          put_uint16 port ++ (b ∷ 0 ∷ name),
          ground (arith, f.written, first, len),
          λ h.
              elim (Option-cases (
                read_address parse_ip trim_space format.families (put_uint16 port)
                  (b ∷ 0 ∷ (name ++ rest)))) [
                    | inl e ↦ ground (
                      arith,
                      h,
                      e,
                      first,
                      append_assoc (put_uint16 port) (b ∷ 0 ∷ name) rest,
                      port_read,
                    )
                    | inr (a, e) ↦
                        let same : a.0 ≡ Address.domain name = ground (
                          arith,
                          h,
                          e,
                          first,
                          append_assoc (put_uint16 port) (b ∷ 0 ∷ name) rest,
                          port_read,
                        ) in
                        read_address-zero format.families (put_uint16 port) (name ++ rest) name a.1
                          b f (omega (arith, length-put_uint16 port))
                          (e ∙ ap (λ x. some (x, a.1)) same)
                  ],
        )
        | inr last ↦ (
          (b ∷ 0 ∷ name) ++ put_uint16 port,
          ground (arith, f.written, last, len),
          λ h.
              let body = (name ++ put_uint16 port) ++ rest in
              elim (Option-cases
                (read_address parse_ip trim_space format.families [] (b ∷ 0 ∷ body))) [
                  | inl e ↦ ground (arith, h, e, last)
                  | inr (a, e) ↦
                      let same : a.0 ≡ Address.domain name = elim (Option-cases (read_full 2 a.1)) [
                        | inl none_left ↦ ground (arith, h, e, last, none_left)
                        | inr (p, got) ↦ ground (arith, h, e, last, got)
                      ] in
                      read_address-zero format.families [] body name a.1 b f (omega arith)
                        (e ∙ ap (λ x. some (x, a.1)) same)
                ],
        )
      ]
