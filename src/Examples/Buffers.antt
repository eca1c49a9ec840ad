-- ===== src/Examples/Buffers.antt =====
-- Runs of common/buf.
use reflex_network_project.Prelude.{
  All, drop, ◌≡◌, some, none, [], ◌∷◌, ◌++◌, arith, length, take, min, leb, if◌then◌else◌,
}
use reflex_network_project.Io.{Error}
use reflex_network_project.Buffer.{Buffer, Ownership, IsValid, bytes, available, write}
use reflex_network_project.MultiBuffer.{MultiBuffer}
use reflex_network_project.MultiBuffer
use reflex_network_project.MultiBuffer.Content.{content, split_bytes_lem}
use reflex_network_project.Buffer.Content.{write_lem}

-- Two bytes of content, in the middle of six.
abbrev half_full : Buffer
half_full = record {
  v = 1 ∷ 2 ∷ 3 ∷ 4 ∷ 5 ∷ 6 ∷ [];
  start = 1;
  stop = 3;
  ownership = Ownership.managed;
  udp = none;
}

half_full-IsValid : IsValid half_full
half_full-IsValid = record { ordered = omega arith; within = omega arith }

-- Two buffers, and what a new one starts from.
abbrev pair : MultiBuffer
pair = half_full ∷ half_full ∷ []

pair-IsValid : All IsValid pair
pair-IsValid = (half_full-IsValid, (half_full-IsValid, tt))

split_bytes_lem_example :
    let (left, bs) = MultiBuffer.split_bytes pair 3 in
    All IsValid left × (bs ≡ take 3 (content pair)) × (content left ≡ drop 3 (content pair))
split_bytes_lem_example = split_bytes_lem pair 3 pair-IsValid

write_lem_example :
    let (b', n, e) = write half_full (7 ∷ 8 ∷ 9 ∷ 10 ∷ []) in
    IsValid b'
    × (bytes b' ≡ bytes half_full ++ take (available half_full) (7 ∷ 8 ∷ 9 ∷ 10 ∷ []))
    × (n ≡ min (available half_full) 4)
    × (e ≡ (if leb 4 (available half_full) then none else some Error.buffer_full))
    × (length b'.v ≡ 6)
write_lem_example = write_lem half_full (7 ∷ 8 ∷ 9 ∷ 10 ∷ []) half_full-IsValid
