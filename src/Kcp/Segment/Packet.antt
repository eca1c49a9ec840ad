-- ===== src/Kcp/Segment/Packet.antt =====
-- transport/internet/kcp/segment.go and io.go: packets of several segments.
use reflex_network_project.Prelude.{
  ℕ, zero, suc, ◌≤◌, ◌≡◌, refl, ap, ◌∙◌, sym, Option, none, some, List, [], ◌∷◌, ◌++◌, arith,
  length, length-append, subst,
}
use reflex_network_project.Prelude.Bytes.{put_uint16, put_uint32}
use reflex_network_project.Buffer.{size}
use reflex_network_project.Kcp.Segment.{
  Segment, as_segment, parse_cmd_only, data_segment, ack_segment, cmd_only_segment, CmdOnlySegment,
  read_segment, serialize, byte_size, read_segments, read_segments_fuel,
}
use reflex_network_project.Kcp.Segment.Fields.{parse_cmd_only-fields, read_segment-header}
use reflex_network_project.Kcp.Segment.RoundTrip.{
  Fits, CmdFits, SameWire, Reads, data-Reads, ack-Reads,
}

cmd_bytes : CmdOnlySegment → List ℕ
cmd_bytes s =
    put_uint16 s.conv
    ++ (s.cmd
        ∷ s.option
        ∷ (put_uint32 s.sending_next ++ (put_uint32 s.receiving_next ++ put_uint32 s.peer_rto)))

-- The branch of a command that is neither of data nor an acknowledgement.
read_segment-cmd :
    (memory : List ℕ) (s : CmdOnlySegment) (body : List ℕ)
    → CmdFits s
    → read_segment memory (put_uint16 s.conv ++ (s.cmd ∷ s.option ∷ body))
      ≡ as_segment cmd_only_segment (parse_cmd_only s.conv s.cmd s.option body)
read_segment-cmd memory s body f =
    let header = read_segment-header memory s.conv s.cmd s.option body f.conv_16 in
    ground (arith, header, f.not_data, f.not_ack)

cmd-Reads :
    (memory : List ℕ) (s : CmdOnlySegment)
    → CmdFits s
    → Reads memory (cmd_only_segment s) (cmd_bytes s) (cmd_only_segment s)
unfolding serialize byte_size cmd_bytes put_uint16 put_uint32
cmd-Reads memory s f = record {
  written = refl;
  size_ok = refl;
  read_back = λ rest.
      read_segment-cmd memory s _ f
      ∙ ap (as_segment cmd_only_segment) (
          parse_cmd_only-fields s.conv s.cmd s.option s.sending_next s.receiving_next s.peer_rto
            rest f.sending_next_32 f.receiving_next_32 f.peer_rto_32);
  same = refl;
}

-- A segment whose fields fit their widths is written in `byte_size` bytes, and reading them with any
-- others behind gives the same segment and leaves the others.
serialize-read_segment :
    (memory : List ℕ) (s : Segment)
    → size ≤ length memory
    → Fits s
    → (out : List ℕ) × (t : Segment) × Reads memory s out t
serialize-read_segment memory (data_segment s) enough (b, f) =
    (_, _, data-Reads memory enough s b f)
serialize-read_segment memory (ack_segment s) enough f = (_, _, ack-Reads memory s f)
serialize-read_segment memory (cmd_only_segment s) enough f = (_, _, cmd-Reads memory s f)

-- One segment behind another, as `Serialize` writes them; `none` where one of them has no payload.
unfoldable pub serialize_all : List Segment → Option (List ℕ)
serialize_all [] = some []
serialize_all (s ∷ ss) =
    let outs = serialize_all ss in
    elim (serialize s) [
      | none ↦ none
      | some out ↦ elim outs [ none ↦ none | some more ↦ some (out ++ more) ]
    ]

abbrev pub AllFit : List Segment → Type 0
AllFit [] = Unit
AllFit (s ∷ ss) = Fits s × AllFit ss

abbrev pub SameSegments : List Segment → List Segment → Type 0
SameSegments [] [] = Unit
SameSegments [] (t ∷ ts) = ⊥
SameSegments (s ∷ ss) [] = ⊥
SameSegments (s ∷ ss) (t ∷ ts) = SameWire s t × SameSegments ss ts

record Taken (memory : List ℕ) (ss : List Segment) (out : List ℕ) (ts : List Segment) : Type 0 where
  written : serialize_all ss ≡ some out
  taken : (fuel : ℕ) → length out ≤ fuel → read_segments_fuel memory fuel out ≡ ts
  same : SameSegments ss ts

positive : (s : Segment) → 1 ≤ byte_size s
unfolding byte_size
positive (data_segment s) = omega arith
positive (ack_segment s) = omega arith
positive (cmd_only_segment s) = omega arith

read_segments_fuel-empty : (memory : List ℕ) (fuel : ℕ) → read_segments_fuel memory fuel [] ≡ []
unfolding read_segments_fuel
read_segments_fuel-empty memory zero = refl
read_segments_fuel-empty memory (suc fuel) = refl

-- One turn of the loop.
read_segments_fuel-step :
    (memory out rest : List ℕ) (s t : Segment) (fuel : ℕ)
    → Reads memory s out t
    → length (out ++ rest) ≤ fuel
    → (left : ℕ) × (length rest ≤ left)
      × (read_segments_fuel memory fuel (out ++ rest) ≡ t ∷ read_segments_fuel memory left rest)
unfolding read_segments_fuel
read_segments_fuel-step memory out rest s t zero r h =
    absurd (omega (arith, length-append out rest, r.size_ok, positive s))
read_segments_fuel-step memory out rest s t (suc fuel) r h =
    let more : 1 ≤ length out = omega (arith, r.size_ok, positive s) in
    (
      fuel,
      omega (arith, length-append out rest, more),
      ground (arith, length-append out rest, r.read_back rest),
    )

serialize_all-cons :
    (s : Segment) (ss : List Segment) (out outs : List ℕ)
    → serialize s ≡ some out
    → serialize_all ss ≡ some outs
    → serialize_all (s ∷ ss) ≡ some (out ++ outs)
unfolding serialize_all
serialize_all-cons s ss out outs e es = ground (arith, e, es)

serialize_all-Taken :
    (memory : List ℕ) (ss : List Segment)
    → size ≤ length memory
    → AllFit ss
    → (out : List ℕ) × (ts : List Segment) × Taken memory ss out ts
unfolding serialize_all read_segments_fuel
serialize_all-Taken memory [] enough fit = (
  [],
  [],
  record { written = refl; taken = λ fuel h. read_segments_fuel-empty memory fuel; same = tt },
)
serialize_all-Taken memory (s ∷ ss) enough (f, fs) =
    let (out, t, r) = serialize-read_segment memory s enough f in
    let (outs, ts, rs) = serialize_all-Taken memory ss enough fs in
    (
      out ++ outs,
      t ∷ ts,
      record {
        written = serialize_all-cons s ss out outs r.written rs.written;
        taken = λ fuel h.
            let (left, h', eq) = read_segments_fuel-step memory out outs s t fuel r h in
            eq ∙ ap (λ l. t ∷ l) (rs.taken left h');
        same = (r.same, rs.same);
      },
    )

-- A packet of segments whose fields fit their widths, and whose payloads are not empty, is taken apart
-- into the same segments in the same order: none is lost, cut or put together with another.
pub read_segments-serialize_all :
    (memory : List ℕ) (ss : List Segment)
    → size ≤ length memory
    → AllFit ss
    → (out : List ℕ) × ((serialize_all ss ≡ some out) × SameSegments ss (read_segments memory out))
unfolding read_segments
read_segments-serialize_all memory ss enough fit =
    let (out, ts, r) = serialize_all-Taken memory ss enough fit in
    (out, (r.written, subst (SameSegments ss) (sym (r.taken (length out) (omega arith))) r.same))
