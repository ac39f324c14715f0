-- ===== src/Ingest/Decode/Payload.antt =====
-- Of derive_payload_len and decode_frame in crates/tcpvisr-ingest/src/decode.rs: the length on the
-- wire of a payload that the capture may have cut, and that each frame has an outcome.
use tcp_visr.Base.{
  ◌≡◌, arith, ℕ, ◌+◌, ◌*◌, ◌≤◌, ◌<◌, ◌⊎◌, inl, inr, some, List, ◌++◌, length, take, length-append,
  length-take, ap, map_some, ltb, leb, Bool-cases,
}
use tcp_visr.Core.Time.{Nanos}
use tcp_visr.Ingest.Crates.{Crates, Net, ipv4, ipv6, arp, TcpSlice}
use tcp_visr.Ingest.Link.{LinkType}
use tcp_visr.Ingest.Link.Strip.{strip_link-total}
use tcp_visr.Ingest.Decode.{
  DecodeOutcome, onwire_ip_len, subslice_offset, payload_from, derive_payload_len, decode_stripped,
  saturate_u32, decode_frame,
}

-- The slice stands at its offset in the packet.
subslice_offset-at :
    (start len offset : ℕ) → offset ≤ len → subslice_offset start len (start + offset) ≡ some offset
unfolding subslice_offset
subslice_offset-at start len offset h = ground arith

-- The IP header says that the packet has `n` bytes: the length of IPv4 counts the whole packet, that
-- of IPv6 what follows the fixed header of 40 bytes.
abbrev pub Declares : Net → ℕ → Type 0
Declares (ipv4 h) n = h.length_field ≡ n
Declares (ipv6 h) n = h.length_field + 40 ≡ n
Declares arp n = ⊥

onwire_ip_len-declared : (net : Net) (n : ℕ) → Declares net n → onwire_ip_len net ≡ some n
unfolding onwire_ip_len
onwire_ip_len-declared (ipv4 h) n e = ap some e
onwire_ip_len-declared (ipv6 h) n e = ap some (omega arith)
onwire_ip_len-declared arp n e = elim e [ ]

-- Where the headers were not all captured, what was captured of the payload is all that counts.
payload_from-cut :
    (captured need ip_len onwire start address : ℕ)
    → ip_len < need
    → (header_len : ℕ) → start + header_len ≡ need + address
    → payload_from captured header_len ip_len (some onwire) (subslice_offset address ip_len start)
      ≡ captured
unfolding payload_from subslice_offset
payload_from-cut captured need ip_len onwire start address short header_len e = ground arith

-- A packet is headers, up to the end of a TCP header that starts at `offset` in it, and a payload of
-- fewer than 2^32 bytes; its IP header declares their length. It is captured up to `snap` bytes, and
-- link padding may follow it. Where the capture has both headers, the length derived is that of the
-- payload on the wire, however much of it was captured and whatever padding was; where it has not,
-- the length is that of the payload slice, if that has fewer than 2^32 bytes.
pub derive_payload_len-onwire :
    (address offset snap : ℕ) (headers payload padding : List ℕ) (net : Net) (t : TcpSlice)
    → Declares net (length (headers ++ payload))
    → t.start ≡ address + offset
    → length headers ≡ offset + t.data_offset * 4
    → length payload < 4294967296
    → length t.payload < 4294967296
    → let ip = take snap ((headers ++ payload) ++ padding) in
      ((length headers ≤ snap) × (derive_payload_len address ip net t ≡ length payload))
      ⊎ ((snap < length headers) × (derive_payload_len address ip net t ≡ length t.payload))
unfolding derive_payload_len
derive_payload_len-onwire address offset snap headers payload padding net t hd hs hh hp ht =
    let wire = headers ++ payload in
    let ip = take snap (wire ++ padding) in
    let declared = onwire_ip_len-declared net (length wire) hd in
    let whole = length-append headers payload in
    let padded = length-append wire padding in
    let captured = length-take snap (wire ++ padding) in
    elim (Bool-cases (leb (length headers) snap)) [
      | inl whole_headers ↦
          let le : length headers ≤ snap = ground arith in
          let at = subslice_offset-at address (length ip) offset (omega arith) in
          rw (declared, hs, at) (inl (le, unfold payload_from in ground arith))
      | inr cut_headers ↦
          let gt : snap < length headers = ground arith in
          let cut =
            payload_from-cut (saturate_u32 (length t.payload)) (length headers) (length ip)
              (length wire) t.start address (omega arith) (t.data_offset * 4) (omega arith) in
          rw (declared, cut) (inr (gt, ground arith))
    ]

-- Every frame of every link layer is decoded, gives names, or is skipped, whatever the parsing
-- crates answer.
pub decode_frame-total :
    (crates : Crates) (link : LinkType) (ts : Nanos) (frame : List ℕ) (wire_len : ℕ)
    → (outcome : DecodeOutcome) × (decode_frame crates link ts frame wire_len ≡ some outcome)
unfolding decode_frame
decode_frame-total crates link ts frame wire_len =
    let (s, e) = strip_link-total link frame in
    (_, ap (map_some (decode_stripped crates ts (ltb (length frame) wire_len))) e)
