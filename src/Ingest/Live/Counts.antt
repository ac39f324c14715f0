-- ===== src/Ingest/Live/Counts.antt =====
-- Of the loop in crates/tcpvisr-ingest/src/live.rs: no packet is lost.
use tcp_visr.Base.{
  ◌≡◌, refl, arith, ℕ, suc, ◌+◌, ◌≤◌, ◌<◌, Bool, true, false, Option, none, some, List, [], ◌∷◌,
  ◌++◌, length, map, map_some, All, ap, length-append, length-snoc, ltb, ◌==◌, if◌then◌else◌,
}
use tcp_visr.Core.Time.{Nanos}
use tcp_visr.Core.Segment.{Item, segment, tick}
use tcp_visr.Core.Name.{NameObservation}
use tcp_visr.Ingest.Crates.{
  Crates, Net, ipv4, ipv6, arp, NetHeader, SlicedPacket, TransportSlice, tcp, udp, other_transport,
  Sliced, sliced, unsliced, len_error, content_error,
}
use tcp_visr.Ingest.Dns.{parse_dns_answers}
use tcp_visr.Ingest.Link.{
  LinkType, Stripped, ip_bytes, skip, non_tcp, malformed, unsupported_link_type, ipv6_fragment,
  unsupported_ext_chain, truncated,
}
use tcp_visr.Ingest.Link.Strip.{strip_link-total}
use tcp_visr.Ingest.Skips.{SkipCounts, record_skip, total}
use tcp_visr.Ingest.Decode.{
  DecodeOutcome, decoded, names, skipped, named, decode_transport, decode_header, decode_net,
  decode_sliced, decode_stripped, decode_frame,
}
use tcp_visr.Ingest.Live.{
  Running, start_run, Poll, packet, timeout, ended, item_event, name_event, packet_ns, normalize_ts,
  emit, on_packet, on_timeout, run_live,
}
use tcp_visr.Ingest.Live.Parity.{items_of, items_of-append, items_of-names}

-- Names are given only when there are some.
abbrev Tells : DecodeOutcome → Type 0
Tells (decoded seg) = Unit
Tells (names obs) = 0 < length obs
Tells (skipped reason) = Unit

if-Tells : (b : Bool) (x y : DecodeOutcome) → Tells x → Tells y → Tells (if b then x else y)
if-Tells true x y hx hy = hx
if-Tells false x y hx hy = hy

named-Tells : (obs : List NameObservation) → Tells (named obs)
unfolding named
named-Tells [] = tt
named-Tells (o ∷ os) = omega arith

module _ (crates : Crates) (ts : Nanos) (cut : Bool) (ip : List ℕ) where
  decode_transport-Tells :
      (net : Net) (h : NetHeader) (s : SlicedPacket) (t : Option TransportSlice)
      → Tells (decode_transport crates ts cut ip net h s t)
  unfolding decode_transport
  decode_transport-Tells net h s (some (tcp t)) = tt
  decode_transport-Tells net h s (some (udp source_port payload)) =
      if-Tells (source_port == 53) _ _ (named-Tells (parse_dns_answers crates ts payload)) tt
  decode_transport-Tells net h s (some other_transport) = tt
  decode_transport-Tells net h s none = tt

  decode_header-Tells :
      (net : Net) (h : NetHeader) (s : SlicedPacket)
      → Tells (decode_header crates ts cut ip net h s)
  unfolding decode_header
  decode_header-Tells net h s =
      if-Tells h.fragmented _ _ tt (decode_transport-Tells net h s s.transport)

  decode_net-Tells :
      (s : SlicedPacket) (net : Option Net) → Tells (decode_net crates ts cut ip s net)
  unfolding decode_net
  decode_net-Tells s (some (ipv4 h)) = decode_header-Tells (ipv4 h) h s
  decode_net-Tells s (some (ipv6 h)) = decode_header-Tells (ipv6 h) h s
  decode_net-Tells s (some arp) = tt
  decode_net-Tells s none = tt

  decode_sliced-Tells : (s : Sliced) → Tells (decode_sliced crates ts cut ip s)
  unfolding decode_sliced
  decode_sliced-Tells (sliced s) = decode_net-Tells s s.net
  decode_sliced-Tells (unsliced len_error) = tt
  decode_sliced-Tells (unsliced content_error) = tt

decode_stripped-Tells :
    (crates : Crates) (ts : Nanos) (cut : Bool) (s : Stripped)
    → Tells (decode_stripped crates ts cut s)
unfolding decode_stripped
decode_stripped-Tells crates ts cut (skip reason) = tt
decode_stripped-Tells crates ts cut (ip_bytes ip) =
    decode_sliced-Tells crates ts cut ip (crates.from_ip ip)

decode_frame-Tells :
    (crates : Crates) (link : LinkType) (ts : Nanos) (frame : List ℕ) (wire_len : ℕ)
    → (o : DecodeOutcome) × (decode_frame crates link ts frame wire_len ≡ some o) × Tells o
unfolding decode_frame
decode_frame-Tells crates link ts frame wire_len =
    let (s, e) = strip_link-total link frame in
    let cut = ltb (length frame) wire_len in
    (_, ap (map_some (decode_stripped crates ts cut)) e, decode_stripped-Tells crates ts cut s)

-- The counts together, without a wrap.
abbrev skip_sum : SkipCounts → ℕ
skip_sum c =
    c.non_tcp_count + c.malformed_count + c.unsupported_link_type_count + c.ipv6_fragment_count
    + c.unsupported_ext_chain_count + c.truncated_count

total-sum : (c : SkipCounts) → skip_sum c < 18446744073709551616 → total c ≡ skip_sum c
unfolding total
total-sum c h = omega (arith, h)

-- Of the polls so far, each was an item or a skip or gave names; every skip but those of other
-- protocols is in the diagnostic count.
abbrev Counted : Running → ℕ → Type 0
Counted r n =
    (length (items_of r.events) + skip_sum r.skips ≤ n)
    × (n ≤ length r.events + skip_sum r.skips)
    × (r.diagnostic + r.skips.non_tcp_count ≡ skip_sum r.skips)

item-Counted :
    (r : Running) (n : ℕ) (i : Item)
    → Counted r n
    → Counted (record r { events = r.events ++ item_event i ∷ [] }) (suc n)
item-Counted r n i h =
    let e = ap length (items_of-append r.events (item_event i ∷ [])) in
    let p = length-append (items_of r.events) (i ∷ []) in
    let q = length-snoc r.events (item_event i) in
    (omega (arith, e, p, h.0), omega (arith, q, h.1), h.2)

length-names : (obs : List NameObservation) → length (map name_event obs) ≡ length obs
length-names [] = refl
length-names (o ∷ os) = ap suc (length-names os)

emit-Counted :
    (r : Running) (n : ℕ) (o : DecodeOutcome)
    → Tells o
    → suc n < 18446744073709551616
    → Counted r n
    → Counted (emit r o) (suc n)
unfolding emit record_skip
emit-Counted r n (decoded seg) k w h = item-Counted r n (segment seg) h
emit-Counted r n (names obs) k w h =
    let e = ap length (items_of-append r.events (map name_event obs)) in
    let p = length-append (items_of r.events) (items_of (map name_event obs)) in
    let z = ap length (items_of-names obs) in
    let q = length-append r.events (map name_event obs) in
    let l = length-names obs in (omega (arith, e, p, z, h.0), omega (arith, q, l, k, h.1), h.2)
emit-Counted r n (skipped non_tcp) k w h = omega (arith, h.0, h.1, h.2)
emit-Counted r n (skipped malformed) k w h = omega (arith, h.0, h.1, h.2)
emit-Counted r n (skipped unsupported_link_type) k w h = omega (arith, h.0, h.1, h.2)
emit-Counted r n (skipped ipv6_fragment) k w h = omega (arith, h.0, h.1, h.2)
emit-Counted r n (skipped unsupported_ext_chain) k w h = omega (arith, h.0, h.1, h.2)
emit-Counted r n (skipped truncated) k w h = omega (arith, h.0, h.1, h.2)

-- The handle does not end.
abbrev pub GoesOn : Poll → Type 0
GoesOn (packet tv_sec tv_usec len bytes) = Unit
GoesOn (timeout wall_ns) = Unit
GoesOn ended = ⊥

run_live-Counted :
    (crates : Crates) (link : LinkType) (nanos : Bool) (ps : List Poll) (r : Running) (n : ℕ)
    → All GoesOn ps
    → n + length ps < 18446744073709551616
    → Counted r n
    → (s : Running) × (run_live crates link nanos ps r ≡ some s) × Counted s (n + length ps)
unfolding run_live on_packet on_timeout
run_live-Counted crates link nanos [] r n g w h =
    (r, refl, (omega (arith, h.0), omega (arith, h.1), h.2))
run_live-Counted crates link nanos (packet tv_sec tv_usec len bytes ∷ ps) r n g w h =
    let (ts, base) = normalize_ts (packet_ns nanos tv_sec tv_usec) r.baseline in
    let (o, e, k) = decode_frame-Tells crates link ts bytes len in
    let q : Running = record r { baseline = base } in
    let (s, f, c) =
      run_live-Counted crates link nanos ps (emit q o) (suc n) g.1 (omega (arith, w))
        (emit-Counted q n o k (omega (arith, w)) h) in
    (s, rw e f, (omega (arith, c.0), omega (arith, c.1), c.2))
run_live-Counted crates link nanos (timeout wall_ns ∷ ps) r n g w h =
    let (ts, base) = normalize_ts wall_ns r.baseline in
    let q : Running = record r { baseline = base } in
    let (s, f, c) =
      run_live-Counted crates link nanos ps (on_timeout r wall_ns) (suc n) g.1 (omega (arith, w))
        (item-Counted q n (tick ts) h) in
    (s, f, (omega (arith, c.0), omega (arith, c.1), c.2))
run_live-Counted crates link nanos (ended ∷ ps) r n g w h = elim g.0 [ ]

-- A live run of fewer than 2^64 polls that do not end the handle returns. Each poll was an item, a
-- skip, or gave one or more names: there are no more items and skips than polls, and no fewer events
-- and skips. The diagnostic count, from 0, is that of the skips but for those of other protocols.
pub run_live-accounts :
    (crates : Crates) (link : LinkType) (nanos : Bool) (ps : List Poll)
    → All GoesOn ps
    → length ps < 18446744073709551616
    → (r : Running) × (run_live crates link nanos ps (start_run 0) ≡ some r)
      × (length (items_of r.events) + total r.skips ≤ length ps)
      × (length ps ≤ length r.events + total r.skips)
      × (r.diagnostic + r.skips.non_tcp_count ≡ total r.skips)
run_live-accounts crates link nanos ps g w =
    let (r, e, h) =
      run_live-Counted crates link nanos ps (start_run 0) 0 g (omega (arith, w))
        (omega arith, omega arith, omega arith) in
    let t = total-sum r.skips (omega (arith, h.0, w)) in
    (r, e, omega (arith, t, h.0), omega (arith, t, h.1), omega (arith, t, h.2))
