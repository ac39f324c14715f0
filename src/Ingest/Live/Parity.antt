-- ===== src/Ingest/Live/Parity.antt =====
-- Of crates/tcpvisr-ingest/src/live.rs and replay.rs: both faucets make the same of the same packets.
use tcp_visr.Base.{
  ◌≡◌, refl, sym, ap, ap₂, ◌∙◌, arith, ℕ, ◌*◌, ◌≤◌, ◌<◌, true, false, ltb, some, List, [], ◌∷◌,
  ◌++◌, map, map_some, pos, All, append-nil, saturating_add, saturate_u64,
}
use tcp_visr.Core.Segment.{Item, segment}
use tcp_visr.Core.Name.{NameObservation}
use tcp_visr.Ingest.Crates.{Crates}
use tcp_visr.Ingest.Link.{LinkType, from_dlt}
use tcp_visr.Ingest.Decode.{DecodeOutcome, decoded, names, skipped}
use tcp_visr.Ingest.Decode.Payload.{decode_frame-total}
use tcp_visr.Ingest.Replay.{
  State, ok, legacy_header, legacy, Reading, block, readings, nano_magic, deliver, process_on,
  process_packet, dlt_to_link, handle_block, read_all, ReplayParse, replay_parse,
  parse_file_visit_named, parse_file,
}
use tcp_visr.Ingest.Live.{
  Running, start_run, Poll, packet, LiveEvent, item_event, name_event, packet_ns, normalize_ts,
  emit, on_packet, run_live,
}

-- A packet as captured: its time in seconds and nanoseconds, its length on the wire, its bytes.
pub record Captured : Type 0 where
  pub sec : ℕ
  pub nsec : ℕ
  pub origlen : ℕ
  pub bytes : List ℕ

-- The packet as a record of a file, and as it comes from the interface.
abbrev pub as_record : Captured → Reading
as_record p = block (legacy p.sec p.nsec p.origlen p.bytes)

abbrev pub as_poll : Captured → Poll
as_poll p = packet (pos p.sec) (pos p.nsec) p.origlen p.bytes

-- The fields of a time stamp are u32.
abbrev pub FitsU32 : Captured → Type 0
FitsU32 p = (p.sec < 4294967296) × (p.nsec < 4294967296)

abbrev pub items_of : List LiveEvent → List Item
items_of [] = []
items_of (item_event i ∷ es) = i ∷ items_of es
items_of (name_event o ∷ es) = items_of es

abbrev pub names_of : List LiveEvent → List NameObservation
names_of [] = []
names_of (item_event i ∷ es) = names_of es
names_of (name_event o ∷ es) = o ∷ names_of es

pub items_of-append : (xs ys : List LiveEvent) → items_of (xs ++ ys) ≡ items_of xs ++ items_of ys
items_of-append [] ys = refl
items_of-append (item_event i ∷ xs) ys = ap (λ is. i ∷ is) (items_of-append xs ys)
items_of-append (name_event o ∷ xs) ys = items_of-append xs ys

names_of-append : (xs ys : List LiveEvent) → names_of (xs ++ ys) ≡ names_of xs ++ names_of ys
names_of-append [] ys = refl
names_of-append (item_event i ∷ xs) ys = names_of-append xs ys
names_of-append (name_event o ∷ xs) ys = ap (λ os. o ∷ os) (names_of-append xs ys)

pub items_of-names : (obs : List NameObservation) → items_of (map name_event obs) ≡ []
items_of-names [] = refl
items_of-names (o ∷ os) = items_of-names os

names_of-names : (obs : List NameObservation) → names_of (map name_event obs) ≡ obs
names_of-names [] = refl
names_of-names (o ∷ os) = ap (λ xs. o ∷ xs) (names_of-names os)

-- The state of a replay, at ticks of one nanosecond, that stands where a live run stands.
abbrev replay_state : LinkType → Running → State
replay_state link r = record {
  link_type = some link;
  baseline = r.baseline;
  nanos_per_tick = 1;
  skips = r.skips;
  items = items_of r.events;
  name_items = names_of r.events;
}

-- What a replay returns of it.
abbrev pub as_parse : LinkType → Running → ReplayParse
as_parse link r = record {
  items_read = items_of r.events;
  skips_read = r.skips;
  link_read = link;
  names_read = names_of r.events;
}

abbrev with_lists : State → List Item → List NameObservation → State
with_lists st is os = record st { items = is; name_items = os }

deliver-emit :
    (link : LinkType) (r : Running) (o : DecodeOutcome)
    → deliver (replay_state link r) o ≡ replay_state link (emit r o)
unfolding deliver emit
deliver-emit link r (decoded seg) =
    ap₂ (with_lists (replay_state link r))
      (sym (items_of-append r.events (item_event (segment seg) ∷ [])))
      (sym (names_of-append r.events (item_event (segment seg) ∷ []) ∙ append-nil _))
deliver-emit link r (names obs) =
    ap₂ (with_lists (replay_state link r))
      (sym (
        items_of-append r.events (map name_event obs)
        ∙ (ap (λ is. items_of r.events ++ is) (items_of-names obs) ∙ append-nil _)))
      (sym (
        names_of-append r.events (map name_event obs)
        ∙ ap (λ os. names_of r.events ++ os) (names_of-names obs)))
deliver-emit link r (skipped reason) = refl

-- The time of a record is that of the packet.
packet_ns-record :
    (p : Captured)
    → FitsU32 p
    → packet_ns true (pos p.sec) (pos p.nsec)
      ≡ saturating_add (saturate_u64 (p.sec * 1000000000)) (saturate_u64 (p.nsec * 1))
unfolding packet_ns
packet_ns-record p h = omega (arith, h.0, h.1)

-- A packet of both faucets, at the same time.
on_packet-record :
    (crates : Crates) (link : LinkType) (r : Running) (p : Captured)
    → FitsU32 p
    → (s : Running) × (on_packet crates link r
          (packet_ns true (pos p.sec) (pos p.nsec))
          p.origlen
          p.bytes
        ≡ some s)
      × (handle_block crates (replay_state link r) (legacy p.sec p.nsec p.origlen p.bytes)
          ≡ some (ok (replay_state link s)))
unfolding on_packet handle_block process_packet process_on normalize_ts
on_packet-record crates link r p h =
    let ns = packet_ns true (pos p.sec) (pos p.nsec) in
    let (ts, base) = normalize_ts ns r.baseline in
    let (o, e) = decode_frame-total crates link ts p.bytes p.origlen in
    let s : Running = record r { baseline = base } in
    (
      emit s o,
      ap (map_some (emit s)) e,
      rw (sym (packet_ns-record p h)) (
          ap (map_some (λ d. ok (deliver (replay_state link s) d))) e
          ∙ ap (λ st. some (ok st)) (deliver-emit link s o)),
    )

run_live-read_all :
    (crates : Crates) (link : LinkType) (ps : List Captured) (r : Running)
    → All FitsU32 ps
    → (s : Running) × (run_live crates link true (map as_poll ps) r ≡ some s)
      × (read_all crates (map as_record ps) (replay_state link r)
          ≡ some (ok (link, replay_state link s)))
unfolding run_live read_all
run_live-read_all crates link [] r h = (r, refl, refl)
run_live-read_all crates link (p ∷ ps) r h =
    let (s, live, file) = on_packet-record crates link r p h.0 in
    let (t, live_later, file_later) = run_live-read_all crates link ps s h.1 in
    (t, rw live live_later, rw file file_later)

-- The same packets, read from a nanosecond capture file and from an interface of the same supported
-- link type, with 32-bit time stamps: both runs end, and give the same items and the same names, each
-- in the same order, and the same skip counts.
pub run_live-parse_file :
    (crates : Crates) (dlt : ℕ) (link : LinkType) (ps : List Captured) (diagnostic : ℕ)
    → dlt ≤ 65535
    → from_dlt dlt ≡ some link
    → All FitsU32 ps
    → (r : Running) × (run_live crates link true (map as_poll ps) (start_run diagnostic) ≡ some r)
      × (parse_file crates
            (readings (block (legacy_header nano_magic (pos dlt)) ∷ map as_record ps))
          ≡ some (ok (as_parse link r)))
unfolding parse_file parse_file_visit_named read_all handle_block dlt_to_link
run_live-parse_file crates dlt link ps diagnostic hd hl h =
    let (r, live, file) = run_live-read_all crates link ps (start_run diagnostic) h in
    let fits : ltb 65535 dlt ≡ false = ground arith in
    (r, live, rw (fits, hl) (ap (map_some replay_parse) file))
