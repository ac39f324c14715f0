-- ===== src/Ingest/Live.antt =====
-- crates/tcpvisr-ingest/src/live.rs: capture on an interface, as what the handle of the crate `pcap`
-- yields. The calls of `on_event` are a list.
pub mod Parity
pub mod Counts
mod Tests
use tcp_visr.Base.{
  ℕ, ◌+◌, ◌*◌, ◌%◌, Bool, true, false, not, ◌||◌, ltb, if◌then◌else◌, Option, none, some, List, [],
  ◌∷◌, ◌++◌, snoc, map, map_some, bind, ℤ, pos, negsuc, u64_mod, saturating_sub, add_u64,
}
use tcp_visr.Core.Time.{Nanos}
use tcp_visr.Core.Segment.{Item, segment, tick}
use tcp_visr.Core.Name.{NameObservation}
use tcp_visr.Ingest.Crates.{Crates}
use tcp_visr.Ingest.Link.{LinkType, from_dlt, SkipReason, non_tcp}
use tcp_visr.Ingest.Skips.{SkipCounts, no_skips, record_skip}
use tcp_visr.Ingest.Decode.{DecodeOutcome, decoded, names, skipped, decode_frame}
use tcp_visr.Ingest.Replay.{get_or_insert}

abbrev pub default_snaplen : ℕ
default_snaplen = 262144

-- A text is the list of its characters.
pub record LiveOptions : Type 0 where
  pub iface : List ℕ
  pub filter : Option (List ℕ)
  pub snaplen : ℕ
  pub promisc : Bool

-- `LiveOptions::new`
abbrev pub live_options : List ℕ → LiveOptions
live_options iface = record {
  iface = iface;
  filter = none;
  snaplen = default_snaplen;
  promisc = false;
}

pub data LiveError : Type 0 where
  open_error activate_error filter_error : List ℕ → List ℕ → LiveError
  privilege : List ℕ → LiveError
  unsupported_link : ℕ → LiveError
  interfaces_error : List ℕ → LiveError

-- The result of opening, and of each step of it.
pub data Attempt {ℓ} (A : Type ℓ) : Type ℓ where
  opened : A → Attempt A
  refused : LiveError → Attempt A

-- A result of the crate `pcap`, whose error is its text.
pub data Given {ℓ} (A : Type ℓ) : Type ℓ where
  given : A → Given A
  fault : List ℕ → Given A

-- What the crate `pcap` does with a device and its handle, and the functions on texts. `activate` is
-- the builder's chain up to `open`: with the capture length, promiscuity, and whether the precision
-- is nanoseconds.
pub record Pcap {ℓ} (Inactive Handle : Type ℓ) : Type ℓ where
  pub from_device : List ℕ → Given Inactive
  pub activate : Inactive → ℕ → Bool → Bool → Given Handle
  pub get_datalink : Handle → ℤ
  pub install : Handle → List ℕ → Given Handle
  pub to_lowercase : List ℕ → List ℕ
  pub contains : List ℕ → List ℕ → Bool

-- "permission", "not permitted" and "root".
abbrev pub permission_text : List ℕ
permission_text = 112 ∷ 101 ∷ 114 ∷ 109 ∷ 105 ∷ 115 ∷ 115 ∷ 105 ∷ 111 ∷ 110 ∷ []

abbrev pub not_permitted_text : List ℕ
not_permitted_text = 110 ∷ 111 ∷ 116 ∷ 32 ∷ 112 ∷ 101 ∷ 114 ∷ 109 ∷ 105 ∷ 116 ∷ 116 ∷ 101 ∷ 100 ∷ []

abbrev pub root_text : List ℕ
root_text = 114 ∷ 111 ∷ 111 ∷ 116 ∷ []

pub record LiveCapture {ℓ} (Handle : Type ℓ) : Type ℓ where
  pub cap : Handle
  pub link : LinkType
  pub nanos : Bool

module _ {ℓ} {Inactive Handle : Type ℓ} (pcap : Pcap Inactive Handle) where
  unfoldable pub map_open_error : List ℕ → List ℕ → LiveError
  map_open_error iface detail =
      let lower = pcap.to_lowercase detail in
      if pcap.contains lower permission_text
        || (pcap.contains lower not_permitted_text || pcap.contains lower root_text)
      then privilege iface
      else activate_error iface detail

  abbrev pub activated : List ℕ → Given Handle → Attempt Handle
  activated iface (given cap) = opened cap
  activated iface (fault detail) = refused (map_open_error iface detail)

  abbrev pub activate_on : LiveOptions → Bool → Given Inactive → Attempt Handle
  activate_on opts nano (given inactive) =
      activated opts.iface (pcap.activate inactive opts.snaplen opts.promisc nano)
  activate_on opts nano (fault detail) = refused (open_error opts.iface detail)

  unfoldable pub open_with : LiveOptions → Bool → Attempt Handle
  open_with opts nano = activate_on opts nano (pcap.from_device opts.iface)

  abbrev pub live_link_or : ℕ → Option LinkType → Attempt LinkType
  live_link_or dlt (some link) = opened link
  live_link_or dlt none = refused (unsupported_link dlt)

  -- The `i32` first goes to a `u16`.
  unfoldable pub live_link : ℤ → Attempt LinkType
  live_link (pos dlt) =
      if ltb 65535 dlt then refused (unsupported_link 65535) else live_link_or dlt (from_dlt dlt)
  live_link (negsuc n) = refused (unsupported_link 65535)

  abbrev pub installed : LinkType → Bool → List ℕ → Given Handle → Attempt (LiveCapture Handle)
  installed link nanos expr (given cap) = opened (record { cap = cap; link = link; nanos = nanos })
  installed link nanos expr (fault detail) = refused (filter_error expr detail)

  abbrev pub filtered : Handle → LinkType → Bool → Option (List ℕ) → Attempt (LiveCapture Handle)
  filtered cap link nanos none = opened (record { cap = cap; link = link; nanos = nanos })
  filtered cap link nanos (some expr) = installed link nanos expr (pcap.install cap expr)

  abbrev pub linked : LiveOptions → Handle → Bool → Attempt LinkType → Attempt (LiveCapture Handle)
  linked opts cap nanos (refused e) = refused e
  linked opts cap nanos (opened link) = filtered cap link nanos opts.filter

  abbrev pub on_handle : LiveOptions → Bool → Attempt Handle → Attempt (LiveCapture Handle)
  on_handle opts nanos (refused e) = refused e
  on_handle opts nanos (opened cap) = linked opts cap nanos (live_link (pcap.get_datalink cap))

  -- Nanosecond precision is tried first; its refusal is dropped.
  abbrev pub open_after : LiveOptions → Attempt Handle → Attempt (LiveCapture Handle)
  open_after opts (opened cap) = on_handle opts true (opened cap)
  open_after opts (refused _) = on_handle opts false (open_with opts false)

  unfoldable pub open_live : LiveOptions → Attempt (LiveCapture Handle)
  open_live opts = open_after opts (open_with opts true)

-- What a call of `next_packet` gives: a packet with the two fields of its time stamp, its length on
-- the wire and its bytes; a read timeout, with the wall clock then; or another error. A list of them
-- ends where the loop sees `stop`.
pub data Poll : Type 0 where
  packet : ℤ → ℤ → ℕ → List ℕ → Poll
  timeout : ℕ → Poll
  ended : Poll

pub data LiveEvent : Type 0 where
  item_event : Item → LiveEvent
  name_event : NameObservation → LiveEvent

-- `diagnostic` is the counter shared with the caller, which starts at any value.
pub record Running : Type 0 where
  pub baseline : Option ℕ
  pub skips : SkipCounts
  pub diagnostic : ℕ
  pub events : List LiveEvent

abbrev pub start_run : ℕ → Running
start_run diagnostic = record {
  baseline = none;
  skips = no_skips;
  diagnostic = diagnostic;
  events = [];
}

-- `u64::try_from(_).unwrap_or(0)` of an i64.
abbrev pub nat_or_zero : ℤ → ℕ
nat_or_zero (pos n) = n
nat_or_zero (negsuc n) = 0

-- The time of a packet, with the wraps of a release build.
unfoldable pub packet_ns : Bool → ℤ → ℤ → ℕ
packet_ns nanos tv_sec tv_usec =
    let sub = nat_or_zero tv_usec in
    add_u64 (nat_or_zero tv_sec * 1000000000 % u64_mod)
      (if nanos then sub else (sub * 1000 % u64_mod))

-- `normalize_ts`: the time, and the baseline after it.
unfoldable pub normalize_ts : ℕ → Option ℕ → Nanos × Option ℕ
normalize_ts abs_ns baseline =
    let base = get_or_insert abs_ns baseline in (saturating_sub abs_ns base, some base)

abbrev pub is_non_tcp : SkipReason → Bool
is_non_tcp non_tcp = true
is_non_tcp _ = false

unfoldable pub emit : Running → DecodeOutcome → Running
emit r (decoded seg) = record r { events = snoc r.events (item_event (segment seg)) }
emit r (names obs) = record r { events = r.events ++ map name_event obs }
emit r (skipped reason) = record r {
  skips = record_skip reason r.skips;
  diagnostic = if is_non_tcp reason then r.diagnostic else add_u64 r.diagnostic 1;
}

-- One packet at its absolute time.
unfoldable pub on_packet : Crates → LinkType → Running → ℕ → ℕ → List ℕ → Option Running
on_packet crates link r abs_ns len bytes =
    let (ts, base) = normalize_ts abs_ns r.baseline in
    map_some (emit (record r { baseline = base })) (decode_frame crates link ts bytes len)

-- A read timeout, at the wall clock.
unfoldable pub on_timeout : Running → ℕ → Running
on_timeout r wall_ns =
    let (ts, base) = normalize_ts wall_ns r.baseline in
    record r { baseline = base; events = snoc r.events (item_event (tick ts)) }

-- The loop of `run`, on a capture with this link type and precision.
unfoldable pub run_live : Crates → LinkType → Bool → List Poll → Running → Option Running
run_live crates link nanos [] r = some r
run_live crates link nanos (packet tv_sec tv_usec len bytes ∷ ps) r =
    bind (run_live crates link nanos ps)
      (on_packet crates link r (packet_ns nanos tv_sec tv_usec) len bytes)
run_live crates link nanos (timeout wall_ns ∷ ps) r =
    run_live crates link nanos ps (on_timeout r wall_ns)
run_live crates link nanos (ended ∷ ps) r = some r
