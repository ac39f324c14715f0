-- ===== src/Ingest/Replay.antt =====
-- crates/tcpvisr-ingest/src/replay.rs: a capture file, as the blocks that the reader of the crate
-- `pcap_parser` yields, to items, names and skip counts. The calls of the two sinks are lists. All
-- errors of a run name the same path, which is left out.
use tcp_visr.Base.{
  ℕ, ◌*◌, ◌/◌, ◌%◌, ◌^◌, Bool, true, false, not, ◌||◌, ltb, ◌==◌, if◌then◌else◌, Option, none, some,
  List, [], ◌∷◌, ◌++◌, snoc, map_some, ℤ, pos, negsuc, saturating_sub, saturating_add, saturate_u64,
}
use Prim.Native.Nat.{bit_or}
use tcp_visr.Core.Segment.{Item, segment}
use tcp_visr.Core.Name.{NameObservation}
use tcp_visr.Ingest.Crates.{Crates}
use tcp_visr.Ingest.Link.{LinkType, ethernet, linux_sll, linux_sll2, raw_ip, null, from_dlt}
use tcp_visr.Ingest.Skips.{SkipCounts, no_skips, record_skip}
use tcp_visr.Ingest.Decode.{DecodeOutcome, decoded, names, skipped, decode_frame}

abbrev pub micro_tick_ns : ℕ
micro_tick_ns = 1000

abbrev pub nano_magic : ℕ
nano_magic = 0xa1b23c4d

-- The text of a container error; the reader's own is left out.
pub data Detail : Type 0 where
  reader_detail no_interface packet_before_interface unreadable_resolution : Detail
  unsupported_resolution : ℕ → Detail

pub data IngestError : Type 0 where
  open_failed mixed_link_types : IngestError
  container : Detail → IngestError
  unknown_link_type : ℕ → IngestError

pub data Result {ℓ} (A : Type ℓ) : Type ℓ where
  ok : A → Result A
  err : IngestError → Result A

-- `PcapBlockOwned`: the blocks with the fields that are read.
pub data Block : Type 0 where
  legacy_header : ℕ → ℤ → Block
  legacy : ℕ → ℕ → ℕ → List ℕ → Block
  interface_description : ℤ → Option ℕ → Block
  enhanced_packet : ℕ → ℕ → ℕ → List ℕ → Block
  other_block : Block

-- What a call of the reader's `next` gives; `incomplete` with whether the refill succeeds. The end
-- of a list of them is `Eof`.
pub data Reading : Type 0 where
  block : Block → Reading
  incomplete : Bool → Reading
  broken : Reading

pub record State : Type 0 where
  pub link_type : Option LinkType
  pub baseline : Option ℕ
  pub nanos_per_tick : ℕ
  pub skips : SkipCounts
  pub items : List Item
  pub name_items : List NameObservation

abbrev pub first_state : State
first_state = record {
  link_type = none;
  baseline = none;
  nanos_per_tick = micro_tick_ns;
  skips = no_skips;
  items = [];
  name_items = [];
}

-- `Option::get_or_insert`, its result.
abbrev pub get_or_insert : ℕ → Option ℕ → ℕ
get_or_insert n none = n
get_or_insert n (some m) = m

unfoldable pub deliver : State → DecodeOutcome → State
deliver st (decoded seg) = record st { items = snoc st.items (segment seg) }
deliver st (names obs) = record st { name_items = st.name_items ++ obs }
deliver st (skipped reason) = record st { skips = record_skip reason st.skips }

unfoldable pub process_on :
    Crates → State → ℕ → ℕ → List ℕ → Option LinkType → Option (Result State)
process_on crates st ts origlen bytes none = some (err (container packet_before_interface))
process_on crates st ts origlen bytes (some link) =
    map_some (λ o. ok (deliver st o)) (decode_frame crates link ts bytes origlen)

unfoldable pub process_packet : Crates → State → ℕ → ℕ → List ℕ → Option (Result State)
process_packet crates st abs_ns origlen bytes =
    let base = get_or_insert abs_ns st.baseline in
    process_on crates (record st { baseline = some base }) (saturating_sub abs_ns base) origlen
      bytes st.link_type

-- Nanoseconds per tick, where the resolution is no finer and divides evenly.
unfoldable pub nanos_per_tick_of : ℕ → Option ℕ
nanos_per_tick_of ticks_per_sec =
    if ticks_per_sec == 0 || not (1000000000 % ticks_per_sec == 0)
    then none
    else some (1000000000 / ticks_per_sec)

-- `LinkType::from_dlt(dlt).ok_or(..)`
abbrev pub link_or : ℕ → Option LinkType → Result LinkType
link_or dlt (some link) = ok link
link_or dlt none = err (unknown_link_type dlt)

-- The `i32` first goes to a `u16`.
unfoldable pub dlt_to_link : ℤ → Result LinkType
dlt_to_link (pos dlt) =
    if ltb 65535 dlt then err (unknown_link_type 65535) else link_or dlt (from_dlt dlt)
dlt_to_link (negsuc n) = err (unknown_link_type 65535)

-- The derived `==` of `LinkType`.
unfoldable pub eq_link : LinkType → LinkType → Bool
eq_link ethernet ethernet = true
eq_link linux_sll linux_sll = true
eq_link linux_sll2 linux_sll2 = true
eq_link raw_ip raw_ip = true
eq_link null null = true
eq_link _ _ = false

-- The header of a legacy file.
abbrev pub on_header : State → ℕ → Result LinkType → Result State
on_header st magic (err e) = err e
on_header st magic (ok link) = ok (record st {
  link_type = some link;
  nanos_per_tick = if magic == nano_magic then 1 else micro_tick_ns;
})

abbrev pub mixes : Option LinkType → LinkType → Bool
mixes none link = false
mixes (some existing) link = not (eq_link existing link)

abbrev pub with_tick : State → ℕ → Option ℕ → Result State
with_tick st ticks_per_sec none = err (container (unsupported_resolution ticks_per_sec))
with_tick st ticks_per_sec (some tick) = ok (record st { nanos_per_tick = tick })

abbrev pub with_resolution : State → Option ℕ → Result State
with_resolution st none = err (container unreadable_resolution)
with_resolution st (some ticks_per_sec) =
    with_tick st ticks_per_sec (nanos_per_tick_of ticks_per_sec)

abbrev pub on_interface : State → Option ℕ → Result LinkType → Result State
on_interface st resolution (err e) = err e
on_interface st resolution (ok link) =
    if mixes st.link_type link
    then err mixed_link_types
    else with_resolution (record st { link_type = some link }) resolution

unfoldable pub handle_block : Crates → State → Block → Option (Result State)
handle_block crates st (legacy_header magic network) =
    some (on_header st magic (dlt_to_link network))
handle_block crates st (legacy ts_sec ts_usec origlen bytes) =
    let seconds = saturate_u64 (ts_sec * 1000000000) in
    process_packet crates st (saturating_add seconds (saturate_u64 (ts_usec * st.nanos_per_tick)))
      origlen bytes
handle_block crates st (interface_description linktype ts_resolution) =
    some (on_interface st ts_resolution (dlt_to_link linktype))
handle_block crates st (enhanced_packet ts_high ts_low origlen bytes) =
    let ticks = bit_or (ts_high * 2 ^ 32) ts_low in
    process_packet crates st (saturate_u64 (ticks * st.nanos_per_tick)) origlen bytes
handle_block crates st other_block = some (ok st)

-- `link_type.ok_or_else(..)`, at the end of the file.
abbrev pub finish_file : State → Option LinkType → Result (LinkType × State)
finish_file st none = err (container no_interface)
finish_file st (some link) = ok (link, st)

-- `?` on a block that was handled: the loop goes on, or returns.
abbrev pub and_then {ℓ κ} :
    {A : Type ℓ} {B : Type κ} → (A → Option (Result B)) → Option (Result A) → Option (Result B)
and_then later none = none
and_then later (some (err e)) = some (err e)
and_then later (some (ok a)) = later a

-- The loop over the reader.
unfoldable pub read_all : Crates → List Reading → State → Option (Result (LinkType × State))
read_all crates [] st = some (finish_file st st.link_type)
read_all crates (block b ∷ rs) st = and_then (read_all crates rs) (handle_block crates st b)
read_all crates (incomplete refilled ∷ rs) st =
    let rest = read_all crates rs st in
    if refilled then rest else some (err (container reader_detail))
read_all crates (broken ∷ rs) st = some (err (container reader_detail))

-- What `File::open` and `create_reader` give: a fault, or what the reader goes on to yield.
pub data Opened : Type 0 where
  not_opened no_reader : Opened
  readings : List Reading → Opened

-- `parse_file_visit_named`; the sinks are the lists of the state.
unfoldable pub parse_file_visit_named : Crates → Opened → Option (Result (LinkType × State))
parse_file_visit_named crates not_opened = some (err open_failed)
parse_file_visit_named crates no_reader = some (err (container reader_detail))
parse_file_visit_named crates (readings rs) = read_all crates rs first_state

pub record ReplayParse : Type 0 where
  pub items_read : List Item
  pub skips_read : SkipCounts
  pub link_read : LinkType
  pub names_read : List NameObservation

abbrev pub replay_parse : Result (LinkType × State) → Result ReplayParse
replay_parse (err e) = err e
replay_parse (ok (link, st)) = ok (record {
  items_read = st.items;
  skips_read = st.skips;
  link_read = link;
  names_read = st.name_items;
})

unfoldable pub parse_file : Crates → Opened → Option (Result ReplayParse)
parse_file crates file = map_some replay_parse (parse_file_visit_named crates file)
