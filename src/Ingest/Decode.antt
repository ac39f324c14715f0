-- ===== src/Ingest/Decode.antt =====
-- crates/tcpvisr-ingest/src/decode.rs: one frame to a segment, to names, or to a reason to skip it.
pub mod Payload
pub mod Flags
pub mod Tests
use tcp_visr.Base.{
  ℕ, zero, suc, ◌+◌, ◌-◌, ◌*◌, min, Bool, true, false, not, ◌&&◌, ◌||◌, ltb, leb, ◌==◌,
  if◌then◌else◌, Option, none, some, List, [], ◌∷◌, ◌++◌, length, snoc, map_some,
}
use Prim.Native.Nat.{bit_or}
use tcp_visr.Core.Time.{Nanos}
use tcp_visr.Core.Seq.{TcpSeq}
use tcp_visr.Core.Flow.{IpAddr, FlowKey}
use tcp_visr.Core.Segment.{TcpFlags, TcpOptions, Segment}
use tcp_visr.Core.Name.{NameObservation}
use tcp_visr.Ingest.Crates.{
  HeaderError, len_error, content_error, NetHeader, Net, ipv4, ipv6, arp, OptionElement,
  maximum_segment_size, window_scale_by, selective_ack_permitted, noop, selective_ack, timestamps,
  TcpSlice, TransportSlice, tcp, udp, other_transport, Layer, ipv6_ext_header, ip_header,
  other_layer, SlicedPacket, Sliced, sliced, unsliced, Crates,
}
use tcp_visr.Ingest.Dns.{parse_dns_answers}
use tcp_visr.Ingest.Link.{
  LinkType, Stripped, ip_bytes, skip, SkipReason, non_tcp, malformed, ipv6_fragment,
  unsupported_ext_chain, truncated, strip_link,
}

pub data DecodeOutcome : Type 0 where
  decoded : Segment → DecodeOutcome
  names : List NameObservation → DecodeOutcome
  skipped : SkipReason → DecodeOutcome

abbrev pub ipv6_header_len : ℕ
ipv6_header_len = 40

abbrev pub layer_reason : Layer → SkipReason
layer_reason ipv6_ext_header = unsupported_ext_chain
layer_reason ip_header = unsupported_ext_chain
layer_reason other_layer = non_tcp

abbrev pub stop_reason : Bool → Option (Bool × Layer) → SkipReason
stop_reason cut none = non_tcp
stop_reason cut (some (is_len, layer)) = if is_len && cut then truncated else layer_reason layer

unfoldable pub classify_no_tcp : SlicedPacket → Bool → SkipReason
classify_no_tcp s cut = stop_reason cut s.stop_err

-- `None` where the inner slice does not start within the outer one.
unfoldable pub subslice_offset : ℕ → ℕ → ℕ → Option ℕ
subslice_offset outer_start outer_len inner_start =
    if leb outer_start inner_start
    then (if leb (inner_start - outer_start) outer_len
        then some (inner_start - outer_start)
        else none)
    else none

-- `u32::try_from(_).unwrap_or(u32::MAX)`
abbrev pub saturate_u32 : ℕ → ℕ
saturate_u32 n = min n 4294967295

-- The length that the IP header declares; ARP does not get here, and counts as no length.
unfoldable pub onwire_ip_len : Net → Option ℕ
onwire_ip_len (ipv4 h) = some h.length_field
onwire_ip_len (ipv6 h) = some (ipv6_header_len + h.length_field)
onwire_ip_len arp = none

unfoldable pub payload_from : ℕ → ℕ → ℕ → Option ℕ → Option ℕ → ℕ
payload_from captured header_len ip_len (some onwire) (some offset) =
    let need = offset + header_len in
    if leb need ip_len && leb need onwire then saturate_u32 (onwire - need) else captured
payload_from captured header_len ip_len (some onwire) none = captured
payload_from captured header_len ip_len none _ = captured

unfoldable pub derive_payload_len : ℕ → List ℕ → Net → TcpSlice → ℕ
derive_payload_len address ip net t =
    payload_from (saturate_u32 (length t.payload)) (t.data_offset * 4) (length ip)
      (onwire_ip_len net) (subslice_offset address (length ip) t.start)

abbrev pub set_bit : Bool → ℕ → ℕ → ℕ
set_bit true bit bits = bit_or bits bit
set_bit false bit bits = bits

unfoldable pub build_flags : TcpSlice → TcpFlags
build_flags t = set_bit t.is_ns 0x100 (
    set_bit t.is_cwr 0x80 (
      set_bit t.is_ece 0x40 (
        set_bit t.is_urg 0x20 (
          set_bit t.is_ack 0x10 (
            set_bit t.is_psh 0x08
              (set_bit t.is_rst 0x04 (set_bit t.is_syn 0x02 (set_bit t.is_fin 0x01 0))))))))

abbrev pub default_options : TcpOptions
default_options = record {
  mss = none;
  window_scale = none;
  sack_permitted = false;
  timestamp = none;
  sack_blocks = [];
}

unfoldable pub flatten : List (Option (ℕ × ℕ)) → List (TcpSeq × TcpSeq)
flatten [] = []
flatten (none ∷ bs) = flatten bs
flatten (some b ∷ bs) = b ∷ flatten bs

unfoldable pub add_option : OptionElement → TcpOptions → TcpOptions
add_option (maximum_segment_size v) o = record o { mss = some v }
add_option (window_scale_by v) o = record o { window_scale = some v }
add_option selective_ack_permitted o = record o { sack_permitted = true }
add_option (selective_ack first rest) o = record o {
  sack_blocks = o.sack_blocks ++ first ∷ flatten rest;
}
add_option (timestamps a b) o = record o { timestamp = some (a, b) }
add_option noop o = o

-- The first option that does not parse ends the loop.
unfoldable pub options_from : List (Option OptionElement) → TcpOptions → TcpOptions
options_from [] o = o
options_from (none ∷ es) o = o
options_from (some e ∷ es) o = options_from es (add_option e o)

unfoldable pub parse_options : TcpSlice → TcpOptions
parse_options t = options_from t.options default_options

unfoldable pub segment_of : Nanos → ℕ → List ℕ → Net → NetHeader → TcpSlice → Segment
segment_of ts address ip net h t = record {
  ts = ts;
  flow = record {
    src_ip = h.source_addr;
    src_port = t.source_port;
    dst_ip = h.destination_addr;
    dst_port = t.destination_port;
  };
  seq = t.sequence_number;
  ack = t.acknowledgment_number;
  flags = build_flags t;
  window = t.window_size;
  options = parse_options t;
  payload_len = derive_payload_len address ip net t;
}

unfoldable pub named : List NameObservation → DecodeOutcome
named [] = skipped non_tcp
named (o ∷ os) = names (o ∷ os)

unfoldable pub decode_transport :
    Crates
    → Nanos
    → Bool
    → List ℕ
    → Net
    → NetHeader
    → SlicedPacket
    → Option TransportSlice
    → DecodeOutcome
decode_transport crates ts cut ip net h s (some (tcp t)) =
    decoded (segment_of ts (crates.address ip) ip net h t)
decode_transport crates ts cut ip net h s (some (udp source_port payload)) =
    if source_port == 53
    then named (parse_dns_answers crates ts payload)
    else skipped (classify_no_tcp s cut)
decode_transport crates ts cut ip net h s (some other_transport) = skipped (classify_no_tcp s cut)
decode_transport crates ts cut ip net h s none = skipped (classify_no_tcp s cut)

unfoldable pub decode_header :
    Crates → Nanos → Bool → List ℕ → Net → NetHeader → SlicedPacket → DecodeOutcome
decode_header crates ts cut ip net h s =
    if h.fragmented
    then skipped ipv6_fragment
    else decode_transport crates ts cut ip net h s s.transport

unfoldable pub decode_net :
    Crates → Nanos → Bool → List ℕ → SlicedPacket → Option Net → DecodeOutcome
decode_net crates ts cut ip s (some (ipv4 h)) = decode_header crates ts cut ip (ipv4 h) h s
decode_net crates ts cut ip s (some (ipv6 h)) = decode_header crates ts cut ip (ipv6 h) h s
decode_net crates ts cut ip s (some arp) = skipped non_tcp
decode_net crates ts cut ip s none = skipped malformed

unfoldable pub decode_sliced : Crates → Nanos → Bool → List ℕ → Sliced → DecodeOutcome
decode_sliced crates ts cut ip (sliced s) = decode_net crates ts cut ip s s.net
decode_sliced crates ts cut ip (unsliced len_error) = skipped (if cut then truncated else malformed)
decode_sliced crates ts cut ip (unsliced content_error) = skipped malformed

unfoldable pub decode_stripped : Crates → Nanos → Bool → Stripped → DecodeOutcome
decode_stripped crates ts cut (skip reason) = skipped reason
decode_stripped crates ts cut (ip_bytes ip) = decode_sliced crates ts cut ip (crates.from_ip ip)

-- `none` only where the stripping runs out of fuel, which it does not.
unfoldable pub decode_frame : Crates → LinkType → Nanos → List ℕ → ℕ → Option DecodeOutcome
decode_frame crates link ts frame wire_len =
    map_some (decode_stripped crates ts (ltb (length frame) wire_len)) (strip_link link frame)
