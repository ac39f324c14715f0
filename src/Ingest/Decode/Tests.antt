-- ===== src/Ingest/Decode/Tests.antt =====
-- Runs of the decoder, with parsing crates for a toy format of packets: the first byte is the
-- protocol, 6 for TCP and 17 for UDP, and the rest is the payload.
use tcp_visr.Base.{
  ◌≡◌, ◌≤◌, ◌<◌, ◌⊎◌, refl, arith, ℕ, zero, suc, true, false, Option, none, some, List, [], ◌∷◌,
  ◌++◌, length, take, if◌then◌else◌, ◌==◌,
}
use tcp_visr.Core.Flow.{v4}
use tcp_visr.Core.Segment.{fin, syn, rst, psh, ack_flag, urg, ece, cwr, ns}
use tcp_visr.Core.Name.{host_name, strip_dot, printable, nonempty}
use tcp_visr.Ingest.Crates.{
  Crates, ipv4, ipv6, NetHeader, TcpSlice, TransportSlice, tcp, udp, ip_header, Sliced, sliced,
  unsliced, len_error, maximum_segment_size, timestamps, noop, rdata_a, rdata_other, Answer,
  SlicedPacket,
}
use tcp_visr.Ingest.Link.{raw_ip, non_tcp, truncated, unsupported_ext_chain, malformed, strip_link}
use tcp_visr.Ingest.Dns.{observation, answers_of, observations, parse_dns_answers}
use tcp_visr.Ingest.Decode.{
  DecodeOutcome, decoded, names, skipped, build_flags, derive_payload_len, parse_options,
  decode_frame, decode_stripped, decode_sliced, decode_net, decode_header, decode_transport, named,
  segment_of, classify_no_tcp, options_from, add_option,
}
use tcp_visr.Ingest.Decode.Flags.{build_flags-read}
use tcp_visr.Ingest.Decode.Payload.{derive_payload_len-onwire}

abbrev pub toy_header : NetHeader
toy_header = record {
  source_addr = v4 1;
  destination_addr = v4 2;
  fragmented = false;
  length_field = 140;
}

-- A SYN-ACK that starts 20 bytes into a packet at address 1000.
abbrev pub toy_tcp : List ℕ → TcpSlice
toy_tcp payload = record {
  start = 1020;
  source_port = 443;
  destination_port = 5000;
  sequence_number = 7;
  acknowledgment_number = 9;
  is_fin = false;
  is_syn = true;
  is_rst = false;
  is_psh = false;
  is_ack = true;
  is_urg = false;
  is_ece = false;
  is_cwr = false;
  is_ns = false;
  window_size = 512;
  data_offset = 5;
  options = some (maximum_segment_size 1460) ∷ some noop ∷ none ∷ some (timestamps 1 2) ∷ [];
  payload = payload;
}

abbrev toy_transport : ℕ → List ℕ → Option TransportSlice
toy_transport protocol rest =
    if protocol == 6
    then some (tcp (toy_tcp rest))
    else if protocol == 17
    then some (udp 53 rest)
    else none

abbrev toy_sliced : ℕ → List ℕ → SlicedPacket
toy_sliced protocol rest = record {
  net = some (ipv4 toy_header);
  transport = toy_transport protocol rest;
  stop_err = some (true, ip_header);
}

abbrev toy_from_ip : List ℕ → Sliced
toy_from_ip [] = unsliced len_error
toy_from_ip (p ∷ rest) = sliced (toy_sliced p rest)

abbrev toy_dns : List ℕ → Option (List Answer)
toy_dns [] = none
toy_dns bs = some (
    record { name = 97 ∷ 46 ∷ []; rdata = rdata_a 9 }
    ∷ record { name = bs; rdata = rdata_other }
    ∷ [])

abbrev pub toy : Crates
toy = record { from_ip = toy_from_ip; address = λ _. 1000; parse_dns = toy_dns }

abbrev short_packet : List ℕ
short_packet = 6 ∷ 0 ∷ 0 ∷ 0 ∷ []

unfoldable outcome : ℕ → List ℕ → Option DecodeOutcome
outcome wire_len frame = decode_frame toy raw_ip 5 frame wire_len

build_flags-read_example :
    (fin (build_flags (toy_tcp [])) ≡ false)
    × (syn (build_flags (toy_tcp [])) ≡ true)
    × (rst (build_flags (toy_tcp [])) ≡ false)
    × (psh (build_flags (toy_tcp [])) ≡ false)
    × (ack_flag (build_flags (toy_tcp [])) ≡ true)
    × (urg (build_flags (toy_tcp [])) ≡ false)
    × (ece (build_flags (toy_tcp [])) ≡ false)
    × (cwr (build_flags (toy_tcp [])) ≡ false)
    × (ns (build_flags (toy_tcp [])) ≡ false)
build_flags-read_example = build_flags-read (toy_tcp [])

-- Of an IPv6 packet with a payload of 4 bytes, the capture has the headers and 2 bytes more.
abbrev v6_header : NetHeader
v6_header = record toy_header { length_field = 24 }

abbrev v6_tcp : TcpSlice
v6_tcp = record (toy_tcp (0 ∷ 0 ∷ [])) { start = 1040 }

abbrev zeros : ℕ → List ℕ
zeros zero = []
zeros (suc n) = 0 ∷ zeros n

derive_payload_len-onwire_example :
    let ip = take 62 ((zeros 60 ++ zeros 4) ++ zeros 2) in
    ((length (zeros 60) ≤ 62)
      × (derive_payload_len 1000 ip (ipv6 v6_header) v6_tcp ≡ length (zeros 4)))
    ⊎ ((62 < length (zeros 60))
        × (derive_payload_len 1000 ip (ipv6 v6_header) v6_tcp ≡ length v6_tcp.payload))
derive_payload_len-onwire_example =
    derive_payload_len-onwire 1000 40 62 (zeros 60) (zeros 4) (zeros 2) (ipv6 v6_header) v6_tcp refl
      refl refl (omega arith) (omega arith)

-- A segment, a name, a frame cut within its headers, and a message with no answer.
runs :
    (outcome 4 short_packet
      ≡ some (
          decoded (
            segment_of 5 1000 short_packet
              (ipv4 toy_header)
              toy_header
              (toy_tcp (0 ∷ 0 ∷ 0 ∷ [])))))
    × (outcome 2 (17 ∷ 1 ∷ []) ≡ some (names (record { ts = 5; ip = v4 9; name = 97 ∷ [] } ∷ [])))
    × (outcome 2 (1 ∷ []) ≡ some (skipped truncated))
    × (outcome 1 (1 ∷ []) ≡ some (skipped unsupported_ext_chain))
    × (outcome 1 (17 ∷ []) ≡ some (skipped non_tcp))
    × (outcome 0 [] ≡ some (skipped malformed))
unfolding outcome decode_frame decode_stripped decode_sliced decode_net decode_header
    decode_transport named classify_no_tcp strip_link observation observations answers_of
    parse_dns_answers host_name strip_dot printable nonempty
runs = (refl, refl, refl, refl, refl, refl)

-- The options stop at one that does not parse.
stopped :
    ((parse_options (toy_tcp [])).mss ≡ some 1460) × ((parse_options (toy_tcp [])).timestamp ≡ none)
unfolding parse_options options_from add_option
stopped = (refl, refl)
