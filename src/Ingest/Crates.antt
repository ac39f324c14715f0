-- ===== src/Ingest/Crates.antt =====
-- What the parsing crates hand to crates/tcpvisr-ingest/src/decode.rs and dns.rs: `etherparse`
-- slices an IP packet, `simple_dns` parses a message. Their functions are parameters.
use tcp_visr.Base.{ℕ, Bool, Option, List}
use tcp_visr.Core.Flow.{IpAddr}

-- `LaxHeaderSliceError`: a byte shortage or a fault of content.
pub data HeaderError : Type 0 where
  len_error content_error : HeaderError

-- `LaxNetSlice`: the addresses, whether the payload is a fragment, and the length field.
pub record NetHeader : Type 0 where
  pub source_addr : IpAddr
  pub destination_addr : IpAddr
  pub fragmented : Bool
  pub length_field : ℕ

pub data Net : Type 0 where
  ipv4 ipv6 : NetHeader → Net
  arp : Net

pub data OptionElement : Type 0 where
  maximum_segment_size window_scale_by : ℕ → OptionElement
  selective_ack_permitted noop : OptionElement
  selective_ack : ℕ × ℕ → List (Option (ℕ × ℕ)) → OptionElement
  timestamps : ℕ → ℕ → OptionElement

-- `TcpSlice`; `start` is the address of its first byte, `data_offset` counts words of four bytes.
-- An option that does not parse is `none`.
pub record TcpSlice : Type 0 where
  pub start : ℕ
  pub source_port : ℕ
  pub destination_port : ℕ
  pub sequence_number : ℕ
  pub acknowledgment_number : ℕ
  pub is_fin : Bool
  pub is_syn : Bool
  pub is_rst : Bool
  pub is_psh : Bool
  pub is_ack : Bool
  pub is_urg : Bool
  pub is_ece : Bool
  pub is_cwr : Bool
  pub is_ns : Bool
  pub window_size : ℕ
  pub data_offset : ℕ
  pub options : List (Option OptionElement)
  pub payload : List ℕ

pub data TransportSlice : Type 0 where
  tcp : TcpSlice → TransportSlice
  udp : ℕ → List ℕ → TransportSlice
  other_transport : TransportSlice

pub data Layer : Type 0 where
  ipv6_ext_header ip_header other_layer : Layer

-- `stop_err`: whether the error is a byte shortage, and the layer it was met in.
pub record SlicedPacket : Type 0 where
  pub net : Option Net
  pub transport : Option TransportSlice
  pub stop_err : Option (Bool × Layer)

pub data Sliced : Type 0 where
  sliced : SlicedPacket → Sliced
  unsliced : HeaderError → Sliced

pub data Rdata : Type 0 where
  rdata_a rdata_aaaa : ℕ → Rdata
  rdata_other : Rdata

pub record Answer : Type 0 where
  pub name : List ℕ
  pub rdata : Rdata

-- The functions of the crates. `address` is that of the bytes given to `from_ip`, which the slices
-- borrow.
pub record Crates : Type 0 where
  pub from_ip : List ℕ → Sliced
  pub address : List ℕ → ℕ
  pub parse_dns : List ℕ → Option (List Answer)
