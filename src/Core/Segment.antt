-- ===== src/Core/Segment.antt =====
-- crates/tcpvisr-core/src/segment.rs: the decoded TCP segment and the items that the engine reads.
use tcp_visr.Base.{ℕ, Bool, not, ◌==◌, bit_and, Option, List}
use tcp_visr.Core.Time.{Nanos}
use tcp_visr.Core.Seq.{TcpSeq}
use tcp_visr.Core.Flow.{FlowKey}

-- A u16 with the control bits of the wire.
abbrev pub TcpFlags : Type 0
TcpFlags = ℕ

unfoldable pub fin : TcpFlags → Bool
fin f = not (bit_and f 0x01 == 0)

unfoldable pub syn : TcpFlags → Bool
syn f = not (bit_and f 0x02 == 0)

unfoldable pub rst : TcpFlags → Bool
rst f = not (bit_and f 0x04 == 0)

unfoldable pub psh : TcpFlags → Bool
psh f = not (bit_and f 0x08 == 0)

unfoldable pub ack_flag : TcpFlags → Bool
ack_flag f = not (bit_and f 0x10 == 0)

unfoldable pub urg : TcpFlags → Bool
urg f = not (bit_and f 0x20 == 0)

unfoldable pub ece : TcpFlags → Bool
ece f = not (bit_and f 0x40 == 0)

unfoldable pub cwr : TcpFlags → Bool
cwr f = not (bit_and f 0x80 == 0)

unfoldable pub ns : TcpFlags → Bool
ns f = not (bit_and f 0x100 == 0)

pub record TcpOptions : Type 0 where
  pub mss : Option ℕ
  pub window_scale : Option ℕ
  pub sack_permitted : Bool
  pub timestamp : Option (ℕ × ℕ)
  pub sack_blocks : List (TcpSeq × TcpSeq)

pub record Segment : Type 0 where
  pub ts : Nanos
  pub flow : FlowKey
  pub seq : TcpSeq
  pub ack : TcpSeq
  pub flags : TcpFlags
  pub window : ℕ
  pub options : TcpOptions
  pub payload_len : ℕ

-- `Tick` comes in live capture only.
pub data Item : Type 0 where
  segment : Segment → Item
  tick : Nanos → Item
