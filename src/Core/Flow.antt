-- ===== src/Core/Flow.antt =====
-- crates/tcpvisr-core/src/flow.rs and endpoint.rs: addresses, endpoints with their derived order,
-- and the 4-tuple as seen on the wire. An address is the number that its octets spell.
pub mod Order
use tcp_visr.Base.{ℕ, Bool, true, false, ◌&&◌, ◌||◌, ltb, leb, ◌==◌}

-- `core::net::IpAddr`, whose derived order puts every V4 before every V6.
pub data IpAddr : Type 0 where
  v4 v6 : ℕ → IpAddr

unfoldable pub eq_ip : IpAddr → IpAddr → Bool
eq_ip (v4 a) (v4 b) = a == b
eq_ip (v6 a) (v6 b) = a == b
eq_ip (v4 a) (v6 b) = false
eq_ip (v6 a) (v4 b) = false

lt_ip : IpAddr → IpAddr → Bool
lt_ip (v4 a) (v4 b) = ltb a b
lt_ip (v6 a) (v6 b) = ltb a b
lt_ip (v4 a) (v6 b) = true
lt_ip (v6 a) (v4 b) = false

pub record Endpoint : Type 0 where
  pub ip : IpAddr
  pub port : ℕ

-- The derived `Eq` and `Ord` of `Endpoint`: by address, then by port.
unfoldable pub eq_endpoint : Endpoint → Endpoint → Bool
unfolding eq_ip
eq_endpoint a b = eq_ip a.ip b.ip && a.port == b.port

unfoldable pub leq_endpoint : Endpoint → Endpoint → Bool
unfolding eq_ip lt_ip
leq_endpoint a b = lt_ip a.ip b.ip || (eq_ip a.ip b.ip && leb a.port b.port)

pub record FlowKey : Type 0 where
  pub src_ip : IpAddr
  pub src_port : ℕ
  pub dst_ip : IpAddr
  pub dst_port : ℕ

unfoldable pub source : FlowKey → Endpoint
source f = record { ip = f.src_ip; port = f.src_port }

unfoldable pub destination : FlowKey → Endpoint
destination f = record { ip = f.dst_ip; port = f.dst_port }
