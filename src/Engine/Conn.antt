-- ===== src/Engine/Conn.antt =====
-- crates/tcpvisr-engine/src/conn.rs: connection identity and the reported view.
pub mod Order
mod Tests
use tcp_visr.Base.{
  ℕ, Bool, true, false, ◌&&◌, ◌||◌, not, ltb, leb, ◌==◌, if◌then◌else◌, saturating_sub,
}
use tcp_visr.Core.Time.{Nanos}
use tcp_visr.Core.Flow.{Endpoint, eq_endpoint, leq_endpoint}
use tcp_visr.Engine.State.{ConnState}

pub record EndpointPair : Type 0 where
  pub low : Endpoint
  pub high : Endpoint

-- `EndpointPair::new`
unfoldable pub endpoint_pair : Endpoint → Endpoint → EndpointPair
endpoint_pair a b =
    if leq_endpoint a b then record { low = a; high = b } else record { low = b; high = a }

-- The derived `Eq` and `Ord`.
unfoldable pub eq_pair : EndpointPair → EndpointPair → Bool
eq_pair p q = eq_endpoint p.low q.low && eq_endpoint p.high q.high

unfoldable pub leq_pair : EndpointPair → EndpointPair → Bool
leq_pair p q =
    not (leq_endpoint q.low p.low) || (eq_endpoint p.low q.low && leq_endpoint p.high q.high)

pub record ConnId : Type 0 where
  pub pair : EndpointPair
  pub instance_no : ℕ

unfoldable pub eq_id : ConnId → ConnId → Bool
eq_id a b = eq_pair a.pair b.pair && a.instance_no == b.instance_no

pub data Direction : Type 0 where
  o2r r2o : Direction

pub record Connection : Type 0 where
  pub id : ConnId
  pub state : ConnState
  pub origin : Endpoint
  pub responder : Endpoint
  pub origin_inferred : Bool
  pub opened_at : Nanos
  pub last_at : Nanos
  pub bytes_o2r : ℕ
  pub bytes_r2o : ℕ
  pub segments : ℕ

unfoldable duration : Connection → Nanos
duration c = saturating_sub c.last_at c.opened_at
