-- ===== src/Engine/Conn/Order.antt =====
-- Identities are compared as they are spelled, and a pair does not depend on the orientation.
use tcp_visr.Base.{◌≡◌, ◌↔◌, ◌⊎◌, true, false, arith, Eq}
use tcp_visr.Core.Flow.{Endpoint, leq_endpoint}
use tcp_visr.Core.Flow.Order.{
  eq_endpoint_iff, leq_endpoint_total, leq_endpoint_antisymm, leq_endpoint_trans,
}
use tcp_visr.Engine.Conn.{EndpointPair, ConnId, endpoint_pair, eq_pair, leq_pair, eq_id}

pub eq_pair_iff : (p q : EndpointPair) → (eq_pair p q ≡ true) ↔ (p ≡ q)
unfolding eq_pair
eq_pair_iff p q = ground (arith, eq_endpoint_iff p.low q.low, eq_endpoint_iff p.high q.high)

instance abbrev pub pair_eq : Eq EndpointPair
pair_eq = record { beq = eq_pair; beq_iff = eq_pair_iff }

pub eq_id_iff : (a b : ConnId) → (eq_id a b ≡ true) ↔ (a ≡ b)
unfolding eq_id
eq_id_iff a b = ground (arith, eq_pair_iff a.pair b.pair)

instance abbrev pub id_eq : Eq ConnId
id_eq = record { beq = eq_id; beq_iff = eq_id_iff }

-- Both wire directions of a flow give the same pair, whose ends are the two endpoints in order.
pub endpoint_pair_canonical :
    (a b : Endpoint)
    → (endpoint_pair a b ≡ endpoint_pair b a)
      × (leq_endpoint (endpoint_pair a b).low (endpoint_pair a b).high ≡ true)
      × (((endpoint_pair a b).low ≡ a) × ((endpoint_pair a b).high ≡ b)
          ⊎ ((endpoint_pair a b).low ≡ b) × ((endpoint_pair a b).high ≡ a))
unfolding endpoint_pair
endpoint_pair_canonical a b = ground (arith, leq_endpoint_total a b, leq_endpoint_antisymm a b)

-- Two flows are grouped together only if they join the same two endpoints.
pub endpoint_pair_injective :
    (a b c d : Endpoint)
    → endpoint_pair a b ≡ endpoint_pair c d
    → ((a ≡ c) × (b ≡ d)) ⊎ ((a ≡ d) × (b ≡ c))
unfolding endpoint_pair
endpoint_pair_injective a b c d h = ground arith

pub leq_pair_total : (p q : EndpointPair) → leq_pair p q ≡ false → leq_pair q p ≡ true
unfolding leq_pair
leq_pair_total p q h = ground (
  arith,
  leq_endpoint_total p.low q.low,
  leq_endpoint_antisymm p.low q.low,
  leq_endpoint_total p.high q.high,
  eq_endpoint_iff p.low q.low,
  eq_endpoint_iff q.low p.low,
)

pub leq_pair_trans :
    (p q r : EndpointPair) → leq_pair p q ≡ true → leq_pair q r ≡ true → leq_pair p r ≡ true
unfolding leq_pair
leq_pair_trans p q r h k = ground (
  arith,
  leq_endpoint_total p.low q.low,
  leq_endpoint_total q.low r.low,
  leq_endpoint_antisymm p.low q.low,
  leq_endpoint_antisymm q.low r.low,
  leq_endpoint_trans r.low p.low q.low,
  leq_endpoint_trans q.low r.low p.low,
  leq_endpoint_trans p.high q.high r.high,
  eq_endpoint_iff p.low q.low,
  eq_endpoint_iff q.low r.low,
  eq_endpoint_iff p.low r.low,
)

pub leq_pair_antisymm : (p q : EndpointPair) → leq_pair p q ≡ true → leq_pair q p ≡ true → p ≡ q
unfolding leq_pair
leq_pair_antisymm p q h k = ground (
  arith,
  leq_endpoint_total p.low q.low,
  leq_endpoint_total q.low p.low,
  leq_endpoint_antisymm p.low q.low,
  leq_endpoint_antisymm p.high q.high,
  eq_endpoint_iff p.low q.low,
  eq_endpoint_iff q.low p.low,
)
