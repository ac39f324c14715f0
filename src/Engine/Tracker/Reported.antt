-- ===== src/Engine/Tracker/Reported.antt =====
-- Of `into_connections` and `into_metrics` in crates/tcpvisr-engine/src/tracker.rs: what is reported,
-- and in which order.
use tcp_visr.Base.{
  ◌≤◌, ◌<◌, ◌≡◌, refl, ap, ◌∙◌, ◌⊎◌, inl, inr, true, false, List, [], ◌∷◌, map, Perm, arith, All,
  All-map, IsSorted, sort_by, insert_sorted, sort_by-IsSorted, sort_by-perm, Bool-cases,
}
use tcp_visr.Core.Flow.{leq_endpoint}
use tcp_visr.Core.Flow.Order.{
  EndpointLt, leq_endpoint-EndpointLt, leq_endpoint_antisymm, eq_endpoint_iff,
}
use tcp_visr.Engine.Conn.{EndpointPair, Connection, leq_pair}
use tcp_visr.Engine.Conn.Order.{eq_pair_iff, leq_pair_total, leq_pair_trans, leq_pair_antisymm}
use tcp_visr.Engine.Track.{ConnTrack, view}
use tcp_visr.Engine.Tracker.{
  Tracker, ConnectionMetrics, ok, leq_conn, into_connections, into_metrics,
}

leq_conn_total : (a b : Connection) → leq_conn a b ≡ false → leq_conn b a ≡ true
unfolding leq_conn
leq_conn_total a b h = ground (
  arith,
  leq_pair_total a.id.pair b.id.pair,
  leq_pair_antisymm a.id.pair b.id.pair,
  eq_pair_iff a.id.pair b.id.pair,
  eq_pair_iff b.id.pair a.id.pair,
)

leq_conn_trans :
    (a b c : Connection) → leq_conn a b ≡ true → leq_conn b c ≡ true → leq_conn a c ≡ true
unfolding leq_conn
leq_conn_trans a b c h k = ground (
  arith,
  leq_pair_total a.id.pair b.id.pair,
  leq_pair_total b.id.pair c.id.pair,
  leq_pair_trans c.id.pair a.id.pair b.id.pair,
  leq_pair_trans b.id.pair c.id.pair a.id.pair,
  leq_pair_antisymm a.id.pair b.id.pair,
  leq_pair_antisymm b.id.pair c.id.pair,
  eq_pair_iff a.id.pair b.id.pair,
  eq_pair_iff b.id.pair c.id.pair,
  eq_pair_iff a.id.pair c.id.pair,
)

-- The order of pairs in plain terms: by the low end, then by the high end.
abbrev pub PairLt : EndpointPair → EndpointPair → Type 0
PairLt p q = EndpointLt p.low q.low ⊎ ((p.low ≡ q.low) × EndpointLt p.high q.high)

-- Opened earlier; or at the same time, with a lesser pair; or the same pair, with an instance no
-- later.
abbrev pub ReportedBefore : Connection → Connection → Type 0
ReportedBefore a b =
    (a.opened_at < b.opened_at)
    ⊎ ((a.opened_at ≡ b.opened_at)
        × (PairLt a.id.pair b.id.pair
            ⊎ ((a.id.pair ≡ b.id.pair) × (a.id.instance_no ≤ b.id.instance_no))))

-- Each connection stands before all that follow it.
abbrev pub IsOrdered : List Connection → Type 0
IsOrdered [] = Unit
IsOrdered (c ∷ cs) = All (ReportedBefore c) cs × IsOrdered cs

leq_pair-PairLt : (p q : EndpointPair) → leq_pair q p ≡ false → PairLt p q
unfolding leq_pair
leq_pair-PairLt p q h = elim (Bool-cases (leq_endpoint q.low p.low)) [
  | inr lt ↦ inl (leq_endpoint-EndpointLt p.low q.low lt)
  | inl le ↦
      let ge : leq_endpoint p.low q.low ≡ true = ground arith in
      let same = leq_endpoint_antisymm p.low q.low ge le in
      let high : leq_endpoint q.high p.high ≡ false = ground (arith, eq_endpoint_iff q.low p.low) in
      inr (same, leq_endpoint-EndpointLt p.high q.high high)
]

leq_conn-ReportedBefore : (a b : Connection) → leq_conn a b ≡ true → ReportedBefore a b
unfolding leq_conn
leq_conn-ReportedBefore a b h = elim (Bool-cases (leq_pair b.id.pair a.id.pair)) [
  | inr lt ↦ let less = leq_pair-PairLt a.id.pair b.id.pair lt in ground arith
  | inl le ↦ ground (arith, eq_pair_iff a.id.pair b.id.pair)
]

IsSorted-IsOrdered : (cs : List Connection) → IsSorted leq_conn cs → IsOrdered cs
IsSorted-IsOrdered [] s = tt
IsSorted-IsOrdered (c ∷ cs) s = (
  All-map (λ d. leq_conn c d ≡ true) (ReportedBefore c) cs (leq_conn-ReportedBefore c) s.0,
  IsSorted-IsOrdered cs s.1,
)

abbrev conn_of : ConnectionMetrics → Connection
conn_of m = m.conn

insert_sorted-conn :
    (m : ConnectionMetrics) (ms : List ConnectionMetrics)
    → map conn_of (insert_sorted (λ a b. leq_conn a.conn b.conn) m ms)
      ≡ insert_sorted leq_conn m.conn (map conn_of ms)
unfolding insert_sorted
insert_sorted-conn m [] = refl
insert_sorted-conn m (n ∷ ms) = elim (Bool-cases (leq_conn m.conn n.conn)) [
  | inl le ↦ rw le refl
  | inr gt ↦ rw gt (ap (◌∷◌ n.conn) (insert_sorted-conn m ms))
]

-- Sorting by the connection sorts the connections.
sort_by-conn :
    (ms : List ConnectionMetrics)
    → map conn_of (sort_by (λ a b. leq_conn a.conn b.conn) ms) ≡ sort_by leq_conn (map conn_of ms)
unfolding sort_by
sort_by-conn [] = refl
sort_by-conn (m ∷ ms) =
    insert_sorted-conn m (sort_by (λ a b. leq_conn a.conn b.conn) ms)
    ∙ ap (insert_sorted leq_conn m.conn) (sort_by-conn ms)

conn_of-view :
    (cs : List ConnTrack)
    → map conn_of (map (λ c. record { conn = view c; series = c.series }) cs) ≡ map view cs
conn_of-view [] = refl
conn_of-view (c ∷ cs) = ap (◌∷◌ (view c)) (conn_of-view cs)

-- The reported connections are the views of the tracked ones, each once, by opening time; those
-- opened at the same time by their pair, low end first, where an endpoint goes by address, V4 before
-- V6, and then by port; and those of one pair by instance. Unless the samples overflowed, the
-- metrics list the same connections in the same order.
pub into_connections-IsOrdered :
    (t : Tracker)
    → IsOrdered (into_connections t)
      × Perm (into_connections t) (map view t.conns)
      × ((t.overflowed ≡ true)
          ⊎ ((ms : List ConnectionMetrics) × (into_metrics t ≡ ok ms)
              × (map (λ m. m.conn) ms ≡ into_connections t)))
unfolding into_connections into_metrics
into_connections-IsOrdered t = (
  IsSorted-IsOrdered (into_connections t)
      (sort_by-IsSorted leq_conn leq_conn_total leq_conn_trans (map view t.conns)),
  sort_by-perm leq_conn (map view t.conns),
  elim (Bool-cases t.overflowed) [
    | inl over ↦ inl over
    | inr fits ↦ inr (
      _,
      rw fits refl,
      sort_by-conn (map (λ c. record { conn = view c; series = c.series }) t.conns)
          ∙ ap (sort_by leq_conn) (conn_of-view t.conns),
    )
  ],
)
