-- ===== src/Engine/Tracker/Conservation.antt =====
-- Every segment of a replay is counted once, on one connection, with its payload.
use tcp_visr.Base.{
  ℕ, suc, ◌+◌, ◌<◌, ◌≡◌, refl, ap, ◌∙◌, false, none, some, List, [], ◌∷◌, max, arith, sum_of,
  u64_mod, is_some,
}
use tcp_visr.Core.Segment.{Segment, Item, segment, tick}
use tcp_visr.Engine.Conn.Order.{pair_eq}
use tcp_visr.Engine.Config.{EngineConfig, window}
use tcp_visr.Engine.Tracker.{
  Tracker, new_tracker, observe_item, observe_items, observe_tick, evict_samples, evict_within,
}
use tcp_visr.Engine.Tracker.Invariant.{Inv, observe_segment-Inv, observe_item-Inv, new_tracker-Inv}
use tcp_visr.Engine.Tracker.Tally.{segments_of, bytes_of, Counts, observe_segment-Counts}

-- The segments among items, and the bytes that they carry.
unfoldable pub segment_count : List Item → ℕ
segment_count [] = 0
segment_count (segment seg ∷ is) = suc (segment_count is)
segment_count (tick at ∷ is) = segment_count is

unfoldable pub payload_bytes : List Item → ℕ
payload_bytes [] = 0
payload_bytes (segment seg ∷ is) = seg.payload_len + payload_bytes is
payload_bytes (tick at ∷ is) = payload_bytes is

evict_samples-none : (t : Tracker) → window t.config.retention ≡ none → evict_samples t ≡ t
unfolding evict_samples evict_within
evict_samples-none t w = rw w

observe_tick-none :
    (t : Tracker) (at : ℕ) → window t.config.retention ≡ none → observe_tick t at ≡ t
unfolding observe_tick
observe_tick-none t at w =
    let replay : is_some (window t.config.retention) ≡ false = ap is_some w in simp replay refl

segment-Counts :
    (t : Tracker) (seg : Segment) (n b : ℕ) (x : Tracker)
    → Inv t
    → window t.config.retention ≡ none
    → Counts t n b
    → n + 1 < u64_mod
    → b + seg.payload_len < u64_mod
    → observe_item t (segment seg) ≡ some x
    → Counts x (n + 1) (b + seg.payload_len)
unfolding observe_item
segment-Counts t seg n b x v w counts room space e =
    let later : Tracker = record t { now = max t.now seg.ts } in
    let v0 : Inv later = record { counted = v.counted; indexed = v.indexed; ceiling = v.ceiling } in
    let (y, seen, inv, c) = observe_segment-Inv later seg v0 in
    let e' = rw seen at e in
    let kept = evict_samples-none y (ap (λ k. window k.retention) c ∙ w) in
    let same : y ≡ x = cc in
    rw (← same) (observe_segment-Counts later seg n b counts room space y seen)

tick-Counts :
    (t : Tracker) (at n b : ℕ) (x : Tracker)
    → window t.config.retention ≡ none
    → Counts t n b
    → observe_item t (tick at) ≡ some x
    → Counts x n b
unfolding observe_item
tick-Counts t at n b x w counts e =
    let still = observe_tick-none t at w in let same : t ≡ x = cc in rw (← same) counts

observe_items-Counts :
    (t : Tracker) (is : List Item) (n b : ℕ) (u : Tracker)
    → Inv t
    → window t.config.retention ≡ none
    → Counts t n b
    → n + segment_count is < u64_mod
    → b + payload_bytes is < u64_mod
    → observe_items t is ≡ some u
    → Counts u (n + segment_count is) (b + payload_bytes is)
unfolding observe_items segment_count payload_bytes
observe_items-Counts t [] n b u v w counts room space e =
    let same : t ≡ u = cc in
    let counted = counts.0 in let carried = counts.1 in rw (← same) (omega arith, omega arith)
observe_items-Counts t (segment seg ∷ is) n b u v w counts room space e =
    let (x, seen, inv, c) = observe_item-Inv t (segment seg) v in
    let step = segment-Counts t seg n b x v w counts (omega arith) (omega arith) seen in
    let rest =
      observe_items-Counts x is (n + 1) (b + seg.payload_len) u inv
        (ap (λ k. window k.retention) c ∙ w) step (omega arith) (omega arith)
        (rw (seen, observe_items) at e) in
    let counted = rest.0 in let carried = rest.1 in (omega arith, omega arith)
observe_items-Counts t (tick at ∷ is) n b u v w counts room space e =
    let (x, seen, inv, c) = observe_item-Inv t (tick at) v in
    observe_items-Counts x is n b u inv (ap (λ k. window k.retention) c ∙ w)
      (tick-Counts t at n b x w counts seen) room space (rw (seen, observe_items) at e)

-- After any items of a replay, fewer than 2^64 segments with fewer than 2^64 bytes of payload in
-- all, the connections together report exactly the segments observed and exactly their payload:
-- each segment is counted once, on one connection, also where it starts a new instance.
pub observe_items-conserves :
    (cfg : EngineConfig) (is : List Item) (t : Tracker)
    → window cfg.retention ≡ none
    → segment_count is < u64_mod
    → payload_bytes is < u64_mod
    → observe_items (new_tracker cfg) is ≡ some t
    → (sum_of segments_of t.conns ≡ segment_count is) × (sum_of bytes_of t.conns ≡ payload_bytes is)
unfolding new_tracker
observe_items-conserves cfg is t w room space e =
    let all =
      observe_items-Counts (new_tracker cfg) is 0 0 t (new_tracker-Inv cfg) w (refl, refl)
        (omega arith) (omega arith) e in
    let counted = all.0 in let carried = all.1 in (omega arith, omega arith)
