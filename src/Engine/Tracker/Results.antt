-- ===== src/Engine/Tracker/Results.antt =====
-- What the finished tracker reports of its samples: the error of a fail-fast run, and where the
-- backstop of a live run does not hold.
use tcp_visr.Base.{
  suc, ◌+◌, ◌-◌, ◌≤◌, ◌≡◌, refl, sym, ap, ◌∙◌, true, false, leb, none, some, List, [], length,
  arith, sum_of, is_some,
}
use tcp_visr.Core.Time.{Nanos}
use tcp_visr.Core.Segment.{Item}
use tcp_visr.Engine.Config.{EngineConfig, max_samples, window}
use tcp_visr.Engine.Track.{ConnTrack, held, pop_longest_front, max_index_from, evictable}
use tcp_visr.Engine.Track.Held.{pop_longest_front-held}
use tcp_visr.Engine.Record.{Focus, store, store_admitted, admit, evict_oldest_global}
use tcp_visr.Engine.Record.Stored.{Ceiling}
use tcp_visr.Engine.Tracker.{
  Tracker, new_tracker, observe_items, into_metrics, into_timeline, sample_ceiling,
}
use tcp_visr.Engine.Tracker.Invariant.{Inv, observe_items_total}

observed-Inv :
    (cfg : EngineConfig) (is : List Item) (t : Tracker)
    → observe_items (new_tracker cfg) is ≡ some t
    → Inv t × (t.config ≡ cfg)
observed-Inv cfg is t e =
    let (u, e', v, c) = observe_items_total cfg is in
    let same : u ≡ t = let back = sym e' ∙ e in cc in rw (← same) (v, c)

observed-Ceiling :
    (cfg : EngineConfig) (is : List Item) (t : Tracker)
    → window cfg.retention ≡ none
    → observe_items (new_tracker cfg) is ≡ some t
    → Inv t
      × Ceiling t.config t.collected_samples t.overflowed
      × (max_samples t.config.retention ≡ max_samples cfg.retention)
observed-Ceiling cfg is t w e =
    let (v, c) = observed-Inv cfg is t e in
    (v, v.ceiling (ap (λ k. window k.retention) c ∙ w), ap (λ k. max_samples k.retention) c)

-- After any items under a fail-fast policy, overflowed or not, the connections hold at most the
-- limit of samples together.
pub fail_fast_within :
    (cfg : EngineConfig) (is : List Item) (t : Tracker)
    → window cfg.retention ≡ none
    → observe_items (new_tracker cfg) is ≡ some t
    → sum_of held t.conns ≤ max_samples cfg.retention
fail_fast_within cfg is t w e =
    let (v, ceiling, limit) = observed-Ceiling cfg is t w e in
    let below = ceiling.below in let counted = v.counted in omega arith

-- After any items under a fail-fast policy that overflowed, both results are the error, which names
-- the limit and one sample more.
pub fail_fast_error :
    (cfg : EngineConfig) (is : List Item) (t : Tracker)
    → window cfg.retention ≡ none
    → observe_items (new_tracker cfg) is ≡ some t
    → t.overflowed ≡ true
    → (into_metrics t ≡ sample_ceiling (max_samples cfg.retention + 1) (max_samples cfg.retention))
      × (into_timeline t
          ≡ sample_ceiling (max_samples cfg.retention + 1) (max_samples cfg.retention))
unfolding into_metrics into_timeline
fail_fast_error cfg is t w e over =
    let (v, ceiling, limit) = observed-Ceiling cfg is t w e in
    let full = ceiling.full over ∙ limit in simp (over, full, limit) (refl, refl)

nothing_to_pop :
    (c : ConnTrack)
    → length c.states ≤ 1
    → c.series ≡ []
    → c.seq ≡ []
    → c.inflight ≡ []
    → c.rtt ≡ []
    → c.throughput ≡ []
    → (pop_longest_front c).1 ≡ false
unfolding pop_longest_front max_index_from evictable
nothing_to_pop c l s1 s2 s3 s4 s5 =
    let one : length c.states - 1 ≡ 0 = omega arith in simp (one, s1, s2, s3, s4, s5) refl

-- Under eviction, a sample for a connection that has nothing to give up, because it holds at most
-- one state and nothing else, is stored all the same when the count stands at its limit, and the
-- count passes the limit.
pub backstop_passed :
    (cfg : EngineConfig) (w : Nanos) (push : ConnTrack → ConnTrack) (f : Focus)
    → window cfg.retention ≡ some w
    → f.overflowed ≡ false
    → f.collected ≡ max_samples cfg.retention
    → length f.conn.states ≤ 1
    → f.conn.series ≡ []
    → f.conn.seq ≡ []
    → f.conn.inflight ≡ []
    → f.conn.rtt ≡ []
    → f.conn.throughput ≡ []
    → ((store cfg push f).collected ≡ suc (max_samples cfg.retention))
      × ((store cfg push f).conn ≡ push f.conn)
unfolding store store_admitted admit evict_oldest_global
backstop_passed cfg w push f e o l s1 s2 s3 s4 s5 s6 =
    let none_left = nothing_to_pop f.conn s1 s2 s3 s4 s5 s6 in
    let kept = (pop_longest_front-held f.conn).1 none_left in
    let full : leb (max_samples cfg.retention) (max_samples cfg.retention) ≡ true = ground arith in
    let evicts : is_some (window cfg.retention) ≡ true = ap is_some e in
    simp (o, full, evicts, none_left, kept, l) (omega arith, refl)
