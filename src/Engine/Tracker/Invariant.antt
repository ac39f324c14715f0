-- ===== src/Engine/Tracker/Invariant.antt =====
-- The invariant of the tracker, and that no item makes it panic.
use tcp_visr.Base.{
  ℕ, zero, suc, ◌≤◌, ◌≡◌, ◌==◌, max, saturating_sub, refl, sym, ap, ◌∙◌, Option, none, some, List,
  [], ◌∷◌, length, get_elem?, snoc, arith, lookup, insert, sum_of, sum_of-append, sum_of-set, inl,
  inr, Bool-cases, is_some,
}
use tcp_visr.Core.Time.{Nanos}
use tcp_visr.Core.Flow.{Endpoint, source, destination}
use tcp_visr.Core.Segment.{Segment, Item, segment, tick}
use tcp_visr.Engine.Conn.{EndpointPair, endpoint_pair, ConnId}
use tcp_visr.Engine.Conn.Order.{pair_eq}
use tcp_visr.Engine.Config.{EngineConfig, window}
use tcp_visr.Engine.Track.{ConnTrack, held, direction_of}
use tcp_visr.Engine.Record.{Focus}
use tcp_visr.Engine.Record.Stored.{Ceiling, Stored}
use tcp_visr.Engine.Tracker.{
  Tracker, new_tracker, open_track, create_instance, join, join_at, join_or_split, place, focus,
  observe_segment, evict_samples, evict_within, emit_decay_samples, evict_dead_connections,
  evict_dead_within, observe_tick, observe_item, observe_items, or_zero, retain_conns, should_split,
  survives,
}
use tcp_visr.Engine.Tracker.Index.{
  ids, Indexes, Indexes-nil, Indexes-insert, Indexes-index_from, get_elem?-map-some, map-set,
  map-snoc, length-map,
}
use tcp_visr.Engine.Tracker.Count.{
  view-id, evict_all-total, evict_all-views, decay_all-total, decay_all-views, decay_all-Ceiling,
}
use tcp_visr.Engine.Tracker.Steps.{open_track-frame, opened-Stored, joined-frame, join-Stored}

-- The count is the number of samples held; the index points at connections of its pairs; a
-- fail-fast ceiling is kept.
pub record Inv (t : Tracker) : Type 0 where
  pub counted : t.collected_samples ≡ sum_of held t.conns
  pub indexed : Indexes (ids t.conns) t.live
  pub ceiling : window t.config.retention ≡ none → Ceiling t.config t.collected_samples t.overflowed

pub new_tracker-Inv : (cfg : EngineConfig) → Inv (new_tracker cfg)
unfolding new_tracker
new_tracker-Inv cfg = record {
  counted = refl;
  indexed = Indexes-nil [];
  ceiling = λ w. record { below = omega arith; full = λ h. cc };
}

-- A connection that was recorded from a fresh one goes to the end of the list.
append-Inv :
    (t : Tracker) (pair : EndpointPair) (track : ConnTrack) (g : Focus)
    (m : List (EndpointPair × ℕ))
    → held track ≡ 0
    → track.id.pair ≡ pair
    → Stored t.config (focus t track) g
    → Inv t
    → Inv (record t {
      conns = snoc t.conns g.conn;
      live = insert pair (length t.conns) t.live;
      next_instance = m;
      collected_samples = g.collected;
      overflowed = g.overflowed;
    })
unfolding focus
append-Inv t pair track g m empty own st v =
    let same : g.conn.id ≡ track.id = view-id g.conn track st.viewed in
    let even = st.balance (omega arith) in
    let total = sum_of-append held t.conns (g.conn ∷ []) in
    record {
      counted = let was = v.counted in omega arith;
      indexed =
          rw (map-snoc (λ c. c.id) t.conns g.conn, same, ← own, ← length-map (λ c. c.id) t.conns)
            (Indexes-insert (ids t.conns) t.live track.id v.indexed);
      ceiling = λ w. st.ceiling w (v.ceiling w);
    }

create_instance-Inv :
    (t : Tracker) (pair : EndpointPair) (seg : Segment) (src dst : Endpoint)
    → Inv t
    → Inv (create_instance t pair seg src dst)
unfolding create_instance
create_instance-Inv t pair seg src dst v =
    let id : ConnId = record { pair = pair; instance_no = or_zero (lookup pair t.next_instance) } in
    let track = open_track id seg src dst in
    let frame = open_track-frame id seg src dst in
    let dir = direction_of track src in
    append-Inv t pair track _ _ frame.0 (ap (λ i. i.pair) frame.1)
      (opened-Stored t.config seg dir (focus t track)) v

held-le-sum :
    (cs : List ConnTrack) (i : ℕ) (c : ConnTrack)
    → get_elem? cs i ≡ some c
    → held c ≤ sum_of held cs
held-le-sum [] i c h = cc
held-le-sum (x ∷ xs) zero c h = ground arith
held-le-sum (x ∷ xs) (suc i) c h = omega (arith, held-le-sum xs i c h)

join_at-Inv :
    (t : Tracker) (idx : ℕ) (c : ConnTrack) (seg : Segment) (src : Endpoint)
    → get_elem? t.conns idx ≡ some c
    → Inv t
    → Inv (join_at t idx c seg src)
unfolding join_at focus
join_at-Inv t idx c seg src at v =
    let f : Focus = record {
      collected = t.collected_samples;
      overflowed = t.overflowed;
      conn = c;
    } in
    let g = join t.config seg src f in
    let st = join-Stored t.config seg src f in
    let frame = joined-frame t.config seg src c in
    let same : g.conn.id ≡ c.id = view-id g.conn _ st.viewed ∙ frame.1 in
    let le = held-le-sum t.conns idx c at in
    let was = v.counted in
    let before = frame.0 in
    let even = st.balance (omega arith) in
    let total = sum_of-set held t.conns idx c g.conn at in
    record {
      counted = omega arith;
      indexed = rw (map-set (λ x. x.id) t.conns idx c g.conn at same) v.indexed;
      ceiling = λ w. st.ceiling w (v.ceiling w);
    }

joins :
    (t : Tracker) (seg : Segment) (idx : ℕ) (c : ConnTrack)
    → get_elem? t.conns idx ≡ some c
    → Inv t
    → (u : Tracker) × (join_or_split t idx (some c) seg ≡ some u) × Inv u × (u.config ≡ t.config)
unfolding join_or_split create_instance join_at
joins t seg idx c at v = elim (Bool-cases (should_split t.config c seg (source seg.flow))) [
  | inl split ↦ rw split (_, refl, create_instance-Inv t _ seg _ _ v, refl)
  | inr stay ↦ rw stay (_, refl, join_at-Inv t idx c seg _ at v, refl)
]

place-Inv :
    (t : Tracker) (seg : Segment) (found : Option ℕ)
    → lookup (endpoint_pair (source seg.flow) (destination seg.flow)) t.live ≡ found
    → Inv t
    → (u : Tracker) × (place t found seg ≡ some u) × Inv u × (u.config ≡ t.config)
unfolding place create_instance
place-Inv t seg none e v = (_, refl, create_instance-Inv t _ seg _ _ v, refl)
place-Inv t seg (some idx) e v =
    let (id, at, own) = v.indexed _ idx e in
    let (c, here, same) = get_elem?-map-some (λ c. c.id) t.conns idx at in
    rw here (joins t seg idx c here v)

-- A segment is placed: the index it looks up is within the list.
pub observe_segment-Inv :
    (t : Tracker) (seg : Segment)
    → Inv t
    → (u : Tracker) × (observe_segment t seg ≡ some u) × Inv u × (u.config ≡ t.config)
unfolding observe_segment
observe_segment-Inv t seg v = place-Inv t seg _ refl v

evict_within-Inv :
    (t : Tracker) (o : Option Nanos)
    → window t.config.retention ≡ o
    → Inv t
    → Inv (evict_within o t) × ((evict_within o t).config ≡ t.config)
unfolding evict_within
evict_within-Inv t none e v = (v, refl)
evict_within-Inv t (some w) e v =
    let h = saturating_sub t.now w in
    (
      record {
        counted = evict_all-total h t.conns t.collected_samples v.counted;
        indexed = rw (evict_all-views h t.conns t.collected_samples).0 v.indexed;
        ceiling = λ n. let clash = sym e ∙ n in cc;
      },
      refl,
    )

emit_decay_samples-Inv :
    (t : Tracker) (at : Nanos)
    → Inv t
    → Inv (emit_decay_samples t at) × ((emit_decay_samples t at).config ≡ t.config)
unfolding emit_decay_samples
emit_decay_samples-Inv t at v = elim (Bool-cases t.overflowed) [
  | inl over ↦ simp over (v, refl)
  | inr under ↦ simp under (
    record {
      counted = decay_all-total t.config at t.collected_samples _ t.conns v.counted;
      indexed = rw (decay_all-views t.config at t.collected_samples _ t.conns).0 v.indexed;
      ceiling = λ w.
          decay_all-Ceiling t.config at t.collected_samples _ t.conns w (simp under at v.ceiling w);
    },
    refl,
  )
]

evict_dead_within-Inv :
    (t : Tracker) (o : Option Nanos)
    → window t.config.retention ≡ o
    → Inv t
    → Inv (evict_dead_within o t) × ((evict_dead_within o t).config ≡ t.config)
unfolding evict_dead_within
evict_dead_within-Inv t none e v = (v, refl)
evict_dead_within-Inv t (some w) e v =
    let kept = retain_conns (survives t.config t.now (saturating_sub t.now w)) t.conns in
    elim (Bool-cases (length kept == length t.conns)) [
      | inl all_live ↦ rw all_live (v, refl)
      | inr some_dead ↦ rw some_dead (
        record {
          counted = refl;
          indexed = Indexes-index_from kept [] [] (Indexes-nil []);
          ceiling = λ n. let clash = sym e ∙ n in cc;
        },
        refl,
      )
    ]

observe_tick-Inv :
    (t : Tracker) (at : Nanos)
    → Inv t
    → Inv (observe_tick t at) × ((observe_tick t at).config ≡ t.config)
unfolding observe_tick evict_dead_connections evict_samples
observe_tick-Inv t at v = elim (Bool-cases (is_some (window t.config.retention))) [
  | inr replay ↦ rw replay (v, refl)
  | inl live ↦
      let later : Tracker = record t { now = max t.now at } in
      let v0 : Inv later = record {
        counted = v.counted;
        indexed = v.indexed;
        ceiling = v.ceiling;
      } in
      let (v1, e1) = emit_decay_samples-Inv later later.now v0 in
      let (v2, e2) = evict_within-Inv (emit_decay_samples later later.now) _ refl v1 in
      let (v3, e3) =
        evict_dead_within-Inv (evict_samples (emit_decay_samples later later.now)) _ refl v2 in
      rw live (v3, e3 ∙ e2 ∙ e1)
]

pub observe_item-Inv :
    (t : Tracker) (i : Item)
    → Inv t
    → (u : Tracker) × (observe_item t i ≡ some u) × Inv u × (u.config ≡ t.config)
unfolding observe_item evict_samples
observe_item-Inv t (tick at) v =
    let (w, e) = observe_tick-Inv t at v in (observe_tick t at, refl, w, e)
observe_item-Inv t (segment seg) v =
    let later : Tracker = record t { now = max t.now seg.ts } in
    let v0 : Inv later = record { counted = v.counted; indexed = v.indexed; ceiling = v.ceiling } in
    let (u, e, w, c) = observe_segment-Inv later seg v0 in
    let (w', c') = evict_within-Inv u _ refl w in rw e (evict_samples u, refl, w', c' ∙ c)

observe_items-Inv :
    (t : Tracker) (is : List Item)
    → Inv t
    → (u : Tracker) × (observe_items t is ≡ some u) × Inv u × (u.config ≡ t.config)
unfolding observe_items
observe_items-Inv t [] v = (t, refl, v, refl)
observe_items-Inv t (i ∷ is) v =
    let (u, e, w, c) = observe_item-Inv t i v in
    let (x, e', w', c') = observe_items-Inv u is w in rw (e, observe_items) (x, e', w', c' ∙ c)

-- Any items at all can be observed from a new tracker, whatever the configuration: no index is ever
-- out of bounds. The tracker that results has the configuration given, counts exactly the samples
-- that its connections hold, has an index that points at connections of its pairs, and has not
-- passed a fail-fast ceiling.
pub observe_items_total :
    (cfg : EngineConfig) (is : List Item)
    → (t : Tracker) × (observe_items (new_tracker cfg) is ≡ some t) × Inv t × (t.config ≡ cfg)
unfolding new_tracker
observe_items_total cfg is = observe_items-Inv (new_tracker cfg) is (new_tracker-Inv cfg)
