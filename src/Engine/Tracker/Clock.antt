-- ===== src/Engine/Tracker/Clock.antt =====
-- The clock of the tracker is the latest time of the items that it reads.
use tcp_visr.Base.{
  ◌≡◌, refl, subst, ◌∙◌, arith, ℕ, ◌≤◌, max, Bool, true, false, not, if◌then◌else◌, Option, none,
  some, map_some, is_some, get_elem?, Bool-cases, inl, inr,
}
use tcp_visr.Core.Time.{Nanos}
use tcp_visr.Core.Flow.{source}
use tcp_visr.Core.Segment.{Segment, Item, segment, tick}
use tcp_visr.Engine.Config.{EngineConfig, window}
use tcp_visr.Engine.Conn.Order.{pair_eq}
use tcp_visr.Engine.Track.{ConnTrack}
use tcp_visr.Engine.Tracker.{
  Tracker, new_tracker, evict_within, evict_samples, should_split, create_instance, join_at,
  join_or_split, place, observe_segment, emit_decay_samples, evict_dead_within,
  evict_dead_connections, observe_tick, observe_item, horizon_of, retention_horizon,
}

if-now :
    (b : Bool) (x y : Tracker) (n : Nanos) → x.now ≡ n → y.now ≡ n → (if b then x else y).now ≡ n
if-now true x y n p q = p
if-now false x y n p q = q

evict_within-now : (o : Option Nanos) (t : Tracker) → (evict_within o t).now ≡ t.now
unfolding evict_within
evict_within-now none t = refl
evict_within-now (some w) t = refl

evict_samples-now : (t : Tracker) → (evict_samples t).now ≡ t.now
unfolding evict_samples
evict_samples-now t = evict_within-now _ t

-- What a call gives, if it gives something, has this clock.
abbrev Keeps : Option Tracker → Nanos → Type 0
Keeps none n = Unit
Keeps (some u) n = u.now ≡ n

joins-Keeps :
    (t : Tracker) (idx : ℕ) (o : Option ConnTrack) (seg : Segment)
    → Keeps (join_or_split t idx o seg) t.now
unfolding join_or_split create_instance join_at
joins-Keeps t idx none seg = tt
joins-Keeps t idx (some c) seg =
    if-now (should_split t.config c seg (source seg.flow)) _ _ t.now refl refl

place-Keeps : (t : Tracker) (o : Option ℕ) (seg : Segment) → Keeps (place t o seg) t.now
unfolding place create_instance
place-Keeps t none seg = refl
place-Keeps t (some idx) seg = joins-Keeps t idx (get_elem? t.conns idx) seg

evicted-Keeps : (o : Option Tracker) (n : Nanos) → Keeps o n → Keeps (map_some evict_samples o) n
evicted-Keeps none n h = tt
evicted-Keeps (some u) n h = evict_samples-now u ∙ h

emit_decay_samples-now : (t : Tracker) (at : Nanos) → (emit_decay_samples t at).now ≡ t.now
unfolding emit_decay_samples
emit_decay_samples-now t at = if-now t.overflowed t _ t.now refl refl

evict_dead_within-now : (o : Option Nanos) (t : Tracker) → (evict_dead_within o t).now ≡ t.now
unfolding evict_dead_within
evict_dead_within-now none t = refl
evict_dead_within-now (some w) t = if-now _ t _ t.now refl refl

evict_dead_connections-now : (t : Tracker) → (evict_dead_connections t).now ≡ t.now
unfolding evict_dead_connections
evict_dead_connections-now t = evict_dead_within-now _ t

-- The clock after an item: a tick moves it only under a policy with a window.
unfoldable pub clock_after : Tracker → Item → Nanos
clock_after t (segment seg) = max t.now seg.ts
clock_after t (tick at) = if not (is_some (window t.config.retention)) then t.now else max t.now at

observe_tick-now : (t : Tracker) (at : Nanos) → (observe_tick t at).now ≡ clock_after t (tick at)
unfolding observe_tick clock_after
observe_tick-now t at = elim (Bool-cases (is_some (window t.config.retention))) [
  | inl h ↦
      let later : Tracker = record t { now = max t.now at } in
      rw h (
        evict_dead_connections-now _
        ∙ (evict_samples-now _ ∙ emit_decay_samples-now later later.now))
  | inr h ↦ rw h refl
]

observe_item-Keeps : (t : Tracker) (i : Item) → Keeps (observe_item t i) (clock_after t i)
unfolding observe_item observe_segment clock_after
observe_item-Keeps t (segment seg) =
    let later : Tracker = record t { now = max t.now seg.ts } in
    evicted-Keeps (observe_segment later seg) (max t.now seg.ts) (place-Keeps later _ seg)
observe_item-Keeps t (tick at) = observe_tick-now t at

-- An item that is observed moves the clock to its time, if that is later.
pub observe_item-now :
    (t u : Tracker) (i : Item) → observe_item t i ≡ some u → u.now ≡ clock_after t i
observe_item-now t u i h = subst (λ o. Keeps o (clock_after t i)) h (observe_item-Keeps t i)

horizon_of-le : (o : Option Nanos) (now : Nanos) → horizon_of o now ≤ now
unfolding horizon_of
horizon_of-le none now = omega arith
horizon_of-le (some w) now = omega arith

-- The horizon of the retention is not after the clock.
pub retention_horizon-le : (t : Tracker) → retention_horizon t ≤ t.now
unfolding retention_horizon
retention_horizon-le t = horizon_of-le (window t.config.retention) t.now

pub new_tracker-now : (cfg : EngineConfig) → (new_tracker cfg).now ≡ 0
unfolding new_tracker
new_tracker-now cfg = refl
