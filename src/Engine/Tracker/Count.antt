-- ===== src/Engine/Tracker/Count.antt =====
-- The sample count through eviction and decay.
use tcp_visr.Base.{
  ℕ, ◌+◌, ◌-◌, ◌≤◌, ◌≡◌, refl, ap, ap₂, Bool, none, List, [], ◌∷◌, map, length, arith, sum_of, ltb,
}
use tcp_visr.Core.Time.{Nanos}
use tcp_visr.Engine.Config.{EngineConfig, window}
use tcp_visr.Engine.Track.{ConnTrack, held, view, life, evict_front}
use tcp_visr.Engine.Record.{Focus, collect_throughput_at}
use tcp_visr.Engine.Record.Stored.{Ceiling, Stored, Stored-refl, Stored-trans, Stored-if}
use tcp_visr.Engine.Record.Collect.{collect_inflight_at-Stored, collect_throughput_at-Stored}
use tcp_visr.Engine.Tracker.{evict_conn, evict_all, decay_turn, decay_all}
use tcp_visr.Engine.Tracker.Index.{ids}

-- Connections that are reported alike have one identity.
pub view-id : (c d : ConnTrack) → view c ≡ view d → c.id ≡ d.id
unfolding view
view-id c d h = ap (λ v. v.id) h

length-evict_front {ℓ} :
    {A : Type ℓ} (t : A → Nanos) (horizon keep : ℕ) (xs : List A)
    → length (evict_front t horizon keep xs) ≤ length xs
unfolding evict_front
length-evict_front t horizon keep [] = omega arith
length-evict_front t horizon keep (x ∷ xs) = ground (arith, length-evict_front t horizon keep xs)

evict_conn-held : (horizon : ℕ) (c : ConnTrack) → held (evict_conn horizon c) ≤ held c
unfolding held evict_conn
evict_conn-held h c = omega (
  arith,
  length-evict_front (λ s. s.t) h 1 c.states,
  length-evict_front (λ s. s.t) h 0 c.series,
  length-evict_front (λ s. s.t) h 0 c.seq,
  length-evict_front (λ s. s.t) h 0 c.inflight,
  length-evict_front (λ s. s.t) h 0 c.rtt,
  length-evict_front (λ s. s.t) h 0 c.throughput,
)

-- Eviction takes off the count what it takes off the series, the rest `k` of the count kept.
evict_all-sum :
    (horizon : ℕ) (cs : List ConnTrack) (count k : ℕ)
    → count ≡ sum_of held cs + k
    → (evict_all horizon cs count).1 ≡ sum_of held (evict_all horizon cs count).0 + k
unfolding evict_all
evict_all-sum h [] count k e = e
evict_all-sum h (c ∷ cs) count k e =
    let le = evict_conn-held h c in
    let next = count - (held c - held (evict_conn h c)) in
    let rest = evict_all-sum h cs next (held (evict_conn h c) + k) (omega arith) in omega arith

pub evict_all-total :
    (horizon : ℕ) (cs : List ConnTrack) (count : ℕ)
    → count ≡ sum_of held cs
    → (evict_all horizon cs count).1 ≡ sum_of held (evict_all horizon cs count).0
evict_all-total h cs count e = omega (arith, evict_all-sum h cs count 0 (omega arith))

-- The connections stay the same, up to their samples.
pub evict_all-views :
    (horizon : ℕ) (cs : List ConnTrack) (count : ℕ)
    → (ids (evict_all horizon cs count).0 ≡ ids cs)
      × (map view (evict_all horizon cs count).0 ≡ map view cs)
      × (map life (evict_all horizon cs count).0 ≡ map life cs)
unfolding evict_all evict_conn view
evict_all-views h [] count = (refl, refl, refl)
evict_all-views h (c ∷ cs) count =
    let (i, v, l) = evict_all-views h cs (count - (held c - held (evict_conn h c))) in
    (ap (◌∷◌ c.id) i, ap (◌∷◌ (view c)) v, ap (◌∷◌ (life c)) l)

decay_turn-Stored : (cfg : EngineConfig) (t : Nanos) (f : Focus) → Stored cfg f (decay_turn cfg t f)
unfolding decay_turn
decay_turn-Stored cfg t f =
    let g = collect_throughput_at cfg t f in
    Stored-if cfg (ltb cfg.dead_after (t - f.conn.last_at)) f f _ (Stored-refl cfg f) (
      Stored-trans cfg f g _ (collect_throughput_at-Stored cfg t f)
        (collect_inflight_at-Stored cfg t g))

decay_all-sum :
    (cfg : EngineConfig) (t : Nanos) (collected : ℕ) (over : Bool) (cs : List ConnTrack) (k : ℕ)
    → collected ≡ sum_of held cs + k
    → (decay_all cfg t collected over cs).1 ≡ sum_of held (decay_all cfg t collected over cs).0 + k
unfolding decay_all
decay_all-sum cfg t collected over [] k e = e
decay_all-sum cfg t collected over (c ∷ cs) k e =
    let f : Focus = record { collected = collected; overflowed = over; conn = c } in
    let g = decay_turn cfg t f in
    let even = (decay_turn-Stored cfg t f).balance (omega arith) in
    let rest = decay_all-sum cfg t g.collected g.overflowed cs (held g.conn + k) (omega arith) in
    omega arith

pub decay_all-total :
    (cfg : EngineConfig) (t : Nanos) (collected : ℕ) (over : Bool) (cs : List ConnTrack)
    → collected ≡ sum_of held cs
    → (decay_all cfg t collected over cs).1 ≡ sum_of held (decay_all cfg t collected over cs).0
decay_all-total cfg t collected over cs e =
    omega (arith, decay_all-sum cfg t collected over cs 0 (omega arith))

pub decay_all-views :
    (cfg : EngineConfig) (t : Nanos) (collected : ℕ) (over : Bool) (cs : List ConnTrack)
    → (ids (decay_all cfg t collected over cs).0 ≡ ids cs)
      × (map view (decay_all cfg t collected over cs).0 ≡ map view cs)
      × (map life (decay_all cfg t collected over cs).0 ≡ map life cs)
unfolding decay_all
decay_all-views cfg t collected over [] = (refl, refl, refl)
decay_all-views cfg t collected over (c ∷ cs) =
    let f : Focus = record { collected = collected; overflowed = over; conn = c } in
    let g = decay_turn cfg t f in
    let step = decay_turn-Stored cfg t f in
    let (i, v, l) = decay_all-views cfg t g.collected g.overflowed cs in
    (ap₂ ◌∷◌ (view-id g.conn c step.viewed) i, ap₂ ◌∷◌ step.viewed v, ap₂ ◌∷◌ step.lived l)

pub decay_all-Ceiling :
    (cfg : EngineConfig) (t : Nanos) (collected : ℕ) (over : Bool) (cs : List ConnTrack)
    → window cfg.retention ≡ none
    → Ceiling cfg collected over
    → Ceiling cfg (decay_all cfg t collected over cs).1 (decay_all cfg t collected over cs).2
unfolding decay_all
decay_all-Ceiling cfg t collected over [] w c = c
decay_all-Ceiling cfg t collected over (c ∷ cs) w l =
    let f : Focus = record { collected = collected; overflowed = over; conn = c } in
    let g = decay_turn cfg t f in
    decay_all-Ceiling cfg t g.collected g.overflowed cs w ((decay_turn-Stored cfg t f).ceiling w l)
