-- ===== src/Engine/Tracker/Tally.antt =====
-- One segment adds one to the segments and its payload to the bytes that the connections report.
use tcp_visr.Base.{
  ℕ, zero, suc, ◌+◌, ◌≤◌, ◌<◌, ◌≡◌, refl, ap, Option, none, some, List, [], ◌∷◌, get_elem?, snoc,
  arith, lookup, sum_of, sum_of-append, sum_of-set, inl, inr, Bool-cases, u64_mod,
}
use tcp_visr.Core.Flow.{Endpoint, source, destination}
use tcp_visr.Core.Segment.{Segment, fin}
use tcp_visr.Engine.Conn.{EndpointPair, endpoint_pair, ConnId, Direction, o2r, r2o}
use tcp_visr.Engine.Conn.Order.{pair_eq}
use tcp_visr.Engine.Config.{EngineConfig}
use tcp_visr.Engine.Track.{ConnTrack, view, account, apply_state, direction_of}
use tcp_visr.Engine.Record.{Focus}
use tcp_visr.Engine.Tracker.{
  Tracker, new_track, opening, set_fin, open_track, create_instance, join, join_at, join_or_split,
  place, focus, observe_segment, or_zero, should_split,
}
use tcp_visr.Engine.Tracker.Steps.{opened-Stored, joined, join-Stored}

abbrev pub segments_of : ConnTrack → ℕ
segments_of c = c.segments

abbrev pub bytes_of : ConnTrack → ℕ
bytes_of c = c.bytes_o2r + c.bytes_r2o

-- The segments and bytes that all connections report.
abbrev pub Counts : Tracker → ℕ → ℕ → Type 0
Counts t n b = (sum_of segments_of t.conns ≡ n) × (sum_of bytes_of t.conns ≡ b)

abbrev Grown : ConnTrack → Segment → ConnTrack → Type 0
Grown c seg d = (segments_of d ≡ segments_of c + 1) × (bytes_of d ≡ bytes_of c + seg.payload_len)

account-Grown :
    (seg : Segment) (dir : Direction) (c : ConnTrack)
    → segments_of c + 1 < u64_mod
    → bytes_of c + seg.payload_len < u64_mod
    → Grown c seg (account seg dir c)
unfolding account
account-Grown seg o2r c h k = (omega arith, omega arith)
account-Grown seg r2o c h k = (omega arith, omega arith)

Grown-view : (c d e : ConnTrack) (seg : Segment) → view e ≡ view d → Grown c seg d → Grown c seg e
unfolding view
Grown-view c d e seg v g =
    let s : e.segments ≡ d.segments = ap (λ x. x.segments) v in
    let f : e.bytes_o2r ≡ d.bytes_o2r = ap (λ x. x.bytes_o2r) v in
    let b : e.bytes_r2o ≡ d.bytes_r2o = ap (λ x. x.bytes_r2o) v in (omega arith, omega arith)

joined-Grown :
    (cfg : EngineConfig) (seg : Segment) (src : Endpoint) (c : ConnTrack)
    → segments_of c + 1 < u64_mod
    → bytes_of c + seg.payload_len < u64_mod
    → Grown c seg (joined cfg seg src c)
unfolding apply_state
joined-Grown cfg seg src c h k = account-Grown seg (direction_of c src) c h k

set_fin-Grown :
    (dir : Direction) (c d : ConnTrack) (seg : Segment)
    → Grown c seg d
    → Grown c seg (set_fin dir d)
unfolding set_fin
set_fin-Grown o2r c d seg g = g
set_fin-Grown r2o c d seg g = g

open_track-Grown :
    (id : ConnId) (seg : Segment) (src dst : Endpoint)
    → seg.payload_len < u64_mod
    → (segments_of (open_track id seg src dst) ≡ 1)
      × (bytes_of (open_track id seg src dst) ≡ seg.payload_len)
unfolding open_track new_track
open_track-Grown id seg src dst h =
    let track = new_track id seg (opening seg.flags src dst) in
    let dir = direction_of track src in
    let counted = account-Grown seg dir track (omega arith) (omega arith) in
    let marked = set_fin-Grown dir track (account seg dir track) seg counted in
    elim (Bool-cases (fin seg.flags)) [
      | inl f ↦ rw f (omega arith, omega arith)
      | inr f ↦ rw f (omega arith, omega arith)
    ]

view-counts :
    (c d : ConnTrack)
    → view d ≡ view c
    → (segments_of d ≡ segments_of c) × (bytes_of d ≡ bytes_of c)
unfolding view
view-counts c d v =
    let s : d.segments ≡ c.segments = ap (λ x. x.segments) v in
    let f : d.bytes_o2r ≡ c.bytes_o2r = ap (λ x. x.bytes_o2r) v in
    let b : d.bytes_r2o ≡ c.bytes_r2o = ap (λ x. x.bytes_r2o) v in (s, omega arith)

le-sum :
    (f : ConnTrack → ℕ) (cs : List ConnTrack) (i : ℕ) (c : ConnTrack)
    → get_elem? cs i ≡ some c
    → f c ≤ sum_of f cs
le-sum f [] i c h = cc
le-sum f (x ∷ xs) zero c h = ground arith
le-sum f (x ∷ xs) (suc i) c h = omega (arith, le-sum f xs i c h)

module _ (t : Tracker) (seg : Segment) (n b : ℕ) (counts : Counts t n b) (room : n + 1 < u64_mod)
    (space : b + seg.payload_len < u64_mod) where
  append-Counts :
      (track g : ConnTrack)
      → view g ≡ view track
      → segments_of track ≡ 1
      → bytes_of track ≡ seg.payload_len
      → (sum_of segments_of (snoc t.conns g) ≡ n + 1)
        × (sum_of bytes_of (snoc t.conns g) ≡ b + seg.payload_len)
  append-Counts track g v one len =
      let kept = view-counts track g v in
      let s = sum_of-append segments_of t.conns (g ∷ []) in
      let y = sum_of-append bytes_of t.conns (g ∷ []) in (omega arith, omega arith)

  create_instance-Counts :
      (pair : EndpointPair) (src dst : Endpoint)
      → Counts (create_instance t pair seg src dst) (n + 1) (b + seg.payload_len)
  unfolding create_instance focus
  create_instance-Counts pair src dst =
      let id : ConnId = record {
        pair = pair;
        instance_no = or_zero (lookup pair t.next_instance);
      } in
      let track = open_track id seg src dst in
      let new = open_track-Grown id seg src dst (omega arith) in
      append-Counts track _
        (opened-Stored t.config seg (direction_of track src) (focus t track)).viewed new.0 new.1

  join_at-Counts :
      (idx : ℕ) (c : ConnTrack) (src : Endpoint)
      → get_elem? t.conns idx ≡ some c
      → Counts (join_at t idx c seg src) (n + 1) (b + seg.payload_len)
  unfolding join_at focus
  join_at-Counts idx c src at =
      let f : Focus = record {
        collected = t.collected_samples;
        overflowed = t.overflowed;
        conn = c;
      } in
      let g = join t.config seg src f in
      let st = join-Stored t.config seg src f in
      let one = le-sum segments_of t.conns idx c at in
      let two = le-sum bytes_of t.conns idx c at in
      let grown =
        Grown-view c _ g.conn seg st.viewed
          (joined-Grown t.config seg src c (omega arith) (omega arith)) in
      let s = sum_of-set segments_of t.conns idx c g.conn at in
      let y = sum_of-set bytes_of t.conns idx c g.conn at in (omega arith, omega arith)

  join_or_split-Counts :
      (idx : ℕ) (o : Option ConnTrack) (u : Tracker)
      → get_elem? t.conns idx ≡ o
      → join_or_split t idx o seg ≡ some u
      → Counts u (n + 1) (b + seg.payload_len)
  unfolding join_or_split
  join_or_split-Counts idx none u at e = cc
  join_or_split-Counts idx (some c) u at e =
      elim (Bool-cases (should_split t.config c seg (source seg.flow))) [
        | inl split ↦
            let e' = rw split at e in
            let made : create_instance t (endpoint_pair (source seg.flow) (destination seg.flow))
                  seg (source seg.flow) (destination seg.flow)
                ≡ u =
              cc in
            rw (← made) (create_instance-Counts _ _ _)
        | inr stay ↦
            let e' = rw stay at e in
            let made : join_at t idx c seg (source seg.flow) ≡ u = cc in
            rw (← made) (join_at-Counts idx c _ at)
      ]

  place-Counts :
      (found : Option ℕ) (u : Tracker)
      → place t found seg ≡ some u
      → Counts u (n + 1) (b + seg.payload_len)
  unfolding place
  place-Counts none u e =
      let made : create_instance t (endpoint_pair (source seg.flow) (destination seg.flow)) seg
            (source seg.flow) (destination seg.flow)
          ≡ u =
        cc in
      rw (← made) (create_instance-Counts _ _ _)
  place-Counts (some idx) u e = join_or_split-Counts idx _ u refl e

pub observe_segment-Counts :
    (t : Tracker) (seg : Segment) (n b : ℕ)
    → Counts t n b
    → n + 1 < u64_mod
    → b + seg.payload_len < u64_mod
    → (u : Tracker) → observe_segment t seg ≡ some u
    → Counts u (n + 1) (b + seg.payload_len)
unfolding observe_segment
observe_segment-Counts t seg n b counts room space u e =
    place-Counts t seg n b counts room space _ u e
