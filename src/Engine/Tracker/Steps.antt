-- ===== src/Engine/Tracker/Steps.antt =====
-- Joining a connection and opening one, as steps on the connection in focus.
use tcp_visr.Base.{◌≡◌, refl, ◌∙◌, inl, inr, Bool-cases}
use tcp_visr.Core.Flow.{Endpoint}
use tcp_visr.Core.Segment.{Segment, fin}
use tcp_visr.Engine.Conn.{ConnId, Direction, o2r, r2o}
use tcp_visr.Engine.Config.{EngineConfig}
use tcp_visr.Engine.Track.{ConnTrack, held, account, apply_state, direction_of, snapshot}
use tcp_visr.Engine.Record.{Focus, derive_sample}
use tcp_visr.Engine.Record.Stored.{Stored, Stored-refl, Stored-trans, Stored-if}
use tcp_visr.Engine.Record.Collect.{record_state-Stored}
use tcp_visr.Engine.Record.Derive.{derive_sample-Stored}
use tcp_visr.Engine.Tracker.{
  Opening, opening, new_track, set_fin, open_track, record_snapshot, join,
}

account-frame :
    (seg : Segment) (dir : Direction) (c : ConnTrack)
    → (held (account seg dir c) ≡ held c) × ((account seg dir c).id ≡ c.id)
unfolding account held
account-frame seg o2r c = (refl, refl)
account-frame seg r2o c = (refl, refl)

apply_state-frame :
    (seg : Segment) (dir : Direction) (c : ConnTrack)
    → (held (apply_state seg dir c) ≡ held c) × ((apply_state seg dir c).id ≡ c.id)
unfolding apply_state held
apply_state-frame seg dir c = (refl, refl)

set_fin-frame :
    (dir : Direction) (c : ConnTrack)
    → (held (set_fin dir c) ≡ held c) × ((set_fin dir c).id ≡ c.id)
unfolding set_fin held
set_fin-frame o2r c = (refl, refl)
set_fin-frame r2o c = (refl, refl)

new_track-frame :
    (id : ConnId) (seg : Segment) (o : Opening)
    → (held (new_track id seg o) ≡ 0) × ((new_track id seg o).id ≡ id)
unfolding new_track held
new_track-frame id seg o = (refl, refl)

-- A connection is opened with its identity and no samples.
pub open_track-frame :
    (id : ConnId) (seg : Segment) (src dst : Endpoint)
    → (held (open_track id seg src dst) ≡ 0) × ((open_track id seg src dst).id ≡ id)
unfolding open_track
open_track-frame id seg src dst =
    let track = new_track id seg (opening seg.flags src dst) in
    let dir = direction_of track src in
    let new = new_track-frame id seg (opening seg.flags src dst) in
    let counted = account-frame seg dir track in
    let marked = set_fin-frame dir (account seg dir track) in
    elim (Bool-cases (fin seg.flags)) [
      | inl f ↦ rw f (marked.0 ∙ counted.0 ∙ new.0, marked.1 ∙ counted.1 ∙ new.1)
      | inr f ↦ rw f (counted.0 ∙ new.0, counted.1 ∙ new.1)
    ]

module _ (cfg : EngineConfig) (seg : Segment) where
  record_snapshot-Stored : (f : Focus) → Stored cfg f (record_snapshot cfg seg f)
  unfolding record_snapshot
  record_snapshot-Stored f =
      Stored-if cfg cfg.collect_state_timeline f _ f
        (record_state-Stored cfg (snapshot f.conn seg.ts) f) (Stored-refl cfg f)

  -- What is recorded of a new connection.
  pub opened-Stored :
      (dir : Direction) (f : Focus)
      → Stored cfg f (record_snapshot cfg seg (derive_sample cfg seg dir f))
  opened-Stored dir f =
      Stored-trans cfg f (derive_sample cfg seg dir f) _ (derive_sample-Stored cfg seg dir f)
        (record_snapshot-Stored (derive_sample cfg seg dir f))

  -- The connection that a segment joins, accounted and moved on, before anything is recorded.
  abbrev pub joined : Endpoint → ConnTrack → ConnTrack
  joined src c = apply_state seg (direction_of c src) (account seg (direction_of c src) c)

  pub joined-frame :
      (src : Endpoint) (c : ConnTrack) → (held (joined src c) ≡ held c) × ((joined src c).id ≡ c.id)
  joined-frame src c =
      let dir = direction_of c src in
      let counted = account-frame seg dir c in
      let moved = apply_state-frame seg dir (account seg dir c) in
      (moved.0 ∙ counted.0, moved.1 ∙ counted.1)

  pub join-Stored :
      (src : Endpoint) (f : Focus)
      → Stored cfg (record f { conn = joined src f.conn }) (join cfg seg src f)
  unfolding join
  join-Stored src f =
      let g : Focus = record f { conn = joined src f.conn } in
      let s = record_snapshot cfg seg g in
      Stored-trans cfg g s _ (record_snapshot-Stored g)
        (derive_sample-Stored cfg seg (direction_of f.conn src) s)
