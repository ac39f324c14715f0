-- ===== src/Cli/Live/Screen.antt =====
-- Of the live session: it runs without a panic under any interleaving, the channel stays bounded, and
-- each frame empties it and leaves the selection on a visible row.
use tcp_visr.Base.{
  ◌≡◌, refl, ap, ◌∙◌, arith, ℕ, ◌≤◌, ◌<◌, u64_mod, Bool, true, false, ltb, if_of_true, if_of_false,
  some, List, [], ◌∷◌, length, bind, All, Bool-cases, inl, inr,
}
use tcp_visr.Core.Time.{Nanos}
use tcp_visr.Engine.Timeline.{Timeline}
use tcp_visr.Engine.Timeline.Times.{new_timeline_empty}
use tcp_visr.Engine.Tracker.{observe_items, retention_horizon, snapshot_timeline}
use tcp_visr.Engine.Tracker.Invariant.{Inv, new_tracker-Inv}
use tcp_visr.Engine.Tracker.Clock.{retention_horizon-le, new_tracker-now}
use tcp_visr.Tui.Transport.{Transport}
use tcp_visr.Tui.Transport.Bounds.{
  IsWithin, new_transport-IsWithin, set_domain-IsWithin, set_cursor-IsWithin,
}
use tcp_visr.Tui.App.{Texts, App, Outcome, continue_run, quit, visible, LiveStatus}
use tcp_visr.Tui.App.Commands.{new_live, new_with_names, retarget, set_title, follow_to}
use tcp_visr.Tui.App.Visible.{Stands}
use tcp_visr.Tui.App.Selection.{
  IsSound, reconcile_selection-IsSound, reconcile_selection-Stands, reconcile_selection-timeline,
  reconcile_selection-host_names,
}
use tcp_visr.Tui.Keys.Replay.{handle_key-Handles}
use tcp_visr.Cli.Config.{live_engine_config}
use tcp_visr.Cli.Live.{
  Session, Titles, new_session, show_frame, next_frame, after_key, Action, send, key, frame, act,
  run_session,
}
use tcp_visr.Cli.Live.Order.{items_of, names_after, drain-observes}
use tcp_visr.Cli.Live.Drain.{SendsTimed, IsRunning, drain-IsRunning, try_send-IsRunning}

module _ (texts : Texts) (titles : Titles) where
  -- The transport that a frame gives: the domain set, and the cursor at its end if it follows.
  follow_to-IsWithin :
      (follow : Bool) (now : Nanos) (t : Transport)
      → IsWithin t
      → (u : Transport) × (follow_to follow now t ≡ some u) × IsWithin u
  follow_to-IsWithin true now t w = set_cursor-IsWithin t now w
  follow_to-IsWithin false now t w = (t, refl, w)

  retarget-IsSound :
      (app : App) (timeline : Timeline) (horizon now : Nanos) (status : LiveStatus)
      → horizon ≤ now
      → now < u64_mod
      → IsSound texts true app
      → (a : App) × (retarget texts app timeline horizon now status ≡ some a)
        × IsSound texts true a
        × Stands a.selected (visible texts a)
        × (a.timeline ≡ timeline)
        × (a.host_names ≡ app.host_names)
  unfolding retarget
  retarget-IsSound app timeline horizon now status h w s =
      let (t, e, v) = set_domain-IsWithin app.transport horizon now h w s.within in
      let (u, f, x) = follow_to-IsWithin app.follow now t v in
      rw e (
        rw f (
          _,
          refl,
          reconcile_selection-IsSound texts true _ x s.fixed,
          reconcile_selection-Stands texts true _,
          reconcile_selection-timeline texts true _,
          reconcile_selection-host_names texts true _,
        ))

  -- A frame that goes from `s` to `u`: what waited in the channel is observed in order, its names are
  -- known and nothing waits any more; the screen shows the tracker.
  abbrev pub IsShown : Session → Session → Type 0
  IsShown s u =
      (u.queue ≡ [])
      × (observe_items s.tracker (items_of s.queue) ≡ some u.tracker)
      × (u.app.host_names ≡ names_after s.app.host_names s.queue)
      × (u.app.timeline ≡ snapshot_timeline u.tracker)
      × Stands u.app.selected (visible texts u.app)

  pub next_frame-IsRunning :
      (s : Session) (skips : ℕ) (elapsed : Nanos)
      → IsRunning texts s
      → (u : Session) × (next_frame texts titles skips elapsed s ≡ some u)
        × IsRunning texts u
        × IsShown s u
  unfolding next_frame show_frame set_title visible
  next_frame-IsRunning s skips elapsed v =
      let (d, e, w, q) = drain-IsRunning texts s v in
      let (observed, learned) = drain-observes s e in
      let (a, f, x, st, tl, hn) =
        retarget-IsSound d.app (snapshot_timeline d.tracker) (retention_horizon d.tracker)
          d.tracker.now
          (record { dropped = d.lost; approximate = ltb 0 d.lost; skipped_packets = skips })
          (retention_horizon-le d.tracker) w.clock w.sound in
      rw e (
        rw f (
          _,
          refl,
          record {
            tracked = w.tracked;
            clock = w.clock;
            timed = w.timed;
            fits = w.fits;
            sound = record { within = x.within; stands = x.stands; fixed = x.fixed };
          },
          (q, observed, hn ∙ learned, tl, st),
        ))

  pub after_key-IsRunning :
      (s : Session) (r : App × Outcome)
      → IsRunning texts s
      → IsSound texts true r.0
      → IsRunning texts (after_key s r)
  after_key-IsRunning s (app, continue_run) v x = record {
    tracked = v.tracked;
    clock = v.clock;
    timed = v.timed;
    fits = v.fits;
    sound = x;
  }
  after_key-IsRunning s (app, quit) v x = record {
    tracked = v.tracked;
    clock = v.clock;
    timed = v.timed;
    fits = v.fits;
    sound = x;
  }

  act-IsRunning :
      (s : Session) (a : Action)
      → SendsTimed a
      → IsRunning texts s
      → (u : Session) × (act texts titles s a ≡ some u) × IsRunning texts u
  unfolding act
  act-IsRunning s (send ev) t v = (_, refl, try_send-IsRunning texts s ev t v)
  act-IsRunning s (key k) t v =
      let (r, e, x) = handle_key-Handles texts true s.app k v.sound in
      rw e (_, refl, after_key-IsRunning s r v x)
  act-IsRunning s (frame skips elapsed) t v =
      let (u, e, w, _) = next_frame-IsRunning s skips elapsed v in (u, e, w)

  pub run_session-IsRunning :
      (acts : List Action) (s : Session)
      → All SendsTimed acts
      → IsRunning texts s
      → (u : Session) × (run_session texts titles acts s ≡ some u) × IsRunning texts u
  unfolding run_session
  run_session-IsRunning [] s t v = (s, refl, v)
  run_session-IsRunning (a ∷ acts) s t v =
      let (m, e, w) = act-IsRunning s a t.0 v in
      let (u, f, x) = run_session-IsRunning acts m t.1 w in
      elim (Bool-cases s.done) [
        | inl h ↦ (s, if_of_true s.done _ _ h, v)
        | inr h ↦
            (u, if_of_false s.done _ _ h ∙ (ap (bind (run_session texts titles acts)) e ∙ f), x)
      ]

  pub new_session-IsRunning :
      (retention_secs : ℕ) → IsRunning texts (new_session texts titles retention_secs)
  unfolding new_session new_live new_with_names visible
  new_session-IsRunning retention_secs =
      let within = new_transport-IsWithin 0 0 (omega arith) (omega arith) in
      record {
        tracked = new_tracker-Inv (live_engine_config retention_secs);
        clock = let n = new_tracker-now (live_engine_config retention_secs) in omega (arith, n);
        timed = tt;
        fits = omega arith;
        sound = record { within = rw new_timeline_empty within; stands = λ h. cc; fixed = refl };
      }

-- A live session runs on without a panic under any interleaving of events with 64-bit times, keys and
-- frames, until a key quits. The channel then holds at most 65,536 events, the cursor is within the
-- retained window, and the tracker's counts and index are right.
pub run_session-runs :
    (texts : Texts) (titles : Titles) (retention_secs : ℕ) (acts : List Action)
    → All SendsTimed acts
    → (s : Session) × (run_session texts titles acts (new_session texts titles retention_secs)
        ≡ some s)
      × (length s.queue ≤ 65536)
      × IsWithin s.app.transport
      × Inv s.tracker
run_session-runs texts titles retention_secs acts t =
    let (s, e, v) =
      run_session-IsRunning texts titles acts _ t
        (new_session-IsRunning texts titles retention_secs) in
    (s, e, v.fits, v.sound.within, v.tracked)
