-- ===== src/Cli/Live.antt =====
-- crates/tcp-visr/src/main.rs: the live session. The capture thread sends its events through a
-- bounded channel and counts what does not fit; each frame drains the channel into the tracker and
-- the name table and shows a snapshot. An interleaving of the two threads is a list of steps; what is
-- sent during a drain counts as sent before it.
pub mod Drain
pub mod Order
pub mod Screen
pub mod Sent
mod Tests
use tcp_visr.Base.{
  ℕ, ◌+◌, Bool, true, false, ◌||◌, ltb, if◌then◌else◌, Option, none, some, List, [], ◌∷◌, ◌++◌,
  length, snoc, bind, map_some, add_u64,
}
use tcp_visr.Core.Time.{Nanos}
use tcp_visr.Core.Segment.{Item, segment, tick}
use tcp_visr.Core.Name.{empty_table}
use tcp_visr.Engine.Tracker.{
  Tracker, new_tracker, observe_item, retention_horizon, snapshot_timeline,
}
use tcp_visr.Ingest.Live.{LiveEvent, item_event, name_event}
use tcp_visr.Tui.App.{Text, Texts, App, Outcome, continue_run, quit}
use tcp_visr.Tui.App.Commands.{new_live, observe_host, retarget, set_title}
use tcp_visr.Tui.Keys.{KeyEvent, handle_key}
use tcp_visr.Cli.Config.{live_engine_config, grace_hint}

abbrev pub channel_size : ℕ
channel_size = 65536

pub record Session : Type 0 where
  pub queue : List LiveEvent
  pub lost : ℕ
  pub tracker : Tracker
  pub app : App
  pub first_packet : Bool
  pub done : Bool

-- The titles: the base, and the one with the hint.
pub record Titles : Type 0 where
  pub base_title : Text
  pub hint_title : Text

unfoldable pub new_session : Texts → Titles → ℕ → Session
new_session texts titles retention_secs = record {
  queue = [];
  lost = 0;
  tracker = new_tracker (live_engine_config retention_secs);
  app = new_live texts empty_table titles.base_title;
  first_packet = false;
  done = false;
}

-- `try_send` on the channel while the session lives.
unfoldable pub try_send_or_count : Session → LiveEvent → Session
try_send_or_count s ev =
    if ltb (length s.queue) channel_size
    then record s { queue = snoc s.queue ev }
    else record s { lost = add_u64 s.lost 1 }

abbrev pub is_segment : Item → Bool
is_segment (segment seg) = true
is_segment (tick at) = false

unfoldable pub take_event : Session → LiveEvent → Option Session
take_event s (item_event item) =
    map_some (λ t. record s { tracker = t; first_packet = s.first_packet || is_segment item })
      (observe_item s.tracker item)
take_event s (name_event obs) = some (record s { app = observe_host s.app obs })

-- `while let Ok(ev) = rx.try_recv()`
unfoldable pub take_all : List LiveEvent → Session → Option Session
take_all [] s = some s
take_all (ev ∷ evs) s = bind (take_all evs) (take_event s ev)

unfoldable pub drain : Session → Option Session
drain s = take_all s.queue (record s { queue = [] })

abbrev pub shown_title : Titles → Bool → Nanos → Text
shown_title titles first_packet elapsed =
    if grace_hint first_packet elapsed then titles.hint_title else titles.base_title

-- The snapshot of what was drained, with the count of skipped packets and the time since the start.
unfoldable pub show_frame : Texts → Titles → ℕ → Nanos → Session → Option Session
show_frame texts titles skips elapsed s =
    map_some (λ app. record s { app = set_title app (shown_title titles s.first_packet elapsed) })
      (retarget texts s.app (snapshot_timeline s.tracker) (retention_horizon s.tracker)
        s.tracker.now
        (record { dropped = s.lost; approximate = ltb 0 s.lost; skipped_packets = skips }))

unfoldable pub next_frame : Texts → Titles → ℕ → Nanos → Session → Option Session
next_frame texts titles skips elapsed s = bind (show_frame texts titles skips elapsed) (drain s)

abbrev pub after_key : Session → App × Outcome → Session
after_key s (app, continue_run) = record s { app = app }
after_key s (app, quit) = record s { app = app; done = true }

-- The capture thread sends an event; the interface handles a key, or draws a frame.
pub data Action : Type 0 where
  send : LiveEvent → Action
  key : KeyEvent → Action
  frame : ℕ → Nanos → Action

unfoldable pub act : Texts → Titles → Session → Action → Option Session
act texts titles s (send ev) = some (try_send_or_count s ev)
act texts titles s (key k) = map_some (after_key s) (handle_key texts s.app k)
act texts titles s (frame skips elapsed) = next_frame texts titles skips elapsed s

unfoldable pub run_session : Texts → Titles → List Action → Session → Option Session
run_session texts titles [] s = some s
run_session texts titles (a ∷ more) s =
    let rest = run_session texts titles more in
    if s.done then some s else bind rest (act texts titles s a)
