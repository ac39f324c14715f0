-- ===== src/Cli/Live/Tests.antt =====
-- A live session of two segments, a name, two keys and two frames.
use tcp_visr.Base.{◌≡◌, arith, ◌≤◌, ◌<◌, ◌⊎◌, true, false, some, List, [], ◌∷◌, length}
use tcp_visr.Core.Flow.{v4}
use tcp_visr.Core.Segment.{segment, tick}
use tcp_visr.Engine.Fixtures.{client, server, seg_of}
use tcp_visr.Engine.Tracker.{new_tracker, observe_items}
use tcp_visr.Engine.Tracker.Invariant.{Inv}
use tcp_visr.Ingest.Live.{item_event, name_event}
use tcp_visr.Tui.Transport.Bounds.{IsWithin}
use tcp_visr.Tui.App.{Texts}
use tcp_visr.Tui.Keys.{char, down_key}
use tcp_visr.Cli.Live.{
  Session, Titles, new_session, Action, send, key, frame, run_session, next_frame,
}
use tcp_visr.Cli.Config.{live_engine_config}
use tcp_visr.Cli.Live.Order.{items_of}
use tcp_visr.Cli.Live.Screen.{IsShown, run_session-runs}
use tcp_visr.Cli.Live.Sent.{sends, next_frame-shows}

abbrev texts : Texts
texts = record { endpoint_text = λ _. 97 ∷ []; state_text = λ _. 98 ∷ []; to_lowercase = λ t. t }

abbrev titles : Titles
titles = record { base_title = 1 ∷ []; hint_title = 2 ∷ [] }

abbrev acts : List Action
acts =
    send (item_event (segment (seg_of client server 0x02 99 0 0 5)))
    ∷ send (name_event (record { ts = 5; ip = v4 9; name = 97 ∷ [] }))
    ∷ frame 0 100
    ∷ send (item_event (tick 2000000000))
    ∷ key (record { control = false; code = char 32 })
    ∷ key (record { control = false; code = down_key })
    ∷ frame 1 200
    ∷ send (item_event (segment (seg_of server client 0x12 499 100 0 2000000001)))
    ∷ []

run_session-runs_example :
    (s : Session) × (run_session texts titles acts (new_session texts titles 60) ≡ some s)
    × (length s.queue ≤ 65536)
    × IsWithin s.app.transport
    × Inv s.tracker
run_session-runs_example =
    run_session-runs texts titles 60 acts
      (omega arith, (tt, (tt, (omega arith, (tt, (tt, (tt, (omega arith, tt))))))))

next_frame-shows_example :
    (s u : Session) × (run_session texts titles acts (new_session texts titles 60) ≡ some s)
    × (next_frame texts titles 1 300 s ≡ some u)
    × IsShown texts titles s u
    × ((s.done ≡ true)
        ⊎ (65536 < length acts)
        ⊎ (observe_items (new_tracker (live_engine_config 60)) (items_of (sends acts))
            ≡ some u.tracker))
next_frame-shows_example =
    next_frame-shows texts titles 60 acts 1 300
      (omega arith, (tt, (tt, (omega arith, (tt, (tt, (tt, (omega arith, tt))))))))
