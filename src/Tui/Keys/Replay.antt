-- ===== src/Tui/Keys/Replay.antt =====
-- Of keys.rs and run.rs: whatever the user presses in a replay, the selection stays on a visible
-- row.
use tcp_visr.Base.{
  ◌≡◌, refl, ℕ, ◌≤◌, ◌<◌, u64_mod, Bool, true, false, ◌||◌, ◌==◌, some, List, [], ◌∷◌,
}
use tcp_visr.Core.Name.{NameTable}
use tcp_visr.Engine.Timeline.{Timeline, bounds}
use tcp_visr.Tui.Transport.Bounds.{IsWithin, new_transport-IsWithin}
use tcp_visr.Tui.App.{
  Text, Texts, App, Mode, nav, filter_input, Outcome, continue_run, quit, visible,
}
use tcp_visr.Tui.App.Commands.{
  new_with_names, up, down, freeze_if_live, push_filter, pop_filter, cancel_filter,
}
use tcp_visr.Tui.App.Visible.{Stands}
use tcp_visr.Tui.App.Selection.{
  IsSound, Gives, seek_app-Gives, step_forward-Gives, step_back-Gives, tick_app-Gives,
  move_by-Gives, reconcile_selection-IsSound, new_with_names-IsSound,
}
use tcp_visr.Tui.Keys.{
  KeyCode, char, up_key, down_key, left_key, right_key, enter_key, esc_key, tab_key, backspace_key,
  other_key, KeyEvent, nav_char, handle_nav, handle_filter, handle_in, handle_key, Input, pressed,
  passed, unless_quit, run_inputs,
}
use tcp_visr.Tui.Keys.Steady.{
  Handles, if-Handles, going_on-Handles, steady, freeze-IsSound, space_key-Gives,
  open_detail-IsSound, close_detail-IsSound, cycle_detail_view-IsSound, enter_filter-IsSound,
  confirm_filter-IsSound, go_faster-IsSound, go_slower-IsSound, sorted-IsSound, toggle_dir-IsSound,
}

module _ (texts : Texts) (live : Bool) where
  nav_char-Handles :
      (app : App) (c : ℕ) → IsSound texts live app → Handles texts live (nav_char texts app c)
  unfolding nav_char
  nav_char-Handles app c s =
      let f = freeze_if_live app in
      let k = freeze-IsSound texts live app s in
      if-Handles texts live (c == 113) _ _ ((app, quit), refl, s)
        (if-Handles texts live (c == 115) _ _
          (steady texts live _ (sorted-IsSound texts live app s))
          (if-Handles texts live (c == 83) _ _
            (steady texts live _ (toggle_dir-IsSound texts live app s))
            (if-Handles texts live (c == 47) _ _
              (steady texts live _ (enter_filter-IsSound texts live app s))
              (if-Handles texts live (c == 106) _ _
                (going_on-Handles texts live _ (move_by-Gives texts live app down s))
                (if-Handles texts live (c == 107) _ _
                  (going_on-Handles texts live _ (move_by-Gives texts live app up s))
                  (if-Handles texts live (c == 32) _ _
                    (going_on-Handles texts live _ (space_key-Gives texts live app s))
                    (if-Handles texts live (c == 43 || c == 61) _ _
                      (steady texts live _ (go_faster-IsSound texts live app s))
                      (if-Handles texts live (c == 45 || c == 95) _ _
                        (steady texts live _ (go_slower-IsSound texts live app s))
                        (if-Handles texts live (c == 46) _ _
                          (going_on-Handles texts live _ (step_forward-Gives texts live f k))
                          (if-Handles texts live (c == 44) _ _
                            (going_on-Handles texts live _ (step_back-Gives texts live f k))
                            (steady texts live app s)))))))))))

  handle_nav-Handles :
      (app : App) (code : KeyCode)
      → IsSound texts live app
      → Handles texts live (handle_nav texts app code)
  unfolding handle_nav
  handle_nav-Handles app (char c) s = nav_char-Handles app c s
  handle_nav-Handles app down_key s =
      going_on-Handles texts live _ (move_by-Gives texts live app down s)
  handle_nav-Handles app up_key s =
      going_on-Handles texts live _ (move_by-Gives texts live app up s)
  handle_nav-Handles app left_key s =
      going_on-Handles texts live _
        (seek_app-Gives texts live (freeze_if_live app) false (freeze-IsSound texts live app s))
  handle_nav-Handles app right_key s =
      going_on-Handles texts live _
        (seek_app-Gives texts live (freeze_if_live app) true (freeze-IsSound texts live app s))
  handle_nav-Handles app enter_key s = steady texts live _ (open_detail-IsSound texts live app s)
  handle_nav-Handles app esc_key s = steady texts live _ (close_detail-IsSound texts live app s)
  handle_nav-Handles app tab_key s =
      steady texts live _ (cycle_detail_view-IsSound texts live app s)
  handle_nav-Handles app backspace_key s = steady texts live app s
  handle_nav-Handles app other_key s = steady texts live app s

  handle_filter-IsSound :
      (app : App) (code : KeyCode)
      → IsSound texts live app
      → IsSound texts live (handle_filter texts app code)
  unfolding handle_filter push_filter pop_filter cancel_filter
  handle_filter-IsSound app (char c) s = reconcile_selection-IsSound texts live _ s.within s.fixed
  handle_filter-IsSound app enter_key s = confirm_filter-IsSound texts live app s
  handle_filter-IsSound app esc_key s = reconcile_selection-IsSound texts live _ s.within s.fixed
  handle_filter-IsSound app backspace_key s =
      reconcile_selection-IsSound texts live _ s.within s.fixed
  handle_filter-IsSound app up_key s = s
  handle_filter-IsSound app down_key s = s
  handle_filter-IsSound app left_key s = s
  handle_filter-IsSound app right_key s = s
  handle_filter-IsSound app tab_key s = s
  handle_filter-IsSound app other_key s = s

  handle_in-Handles :
      (mode : Mode) (app : App) (code : KeyCode)
      → IsSound texts live app
      → Handles texts live (handle_in texts mode app code)
  handle_in-Handles nav app code s = handle_nav-Handles app code s
  handle_in-Handles filter_input app code s =
      ((handle_filter texts app code, continue_run), refl, handle_filter-IsSound app code s)

  pub handle_key-Handles :
      (app : App) (key : KeyEvent)
      → IsSound texts live app
      → Handles texts live (handle_key texts app key)
  unfolding handle_key
  handle_key-Handles app key s =
      if-Handles texts live _ _ _ ((app, quit), refl, s) (handle_in-Handles app.mode app key.code s)

  on_outcome :
      (inputs : List Input) (next : App) (outcome : Outcome)
      → IsSound texts live next
      → Gives texts live (run_inputs texts inputs next)
      → Gives texts live (unless_quit (run_inputs texts inputs) (next, outcome))
  on_outcome inputs next continue_run s g = g
  on_outcome inputs next quit s g = (next, refl, s)

  run_inputs-Gives :
      (inputs : List Input) (app : App)
      → IsSound texts live app
      → Gives texts live (run_inputs texts inputs app)
  unfolding run_inputs
  run_inputs-Gives [] app s = (app, refl, s)
  run_inputs-Gives (pressed key ∷ inputs) app s =
      let ((next, outcome), e, k) = handle_key-Handles app key s in
      rw e (on_outcome inputs next outcome k (run_inputs-Gives inputs next k))
  run_inputs-Gives (passed dt ∷ inputs) app s =
      let (next, e, k) = tick_app-Gives texts live app dt s in rw e (run_inputs-Gives inputs next k)

-- From the start of a replay over a time line in order, with 64-bit times, any keys and passing
-- times run without a panic, until a key quits. The cursor is then within the time line, and the
-- selected connection is in a visible row; none is selected only where no row is visible.
pub run_inputs-selected :
    (texts : Texts) (timeline : Timeline) (names : NameTable) (title : Text) (inputs : List Input)
    → (bounds timeline).0 ≤ (bounds timeline).1
    → (bounds timeline).1 < u64_mod
    → (app : App) × (run_inputs texts inputs (new_with_names texts timeline names title) ≡ some app)
      × IsWithin app.transport
      × Stands app.selected (visible texts app)
run_inputs-selected texts timeline names title inputs h w =
    let start =
      new_with_names-IsSound texts false timeline names title
        (new_transport-IsWithin (bounds timeline).0 (bounds timeline).1 h w) in
    let (app, e, s) = run_inputs-Gives texts false inputs _ start in
    (app, e, s.within, s.stands refl)
