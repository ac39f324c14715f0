-- ===== src/Tui/Keys.antt =====
-- crates/tcpvisr-tui/src/keys.rs: what a key press does in each mode, and the loop of run.rs that
-- feeds keys and ticks to the state.
pub mod Steady
pub mod Replay
mod Tests
use tcp_visr.Base.{
  ℕ, Bool, true, false, ◌&&◌, ◌||◌, ◌==◌, if◌then◌else◌, Option, none, some, List, [], ◌∷◌, bind,
  map_some,
}
use tcp_visr.Core.Time.{Nanos}
use tcp_visr.Tui.App.{Texts, App, Mode, nav, filter_input, Outcome, continue_run, quit}
use tcp_visr.Tui.App.Commands.{
  up, down, open_detail, close_detail, cycle_detail_view, go_faster, go_slower, cycle_sort,
  toggle_dir, enter_filter, confirm_filter, freeze_if_live, toggle_follow, toggle_app_play,
  seek_app, step_forward, step_back, tick_app, push_filter, pop_filter, cancel_filter, move_by,
}

pub data KeyCode : Type 0 where
  char : ℕ → KeyCode
  up_key down_key left_key right_key enter_key esc_key tab_key backspace_key other_key : KeyCode

pub record KeyEvent : Type 0 where
  pub control : Bool
  pub code : KeyCode

-- The key that was handled, and whether to go on.
abbrev pub going_on : Option App → Option (App × Outcome)
going_on = map_some (λ app. (app, continue_run))

module _ (texts : Texts) where
  abbrev pub space_key : App → Option App
  space_key app = if app.is_live then toggle_follow app else some (toggle_app_play texts app)

  unfoldable pub nav_char : App → ℕ → Option (App × Outcome)
  nav_char app c =
      if c == 113
      then some (app, quit)
      else if c == 115
      then going_on (some (cycle_sort app))
      else if c == 83
      then going_on (some (toggle_dir app))
      else if c == 47
      then going_on (some (enter_filter app))
      else if c == 106
      then going_on (move_by texts app down)
      else if c == 107
      then going_on (move_by texts app up)
      else if c == 32
      then going_on (space_key app)
      else if c == 43 || c == 61
      then going_on (some (go_faster app))
      else if c == 45 || c == 95
      then going_on (some (go_slower app))
      else if c == 46
      then going_on (step_forward texts (freeze_if_live app))
      else if c == 44
      then going_on (step_back texts (freeze_if_live app))
      else going_on (some app)

  unfoldable pub handle_nav : App → KeyCode → Option (App × Outcome)
  handle_nav app (char c) = nav_char app c
  handle_nav app down_key = going_on (move_by texts app down)
  handle_nav app up_key = going_on (move_by texts app up)
  handle_nav app left_key = going_on (seek_app texts (freeze_if_live app) false)
  handle_nav app right_key = going_on (seek_app texts (freeze_if_live app) true)
  handle_nav app enter_key = going_on (some (open_detail app))
  handle_nav app esc_key = going_on (some (close_detail app))
  handle_nav app tab_key = going_on (some (cycle_detail_view app))
  handle_nav app backspace_key = going_on (some app)
  handle_nav app other_key = going_on (some app)

  unfoldable pub handle_filter : App → KeyCode → App
  handle_filter app enter_key = confirm_filter app
  handle_filter app esc_key = cancel_filter texts app
  handle_filter app backspace_key = pop_filter texts app
  handle_filter app (char c) = push_filter texts app c
  handle_filter app _ = app

  abbrev pub is_char_c : KeyCode → Bool
  is_char_c (char c) = c == 99
  is_char_c _ = false

  abbrev pub handle_in : Mode → App → KeyCode → Option (App × Outcome)
  handle_in nav app code = handle_nav app code
  handle_in filter_input app code = some (handle_filter app code, continue_run)

  unfoldable pub handle_key : App → KeyEvent → Option (App × Outcome)
  handle_key app key =
      if key.control && is_char_c key.code
      then some (app, quit)
      else handle_in app.mode app key.code

-- What the loop of run.rs feeds: a key press, or the time since the last turn.
pub data Input : Type 0 where
  pressed : KeyEvent → Input
  passed : Nanos → Input

-- The loop goes on with the later inputs unless it is to quit.
abbrev pub unless_quit : (App → Option App) → App × Outcome → Option App
unless_quit later (app, continue_run) = later app
unless_quit later (app, quit) = some app

unfoldable pub run_inputs : Texts → List Input → App → Option App
run_inputs texts [] app = some app
run_inputs texts (pressed key ∷ inputs) app =
    bind (unless_quit (run_inputs texts inputs)) (handle_key texts app key)
run_inputs texts (passed dt ∷ inputs) app = bind (run_inputs texts inputs) (tick_app texts app dt)
