-- ===== src/Tui/App/Commands.antt =====
-- crates/tcpvisr-tui/src/app.rs, the methods that change the state, and keys.rs, which maps key
-- presses to them. `none` is a panic of the transport.
use tcp_visr.Base.{
  ℕ, suc, ◌+◌, ◌-◌, min, Bool, true, false, ◌||◌, ◌==◌, if◌then◌else◌, Option, none, some, List, [],
  ◌∷◌, bind, map_some, is_some, snoc, length, get_elem?, saturating_sub, lookup, insert,
  retain_keys,
}
use tcp_visr.Core.Time.{Nanos}
use tcp_visr.Core.Name.{NameTable, NameObservation, observe_name, empty_table}
use tcp_visr.Engine.Conn.{ConnId, Connection, eq_id}
use tcp_visr.Engine.Conn.Order.{id_eq}
use tcp_visr.Engine.Timeline.{Timeline, bounds, connections, next_event, prev_event, new_timeline}
use tcp_visr.Tui.Transport.{
  Transport, new_transport, toggle_play, faster, slower, seek, set_cursor, set_domain, tick,
}
use tcp_visr.Tui.App.{
  Text, Texts, App, ConnRow, ConnMeta, SortField, by_peer, by_state, by_bytes_up, by_bytes_down,
  SortDir, asc, desc, nav, filter_input, DetailView, time_sequence_view, in_flight_view, rtt_view,
  throughput_view, LiveStatus, default_status, meta_for, visible,
}

-- `first().map(|r| r.id)`
abbrev pub first_id : List ConnRow → Option ConnId
first_id [] = none
first_id (r ∷ rs) = some r.id

abbrev pub has_id : ConnId → List ConnRow → Bool
has_id id [] = false
has_id id (r ∷ rs) = eq_id r.id id || has_id id rs

abbrev pub still_visible : Option ConnId → List ConnRow → Bool
still_visible none rows = false
still_visible (some id) rows = has_id id rows

-- `iter().position(..)`
unfoldable pub position : ConnId → List ConnRow → Option ℕ
position id [] = none
position id (r ∷ rs) =
    let rest = map_some suc (position id rs) in if eq_id r.id id then some 0 else rest

abbrev pub or_first_row : Option ℕ → ℕ
or_first_row none = 0
or_first_row (some i) = i

abbrev pub has_conn : ConnId → List Connection → Bool
has_conn id [] = false
has_conn id (c ∷ cs) = eq_id c.id id || has_conn id cs

unfoldable pub natural_dir : SortField → SortDir
natural_dir by_peer = asc
natural_dir by_state = asc
natural_dir by_bytes_up = desc
natural_dir by_bytes_down = desc

abbrev pub next_field : SortField → SortField
next_field by_peer = by_state
next_field by_state = by_bytes_up
next_field by_bytes_up = by_bytes_down
next_field by_bytes_down = by_peer

abbrev pub next_view : DetailView → DetailView
next_view time_sequence_view = in_flight_view
next_view in_flight_view = rtt_view
next_view rtt_view = throughput_view
next_view throughput_view = time_sequence_view

abbrev pub other_dir : SortDir → SortDir
other_dir asc = desc
other_dir desc = asc

-- `String::pop`, without its result.
abbrev pub without_last : Text → Text
without_last [] = []
without_last (c ∷ []) = []
without_last (c ∷ d ∷ cs) = c ∷ without_last (d ∷ cs)

pub data Step : Type 0 where
  up down : Step

abbrev pub next_row : Step → ℕ → ℕ → ℕ
next_row up cur last = saturating_sub cur 1
next_row down cur last = min (cur + 1) last

-- The operations that do not look at the rows.
unfoldable pub open_detail : App → App
open_detail app = if is_some app.selected then record app { detail_open = true } else app

unfoldable pub close_detail : App → App
close_detail app = record app { detail_open = false }

unfoldable pub cycle_detail_view : App → App
cycle_detail_view app = record app { detail_view = next_view app.detail_view }

unfoldable pub go_faster : App → App
go_faster app = record app { transport = faster app.transport }

unfoldable pub go_slower : App → App
go_slower app = record app { transport = slower app.transport }

unfoldable pub cycle_sort : App → App
cycle_sort app =
    let field = next_field app.sort_field in
    record app { sort_field = field; sort_dir = natural_dir field }

unfoldable pub toggle_dir : App → App
toggle_dir app = record app { sort_dir = other_dir app.sort_dir }

unfoldable pub enter_filter : App → App
enter_filter app = record app { mode = filter_input }

unfoldable pub confirm_filter : App → App
confirm_filter app = record app { mode = nav }

unfoldable pub set_title : App → Text → App
set_title app title = record app { title = title }

unfoldable pub freeze_if_live : App → App
freeze_if_live app = if app.is_live then record app { follow = false } else app

unfoldable pub observe_host : App → NameObservation → App
observe_host app obs = record app { host_names = observe_name app.host_names obs }

-- The app with a transport that was moved.
abbrev pub moved : App → Transport → App
moved app t = record app { transport = t }

-- The selection stays where the cursor is moved to the end.
unfoldable pub toggle_follow : App → Option App
toggle_follow app =
    let to_end =
      map_some (moved (record app { follow = true }))
        (set_cursor app.transport app.transport.end) in
    if app.follow then some (record app { follow = false }) else to_end

abbrev pub missing : List (ConnId × ConnMeta) → List Connection → List Connection
missing metas [] = []
missing metas (c ∷ cs) =
    let rest = missing metas cs in if is_some (lookup c.id metas) then rest else c ∷ rest

abbrev pub follow_to : Bool → Nanos → Transport → Option Transport
follow_to follow now t = let to_now = set_cursor t now in if follow then to_now else some t

abbrev pub select_row : App → Option ConnRow → Option App
select_row app none = none
select_row app (some r) = some (record app { selected = some r.id })

abbrev pub current_row : Option ConnId → List ConnRow → ℕ
current_row none rows = 0
current_row (some id) rows = or_first_row (position id rows)

abbrev pub move_in : App → Step → List ConnRow → Option App
move_in app step [] = some (record app { selected = none })
move_in app step (r ∷ rs) =
    let rows = r ∷ rs in
    select_row app
      (get_elem? rows (next_row step (current_row app.selected rows) (length rows - 1)))

module _ (texts : Texts) where
  unfoldable pub reconcile_selection : App → App
  reconcile_selection app =
      let rows = visible texts app in
      if still_visible app.selected rows then app else record app { selected = first_id rows }

  -- `HashMap::insert` of each connection's metadata.
  unfoldable pub insert_metas :
      NameTable → List Connection → List (ConnId × ConnMeta) → List (ConnId × ConnMeta)
  insert_metas names [] metas = metas
  insert_metas names (c ∷ cs) metas =
      insert_metas names cs (insert c.id (meta_for texts names c) metas)

  unfoldable pub new_with_names : Timeline → NameTable → Text → App
  new_with_names timeline names title =
      let app : App = record {
        timeline = timeline;
        transport = new_transport (bounds timeline).0 (bounds timeline).1;
        metas = insert_metas names (connections timeline) [];
        sort_field = by_peer;
        sort_dir = asc;
        mode = nav;
        query = [];
        selected = none;
        title = title;
        detail_open = false;
        detail_view = time_sequence_view;
        is_live = false;
        follow = false;
        live_status = default_status;
        host_names = names;
      } in
      record app { selected = first_id (visible texts app) }

  unfoldable pub new_app : Timeline → Text → App
  new_app timeline title = new_with_names timeline empty_table title

  unfoldable pub new_live : NameTable → Text → App
  new_live names title = record (new_with_names (new_timeline []) names title) {
    is_live = true;
    follow = true;
  }

  -- The metadata of the new timeline's connections: what is kept, and what is new.
  unfoldable pub next_metas :
      NameTable → List (ConnId × ConnMeta) → List Connection → List (ConnId × ConnMeta)
  next_metas names metas present =
      let kept = retain_keys (λ id. has_conn id present) metas in
      insert_metas names (missing kept present) kept

  unfoldable pub retarget : App → Timeline → Nanos → Nanos → LiveStatus → Option App
  retarget app timeline horizon now status =
      let next : App = record app {
        metas = next_metas app.host_names app.metas (connections timeline);
        timeline = timeline;
        live_status = status;
      } in
      map_some (λ t. reconcile_selection (moved next t))
        (bind (follow_to app.follow now) (set_domain app.transport horizon now))

  unfoldable pub toggle_app_play : App → App
  toggle_app_play app = reconcile_selection (moved app (toggle_play app.transport))

  unfoldable pub seek_app : App → Bool → Option App
  seek_app app forward =
      map_some (λ t. reconcile_selection (moved app t)) (seek app.transport forward)

  -- To an event, if there is one.
  abbrev pub step_to : App → Option Nanos → Option App
  step_to app none = some app
  step_to app (some t) =
      map_some (λ u. reconcile_selection (moved app u)) (set_cursor app.transport t)

  unfoldable pub step_forward : App → Option App
  step_forward app = step_to app (next_event app.timeline app.transport.cursor)

  unfoldable pub step_back : App → Option App
  step_back app = step_to app (prev_event app.timeline app.transport.cursor)

  unfoldable pub tick_app : App → Nanos → Option App
  tick_app app dt =
      map_some
        (λ t.
          if t.cursor == app.transport.cursor
          then moved app t
          else reconcile_selection (moved app t))
        (tick app.transport dt)

  unfoldable pub push_filter : App → ℕ → App
  push_filter app c = reconcile_selection (record app { query = snoc app.query c })

  unfoldable pub pop_filter : App → App
  pop_filter app = reconcile_selection (record app { query = without_last app.query })

  unfoldable pub cancel_filter : App → App
  cancel_filter app = reconcile_selection (record app { query = []; mode = nav })

  unfoldable pub move_by : App → Step → Option App
  move_by app step = move_in app step (visible texts app)
