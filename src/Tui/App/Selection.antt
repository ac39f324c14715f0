-- ===== src/Tui/App/Selection.antt =====
-- Of app.rs: each operation leaves the selection on a visible row, and does not panic.
use tcp_visr.Base.{
  ◌≡◌, refl, sym, subst, arith, ℕ, zero, suc, ◌-◌, ◌<◌, Bool, true, false, ◌==◌, Option, none, some,
  List, [], ◌∷◌, length, get_elem?, get_elem?-some, map_some, Option-cases, Bool-cases, inl, inr,
}
use tcp_visr.Core.Time.{Nanos}
use tcp_visr.Core.Name.{NameTable}
use tcp_visr.Engine.Conn.{ConnId, eq_id}
use tcp_visr.Engine.Conn.Order.{eq_id_iff}
use tcp_visr.Engine.Timeline.{Timeline, bounds}
use tcp_visr.Tui.Transport.{Transport, seek, seek_target, toggle_play, new_transport}
use tcp_visr.Tui.Transport.Bounds.{
  IsWithin, set_cursor-IsWithin, toggle_play-IsWithin, tick-IsWithin,
}
use tcp_visr.Tui.App.{Text, Texts, App, SortField, SortDir, ConnRow, visible, leq_row}
use tcp_visr.Tui.App.Commands.{
  first_id, has_id, still_visible, position, moved, Step, up, down, next_row, reconcile_selection,
  new_with_names, toggle_app_play, seek_app, step_to, step_forward, step_back, tick_app,
  current_row, move_in, move_by,
}
use tcp_visr.Tui.App.Visible.{Stands, sorted-Stands, Stands-sorted}

-- The transport is within its domain, and in a replay the selection is on a visible row, or there
-- is no row.
pub record IsSound (texts : Texts) (live : Bool) (app : App) : Type 0 where
  pub within : IsWithin app.transport
  pub stands : live ≡ false → Stands app.selected (visible texts app)
  pub fixed : app.is_live ≡ live

eq_id_refl : (id : ConnId) → eq_id id id ≡ true
eq_id_refl id = let h = eq_id_iff id id in ground arith

pub first_id-Stands : (rows : List ConnRow) → Stands (first_id rows) rows
first_id-Stands [] = refl
first_id-Stands (r ∷ rs) = rw (eq_id_refl r.id) refl

still_visible-Stands :
    (s : Option ConnId) (rows : List ConnRow) → still_visible s rows ≡ true → Stands s rows
still_visible-Stands none rows h = cc
still_visible-Stands (some id) rows h = h

get_elem?-has_id :
    (rows : List ConnRow) (i : ℕ) (r : ConnRow)
    → get_elem? rows i ≡ some r
    → has_id r.id rows ≡ true
get_elem?-has_id [] i r h = cc
get_elem?-has_id (s ∷ ss) zero r h = let e : s ≡ r = cc in rw e (rw (eq_id_refl r.id) refl)
get_elem?-has_id (s ∷ ss) (suc i) r h = let k = get_elem?-has_id ss i r h in ground arith

position-lt :
    (id : ConnId) (rows : List ConnRow) (i : ℕ) → position id rows ≡ some i → i < length rows
unfolding position
position-lt id [] i h = cc
position-lt id (r ∷ rs) i h = elim (Bool-cases (eq_id r.id id)) [
  | inl e ↦ let k : some 0 ≡ some i = rw e at h in let z : 0 ≡ i = cc in rw (sym z) (omega arith)
  | inr e ↦ elim (Option-cases (position id rs)) [
    | inl n ↦ let k = rw n at (rw e at h) in cc
    | inr (j, f) ↦
        let k : some (suc j) ≡ some i = rw f at (rw e at h) in
        let z : suc j ≡ i = cc in let l = position-lt id rs j f in omega (arith, l, z)
  ]
]

current_row-lt :
    (s : Option ConnId) (rows : List ConnRow) → 0 < length rows → current_row s rows < length rows
current_row-lt none rows h = h
current_row-lt (some id) rows h = elim (Option-cases (position id rows)) [
  | inl e ↦ rw e h
  | inr (i, e) ↦ rw e (position-lt id rows i e)
]

next_row-lt : (step : Step) (cur n : ℕ) → cur < n → next_row step cur (n - 1) < n
next_row-lt up cur n h = omega (arith, h)
next_row-lt down cur n h = omega (arith, h)

module _ (texts : Texts) (live : Bool) where
  pub reconcile_selection-IsSound :
      (app : App)
      → IsWithin app.transport
      → app.is_live ≡ live
      → IsSound texts live (reconcile_selection texts app)
  unfolding reconcile_selection visible
  reconcile_selection-IsSound app w l =
      elim (Bool-cases (still_visible app.selected (visible texts app))) [
        | inl e ↦ rw e (record {
          within = w;
          stands = λ z. still_visible-Stands app.selected (visible texts app) e;
          fixed = l;
        })
        | inr e ↦
            rw e
              (record { within = w; stands = λ z. first_id-Stands (visible texts app); fixed = l })
      ]

  pub reconcile_selection-Stands :
      (app : App)
      → Stands
          (reconcile_selection texts app).selected
          (visible texts (reconcile_selection texts app))
  unfolding reconcile_selection visible
  reconcile_selection-Stands app =
      elim (Bool-cases (still_visible app.selected (visible texts app))) [
        | inl e ↦ rw e (still_visible-Stands app.selected (visible texts app) e)
        | inr e ↦ rw e (first_id-Stands (visible texts app))
      ]

  pub reconcile_selection-timeline :
      (app : App) → (reconcile_selection texts app).timeline ≡ app.timeline
  unfolding reconcile_selection
  reconcile_selection-timeline app =
      elim (Bool-cases (still_visible app.selected (visible texts app))) [
        | inl e ↦ rw e refl
        | inr e ↦ rw e refl
      ]

  pub reconcile_selection-host_names :
      (app : App) → (reconcile_selection texts app).host_names ≡ app.host_names
  unfolding reconcile_selection
  reconcile_selection-host_names app =
      elim (Bool-cases (still_visible app.selected (visible texts app))) [
        | inl e ↦ rw e refl
        | inr e ↦ rw e refl
      ]

  -- An operation that may panic does not, and what it leaves is sound.
  abbrev pub Gives : Option App → Type 0
  Gives x = (app : App) × (x ≡ some app) × IsSound texts live app

  pub moved-Gives :
      (app : App) (t : Option Transport)
      → (u : Transport) × (t ≡ some u) × IsWithin u
      → app.is_live ≡ live
      → Gives (map_some (λ u. reconcile_selection texts (moved app u)) t)
  moved-Gives app t (u, e, w) l = rw e (_, refl, reconcile_selection-IsSound (moved app u) w l)

  pub seek_app-Gives :
      (app : App) (forward : Bool) → IsSound texts live app → Gives (seek_app texts app forward)
  unfolding seek_app seek
  seek_app-Gives app forward s =
      moved-Gives app _
        (set_cursor-IsWithin app.transport (seek_target app.transport forward) s.within) s.fixed

  step_to-Gives :
      (app : App) (at : Option Nanos) → IsSound texts live app → Gives (step_to texts app at)
  step_to-Gives app none s = (app, refl, s)
  step_to-Gives app (some t) s =
      moved-Gives app _ (set_cursor-IsWithin app.transport t s.within) s.fixed

  pub step_forward-Gives : (app : App) → IsSound texts live app → Gives (step_forward texts app)
  unfolding step_forward
  step_forward-Gives app s = step_to-Gives app _ s

  pub step_back-Gives : (app : App) → IsSound texts live app → Gives (step_back texts app)
  unfolding step_back
  step_back-Gives app s = step_to-Gives app _ s

  pub toggle_app_play-Gives :
      (app : App) → IsSound texts live app → Gives (some (toggle_app_play texts app))
  unfolding toggle_app_play
  toggle_app_play-Gives app s = (
    _,
    refl,
    reconcile_selection-IsSound (moved app (toggle_play app.transport))
        (toggle_play-IsWithin app.transport s.within) s.fixed,
  )

  -- A transport whose cursor did not move shows the same rows.
  same_cursor-Stands :
      (app : App) (t : Transport)
      → t.cursor ≡ app.transport.cursor
      → Stands app.selected (visible texts app)
      → Stands app.selected (visible texts (moved app t))
  unfolding visible
  same_cursor-Stands app t e h = rw e h

  pub tick_app-Gives :
      (app : App) (dt : Nanos) → IsSound texts live app → Gives (tick_app texts app dt)
  unfolding tick_app
  tick_app-Gives app dt s =
      let (t, e, w) = tick-IsWithin app.transport dt s.within in
      rw e (elim (Bool-cases (t.cursor == app.transport.cursor)) [
        | inl k ↦
            let same : t.cursor ≡ app.transport.cursor = ground arith in
            rw k (
              moved app t,
              refl,
              record {
                within = w;
                stands = λ z. same_cursor-Stands app t same (s.stands z);
                fixed = s.fixed;
              },
            )
        | inr k ↦ rw k (_, refl, reconcile_selection-IsSound (moved app t) w s.fixed)
      ])

  move_in-Gives :
      (app : App) (step : Step) (rows : List ConnRow)
      → rows ≡ visible texts app
      → IsSound texts live app
      → Gives (move_in app step rows)
  unfolding visible
  move_in-Gives app step [] e s =
      (_, refl, record { within = s.within; stands = λ z. sym e; fixed = s.fixed })
  move_in-Gives app step (r ∷ rs) e s =
      let rows = r ∷ rs in
      let cur = current_row app.selected rows in
      let l = current_row-lt app.selected rows (omega arith) in
      let (q, f) =
        get_elem?-some rows (next_row step cur (length rows - 1))
          (next_row-lt step cur (length rows) l) in
      rw f (
        _,
        refl,
        record {
          within = s.within;
          stands = λ z. subst (λ xs. has_id q.id xs ≡ true) e (get_elem?-has_id rows _ q f);
          fixed = s.fixed;
        },
      )

  pub move_by-Gives :
      (app : App) (step : Step) → IsSound texts live app → Gives (move_by texts app step)
  unfolding move_by
  move_by-Gives app step s = move_in-Gives app step (visible texts app) refl s

  -- Another order of the rows.
  pub resorted-IsSound :
      (app : App) (field : SortField) (dir : SortDir)
      → IsSound texts live app
      → IsSound texts live (record app { sort_field = field; sort_dir = dir })
  unfolding visible
  resorted-IsSound app field dir s = record {
    within = s.within;
    stands = λ z.
        sorted-Stands (leq_row field dir) app.selected _
          (Stands-sorted (leq_row app.sort_field app.sort_dir) app.selected _ (s.stands z));
    fixed = s.fixed;
  }

  pub new_with_names-IsSound :
      (timeline : Timeline) (names : NameTable) (title : Text)
      → IsWithin (new_transport (bounds timeline).0 (bounds timeline).1)
      → IsSound texts false (new_with_names texts timeline names title)
  unfolding new_with_names visible
  new_with_names-IsSound timeline names title w = record {
    within = w;
    stands = λ z. first_id-Stands _;
    fixed = refl;
  }
