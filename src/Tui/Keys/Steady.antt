-- ===== src/Tui/Keys/Steady.antt =====
-- Of app.rs: what each operation that a key calls leaves of the selection and the transport.
use tcp_visr.Base.{
  ◌≡◌, refl, sym, ◌∙◌, subst, if_of_false, if_of_true, Bool, true, false, if◌then◌else◌, Option,
  some, is_some, Bool-cases, inl, inr,
}
use tcp_visr.Tui.Transport.{faster, slower}
use tcp_visr.Tui.Transport.Bounds.{set_cursor-IsWithin, faster-IsWithin, slower-IsWithin}
use tcp_visr.Tui.App.{Texts, App, Outcome, continue_run, visible}
use tcp_visr.Tui.App.Commands.{
  open_detail, close_detail, cycle_detail_view, go_faster, go_slower, cycle_sort, toggle_dir,
  enter_filter, confirm_filter, freeze_if_live, toggle_follow,
}
use tcp_visr.Tui.App.Selection.{IsSound, Gives, toggle_app_play-Gives, resorted-IsSound}
use tcp_visr.Tui.Keys.{going_on, space_key}

module _ (texts : Texts) (live : Bool) where
  -- A key that is handled without a panic, and what it leaves is sound.
  abbrev pub Handles : Option (App × Outcome) → Type 0
  Handles x = (r : App × Outcome) × (x ≡ some r) × IsSound texts live r.0

  pub if-Handles :
      (b : Bool) (x y : Option (App × Outcome))
      → Handles x
      → Handles y
      → Handles (if b then x else y)
  if-Handles true x y p q = p
  if-Handles false x y p q = q

  pub if-IsSound :
      (b : Bool) (x y : App)
      → IsSound texts live x
      → IsSound texts live y
      → IsSound texts live (if b then x else y)
  if-IsSound true x y p q = p
  if-IsSound false x y p q = q

  pub if-Gives :
      (b : Bool) (x y : Option App)
      → Gives texts live x
      → Gives texts live y
      → Gives texts live (if b then x else y)
  if-Gives true x y p q = p
  if-Gives false x y p q = q

  apart : live ≡ true → live ≡ false → ⊥
  apart h k = cc

  pub going_on-Handles : (x : Option App) → Gives texts live x → Handles (going_on x)
  going_on-Handles x (app, e, s) = rw e ((app, continue_run), refl, s)

  pub steady : (app : App) → IsSound texts live app → Handles (going_on (some app))
  steady app s = ((app, continue_run), refl, s)

  pub freeze-IsSound :
      (app : App) → IsSound texts live app → IsSound texts live (freeze_if_live app)
  unfolding freeze_if_live visible
  freeze-IsSound app s =
      if-IsSound app.is_live _ app
        (record { within = s.within; stands = s.stands; fixed = s.fixed }) s

  -- Following moves the cursor without a look at the rows, in live capture only.
  pub toggle_follow-Gives :
      (app : App) → live ≡ true → IsSound texts live app → Gives texts live (toggle_follow app)
  unfolding toggle_follow
  toggle_follow-Gives app l s =
      let (t, e, w) = set_cursor-IsWithin app.transport app.transport.end s.within in
      if-Gives app.follow _ _
        (_, refl, record { within = s.within; stands = λ z. absurd (apart l z); fixed = s.fixed })
        (rw e (_, refl, record { within = w; stands = λ z. absurd (apart l z); fixed = s.fixed }))

  pub space_key-Gives :
      (app : App) → IsSound texts live app → Gives texts live (space_key texts app)
  space_key-Gives app s = elim (Bool-cases app.is_live) [
    | inl h ↦
        subst (Gives texts live) (sym (if_of_true app.is_live _ _ h))
          (toggle_follow-Gives app (sym s.fixed ∙ h) s)
    | inr h ↦
        subst (Gives texts live) (sym (if_of_false app.is_live _ _ h))
          (toggle_app_play-Gives texts live app s)
  ]

  -- The operations that leave the rows and the selection.
  pub open_detail-IsSound :
      (app : App) → IsSound texts live app → IsSound texts live (open_detail app)
  unfolding open_detail visible
  open_detail-IsSound app s = elim (Bool-cases (is_some app.selected)) [
    | inl e ↦ rw e (record { within = s.within; stands = s.stands; fixed = s.fixed })
    | inr e ↦ rw e s
  ]

  pub close_detail-IsSound :
      (app : App) → IsSound texts live app → IsSound texts live (close_detail app)
  unfolding close_detail visible
  close_detail-IsSound app s = record { within = s.within; stands = s.stands; fixed = s.fixed }

  pub cycle_detail_view-IsSound :
      (app : App) → IsSound texts live app → IsSound texts live (cycle_detail_view app)
  unfolding cycle_detail_view visible
  cycle_detail_view-IsSound app s = record { within = s.within; stands = s.stands; fixed = s.fixed }

  pub enter_filter-IsSound :
      (app : App) → IsSound texts live app → IsSound texts live (enter_filter app)
  unfolding enter_filter visible
  enter_filter-IsSound app s = record { within = s.within; stands = s.stands; fixed = s.fixed }

  pub confirm_filter-IsSound :
      (app : App) → IsSound texts live app → IsSound texts live (confirm_filter app)
  unfolding confirm_filter visible
  confirm_filter-IsSound app s = record { within = s.within; stands = s.stands; fixed = s.fixed }

  pub go_faster-IsSound : (app : App) → IsSound texts live app → IsSound texts live (go_faster app)
  unfolding go_faster visible faster
  go_faster-IsSound app s = record {
    within = faster-IsWithin app.transport s.within;
    stands = s.stands;
    fixed = s.fixed;
  }

  pub go_slower-IsSound : (app : App) → IsSound texts live app → IsSound texts live (go_slower app)
  unfolding go_slower visible slower
  go_slower-IsSound app s = record {
    within = slower-IsWithin app.transport s.within;
    stands = s.stands;
    fixed = s.fixed;
  }

  pub sorted-IsSound : (app : App) → IsSound texts live app → IsSound texts live (cycle_sort app)
  unfolding cycle_sort
  sorted-IsSound app s = resorted-IsSound texts live app _ _ s

  pub toggle_dir-IsSound :
      (app : App) → IsSound texts live app → IsSound texts live (toggle_dir app)
  unfolding toggle_dir
  toggle_dir-IsSound app s = resorted-IsSound texts live app app.sort_field _ s
