-- ===== src/Cli/Live/Sent.antt =====
-- Of the live session: what was sent reaches the screen.
use tcp_visr.Base.{
  ◌≡◌, refl, ap, sym, ◌∙◌, arith, ℕ, suc, ◌+◌, ◌≤◌, ◌<◌, ◌⊎◌, true, false, ltb, Option, some, List,
  [], ◌∷◌, ◌++◌, length, append_assoc, append-nil, bind, All, Bool-cases, inl, inr, if_of_true,
  if_of_false, length-snoc, leb,
}
use tcp_visr.Core.Time.{Nanos}
use tcp_visr.Engine.Tracker.{Tracker, new_tracker, observe_items}
use tcp_visr.Ingest.Live.{LiveEvent}
use tcp_visr.Tui.App.{Texts, App, Outcome, continue_run, quit}
use tcp_visr.Tui.Keys.Replay.{handle_key-Handles}
use tcp_visr.Cli.Config.{live_engine_config}
use tcp_visr.Cli.Live.{
  Session, Titles, new_session, try_send_or_count, next_frame, after_key, Action, send, key, frame,
  act, run_session,
}
use tcp_visr.Cli.Live.Order.{items_of, items_of-append, observe_items-append}
use tcp_visr.Cli.Live.Drain.{SendsTimed, IsRunning, try_send-IsRunning}
use tcp_visr.Cli.Live.Screen.{
  IsShown, next_frame-IsRunning, after_key-IsRunning, run_session-IsRunning, new_session-IsRunning,
}

-- The events that the capture thread sends, in order.
abbrev pub sends : List Action → List LiveEvent
sends [] = []
sends (send ev ∷ acts) = ev ∷ sends acts
sends (key k ∷ acts) = sends acts
sends (frame skips elapsed ∷ acts) = sends acts

-- The tracker once it has observed what waits, and then the events.
abbrev reached : Session → List LiveEvent → Option Tracker
reached s evs = observe_items s.tracker (items_of (s.queue ++ evs))

-- A step from `s` to `m` in which `evs` are sent loses and reorders nothing: observing what waits
-- and then anything sent later comes to the same.
abbrev IsCarried : Session → List LiveEvent → Session → Type 0
IsCarried s evs m =
    (length m.queue ≤ suc (length s.queue))
    × ((later : List LiveEvent) → reached s (evs ++ later) ≡ reached m later)

module _ (texts : Texts) (titles : Titles) where
  send-IsCarried :
      (s : Session) (ev : LiveEvent)
      → length s.queue < 65536
      → IsCarried s (ev ∷ []) (try_send_or_count s ev)
  unfolding try_send_or_count
  send-IsCarried s ev h =
      let room : ltb (length s.queue) 65536 ≡ true = ground arith in
      rw room (
        omega (arith, length-snoc s.queue ev),
        λ later.
            ap (λ q. observe_items s.tracker (items_of q))
              (sym (append_assoc s.queue (ev ∷ []) later)),
      )

  key-IsCarried : (s : Session) (r : App × Outcome) → IsCarried s [] (after_key s r)
  key-IsCarried s (app, continue_run) = (omega arith, λ later. refl)
  key-IsCarried s (app, quit) = (omega arith, λ later. refl)

  frame-IsCarried : (s u : Session) → IsShown texts titles s u → IsCarried s [] u
  frame-IsCarried s u (empty, observed, _, _, _) = (
    rw empty (omega arith),
    λ later.
        ap (observe_items s.tracker) (items_of-append s.queue later)
        ∙ (observe_items-append s.tracker (items_of s.queue) (items_of later) observed
            ∙ ap (λ q. observe_items u.tracker (items_of (q ++ later))) (sym empty)),
  )

  act-IsCarried :
      (s : Session) (a : Action)
      → SendsTimed a
      → IsRunning texts s
      → length s.queue < 65536
      → (m : Session) × (act texts titles s a ≡ some m)
        × IsRunning texts m
        × IsCarried s (sends (a ∷ [])) m
  unfolding act
  act-IsCarried s (send ev) t v h =
      (_, refl, try_send-IsRunning texts s ev t v, send-IsCarried s ev h)
  act-IsCarried s (key k) t v h =
      let (r, e, x) = handle_key-Handles texts true s.app k v.sound in
      rw e (_, refl, after_key-IsRunning texts titles s r v x, key-IsCarried s r)
  act-IsCarried s (frame skips elapsed) t v h =
      let (u, e, w, shown) = next_frame-IsRunning texts titles s skips elapsed v in
      (u, e, w, frame-IsCarried s u shown)

  sends-cons : (a : Action) (acts : List Action) → sends (a ∷ acts) ≡ sends (a ∷ []) ++ sends acts
  sends-cons (send ev) acts = refl
  sends-cons (key k) acts = refl
  sends-cons (frame skips elapsed) acts = refl

  -- A run that no key quits, of no more actions than the channel has room for.
  run_session-reached :
      (acts : List Action) (s : Session) {r : Session}
      → All SendsTimed acts
      → IsRunning texts s
      → length s.queue + length acts ≤ 65536
      → run_session texts titles acts s ≡ some r
      → r.done ≡ false
      → reached s (sends acts) ≡ reached r []
  unfolding run_session
  run_session-reached [] s {r} t v h e alive = let same : s ≡ r = cc in ap (λ u. reached u []) same
  run_session-reached (a ∷ acts) s {r} t v h e alive =
      let (m, f, w, (grows, carried)) = act-IsCarried s a t.0 v (omega arith) in
      elim (Bool-cases s.done) [
        | inl quits ↦
            let stop = if_of_true s.done _ _ quits in
            let same : s ≡ r = let back = sym stop ∙ e in cc in
            let false_done : s.done ≡ false = rw same alive in cc
        | inr runs ↦
            let rest : run_session texts titles acts m ≡ some r =
              sym (ap (bind (run_session texts titles acts)) f)
              ∙ (sym (if_of_false s.done _ _ runs) ∙ e) in
            ap (reached s) (sends-cons a acts)
            ∙ (carried (sends acts) ∙ run_session-reached acts m t.1 w (omega arith) rest alive)
      ]

-- After any run of the live session with 64-bit times, a frame does not panic. It observes what
-- waits in the channel in order and learns its names, leaves nothing waiting, shows the tracker's
-- snapshot, and leaves the selection on a visible row, or nothing selected where there is none. If no
-- key has quit and there were at most 65,536 actions, the tracker has then observed every item that
-- was sent since the start, in the order of sending.
pub next_frame-shows :
    (texts : Texts) (titles : Titles) (retention_secs : ℕ) (acts : List Action) (skips : ℕ)
    (elapsed : Nanos)
    → All SendsTimed acts
    → (s u : Session) × (run_session texts titles acts (new_session texts titles retention_secs)
        ≡ some s)
      × (next_frame texts titles skips elapsed s ≡ some u)
      × IsShown texts titles s u
      × ((s.done ≡ true)
          ⊎ (65536 < length acts)
          ⊎ (observe_items (new_tracker (live_engine_config retention_secs)) (items_of (sends acts))
              ≡ some u.tracker))
unfolding new_session
next_frame-shows texts titles retention_secs acts skips elapsed t =
    let start = new_session-IsRunning texts titles retention_secs in
    let (s, e, v) = run_session-IsRunning texts titles acts _ t start in
    let (u, f, w, shown) = next_frame-IsRunning texts titles s skips elapsed v in
    (
      s,
      u,
      e,
      f,
      shown,
      elim (Bool-cases s.done) [
        | inl quits ↦ inl quits
        | inr alive ↦ elim (Bool-cases (leb (length acts) 65536)) [
          | inr long ↦ inr (inl (ground arith))
          | inl fits ↦
              let all = run_session-reached texts titles acts _ t start (ground arith) e alive in
              inr (
                inr (
                  all
                  ∙ (ap (λ q. observe_items s.tracker (items_of q)) (append-nil s.queue)
                      ∙ shown.1)))
        ]
      ],
    )
