-- ===== src/Cli/Live/Drain.antt =====
-- Of the live session: what sending an event and draining the channel keep.
use tcp_visr.Base.{
  ◌≡◌, refl, ◌∙◌, arith, ◌≤◌, ◌<◌, max, u64_mod, Bool, true, false, not, ltb, if◌then◌else◌, some,
  List, [], ◌∷◌, length, is_some, All, All-append, length-snoc, Bool-cases, inl, inr,
}
use tcp_visr.Core.Segment.{Item, segment, tick}
use tcp_visr.Engine.Config.{window}
use tcp_visr.Engine.Tracker.{Tracker}
use tcp_visr.Engine.Tracker.Invariant.{Inv, observe_item-Inv}
use tcp_visr.Engine.Tracker.Clock.{clock_after, observe_item-now}
use tcp_visr.Ingest.Live.{LiveEvent, item_event, name_event}
use tcp_visr.Tui.App.{Texts, visible}
use tcp_visr.Tui.App.Commands.{observe_host}
use tcp_visr.Tui.App.Selection.{IsSound}
use tcp_visr.Cli.Live.{
  Session, try_send_or_count, take_event, take_all, drain, Action, send, key, frame,
}

-- The time of an item has 64 bits.
abbrev pub IsTimed : LiveEvent → Type 0
IsTimed (item_event (segment seg)) = seg.ts < u64_mod
IsTimed (item_event (tick at)) = at < u64_mod
IsTimed (name_event obs) = Unit

abbrev pub SendsTimed : Action → Type 0
SendsTimed (send ev) = IsTimed ev
SendsTimed (key k) = Unit
SendsTimed (frame skips elapsed) = Unit

-- What holds of the session between any two steps.
pub record IsRunning (texts : Texts) (s : Session) : Type 0 where
  pub tracked : Inv s.tracker
  pub clock : s.tracker.now < u64_mod
  pub timed : All IsTimed s.queue
  pub fits : length s.queue ≤ 65536
  pub sound : IsSound texts true s.app

clock_after-lt :
    (t : Tracker) (i : Item) → t.now < u64_mod → IsTimed (item_event i) → clock_after t i < u64_mod
unfolding clock_after
clock_after-lt t (segment seg) h k = omega (arith, h, k)
clock_after-lt t (tick at) h k = if-lt (not (is_some (window t.config.retention)))
  where
    if-lt : (b : Bool) → (if b then t.now else max t.now at) < u64_mod
    if-lt true = h
    if-lt false = omega (arith, h, k)

module _ (texts : Texts) where
  pub try_send-IsRunning :
      (s : Session) (ev : LiveEvent)
      → IsTimed ev
      → IsRunning texts s
      → IsRunning texts (try_send_or_count s ev)
  unfolding try_send_or_count
  try_send-IsRunning s ev t v = elim (Bool-cases (ltb (length s.queue) 65536)) [
    | inl h ↦
        let l = length-snoc s.queue ev in
        rw h (record {
          tracked = v.tracked;
          clock = v.clock;
          timed = All-append IsTimed s.queue (ev ∷ []) v.timed (t, tt);
          fits = ground (arith, l);
          sound = v.sound;
        })
    | inr h ↦ rw h (record {
      tracked = v.tracked;
      clock = v.clock;
      timed = v.timed;
      fits = v.fits;
      sound = v.sound;
    })
  ]

  take_event-IsRunning :
      (s : Session) (ev : LiveEvent)
      → IsTimed ev
      → IsRunning texts s
      → (u : Session) × (take_event s ev ≡ some u) × IsRunning texts u × (u.queue ≡ s.queue)
  unfolding take_event observe_host visible
  take_event-IsRunning s (item_event i) t v =
      let (u, e, w, _) = observe_item-Inv s.tracker i v.tracked in
      let n = observe_item-now s.tracker u i e in
      let l = clock_after-lt s.tracker i v.clock t in
      rw e (
        _,
        refl,
        record {
          tracked = w;
          clock = omega (arith, n, l);
          timed = v.timed;
          fits = v.fits;
          sound = v.sound;
        },
        refl,
      )
  take_event-IsRunning s (name_event obs) t v = (
    _,
    refl,
    record {
      tracked = v.tracked;
      clock = v.clock;
      timed = v.timed;
      fits = v.fits;
      sound = record { within = v.sound.within; stands = v.sound.stands; fixed = v.sound.fixed };
    },
    refl,
  )

  take_all-IsRunning :
      (evs : List LiveEvent) (s : Session)
      → All IsTimed evs
      → IsRunning texts s
      → (u : Session) × (take_all evs s ≡ some u) × IsRunning texts u × (u.queue ≡ s.queue)
  unfolding take_all
  take_all-IsRunning [] s t v = (s, refl, v, refl)
  take_all-IsRunning (ev ∷ evs) s t v =
      let (m, e, w, q) = take_event-IsRunning s ev t.0 v in
      let (u, f, x, r) = take_all-IsRunning evs m t.1 w in (u, rw e f, x, r ∙ q)

  pub drain-IsRunning :
      (s : Session)
      → IsRunning texts s
      → (u : Session) × (drain s ≡ some u) × IsRunning texts u × (u.queue ≡ [])
  unfolding drain
  drain-IsRunning s v =
      take_all-IsRunning s.queue (record s { queue = [] }) v.timed
        (record {
          tracked = v.tracked;
          clock = v.clock;
          timed = tt;
          fits = omega arith;
          sound = v.sound;
        })
