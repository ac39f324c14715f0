-- ===== src/Engine/Metrics/Window.antt =====
-- The trailing window against the full history: what eviction drops never counts again.
use tcp_visr.Base.{
  ℕ, ◌+◌, ◌≤◌, ◌<◌, ◌≡◌, ◌≢◌, refl, sym, ap, subst, ◌∙◌, inl, inr, Bool, false, Option, none, some,
  List, [], ◌∷◌, ◌++◌, append-nil, append_assoc, arith, All, All-append, Bool-cases, Option-cases,
  snoc-ne_nil, append-eq_nil, All-map, All-append_left, All-append_right, ltb, leb, ◌==◌,
  if◌then◌else◌,
}
use tcp_visr.Core.Time.{Nanos}
use tcp_visr.Core.Segment.{Segment}
use tcp_visr.Engine.Config.{EngineConfig}
use tcp_visr.Engine.Metrics.{
  Sent, DirState, evict_window, max_seen, push_window, evict_to, window_push_and_evict, in_window,
  windowed, windowed_good, scale_bps, rates,
}
use tcp_visr.Engine.Metrics.Frame.{SameWindow}

evict_window-split :
    (w m : ℕ) (es : List Sent)
    → (gone : List Sent) × (es ≡ gone ++ evict_window w m es) × All (λ e. e.ts + w ≤ m) gone
unfolding evict_window
evict_window-split w m [] = ([], refl, tt)
evict_window-split w m (e ∷ es) = elim (Bool-cases (leb (e.ts + w) m)) [
  | inl old ↦
      let (gone, eq, a) = evict_window-split w m es in
      rw old (e ∷ gone, ap (◌∷◌ e) eq, (ground arith, a))
  | inr new ↦ rw new ([], refl, tt)
]

-- Bytes that left the window at `m` do not count at `m` or later.
windowed-expired :
    (w m t : ℕ) (gone es : List Sent)
    → m ≤ t
    → All (λ e. e.ts + w ≤ m) gone
    → (windowed w t (gone ++ es) ≡ windowed w t es)
      × (windowed_good w t (gone ++ es) ≡ windowed_good w t es)
unfolding windowed windowed_good in_window
windowed-expired w m t [] es h a = (refl, refl)
windowed-expired w m t (e ∷ gone) es h a =
    let ih = windowed-expired w m t gone es h a.1 in ground arith

-- What the window has kept of a log, and the latest time in it.
pub record Windowed (w : ℕ) (log : List Sent) (d : DirState) : Type 0 where
  pub gone : List Sent
  pub split : log ≡ gone ++ d.tput
  pub unseen : d.tput_max_ts ≡ none → log ≡ []
  pub seen : (m : ℕ) → d.tput_max_ts ≡ some m → log ≢ []
  pub expired : (m : ℕ) → d.tput_max_ts ≡ some m → All (λ e. e.ts + w ≤ m) gone
  pub latest : (m t : ℕ) → d.tput_max_ts ≡ some m → All (λ e. e.ts ≤ t) log → m ≤ t

-- The rates that the whole log gives.
abbrev pub trailing : ℕ → Nanos → List Sent → Option (ℕ × ℕ)
trailing w t [] = none
trailing w t (e ∷ es) =
    some (scale_bps (windowed w t (e ∷ es)) w, scale_bps (windowed_good w t (e ∷ es)) w)

trailing-some :
    (w t : ℕ) (log : List Sent)
    → log ≢ []
    → trailing w t log ≡ some (scale_bps (windowed w t log) w, scale_bps (windowed_good w t log) w)
trailing-some w t [] h = absurd (h refl)
trailing-some w t (e ∷ es) h = refl

rates-some :
    (cfg : EngineConfig) (t m : ℕ) (d : DirState)
    → 0 < cfg.throughput_window
    → d.tput_max_ts ≡ some m
    → rates d t cfg
      ≡ some (
        scale_bps (windowed cfg.throughput_window t d.tput) cfg.throughput_window,
        scale_bps (windowed_good cfg.throughput_window t d.tput) cfg.throughput_window,
      )
unfolding rates
rates-some cfg t m d h e = ground arith

rates-none :
    (cfg : EngineConfig) (t : ℕ) (d : DirState) → d.tput_max_ts ≡ none → rates d t cfg ≡ none
unfolding rates
rates-none cfg t d e = ground arith

pub rates-Windowed :
    (cfg : EngineConfig) (t : ℕ) (log : List Sent) (d : DirState)
    → 0 < cfg.throughput_window
    → All (λ e. e.ts ≤ t) log
    → Windowed cfg.throughput_window log d
    → rates d t cfg ≡ trailing cfg.throughput_window t log
rates-Windowed cfg t log d h a v = elim (Option-cases d.tput_max_ts) [
  | inl e ↦ rw (rates-none cfg t d e, v.unseen e)
  | inr (m, e) ↦
      let w = cfg.throughput_window in
      let same = windowed-expired w m t v.gone d.tput (v.latest m t e a) (v.expired m e) in
      rw (
        rates-some cfg t m d h e,
        trailing-some w t log (v.seen m e),
        ap (windowed w t) v.split ∙ same.0,
        ap (windowed_good w t) v.split ∙ same.1,
      )
]

-- What a segment adds to the log of its direction.
abbrev pub entry : Bool → Segment → List Sent
entry again seg =
    if ltb 0 seg.payload_len
    then record { ts = seg.ts; len = seg.payload_len; again = again } ∷ []
    else []

All-expired_mono :
    (w m n : ℕ) (es : List Sent) → m ≤ n → All (λ e. e.ts + w ≤ m) es → All (λ e. e.ts + w ≤ n) es
All-expired_mono w m n es h a =
    All-map (λ e. e.ts + w ≤ m) (λ e. e.ts + w ≤ n) es (λ e k. omega arith) a

-- The time limit only grows, and stays among the times of the log.
max_seen-bounds :
    (o : Option ℕ) (ts n : ℕ)
    → (o ≡ some n → n ≤ max_seen o ts)
      × ((t : ℕ) → (o ≡ some n → n ≤ t) → o ≡ some n → ts ≤ t → max_seen o ts ≤ t)
max_seen-bounds none ts n = (λ e. cc, λ t f e h. cc)
max_seen-bounds (some k) ts n = (λ e. ground arith, λ t f e h. ground (arith, f e))

module _ (w : ℕ) (e : Sent) (log : List Sent) (d : DirState) (v : Windowed w log d) where
  push-expired :
      (m : ℕ)
      → ◌≡◌ {A = Option ℕ} (some (max_seen d.tput_max_ts e.ts)) (some m)
      → All (λ x. x.ts + w ≤ m) v.gone
  push-expired m h = elim (Option-cases d.tput_max_ts) [
    | inl none_yet ↦
        subst (All (λ x. x.ts + w ≤ m))
          (sym (append-eq_nil v.gone d.tput (sym v.split ∙ v.unseen none_yet))) tt
    | inr (n, old) ↦
        All-expired_mono w n m v.gone (ground (arith, max_seen-bounds d.tput_max_ts e.ts n))
          (v.expired n old)
  ]

  push-latest :
      (m t : ℕ)
      → ◌≡◌ {A = Option ℕ} (some (max_seen d.tput_max_ts e.ts)) (some m)
      → All (λ x. x.ts ≤ t) (log ++ e ∷ [])
      → m ≤ t
  push-latest m t h a =
      let here = (All-append_right (λ x. x.ts ≤ t) log (e ∷ []) a).0 in
      elim (Option-cases d.tput_max_ts) [
        | inl none_yet ↦ ground arith
        | inr (n, old) ↦
            let before = v.latest n t old (All-append_left (λ x. x.ts ≤ t) log (e ∷ []) a) in
            ground arith
      ]

  push_data-Windowed :
      Windowed w
        (log ++ e ∷ [])
        (record d { tput = d.tput ++ e ∷ []; tput_max_ts = some (max_seen d.tput_max_ts e.ts) })
  push_data-Windowed = record {
    gone = v.gone;
    split = ap (λ l. l ++ e ∷ []) v.split ∙ append_assoc v.gone d.tput (e ∷ []);
    unseen = λ h. cc;
    seen = λ m h. snoc-ne_nil log e;
    expired = push-expired;
    latest = push-latest;
  }

push_window-Windowed :
    (w : ℕ) (again : Bool) (seg : Segment) (log : List Sent) (d : DirState)
    → Windowed w log d
    → Windowed w (log ++ entry again seg) (push_window again seg d)
unfolding push_window
push_window-Windowed w again seg log d v = elim (Bool-cases (ltb 0 seg.payload_len)) [
  | inl bytes ↦ rw bytes (push_data-Windowed w _ log d v)
  | inr empty ↦ rw (empty, append-nil log) v
]

evict_to-Windowed :
    (w : ℕ) (log : List Sent) (d : DirState) (o : Option ℕ)
    → d.tput_max_ts ≡ o
    → Windowed w log d
    → Windowed w log (evict_to w d o)
unfolding evict_to
evict_to-Windowed w log d none e v = v
evict_to-Windowed w log d (some m) e v =
    let (old, eq, a) = evict_window-split w m d.tput in
    record {
      gone = v.gone ++ old;
      split =
          v.split ∙ ap (◌++◌ v.gone) eq ∙ sym (append_assoc v.gone old (evict_window w m d.tput));
      unseen = v.unseen;
      seen = v.seen;
      expired = λ n h.
          All-append (λ x. x.ts + w ≤ n) v.gone old (v.expired n h)
            (All-expired_mono w m n old (ground arith) a);
      latest = v.latest;
    }

-- `Windowed` speaks of the window fields only.
pub Windowed-SameWindow :
    (w : ℕ) (log : List Sent) (d x : DirState)
    → SameWindow x d
    → Windowed w log d
    → Windowed w log x
Windowed-SameWindow w log d x s v = record {
  gone = v.gone;
  split = v.split ∙ ap (◌++◌ v.gone) (sym s.tput);
  unseen = λ h. v.unseen (sym s.tput_max_ts ∙ h);
  seen = λ m h. v.seen m (sym s.tput_max_ts ∙ h);
  expired = λ m h. v.expired m (sym s.tput_max_ts ∙ h);
  latest = λ m t h. v.latest m t (sym s.tput_max_ts ∙ h);
}

pub window-Windowed :
    (again : Bool) (seg : Segment) (cfg : EngineConfig) (log : List Sent) (d : DirState)
    → 0 < cfg.throughput_window
    → Windowed cfg.throughput_window log d
    → Windowed cfg.throughput_window
        (log ++ entry again seg)
        (window_push_and_evict again seg cfg d)
unfolding window_push_and_evict
window-Windowed again seg cfg log d h v =
    let off : (cfg.throughput_window == 0) ≡ false = ground arith in
    rw off (
      evict_to-Windowed cfg.throughput_window _ (push_window again seg d)
        (push_window again seg d).tput_max_ts refl
        (push_window-Windowed cfg.throughput_window again seg log d v))
