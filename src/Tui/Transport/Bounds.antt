-- ===== src/Tui/Transport/Bounds.antt =====
-- The cursor stays within its domain under any commands, and playback moves it as far as it says.
use tcp_visr.Base.{
  ℕ, u64_mod, ◌+◌, ◌*◌, ◌/◌, ◌≤◌, ◌<◌, ◌≡◌, min, max, refl, sym, ◌∙◌, Bool, true, false, ltb, leb,
  if◌then◌else◌, Option, none, some, List, [], ◌∷◌, All, arith, inl, inr, Bool-cases, length,
  get_elem?, get_elem?-some,
}
use tcp_visr.Core.Time.{Nanos}
use tcp_visr.Tui.Transport.{
  Transport, ratios, new_transport, toggle_play, faster, slower, clamp, place_cursor, set_cursor,
  seek_target, seek, set_domain, advance, advance_at, tick,
}

-- The calls that the application makes on the transport.
pub data Command : Type 0 where
  toggle_command faster_command slower_command : Command
  seek_command : Bool → Command
  cursor_command : Nanos → Command
  domain_command : Nanos → Nanos → Command
  tick_command : Nanos → Command

apply : Transport → Command → Option Transport
apply t toggle_command = some (toggle_play t)
apply t faster_command = some (faster t)
apply t slower_command = some (slower t)
apply t (seek_command forward) = seek t forward
apply t (cursor_command at) = set_cursor t at
apply t (domain_command start end) = set_domain t start end
apply t (tick_command dt) = tick t dt

-- A domain is given with its start no later than its end, both of 64 bits.
abbrev pub IsOrdered : Command → Type 0
IsOrdered (domain_command start end) = (start ≤ end) × (end < u64_mod)
IsOrdered _ = Unit

pub run : Transport → List Command → Option Transport
run t [] = some t
run t (c ∷ cs) = elim (apply t c) [ none ↦ none | some u ↦ run u cs ]

pub record IsWithin (t : Transport) : Type 0 where
  pub word : t.end < u64_mod
  pub ordered : t.start ≤ t.end
  pub after_start : t.start ≤ t.cursor
  pub before_end : t.cursor ≤ t.end
  pub rung : t.speed_idx < length ratios

clamp-some :
    (n low high : ℕ) → low ≤ high → (m : ℕ) × (clamp n low high ≡ some m) × (low ≤ m) × (m ≤ high)
unfolding clamp
clamp-some n low high h =
    let le : leb low high ≡ true = ground arith in
    rw le (min (max n low) high, refl, omega arith, omega arith)

pub set_cursor-IsWithin :
    (t : Transport) (at : Nanos)
    → IsWithin t
    → (u : Transport) × (set_cursor t at ≡ some u) × IsWithin u
unfolding set_cursor place_cursor
set_cursor-IsWithin t at v =
    let (m, e, low, high) = clamp-some at t.start t.end v.ordered in
    rw e (
      _,
      refl,
      record {
        word = v.word;
        ordered = v.ordered;
        after_start = low;
        before_end = high;
        rung = v.rung;
      },
    )

pub set_domain-IsWithin :
    (t : Transport) (start end : Nanos)
    → start ≤ end
    → end < u64_mod
    → IsWithin t
    → (u : Transport) × (set_domain t start end ≡ some u) × IsWithin u
unfolding set_domain place_cursor
set_domain-IsWithin t start end h w v =
    let (m, e, low, high) = clamp-some t.cursor start end h in
    rw e (
      _,
      refl,
      record { word = w; ordered = h; after_start = low; before_end = high; rung = v.rung },
    )

IsWithin-if : (b : Bool) (t u : Transport) → IsWithin t → IsWithin u → IsWithin (if b then t else u)
IsWithin-if true t u p q = p
IsWithin-if false t u p q = q

pub toggle_play-IsWithin : (t : Transport) → IsWithin t → IsWithin (toggle_play t)
unfolding toggle_play
toggle_play-IsWithin t v =
    let s = v.ordered in
    IsWithin-if t.playing _ _
      (record {
        word = v.word;
        ordered = s;
        after_start = v.after_start;
        before_end = v.before_end;
        rung = v.rung;
      })
      (IsWithin-if (leb t.end t.cursor) _ _
        (record {
          word = v.word;
          ordered = s;
          after_start = omega arith;
          before_end = s;
          rung = v.rung;
        })
        (record {
          word = v.word;
          ordered = s;
          after_start = v.after_start;
          before_end = v.before_end;
          rung = v.rung;
        }))

advance-IsWithin :
    (t : Transport) (dt : Nanos) (ratio : ℕ × ℕ) → IsWithin t → IsWithin (advance t dt ratio)
unfolding advance
advance-IsWithin t dt ratio v =
    let s = v.ordered in
    let w = v.word in
    let a = v.after_start in
    let b = v.before_end in
    record {
      word = w;
      ordered = s;
      after_start = omega arith;
      before_end = omega arith;
      rung = v.rung;
    }

pub tick-IsWithin :
    (t : Transport) (dt : Nanos) → IsWithin t → (u : Transport) × (tick t dt ≡ some u) × IsWithin u
unfolding tick advance_at
tick-IsWithin t dt v = elim (Bool-cases t.playing) [
  | inr paused ↦ simp paused (t, refl, v)
  | inl playing ↦
      let (ratio, e) = get_elem?-some ratios t.speed_idx v.rung in
      simp (playing, e) (advance t dt ratio, refl, advance-IsWithin t dt ratio v)
]

pub faster-IsWithin : (t : Transport) → IsWithin t → IsWithin (faster t)
unfolding faster
faster-IsWithin t v = record {
  word = v.word;
  ordered = v.ordered;
  after_start = v.after_start;
  before_end = v.before_end;
  rung = omega arith;
}

pub slower-IsWithin : (t : Transport) → IsWithin t → IsWithin (slower t)
unfolding slower
slower-IsWithin t v =
    let r = v.rung in
    record {
      word = v.word;
      ordered = v.ordered;
      after_start = v.after_start;
      before_end = v.before_end;
      rung = omega arith;
    }

apply-IsWithin :
    (t : Transport) (c : Command)
    → IsOrdered c
    → IsWithin t
    → (u : Transport) × (apply t c ≡ some u) × IsWithin u
unfolding apply seek set_cursor
apply-IsWithin t toggle_command o v = (_, refl, toggle_play-IsWithin t v)
apply-IsWithin t faster_command o v = (faster t, refl, faster-IsWithin t v)
apply-IsWithin t slower_command o v = (slower t, refl, slower-IsWithin t v)
apply-IsWithin t (seek_command forward) o v = set_cursor-IsWithin t (seek_target t forward) v
apply-IsWithin t (cursor_command at) o v = set_cursor-IsWithin t at v
apply-IsWithin t (domain_command start end) o v = set_domain-IsWithin t start end o.0 o.1 v
apply-IsWithin t (tick_command dt) o v = tick-IsWithin t dt v

run-IsWithin :
    (t : Transport) (cs : List Command)
    → All IsOrdered cs
    → IsWithin t
    → (u : Transport) × (run t cs ≡ some u) × IsWithin u
unfolding run
run-IsWithin t [] o v = (t, refl, v)
run-IsWithin t (c ∷ cs) o v =
    let (u, e, w) = apply-IsWithin t c o.0 v in
    let (x, e', w') = run-IsWithin u cs o.1 w in rw (e, run) (x, e', w')

pub new_transport-IsWithin :
    (start end : Nanos) → start ≤ end → end < u64_mod → IsWithin (new_transport start end)
unfolding new_transport
new_transport-IsWithin start end h w = record {
  word = w;
  ordered = h;
  after_start = omega arith;
  before_end = h;
  rung = omega arith;
}

-- From a new transport over an ordered domain of 64-bit times, any commands whose domains are
-- ordered can be run without a panic, and leave the cursor between the ends of the domain and the
-- speed on the ladder.
pub new_transport-run :
    (start end : Nanos) (cs : List Command)
    → start ≤ end
    → end < u64_mod
    → All IsOrdered cs
    → (u : Transport) × (run (new_transport start end) cs ≡ some u) × IsWithin u
new_transport-run start end cs h w o =
    run-IsWithin (new_transport start end) cs o (new_transport-IsWithin start end h w)

tick-playing :
    (t : Transport) (dt : Nanos) (ratio : ℕ × ℕ)
    → t.playing ≡ true
    → get_elem? ratios t.speed_idx ≡ some ratio
    → tick t dt ≡ some (advance t dt ratio)
unfolding tick advance_at
tick-playing t dt ratio playing at = simp (playing, at) refl

advance-cursor :
    (t : Transport) (dt : Nanos) (ratio : ℕ × ℕ)
    → IsWithin t
    → t.playing ≡ true
    → ((advance t dt ratio).cursor ≡ min (t.cursor + dt * ratio.0 / ratio.1) t.end)
      × ((advance t dt ratio).playing ≡ ltb (advance t dt ratio).cursor t.end)
      × (t.cursor ≤ (advance t dt ratio).cursor)
unfolding advance
advance-cursor t dt ratio v playing =
    let w = v.word in let b = v.before_end in (omega arith, ground arith, omega arith)

-- A tick of a playing transport on a rung moves the cursor on by the time that passed, at that
-- rung's ratio and rounded down, but not past the end; it goes on playing exactly where the end is
-- not reached.
pub tick-advance :
    (t u : Transport) (dt : Nanos) (num den : ℕ)
    → IsWithin t
    → t.playing ≡ true
    → get_elem? ratios t.speed_idx ≡ some (num, den)
    → tick t dt ≡ some u
    → (u.cursor ≡ min (t.cursor + dt * num / den) t.end)
      × (u.playing ≡ ltb u.cursor t.end)
      × (t.cursor ≤ u.cursor)
tick-advance t u dt num den v playing at e =
    let back = sym e ∙ tick-playing t dt (num, den) playing at in
    let same : u ≡ advance t dt (num, den) = cc in
    rw same (advance-cursor t dt (num, den) v playing)
