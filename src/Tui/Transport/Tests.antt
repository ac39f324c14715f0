-- ===== src/Tui/Transport/Tests.antt =====
-- The transport at a domain of one second.
use tcp_visr.Base.{◌+◌, ◌*◌, ◌/◌, ◌≤◌, ◌≡◌, refl, true, some, List, [], ◌∷◌, arith, min, ltb}
use tcp_visr.Tui.Transport.{Transport, new_transport, tick, advance, advance_at}
use tcp_visr.Tui.Transport.Bounds.{
  Command, toggle_command, faster_command, seek_command, domain_command, tick_command, run,
  IsWithin, new_transport-run, tick-advance,
}

abbrev commands : List Command
commands =
    toggle_command
    ∷ faster_command
    ∷ tick_command 100000000
    ∷ domain_command 500000000 2000000000
    ∷ seek_command true
    ∷ []

new_transport-run_example :
    (u : Transport) × (run (new_transport 0 1000000000) commands ≡ some u) × IsWithin u
new_transport-run_example =
    new_transport-run 0 1000000000 commands (omega arith) (omega arith)
      (tt, (tt, (tt, ((omega arith, omega arith), (tt, tt)))))

abbrev playing : Transport
playing = record { start = 0; end = 1000; cursor = 900; speed_idx = 1; playing = true }

abbrev later : Transport
later = record playing { cursor = 950 }

playing-IsWithin : IsWithin playing
playing-IsWithin = record {
  word = omega arith;
  ordered = omega arith;
  after_start = omega arith;
  before_end = omega arith;
  rung = omega arith;
}

half_speed : tick playing 101 ≡ some later
unfolding tick advance advance_at
half_speed = refl

tick-advance_example :
    (later.cursor ≡ min (900 + 101 * 1 / 2) 1000)
    × (later.playing ≡ ltb later.cursor 1000)
    × (900 ≤ later.cursor)
tick-advance_example = tick-advance playing later 101 1 2 playing-IsWithin refl refl half_speed
