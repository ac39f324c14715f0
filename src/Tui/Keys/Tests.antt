-- ===== src/Tui/Keys/Tests.antt =====
-- Runs of the terminal interface on two connections.
use tcp_visr.Base.{◌≡◌, arith, ℕ, false, some, List, [], ◌∷◌}
use tcp_visr.Core.Name.{empty_table}
use tcp_visr.Engine.State.{established}
use tcp_visr.Engine.Conn.{Connection}
use tcp_visr.Engine.Timeline.{Timeline, Entry, bounds}
use tcp_visr.Engine.Fixtures.{client, server}
use tcp_visr.Tui.Transport.Bounds.{IsWithin}
use tcp_visr.Tui.App.{Texts, App, visible, is_subsequence}
use tcp_visr.Tui.App.Commands.{new_with_names}
use tcp_visr.Tui.App.Subsequence.{stands_in, is_subsequence-stands_in}
use tcp_visr.Tui.App.Visible.{Stands}
use tcp_visr.Tui.Keys.{Input, pressed, passed, char, down_key, run_inputs}
use tcp_visr.Tui.Keys.Replay.{run_inputs-selected}

-- Every endpoint reads "a", every state "b".
abbrev texts : Texts
texts = record { endpoint_text = λ _. 97 ∷ []; state_text = λ _. 98 ∷ []; to_lowercase = λ t. t }

abbrev connection : ℕ → ℕ → Connection
connection number opened = record {
  id = record { pair = record { low = client; high = server }; instance_no = number };
  state = established;
  origin = client;
  responder = server;
  origin_inferred = false;
  opened_at = opened;
  last_at = 90;
  bytes_o2r = 7;
  bytes_r2o = 0;
  segments = 2;
}

abbrev entry : ℕ → ℕ → Entry
entry number opened = record {
  conn = connection number opened;
  samples = record { t = opened; state = established; bytes_o2r = 1; bytes_r2o = 0 } ∷ [];
  seq = [];
  inflight = [];
  rtt = [];
  throughput = [];
  effective_end = 100;
}

abbrev capture : Timeline
capture = record {
  entries = entry 0 0 ∷ entry 1 50 ∷ [];
  start = 0;
  end = 100;
  event_times = 0 ∷ 50 ∷ [];
}

-- Down, play, a tick past the second opening, down, and a filter that no row passes.
abbrev inputs : List Input
inputs =
    pressed (record { control = false; code = down_key })
    ∷ pressed (record { control = false; code = char 32 })
    ∷ passed 60
    ∷ pressed (record { control = false; code = down_key })
    ∷ pressed (record { control = false; code = char 47 })
    ∷ pressed (record { control = false; code = char 122 })
    ∷ []

run_inputs-selected_example :
    (app : App) × (run_inputs texts inputs (new_with_names texts capture empty_table []) ≡ some app)
    × IsWithin app.transport
    × Stands app.selected (visible texts app)
unfolding bounds
run_inputs-selected_example =
    run_inputs-selected texts capture empty_table [] inputs (omega arith) (omega arith)

is_subsequence-stands_in_example :
    is_subsequence (97 ∷ 98 ∷ []) (98 ∷ 97 ∷ 99 ∷ 98 ∷ [])
    ≡ stands_in (97 ∷ 98 ∷ []) (98 ∷ 97 ∷ 99 ∷ 98 ∷ [])
is_subsequence-stands_in_example = is_subsequence-stands_in (97 ∷ 98 ∷ []) (98 ∷ 97 ∷ 99 ∷ 98 ∷ [])
