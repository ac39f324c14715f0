-- ===== src/Tui/Tests.antt =====
-- Runs of the charts at small rectangles.
use tcp_visr.Base.{
  ◌≡◌, refl, arith, ℕ, ◌<◌, true, false, Option, none, some, List, [], ◌∷◌, map_some, map, pos,
  get_elem?,
}
use tcp_visr.Core.Metric.{origin_to_responder, responder_to_origin}
use tcp_visr.Engine.Timeline.{
  RttSample, ThroughputSample, SeqSample, InFlightSample, data_mark, sack_mark,
}
use tcp_visr.Tui.Grid.{loop, put, draw_cursor, collect_row, collect_marks}
use tcp_visr.Tui.Plot.{
  Geom, Mark, Plot, peaks, place_from, place_series, finish_plot, scale_to, col, row,
}
use tcp_visr.Tui.Transport.{clamp}
use tcp_visr.Tui.Throughput.{throughput_of, goodput_of, throughput_geom}
use tcp_visr.Tui.Throughput.Below.{peaks-Below, Below}
use tcp_visr.Tui.Rtt
use tcp_visr.Tui.Inflight
use tcp_visr.Tui.Detail.{project_seq, seq_geom}
use tcp_visr.Tui.Detail.Picture.{project_seq-picture, whole_seq_plot}

abbrev round_trips : List RttSample
round_trips =
    record { t = 0; dir = origin_to_responder; rtt = 10; srtt = 10 }
    ∷ record { t = 50; dir = responder_to_origin; rtt = 99; srtt = 99 }
    ∷ record { t = 60; dir = origin_to_responder; rtt = 40; srtt = 14 }
    ∷ record { t = 100; dir = origin_to_responder; rtt = 20; srtt = 15 }
    ∷ []

abbrev kernel_trips : List RttSample
kernel_trips = record { t = 60; dir = origin_to_responder; rtt = 0; srtt = 40 } ∷ []

abbrev cell {ℓ} : {S : Type ℓ} → Mark S → ℕ × ℕ × ℕ
cell m = (m.col_at, m.row_at, m.glyph)

abbrev cells_of {ℓ} : {S : Type ℓ} → Option (Plot S) → List (ℕ × ℕ × ℕ)
cells_of none = []
cells_of (some p) = map cell p.marks

-- The kernel's mark wins the cell of the raw one; the cursor is drawn where the column is free.
rtt_marks :
    map_some cells_of (Rtt.project round_trips kernel_trips origin_to_responder (0, 100) 60 8 3)
    ≡ some ((0, 0, 35) ∷ (4, 0, 35) ∷ (4, 1, 0x250a) ∷ (4, 2, 43) ∷ [])
unfolding Rtt.project Rtt.project_on place_series place_from peaks finish_plot loop put draw_cursor
    collect_row collect_marks scale_to col row clamp
rtt_marks = refl

project-rtt_picture_example :
    Rtt.project round_trips kernel_trips origin_to_responder (0, 100) 60 8 3
    ≡ some (
        some (
          Rtt.Picture.whole_plot
            (Rtt.rtt_geom round_trips kernel_trips origin_to_responder (0, 100) 60 8 3)
            round_trips
            kernel_trips
            (0, 100)))
project-rtt_picture_example =
    Rtt.Picture.project-rtt_picture round_trips kernel_trips origin_to_responder (0, 100) 60 8 3
      (omega arith) (omega arith) (omega arith) (omega arith)

abbrev flight : List InFlightSample
flight =
    record { t = 10; dir = origin_to_responder; bytes = 1000 }
    ∷ record { t = 20; dir = origin_to_responder; bytes = 4000 }
    ∷ []

project-in_flight_picture_example :
    Inflight.project flight [] origin_to_responder (0, 100) 60 8 3
    ≡ some (
        some (
          Inflight.Picture.whole_plot
            (Inflight.in_flight_geom flight [] origin_to_responder (0, 100) 60 8 3)
            flight
            []
            (0, 100)))
project-in_flight_picture_example =
    Inflight.Picture.project-in_flight_picture flight [] origin_to_responder (0, 100) 60 8 3
      (omega arith) (omega arith) (omega arith) (omega arith)

abbrev good_rates : List ThroughputSample
good_rates =
    record { t = 0; dir = origin_to_responder; throughput_bps = 800; goodput_bps = 800 }
    ∷ record { t = 90; dir = origin_to_responder; throughput_bps = 800; goodput_bps = 300 }
    ∷ []

abbrev rates_geom : Geom
rates_geom = throughput_geom good_rates origin_to_responder (0, 100) 100 8 3

peaks-Below_example :
    (ps qs : List (Option ℕ)) × (peaks throughput_of rates_geom good_rates ≡ some ps)
    × (peaks goodput_of rates_geom good_rates ≡ some qs)
    × ((c : ℕ)
        → c < 8
        → (p q : Option ℕ) × (get_elem? ps c ≡ some p) × (get_elem? qs c ≡ some q) × Below q p)
peaks-Below_example =
    peaks-Below rates_geom good_rates (omega arith) (omega arith, (omega arith, tt))

abbrev sequence : List SeqSample
sequence =
    record {
      t = 0;
      dir = origin_to_responder;
      rel = pos 0;
      len = 100;
      kind = data_mark false false;
    }
    ∷ record {
      t = 0;
      dir = origin_to_responder;
      rel = pos 0;
      len = 100;
      kind = data_mark true false;
    }
    ∷ record {
      t = 80;
      dir = origin_to_responder;
      rel = pos 100;
      len = 100;
      kind = data_mark false true;
    }
    ∷ record { t = 80; dir = origin_to_responder; rel = pos 200; len = 0; kind = sack_mark }
    ∷ []

project_seq-picture_example :
    project_seq sequence origin_to_responder (0, 100) 90 8 3
    ≡ some
        (some (whole_seq_plot (seq_geom sequence origin_to_responder (0, 100) 90 8 3) sequence 100))
project_seq-picture_example =
    project_seq-picture sequence origin_to_responder 0 100 90 8 3 (omega arith) (omega arith)
      (omega arith)
