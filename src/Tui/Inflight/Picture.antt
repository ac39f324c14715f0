-- ===== src/Tui/Inflight/Picture.antt =====
-- The bytes in flight that inflight.rs projects, against a picture described cell by cell.
use tcp_visr.Base.{◌≡◌, refl, arith, ℕ, ◌*◌, ◌≤◌, ◌<◌, false, ltb, Option, none, some, List}
use tcp_visr.Core.Time.{Nanos}
use tcp_visr.Core.Metric.{SampleDir}
use tcp_visr.Engine.Timeline.{InFlightSample}
use tcp_visr.Tui.Grid.{blank}
use tcp_visr.Tui.Grid.Shows.{blank-Shows, with_cursor}
use tcp_visr.Tui.Grid.Picture.{picture}
use tcp_visr.Tui.Plot.{Geom, Mark, cursor_col, cursor_mark}
use tcp_visr.Tui.Plot.Tallest.{tallest}
use tcp_visr.Tui.Plot.Place.{overlay, place_series-Shows, finish_plot-picture}
use tcp_visr.Tui.Inflight.{
  Series, bytes_reader, cwnd_glyph, cwnd_series, wire_glyph, wire_series, InFlightPlot,
  in_flight_geom, project_on, project,
}

-- What each cell shows: the series placed last wins it, and the cursor's column the free cells.
abbrev pub cells :
    Geom → List InFlightSample → List InFlightSample → Nanos → ℕ → ℕ → Option (Mark Series)
cells g wire overlaid t1 =
    with_cursor (cursor_mark wire_series (cursor_col g t1)) (cursor_col g t1) (
      overlay g cwnd_series cwnd_glyph (tallest bytes_reader g overlaid)
        (overlay g wire_series wire_glyph (tallest bytes_reader g wire) (λ c r. none)))

abbrev pub whole_plot :
    Geom → List InFlightSample → List InFlightSample → Nanos × Nanos → InFlightPlot
whole_plot g wire overlaid x_span = record {
  plot_width = g.width;
  plot_height = g.height;
  max_value = g.top;
  x_span = x_span;
  cursor_at = cursor_col g x_span.1;
  marks = picture (λ c r m. m) (cells g wire overlaid x_span.1) g.width g.height;
}

project_on-picture :
    (g : Geom) (wire overlaid : List InFlightSample) (x_span : Nanos × Nanos)
    → 0 < g.width
    → g.width < 65536
    → 0 < g.height
    → g.t0 ≤ x_span.1
    → project_on g wire overlaid x_span ≡ some (some (whole_plot g wire overlaid x_span))
unfolding project_on
project_on-picture g wire overlaid x_span hw hv hh ht =
    let (g1, e1, s1) =
      place_series-Shows bytes_reader g wire wire_series wire_glyph _ (blank (g.width * g.height))
        hw hv hh (blank-Shows g.width g.height) in
    let (g2, e2, s2) =
      place_series-Shows bytes_reader g overlaid cwnd_series cwnd_glyph _ g1 hw hv hh s1 in
    let f = finish_plot-picture g wire_series x_span.1 _ g2 hw ht s2 in rw e1 (rw e2 (rw f refl))

-- On a rectangle that is not too small, of 16-bit width, and a span in order, the projection does
-- not panic, and its marks are, row by row from the bottom, the picture in which each column shows
-- each series in the row of its tallest sample by the cursor, a later series over an earlier one, and
-- the cursor's column is drawn in the free cells.
pub project-in_flight_picture :
    (wire overlaid : List InFlightSample) (focus : SampleDir) (x_span : Nanos × Nanos)
    (cursor : Nanos) (width height : ℕ)
    → 8 ≤ width
    → width < 65536
    → 3 ≤ height
    → x_span.0 ≤ x_span.1
    → project wire overlaid focus x_span cursor width height
      ≡ some (
          some (
            whole_plot
              (in_flight_geom wire overlaid focus x_span cursor width height)
              wire
              overlaid
              x_span))
unfolding project
project-in_flight_picture wire overlaid focus x_span cursor width height hw hv hh ht =
    let wide : ltb width 8 ≡ false = ground arith in
    let high : ltb height 3 ≡ false = ground arith in
    rw wide (
      rw high (
        project_on-picture (in_flight_geom wire overlaid focus x_span cursor width height) wire
          overlaid x_span (omega (arith, hw)) hv (omega (arith, hh)) ht))
