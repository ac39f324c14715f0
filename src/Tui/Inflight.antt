-- ===== src/Tui/Inflight.antt =====
-- crates/tcpvisr-tui/src/inflight.rs: bytes in flight and the congestion window on a grid. The inner
-- `none` is a rectangle below the minimum, the outer one a panic.
pub mod Picture
use tcp_visr.Base.{
  ℕ, ◌*◌, Bool, ◌||◌, ltb, max, if◌then◌else◌, Option, none, some, List, [], ◌∷◌, ◌++◌, bind,
  map_some, saturating_sub,
}
use tcp_visr.Core.Time.{Nanos}
use tcp_visr.Core.Metric.{SampleDir}
use tcp_visr.Engine.Timeline.{InFlightSample}
use tcp_visr.Tui.Grid.{blank}
use tcp_visr.Tui.Plot.{
  min_w, min_h, eq_dir, Geom, Reader, Plot, max_of, place_series, finish_plot, as_plot,
}

pub data Series : Type 0 where
  wire_series cwnd_series : Series

abbrev pub wire_glyph : ℕ
wire_glyph = 35

abbrev pub cwnd_glyph : ℕ
cwnd_glyph = 43

abbrev pub InFlightPlot : Type 0
InFlightPlot = Plot Series

abbrev pub bytes_reader : Reader InFlightSample
bytes_reader = record { dir_of = λ s. s.dir; time_of = λ s. s.t; value_of = λ s. s.bytes }

abbrev pub plotted_bytes : SampleDir → List InFlightSample → List ℕ
plotted_bytes focus [] = []
plotted_bytes focus (s ∷ ss) =
    let rest = plotted_bytes focus ss in if eq_dir s.dir focus then s.bytes ∷ rest else rest

abbrev pub in_flight_geom :
    List InFlightSample → List InFlightSample → SampleDir → Nanos × Nanos → Nanos → ℕ → ℕ → Geom
in_flight_geom wire overlay focus x_span cursor width height = record {
  focus = focus;
  t0 = x_span.0;
  span_t = saturating_sub x_span.1 x_span.0;
  top = max_of (plotted_bytes focus (wire ++ overlay));
  width = width;
  height = height;
  cursor = cursor;
}

-- On a geometry, where the rectangle is not too small.
unfoldable pub project_on :
    Geom → List InFlightSample → List InFlightSample → Nanos × Nanos → Option (Option InFlightPlot)
project_on g wire overlay x_span =
    bind
      (λ grid.
        map_some (λ drawn. some (as_plot g x_span drawn)) (finish_plot g wire_series x_span.1 grid))
      (bind (place_series bytes_reader g overlay cwnd_series cwnd_glyph)
        (place_series bytes_reader g wire wire_series wire_glyph (blank (g.width * g.height))))

unfoldable pub project :
    List InFlightSample
    → List InFlightSample
    → SampleDir
    → Nanos × Nanos
    → Nanos
    → ℕ
    → ℕ
    → Option (Option InFlightPlot)
project wire overlay focus x_span cursor width height =
    let drawn =
      project_on (in_flight_geom wire overlay focus x_span cursor width height) wire overlay
        x_span in
    if ltb width min_w || ltb height min_h then some none else drawn
