-- ===== src/Tui/Throughput.antt =====
-- crates/tcpvisr-tui/src/throughput.rs: throughput and goodput on a grid of cells. The inner
-- `none` is a rectangle below the minimum, the outer one a panic.
pub mod Picture
pub mod Below
use tcp_visr.Base.{
  ℕ, ◌*◌, Bool, ◌||◌, ltb, max, if◌then◌else◌, Option, none, some, List, [], ◌∷◌, ◌++◌, bind,
  map_some, saturating_sub,
}
use tcp_visr.Core.Time.{Nanos}
use tcp_visr.Core.Metric.{SampleDir}
use tcp_visr.Engine.Timeline.{ThroughputSample}
use tcp_visr.Tui.Grid.{blank}
use tcp_visr.Tui.Plot.{
  min_w, min_h, eq_dir, Geom, Reader, Plot, max_of, place_series, finish_plot, as_plot,
}

pub data Series : Type 0 where
  throughput goodput : Series

abbrev pub throughput_glyph : ℕ
throughput_glyph = 46

abbrev pub goodput_glyph : ℕ
goodput_glyph = 35

abbrev pub ThroughputPlot : Type 0
ThroughputPlot = Plot Series

abbrev pub throughput_of : Reader ThroughputSample
throughput_of = record { dir_of = λ s. s.dir; time_of = λ s. s.t; value_of = λ s. s.throughput_bps }

abbrev pub goodput_of : Reader ThroughputSample
goodput_of = record { dir_of = λ s. s.dir; time_of = λ s. s.t; value_of = λ s. s.goodput_bps }

abbrev pub rates_of : SampleDir → List ThroughputSample → List ℕ
rates_of focus [] = []
rates_of focus (s ∷ ss) =
    let rest = rates_of focus ss in
    if eq_dir s.dir focus then s.throughput_bps ∷ s.goodput_bps ∷ rest else rest

abbrev pub throughput_geom :
    List ThroughputSample → SampleDir → Nanos × Nanos → Nanos → ℕ → ℕ → Geom
throughput_geom wire focus x_span cursor width height = record {
  focus = focus;
  t0 = x_span.0;
  span_t = saturating_sub x_span.1 x_span.0;
  top = max_of (rates_of focus wire);
  width = width;
  height = height;
  cursor = cursor;
}

-- On a geometry, where the rectangle is not too small.
unfoldable pub project_on :
    Geom → List ThroughputSample → Nanos × Nanos → Option (Option ThroughputPlot)
project_on g wire x_span =
    bind
      (λ grid.
        map_some (λ drawn. some (as_plot g x_span drawn)) (finish_plot g throughput x_span.1 grid))
      (bind (place_series goodput_of g wire goodput goodput_glyph) (
        place_series throughput_of g wire throughput throughput_glyph (blank (g.width * g.height))))

unfoldable pub project :
    List ThroughputSample
    → SampleDir
    → Nanos × Nanos
    → Nanos
    → ℕ
    → ℕ
    → Option (Option ThroughputPlot)
project wire focus x_span cursor width height =
    let drawn = project_on (throughput_geom wire focus x_span cursor width height) wire x_span in
    if ltb width min_w || ltb height min_h then some none else drawn
