-- ===== src/Tui/Rtt.antt =====
-- crates/tcpvisr-tui/src/rtt.rs: raw and smoothed round trips, and the kernel's, on a grid. The inner
-- `none` is a rectangle below the minimum, the outer one a panic.
pub mod Picture
use tcp_visr.Base.{
  ℕ, ◌*◌, Bool, ◌||◌, ltb, max, if◌then◌else◌, Option, none, some, List, [], ◌∷◌, ◌++◌, bind,
  map_some, saturating_sub,
}
use tcp_visr.Core.Time.{Nanos}
use tcp_visr.Core.Metric.{SampleDir}
use tcp_visr.Engine.Timeline.{RttSample}
use tcp_visr.Tui.Grid.{blank}
use tcp_visr.Tui.Plot.{
  min_w, min_h, eq_dir, Geom, Reader, Plot, max_of, place_series, finish_plot, as_plot,
}

pub data Series : Type 0 where
  raw smoothed kernel : Series

abbrev pub raw_glyph : ℕ
raw_glyph = 46

abbrev pub smoothed_glyph : ℕ
smoothed_glyph = 35

abbrev pub kernel_glyph : ℕ
kernel_glyph = 43

abbrev pub RttPlot : Type 0
RttPlot = Plot Series

abbrev pub raw_of : Reader RttSample
raw_of = record { dir_of = λ s. s.dir; time_of = λ s. s.t; value_of = λ s. s.rtt }

abbrev pub smoothed_of : Reader RttSample
smoothed_of = record { dir_of = λ s. s.dir; time_of = λ s. s.t; value_of = λ s. s.srtt }

abbrev pub round_trips_of : SampleDir → List RttSample → List ℕ
round_trips_of focus [] = []
round_trips_of focus (s ∷ ss) =
    let rest = round_trips_of focus ss in if eq_dir s.dir focus then s.rtt ∷ s.srtt ∷ rest else rest

abbrev pub smoothed_values_of : SampleDir → List RttSample → List ℕ
smoothed_values_of focus [] = []
smoothed_values_of focus (s ∷ ss) =
    let rest = smoothed_values_of focus ss in if eq_dir s.dir focus then s.srtt ∷ rest else rest

abbrev pub rtt_geom :
    List RttSample → List RttSample → SampleDir → Nanos × Nanos → Nanos → ℕ → ℕ → Geom
rtt_geom wire overlay focus x_span cursor width height = record {
  focus = focus;
  t0 = x_span.0;
  span_t = saturating_sub x_span.1 x_span.0;
  top = max_of (round_trips_of focus wire ++ smoothed_values_of focus overlay);
  width = width;
  height = height;
  cursor = cursor;
}

-- On a geometry, where the rectangle is not too small.
unfoldable pub project_on :
    Geom → List RttSample → List RttSample → Nanos × Nanos → Option (Option RttPlot)
project_on g wire overlay x_span =
    bind
      (λ grid. map_some (λ drawn. some (as_plot g x_span drawn)) (finish_plot g raw x_span.1 grid))
      (bind (place_series smoothed_of g overlay kernel kernel_glyph) (
        bind (place_series smoothed_of g wire smoothed smoothed_glyph)
          (place_series raw_of g wire raw raw_glyph (blank (g.width * g.height)))))

unfoldable pub project :
    List RttSample
    → List RttSample
    → SampleDir
    → Nanos × Nanos
    → Nanos
    → ℕ
    → ℕ
    → Option (Option RttPlot)
project wire overlay focus x_span cursor width height =
    let drawn =
      project_on (rtt_geom wire overlay focus x_span cursor width height) wire overlay x_span in
    if ltb width min_w || ltb height min_h then some none else drawn
