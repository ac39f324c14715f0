-- ===== src/Engine/Metrics/History.antt =====
-- The rates of a direction after a run against all that it sent.
use tcp_visr.Base.{
  ℕ, ◌≤◌, ◌<◌, ◌≡◌, refl, Bool, true, false, List, [], ◌∷◌, ◌++◌, append-nil, append_assoc, All,
  if◌then◌else◌,
}
use tcp_visr.Core.Time.{Nanos}
use tcp_visr.Core.Segment.{Segment}
use tcp_visr.Engine.Conn.{Direction, o2r, r2o}
use tcp_visr.Engine.Config.{EngineConfig}
use tcp_visr.Engine.Metrics.{
  Sent, DirState, MetricState, dir_state, opposite, new_metrics, observe, sender_after,
  receiver_after, classify, is_retransmit, throughput_at, put_dirs, default_dir,
}
use tcp_visr.Engine.Metrics.Frame.{sender_after-fields, receiver_after-frame}
use tcp_visr.Engine.Metrics.Window.{
  Windowed, entry, trailing, rates-Windowed, Windowed-SameWindow, window-Windowed,
}

-- A run over the segments of one connection, each with its direction.
unfoldable pub observe_all : EngineConfig → MetricState → List (Segment × Direction) → MetricState
observe_all cfg m [] = m
observe_all cfg m ((seg, dir) ∷ xs) = observe_all cfg (observe m seg dir cfg).0 xs

abbrev pub same_dir : Direction → Direction → Bool
same_dir o2r o2r = true
same_dir r2o r2o = true
same_dir _ _ = false

-- Every data segment of a direction in order, with the classification that its sample reports.
unfoldable pub sent_log :
    EngineConfig → MetricState → Direction → List (Segment × Direction) → List Sent
sent_log cfg m dir [] = []
sent_log cfg m dir ((seg, d) ∷ xs) =
    (if same_dir dir d then entry (observe m seg d cfg).1.retransmit seg else [])
    ++ sent_log cfg (observe m seg d cfg).0 dir xs

sender-Windowed :
    (cfg : EngineConfig) (seg : Segment) (d : DirState) (log : List Sent)
    → 0 < cfg.throughput_window
    → Windowed cfg.throughput_window log d
    → Windowed cfg.throughput_window
        (log ++ entry (is_retransmit (classify cfg seg d)) seg)
        (sender_after cfg seg d)
sender-Windowed cfg seg d log h v =
    Windowed-SameWindow cfg.throughput_window _ _ _ (sender_after-fields cfg seg d).window
      (window-Windowed (is_retransmit (classify cfg seg d)) seg cfg log d h v)

receiver-Windowed :
    (w : ℕ) (seg : Segment) (o : DirState) (log : List Sent)
    → Windowed w log o
    → Windowed w (log ++ []) (receiver_after seg o).0
receiver-Windowed w seg o log v =
    rw append-nil (Windowed-SameWindow w log o _ (receiver_after-frame seg o).0 v)

nothing_sent : (w : ℕ) → Windowed w [] default_dir
nothing_sent w = record {
  gone = [];
  split = refl;
  unseen = λ h. refl;
  seen = λ m h. cc;
  expired = λ m h. tt;
  latest = λ m t h. cc;
}

observe-Windowed :
    (cfg : EngineConfig) (m : MetricState) (seg : Segment) (dir d : Direction) (log : List Sent)
    → 0 < cfg.throughput_window
    → Windowed cfg.throughput_window log (dir_state m dir)
    → Windowed cfg.throughput_window
        (log ++ (if same_dir dir d then entry (observe m seg d cfg).1.retransmit seg else []))
        (dir_state (observe m seg d cfg).0 dir)
unfolding observe dir_state put_dirs opposite
observe-Windowed cfg m seg o2r o2r log h v = sender-Windowed cfg seg m.forward log h v
observe-Windowed cfg m seg r2o r2o log h v = sender-Windowed cfg seg m.backward log h v
observe-Windowed cfg m seg o2r r2o log h v = receiver-Windowed cfg.throughput_window seg _ log v
observe-Windowed cfg m seg r2o o2r log h v = receiver-Windowed cfg.throughput_window seg _ log v

observe_all-Windowed :
    (cfg : EngineConfig) (m : MetricState) (dir : Direction) (xs : List (Segment × Direction))
    (log : List Sent)
    → 0 < cfg.throughput_window
    → Windowed cfg.throughput_window log (dir_state m dir)
    → Windowed cfg.throughput_window
        (log ++ sent_log cfg m dir xs)
        (dir_state (observe_all cfg m xs) dir)
unfolding observe_all sent_log
observe_all-Windowed cfg m dir [] log h v = rw append-nil v
observe_all-Windowed cfg m dir ((seg, d) ∷ xs) log h v = rw (← append_assoc) (
    observe_all-Windowed cfg (observe m seg d cfg).0 dir xs _ h
      (observe-Windowed cfg m seg dir d log h v))

new-Windowed : (w : ℕ) (dir : Direction) → Windowed w [] (dir_state new_metrics dir)
unfolding dir_state new_metrics
new-Windowed w o2r = nothing_sent w
new-Windowed w r2o = nothing_sent w

-- With a window of positive length, after any segments, the rates of a direction at a time no
-- earlier than its data segments are those of its whole history: the bytes sent within the window
-- before that time, all of them and those not classified as retransmissions. There are none if it
-- sent no data.
pub throughput_at-history :
    (cfg : EngineConfig) (dir : Direction) (xs : List (Segment × Direction)) (t : Nanos)
    → 0 < cfg.throughput_window
    → All (λ e. e.ts ≤ t) (sent_log cfg new_metrics dir xs)
    → throughput_at (observe_all cfg new_metrics xs) dir t cfg
      ≡ trailing cfg.throughput_window t (sent_log cfg new_metrics dir xs)
unfolding throughput_at
throughput_at-history cfg dir xs t h a =
    rates-Windowed cfg t (sent_log cfg new_metrics dir xs) _ h a
      (observe_all-Windowed cfg new_metrics dir xs [] h (new-Windowed cfg.throughput_window dir))
