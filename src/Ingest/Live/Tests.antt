-- ===== src/Ingest/Live/Tests.antt =====
-- Runs of both faucets, with the toy packets of the decoder's tests.
use tcp_visr.Base.{◌≡◌, refl, arith, true, some, List, [], ◌∷◌, pos, ◌≤◌, ◌+◌, map, length}
use tcp_visr.Ingest.Link.{raw_ip, from_dlt}
use tcp_visr.Ingest.Skips.{total}
use tcp_visr.Ingest.Decode.Tests.{toy}
use tcp_visr.Ingest.Replay.{parse_file, readings, block, legacy_header, nano_magic, ok}
use tcp_visr.Ingest.Live.{Running, Poll, packet, timeout, run_live, start_run}
use tcp_visr.Ingest.Live.Parity.{
  Captured, as_record, as_poll, as_parse, items_of, run_live-parse_file,
}
use tcp_visr.Ingest.Live.Counts.{run_live-accounts}

-- A segment, a name and a frame that is skipped.
abbrev packets : List Captured
packets =
    record { sec = 5; nsec = 1; origlen = 4; bytes = 6 ∷ 0 ∷ 0 ∷ 0 ∷ [] }
    ∷ record { sec = 5; nsec = 9; origlen = 2; bytes = 17 ∷ 1 ∷ [] }
    ∷ record { sec = 6; nsec = 0; origlen = 9; bytes = 1 ∷ [] }
    ∷ []

run_live-parse_file_example :
    (r : Running) × (run_live toy raw_ip true (map as_poll packets) (start_run 3) ≡ some r)
    × (parse_file toy
          (readings (block (legacy_header nano_magic (pos 101)) ∷ map as_record packets))
        ≡ some (ok (as_parse raw_ip r)))
unfolding from_dlt
run_live-parse_file_example =
    run_live-parse_file toy 101 raw_ip packets 3 (omega arith) refl
      ((omega arith, omega arith), ((omega arith, omega arith), ((omega arith, omega arith), tt)))

abbrev polls : List Poll
polls =
    packet (pos 5) (pos 1) 4 (6 ∷ 0 ∷ 0 ∷ 0 ∷ [])
    ∷ timeout 7000000000
    ∷ packet (pos 5) (pos 1) 2 (17 ∷ 1 ∷ [])
    ∷ packet (pos 5) (pos 1) 9 (1 ∷ [])
    ∷ []

run_live-accounts_example :
    (r : Running) × (run_live toy raw_ip true polls (start_run 0) ≡ some r)
    × (length (items_of r.events) + total r.skips ≤ 4)
    × (4 ≤ length r.events + total r.skips)
    × (r.diagnostic + r.skips.non_tcp_count ≡ total r.skips)
run_live-accounts_example =
    run_live-accounts toy raw_ip true polls (tt, (tt, (tt, (tt, tt)))) (omega arith)
