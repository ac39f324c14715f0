-- ===== src/Lib.antt =====
-- tcp-visr reads TCP traffic from a capture or an interface, tracks its connections, derives their
-- metrics, and shows them on a terminal along a time line that can be sought and played. This
-- library models the program's own core and proves what makes it correct.
--
-- How the parts interact. A faucet of tcpvisr-ingest strips the link layer of each frame, decodes it
-- to a segment, and hands segments and clock ticks as items to the tracker of tcpvisr-engine. The
-- tracker groups segments by the unordered pair of their endpoints, decides when a pair starts a new
-- instance, moves the lifecycle of the instance, and lets its metric state derive a sample, which
-- the tracker records under a retention policy. The timeline is built from the recorded series and
-- answers what each connection was at a cursor time. The transport of tcpvisr-tui moves that cursor;
-- its application state lists the connections at the cursor, filtered and in order, with one selected,
-- whose series the charts project onto a grid of cells. The command line joins these: a replay reads
-- the whole file first, a live session drains a bounded channel from the capture thread each frame.
--
-- Which file models which part (paths from the root of the repository):
--   Core/Seq            crates/tcpvisr-core/src/seq.rs
--   Core/Flow           crates/tcpvisr-core/src/flow.rs and endpoint.rs
--   Core/Segment        crates/tcpvisr-core/src/segment.rs
--   Core/Metric, Time   crates/tcpvisr-core/src/metric.rs and time.rs
--   Core/Name           crates/tcpvisr-core/src/name.rs; `observe` is `observe_name`
--   Ingest/Link         crates/tcpvisr-ingest/src/link.rs
--   Ingest/Decode       crates/tcpvisr-ingest/src/decode.rs, one function for each test that returns
--   Ingest/Dns, Skips   crates/tcpvisr-ingest/src/dns.rs, and SkipCounts of lib.rs
--   Ingest/Replay       crates/tcpvisr-ingest/src/replay.rs; the sinks are lists in the state
--   Ingest/Live         crates/tcpvisr-ingest/src/live.rs; `open` is `open_live`, `run` is `run_live`
--   Ingest/Crates       what the crates etherparse and simple_dns hand over
--   Engine/State, Conn  crates/tcpvisr-engine/src/state.rs and conn.rs
--   Engine/Config       crates/tcpvisr-engine/src/config.rs
--   Engine/Metrics      crates/tcpvisr-engine/src/metrics.rs; `observe` is one function for each
--                       step, joined in `sender_after` and `receiver_after`, which update the two
--                       directions that a segment touches
--   Engine/Timeline     crates/tcpvisr-engine/src/timeline.rs
--   Engine/Track        crates/tcpvisr-engine/src/tracker.rs to line 339: one connection
--   Engine/Record       the same file, the methods `admit`, `record_*` and `collect_*`, on the one
--                       connection, the count and the flag that each call touches
--   Engine/Tracker      the same file, the tracker; `observe` is `observe_item`, its `snapshot` is
--                       `snapshot_timeline`, and the loop of `track` is `observe_items`
--   Tui/Transport       crates/tcpvisr-tui/src/transport.rs
--   Tui/Grid, Plot      what the charts of crates/tcpvisr-tui/src share: the grid, the geometry, the peaks
--   Tui/Inflight, Rtt   crates/tcpvisr-tui/src/inflight.rs and rtt.rs
--   Tui/Throughput      crates/tcpvisr-tui/src/throughput.rs
--   Tui/Detail          crates/tcpvisr-tui/src/detail.rs; `project` is `project_seq`
--   Tui/App, Service    crates/tcpvisr-tui/src/app.rs and service.rs; Tui/App/Commands has the methods
--                       that change the state, with _app or go_ where the transport has the name
--   Tui/Keys            crates/tcpvisr-tui/src/keys.rs, and the loop of run.rs
--   Cli/Config, Live    crates/tcp-visr/src/main.rs: configurations, and the live session
--   Base                the names that all share: lists, tests, words, integers, maps, sorting
-- Under each of these, the modules named for what they prove, and Tests with runs at concrete inputs.
--
-- How the model reads the code. A method on `&mut self` takes the state and returns it. An array of
-- two, indexed by direction, is a field for each. A `VecDeque` is a list with its front first; a
-- `HashMap` is an association list, whose order nothing depends on; a text is a list of bytes. A
-- panic (an index out of bounds, `clamp` with crossed bounds) is `none`, and the results show where
-- it cannot happen. Integers are native numbers: u32 and u64 arithmetic wraps as a release build
-- does (`% 2 ^ w`), or saturates where the code says so, u128 saturates likewise, and an i64 is an
-- integer with its wrap. A `usize` counts elements in memory, which keeps it far below the wrap, and
-- is a plain number; sums of u32 lengths in a u128 are plain numbers for the same reason. Loops are
-- recursion on their list. Only the loop over VLAN tags runs on fuel, one turn more than the frame
-- has bytes, which is enough because each turn moves on by four bytes.
--
-- Third-party crates are parameters: `Crates` slices packets and parses DNS messages, `Pcap` opens a
-- device, `Texts` has the formats of endpoints and states and the lower case of a text. What a reader
-- of a file or a handle yields is a list. In the live session the two threads are a list of steps.
--
-- Not modelled: the Display texts and the texts of errors; the drawing of the terminal interface,
-- which is layout for a third-party crate; argument parsing, printing and JSON; the wall clock and the
-- list of interfaces; the reading of files through libpcap, which only a test calls.
pub mod Base
pub mod Core
pub mod Ingest
pub mod Engine
pub mod Tui
pub mod Cli
