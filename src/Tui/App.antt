-- ===== src/Tui/App.antt =====
-- crates/tcpvisr-tui/src/app.rs: the state of the terminal interface, the rows of its list at the
-- cursor, and the connection in focus. A text is the list of its characters. The accessors that
-- only read a field are the fields.
pub mod Commands
pub mod Subsequence
pub mod Visible
pub mod Selection
use tcp_visr.Base.{
  ℕ, Bool, true, false, not, ◌&&◌, ◌||◌, ltb, leb, ◌==◌, if◌then◌else◌, Option, none, some, List,
  [], ◌∷◌, ◌++◌, bind, map_some, lookup, insert, sort_by,
}
use tcp_visr.Core.Time.{Nanos}
use tcp_visr.Core.Flow.{Endpoint, eq_endpoint, leq_endpoint}
use tcp_visr.Core.Metric.{SampleDir, origin_to_responder, responder_to_origin}
use tcp_visr.Core.Name.{HostName, NameTable, resolve}
use tcp_visr.Engine.State.{ConnState, syn_sent, syn_received, established, fin_wait, closed, reset}
use tcp_visr.Engine.Conn.{ConnId, Connection, eq_pair, leq_pair}
use tcp_visr.Engine.Conn.Order.{id_eq}
use tcp_visr.Engine.Timeline.{
  SeqSample, InFlightSample, RttSample, ThroughputSample, AsOf, Entry, Timeline, bounds,
  connections, find_entry, seq_series, inflight_series, rtt_series, throughput_series, x_span,
  resolve_at,
}
use tcp_visr.Tui.Transport.{Transport, new_transport}
use tcp_visr.Tui.Service.{service_name}

abbrev pub Text : Type 0
Text = List ℕ

-- What the standard library and the derived formats write.
pub record Texts : Type 0 where
  pub endpoint_text : Endpoint → Text
  pub state_text : ConnState → Text
  pub to_lowercase : Text → Text

pub record FocusConn : Type 0 where
  pub origin : Endpoint
  pub responder : Endpoint
  pub span : Nanos × Nanos
  pub focus_dir : SampleDir
  pub seq_samples : List SeqSample
  pub inflight_samples : List InFlightSample
  pub rtt_samples : List RttSample
  pub throughput_samples : List ThroughputSample
  pub responder_host : Option HostName

pub data DetailView : Type 0 where
  time_sequence_view in_flight_view rtt_view throughput_view : DetailView

pub record ConnRow : Type 0 where
  pub id : ConnId
  pub peer : Endpoint
  pub host : Option HostName
  pub service : Option Text
  pub state : ConnState
  pub origin_inferred : Bool
  pub bytes_up : ℕ
  pub bytes_down : ℕ

pub record ConnMeta : Type 0 where
  pub peer : Endpoint
  pub host : Option HostName
  pub service : Option Text
  pub origin_inferred : Bool
  pub search_prefix : Text

pub data SortField : Type 0 where
  by_peer by_state by_bytes_up by_bytes_down : SortField

pub data SortDir : Type 0 where
  asc desc : SortDir

pub data Mode : Type 0 where
  nav filter_input : Mode

pub data Outcome : Type 0 where
  continue_run quit : Outcome

pub record LiveStatus : Type 0 where
  pub dropped : ℕ
  pub approximate : Bool
  pub skipped_packets : ℕ

abbrev pub default_status : LiveStatus
default_status = record { dropped = 0; approximate = false; skipped_packets = 0 }

pub record App : Type 0 where
  pub timeline : Timeline
  pub transport : Transport
  pub metas : List (ConnId × ConnMeta)
  pub sort_field : SortField
  pub sort_dir : SortDir
  pub mode : Mode
  pub query : Text
  pub selected : Option ConnId
  pub title : Text
  pub detail_open : Bool
  pub detail_view : DetailView
  pub is_live : Bool
  pub follow : Bool
  pub live_status : LiveStatus
  pub host_names : NameTable

-- `map_or("", ..)` and `unwrap_or("")`
abbrev pub or_empty : Option Text → Text
or_empty none = []
or_empty (some t) = t

-- The rest of the text after the first occurrence of a character.
unfoldable pub after_char : ℕ → Text → Option Text
after_char c [] = none
after_char c (h ∷ hs) = if h == c then some hs else after_char c hs

abbrev pub or_false {ℓ} : {A : Type ℓ} → (A → Bool) → Option A → Bool
or_false p none = false
or_false p (some a) = p a

unfoldable pub is_subsequence : Text → Text → Bool
is_subsequence [] hay = true
is_subsequence (c ∷ cs) hay = or_false (is_subsequence cs) (after_char c hay)

unfoldable pub state_rank : ConnState → ℕ
state_rank syn_sent = 0
state_rank syn_received = 1
state_rank established = 2
state_rank fin_wait = 3
state_rank closed = 4
state_rank reset = 5

-- Whether a row is before another by the sort field, and whether they are alike in it.
abbrev pub field_lt : SortField → ConnRow → ConnRow → Bool
field_lt by_peer a b = leq_endpoint a.peer b.peer && not (eq_endpoint a.peer b.peer)
field_lt by_state a b = ltb (state_rank a.state) (state_rank b.state)
field_lt by_bytes_up a b = ltb a.bytes_up b.bytes_up
field_lt by_bytes_down a b = ltb a.bytes_down b.bytes_down

abbrev pub field_eq : SortField → ConnRow → ConnRow → Bool
field_eq by_peer a b = eq_endpoint a.peer b.peer
field_eq by_state a b = state_rank a.state == state_rank b.state
field_eq by_bytes_up a b = a.bytes_up == b.bytes_up
field_eq by_bytes_down a b = a.bytes_down == b.bytes_down

abbrev pub dir_lt : SortDir → SortField → ConnRow → ConnRow → Bool
dir_lt asc field a b = field_lt field a b
dir_lt desc field a b = field_lt field b a

-- The tie-break: by pair, then by instance, never reversed.
unfoldable pub leq_id : ConnId → ConnId → Bool
leq_id a b =
    if eq_pair a.pair b.pair then leb a.instance_no b.instance_no else leq_pair a.pair b.pair

-- `order` is not `Greater`.
unfoldable pub leq_row : SortField → SortDir → ConnRow → ConnRow → Bool
leq_row field dir a b = dir_lt dir field a b || (field_eq field a b && leq_id a.id b.id)

module _ (texts : Texts) where
  unfoldable pub meta_for : NameTable → Connection → ConnMeta
  meta_for names c =
      let service = service_name c.responder.port in
      let host = resolve names c.responder.ip in
      record {
        peer = c.responder;
        host = host;
        service = service;
        origin_inferred = c.origin_inferred;
        search_prefix = texts.to_lowercase (
            texts.endpoint_text c.origin
            ++ 32 ∷ texts.endpoint_text c.responder
            ++ 32 ∷ or_empty host
            ++ 32 ∷ or_empty service);
      }

  -- The rows that a sample gives: one, if its text has the query as a subsequence.
  abbrev pub row_of_meta : AsOf → Text → Option ConnMeta → List ConnRow
  row_of_meta a q none = []
  row_of_meta a q (some m) =
      let search = m.search_prefix ++ 32 ∷ texts.to_lowercase (texts.state_text a.state) in
      if not (is_subsequence q search)
      then []
      else record {
        id = a.id;
        peer = m.peer;
        host = m.host;
        service = m.service;
        state = a.state;
        origin_inferred = m.origin_inferred;
        bytes_up = a.bytes_o2r;
        bytes_down = a.bytes_r2o;
      }
        ∷ []

  -- `filter_map` of `row`
  unfoldable pub rows_of : List (ConnId × ConnMeta) → Text → List AsOf → List ConnRow
  rows_of metas q [] = []
  rows_of metas q (a ∷ more) = row_of_meta a q (lookup a.id metas) ++ rows_of metas q more

  unfoldable pub visible : App → List ConnRow
  visible app = sort_by (leq_row app.sort_field app.sort_dir) (
      rows_of app.metas (texts.to_lowercase app.query)
        (resolve_at app.timeline app.transport.cursor))

abbrev pub focus_dir_of : Connection → SampleDir
focus_dir_of c = if leb c.bytes_r2o c.bytes_o2r then origin_to_responder else responder_to_origin

abbrev pub host_of : Option ConnMeta → Option HostName
host_of none = none
host_of (some m) = m.host

abbrev pub focus_on : App → ConnId → Option Entry → Option FocusConn
focus_on app id none = none
focus_on app id (some e) =
    map_some
      (λ span. record {
        origin = e.conn.origin;
        responder = e.conn.responder;
        span = span;
        focus_dir = focus_dir_of e.conn;
        seq_samples = seq_series app.timeline id;
        inflight_samples = inflight_series app.timeline id;
        rtt_samples = rtt_series app.timeline id;
        throughput_samples = throughput_series app.timeline id;
        responder_host = host_of (lookup id app.metas);
      })
      (x_span app.timeline id)

-- `focus`
unfoldable pub focus_conn : App → Option FocusConn
focus_conn app = bind (λ id. focus_on app id (find_entry id app.timeline.entries)) app.selected
