-- ===== src/Engine/State.antt =====
-- crates/tcpvisr-engine/src/state.rs: the observed lifecycle of a connection.
use tcp_visr.Base.{ℕ, Bool, true, false, ltb, if◌then◌else◌}

pub data ConnState : Type 0 where
  syn_sent syn_received established fin_wait closed reset : ConnState

unfoldable pub rank : ConnState → ℕ
rank syn_sent = 0
rank syn_received = 1
rank established = 2
rank fin_wait = 3
rank closed = 4
rank reset = 5

unfoldable pub advance_to : ConnState → ConnState → ConnState
unfolding rank
advance_to self to = if ltb (rank self) (rank to) then to else self

-- The derived `==` at one state, and `matches!(_, Closed | Reset)`.
abbrev pub is_syn_sent : ConnState → Bool
is_syn_sent syn_sent = true
is_syn_sent _ = false

abbrev pub is_syn_received : ConnState → Bool
is_syn_received syn_received = true
is_syn_received _ = false

abbrev pub is_established : ConnState → Bool
is_established established = true
is_established _ = false

abbrev pub is_reset : ConnState → Bool
is_reset reset = true
is_reset _ = false

abbrev pub is_terminal : ConnState → Bool
is_terminal closed = true
is_terminal reset = true
is_terminal _ = false
