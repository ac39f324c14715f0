-- ===== src/Ingest/Link.antt =====
-- crates/tcpvisr-ingest/src/link.rs: the link layers and how each is stripped from a frame, and
-- `SkipReason` of decode.rs. A frame is the list of its bytes.
pub mod Strip
mod Tests
use tcp_visr.Base.{
  ℕ, zero, suc, ◌+◌, ◌*◌, Bool, true, false, ◌||◌, ◌==◌, if◌then◌else◌, Option, none, some, List,
  [], ◌∷◌, length, get_elem?,
}

pub data SkipReason : Type 0 where
  non_tcp malformed unsupported_link_type ipv6_fragment unsupported_ext_chain truncated : SkipReason

pub data LinkType : Type 0 where
  ethernet linux_sll linux_sll2 raw_ip null : LinkType

unfoldable pub from_dlt : ℕ → Option LinkType
from_dlt dlt =
    if dlt == 1
    then some ethernet
    else if dlt == 0
    then some null
    else if dlt == 12 || (dlt == 14 || dlt == 101)
    then some raw_ip
    else if dlt == 113
    then some linux_sll
    else if dlt == 276
    then some linux_sll2
    else none

pub data Stripped : Type 0 where
  ip_bytes : List ℕ → Stripped
  skip : SkipReason → Stripped

abbrev pub is_ip_type : ℕ → Bool
is_ip_type t = t == 2048 || t == 34525

abbrev pub is_vlan_type : ℕ → Bool
is_vlan_type t = t == 33024 || t == 34984

-- `b.get(n..)`
pub get_from : List ℕ → ℕ → Option (List ℕ)
get_from bs zero = some bs
get_from [] (suc n) = none
get_from (b ∷ bs) (suc n) = get_from bs n

abbrev both_bytes : Option ℕ → Option ℕ → Option ℕ
both_bytes (some a) (some b) = some (a * 256 + b)
both_bytes _ _ = none

-- `b.get(off..off + 2)`, read as a big-endian number.
pub be16 : List ℕ → ℕ → Option ℕ
be16 b off = both_bytes (get_elem? b off) (get_elem? b (off + 1))

pub ip_from : Option (List ℕ) → Stripped
ip_from none = skip malformed
ip_from (some ip) = ip_bytes ip

pub after_ethertype : List ℕ → ℕ → Option ℕ → Stripped
after_ethertype frame ip_off none = skip malformed
after_ethertype frame ip_off (some t) =
    if is_ip_type t then ip_from (get_from frame ip_off) else skip non_tcp

pub strip_after_ethertype : List ℕ → ℕ → ℕ → Stripped
strip_after_ethertype frame et_off ip_off = after_ethertype frame ip_off (be16 frame et_off)

-- One turn of the loop; `later` is what the loop does from the offset `off + 4`.
pub ethertype_at : List ℕ → ℕ → Option ℕ → Option Stripped → Option Stripped
ethertype_at frame off none later = some (skip malformed)
ethertype_at frame off (some t) later =
    if is_ip_type t
    then some (ip_from (get_from frame (off + 2)))
    else if is_vlan_type t
    then later
    else some (skip non_tcp)

-- The loop on fuel: `none` when it runs out.
pub ethernet_loop : ℕ → List ℕ → ℕ → Option Stripped
ethernet_loop zero frame off = none
ethernet_loop (suc fuel) frame off =
    let later = ethernet_loop fuel frame (off + 4) in ethertype_at frame off (be16 frame off) later

-- Each turn passes four bytes of the frame, so its length is more turns than are taken.
pub strip_ethernet : List ℕ → Option Stripped
strip_ethernet frame = ethernet_loop (suc (length frame)) frame 12

unfoldable pub strip_link : LinkType → List ℕ → Option Stripped
strip_link raw_ip frame = some (ip_bytes frame)
strip_link null frame = some (ip_from (get_from frame 4))
strip_link linux_sll2 frame = some (strip_after_ethertype frame 0 20)
strip_link linux_sll frame = some (strip_after_ethertype frame 14 16)
strip_link ethernet frame = strip_ethernet frame
