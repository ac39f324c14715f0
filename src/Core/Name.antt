-- ===== src/Core/Name.antt =====
-- crates/tcpvisr-core/src/name.rs: host names from DNS and the table of the latest name of each
-- address. A text is the list of its bytes; the map is an association list.
pub mod Sanitize
pub mod Latest
mod Tests
use tcp_visr.Base.{
  ℕ, suc, Bool, true, false, ◌&&◌, ltb, leb, ◌==◌, if◌then◌else◌, Option, none, some, List, [], ◌∷◌,
  length, lookup, insert, add_u64,
}
use tcp_visr.Core.Time.{Nanos}
use tcp_visr.Core.Flow.{IpAddr}
use tcp_visr.Core.Flow.Order.{ip_eq}

abbrev pub max_host_len : ℕ
max_host_len = 253

abbrev pub name_table_cap : ℕ
name_table_cap = 65536

abbrev pub HostName : Type 0
HostName = List ℕ

-- `strip_suffix('.').unwrap_or`
unfoldable pub strip_dot : List ℕ → List ℕ
strip_dot [] = []
strip_dot (b ∷ []) = if b == 46 then [] else b ∷ []
strip_dot (b ∷ c ∷ bs) = b ∷ strip_dot (c ∷ bs)

abbrev pub is_printable : ℕ → Bool
is_printable b = leb 32 b && leb b 126

unfoldable pub printable : List ℕ → List ℕ
printable [] = []
printable (b ∷ bs) = let rest = printable bs in if is_printable b then b ∷ rest else rest

unfoldable pub nonempty : List ℕ → Option HostName
nonempty [] = none
nonempty (b ∷ bs) = some (b ∷ bs)

-- `HostName::new`; the empty text is refused with those that are too long.
unfoldable pub host_name : List ℕ → Option HostName
host_name raw =
    let trimmed = strip_dot raw in
    if length trimmed == 0
    then none
    else if ltb max_host_len (length trimmed)
    then none
    else nonempty (printable trimmed)

pub record NameObservation : Type 0 where
  pub ts : Nanos
  pub ip : IpAddr
  pub name : HostName

pub record NameTable : Type 0 where
  pub by_ip : List (IpAddr × (Nanos × HostName))
  pub dropped : ℕ

abbrev pub empty_table : NameTable
empty_table = record { by_ip = []; dropped = 0 }

pub record_name : NameTable → NameObservation → Option (Nanos × HostName) → NameTable
record_name t obs (some slot) =
    if leb slot.0 obs.ts then record t { by_ip = insert obs.ip (obs.ts, obs.name) t.by_ip } else t
record_name t obs none =
    if leb name_table_cap (length t.by_ip)
    then record t { dropped = add_u64 t.dropped 1 }
    else record t { by_ip = insert obs.ip (obs.ts, obs.name) t.by_ip }

pub observe_name : NameTable → NameObservation → NameTable
observe_name t obs = record_name t obs (lookup obs.ip t.by_ip)

abbrev pub name_of : Option (Nanos × HostName) → Option HostName
name_of none = none
name_of (some slot) = some slot.1

pub resolve : NameTable → IpAddr → Option HostName
resolve t ip = name_of (lookup ip t.by_ip)
