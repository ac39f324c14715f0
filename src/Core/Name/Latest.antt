-- ===== src/Core/Name/Latest.antt =====
-- The table gives the latest name of an address, and stays under its cap.
use tcp_visr.Base.{
  suc, ◌+◌, ◌≤◌, ◌<◌, ◌≡◌, refl, ap, ◌∙◌, false, ◌&&◌, ltb, leb, if◌then◌else◌, Option, none, some,
  List, [], ◌∷◌, length, lookup, insert, lookup-insert, arith, Bool-cases, inl, inr,
}
use tcp_visr.Core.Time.{Nanos}
use tcp_visr.Core.Flow.{IpAddr, eq_ip}
use tcp_visr.Core.Flow.Order.{ip_eq, eq_ip_iff}
use tcp_visr.Core.Name.{
  HostName, NameObservation, NameTable, empty_table, name_table_cap, record_name, observe_name,
  name_of, resolve,
}

pub observe_names : NameTable → List NameObservation → NameTable
observe_names t [] = t
observe_names t (o ∷ os) = observe_names (observe_name t o) os

-- Of the observations of an address: the one with the greatest time, the last where times are equal.
abbrev later_name : IpAddr → NameObservation → Option (Nanos × HostName) → Option (Nanos × HostName)
later_name ip o none = if eq_ip o.ip ip then some (o.ts, o.name) else none
later_name ip o (some r) = if eq_ip o.ip ip && ltb r.0 o.ts then some (o.ts, o.name) else some r

unfoldable pub latest_name : IpAddr → List NameObservation → Option (Nanos × HostName)
latest_name ip [] = none
latest_name ip (o ∷ os) = later_name ip o (latest_name ip os)

-- What the table held against what came later.
abbrev newer : Option (Nanos × HostName) → Option (Nanos × HostName) → Option (Nanos × HostName)
newer a none = a
newer none (some r) = some r
newer (some a) (some r) = if leb a.0 r.0 then some r else some a

newer-none : (o : Option (Nanos × HostName)) → newer none o ≡ o
newer-none none = refl
newer-none (some r) = refl

length-insert :
    (ip : IpAddr) (v : Nanos × HostName) (m : List (IpAddr × (Nanos × HostName)))
    → length (insert ip v m) ≤ suc (length m)
unfolding insert
length-insert ip v [] = omega arith
length-insert ip v ((j, w) ∷ m) = ground (arith, length-insert ip v m)

length-insert_held :
    (ip : IpAddr) (v a : Nanos × HostName) (m : List (IpAddr × (Nanos × HostName)))
    → lookup ip m ≡ some a
    → length (insert ip v m) ≡ length m
unfolding insert lookup
length-insert_held ip v a [] h = cc
length-insert_held ip v a ((j, w) ∷ m) h = elim (Bool-cases (eq_ip j ip)) [
  | inl same ↦ rw same (omega arith)
  | inr other ↦ rw other (let ih = length-insert_held ip v a m (rw other at h) in omega arith)
]

record_name-lookup :
    (t : NameTable) (o : NameObservation) (ip : IpAddr) (slot : Option (Nanos × HostName))
    → lookup o.ip t.by_ip ≡ slot
    → length t.by_ip < name_table_cap
    → lookup ip (record_name t o slot).by_ip ≡ newer (lookup ip t.by_ip) (later_name ip o none)
unfolding record_name
record_name-lookup t o ip none e h =
    let room : leb name_table_cap (length t.by_ip) ≡ false = ground arith in
    rw room (ground (arith, eq_ip_iff o.ip ip, lookup-insert o.ip ip (o.ts, o.name) t.by_ip))
record_name-lookup t o ip (some a) e h = elim (Bool-cases (leb a.0 o.ts)) [
  | inl newest ↦
      rw newest (ground (arith, eq_ip_iff o.ip ip, lookup-insert o.ip ip (o.ts, o.name) t.by_ip))
  | inr older ↦ rw older (ground (arith, eq_ip_iff o.ip ip))
]

newer-later_name :
    (ip : IpAddr) (o : NameObservation) (a r : Option (Nanos × HostName))
    → newer (newer a (later_name ip o none)) r ≡ newer a (later_name ip o r)
newer-later_name ip o none none = ground arith
newer-later_name ip o none (some r) = ground arith
newer-later_name ip o (some a) none = ground arith
newer-later_name ip o (some a) (some r) = ground arith

record_name-length :
    (t : NameTable) (o : NameObservation) (slot : Option (Nanos × HostName))
    → lookup o.ip t.by_ip ≡ slot
    → (length (record_name t o slot).by_ip ≤ suc (length t.by_ip))
      × (length t.by_ip ≤ name_table_cap → length (record_name t o slot).by_ip ≤ name_table_cap)
unfolding record_name
record_name-length t o none e =
    let le = length-insert o.ip (o.ts, o.name) t.by_ip in
    elim (Bool-cases (leb name_table_cap (length t.by_ip))) [
      | inl full ↦ rw full (omega arith, λ h. h)
      | inr room ↦ rw room (le, λ h. ground arith)
    ]
record_name-length t o (some a) e =
    let same = length-insert_held o.ip (o.ts, o.name) a t.by_ip e in
    elim (Bool-cases (leb a.0 o.ts)) [
      | inl newest ↦ rw newest (omega arith, λ h. omega arith)
      | inr older ↦ rw older (omega arith, λ h. h)
    ]

observe_names-newer :
    (t : NameTable) (os : List NameObservation) (ip : IpAddr)
    → length t.by_ip + length os ≤ name_table_cap
    → lookup ip (observe_names t os).by_ip ≡ newer (lookup ip t.by_ip) (latest_name ip os)
unfolding observe_names latest_name observe_name
observe_names-newer t [] ip h = refl
observe_names-newer t (o ∷ os) ip h =
    let slot = lookup o.ip t.by_ip in
    let grows = (record_name-length t o slot refl).0 in
    let rest = observe_names-newer (record_name t o slot) os ip (omega arith) in
    let step = record_name-lookup t o ip slot refl (omega arith) in
    rest
    ∙ ap (λ a. newer a (latest_name ip os)) step
    ∙ newer-later_name ip o (lookup ip t.by_ip) (latest_name ip os)

-- After at most 65,536 observations, in any order of time, the name of an address is that of its
-- latest observation, the last recorded of equal times, and there is none without one.
pub resolve-latest :
    (os : List NameObservation) (ip : IpAddr)
    → length os ≤ name_table_cap
    → resolve (observe_names empty_table os) ip ≡ name_of (latest_name ip os)
unfolding resolve lookup
resolve-latest os ip h =
    ap name_of
      (observe_names-newer empty_table os ip (omega arith) ∙ newer-none (latest_name ip os))

-- However many observations there are, a table that holds at most 65,536 addresses still does.
pub observe_names-length :
    (t : NameTable) (os : List NameObservation)
    → length t.by_ip ≤ name_table_cap
    → length (observe_names t os).by_ip ≤ name_table_cap
unfolding observe_names observe_name
observe_names-length t [] h = h
observe_names-length t (o ∷ os) h =
    observe_names-length (observe_name t o) os ((record_name-length t o _ refl).1 h)
