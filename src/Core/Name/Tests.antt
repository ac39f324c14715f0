-- ===== src/Core/Name/Tests.antt =====
-- Names in texts, as crates/tcpvisr-core/src/name.rs tests them.
use tcp_visr.Base.{◌≤◌, ◌<◌, ◌≡◌, refl, true, some, none, List, [], ◌∷◌, All, arith}
use tcp_visr.Core.Flow.{v4, eq_ip}
use tcp_visr.Core.Name.{
  NameObservation, empty_table, max_host_len, host_name, strip_dot, printable, is_printable,
  nonempty, resolve,
}
use tcp_visr.Core.Name.Sanitize.{host_name-printable}
use tcp_visr.Core.Name.Latest.{observe_names, latest_name, resolve-latest}

-- `ESC a . b .` loses the escape and the root dot.
sanitized : host_name (27 ∷ 97 ∷ 46 ∷ 98 ∷ 46 ∷ []) ≡ some (97 ∷ 46 ∷ 98 ∷ [])
unfolding host_name strip_dot printable nonempty
sanitized = refl

root_refused : host_name (46 ∷ []) ≡ none
unfolding host_name strip_dot
root_refused = refl

host_name-printable_example :
    (0 < 3) × (3 ≤ max_host_len) × All (λ b. is_printable b ≡ true) (97 ∷ 46 ∷ 98 ∷ [])
host_name-printable_example =
    host_name-printable (27 ∷ 97 ∷ 46 ∷ 98 ∷ 46 ∷ []) (97 ∷ 46 ∷ 98 ∷ []) sanitized

abbrev seen : List NameObservation
seen =
    record { ts = 5; ip = v4 7; name = 98 ∷ [] }
    ∷ record { ts = 3; ip = v4 7; name = 97 ∷ [] }
    ∷ record { ts = 9; ip = v4 8; name = 99 ∷ [] }
    ∷ []

resolve-latest_example : resolve (observe_names empty_table seen) (v4 7) ≡ some (98 ∷ [])
unfolding latest_name eq_ip
resolve-latest_example = resolve-latest seen (v4 7) (omega arith)
