-- ===== src/Ingest/Dns.antt =====
-- crates/tcpvisr-ingest/src/dns.rs: the names that a DNS answer gives to addresses.
use tcp_visr.Base.{Option, none, some, List, [], ◌∷◌, ◌++◌, ℕ}
use tcp_visr.Core.Time.{Nanos}
use tcp_visr.Core.Flow.{IpAddr, v4, v6}
use tcp_visr.Core.Name.{HostName, host_name, NameObservation}
use tcp_visr.Ingest.Crates.{Rdata, rdata_a, rdata_aaaa, rdata_other, Answer, Crates}

abbrev pub answer_ip : Rdata → Option IpAddr
answer_ip (rdata_a a) = some (v4 a)
answer_ip (rdata_aaaa a) = some (v6 a)
answer_ip rdata_other = none

-- One answer: an address, if its name is accepted.
unfoldable pub observation : Nanos → Option IpAddr → Option HostName → List NameObservation
observation ts (some ip) (some name) = record { ts = ts; ip = ip; name = name } ∷ []
observation ts (some ip) none = []
observation ts none _ = []

unfoldable pub observations : Nanos → List Answer → List NameObservation
observations ts [] = []
observations ts (a ∷ more) =
    observation ts (answer_ip a.rdata) (host_name a.name) ++ observations ts more

unfoldable pub answers_of : Nanos → Option (List Answer) → List NameObservation
answers_of ts none = []
answers_of ts (some answers) = observations ts answers

unfoldable pub parse_dns_answers : Crates → Nanos → List ℕ → List NameObservation
parse_dns_answers crates ts payload = answers_of ts (crates.parse_dns payload)
