-- ===== src/Core/Flow/Order.antt =====
-- The derived order of endpoints is a linear order.
use tcp_visr.Base.{ℕ, ◌≡◌, ◌<◌, ◌↔◌, ◌⊎◌, inl, true, false, arith, Eq}
use tcp_visr.Core.Flow.{IpAddr, v4, v6, Endpoint, eq_ip, eq_endpoint, leq_endpoint}

pub eq_ip_iff : (a b : IpAddr) → (eq_ip a b ≡ true) ↔ (a ≡ b)
unfolding eq_ip
eq_ip_iff (v4 a) (v4 b) = ground arith
eq_ip_iff (v6 a) (v6 b) = ground arith
eq_ip_iff (v4 a) (v6 b) = (λ h. cc, λ h. cc)
eq_ip_iff (v6 a) (v4 b) = (λ h. cc, λ h. cc)

instance abbrev pub ip_eq : Eq IpAddr
ip_eq = record { beq = eq_ip; beq_iff = eq_ip_iff }

pub eq_endpoint_iff : (a b : Endpoint) → (eq_endpoint a b ≡ true) ↔ (a ≡ b)
unfolding eq_endpoint
eq_endpoint_iff a b = ground (arith, eq_ip_iff a.ip b.ip)

pub leq_endpoint_total : (a b : Endpoint) → leq_endpoint a b ≡ false → leq_endpoint b a ≡ true
unfolding leq_endpoint
leq_endpoint_total a b h = ground arith

pub leq_endpoint_antisymm :
    (a b : Endpoint) → leq_endpoint a b ≡ true → leq_endpoint b a ≡ true → a ≡ b
unfolding leq_endpoint
leq_endpoint_antisymm a b h k = ground arith

pub leq_endpoint_trans :
    (a b c : Endpoint) → leq_endpoint a b ≡ true → leq_endpoint b c ≡ true → leq_endpoint a c ≡ true
unfolding leq_endpoint
leq_endpoint_trans a b c h k = ground arith

-- The order in plain terms: every V4 address before every V6 one, then by address, then by port.
abbrev pub AddressLt : IpAddr → IpAddr → Type 0
AddressLt (v4 a) (v4 b) = a < b
AddressLt (v6 a) (v6 b) = a < b
AddressLt (v4 a) (v6 b) = Unit
AddressLt (v6 a) (v4 b) = ⊥

abbrev pub EndpointLt : Endpoint → Endpoint → Type 0
EndpointLt a b = AddressLt a.ip b.ip ⊎ ((a.ip ≡ b.ip) × (a.port < b.port))

lt_ip-AddressLt :
    (a b : IpAddr) (p q : ℕ)
    → leq_endpoint (record { ip = b; port = q }) (record { ip = a; port = p }) ≡ false
    → AddressLt a b ⊎ ((a ≡ b) × (p < q))
unfolding leq_endpoint
lt_ip-AddressLt (v4 a) (v4 b) p q h = ground arith
lt_ip-AddressLt (v6 a) (v6 b) p q h = ground arith
lt_ip-AddressLt (v4 a) (v6 b) p q h = inl tt
lt_ip-AddressLt (v6 a) (v4 b) p q h = cc

pub leq_endpoint-EndpointLt : (a b : Endpoint) → leq_endpoint b a ≡ false → EndpointLt a b
leq_endpoint-EndpointLt a b h = lt_ip-AddressLt a.ip b.ip a.port b.port h
