-- ===== src/Ingest/Skips.antt =====
-- crates/tcpvisr-ingest/src/lib.rs: the counts of skipped packets by reason.
use tcp_visr.Base.{ℕ, List, [], ◌∷◌, ltb, if◌then◌else◌, add_u64}
use tcp_visr.Ingest.Link.{
  SkipReason, non_tcp, malformed, unsupported_link_type, ipv6_fragment, unsupported_ext_chain,
  truncated,
}

pub record SkipCounts : Type 0 where
  pub non_tcp_count : ℕ
  pub malformed_count : ℕ
  pub unsupported_link_type_count : ℕ
  pub ipv6_fragment_count : ℕ
  pub unsupported_ext_chain_count : ℕ
  pub truncated_count : ℕ

abbrev pub no_skips : SkipCounts
no_skips = record {
  non_tcp_count = 0;
  malformed_count = 0;
  unsupported_link_type_count = 0;
  ipv6_fragment_count = 0;
  unsupported_ext_chain_count = 0;
  truncated_count = 0;
}

-- `SkipCounts::record`
unfoldable pub record_skip : SkipReason → SkipCounts → SkipCounts
record_skip non_tcp c = record c { non_tcp_count = add_u64 c.non_tcp_count 1 }
record_skip malformed c = record c { malformed_count = add_u64 c.malformed_count 1 }
record_skip unsupported_link_type c = record c {
  unsupported_link_type_count = add_u64 c.unsupported_link_type_count 1;
}
record_skip ipv6_fragment c = record c { ipv6_fragment_count = add_u64 c.ipv6_fragment_count 1 }
record_skip unsupported_ext_chain c = record c {
  unsupported_ext_chain_count = add_u64 c.unsupported_ext_chain_count 1;
}
record_skip truncated c = record c { truncated_count = add_u64 c.truncated_count 1 }

abbrev positive : List (SkipReason × ℕ) → List (SkipReason × ℕ)
positive [] = []
positive (p ∷ ps) = let rest = positive ps in if ltb 0 p.1 then p ∷ rest else rest

-- The counts that are not zero, each with its reason in place of the reason's name.
unfoldable nonzero : SkipCounts → List (SkipReason × ℕ)
nonzero c = positive (
    (non_tcp, c.non_tcp_count)
    ∷ (malformed, c.malformed_count)
    ∷ (unsupported_link_type, c.unsupported_link_type_count)
    ∷ (ipv6_fragment, c.ipv6_fragment_count)
    ∷ (unsupported_ext_chain, c.unsupported_ext_chain_count)
    ∷ (truncated, c.truncated_count)
    ∷ [])

unfoldable pub total : SkipCounts → ℕ
total c =
    add_u64
      (add_u64
        (add_u64 (add_u64 (add_u64 c.non_tcp_count c.malformed_count) c.unsupported_link_type_count)
          c.ipv6_fragment_count)
        c.unsupported_ext_chain_count)
      c.truncated_count
