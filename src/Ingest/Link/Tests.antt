-- ===== src/Ingest/Link/Tests.antt =====
-- Frames of each link layer.
use tcp_visr.Base.{ℕ, ◌≡◌, refl, true, false, some, List, [], ◌∷◌}
use tcp_visr.Ingest.Link.{
  ethernet, linux_sll2, ip_bytes, skip, non_tcp, strip_link, strip_after_ethertype, after_ethertype,
  be16,
}
use tcp_visr.Ingest.Link.Strip.{tags_bytes, strip_link-tags}

abbrev addresses : List ℕ
addresses = 1 ∷ 2 ∷ 3 ∷ 4 ∷ 5 ∷ 6 ∷ 7 ∷ 8 ∷ 9 ∷ 10 ∷ 11 ∷ 12 ∷ []

abbrev tagged : List ℕ
tagged =
    1 ∷ 2 ∷ 3 ∷ 4 ∷ 5 ∷ 6 ∷ 7 ∷ 8 ∷ 9 ∷ 10 ∷ 11 ∷ 12 ∷ 136 ∷ 168 ∷ 0 ∷ 5 ∷ 129 ∷ 0 ∷ 0 ∷ 7 ∷ 8 ∷ 0
    ∷ 69 ∷ []

arp_skipped : strip_link linux_sll2 (8 ∷ 6 ∷ 0 ∷ []) ≡ some (skip non_tcp)
unfolding strip_link strip_after_ethertype after_ethertype be16
arp_skipped = refl

strip_link-tags_example : strip_link ethernet tagged ≡ some (ip_bytes (69 ∷ []))
unfolding tags_bytes
strip_link-tags_example =
    strip_link-tags addresses (69 ∷ []) 8 0 ((true, 0, 5) ∷ (false, 0, 7) ∷ []) refl refl
