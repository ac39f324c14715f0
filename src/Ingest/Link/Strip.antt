-- ===== src/Ingest/Link/Strip.antt =====
-- Stripping always ends, and takes the VLAN tags of an Ethernet frame off.
use tcp_visr.Base.{
  ℕ, zero, suc, ◌+◌, ◌*◌, ◌≤◌, ◌<◌, ◌≡◌, refl, ap, sym, append_assoc, ◌∙◌, Bool, true, false,
  Option, none, some, List, [], ◌∷◌, ◌++◌, length, get_elem?, get_elem?-lt, arith, Option-cases,
  Bool-cases, inl, inr, length-append,
}
use tcp_visr.Ingest.Link.{
  LinkType, ethernet, linux_sll, linux_sll2, raw_ip, null, Stripped, ip_bytes, skip, malformed,
  is_ip_type, is_vlan_type, get_from, be16, both_bytes, ip_from, ethertype_at, ethernet_loop,
  strip_ethernet, strip_link,
}

both_bytes-some : (x y : Option ℕ) (t : ℕ) → both_bytes x y ≡ some t → (c : ℕ) × (y ≡ some c)
both_bytes-some (some a) (some b) t h = (b, refl)
both_bytes-some (some a) none t h = cc
both_bytes-some none y t h = cc

be16-bounds : (b : List ℕ) (off t : ℕ) → be16 b off ≡ some t → off + 1 < length b
unfolding be16
be16-bounds b off t h =
    let (c, e) = both_bytes-some (get_elem? b off) (get_elem? b (off + 1)) t h in
    get_elem?-lt b (off + 1) e

ethertype_at-some :
    (frame : List ℕ) (off t : ℕ) (later : Option Stripped) (s : Stripped)
    → later ≡ some s
    → (r : Stripped) × (ethertype_at frame off (some t) later ≡ some r)
unfolding ethertype_at
ethertype_at-some frame off t later s h = elim (Bool-cases (is_ip_type t)) [
  | inl ip ↦ rw ip (_, refl)
  | inr other ↦ elim (Bool-cases (is_vlan_type t)) [
    | inl vlan ↦ rw (other, vlan) (s, h)
    | inr unknown ↦ rw (other, unknown) (_, refl)
  ]
]

ethertype_at-end :
    (frame : List ℕ) (off : ℕ) (later : Option Stripped)
    → ethertype_at frame off none later ≡ some (skip malformed)
unfolding ethertype_at
ethertype_at-end frame off later = refl

ethernet_loop-total :
    (fuel : ℕ) (frame : List ℕ) (off : ℕ)
    → length frame < fuel + off
    → 0 < fuel
    → (s : Stripped) × (ethernet_loop fuel frame off ≡ some s)
unfolding ethernet_loop
ethernet_loop-total zero frame off h p = absurd (omega arith)
ethernet_loop-total (suc fuel) frame off h p = elim (Option-cases (be16 frame off)) [
  | inl e ↦ rw e (skip malformed, ethertype_at-end frame off _)
  | inr (t, e) ↦
      let bound = be16-bounds frame off t e in
      let (s, more) = ethernet_loop-total fuel frame (off + 4) (omega arith) (omega arith) in
      rw e (ethertype_at-some frame off t _ s more)
]

-- Every frame of every link layer is stripped or skipped: the loop over VLAN tags ends within the
-- frame.
pub strip_link-total :
    (link : LinkType) (frame : List ℕ) → (s : Stripped) × (strip_link link frame ≡ some s)
unfolding strip_link strip_ethernet
strip_link-total ethernet frame =
    ethernet_loop-total (suc (length frame)) frame 12 (omega arith) (omega arith)
strip_link-total linux_sll frame = (_, refl)
strip_link-total linux_sll2 frame = (_, refl)
strip_link-total raw_ip frame = (_, refl)
strip_link-total null frame = (_, refl)

get_elem?-append :
    (pre xs : List ℕ) (i : ℕ) → get_elem? (pre ++ xs) (length pre + i) ≡ get_elem? xs i
get_elem?-append [] xs i = let e : 0 + i ≡ i = omega arith in rw e
get_elem?-append (x ∷ pre) xs i =
    let e : suc (length pre) + i ≡ suc (length pre + i) = omega arith in
    rw e (get_elem?-append pre xs i)

get_from-append : (pre xs : List ℕ) (i : ℕ) → get_from (pre ++ xs) (length pre + i) ≡ get_from xs i
unfolding get_from
get_from-append [] xs i = let e : 0 + i ≡ i = omega arith in rw e
get_from-append (x ∷ pre) xs i =
    let e : suc (length pre) + i ≡ suc (length pre + i) = omega arith in
    rw e (get_from-append pre xs i)

be16-append :
    (pre xs : List ℕ) (a b : ℕ) → be16 (pre ++ a ∷ b ∷ xs) (length pre) ≡ some (a * 256 + b)
unfolding be16
be16-append pre xs a b =
    let e : length pre ≡ length pre + 0 = omega arith in
    let first : get_elem? (pre ++ a ∷ b ∷ xs) (length pre) ≡ some a =
      ap (get_elem? (pre ++ a ∷ b ∷ xs)) e ∙ get_elem?-append pre (a ∷ b ∷ xs) 0 in
    rw (first, get_elem?-append pre (a ∷ b ∷ xs) 1)

-- A VLAN tag: whether it is 802.1ad, and its two bytes of control information.
abbrev pub Tag : Type 0
Tag = Bool × ℕ × ℕ

unfoldable pub tags_bytes : List Tag → List ℕ
tags_bytes [] = []
tags_bytes ((true, high, low) ∷ tags) = 136 ∷ 168 ∷ high ∷ low ∷ tags_bytes tags
tags_bytes ((false, high, low) ∷ tags) = 129 ∷ 0 ∷ high ∷ low ∷ tags_bytes tags

vlan_turn :
    (fuel : ℕ) (pre rest : List ℕ) (a b c d : ℕ)
    → is_ip_type (a * 256 + b) ≡ false
    → is_vlan_type (a * 256 + b) ≡ true
    → ethernet_loop (suc fuel) (pre ++ a ∷ b ∷ c ∷ d ∷ rest) (length pre)
      ≡ ethernet_loop fuel
          ((pre ++ a ∷ b ∷ c ∷ d ∷ []) ++ rest)
          (length (pre ++ a ∷ b ∷ c ∷ d ∷ []))
unfolding ethernet_loop ethertype_at
vlan_turn fuel pre rest a b c d ip vlan =
    let past : length (pre ++ a ∷ b ∷ c ∷ d ∷ []) ≡ length pre + 4 =
      length-append pre (a ∷ b ∷ c ∷ d ∷ []) ∙ omega arith in
    rw (be16-append pre (c ∷ d ∷ rest) a b, ip, vlan, past, append_assoc)

ip_turn :
    (fuel : ℕ) (pre ip : List ℕ) (a b : ℕ)
    → is_ip_type (a * 256 + b) ≡ true
    → ethernet_loop (suc fuel) (pre ++ a ∷ b ∷ ip) (length pre) ≡ some (ip_bytes ip)
unfolding ethernet_loop ethertype_at ip_from get_from
ip_turn fuel pre ip a b t = rw (be16-append pre ip a b, t, get_from-append pre (a ∷ b ∷ ip) 2)

tags_loop :
    (fuel : ℕ) (pre ip : List ℕ) (a b : ℕ) (tags : List Tag)
    → is_ip_type (a * 256 + b) ≡ true
    → length tags ≤ fuel
    → ethernet_loop (suc fuel) (pre ++ (tags_bytes tags ++ a ∷ b ∷ ip)) (length pre)
      ≡ some (ip_bytes ip)
unfolding tags_bytes
tags_loop fuel pre ip a b [] t h = ip_turn fuel pre ip a b t
tags_loop zero pre ip a b (tag ∷ tags) t h = absurd (omega arith)
tags_loop (suc fuel) pre ip a b ((true, c, d) ∷ tags) t h =
    vlan_turn (suc fuel) pre (tags_bytes tags ++ a ∷ b ∷ ip) 136 168 c d refl refl
    ∙ tags_loop fuel (pre ++ 136 ∷ 168 ∷ c ∷ d ∷ []) ip a b tags t (omega arith)
tags_loop (suc fuel) pre ip a b ((false, c, d) ∷ tags) t h =
    vlan_turn (suc fuel) pre (tags_bytes tags ++ a ∷ b ∷ ip) 129 0 c d refl refl
    ∙ tags_loop fuel (pre ++ 129 ∷ 0 ∷ c ∷ d ∷ []) ip a b tags t (omega arith)

length-tags_bytes : (tags : List Tag) → length tags ≤ length (tags_bytes tags)
unfolding tags_bytes
length-tags_bytes [] = omega arith
length-tags_bytes ((true, c, d) ∷ tags) = omega (arith, length-tags_bytes tags)
length-tags_bytes ((false, c, d) ∷ tags) = omega (arith, length-tags_bytes tags)

-- An Ethernet frame of two addresses, any number of VLAN tags of either kind, the ethertype of an
-- IP version and a payload is stripped to the payload.
pub strip_link-tags :
    (addresses ip : List ℕ) (a b : ℕ) (tags : List Tag)
    → length addresses ≡ 12
    → is_ip_type (a * 256 + b) ≡ true
    → strip_link ethernet (addresses ++ (tags_bytes tags ++ a ∷ b ∷ ip)) ≡ some (ip_bytes ip)
unfolding strip_link strip_ethernet
strip_link-tags addresses ip a b tags h t =
    let frame = addresses ++ (tags_bytes tags ++ a ∷ b ∷ ip) in
    let whole = length-append addresses (tags_bytes tags ++ a ∷ b ∷ ip) in
    let inner = length-append (tags_bytes tags) (a ∷ b ∷ ip) in
    let fewer = length-tags_bytes tags in
    ap (ethernet_loop (suc (length frame)) frame) (sym h)
    ∙ tags_loop (length frame) addresses ip a b tags t (omega arith)
