-- ===== src/Ingest/Decode/Flags.antt =====
-- Of build_flags in crates/tcpvisr-ingest/src/decode.rs: what the accessors of the flags read back.
use tcp_visr.Base.{
  ◌≡◌, refl, arith, ℕ, zero, suc, Bool, true, false, ◌&&◌, List, [], ◌∷◌, length, All,
}
use tcp_visr.Core.Segment.{fin, syn, rst, psh, ack_flag, urg, ece, cwr, ns}
use tcp_visr.Ingest.Crates.{TcpSlice}
use tcp_visr.Ingest.Decode.{set_bit, build_flags}

-- A test on the lists of a length, tried on them all.
abbrev every : ℕ → (List Bool → Bool) → Bool
every zero p = p []
every (suc n) p = every n (λ bs. p (false ∷ bs)) && every n (λ bs. p (true ∷ bs))

every-at : (p : List Bool → Bool) (bs : List Bool) → every (length bs) p ≡ true → p bs ≡ true
every-at p [] h = h
every-at p (true ∷ bs) h = every-at (λ cs. p (true ∷ cs)) bs (ground arith)
every-at p (false ∷ bs) h = every-at (λ cs. p (false ∷ cs)) bs (ground arith)

abbrev same : Bool → Bool → Bool
same true b = b
same false true = false
same false false = true

same-eq : (a b : Bool) → same a b ≡ true → a ≡ b
same-eq true true h = refl
same-eq false false h = refl
same-eq true false h = cc
same-eq false true h = cc

abbrev agree : List (Bool × Bool) → Bool
agree [] = true
agree (p ∷ ps) = same p.0 p.1 && agree ps

agree-All : (ps : List (Bool × Bool)) → agree ps ≡ true → All (λ p. p.0 ≡ p.1) ps
agree-All [] h = tt
agree-All (p ∷ ps) h = (same-eq p.0 p.1 (ground arith), agree-All ps (ground arith))

-- What is read from the flags of nine bits, with the bit that was set.
abbrev readings : List Bool → List (Bool × Bool)
readings (f ∷ s ∷ r ∷ p ∷ a ∷ u ∷ e ∷ c ∷ n ∷ []) =
    let bits = set_bit n 0x100 (
      set_bit c 0x80 (
        set_bit e 0x40 (
          set_bit u 0x20 (
            set_bit a 0x10
              (set_bit p 0x08 (set_bit r 0x04 (set_bit s 0x02 (set_bit f 0x01 0)))))))) in
    (fin bits, f)
    ∷ (syn bits, s)
    ∷ (rst bits, r)
    ∷ (psh bits, p)
    ∷ (ack_flag bits, a)
    ∷ (urg bits, u)
    ∷ (ece bits, e)
    ∷ (cwr bits, c)
    ∷ (ns bits, n)
    ∷ []
readings _ = []

every-readings : every 9 (λ bs. agree (readings bs)) ≡ true
unfolding fin syn rst psh ack_flag urg ece cwr ns
every-readings = refl

-- Each accessor reads from the flags of a decoded segment the bit that the TCP header has, whatever
-- the other bits are.
pub build_flags-read :
    (t : TcpSlice)
    → (fin (build_flags t) ≡ t.is_fin)
      × (syn (build_flags t) ≡ t.is_syn)
      × (rst (build_flags t) ≡ t.is_rst)
      × (psh (build_flags t) ≡ t.is_psh)
      × (ack_flag (build_flags t) ≡ t.is_ack)
      × (urg (build_flags t) ≡ t.is_urg)
      × (ece (build_flags t) ≡ t.is_ece)
      × (cwr (build_flags t) ≡ t.is_cwr)
      × (ns (build_flags t) ≡ t.is_ns)
unfolding build_flags
build_flags-read t =
    let bs =
      t.is_fin ∷ t.is_syn ∷ t.is_rst ∷ t.is_psh ∷ t.is_ack ∷ t.is_urg ∷ t.is_ece ∷ t.is_cwr
      ∷ t.is_ns ∷ [] in
    let h = agree-All (readings bs) (every-at (λ cs. agree (readings cs)) bs every-readings) in
    (
      h.0, h.1.0, h.1.1.0, h.1.1.1.0, h.1.1.1.1.0, h.1.1.1.1.1.0, h.1.1.1.1.1.1.0,
      h.1.1.1.1.1.1.1.0, h.1.1.1.1.1.1.1.1.0,
    )
