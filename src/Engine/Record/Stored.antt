-- ===== src/Engine/Record/Stored.antt =====
-- What every `record_*` and `collect_*` step keeps: the count of samples stays in step with what
-- the connection holds, the ceiling of a fail-fast policy is not passed, and neither the reported
-- view of the connection nor its lifecycle changes.
use tcp_visr.Base.{
  ℕ, suc, ◌+◌, ◌≤◌, ◌≡◌, refl, ap, ◌∙◌, Bool, true, false, none, arith, inl, inr, Bool-cases, leb,
  if◌then◌else◌, is_some,
}
use tcp_visr.Engine.Config.{EngineConfig, max_samples, window}
use tcp_visr.Engine.Track.{ConnTrack, held, view, life, pop_longest_front}
use tcp_visr.Engine.Track.Held.{pop_longest_front-held}
use tcp_visr.Engine.Record.{Focus, evict_oldest_global, admit, store_admitted, store}

-- Under a fail-fast policy the count is at most the ceiling, and at it once overflowed.
pub record Ceiling (cfg : EngineConfig) (collected : ℕ) (overflowed : Bool) : Type 0 where
  pub below : collected ≤ max_samples cfg.retention
  pub full : overflowed ≡ true → collected ≡ max_samples cfg.retention

pub record Stored (cfg : EngineConfig) (f g : Focus) : Type 0 where
  pub balance : held f.conn ≤ f.collected → g.collected + held f.conn ≡ f.collected + held g.conn
  pub viewed : view g.conn ≡ view f.conn
  pub lived : life g.conn ≡ life f.conn
  pub ceiling :
      window cfg.retention ≡ none
      → Ceiling cfg f.collected f.overflowed
      → Ceiling cfg g.collected g.overflowed

pub Stored-refl : (cfg : EngineConfig) (f : Focus) → Stored cfg f f
Stored-refl cfg f = record { balance = λ h. refl; viewed = refl; lived = refl; ceiling = λ w c. c }

pub Stored-trans :
    (cfg : EngineConfig) (f g h : Focus) → Stored cfg f g → Stored cfg g h → Stored cfg f h
Stored-trans cfg f g h a b = record {
  balance = λ le. let p = a.balance le in let q = b.balance (omega arith) in omega arith;
  viewed = b.viewed ∙ a.viewed;
  lived = b.lived ∙ a.lived;
  ceiling = λ w c. b.ceiling w (a.ceiling w c);
}

-- A step under a test.
pub Stored-if :
    (cfg : EngineConfig) (b : Bool) (f g h : Focus)
    → Stored cfg f g
    → Stored cfg f h
    → Stored cfg f (if b then g else h)
Stored-if cfg true f g h p q = p
Stored-if cfg false f g h p q = q

-- A step on the connection that leaves its samples, view and lifecycle as they are.
pub Stored-quiet :
    (cfg : EngineConfig) (f : Focus) (c : ConnTrack)
    → held c ≡ held f.conn
    → view c ≡ view f.conn
    → life c ≡ life f.conn
    → Stored cfg f (record f { conn = c })
Stored-quiet cfg f c h v l = record {
  balance = λ le. omega arith;
  viewed = v;
  lived = l;
  ceiling = λ w k. k;
}

-- A push that adds one sample.
pub record Pushes (push : ConnTrack → ConnTrack) : Type 0 where
  pub one : (c : ConnTrack) → held (push c) ≡ suc (held c)
  pub viewed : (c : ConnTrack) → view (push c) ≡ view c
  pub lived : (c : ConnTrack) → life (push c) ≡ life c

evict_oldest_global-Stored :
    (cfg : EngineConfig) (f : Focus)
    → (held f.conn ≤ f.collected
        → (evict_oldest_global f).collected + held f.conn
          ≡ f.collected + held (evict_oldest_global f).conn)
      × (view (evict_oldest_global f).conn ≡ view f.conn)
      × (life (evict_oldest_global f).conn ≡ life f.conn)
unfolding evict_oldest_global
evict_oldest_global-Stored cfg f =
    let (popped, kept, viewed, lived) = pop_longest_front-held f.conn in
    elim (Bool-cases (pop_longest_front f.conn).1) [
      | inl t ↦ rw t ((λ le. let one = popped t in omega arith), viewed, lived)
      | inr n ↦ let same = ap held (kept n) in rw n ((λ le. omega arith), viewed, lived)
    ]

module _ (cfg : EngineConfig) (push : ConnTrack → ConnTrack) (p : Pushes push) where
  pub store_admitted-Stored : (f : Focus) → Stored cfg f (store_admitted cfg push f)
  unfolding store_admitted admit
  store_admitted-Stored f =
      let (balance, viewed, lived) = evict_oldest_global-Stored cfg f in
      let g = evict_oldest_global f in
      elim (Bool-cases (leb (max_samples cfg.retention) f.collected)) [
        | inr room ↦ rw room (record {
          balance = λ le. let one = p.one f.conn in omega arith;
          viewed = p.viewed f.conn;
          lived = p.lived f.conn;
          ceiling = λ w c. record {
            below = ground arith;
            full = λ o. let at_limit = c.full o in absurd (ground arith);
          };
        })
        | inl full ↦ elim (Bool-cases (is_some (window cfg.retention))) [
          | inl evicts ↦
              rw (full, evicts)
                (record {
                  balance = λ le. let one = p.one g.conn in let even = balance le in omega arith;
                  viewed = p.viewed g.conn ∙ viewed;
                  lived = p.lived g.conn ∙ lived;
                  ceiling = λ w c. absurd (ground arith);
                })
          | inr fails ↦
              rw (full, fails)
                (record {
                  balance = λ le. refl;
                  viewed = refl;
                  lived = refl;
                  ceiling = λ w c. record {
                    below = c.below;
                    full = λ o. let below = c.below in ground arith;
                  };
                })
        ]
      ]

  pub store-Stored : (f : Focus) → Stored cfg f (store cfg push f)
  unfolding store
  store-Stored f =
      Stored-if cfg f.overflowed f f (store_admitted cfg push f) (Stored-refl cfg f)
        (store_admitted-Stored f)
