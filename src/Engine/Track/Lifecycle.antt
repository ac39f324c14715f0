-- ===== src/Engine/Track/Lifecycle.antt =====
-- The lifecycle of a connection over any segments.
use tcp_visr.Base.{ℕ, ◌≤◌, ◌≡◌, ◌⊎◌, refl, ap, ◌∙◌, true, false, List, [], ◌∷◌, arith}
use tcp_visr.Core.Segment.{TcpFlags, Segment, fin, rst}
use tcp_visr.Engine.State.{syn_sent, established, fin_wait, closed, reset, rank, advance_to}
use tcp_visr.Engine.Conn.{Direction, o2r, r2o}
use tcp_visr.Engine.Track.{Life, live_on, is_syn_ack}

-- The lifecycle after any segments, each with its direction.
pub live_all : Life → List (Segment × Direction) → Life
live_all l [] = l
live_all l ((seg, dir) ∷ xs) = live_all (live_on seg.flags seg.payload_len dir l) xs

live_on-rank :
    (f : TcpFlags) (n : ℕ) (dir : Direction) (l : Life)
    → rank l.state ≤ rank (live_on f n dir l).state
unfolding live_on rank advance_to
live_on-rank f n o2r l = ground arith
live_on-rank f n r2o l = ground arith

live_on-reset :
    (f : TcpFlags) (n : ℕ) (dir : Direction) (l : Life) → l.state ≡ reset → live_on f n dir l ≡ l
unfolding live_on
live_on-reset f n dir l h = ground arith

-- Whatever the segments, the state of a connection never goes back to one of lower rank.
pub live_all-monotone :
    (l : Life) (xs : List (Segment × Direction)) → rank l.state ≤ rank (live_all l xs).state
unfolding live_all
live_all-monotone l [] = omega arith
live_all-monotone l ((seg, dir) ∷ xs) =
    let next = live_on seg.flags seg.payload_len dir l in
    let step = live_on-rank seg.flags seg.payload_len dir l in
    let rest = live_all-monotone next xs in omega arith

-- A connection that was reset stays so whatever the segments, with its FIN flags as they were.
pub live_all-reset :
    (l : Life) (xs : List (Segment × Direction)) → l.state ≡ reset → live_all l xs ≡ l
unfolding live_all
live_all-reset l [] h = refl
live_all-reset l ((seg, dir) ∷ xs) h =
    let same = live_on-reset seg.flags seg.payload_len dir l h in
    let next = live_on seg.flags seg.payload_len dir l in
    live_all-reset next xs (ap (λ k. k.state) same ∙ h) ∙ same

-- A connection counts as closed exactly when both sides have sent a FIN, unless it was reset.
pub record IsSettled (l : Life) : Type 0 where
  pub closed_fins : l.state ≡ closed → (l.fin_o2r ≡ true) × (l.fin_r2o ≡ true)
  pub fins_closed : l.fin_o2r ≡ true → l.fin_r2o ≡ true → (l.state ≡ closed) ⊎ (l.state ≡ reset)
  pub waiting_fin : l.state ≡ fin_wait → (l.fin_o2r ≡ true) ⊎ (l.fin_r2o ≡ true)

live_on-IsSettled :
    (f : TcpFlags) (n : ℕ) (dir : Direction) (l : Life)
    → IsSettled l
    → IsSettled (live_on f n dir l)
unfolding live_on advance_to
live_on-IsSettled f n o2r l h = ground arith
live_on-IsSettled f n r2o l h = ground arith

-- That a closed connection has seen both FINs, that one with both FINs is closed or was reset, and
-- that a half-closed one has seen a FIN, holds after any segments if it held before.
pub live_all-IsSettled :
    (l : Life) (xs : List (Segment × Direction)) → IsSettled l → IsSettled (live_all l xs)
unfolding live_all
live_all-IsSettled l [] h = h
live_all-IsSettled l ((seg, dir) ∷ xs) h =
    live_all-IsSettled (live_on seg.flags seg.payload_len dir l) xs
      (live_on-IsSettled seg.flags seg.payload_len dir l h)

-- A SYN-ACK with no RST or FIN takes a connection that has only sent its SYN straight to
-- `established`: no state between is ever observed.
pub syn_ack-established :
    (f : TcpFlags) (n : ℕ) (dir : Direction) (l : Life)
    → l.state ≡ syn_sent
    → is_syn_ack f ≡ true
    → rst f ≡ false
    → fin f ≡ false
    → (live_on f n dir l).state ≡ established
unfolding live_on advance_to is_syn_ack
syn_ack-established f n dir l s h r d = ground arith
