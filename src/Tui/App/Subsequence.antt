-- ===== src/Tui/App/Subsequence.antt =====
-- Of is_subsequence in app.rs: the greedy scan finds a subsequence where there is one.
use tcp_visr.Base.{
  ◌≡◌, refl, ◌∙◌, ◌&&◌, ◌||◌, arith, ℕ, ◌==◌, Bool, true, false, [], ◌∷◌, Bool-cases, inl, inr,
  if◌then◌else◌,
}
use tcp_visr.Tui.App.{Text, after_char, is_subsequence}

-- The characters of the one stand in the other in their order: each character of the text is taken
-- for the next of the query, or passed over.
unfoldable pub stands_in : Text → Text → Bool
stands_in [] hay = true
stands_in (c ∷ cs) [] = false
stands_in (c ∷ cs) (h ∷ hs) =
    let taken = stands_in cs hs in
    let passed_over = stands_in (c ∷ cs) hs in (c == h && taken) || passed_over

-- A query without its first character stands where the query does.
stands_in-tail : (c : ℕ) (cs hay : Text) → stands_in (c ∷ cs) hay ≡ true → stands_in cs hay ≡ true
unfolding stands_in
stands_in-tail c [] hay h = refl
stands_in-tail c (d ∷ ds) [] h = cc
stands_in-tail c (d ∷ ds) (h ∷ hs) k = let l = stands_in-tail c (d ∷ ds) hs in ground (arith, k, l)

scan-step :
    (c h : ℕ) (cs hs : Text)
    → is_subsequence (c ∷ cs) (h ∷ hs)
      ≡ (if h == c then is_subsequence cs hs else is_subsequence (c ∷ cs) hs)
unfolding is_subsequence after_char
scan-step c h cs hs = elim (Bool-cases (h == c)) [ inl e ↦ rw e refl | inr e ↦ rw e refl ]

-- The scan finds the query in a text exactly where its characters stand there in their order.
pub is_subsequence-stands_in :
    (needle hay : Text) → is_subsequence needle hay ≡ stands_in needle hay
unfolding stands_in is_subsequence after_char
is_subsequence-stands_in [] hay = refl
is_subsequence-stands_in (c ∷ cs) [] = refl
is_subsequence-stands_in (c ∷ cs) (h ∷ hs) =
    let one = is_subsequence-stands_in cs hs in
    let other = is_subsequence-stands_in (c ∷ cs) hs in
    let weaker = stands_in-tail c cs hs in
    scan-step c h cs hs ∙ elim (Bool-cases (h == c)) [
      | inl e ↦ rw e (one ∙ ground arith)
      | inr e ↦ rw e (other ∙ ground arith)
    ]
