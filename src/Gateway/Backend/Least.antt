-- ===== src/Gateway/Backend/Least.antt =====
-- The pick is one of the candidates, and none of them is better.
use phoneborg.Shared.{
  ℕ, ◌≡◌, ◌≢◌, refl, sym, subst, ◌∙◌, ◌⊎◌, inl, inr, false, some, List, [], ◌∷◌, arith, In,
  In-append, In-take, In-drop, In-split, append_In, All-In, All-of_In, All, take, drop,
}
use phoneborg.Gateway.Backend.{Backend, Score, better, best_of, scan, from, least_by}

-- No candidate of the list is better.
abbrev pub IsBest : Score → Backend → List Backend → Type 0
IsBest score r c = All (λ b. better score b r ≡ false) c

-- Taking the better of two keeps a backend that is no better than the best so far no better.
best_of_keeps :
    (score : Score) (x b best : Backend)
    → better score x best ≡ false
    → better score x (best_of score b best) ≡ false
unfolding best_of
best_of_keeps score x b best h = ground arith

best_of_new : (score : Score) (b best : Backend) → better score b (best_of score b best) ≡ false
unfolding best_of
best_of_new score b best = ground arith

best_of_one :
    (score : Score) (b best : Backend) → (best_of score b best ≡ best) ⊎ (best_of score b best ≡ b)
unfolding best_of
best_of_one score b best = ground arith

better_self : (score : Score) (b : Backend) → better score b b ≡ false
unfolding better
better_self score b = ground arith

scan_keeps :
    (score : Score) (x best : Backend) (bs : List Backend)
    → better score x best ≡ false
    → better score x (scan score best bs) ≡ false
unfolding scan
scan_keeps score x best [] h = h
scan_keeps score x best (b ∷ bs) h =
    scan_keeps score x (best_of score b best) bs (best_of_keeps score x b best h)

scan-IsBest :
    (score : Score) (best : Backend) (bs : List Backend) → IsBest score (scan score best bs) bs
unfolding scan
scan-IsBest score best [] = tt
scan-IsBest score best (b ∷ bs) = (
  scan_keeps score b (best_of score b best) bs (best_of_new score b best),
  scan-IsBest score (best_of score b best) bs,
)

scan-In :
    (score : Score) (best : Backend) (bs : List Backend)
    → (scan score best bs ≡ best) ⊎ In (scan score best bs) bs
unfolding scan
scan-In score best [] = inl refl
scan-In score best (b ∷ bs) = elim (scan-In score (best_of score b best) bs) [
  | inr i ↦ inr (inr i)
  | inl e ↦ elim (best_of_one score b best) [ inl q ↦ inl (e ∙ q) | inr q ↦ inr (inl (e ∙ q)) ]
]

In-from : (r : Backend) (n : ℕ) (c : List Backend) → In r (from n c) → In r c
In-from r n c i = elim (In-append r (drop n c) (take n c) i) [
  | inl j ↦ In-drop r n c j
  | inr j ↦ In-take r n c j
]

from-In : (r : Backend) (n : ℕ) (c : List Backend) → In r c → In r (from n c)
from-In r n c i = elim (In-split r n c i) [
  | inl j ↦ append_In r (drop n c) (take n c) (inr j)
  | inr j ↦ append_In r (drop n c) (take n c) (inl j)
]

from-nil : (n : ℕ) (c : List Backend) → from n c ≡ [] → c ≡ []
from-nil n [] e = refl
from-nil n (b ∷ bs) e = absurd (subst (In b) e (from-In b n (b ∷ bs) (inl refl)))

-- A candidate that no other is better than.
abbrev pub Picks : Score → List Backend → Backend → Type 0
Picks score c r = In r c × IsBest score r c

scan-Picks :
    (score : Score) (b : Backend) (bs : List Backend) → Picks score (b ∷ bs) (scan score b bs)
scan-Picks score b bs =
    (scan-In score b bs, (scan_keeps score b b bs (better_self score b), scan-IsBest score b bs))

-- The scan from any start returns a candidate, and no candidate is better; it fails on an empty
-- list only.
pub least_by-Picks :
    (score : Score) (start : ℕ) (c : List Backend)
    → c ≢ []
    → (r : Backend) × (least_by score start c ≡ some r) × Picks score c r
unfolding least_by
least_by-Picks score start c h = go (from start c) refl
  where
    go :
        (d : List Backend)
        → from start c ≡ d
        → (r : Backend) × (least_by score start c ≡ some r) × Picks score c r
    go [] e = absurd (h (from-nil start c e))
    go (b ∷ bs) e =
        let (i, best) = scan-Picks score b bs in
        (
          scan score b bs,
          rw (e, least_by),
          (
            In-from (scan score b bs) start c (subst (In (scan score b bs)) (sym e) i),
            All-of_In (λ x. better score x (scan score b bs) ≡ false) c
                (λ x j.
                  All-In (λ y. better score y (scan score b bs) ≡ false) x (b ∷ bs) best
                    (subst (In x) e (from-In x start c j))),
          ),
        )
