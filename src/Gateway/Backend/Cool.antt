-- ===== src/Gateway/Backend/Cool.antt =====
-- Overheating candidates are left out while a cooler one is there.
use phoneborg.Shared.{
  ℕ, ◌≤◌, ◌≡◌, ◌≢◌, refl, sym, subst, ◌⊎◌, inl, inr, true, false, some, List, [], ◌∷◌, String,
  arith, In, In-keep, keep-In, any, any-In, any_of_In, All-In, keep,
}
use phoneborg.Gateway.Backend.{
  Backend, Score, is_cool, non_hot, any_non_hot, better, least_by, pick_least,
}
use phoneborg.Gateway.Backend.Least.{least_by-Picks}

-- The members of `non_hot c`: candidates, cool ones if there is any.
pub non_hot-In :
    (r : Backend) (c : List Backend)
    → In r (non_hot c)
    → In r c × (any_non_hot c ≡ true → r.hot ≡ false)
unfolding non_hot any_non_hot
non_hot-In r c i = go (keep is_cool c) refl
  where
    go : (d : List Backend) → keep is_cool c ≡ d → In r c × (any_non_hot c ≡ true → r.hot ≡ false)
    go [] e = (
      subst (In r) (rw (e, non_hot)) i,
      λ h. let (b, j, t) = any-In is_cool c h in absurd (subst (In b) e (keep-In is_cool b c j t)),
    )
    go (b ∷ bs) e =
        let j : In r (keep is_cool c) = subst (In r) (rw (e, non_hot)) i in
        let (k, t) = In-keep is_cool r c j in (k, λ _. ground arith)

-- Every candidate that counts is a member: a cool one, or any if all are hot.
pub In-non_hot :
    (r : Backend) (c : List Backend)
    → In r c
    → (r.hot ≡ false) ⊎ (any_non_hot c ≡ false)
    → In r (non_hot c)
unfolding non_hot any_non_hot
In-non_hot r c i h = go (keep is_cool c) refl
  where
    go : (d : List Backend) → keep is_cool c ≡ d → In r (non_hot c)
    go [] e = subst (In r) (sym (rw (e, non_hot))) i
    go (b ∷ bs) e =
        subst (In r) {x = b ∷ bs} (sym (rw (e, non_hot)))
          (subst (In r) e (keep-In is_cool r c i (cool h)))
      where
        one_cool : any is_cool c ≡ true
        one_cool =
            let (j, t) = In-keep is_cool b c (subst (In b) (sym e) (inl refl)) in
            any_of_In is_cool b c j t

        cool : (r.hot ≡ false) ⊎ (any is_cool c ≡ false) → is_cool r ≡ true
        cool (inl t) = ground arith
        cool (inr f) = absurd (ground (arith, one_cool))

pub non_hot-ne_nil : (c : List Backend) → c ≢ [] → non_hot c ≢ []
unfolding non_hot
non_hot-ne_nil c h = ground arith

-- A pick among the candidates that are not overheating, by a score.
abbrev pub PicksCool : Score → List Backend → Backend → Type 0
PicksCool score c r =
    In r c
    × (any_non_hot c ≡ true → r.hot ≡ false)
    × ((b : Backend)
        → In b c
        → (b.hot ≡ false) ⊎ (any_non_hot c ≡ false)
        → better score b r ≡ false)

pub least_by-PicksCool :
    (score : Score) (start : ℕ) (c : List Backend)
    → c ≢ []
    → (r : Backend) × (least_by score start (non_hot c) ≡ some r) × PicksCool score c r
least_by-PicksCool score start c h =
    let (r, e, p) = least_by-Picks score start (non_hot c) (non_hot-ne_nil c h) in
    let (i, cool) = non_hot-In r c p.0 in
    (
      r,
      e,
      (
        i,
        cool,
        λ b j k. All-In (λ x. better score x r ≡ false) b (non_hot c) p.1 (In-non_hot b c j k),
      ),
    )

module _ (rr : ℕ) (c : List Backend) (inflight : String → ℕ) where
  -- The least-inflight and the spread policy, on any candidates at all, pick one of them; it is hot
  -- only if all are; and of the candidates that count (the cool ones, or all if none is cool) none
  -- has fewer requests in flight, nor as many with a higher speed.
  pub pick_least-lightest :
      c ≢ []
      → (r : Backend) × ((pick_least rr c inflight).1 ≡ some r)
        × In r c
        × (any_non_hot c ≡ true → r.hot ≡ false)
        × ((b : Backend)
            → In b c
            → (b.hot ≡ false) ⊎ (any_non_hot c ≡ false)
            → (inflight r.node_id ≤ inflight b.node_id)
              × (inflight r.node_id ≡ inflight b.node_id → b.speed ≤ r.speed))
  unfolding pick_least
  pick_least-lightest h =
      let (r, e, p) = least_by-PicksCool (λ b. (inflight b.node_id, 0)) _ c h in
      (r, e, p.0, p.1, λ b i k. lighter r b (p.2 b i k))
    where
      lighter :
          (r b : Backend)
          → better (λ x. (inflight x.node_id, 0)) b r ≡ false
          → (inflight r.node_id ≤ inflight b.node_id)
            × (inflight r.node_id ≡ inflight b.node_id → b.speed ≤ r.speed)
      lighter r b k = unfold better in ground arith
