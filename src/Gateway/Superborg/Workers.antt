-- ===== src/Gateway/Superborg/Workers.antt =====
-- Which worker gets a task.
use phoneborg.Shared.{
  ℕ, suc, ap, length, ◌≤◌, ◌≡◌, ◌≢◌, refl, sym, subst, ◌⊎◌, inl, inr, Bool, true, false, not, ◌||◌,
  some, List, [], ◌∷◌, String, str_eq, arith, Bool-cases, Option-cases, insert, keep,
  first_nonempty, In, In-keep, keep-In, All, All-In, All-of_In,
}
use phoneborg.Gateway.Backend.{Backend, better}
use phoneborg.Gateway.Backend.Least.{least_by-Picks}
use phoneborg.Gateway.Target.{member}
use phoneborg.Gateway.Superborg.{
  worker_name, find_node, find_worker, least_busy, fastest_free, worker_for, assign,
}

find_node-In :
    (p : Backend → Bool) (r : Backend) (bs : List Backend) → find_node p bs ≡ some r → In r bs
find_node-In p r [] e = absurd (ground arith)
find_node-In p r (b ∷ bs) e = ground (arith, find_node-In p r bs)

abbrev pub is_free : List (String × Bool) → Backend → Bool
is_free used b = not (member b.node_id used)

-- A choice that is fair: a worker, and one that has a task already only if all have.
abbrev pub IsFair : List Backend → List (String × Bool) → Backend → Type 0
IsFair workers used r =
    In r workers × ((is_free used r ≡ true) ⊎ All (λ b. is_free used b ≡ false) workers)

-- The choices are fair, one after the other.
abbrev pub AreFair : List Backend → List (String × Bool) → List Backend → Type 0
AreFair workers used [] = Unit {0}
AreFair workers used (b ∷ bs) =
    IsFair workers used b × AreFair workers (insert b.node_id true used) bs

module _ (inflight : String → ℕ) where
  free-first :
      (used : List (String × Bool)) (r : Backend) (workers : List Backend)
      → In r (first_nonempty (keep (is_free used) workers) workers)
      → IsFair workers used r
  unfolding first_nonempty
  free-first used r workers i = go (keep (is_free used) workers) refl
    where
      go : (d : List Backend) → keep (is_free used) workers ≡ d → IsFair workers used r
      go [] e = (
        rw (e, first_nonempty) at i,
        inr (
            All-of_In (λ b. is_free used b ≡ false) workers
              (λ b j. elim (Bool-cases (is_free used b)) [
                | inl t ↦ absurd (subst (In b) e (keep-In (is_free used) b workers j t))
                | inr f ↦ f
              ])),
      )
      go (x ∷ xs) e =
          let j : In r (keep (is_free used) workers) =
            subst (In r) (sym e) (rw (e, first_nonempty) at i) in
          let (k, t) = In-keep (is_free used) r workers j in (k, inl t)

  first_nonempty-ne_nil : (xs ys : List Backend) → ys ≢ [] → first_nonempty xs ys ≢ []
  unfolding first_nonempty
  first_nonempty-ne_nil [] ys h = h
  first_nonempty-ne_nil (x ∷ xs) ys h = λ e. cc

  least_busy-IsFair :
      (workers : List Backend) (used : List (String × Bool))
      → workers ≢ []
      → (r : Backend) × (least_busy inflight workers used ≡ some r) × IsFair workers used r
  unfolding least_busy
  least_busy-IsFair workers used h =
      let (r, e, p) =
        least_by-Picks (λ b. (inflight b.node_id, 0)) 0
          (first_nonempty (keep (is_free used) workers) workers)
          (first_nonempty-ne_nil (keep (is_free used) workers) workers h) in
      (r, e, free-first used r workers p.0)

  worker_for-IsFair :
      (workers : List Backend) (used : List (String × Bool)) (name : String)
      → workers ≢ []
      → (r : Backend) × (worker_for inflight workers used name ≡ some r) × IsFair workers used r
  unfolding worker_for find_worker
  worker_for-IsFair workers used name h = elim (Option-cases (find_worker workers name)) [
    | inl e ↦ let (r, q, fair) = least_busy-IsFair workers used h in (r, rw (e, worker_for) q, fair)
    | inr (b, e) ↦ elim (Bool-cases (member b.node_id used)) [
      | inl m ↦
          let (r, q, fair) = least_busy-IsFair workers used h in
          (r, rw (e, worker_for) (rw m q), fair)
      | inr m ↦ (
        b,
        rw (e, worker_for) (rw m refl),
        (
          find_node-In (λ x. str_eq (worker_name x) name || str_eq x.node_id name) b workers e,
          inl (ground (arith, m)),
        ),
      )
    ]
  ]

  -- Each task of a `delegate` call gets a worker, whatever workers the tasks ask for and whatever is
  -- in flight, if there is a worker at all: there are as many assigned workers as
  -- tasks, and a worker gets a
  -- second task only when every worker has one.
  pub assign-AreFair :
      (workers : List Backend) (used : List (String × Bool)) (names : List String)
      → workers ≢ []
      → (bs : List Backend) × (assign inflight workers used names ≡ some bs)
        × (length bs ≡ length names)
        × AreFair workers used bs
  unfolding assign
  assign-AreFair workers used [] h = ([], refl, refl, tt)
  assign-AreFair workers used (name ∷ names) h =
      let (b, e, fair) = worker_for-IsFair workers used name h in
      let (bs, q, n, rest) = assign-AreFair workers (insert b.node_id true used) names h in
      (b ∷ bs, rw (e, assign) (rw q refl), ap suc n, (fair, rest))

  keep-first :
      (used : List (String × Bool)) (b : Backend) (workers : List Backend)
      → In b workers
      → is_free used b ≡ true
      → In b (first_nonempty (keep (is_free used) workers) workers)
  unfolding first_nonempty
  keep-first used b workers i t =
      go (keep (is_free used) workers) (keep-In (is_free used) b workers i t)
    where
      go : (d : List Backend) → In b d → In b (first_nonempty d workers)
      go [] j = absurd j
      go (x ∷ xs) j = j

  -- The worker that a job's task goes to, if there is a worker at all: a free one, unless every
  -- worker has a task, and no free worker has fewer requests in flight, nor as many with a higher
  -- speed.
  fastest_free-IsFair :
      (workers : List Backend) (used : List (String × Bool))
      → workers ≢ []
      → (r : Backend) × (fastest_free inflight workers used ≡ some r)
        × IsFair workers used r
        × ((b : Backend)
            → In b workers
            → is_free used b ≡ true
            → (inflight r.node_id ≤ inflight b.node_id)
              × (inflight r.node_id ≡ inflight b.node_id → b.speed ≤ r.speed))
  unfolding fastest_free
  fastest_free-IsFair workers used h =
      let score : Backend → ℕ × ℕ = λ b. (inflight b.node_id, 0) in
      let c = first_nonempty (keep (is_free used) workers) workers in
      let (r, e, p) =
        least_by-Picks score 0 c (first_nonempty-ne_nil (keep (is_free used) workers) workers h) in
      (
        r,
        e,
        free-first used r workers p.0,
        λ b i t.
            lighter r b
              (All-In (λ x. better score x r ≡ false) b c p.1 (keep-first used b workers i t)),
      )
    where
      lighter :
          (r b : Backend)
          → better (λ x. (inflight x.node_id, 0)) b r ≡ false
          → (inflight r.node_id ≤ inflight b.node_id)
            × (inflight r.node_id ≡ inflight b.node_id → b.speed ≤ r.speed)
      lighter r b k = unfold better in ground arith
