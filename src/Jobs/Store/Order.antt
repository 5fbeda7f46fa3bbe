-- ===== src/Jobs/Store/Order.antt =====
-- Which job runs next.
use mathlib.Core.List.{Perm}
use phoneborg.Shared.{
  ◌≤◌, ◌≡◌, refl, sym, ◌∙◌, ap, subst, ◌⊎◌, inl, inr, true, false, ◌&&◌, Option, none, some, List,
  [], ◌∷◌, String, ltb, arith, Bool, Bool-cases, In, leb, IsSorted, sort_by_perm, sort_by-IsSorted,
}
use phoneborg.Jobs.{Job}
use phoneborg.Jobs.Store.{Jobs, is_queued, oldest, next, JobSummary, summaries, list_jobs}

-- The job is queued, stands in the list or is the best so far, and none in the list is older.
abbrev pub IsOldest : List (String × Job) → Job → Type 0
IsOldest m b =
    (id : String) (j : Job) → In (id, j) m → is_queued j.status ≡ true → b.created ≤ j.created

-- What the loop gives, from the best job so far.
abbrev Chosen : Option Job → List (String × Job) → Option Job → Type 0
Chosen none m none = (id : String) (j : Job) → In (id, j) m → is_queued j.status ≡ false
Chosen (some b) m none = ⊥
Chosen none m (some r) = (is_queued r.status ≡ true) × ((id : String) × In (id, r) m) × IsOldest m r
Chosen (some b) m (some r) =
    ((b ≡ r) ⊎ ((is_queued r.status ≡ true) × ((id : String) × In (id, r) m)))
    × (r.created ≤ b.created)
    × IsOldest m r

extend :
    (id : String) (j r : Job) (m : List (String × Job))
    → IsOldest m r
    → (is_queued j.status ≡ true → r.created ≤ j.created)
    → IsOldest ((id, j) ∷ m) r
extend id j r m h k id' j' (inl e) q =
    let same : j' ≡ j = ap (λ p. p.1) e in
    subst (λ x. r.created ≤ x.created) (sym same) (k (ap (λ x. is_queued x.status) (sym same) ∙ q))
extend id j r m h k id' j' (inr i) q = h id' j' i q

skip :
    (id : String) (j : Job) (m : List (String × Job)) (r : Option Job)
    → is_queued j.status ≡ false
    → Chosen none m r
    → Chosen none ((id, j) ∷ m) r
skip id j m none f h = λ id' j' i. none_queued id' j' i
  where
    none_queued :
        (id' : String) (j' : Job) → In (id', j') ((id, j) ∷ m) → is_queued j'.status ≡ false
    none_queued id' j' (inl e) = ap (λ p. is_queued p.1.status) e ∙ f
    none_queued id' j' (inr i) = h id' j' i
skip id j m (some r) f (q, (k, i), o) =
    (q, (k, inr i), extend id j r m o (λ t. absurd (ground (arith, t, f))))

first :
    (id : String) (j : Job) (m : List (String × Job)) (r : Option Job)
    → is_queued j.status ≡ true
    → Chosen (some j) m r
    → Chosen none ((id, j) ∷ m) r
first id j m none t h = absurd h
first id j m (some r) t (inl e, le, o) = (
  ap (λ x. is_queued x.status) (sym e) ∙ t,
  (id, inl (ap (λ x. (id, x)) (sym e))),
  extend id j r m o (λ _. le),
)
first id j m (some r) t (inr (q, (k, i)), le, o) = (q, (k, inr i), extend id j r m o (λ _. le))

younger :
    (b : Job) (id : String) (j : Job) (m : List (String × Job)) (r : Option Job)
    → (is_queued j.status && ltb j.created b.created) ≡ false
    → Chosen (some b) m r
    → Chosen (some b) ((id, j) ∷ m) r
younger b id j m none f h = absurd h
younger b id j m (some r) f (from, le, o) = (
  elim from [ inl e ↦ inl e | inr (q, (k, i)) ↦ inr (q, (k, inr i)) ],
  le,
  extend id j r m o (λ t. ground (arith, t, f, le)),
)

older :
    (b : Job) (id : String) (j : Job) (m : List (String × Job)) (r : Option Job)
    → (is_queued j.status && ltb j.created b.created) ≡ true
    → Chosen (some j) m r
    → Chosen (some b) ((id, j) ∷ m) r
older b id j m none t h = absurd h
older b id j m (some r) t (from, le, o) = (
  elim from [
    | inl e ↦ inr (
      ap (λ x. is_queued x.status) (sym e) ∙ ground (arith, t),
      (id, inl (ap (λ x. (id, x)) (sym e))),
    )
    | inr (q, (k, i)) ↦ inr (q, (k, inr i))
  ],
  ground (arith, t, le),
  extend id j r m o (λ _. le),
)

oldest-Chosen : (best : Option Job) (m : List (String × Job)) → Chosen best m (oldest best m)
unfolding oldest
oldest-Chosen none [] = λ id j i. absurd i
oldest-Chosen (some b) [] = (inl refl, omega arith, λ id j i. absurd i)
oldest-Chosen none ((id, j) ∷ m) = elim (Bool-cases (is_queued j.status)) [
  | inl e ↦ rw e (first id j m (oldest (some j) m) e (oldest-Chosen (some j) m))
  | inr e ↦ rw e (skip id j m (oldest none m) e (oldest-Chosen none m))
]
oldest-Chosen (some b) ((id, j) ∷ m) =
    elim (Bool-cases (is_queued j.status && ltb j.created b.created)) [
      | inl e ↦ rw e (older b id j m (oldest (some j) m) e (oldest-Chosen (some j) m))
      | inr e ↦ rw e (younger b id j m (oldest (some b) m) e (oldest-Chosen (some b) m))
    ]

-- No job, or the one to run next.
abbrev pub IsNext : List (String × Job) → Option Job → Type 0
IsNext m none = (id : String) (j : Job) → In (id, j) m → is_queued j.status ≡ false
IsNext m (some r) = (is_queued r.status ≡ true) × ((id : String) × In (id, r) m) × IsOldest m r

-- In every store, `next` gives no job only if none is queued, and else a queued job of the store that no
-- queued job is older than.
pub next-IsNext : (s : Jobs) → IsNext s.jobs (next s)
unfolding next
next-IsNext s = promised (oldest none s.jobs) (oldest-Chosen none s.jobs)
  where
    promised : (r : Option Job) → Chosen none s.jobs r → IsNext s.jobs r
    promised none h = h
    promised (some r) h = h

abbrev pub is_newer : JobSummary → JobSummary → Bool
is_newer a b = leb b.created a.created

-- The list of jobs shows every job of the store, none twice, the newest first.
list_jobs-IsSorted :
    (s : Jobs) → Perm (list_jobs s) (summaries s.jobs) × IsSorted is_newer (list_jobs s)
unfolding list_jobs
list_jobs-IsSorted s = (
  sort_by_perm is_newer (summaries s.jobs),
  sort_by-IsSorted is_newer (λ a b h. ground (arith, h)) (λ a b c h k. ground (arith, h, k))
      (summaries s.jobs),
)
