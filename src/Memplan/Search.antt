-- ===== src/Memplan/Search.antt =====
-- What the search of `Plan` returns, from the need of a configuration alone.
use phoneborg.Shared.{
  ℕ, zero, suc, ◌≤◌, ◌<◌, min, ◌≡◌, inl, inr, true, none, some, List, [], ◌∷◌, In, All, pos, ◌≤ℤ◌,
  arith, Option-cases, subst, dec_lt, lt→ltb,
}
use phoneborg.Memplan.{Kv, Result, Sizing, Shrunk, returned, floored, min_ctx, try, halve, shrink}

-- A configuration fits the budget.
abbrev pub FitsAt : Sizing → ℕ → ℕ → Kv → Type 0
FitsAt z ctx slots kv = pos (z.need_of ctx slots kv) ≤ℤ z.budget

-- No cache type of the list fits.
abbrev pub NoneFits : Sizing → List Kv → ℕ → ℕ → Type 0
NoneFits z kvs ctx slots = All (λ kv. ¬ FitsAt z ctx slots kv) kvs

-- A result that says it fits: its cache type is a candidate, its need is that of the configuration,
-- and lies in the budget.
abbrev pub IsFit : Sizing → List Kv → Result → Type 0
IsFit z kvs r = In r.kv kvs × (r.need ≡ z.need_of r.ctx r.slots r.kv) × FitsAt z r.ctx r.slots r.kv

pub try-some :
    (z : Sizing) (kvs : List Kv) (ctx slots : ℕ) (kv : Kv) (need : ℕ)
    → try z kvs ctx slots ≡ some (kv, need)
    → In kv kvs × (need ≡ z.need_of ctx slots kv) × FitsAt z ctx slots kv
unfolding try
try-some z [] ctx slots kv need e = cc
try-some z (k ∷ kvs) ctx slots kv need e = ground (arith, try-some z kvs ctx slots kv need)

pub try-none :
    (z : Sizing) (kvs : List Kv) (ctx slots : ℕ)
    → try z kvs ctx slots ≡ none
    → NoneFits z kvs ctx slots
unfolding try
try-none z [] ctx slots e = tt
try-none z (k ∷ kvs) ctx slots e = ground (arith, try-none z kvs ctx slots)

pub halve_bounds : (ctx : ℕ) → min_ctx < ctx → (min_ctx ≤ halve ctx) × (halve ctx < ctx)
unfolding halve
halve_bounds ctx h = ground arith

-- Every result of the loop fits and keeps the slots; where the loop runs to its end, the context is
-- at the floor and no context met on the way fits.
abbrev pub Shrinks : Sizing → List Kv → ℕ → ℕ → Shrunk → Type 0
Shrinks z kvs slots ctx (returned r) =
    IsFit z kvs r × (r.fits ≡ true) × (r.slots ≡ slots) × (r.ctx < ctx) × (min_ctx ≤ r.ctx)
Shrinks z kvs slots ctx (floored c) =
    (c ≡ min ctx min_ctx) × (min_ctx < ctx → NoneFits z kvs c slots)

-- One more round in front, where nothing fits at the halved context.
Shrinks-halve :
    (z : Sizing) (kvs : List Kv) (slots ctx : ℕ) (r : Shrunk)
    → min_ctx < ctx
    → NoneFits z kvs (halve ctx) slots
    → Shrinks z kvs slots (halve ctx) r
    → Shrinks z kvs slots ctx r
Shrinks-halve z kvs slots ctx (returned r) h n s =
    (s.0, s.1, s.2, omega (arith, halve_bounds ctx h), s.4)
Shrinks-halve z kvs slots ctx (floored c) h n s = (
  omega (arith, halve_bounds ctx h),
  λ _. elim (dec_lt min_ctx (halve ctx)) [
    | yes more ↦ s.1 more
    | no last ↦ subst (λ d. NoneFits z kvs d slots) (omega (arith, halve_bounds ctx h)) n
  ],
)

pub shrink_lem :
    (fuel : ℕ) (z : Sizing) (kvs : List Kv) (slots ctx : ℕ)
    → ctx ≤ fuel
    → Shrinks z kvs slots ctx (shrink fuel z kvs slots ctx)
unfolding shrink
shrink_lem zero z kvs slots ctx h = ground arith
shrink_lem (suc fuel) z kvs slots ctx h = elim (dec_lt min_ctx ctx) [
  | no done ↦ ground arith
  | yes more ↦ elim (Option-cases (try z kvs (halve ctx) slots)) [
    | inl e ↦
        rw (e, lt→ltb _ _ more)
          (Shrinks-halve z kvs slots ctx _ more (try-none z kvs (halve ctx) slots e)
            (shrink_lem fuel z kvs slots (halve ctx) (omega (arith, halve_bounds ctx more))))
    | inr (hit, e) ↦
        rw (e, lt→ltb _ _ more)
          (ground (arith, halve_bounds ctx more, try-some z kvs (halve ctx) slots hit.0 hit.1 e))
  ]
]
