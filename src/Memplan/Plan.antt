-- ===== src/Memplan/Plan.antt =====
-- The guarantees of `Plan`: a result that fits is within the budget, and a refusal means that the
-- smallest configuration does not fit either.
use phoneborg.Shared.{
  ℕ, ◌≤◌, min, ◌≡◌, refl, sym, ◌⊎◌, inl, inr, true, false, if◌then◌else◌, ◌==◌, List, [], ◌∷◌, In,
  ℤ, pos, ◌≤ℤ◌, arith, Option-cases, dec_lt, lt→ltb, ltb_ge, subst,
}
use phoneborg.Memplan.{
  Kv, KvRequest, Shape, Result, Sizing, Shrunk, returned, floored, min_ctx, try, refused,
  reduce_slots, after_shrink, search_config, sizing_of, plan, kv_candidates, need_bytes,
}
use phoneborg.Memplan.Bounds.{need_bytes_mono}
use phoneborg.Memplan.Search.{FitsAt, NoneFits, IsFit, try-some, try-none, Shrinks, shrink_lem}

-- The result stays between the floor and the request.
abbrev pub IsWithin : ℕ → ℕ → Result → Type 0
IsWithin ctx slots r = (min ctx min_ctx ≤ r.ctx) × (r.ctx ≤ ctx) × (1 ≤ r.slots) × (r.slots ≤ slots)

-- A refusal reports the smallest configuration.
abbrev pub IsRefusal : Sizing → List Kv → ℕ → Result → Type 0
IsRefusal z kvs ctx r =
    (r.ctx ≡ min ctx min_ctx)
    × (r.slots ≡ 1)
    × (r.need ≡ z.need_of r.ctx r.slots r.kv)
    × NoneFits z kvs r.ctx 1

abbrev pub Outcome : Sizing → List Kv → ℕ → ℕ → Result → Type 0
Outcome z kvs ctx slots r =
    ((r.fits ≡ true) × IsWithin ctx slots r × IsFit z kvs r)
    ⊎ ((r.fits ≡ false) × IsRefusal z kvs ctx r)

reduce_slots-Outcome :
    (z : Sizing) (kvs : List Kv) (ctx slots c : ℕ)
    → 1 ≤ slots
    → c ≡ min ctx min_ctx
    → NoneFits z kvs c slots
    → Outcome z kvs ctx slots (reduce_slots z kvs slots c)
unfolding reduce_slots refused
reduce_slots-Outcome z kvs ctx slots c h e n = elim (dec_lt 1 slots) [
  | no one ↦
      rw (ltb_ge 1 slots one)
        (inr (refl, (e, omega arith, refl, subst (λ k. NoneFits z kvs c k) (omega arith) n)))
  | yes many ↦ elim (Option-cases (try z kvs c 1)) [
    | inl miss ↦ rw (miss, lt→ltb _ _ many) (inr (refl, (e, refl, refl, try-none z kvs c 1 miss)))
    | inr (hit, e') ↦
        rw (e', lt→ltb _ _ many) (inl (refl, ground arith, try-some z kvs c 1 hit.0 hit.1 e'))
  ]
]

after_shrink-Outcome :
    (z : Sizing) (kvs : List Kv) (ctx slots : ℕ) (r : Shrunk)
    → 1 ≤ slots
    → NoneFits z kvs ctx slots
    → Shrinks z kvs slots ctx r
    → Outcome z kvs ctx slots (after_shrink z kvs slots r)
unfolding after_shrink
after_shrink-Outcome z kvs ctx slots (returned r) h n s = inl (s.1, omega (arith, s), s.0)
after_shrink-Outcome z kvs ctx slots (floored c) h n s =
    reduce_slots-Outcome z kvs ctx slots c h s.0 (elim (dec_lt min_ctx ctx) [
      | yes more ↦ s.1 more
      | no small ↦ subst (λ k. NoneFits z kvs k slots) (omega (arith, s.0)) n
    ])

search_config-Outcome :
    (z : Sizing) (kvs : List Kv) (ctx slots : ℕ)
    → 1 ≤ slots
    → Outcome z kvs ctx slots (search_config z kvs ctx slots)
unfolding search_config
search_config-Outcome z kvs ctx slots h = elim (Option-cases (try z kvs ctx slots)) [
  | inl e ↦
      rw (e, search_config)
        (after_shrink-Outcome z kvs ctx slots _ h (try-none z kvs ctx slots e)
          (shrink_lem ctx z kvs slots ctx (omega arith)))
  | inr (hit, e) ↦
      rw (e, search_config) (inl (refl, omega arith, try-some z kvs ctx slots hit.0 hit.1 e))
]

NoneFits-In :
    (z : Sizing) (kvs : List Kv) (ctx slots : ℕ) (kv : Kv)
    → NoneFits z kvs ctx slots
    → In kv kvs
    → ¬ FitsAt z ctx slots kv
NoneFits-In z (k ∷ kvs) ctx slots kv n (inl e) = subst (λ x. ¬ FitsAt z ctx slots x) (sym e) n.0
NoneFits-In z (k ∷ kvs) ctx slots kv n (inr i) = NoneFits-In z kvs ctx slots kv n.1 i
NoneFits-In z [] ctx slots kv n i = absurd i

search_config_keeps :
    (z : Sizing) (kvs : List Kv) (ctx slots : ℕ) (kv : Kv)
    → In kv kvs
    → FitsAt z ctx slots kv
    → let r = search_config z kvs ctx slots in (r.fits ≡ true) × (r.ctx ≡ ctx) × (r.slots ≡ slots)
unfolding search_config
search_config_keeps z kvs ctx slots kv i h = elim (Option-cases (try z kvs ctx slots)) [
  | inl e ↦ absurd (NoneFits-In z kvs ctx slots kv (try-none z kvs ctx slots e) i h)
  | inr (hit, e) ↦ rw (e, search_config) (refl, refl, refl)
]

-- The configuration a caller asks for: the defaults stand in for 0.
abbrev pub requested : ℕ → ℕ → ℕ
requested n d = if n == 0 then d else n

-- `Plan` always ends in one of two ways. Either the result fits: its cache type is one of the
-- request's candidates, its need is that of its configuration and lies within the budget, its
-- context is between the floor and the request, and its slots between 1 and the request. Or it
-- is refused: then it reports the need at the floor context with one slot, and no candidate cache
-- type fits there.
pub plan-Outcome :
    (file_size resident_bytes : ℕ) (shape : Shape) (ctx slots : ℕ) (kv_type : KvRequest)
    (budget : ℤ)
    → Outcome
        (sizing_of file_size resident_bytes shape budget)
        (kv_candidates kv_type)
        (requested ctx min_ctx)
        (requested slots 1)
        (plan file_size resident_bytes shape ctx slots kv_type budget)
unfolding plan
plan-Outcome file_size resident_bytes shape ctx slots kv_type budget =
    search_config-Outcome _ _ _ _ (ground arith)

NoneFits-mono :
    (file_size resident_bytes : ℕ) (shape : Shape) (budget : ℤ) (kvs : List Kv) (c c' s s' : ℕ)
    → c ≤ c'
    → s ≤ s'
    → NoneFits (sizing_of file_size resident_bytes shape budget) kvs c s
    → NoneFits (sizing_of file_size resident_bytes shape budget) kvs c' s'
NoneFits-mono file_size resident_bytes shape budget [] c c' s s' h k n = tt
NoneFits-mono file_size resident_bytes shape budget (kv ∷ kvs) c c' s s' h k n = (
  λ f. n.0 (omega (arith, need_bytes_mono file_size resident_bytes shape kv c c' s s' h k)),
  NoneFits-mono file_size resident_bytes shape budget kvs c c' s s' h k n.1,
)

-- `Plan` refuses only when it must: when its result does not fit, no context of at least the floor
-- (or the request, where that is smaller), with no number of slots and no candidate cache type,
-- fits the budget.
pub plan_refuses_only_impossible :
    (file_size resident_bytes : ℕ) (shape : Shape) (ctx slots : ℕ) (kv_type : KvRequest)
    (budget : ℤ) (c s : ℕ)
    → (plan file_size resident_bytes shape ctx slots kv_type budget).fits ≡ false
    → min (requested ctx min_ctx) min_ctx ≤ c
    → 1 ≤ s
    → NoneFits (sizing_of file_size resident_bytes shape budget) (kv_candidates kv_type) c s
plan_refuses_only_impossible file_size resident_bytes shape ctx slots kv_type budget c s f h k =
    elim (plan-Outcome file_size resident_bytes shape ctx slots kv_type budget) [
      | inl fit ↦ absurd (ground (arith, fit.0))
      | inr no_fit ↦
          NoneFits-mono file_size resident_bytes shape budget (kv_candidates kv_type) _ c 1 s
            (omega (arith, no_fit.1)) k no_fit.1.3
    ]

-- A request whose own context and slots fit with some candidate cache type is never degraded: the
-- result has that context and those slots.
plan_keeps_request :
    (file_size resident_bytes : ℕ) (shape : Shape) (ctx slots : ℕ) (kv_type : KvRequest)
    (budget : ℤ) (kv : Kv)
    → In kv (kv_candidates kv_type)
    → pos (need_bytes file_size resident_bytes (requested ctx min_ctx) (requested slots 1) shape kv)
      ≤ℤ budget
    → let r = plan file_size resident_bytes shape ctx slots kv_type budget in
      (r.fits ≡ true) × (r.ctx ≡ requested ctx min_ctx) × (r.slots ≡ requested slots 1)
unfolding plan
plan_keeps_request file_size resident_bytes shape ctx slots kv_type budget kv i h =
    search_config_keeps (sizing_of file_size resident_bytes shape budget) (kv_candidates kv_type) _
      _ kv i h
