-- ===== src/Memplan/Loop.antt =====
-- The loop `for ctx > MinCtx` ends by its own condition, and its fuel never decides.
use phoneborg.Shared.{
  ℕ, zero, suc, ◌≤◌, ◌<◌, ◌≡◌, ◌∙◌, refl, ap, sym, subst, min, true, List, In, All, pos, ◌≤ℤ◌,
  arith, dec_lt, ltb_ge,
}
use phoneborg.Memplan.{Kv, Sizing, Shrunk, returned, floored, min_ctx, halve, shrink}
use phoneborg.Memplan.Search.{halve_bounds, Shrinks, shrink_lem}

same_end :
    (f g : ℕ) (z : Sizing) (kvs : List Kv) (slots ctx : ℕ)
    → ctx ≤ f
    → ctx ≤ g
    → shrink f z kvs slots ctx ≡ shrink g z kvs slots ctx
unfolding shrink
same_end zero zero z kvs slots ctx h k = refl
same_end zero (suc g) z kvs slots ctx h k = ground arith
same_end (suc f) zero z kvs slots ctx h k = ground arith
same_end (suc f) (suc g) z kvs slots ctx h k = elim (dec_lt min_ctx ctx) [
  | no done ↦ rw (ltb_ge min_ctx ctx done) refl
  | yes more ↦
      let rest =
        same_end f g z kvs slots (halve ctx) (omega (arith, halve_bounds ctx more))
          (omega (arith, halve_bounds ctx more)) in
      ground (arith, rest)
]

-- The loop has ended: by a result, which fits the budget with a candidate cache type, the wanted slots and
-- a context below the one it started with and not below the floor; or by its condition, where nothing
-- fits at the last context, if there was a round.
abbrev pub IsOver : Sizing → List Kv → ℕ → ℕ → Shrunk → Type 0
IsOver z kvs slots ctx (returned r) =
    In r.kv kvs
    × (r.need ≡ z.need_of r.ctx slots r.kv)
    × (pos r.need ≤ℤ z.budget)
    × (r.fits ≡ true)
    × (r.slots ≡ slots)
    × (min_ctx ≤ r.ctx)
    × (r.ctx < ctx)
IsOver z kvs slots ctx (floored c) =
    (¬ (min_ctx < c))
    × (c ≡ min ctx min_ctx)
    × (min_ctx < ctx → All (λ kv. ¬ (pos (z.need_of c slots kv) ≤ℤ z.budget)) kvs)

over :
    (z : Sizing) (kvs : List Kv) (slots ctx : ℕ) (r : Shrunk)
    → Shrinks z kvs slots ctx r
    → IsOver z kvs slots ctx r
over z kvs slots ctx (returned r) ((i, n, f), t, e, l, g) =
    let need : r.need ≡ z.need_of r.ctx slots r.kv = n ∙ ap (λ k. z.need_of r.ctx k r.kv) e in
    (i, need, subst (λ k. pos k ≤ℤ z.budget) (sym n) f, t, e, g, l)
over z kvs slots ctx (floored c) s = (λ h. ground (arith, s.0, h), s.0, s.1)

-- The loop that halves the context ends, for every need and budget: with at least as much fuel as the
-- context, it returns a configuration that fits the budget (a candidate cache type, the wanted slots, a
-- smaller context that is not below the minimum), or it stops at a context that its condition refuses
-- and, if there was a round, at which no candidate fits; and more fuel changes nothing.
pub shrink-IsOver :
    (fuel : ℕ) (z : Sizing) (kvs : List Kv) (slots ctx : ℕ)
    → ctx ≤ fuel
    → IsOver z kvs slots ctx (shrink fuel z kvs slots ctx)
      × (shrink fuel z kvs slots ctx ≡ shrink ctx z kvs slots ctx)
shrink-IsOver fuel z kvs slots ctx h = (
  over z kvs slots ctx (shrink fuel z kvs slots ctx) (shrink_lem fuel z kvs slots ctx h),
  same_end fuel ctx z kvs slots ctx h (omega arith),
)
