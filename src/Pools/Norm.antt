-- ===== src/Pools/Norm.antt =====
-- `normPool` gives a normal form: of an accepted definition it changes nothing more.
use phoneborg.Shared.{
  ◌≡◌, All, refl, ap, sym, ◌∙◌, subst, Bool, true, false, not, ◌||◌, none, some, List, [], ◌∷◌,
  String, str_eq, trim, trim-trim, codes, arith, Bool-cases, Option-cases, inl, inr, ltb, length,
}
use phoneborg.Registry.{matches_name}
use phoneborg.Classes.{is_class}
use phoneborg.Pools.{
  Pool, PoolError, Normed, accepted, rejected, clean, bad_class, is_negative, is_empty, is_positive,
  ctx_ok, with_routing, with_lists, norm_big_brain, norm_routing, norm_rest, norm_pool, PoolRouting,
  no_routing, by_spread, by_affinity, by_superborg, by_big_brain, other_routing, is_big_brain,
  bad_name, empty_entry, models_field, nodes_field, classes_field, unknown_class, negative_min,
  big_no_model, big_few_nodes, big_extra, big_ctx, bad_routing,
}
use phoneborg.Pools.Clean.{IsClean, clean_into-IsClean, Cleaned, clean-Cleaned}

pool_of : Normed → Pool → Pool
pool_of (accepted p) d = p
pool_of (rejected e) d = d

accepted_inj : (p q : Pool) → accepted p ≡ accepted q → p ≡ q
unfolding pool_of
accepted_inj p q e = ap (λ n. pool_of n p) e

abbrev is_accepted : Normed → Bool
is_accepted (accepted p) = true
is_accepted (rejected e) = false

not_rejected : {A : Type 0} (e : PoolError) (q : Pool) → rejected e ≡ accepted q → A
not_rejected e q h = let h' : false ≡ true = ap is_accepted h in absurd (ground (arith, h'))

big_brain_same : (p q : Pool) → norm_big_brain p ≡ accepted q → (p ≡ q) × (is_empty p.models ≡ true)
unfolding norm_big_brain
big_brain_same p q e = elim (Bool-cases (str_eq p.model "")) [
  | inl a ↦ not_rejected big_no_model q (rw a at e)
  | inr a ↦ elim (Bool-cases (ltb (length p.nodes) 2)) [
    | inl b ↦ not_rejected big_few_nodes q (rw (a, b) at e)
    | inr b ↦
        elim (Bool-cases
          (not (is_empty p.models) || not (is_empty p.classes) || is_positive p.min_gen_tps)) [
            | inl c ↦ not_rejected big_extra q (rw (a, b, c) at e)
            | inr c ↦ elim (Bool-cases (ctx_ok p.ctx_size)) [
              | inl d ↦ (accepted_inj p q (rw (a, b, c, d) at e), ground (arith, c))
              | inr d ↦ not_rejected big_ctx q (rw (a, b, c, d) at e)
            ]
          ]
  ]
]

-- Only the routing and its model may differ from the checked pool, and they are checked already.
abbrev IsRouted : Pool → Pool → Type 0
IsRouted p q = (q ≡ with_routing p q.routing q.model) × (norm_routing q q.routing ≡ accepted q)

norm_routing-IsRouted :
    (p q : Pool) (r : PoolRouting) → norm_routing p r ≡ accepted q → IsRouted p q
unfolding norm_routing
norm_routing-IsRouted p q no_routing e =
    subst (IsRouted p) (accepted_inj (with_routing p by_spread p.model) q e) (refl, refl)
norm_routing-IsRouted p q by_spread e =
    subst (IsRouted p) (accepted_inj (with_routing p by_spread p.model) q e) (refl, refl)
norm_routing-IsRouted p q by_affinity e =
    subst (IsRouted p) (accepted_inj (with_routing p by_affinity p.model) q e) (refl, refl)
norm_routing-IsRouted p q by_superborg e =
    subst (IsRouted p) (accepted_inj (with_routing p by_superborg p.model) q e) (refl, refl)
norm_routing-IsRouted p q (other_routing r) e = not_rejected bad_routing q e
norm_routing-IsRouted p q by_big_brain e =
    let r = with_routing p by_big_brain (trim p.model) in
    let (same, _) = big_brain_same r q e in
    let fixed : norm_big_brain r ≡ accepted r = e ∙ ap accepted (sym same) in
    subst (IsRouted p) same (refl, rw (trim-trim p.model) fixed)

-- What `norm_pool` checks before the routing.
abbrev pub IsChecked : Pool → Type 0
IsChecked p =
    (matches_name (codes p.name) ≡ true)
    × IsClean p.models
    × IsClean p.nodes
    × IsClean p.classes
    × (bad_class p.classes ≡ none)
    × (is_negative p.min_gen_tps ≡ false)
    × (trim p.orchestrator ≡ p.orchestrator)

IsChecked-fixed :
    (q : Pool) → IsChecked q → norm_routing q q.routing ≡ accepted q → norm_pool q ≡ accepted q
unfolding norm_pool norm_rest
IsChecked-fixed q (n, ms, ns, cs, b, g, t) r =
    rw n (rw ms (rw ns (rw cs (rw t (rw (b, norm_rest) (rw (g, norm_rest) r))))))

abbrev Keeps : Pool → Pool → Type 0
Keeps p q =
    (q.name ≡ p.name)
    × (q.models ≡ p.models)
    × (q.nodes ≡ p.nodes)
    × (q.classes ≡ p.classes)
    × (q.orchestrator ≡ p.orchestrator)

-- The accepted pool has the given one's entries, cleaned, and its name.
abbrev pub IsCleanOf : Pool → Pool → Type 0
IsCleanOf p q =
    (q.name ≡ p.name)
    × (matches_name (codes q.name) ≡ true)
    × Cleaned p.models q.models
    × Cleaned p.nodes q.nodes
    × Cleaned p.classes q.classes
    × All (λ c. is_class c ≡ true) q.classes
    × (is_negative q.min_gen_tps ≡ false)
    × (q.orchestrator ≡ trim p.orchestrator)

bad_class-All : (cs : List String) → bad_class cs ≡ none → All (λ c. is_class c ≡ true) cs
bad_class-All [] e = tt
bad_class-All (c ∷ cs) e = elim (Bool-cases (is_class c)) [
  | inl k ↦ (k, bad_class-All cs (rw k at e))
  | inr k ↦ absurd (let e' : some c ≡ none = rw k at e in ground (arith, e'))
]

norm_rest-IsChecked :
    (p q : Pool)
    → matches_name (codes p.name) ≡ true
    → IsClean p.models
    → IsClean p.nodes
    → IsClean p.classes
    → trim p.orchestrator ≡ p.orchestrator
    → norm_rest p ≡ accepted q
    → IsChecked q × (norm_routing q q.routing ≡ accepted q) × Keeps p q
unfolding norm_rest
norm_rest-IsChecked p q n ms ns cs t e = elim (Option-cases (bad_class p.classes)) [
  | inr (c, b) ↦ not_rejected (unknown_class c) q (rw (b, norm_rest) at e)
  | inl b ↦ elim (Bool-cases (is_negative p.min_gen_tps)) [
    | inl g ↦ not_rejected negative_min q (rw (b, norm_rest, g) at e)
    | inr g ↦
        let (same, fixed) = norm_routing-IsRouted p q p.routing (rw (b, norm_rest, g) at e) in
        (
          subst IsChecked (sym same) (n, ms, ns, cs, b, g, t),
          fixed,
          subst (Keeps p) (sym same) (refl, refl, refl, refl, refl),
        )
  ]
]

pub norm_pool-IsChecked :
    (p q : Pool)
    → norm_pool p ≡ accepted q
    → IsChecked q × (norm_routing q q.routing ≡ accepted q) × IsCleanOf p q
unfolding norm_pool
norm_pool-IsChecked p q e = elim (Bool-cases (matches_name (codes p.name))) [
  | inr n ↦ not_rejected bad_name q (rw n at e)
  | inl n ↦ elim (Option-cases (clean p.models)) [
    | inl a ↦ not_rejected (empty_entry models_field) q (rw (n, a) at e)
    | inr (ms, a) ↦ elim (Option-cases (clean p.nodes)) [
      | inl b ↦ not_rejected (empty_entry nodes_field) q (rw (n, a, b) at e)
      | inr (ns, b) ↦ elim (Option-cases (clean p.classes)) [
        | inl c ↦ not_rejected (empty_entry classes_field) q (rw (n, a, b, c) at e)
        | inr (cs, c) ↦
            let (checked, fixed, (same, sm, sn, sc, so)) =
              norm_rest-IsChecked (with_lists p ms ns cs) q n
                (clean_into-IsClean [] p.models ms refl a) (clean_into-IsClean [] p.nodes ns refl b)
                (clean_into-IsClean [] p.classes cs refl c) (trim-trim p.orchestrator)
                (rw (n, a, b, c) at e) in
            (
              checked,
              fixed,
              (
                same,
                checked.0,
                clean-Cleaned p.models q.models (a ∙ ap some (sym sm)),
                clean-Cleaned p.nodes q.nodes (b ∙ ap some (sym sn)),
                clean-Cleaned p.classes q.classes (c ∙ ap some (sym sc)),
                bad_class-All q.classes checked.4,
                checked.5,
                so,
              ),
            )
      ]
    ]
  ]
]

-- An accepted pool has the name that was given, as the pattern wants it; lists of entries that are
-- distinct, trimmed and not empty, and are just the given ones without the spaces around them; known
-- classes; and no negative speed limit. Validating it again changes nothing.
pub norm_pool-norm_pool :
    (p q : Pool) → norm_pool p ≡ accepted q → IsCleanOf p q × (norm_pool q ≡ accepted q)
norm_pool-norm_pool p q e =
    let (checked, fixed, clean_of) = norm_pool-IsChecked p q e in
    (clean_of, IsChecked-fixed q checked fixed)

routed_big :
    (q : Pool) (r : PoolRouting)
    → is_big_brain r ≡ true
    → norm_routing q r ≡ accepted q
    → is_empty q.models ≡ true
unfolding norm_routing
routed_big q by_big_brain b f = (big_brain_same (with_routing q by_big_brain (trim q.model)) q f).1
routed_big q no_routing b f = absurd (ground (arith, b))
routed_big q by_spread b f = absurd (ground (arith, b))
routed_big q by_affinity b f = absurd (ground (arith, b))
routed_big q by_superborg b f = absurd (ground (arith, b))
routed_big q (other_routing r) b f = absurd (ground (arith, b))

-- A Big Brain pool has no list of models.
pub big_brain-models :
    (p q : Pool)
    → norm_pool p ≡ accepted q
    → is_big_brain q.routing ≡ true
    → is_empty q.models ≡ true
big_brain-models p q e b =
    let (_, fixed, _) = norm_pool-IsChecked p q e in routed_big q q.routing b fixed
