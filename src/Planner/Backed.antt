-- ===== src/Planner/Backed.antt =====
-- What a policy has assigned rests on that policy, through every phase of a plan.
use phoneborg.Shared.{
  ℕ, ◌≡◌, refl, sym, subst, ◌⊎◌, inl, inr, Bool-cases, Option-cases, if_both, true, false, ◌&&◌,
  List, [], ◌∷◌, some, String, str_eq, lookup, insert, Entries, Entries-insert, Entries-lookup, All,
  All-of_In, In, In-keep, In-take, sort_by, sort_by-All, In-of_sort_by, keep, length, min, ltb,
  ◌==◌, arith, if◌then◌else◌,
}
use phoneborg.Planner.{
  Policy, Spec, Node, PlanModel, Assignment, Reason, by_pin, fits_node, meets_speed,
  effective_min_tok_s, prefer_for, eligible, matches_class,
}
use phoneborg.Planner.Place.{
  Draft, Round, warn, not_ready, default_not_ready, warn_pin, by_node, model_at, row_for, assign,
  warn_not_ready, warn_default, pin_nodes, is_pin, pin_all, replicas_round, percent_round, is_of,
  reason_of, ready_of, bigger_first, free_nodes, assign_all, chosen, place, place_all, run_round,
  draft, wanted, none_eligible, too_few, no_fit_reason, not_connected, already_pinned,
  pin_too_small,
}

-- The warnings of a pin leave the assignments alone.
pub warn_pin-keeps :
    (def : ℕ) (p : Policy) (m : PlanModel) (n : Node) (d : Draft)
    → (P : List (String × Assignment) → Type 0) → P d.assigned
    → P (warn_pin def p m n d).assigned
warn_pin-keeps def p m n d P h =
    let small : P (if fits_node m n then d else warn (pin_too_small p.model_id n.id) d).assigned =
      if_both (λ (x : Draft). P x.assigned) (fits_node m n) d
        (warn (pin_too_small p.model_id n.id) d) h h in
    if_both (λ (x : Draft). P x.assigned) (meets_speed m n (effective_min_tok_s p def)) _ _ small
      small

pub warn_not_ready-keeps :
    (P : List (String × Assignment) → Type 0) (models : List (String × PlanModel))
    → (ps : List Policy) (d : Draft) → P d.assigned
    → P (warn_not_ready models ps d).assigned
unfolding warn_not_ready
warn_not_ready-keeps P models [] d h = h
warn_not_ready-keeps P models (p ∷ ps) d h = elim (Option-cases (lookup p.model_id models)) [
  | inl e ↦
      rw (e, warn_not_ready)
        (warn_not_ready-keeps P models ps (warn (not_ready p.model_id p.mode) d) h)
  | inr (m, e) ↦ rw (e, warn_not_ready) (warn_not_ready-keeps P models ps d h)
]

pub warn_default-keeps :
    (P : List (String × Assignment) → Type 0) (models : List (String × PlanModel))
    → (id : String) (d : Draft) → P d.assigned
    → P (warn_default models id d).assigned
unfolding warn_default
warn_default-keeps P models id d h = elim (Option-cases (lookup id models)) [
  | inl e ↦
      rw (e, warn_default)
        (if_both (λ (x : Draft). P x.assigned) (str_eq id "") d (warn (default_not_ready id) d) h h)
  | inr (m, e) ↦ rw (e, warn_default) h
]

-- A node that a policy may take.
abbrev pub IsEligible : ℕ → Policy → PlanModel → Node → Type 0
IsEligible def p m n =
    (n.is_drained ≡ false)
    × (matches_class p.classes n.class ≡ true)
    × (fits_node m n ≡ true)
    × (meets_speed m n (effective_min_tok_s p def) ≡ true)

eligible-IsEligible :
    (def : ℕ) (p : Policy) (m : PlanModel) (n : Node)
    → eligible p m def n ≡ true
    → IsEligible def p m n
unfolding eligible
eligible-IsEligible def p m n e =
    (ground (arith, e), ground (arith, e), ground (arith, e), ground (arith, e))

-- A row made by a policy for a ready model: a pin that lists the node, or a replicas or percent policy
-- that the node is eligible for, so that it is not drained, is of the class, fits and is fast enough.
module _ (def : ℕ) (spec : Spec) (nodes : List Node) (models : List (String × PlanModel)) where
  abbrev pub Claims : String → Assignment → Node → PlanModel → Policy → Type 0
  Claims id a n m p =
      ((is_pin p.mode ≡ true) × In id p.nodes × (a ≡ row_for n m by_pin))
      ⊎ ((r : Round) × (is_of r p.mode ≡ true)
          × IsEligible def p m n
          × (a ≡ row_for n m (reason_of r)))

  abbrev pub Backed : String → Assignment → Type 0
  Backed id a =
      (n : Node) × (m : PlanModel) × (p : Policy) × In n nodes
      × (n.id ≡ id)
      × In p spec.policies
      × (lookup p.model_id models ≡ some m)
      × Claims id a n m p

  abbrev pub AllBacked : Draft → Type 0
  AllBacked d = Entries Backed d.assigned

  assign_all-AllBacked :
      (ns : List Node) (m : PlanModel) (r : Reason) (d : Draft)
      → All (λ n. Backed n.id (row_for n m r)) ns
      → AllBacked d
      → AllBacked (assign_all ns m r d)
  unfolding assign_all
  assign_all-AllBacked [] m r d h k = k
  assign_all-AllBacked (n ∷ ns) m r d h k =
      assign_all-AllBacked ns m r (assign n m r d) h.1
        (Entries-insert Backed n.id (row_for n m r) d.assigned h.0 k)

  -- The map of nodes by id holds nodes of the list.
  abbrev pub IsNodes : List (String × Node) → Type 0
  IsNodes t = Entries (λ id n. In n nodes × (n.id ≡ id)) t

  pub by_node-IsNodes :
      (t : List (String × Node)) (ns : List Node)
      → All (λ n. In n nodes) ns
      → IsNodes t
      → IsNodes (by_node t ns)
  unfolding by_node
  by_node-IsNodes t [] h k = k
  by_node-IsNodes t (n ∷ ns) h k =
      by_node-IsNodes (insert n.id n t) ns h.1
        (Entries-insert (λ id n. In n nodes × (n.id ≡ id)) n.id n t (h.0, refl) k)

  pin_nodes-AllBacked :
      (t : List (String × Node)) (p : Policy) (m : PlanModel) (ids : List String) (d : Draft)
      → IsNodes t
      → In p spec.policies
      → lookup p.model_id models ≡ some m
      → is_pin p.mode ≡ true
      → All (λ id. In id p.nodes) ids
      → AllBacked d
      → AllBacked (pin_nodes def t p m ids d)
  unfolding pin_nodes
  pin_nodes-AllBacked t p m [] d ts i e s h k = k
  pin_nodes-AllBacked t p m (id ∷ ids) d ts i e s h k =
      let rest : (d' : Draft) → AllBacked d' → AllBacked (pin_nodes def t p m ids d') =
        λ d' k'. pin_nodes-AllBacked t p m ids d' ts i e s h.1 k' in
      elim (Option-cases (lookup id t)) [
        | inl f ↦ rw (f, pin_nodes) (rest (warn (not_connected p.model_id id) d) k)
        | inr (n, f) ↦ elim (Bool-cases (str_eq (model_at id d.assigned) "")) [
          | inl q ↦
              let (j, same) = Entries-lookup (λ id n. In n nodes × (n.id ≡ id)) id n t ts f in
              let here : In n.id p.nodes = subst (λ x. In x p.nodes) (sym same) h.0 in
              rw (f, pin_nodes, q)
                (rest (warn_pin def p m n (assign n m by_pin d)) (
                  warn_pin-keeps def p m n (assign n m by_pin d) (Entries Backed) (
                    Entries-insert Backed n.id (row_for n m by_pin) d.assigned
                      (n, m, p, j, refl, i, e, inl (s, here, refl)) k)))
          | inr q ↦
              rw (f, pin_nodes, q)
                (rest (warn (already_pinned p.model_id id (model_at id d.assigned)) d) k)
        ]
      ]

  pin_all-AllBacked :
      (t : List (String × Node)) (ps : List Policy) (d : Draft)
      → IsNodes t
      → All (λ p. In p spec.policies) ps
      → AllBacked d
      → AllBacked (pin_all def t models ps d)
  unfolding pin_all
  pin_all-AllBacked t [] d ts h k = k
  pin_all-AllBacked t (p ∷ ps) d ts h k = elim (Option-cases (lookup p.model_id models)) [
    | inl e ↦ rw (e, pin_all) (pin_all-AllBacked t ps d ts h.1 k)
    | inr (m, e) ↦ elim (Bool-cases (is_pin p.mode)) [
      | inl s ↦
          rw (e, pin_all, s)
            (pin_all-AllBacked t ps (pin_nodes def t p m p.nodes d) ts h.1 (
              pin_nodes-AllBacked t p m p.nodes d ts h.0 e s
                (All-of_In (λ id. In id p.nodes) p.nodes (λ id i. i)) k))
      | inr s ↦ rw (e, pin_all, s) (pin_all-AllBacked t ps d ts h.1 k)
    ]
  ]

  chosen-In :
      (p : Policy) (m : PlanModel) (want : ℕ) (t : List (String × Assignment)) (n : Node)
      → In n (chosen p m def want nodes t)
      → In n nodes × (eligible p m def n ≡ true)
  unfolding chosen free_nodes
  chosen-In p m want t n i =
      let free = keep (λ n. eligible p m def n && str_eq (model_at n.id t) "") nodes in
      let j =
        In-take n (min want (length (sort_by (prefer_for m.id) free)))
          (sort_by (prefer_for m.id) free) i in
      let (k, e) =
        In-keep (λ n. eligible p m def n && str_eq (model_at n.id t) "") n nodes
          (In-of_sort_by (prefer_for m.id) n free j) in
      (k, ground (arith, e))

  IsReady : Round → Policy × PlanModel → Type 0
  IsReady r (p, m) =
      In p spec.policies × (lookup p.model_id models ≡ some m) × (is_of r p.mode ≡ true)

  place-AllBacked :
      (r : Round) (pm : Policy × PlanModel) (d : Draft)
      → IsReady r pm
      → AllBacked d
      → AllBacked (place def nodes r pm d)
  unfolding place IsReady
  place-AllBacked r (p, m) d (i, e, s) k =
      let pool = length (keep (eligible p m def) nodes) in
      let want = wanted r p pool in
      let taken = chosen p m def want nodes d.assigned in
      let next = assign_all taken m (reason_of r) d in
      let placed : AllBacked next =
        assign_all-AllBacked taken m (reason_of r) d
          (All-of_In (λ n. Backed n.id (row_for n m (reason_of r))) taken
            (λ n j.
              let (h, ok) = chosen-In p m want d.assigned n j in
              (n, m, p, h, refl, i, e, inr (r, s, eligible-IsEligible def p m n ok, refl))))
          k in
      let short = warn (too_few m.id want (length taken)) next in
      if_both AllBacked (pool == 0) (warn (none_eligible m.id (no_fit_reason m p nodes)) d)
        (if ltb (length taken) want then short else next) k
        (if_both AllBacked (ltb (length taken) want) short next placed placed)

  place_all-AllBacked :
      (r : Round) (ps : List (Policy × PlanModel)) (d : Draft)
      → All (IsReady r) ps
      → AllBacked d
      → AllBacked (place_all def nodes r ps d)
  unfolding place_all
  place_all-AllBacked r [] d h k = k
  place_all-AllBacked r (pm ∷ ps) d h k =
      place_all-AllBacked r ps (place def nodes r pm d) h.1 (place-AllBacked r pm d h.0 k)

  ready_of-IsReady :
      (r : Round) (ps : List Policy)
      → All (λ p. In p spec.policies) ps
      → All (IsReady r) (ready_of r models ps)
  unfolding ready_of IsReady
  ready_of-IsReady r [] h = tt
  ready_of-IsReady r (p ∷ ps) h = elim (Option-cases (lookup p.model_id models)) [
    | inl e ↦ rw (e, ready_of) (ready_of-IsReady r ps h.1)
    | inr (m, e) ↦ elim (Bool-cases (is_of r p.mode)) [
      | inl s ↦ rw (e, ready_of, s) ((h.0, e, s), ready_of-IsReady r ps h.1)
      | inr s ↦ rw (e, ready_of, s) (ready_of-IsReady r ps h.1)
    ]
  ]

  own_policies : All (λ p. In p spec.policies) spec.policies
  own_policies = All-of_In (λ p. In p spec.policies) spec.policies (λ p i. i)

  run_round-AllBacked :
      (r : Round) (d : Draft)
      → AllBacked d
      → AllBacked (run_round def nodes models spec.policies r d)
  unfolding run_round
  run_round-AllBacked r d k =
      place_all-AllBacked r (sort_by bigger_first (ready_of r models spec.policies)) d
        (sort_by-All bigger_first (IsReady r) (ready_of r models spec.policies)
          (ready_of-IsReady r spec.policies own_policies))
        k

  pub draft-AllBacked : AllBacked (draft def spec nodes models)
  unfolding draft
  draft-AllBacked = run_round-AllBacked percent_round _ (
      run_round-AllBacked replicas_round _ (
        pin_all-AllBacked (by_node [] nodes) spec.policies _
          (by_node-IsNodes [] nodes (All-of_In (λ n. In n nodes) nodes (λ n i. i)) tt) own_policies
          (warn_default-keeps (Entries Backed) models spec.default_model
            (warn_not_ready models spec.policies (record { assigned = []; warnings = [] }))
            (warn_not_ready-keeps (Entries Backed) models spec.policies
              (record { assigned = []; warnings = [] }) tt))))
