-- ===== src/Planner/Pinned.antt =====
-- A pinned node keeps its model through the rounds of the other policies and the last loop.
use phoneborg.Shared.{
  ℕ, ◌≡◌, refl, sym, subst, inl, inr, if_both, Bool, true, false, ◌&&◌, List, [], ◌∷◌, Option, none,
  some, String, str_eq, lookup, All, All-of_In, In, In-keep, In-take, take, Entries-lookup,
  In-sort_by, sort_by, In-of_sort_by, keep, length, min, ltb, ◌==◌, arith, if◌then◌else◌,
}
use phoneborg.Planner.{
  Policy, Spec, Node, PlanModel, Assignment, Reason, by_pin, prefer_for, eligible,
}
use phoneborg.Planner.Backed.{by_node-IsNodes, warn_not_ready-keeps, warn_default-keeps}
use phoneborg.Planner.Pins.{IsPinned, assign-IsPinned, other_node, pin_all-reached}
use phoneborg.Planner.Place.{
  Draft, Round, warn, by_node, by_model, model_at, row_for, assign, warn_not_ready, warn_default,
  is_pin, replicas_round, percent_round, reason_of, free_nodes, assign_all, chosen, place,
  place_all, run_round, final_row, final_rows, draft, default_plan, by_id, wanted, none_eligible,
  too_few, no_fit_reason,
}

module _ (def : ℕ) (nodes : List Node) (n : Node) (m : PlanModel)
    (named : str_eq m.id "" ≡ false) where
  abbrev Keeps : Draft → Type 0
  Keeps d = IsPinned def n m named d

  assign_all-Keeps :
      (ns : List Node) (k : PlanModel) (r : Reason) (d : Draft)
      → All (λ x. str_eq x.id n.id ≡ false) ns
      → Keeps d
      → Keeps (assign_all ns k r d)
  unfolding assign_all
  assign_all-Keeps [] k r d h i = i
  assign_all-Keeps (x ∷ ns) k r d h i =
      assign_all-Keeps ns k r (assign x k r d) h.1 (assign-IsPinned def n m named x k r d h.0 i)

  chosen-other :
      (p : Policy) (k : PlanModel) (want : ℕ) (d : Draft)
      → Keeps d
      → All (λ x. str_eq x.id n.id ≡ false) (chosen p k def want nodes d.assigned)
  unfolding chosen free_nodes
  chosen-other p k want d h =
      let test : Node → Bool = λ x. eligible p k def x && str_eq (model_at x.id d.assigned) "" in
      let free = sort_by (prefer_for k.id) (keep test nodes) in
      All-of_In (λ x. str_eq x.id n.id ≡ false) (take (min want (length free)) free)
        (λ x i.
          let j =
            In-of_sort_by (prefer_for k.id) x (keep test nodes)
              (In-take x (min want (length free)) free i) in
          let (_, e) = In-keep test x nodes j in other_node def n m named x d h (ground (arith, e)))

  place-Keeps :
      (r : Round) (pm : Policy × PlanModel) (d : Draft) → Keeps d → Keeps (place def nodes r pm d)
  unfolding place
  place-Keeps r (p, k) d h =
      let pool = length (keep (eligible p k def) nodes) in
      let want = wanted r p pool in
      let taken = chosen p k def want nodes d.assigned in
      let next = assign_all taken k (reason_of r) d in
      let placed : Keeps next =
        assign_all-Keeps taken k (reason_of r) d (chosen-other p k want d h) h in
      let short = warn (too_few k.id want (length taken)) next in
      if_both Keeps (pool == 0) (warn (none_eligible k.id (no_fit_reason k p nodes)) d)
        (if ltb (length taken) want then short else next) h
        (if_both Keeps (ltb (length taken) want) short next placed placed)

  place_all-Keeps :
      (r : Round) (ps : List (Policy × PlanModel)) (d : Draft)
      → Keeps d
      → Keeps (place_all def nodes r ps d)
  unfolding place_all
  place_all-Keeps r [] d h = h
  place_all-Keeps r (pm ∷ ps) d h =
      place_all-Keeps r ps (place def nodes r pm d) (place-Keeps r pm d h)

-- The row of the draft is the row of the plan.
final_rows-In :
    (def : ℕ) (models : List (String × PlanModel)) (dm : Option PlanModel)
    → (t : List (String × Assignment)) (ns : List Node) (n : Node) (a : Assignment)
    → lookup n.id t ≡ some a
    → In n ns
    → In a (final_rows def models dm t ns)
unfolding final_rows final_row
final_rows-In def models dm t [] n a e i = absurd i
final_rows-In def models dm t (k ∷ ks) n a e (inl q) =
    let f : lookup k.id t ≡ some a = subst (λ x. lookup x.id t ≡ some a) q e in
    inl (sym (rw (f, final_row) refl))
final_rows-In def models dm t (k ∷ ks) n a e (inr i) =
    inr (final_rows-In def models dm t ks n a e i)

-- The pin reaches the draft, and no later phase removes it.
pub draft-pins :
    (def : ℕ) (spec : Spec) (nodes : List Node) (catalog : List PlanModel)
    → (p : Policy) (n : Node) (m : PlanModel) → str_eq m.id "" ≡ false
    → is_pin p.mode ≡ true
    → In p spec.policies
    → In n.id p.nodes
    → lookup n.id (by_node [] (sort_by by_id nodes)) ≡ some n
    → All
        (λ q.
          is_pin q.mode ≡ true → In n.id q.nodes → lookup q.model_id (by_model [] catalog) ≡ some m)
        spec.policies
    → let sorted = sort_by by_id nodes in
      lookup n.id (draft def spec sorted (by_model [] catalog)).assigned ≡ some (row_for n m by_pin)
unfolding draft run_round
draft-pins def spec nodes catalog p n m named s i j at alone =
    let sorted = sort_by by_id nodes in
    let models = by_model [] catalog in
    let t = by_node [] sorted in
    let own : (id : String) (x : Node) → lookup id t ≡ some x → x.id ≡ id = λ id x e.
      (Entries-lookup (λ id x. In x sorted × (x.id ≡ id)) id x t
        (by_node-IsNodes def spec sorted models [] sorted
          (All-of_In (λ x. In x sorted) sorted (λ x i. i)) tt)
        e).1 in
    let start : Draft = record { assigned = []; warnings = [] } in
    let noted = warn_not_ready models spec.policies start in
    let waiting = warn_default models spec.default_model noted in
    let unset : lookup n.id waiting.assigned ≡ none =
      warn_default-keeps (λ x. lookup n.id x ≡ none) models spec.default_model noted
        (warn_not_ready-keeps (λ x. lookup n.id x ≡ none) models spec.policies start refl) in
    let pinned =
      pin_all-reached def n m named models t own p spec.policies waiting at s j alone i unset in
    place_all-Keeps def sorted n m named percent_round _ _
      (place_all-Keeps def sorted n m named replicas_round _ _ pinned)

-- A connected node that a pin policy for a ready model lists, and that no pin policy for another model
-- lists, has this model in the plan, by the pin: whatever the other policies and the default model
-- say, drained or not, and whether or not the model fits.
pub default_plan-pins :
    (def : ℕ) (spec : Spec) (nodes : List Node) (catalog : List PlanModel)
    → (p : Policy) (n : Node) (m : PlanModel) → str_eq m.id "" ≡ false
    → is_pin p.mode ≡ true
    → In p spec.policies
    → In n.id p.nodes
    → In n nodes
    → lookup n.id (by_node [] (sort_by by_id nodes)) ≡ some n
    → All
        (λ q.
          is_pin q.mode ≡ true → In n.id q.nodes → lookup q.model_id (by_model [] catalog) ≡ some m)
        spec.policies
    → In (row_for n m by_pin) (default_plan def spec nodes catalog).rows
unfolding default_plan
default_plan-pins def spec nodes catalog p n m named s i j k at alone =
    let sorted = sort_by by_id nodes in
    let models = by_model [] catalog in
    final_rows-In def models (lookup spec.default_model models)
      (draft def spec sorted models).assigned sorted n (row_for n m by_pin)
      (draft-pins def spec nodes catalog p n m named s i j at alone) (In-sort_by by_id n nodes k)
