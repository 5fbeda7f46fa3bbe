-- ===== src/Planner/Rows.antt =====
-- What a row of a plan rests on: a policy, the default model, or what the node serves.
use phoneborg.Shared.{
  ℕ, ◌≡◌, refl, ap, ◌∙◌, ◌⊎◌, inl, inr, Option-cases, true, false, List, [], ◌∷◌, Option, none,
  some, String, lookup, Entries, Entries-lookup, sort_by, arith,
}
use phoneborg.Planner.{Spec, Node, PlanModel, Assignment, by_default, fits_node, meets_speed}
use phoneborg.Planner.Backed.{Backed, draft-AllBacked}
use phoneborg.Planner.Place.{
  Offer, not_offered, offered_small, offered_slow, offered, by_model, row_for, offer, keep_row,
  open_row, final_row, final_rows, draft, default_plan, by_id,
}

module _ (def : ℕ) (spec : Spec) (nodes : List Node) (models : List (String × PlanModel)) where
  -- A row of the default model, on a node in use that it fits and where it is fast enough.
  abbrev pub IsDefault : Node → Assignment → Type 0
  IsDefault n a =
      (dm : PlanModel) × (lookup spec.default_model models ≡ some dm)
      × (n.is_drained ≡ false)
      × (fits_node dm n ≡ true)
      × (meets_speed dm n def ≡ true)
      × (a ≡ row_for n dm by_default)

  abbrev pub IsRow : Node → Assignment → Type 0
  IsRow n a = Backed def spec nodes models n.id a ⊎ IsDefault n a ⊎ (a ≡ keep_row models n)

  -- One row for each node, in the same order.
  abbrev pub AreRows : List Node → List Assignment → Type 0
  AreRows [] [] = Unit {0}
  AreRows [] (a ∷ as_) = ⊥
  AreRows (n ∷ ns) [] = ⊥
  AreRows (n ∷ ns) (a ∷ as_) = (a.node_id ≡ n.id) × IsRow n a × AreRows ns as_

  row_for-IsDefault :
      (dm : PlanModel) (n : Node)
      → lookup spec.default_model models ≡ some dm
      → offer def (some dm) n ≡ offered
      → IsDefault n (row_for n dm by_default)
  unfolding offer
  row_for-IsDefault dm n e o =
      (dm, e, ground (arith, o), ground (arith, o), ground (arith, o), refl)

  open_row-IsRow :
      (dm : Option PlanModel) (n : Node)
      → lookup spec.default_model models ≡ dm
      → (o : Offer) → offer def dm n ≡ o
      → IsRow n (open_row models dm n o)
  open_row-IsRow none n e o q = inr (inr refl)
  open_row-IsRow (some dm) n e not_offered q = inr (inr refl)
  open_row-IsRow (some dm) n e offered_small q = inr (inr refl)
  open_row-IsRow (some dm) n e offered_slow q = inr (inr refl)
  open_row-IsRow (some dm) n e offered q = inr (inl (row_for-IsDefault dm n e q))

  final_row-IsRow :
      (t : List (String × Assignment)) (n : Node)
      → Entries (Backed def spec nodes models) t
      → IsRow n (final_row def models (lookup spec.default_model models) t n)
  unfolding final_row
  final_row-IsRow t n k = elim (Option-cases (lookup n.id t)) [
    | inl e ↦ rw (e, final_row) (open_row-IsRow (lookup spec.default_model models) n refl _ refl)
    | inr (a, e) ↦
        rw (e, final_row) (inl (Entries-lookup (Backed def spec nodes models) n.id a t k e))
  ]

  Backed-node_id :
      (id : String) (a : Assignment) → Backed def spec nodes models id a → a.node_id ≡ id
  Backed-node_id id a (n, m, p, j, same, i, e, inl (s, h, q)) = ap (λ x. x.node_id) q ∙ same
  Backed-node_id id a (n, m, p, j, same, i, e, inr (r, s, ok, q)) = ap (λ x. x.node_id) q ∙ same

  keep_row-node_id : (n : Node) → (keep_row models n).node_id ≡ n.id
  unfolding keep_row
  keep_row-node_id n = elim (Option-cases (lookup n.current_model models)) [
    | inl e ↦ rw (e, keep_row) refl
    | inr (m, e) ↦ rw (e, keep_row) refl
  ]

  IsRow-node_id : (n : Node) (a : Assignment) → IsRow n a → a.node_id ≡ n.id
  IsRow-node_id n a (inl b) = Backed-node_id n.id a b
  IsRow-node_id n a (inr (inl (dm, e, u, f, s, q))) = ap (λ x. x.node_id) q
  IsRow-node_id n a (inr (inr q)) = ap (λ x. x.node_id) q ∙ keep_row-node_id n

  final_rows-AreRows :
      (t : List (String × Assignment)) (ns : List Node)
      → Entries (Backed def spec nodes models) t
      → AreRows ns (final_rows def models (lookup spec.default_model models) t ns)
  unfolding final_rows
  final_rows-AreRows t [] k = tt
  final_rows-AreRows t (n ∷ ns) k =
      let row = final_row-IsRow t n k in (IsRow-node_id n _ row, row, final_rows-AreRows t ns k)

-- A plan has one row for each node, in the order of the nodes' ids, and each row rests on a policy for
-- a ready model (a pin that lists the node, or a policy for whose model the node is not drained, of a
-- wanted class, large and fast enough), on the default model under the same conditions, or keeps what
-- the node serves.
pub default_plan-AreRows :
    (def : ℕ) (spec : Spec) (nodes : List Node) (catalog : List PlanModel)
    → let sorted = sort_by by_id nodes in
      AreRows def spec sorted
        (by_model [] catalog)
        sorted
        (default_plan def spec nodes catalog).rows
unfolding default_plan
default_plan-AreRows def spec nodes catalog =
    let sorted = sort_by by_id nodes in
    let models = by_model [] catalog in
    final_rows-AreRows def spec sorted models (draft def spec sorted models).assigned sorted
      (draft-AllBacked def spec sorted models)
