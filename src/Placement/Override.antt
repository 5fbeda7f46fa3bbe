-- ===== src/Placement/Override.antt =====
-- A benchmark's model goes to its node, whatever the placement says.
use phoneborg.Shared.{
  ℕ, ◌≡◌, refl, ap, sym, subst, ◌∙◌, ◌⊎◌, true, false, Option, none, some, List, [], ◌∷◌, ◌++◌,
  String, str_eq, eq_iff, str_leb, ◌==◌, lookup, insert, lookup-insert, keep, length, map, sort_by,
  In-sort_by, In-keep, keep-In, In, In-append, append_In, All, All-of_In, Bool-cases, inl, inr,
  arith,
}
use phoneborg.Memplan.{auto}
use phoneborg.Planner
use phoneborg.Planner.{Policy, Spec, PlanModel, Assignment, by_pin, ctx_size}
use phoneborg.Planner.Place.{
  is_pin, by_model, by_node, by_id, row_for, final_rows, final_row, draft, default_plan,
}
use phoneborg.Planner.Pinned.{draft-pins}
use phoneborg.Planner.Rows.{AreRows, default_plan-AreRows}
use phoneborg.Fleet.{Phone}
use phoneborg.Placement.{
  Row, Placement, override_pin, override_of, override_pins, is_free, without_overridden,
  with_overrides, assigning, Inputs, plan_node, is_planned, plan_inputs, mark, index_rows,
  effective_spec, replan, serve, desired,
}

-- No pin that stays lists an overridden node.
without_overridden-free :
    (os : List (String × String)) (ps : List Policy) (q : Policy) (n : String)
    → In q (without_overridden os ps)
    → is_pin q.mode ≡ true
    → In n q.nodes
    → is_free os n ≡ true
unfolding without_overridden
without_overridden-free os [] q n i s j = absurd i
without_overridden-free os (p ∷ ps) q n i s j = elim (Bool-cases (is_pin p.mode)) [
  | inr f ↦
      elim (let k : In q (p ∷ without_overridden os ps) = rw (f, without_overridden) at i in k) [
        | inl e ↦ absurd (let same = ap (λ x. is_pin x.mode) e in ground (arith, f, s, same))
        | inr k ↦ without_overridden-free os ps q n k s j
      ]
  | inl t ↦ elim (Bool-cases (length (keep (is_free os) p.nodes) == 0)) [
    | inl z ↦ without_overridden-free os ps q n (rw (t, without_overridden, z) at i) s j
    | inr z ↦
        elim (let k : In q
              (record p { nodes = keep (is_free os) p.nodes } ∷ without_overridden os ps) =
            rw (t, without_overridden, z) at i in
          k) [
            | inl e ↦ (In-keep (is_free os) n p.nodes (subst (λ x. In n x.nodes) e j)).1
            | inr k ↦ without_overridden-free os ps q n k s j
          ]
  ]
]

In-override_pins :
    (os : List (String × String)) (ns : List String) (n : String)
    → In n ns
    → In (override_pin n (override_of os n)) (override_pins os ns)
unfolding override_pins
In-override_pins os [] n i = absurd i
In-override_pins os (k ∷ ks) n (inl e) = inl (ap (λ x. override_pin x (override_of os x)) e)
In-override_pins os (k ∷ ks) n (inr i) = inr (In-override_pins os ks n i)

override_pins-model :
    (os : List (String × String)) (ns : List String) (q : Policy) (n : String)
    → In q (override_pins os ns)
    → In n q.nodes
    → q.model_id ≡ override_of os n
unfolding override_pins
override_pins-model os [] q n i j = absurd i
override_pins-model os (k ∷ ks) q n (inl e) j = elim (subst (λ x. In n x.nodes) e j) [
  | inl same ↦ ap (λ x. x.model_id) e ∙ ap (override_of os) (sym same)
  | inr no_more ↦ absurd no_more
]
override_pins-model os (k ∷ ks) q n (inr i) j = override_pins-model os ks q n i j

map-In : {A : Type 0} {B : Type 0} (f : A → B) (a : A) (xs : List A) → In a xs → In (f a) (map f xs)
map-In f a [] i = absurd i
map-In f a (x ∷ xs) (inl e) = inl (ap f e)
map-In f a (x ∷ xs) (inr i) = inr (map-In f a xs i)

lookup-key :
    (n m : String) (os : List (String × String)) → lookup n os ≡ some m → In n (map (λ o. o.0) os)
lookup-key n m [] e = absurd (ground (arith, e))
lookup-key n m ((k, v) ∷ os) e = elim (Bool-cases (str_eq k n)) [
  | inl q ↦ inl (sym ((eq_iff k n).0 q))
  | inr q ↦ inr (lookup-key n m os (rw q at e))
]

effective-overrides :
    (spec : Spec) (os : List (String × String)) (n m : String)
    → lookup n os ≡ some m
    → effective_spec spec os ≡ with_overrides spec os
effective-overrides spec [] n m e = absurd (ground (arith, e))
effective-overrides spec (o ∷ os) n m e = refl

-- The index of a plan's rows holds the assigned row of a node, since every row for its id is this one.
module _ (def : ℕ) (spec : Spec) (nodes : List Planner.Node) (models : List (String × PlanModel))
    (dm : Option PlanModel) (t : List (String × Assignment)) (os : List (String × String))
    (n : Planner.Node) (a : Assignment) (held : lookup n.id t ≡ some a)
    (own : a.node_id ≡ n.id) where
  index_rows-final_rows :
      (ns : List Planner.Node) (acc : List (String × Row))
      → AreRows def spec nodes models ns (final_rows def models dm t ns)
      → In n ns ⊎ (lookup n.id acc ≡ some (mark os a))
      → lookup n.id (index_rows acc (map (mark os) (final_rows def models dm t ns)))
        ≡ some (mark os a)
  unfolding index_rows final_rows mark final_row
  index_rows-final_rows [] acc r (inl i) = absurd i
  index_rows-final_rows [] acc r (inr e) = e
  index_rows-final_rows (k ∷ ks) acc (id, row, rest) h =
      let b = final_row def models dm t k in
      let next = insert b.node_id (mark os b) acc in
      elim (Bool-cases (str_eq k.id n.id)) [
        | inl q ↦
            let same : b ≡ a =
              let f : lookup k.id t ≡ some a =
                ap (λ x. lookup x t) ((eq_iff k.id n.id).0 q) ∙ held in
              rw (f, final_row) refl in
            let here : lookup n.id next ≡ some (mark os a) =
              subst (λ x. lookup n.id (insert x.node_id (mark os x) acc) ≡ some (mark os a))
                (sym same)
                (ground (
                  arith,
                  lookup-insert a.node_id n.id (mark os a) acc,
                  (eq_iff a.node_id n.id).1 own,
                )) in
            index_rows-final_rows ks next rest (inr here)
        | inr q ↦
            let other : str_eq b.node_id n.id ≡ false = rw id q in
            let back : lookup n.id next ≡ lookup n.id acc =
              lookup-insert b.node_id n.id (mark os b) acc ∙ rw other refl in
            index_rows-final_rows ks next rest (elim h [
              | inr e ↦ inr (back ∙ e)
              | inl i ↦ elim i [
                | inl e ↦
                    absurd (
                      let w = (eq_iff k.id n.id).1 (ap (λ x. x.id) (sym e)) in ground (arith, q, w))
                | inr j ↦ inl j
              ]
            ])
      ]

desired-row :
    (bb : String → Option String) (file : String → Option PlanModel) (p : Placement) (id : String)
    → (r : Row) (m : PlanModel) → bb id ≡ none
    → lookup id p.by_node ≡ some r
    → assigning r ≡ true
    → file r.assignment.model_id ≡ some m
    → desired bb file p id
      ≡ some (serve m r.assignment.ctx_size r.assignment.slots r.assignment.kv_type)
unfolding desired
desired-row bb file p id r m b l a f =
    rw (b, desired) (rw (l, desired) (rw (a, desired) (rw (f, desired) refl)))

-- Every pin of the node in the overridden placement is for the forced model.
forced_pins :
    (spec : Spec) (os : List (String × String)) (catalog : List PlanModel) (n : String)
    (m : PlanModel)
    → lookup n os ≡ some m.id
    → lookup m.id (by_model [] catalog) ≡ some m
    → All
        (λ q.
          is_pin q.mode ≡ true → In n q.nodes → lookup q.model_id (by_model [] catalog) ≡ some m)
        (with_overrides spec os).policies
unfolding with_overrides
forced_pins spec os catalog n m forced ready =
    let keys = sort_by str_leb (map (λ o. o.0) os) in
    All-of_In
      (λ q. is_pin q.mode ≡ true → In n q.nodes → lookup q.model_id (by_model [] catalog) ≡ some m)
      (override_pins os keys ++ without_overridden os spec.policies)
      (λ q i s j.
        elim (In-append q (override_pins os keys) (without_overridden os spec.policies) i) [
          | inl k ↦
              let own : q.model_id ≡ m.id =
                override_pins-model os keys q n k j ∙ rw (forced, override_of) refl in
              ap (λ x. lookup x (by_model [] catalog)) own ∙ ready
          | inr k ↦ absurd (
              let free = without_overridden-free os spec.policies q n k s j in
              ground (arith, free, forced))
        ])

replan-by_node :
    (x : Inputs) (p : Placement) (n : Phone) (m : PlanModel)
    → str_eq m.id "" ≡ false
    → lookup n.id p.overrides ≡ some m.id
    → In n x.nodes
    → is_planned x n ≡ true
    → lookup n.id (by_node [] (sort_by by_id (plan_inputs x p.by_node)))
      ≡ some (plan_node x p.by_node n)
    → lookup m.id (by_model [] x.ready) ≡ some m
    → lookup n.id (replan x p).by_node
      ≡ some (mark p.overrides (row_for (plan_node x p.by_node n) m by_pin))
unfolding replan default_plan plan_inputs plan_node with_overrides
replan-by_node x p n m named forced i planned at ready =
    let os = p.overrides in
    let nodes = plan_inputs x p.by_node in
    let sorted = sort_by by_id nodes in
    let models = by_model [] x.ready in
    let node = plan_node x p.by_node n in
    let spec = with_overrides p.spec os in
    let q = override_pin n.id m.id in
    let keys = sort_by str_leb (map (λ o. o.0) os) in
    let in_keys = In-sort_by str_leb n.id (map (λ o. o.0) os) (lookup-key n.id m.id os forced) in
    let listed : In q spec.policies =
      append_In q (override_pins os keys) (without_overridden os p.spec.policies) (
        inl (
          subst (λ y. In (override_pin n.id y) (override_pins os keys))
            (rw (forced, override_of) refl) (In-override_pins os keys n.id in_keys))) in
    let here : In node sorted = In-sort_by by_id node nodes (
      map-In (plan_node x p.by_node) n (keep (is_planned x) x.nodes)
        (keep-In (is_planned x) n x.nodes i planned)) in
    let held =
      draft-pins x.min_tok_s spec nodes x.ready q node m named refl listed (inl refl) at
        (forced_pins p.spec os x.ready n.id m forced ready) in
    let rows = default_plan-AreRows x.min_tok_s spec nodes x.ready in
    let dm = lookup spec.default_model models in
    let t = (draft x.min_tok_s spec sorted models).assigned in
    let indexed =
      index_rows-final_rows x.min_tok_s spec sorted models dm t os node (row_for node m by_pin) held
        refl sorted [] rows (inl here) in
    ap
      (λ y.
        lookup n.id (index_rows [] (map (mark os) (default_plan x.min_tok_s y nodes x.ready).rows)))
      (effective-overrides p.spec os n.id m.id forced)
    ∙ indexed

-- After a replan, a node that a benchmark forces a ready model onto is told to serve this model with its
-- full context, one slot and the cache type left to the agent, whatever the placement's policies and
-- default model say and whether or not it fits, and its row
-- is for this model and marked as a benchmark's: if the node is planned (not
-- offline and not lent to a Big Brain), ids are its own, and the model has a name.
pub replan-desired :
    (x : Inputs) (p : Placement) (n : Phone) (m : PlanModel)
    → (file : String → Option PlanModel) → str_eq m.id "" ≡ false
    → lookup n.id p.overrides ≡ some m.id
    → In n x.nodes
    → is_planned x n ≡ true
    → lookup n.id (by_node [] (sort_by by_id (plan_inputs x p.by_node)))
      ≡ some (plan_node x p.by_node n)
    → lookup m.id (by_model [] x.ready) ≡ some m
    → file m.id ≡ some m
    → (desired x.big_brain_model file (replan x p) n.id ≡ some (serve m (ctx_size m) 1 (some auto)))
      × ((row : Row) × (lookup n.id (replan x p).by_node ≡ some row)
          × (row.benchmark ≡ true)
          × (row.assignment.node_id ≡ n.id)
          × (row.assignment.model_id ≡ m.id))
unfolding plan_node mark assigning
replan-desired x p n m file named forced i planned at ready found =
    let row = mark p.overrides (row_for (plan_node x p.by_node n) m by_pin) in
    let free : x.big_brain_model n.id ≡ none = ground (arith, planned) in
    let sends : assigning row ≡ true = ground arith in
    let held = replan-by_node x p n m named forced i planned at ready in
    (
      desired-row x.big_brain_model file (replan x p) n.id row m free held sends found,
      (row, held, ground (arith, forced, (eq_iff m.id m.id).1 refl), refl, refl),
    )
