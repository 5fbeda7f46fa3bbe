-- ===== src/Planner/PinOnce.antt =====
-- A placement that `Validate` accepts pins a node once, so the plan holds every pin.
use phoneborg.Shared.{
  ℕ, ◌≡◌, refl, sym, subst, ◌∙◌, true, false, some, List, [], ◌∷◌, ◌++◌, String, str_eq, lookup,
  insert, All-of_In, All-In, In, append_In, Bool-cases, inl, inr, arith, Entries, Entries-insert,
  Entries-lookup, sort_by,
}
use phoneborg.Planner.{Policy, Spec, Node, PlanModel, by_pin}
use phoneborg.Planner.Place.{is_pin, by_model, by_node, by_id, row_for, default_plan}
use phoneborg.Planner.Pinned.{default_plan-pins}
use phoneborg.Planner.Validate.{known, validate}
use phoneborg.Planner.Valid.{Apart, noted, pinned_nodes, named, validate-IsValid}

Apart-no : (id : String) (seen ys : List String) → Apart seen ys → In id seen → In id ys → ⊥
Apart-no id seen [] a i j = j
Apart-no id seen (y ∷ ys) a i (inl q) = a.0 (subst (λ x. In x seen) q i)
Apart-no id seen (y ∷ ys) a i (inr j) = Apart-no id (y ∷ seen) ys a.1 (inr i) j

noted-In : (id : String) (xs seen : List String) → In id seen → In id (noted xs seen)
noted-In id [] seen i = i
noted-In id (x ∷ xs) seen i = noted-In id xs (x ∷ seen) (inr i)

In-noted : (id : String) (xs seen : List String) → In id xs → In id (noted xs seen)
In-noted id [] seen i = absurd i
In-noted id (x ∷ xs) seen (inl q) = noted-In id xs (x ∷ seen) (inl q)
In-noted id (x ∷ xs) seen (inr i) = In-noted id xs (x ∷ seen) i

Apart-behind : (seen xs ys : List String) → Apart seen (xs ++ ys) → Apart (noted xs seen) ys
Apart-behind seen [] ys a = a
Apart-behind seen (x ∷ xs) ys a = Apart-behind (x ∷ seen) xs ys a.1

-- A pin policy that lists the node.
abbrev Lists : String → Policy → Type 0
Lists id p = (is_pin p.mode ≡ true) × In id p.nodes

In-pinned_nodes :
    (id : String) (p : Policy) (ps : List Policy) → In p ps → Lists id p → In id (pinned_nodes ps)
In-pinned_nodes id p [] i l = absurd i
In-pinned_nodes id p (q ∷ ps) (inl e) l =
    let (s, j) = subst (Lists id) e l in rw s (append_In id q.nodes (pinned_nodes ps) (inl j))
In-pinned_nodes id p (q ∷ ps) (inr i) l =
    let rest = In-pinned_nodes id p ps i l in
    elim (Bool-cases (is_pin q.mode)) [
      | inl s ↦ rw s (append_In id q.nodes (pinned_nodes ps) (inr rest))
      | inr s ↦ rw s rest
    ]

tail_split :
    (p : Policy) (ps : List Policy) (seen : List String)
    → Apart seen (pinned_nodes (p ∷ ps))
    → (s : List String) × Apart s (pinned_nodes ps) × ((id : String) → Lists id p → In id s)
tail_split p ps seen a = elim (Bool-cases (is_pin p.mode)) [
  | inl s ↦ (
    noted p.nodes seen,
    Apart-behind seen p.nodes (pinned_nodes ps) (rw s at a),
    λ id l. In-noted id p.nodes seen l.1,
  )
  | inr s ↦ (
    seen,
    (let b : Apart seen (pinned_nodes ps) = rw s at a in b),
    λ id l. absurd (ground (arith, s, l.0)),
  )
]

one_pin :
    (id : String) (p q : Policy) (ps : List Policy) (seen : List String)
    → Apart seen (pinned_nodes ps)
    → In p ps
    → In q ps
    → Lists id p
    → Lists id q
    → p ≡ q
one_pin id p q [] seen a i j l k = absurd i
one_pin id p q (r ∷ ps) seen a (inl e) (inl f) l k = e ∙ sym f
one_pin id p q (r ∷ ps) seen a (inl e) (inr j) l k =
    let (s, b, mine) = tail_split r ps seen a in
    absurd (
      Apart-no id s (pinned_nodes ps) b (mine id (subst (Lists id) e l))
        (In-pinned_nodes id q ps j k))
one_pin id p q (r ∷ ps) seen a (inr i) (inl f) l k =
    let (s, b, mine) = tail_split r ps seen a in
    absurd (
      Apart-no id s (pinned_nodes ps) b (mine id (subst (Lists id) f k))
        (In-pinned_nodes id p ps i l))
one_pin id p q (r ∷ ps) seen a (inr i) (inr j) l k =
    let (s, b, _) = tail_split r ps seen a in one_pin id p q ps s b i j l k

by_model-named :
    (t : List (String × PlanModel)) (ms : List PlanModel)
    → Entries (λ id m. m.id ≡ id) t
    → Entries (λ id m. m.id ≡ id) (by_model t ms)
unfolding by_model
by_model-named t [] h = h
by_model-named t (m ∷ ms) h =
    by_model-named (insert m.id m t) ms (Entries-insert (λ id m. m.id ≡ id) m.id m t refl h)

-- If a placement has no errors, for models that all have a name, then every connected node that one of
-- its pin policies lists has that policy's model in the plan, by the pin, once the model is ready:
-- whatever the other policies and the default model say, drained or not, and whether or not it fits.
pub validate-default_plan :
    (def : ℕ) (spec : Spec) (ids models : List String) (nodes : List Node)
    (catalog : List PlanModel)
    → (p : Policy) (n : Node) (m : PlanModel) → known models "" ≡ false
    → validate spec ids models ≡ []
    → is_pin p.mode ≡ true
    → In p spec.policies
    → In n.id p.nodes
    → In n nodes
    → lookup n.id (by_node [] (sort_by by_id nodes)) ≡ some n
    → lookup p.model_id (by_model [] catalog) ≡ some m
    → In (row_for n m by_pin) (default_plan def spec nodes catalog).rows
validate-default_plan def spec ids models nodes catalog p n m u e s i j k at ready =
    let (ok, _, apart, _, _) = validate-IsValid spec ids models u e in
    let known_model = (All-In _ p spec.policies ok i).0 in
    let own : m.id ≡ p.model_id =
      Entries-lookup (λ id x. x.id ≡ id) p.model_id m (by_model [] catalog)
        (by_model-named [] catalog tt) ready in
    let name : str_eq m.id "" ≡ false = rw own (named models p.model_id u known_model) in
    default_plan-pins def spec nodes catalog p n m name s i j k at (
      All-of_In _ spec.policies (λ q l v w.
        let same : p ≡ q = one_pin n.id p q spec.policies [] apart i l (s, j) (v, w) in
        subst (λ x. lookup x.model_id (by_model [] catalog) ≡ some m) same ready))
