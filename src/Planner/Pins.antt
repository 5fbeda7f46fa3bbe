-- ===== src/Planner/Pins.antt =====
-- A pin wins over every other policy and over the default model.
use phoneborg.Shared.{
  ℕ, ◌≡◌, refl, ap, sym, subst, ◌∙◌, ◌⊎◌, inl, inr, Bool-cases, Option-cases, true, false, List, [],
  ◌∷◌, none, some, String, str_eq, str_eq_refl, eq_iff, lookup, lookup-insert, All, In, arith,
}
use phoneborg.Planner.{Policy, Node, PlanModel, Assignment, Reason, by_pin}
use phoneborg.Planner.Backed.{warn_pin-keeps}
use phoneborg.Planner.Place.{
  Draft, warn, warn_pin, model_at, row_for, assign, pin_nodes, is_pin, pin_all, not_connected,
  already_pinned,
}

-- The node `n`, which a pin gives the model `m`.
module _ (def : ℕ) (n : Node) (m : PlanModel) (named : str_eq m.id "" ≡ false) where
  abbrev pub AtNone : List (String × Assignment) → Type 0
  AtNone t = lookup n.id t ≡ none

  abbrev pub AtPin : List (String × Assignment) → Type 0
  AtPin t = lookup n.id t ≡ some (row_for n m by_pin)

  abbrev pub Open : Draft → Type 0
  Open d = AtNone d.assigned

  abbrev pub IsPinned : Draft → Type 0
  IsPinned d = AtPin d.assigned

  -- An assignment to another node changes nothing here.
  pub assign-IsPinned :
      (k : Node) (j : PlanModel) (r : Reason) (d : Draft)
      → str_eq k.id n.id ≡ false
      → IsPinned d
      → IsPinned (assign k j r d)
  assign-IsPinned k j r d e h = lookup-insert k.id n.id (row_for k j r) d.assigned ∙ rw e h

  pinned-model_at : (d : Draft) → IsPinned d → model_at n.id d.assigned ≡ m.id
  unfolding model_at
  pinned-model_at d h = rw (h, model_at) refl

  -- Only a node with no model is assigned one, so not this one.
  pub other_node :
      (k : Node) (d : Draft)
      → IsPinned d
      → str_eq (model_at k.id d.assigned) "" ≡ true
      → str_eq k.id n.id ≡ false
  other_node k d h e = elim (Bool-cases (str_eq k.id n.id)) [
    | inl q ↦
        let same : model_at k.id d.assigned ≡ m.id =
          ap (λ x. model_at x d.assigned) ((eq_iff k.id n.id).0 q) ∙ pinned-model_at d h in
        absurd (
          let no : str_eq m.id "" ≡ true = subst (λ x. str_eq x "" ≡ true) same e in
          ground (arith, no, named))
    | inr q ↦ q
  ]

  module _ (models : List (String × PlanModel)) (t : List (String × Node))
      (own : (id : String) (x : Node) → lookup id t ≡ some x → x.id ≡ id) where
    pin_nodes-IsPinned :
        (p : Policy) (k : PlanModel) (ids : List String) (d : Draft)
        → IsPinned d
        → IsPinned (pin_nodes def t p k ids d)
    unfolding pin_nodes
    pin_nodes-IsPinned p k [] d h = h
    pin_nodes-IsPinned p k (id ∷ ids) d h = elim (Option-cases (lookup id t)) [
      | inl f ↦
          rw (f, pin_nodes) (pin_nodes-IsPinned p k ids (warn (not_connected p.model_id id) d) h)
      | inr (x, f) ↦ elim (Bool-cases (str_eq (model_at id d.assigned) "")) [
        | inl q ↦
            let e : str_eq (model_at x.id d.assigned) "" ≡ true =
              subst (λ i. str_eq (model_at i d.assigned) "" ≡ true) (sym (own id x f)) q in
            rw (f, pin_nodes, q)
              (pin_nodes-IsPinned p k ids (warn_pin def p k x (assign x k by_pin d)) (
                warn_pin-keeps def p k x (assign x k by_pin d) AtPin
                  (assign-IsPinned x k by_pin d (other_node x d h e) h)))
        | inr q ↦
            rw (f, pin_nodes, q)
              (pin_nodes-IsPinned p k ids
                (warn (already_pinned p.model_id id (model_at id d.assigned)) d) h)
      ]
    ]

    -- Pinned, or not yet met.
    Held : List String → Draft → Type 0
    Held ids d = IsPinned d ⊎ (Open d × (In n.id ids → ⊥))

    wider :
        (id : String) (ids : List String) (d : Draft)
        → str_eq n.id id ≡ false
        → Held ids d
        → Held (id ∷ ids) d
    unfolding Held
    wider id ids d q (inl h) = inl h
    wider id ids d q (inr (h, not_in)) = inr (
      h,
      λ i. elim i [
        | inl e ↦ let t : str_eq n.id id ≡ true = (eq_iff n.id id).1 e in ground (arith, t, q)
        | inr j ↦ not_in j
      ],
    )

    pin_first :
        (p : Policy) (ids : List String) (d : Draft)
        → lookup n.id t ≡ some n
        → Open d
        → IsPinned (pin_nodes def t p m (n.id ∷ ids) d)
    unfolding pin_nodes model_at
    pin_first p ids d at h =
        let free : str_eq (model_at n.id d.assigned) "" ≡ true = rw (h, model_at) refl in
        let set : IsPinned (assign n m by_pin d) =
          lookup-insert n.id n.id (row_for n m by_pin) d.assigned ∙ rw (str_eq_refl n.id) refl in
        rw (at, pin_nodes, free)
          (pin_nodes-IsPinned p m ids (warn_pin def p m n (assign n m by_pin d))
            (warn_pin-keeps def p m n (assign n m by_pin d) AtPin set))

    pin_nodes-Held :
        (p : Policy) (k : PlanModel) (ids : List String) (d : Draft)
        → lookup n.id t ≡ some n
        → (In n.id ids → k ≡ m)
        → Open d
        → Held ids (pin_nodes def t p k ids d)
    unfolding pin_nodes Held
    pin_nodes-Held p k [] d at same h = inr (h, λ i. i)
    pin_nodes-Held p k (id ∷ ids) d at same h =
        let rest : (d' : Draft) → Open d' → Held ids (pin_nodes def t p k ids d') =
          λ d' h'. pin_nodes-Held p k ids d' at (λ i. same (inr i)) h' in
        elim (Bool-cases (str_eq n.id id)) [
          | inl q ↦
              let e = (eq_iff n.id id).0 q in
              inl (
                subst (λ j. IsPinned (pin_nodes def t p j (id ∷ ids) d)) (sym (same (inl e)))
                  (subst (λ i. IsPinned (pin_nodes def t p m (i ∷ ids) d)) e
                    (pin_first p ids d at h)))
          | inr q ↦ elim (Option-cases (lookup id t)) [
            | inl f ↦
                let d' = warn (not_connected p.model_id id) d in
                rw (f, pin_nodes) (wider id ids (pin_nodes def t p k ids d') q (rest d' h))
            | inr (x, f) ↦ elim (Bool-cases (str_eq (model_at id d.assigned) "")) [
              | inl e ↦
                  let d' = assign x k by_pin d in
                  let apart : str_eq x.id n.id ≡ false =
                    ground (arith, q, own id x f, eq_iff x.id n.id, eq_iff n.id id) in
                  let unset : Open d' =
                    lookup-insert x.id n.id (row_for x k by_pin) d.assigned ∙ rw apart h in
                  rw (f, pin_nodes, e)
                    (wider id ids (pin_nodes def t p k ids (warn_pin def p k x d')) q
                      (rest (warn_pin def p k x d') (warn_pin-keeps def p k x d' AtNone unset)))
              | inr e ↦
                  let d' = warn (already_pinned p.model_id id (model_at id d.assigned)) d in
                  rw (f, pin_nodes, e) (wider id ids (pin_nodes def t p k ids d') q (rest d' h))
            ]
          ]
        ]

    pin_all-IsPinned :
        (ps : List Policy) (d : Draft) → IsPinned d → IsPinned (pin_all def t models ps d)
    unfolding pin_all
    pin_all-IsPinned [] d h = h
    pin_all-IsPinned (p ∷ ps) d h = elim (Option-cases (lookup p.model_id models)) [
      | inl e ↦ rw (e, pin_all) (pin_all-IsPinned ps d h)
      | inr (k, e) ↦ elim (Bool-cases (is_pin p.mode)) [
        | inl s ↦
            rw (e, pin_all, s)
              (pin_all-IsPinned ps (pin_nodes def t p k p.nodes d)
                (pin_nodes-IsPinned p k p.nodes d h))
        | inr s ↦ rw (e, pin_all, s) (pin_all-IsPinned ps d h)
      ]
    ]

    -- Any pin of the node is for this model.
    abbrev pub IsOwn : Policy → Type 0
    IsOwn q = is_pin q.mode ≡ true → In n.id q.nodes → lookup q.model_id models ≡ some m

    pub pin_all-reached :
        (p : Policy) (ps : List Policy) (d : Draft)
        → lookup n.id t ≡ some n
        → is_pin p.mode ≡ true
        → In n.id p.nodes
        → All IsOwn ps
        → In p ps
        → Open d
        → IsPinned (pin_all def t models ps d)
    unfolding pin_all Held
    pin_all-reached p [] d at s i own_all j h = absurd j
    pin_all-reached p (q ∷ ps) d at s i own_all (inl e) h =
        let s' : is_pin q.mode ≡ true = subst (λ x. is_pin x.mode ≡ true) e s in
        let i' : In n.id q.nodes = subst (λ x. In n.id x.nodes) e i in
        let d' = pin_nodes def t q m q.nodes d in
        let set : IsPinned d' = elim (pin_nodes-Held q m q.nodes d at (λ _. refl) h) [
          | inl k ↦ k
          | inr (k, not_in) ↦ absurd (not_in i')
        ] in
        rw (own_all.0 s' i', pin_all, s') (pin_all-IsPinned ps d' set)
    pin_all-reached p (q ∷ ps) d at s i own_all (inr j) h =
        let rest : (d' : Draft) → Open d' → IsPinned (pin_all def t models ps d') =
          λ d' h'. pin_all-reached p ps d' at s i own_all.1 j h' in
        elim (Option-cases (lookup q.model_id models)) [
          | inl e ↦ rw (e, pin_all) (rest d h)
          | inr (k, e) ↦ elim (Bool-cases (is_pin q.mode)) [
            | inl u ↦
                let same : In n.id q.nodes → k ≡ m =
                  λ l. let e' = own_all.0 u l in ground (arith, e, e') in
                let d' = pin_nodes def t q k q.nodes d in
                rw (e, pin_all, u)
                  (elim (pin_nodes-Held q k q.nodes d at same h) [
                    | inl set ↦ pin_all-IsPinned ps d' set
                    | inr (unset, _) ↦ rest d' unset
                  ])
            | inr u ↦ rw (e, pin_all, u) (rest d h)
          ]
        ]
