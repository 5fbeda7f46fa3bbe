-- ===== src/Pools/Compat.antt =====
-- Two enabled pools never claim a node for what it cannot serve both of.
use phoneborg.Shared.{
  ◌≡◌, ◌⊎◌, refl, ap, sym, ◌∙◌, subst, true, false, Option, none, some, List, [], ◌∷◌, String,
  str_eq, str_eq_refl, eq_iff, any, any-In, any_of_In, if◌then◌else◌, lookup, insert, delete,
  lookup-insert, lookup-delete, map, is_some, In, arith, Bool-cases, Option-cases, inl, inr,
}
use phoneborg.Pools.{
  Pool, accepted, norm_pool, Conflict, both_big, no_common_model, contains, first_some, shares_node,
  big_conflict, claims, model_conflict, pool_conflict, is_big_brain, is_empty,
}
use phoneborg.Pools.Store.{Pools}

-- If two enabled pools name the same node, they are not both Big Brain pools, and if both list their
-- models they share one.
abbrev pub AreCompatible : (String → String) → Pool → Pool → Type 0
AreCompatible id p o =
    p.disabled ≡ false
    → o.disabled ≡ false
    → (n m : String) → In n p.nodes
    → In m o.nodes
    → id n ≡ id m
    → (is_big_brain p.routing ≡ true → is_big_brain o.routing ≡ true → ⊥)
      × (is_empty p.models ≡ false
          → is_empty o.models ≡ false
          → (x : String) × In x p.models × In x o.models)

compatible_swap : (id : String → String) (p o : Pool) → AreCompatible id p o → AreCompatible id o p
compatible_swap id p o c e f n m i j q =
    let (no_both, share) = c f e m n j i (sym q) in
    (λ a b. no_both b a, λ a b. let (x, k, l) = share b a in (x, l, k))

first_some-none :
    {A : Type 0} {B : Type 0} (f : A → Option B) (x : A) (xs : List A)
    → first_some f xs ≡ none
    → In x xs
    → f x ≡ none
first_some-none f x [] e i = absurd i
first_some-none f x (y ∷ ys) e i = elim (Option-cases (f y)) [
  | inr (b, q) ↦ absurd (let e' : some b ≡ none = rw (q, first_some) at e in ground (arith, e'))
  | inl q ↦ elim i [
    | inl same ↦ ap f same ∙ q
    | inr j ↦ first_some-none f x ys (rw (q, first_some) at e) j
  ]
]

is_empty-In : (x : String) (xs : List String) → In x xs → is_empty xs ≡ false
is_empty-In x [] i = absurd i
is_empty-In x (y ∷ ys) i = refl

module _ (id : String → String) where
  -- Every claimed node is in the map.
  claims_keep :
      (t : List (String × String)) (k : String) (ns : List String)
      → is_some (lookup k t) ≡ true
      → is_some (lookup k (claims id t ns)) ≡ true
  claims_keep t k [] h = h
  claims_keep t k (n ∷ ns) h =
      claims_keep (insert (id n) n t) k ns (ground (arith, h, lookup-insert (id n) k n t))

  claims-In :
      (t : List (String × String)) (n : String) (ns : List String)
      → In n ns
      → is_some (lookup (id n) (claims id t ns)) ≡ true
  claims-In t n [] i = absurd i
  claims-In t n (k ∷ ks) (inl e) =
      claims_keep (insert (id k) k t) (id n) ks
        (rw e (ground (arith, lookup-insert (id k) (id k) k t, str_eq_refl (id k))))
  claims-In t n (k ∷ ks) (inr i) = claims-In (insert (id k) k t) n ks i

  big_conflict-none :
      (p o : Pool) (n m : String)
      → str_eq o.name p.name ≡ false
      → o.disabled ≡ false
      → is_big_brain o.routing ≡ true
      → big_conflict id p o ≡ none
      → In n p.nodes
      → In m o.nodes
      → id n ≡ id m
      → ⊥
  unfolding big_conflict
  big_conflict-none p o n m a d b e i j q =
      let f : String → Option Conflict =
        λ k. if shares_node id p.nodes k then some (both_big o.name k) else none in
      let e' : first_some f o.nodes ≡ none = rw (a, d, b) at e in
      let shared : shares_node id p.nodes m ≡ true =
        any_of_In (λ k. str_eq (id k) (id m)) n p.nodes i ((eq_iff (id n) (id m)).1 q) in
      let miss : f m ≡ none = first_some-none f m o.nodes e' j in
      let hit : some (both_big o.name m) ≡ none = rw shared at miss in ground (arith, hit)

  model_conflict-none :
      (p o : Pool) (n m : String)
      → str_eq o.name p.name ≡ false
      → o.disabled ≡ false
      → is_empty o.models ≡ false
      → model_conflict id p o ≡ none
      → In n p.nodes
      → In m o.nodes
      → id n ≡ id m
      → (x : String) × In x p.models × In x o.models
  unfolding model_conflict contains
  model_conflict-none p o n m a d s e i j q = elim (Bool-cases (any (contains p.models) o.models)) [
    | inl c ↦
        let (x, k, t) = any-In (contains p.models) o.models c in
        let (y, l, u) = any-In (λ y. str_eq y x) p.models t in
        (x, subst (λ z. In z p.models) ((eq_iff y x).0 u) l, k)
    | inr c ↦
        let f : String → Option Conflict = λ k. elim (lookup (id k) (claims id [] p.nodes)) [
          | some name ↦ some (no_common_model o.name name)
          | none ↦ none
        ] in
        let e' : first_some f o.nodes ≡ none = rw (a, d, is_empty-In m o.nodes j, s, c) at e in
        let miss : f m ≡ none = first_some-none f m o.nodes e' j in
        let there : is_some (lookup (id m) (claims id [] p.nodes)) ≡ true =
          subst (λ k. is_some (lookup k (claims id [] p.nodes)) ≡ true) q
            (claims-In [] n p.nodes i) in
        absurd (ground (arith, miss, there))
  ]

  pub pool_conflict-none :
      (p o : Pool) (others : List Pool)
      → str_eq o.name p.name ≡ false
      → (is_big_brain p.routing ≡ true → is_empty p.models ≡ true)
      → In o others
      → pool_conflict id p others ≡ none
      → AreCompatible id p o
  unfolding pool_conflict
  pool_conflict-none p o others a big k e c d n m i j q =
      elim (Bool-cases (is_big_brain p.routing)) [
        | inl b ↦
            let e' : first_some (big_conflict id p) others ≡ none = rw (b, c) at e in
            (
              λ _ b'.
                  big_conflict-none p o n m a d b'
                    (first_some-none (big_conflict id p) o others e' k) i j q,
              λ s. absurd (let s' = big b in ground (arith, s, s')),
            )
        | inr b ↦ (
          λ b'. absurd (ground (arith, b, b')),
          λ s t.
              let e' : first_some (model_conflict id p) others ≡ none =
                rw (b, c, is_empty-In n p.nodes i, s) at e in
              model_conflict-none p o n m a d t
                (first_some-none (model_conflict id p) o others e' k) i j q,
        )
      ]

-- A set of pools: normal definitions under their own names, of which any two are compatible.
abbrev pub IsNormal : String → Pool → Type 0
IsNormal k p = (p.name ≡ k) × (norm_pool p ≡ accepted p)

abbrev pub IsConsistent : (String → String) → Pools → Type 0
IsConsistent id t =
    ((k : String) (p : Pool) → lookup k t ≡ some p → IsNormal k p)
    × ((k j : String) (p o : Pool)
        → lookup k t ≡ some p
        → lookup j t ≡ some o
        → str_eq k j ≡ false
        → AreCompatible id p o)

pub lookup-In : (k : String) (p : Pool) (t : Pools) → lookup k t ≡ some p → In p (map (λ e. e.1) t)
lookup-In k p [] e = absurd (ground (arith, e))
lookup-In k p ((j, o) ∷ t) e = elim (Bool-cases (str_eq j k)) [
  | inl q ↦ inl (let e' : some o ≡ some p = rw q at e in ground (arith, e'))
  | inr q ↦ inr (lookup-In k p t (rw q at e))
]

-- Where an entry of a map with a new entry comes from.
new_or_old :
    (k j : String) (q p : Pool) (t : Pools)
    → lookup j (insert k q t) ≡ some p
    → ((k ≡ j) × (q ≡ p)) ⊎ ((str_eq k j ≡ false) × (lookup j t ≡ some p))
new_or_old k j q p t e = elim (Bool-cases (str_eq k j)) [
  | inl s ↦ inl ((eq_iff k j).0 s, ground (arith, e, lookup-insert k j q t, s))
  | inr s ↦ inr (s, ground (arith, e, lookup-insert k j q t, s))
]

pub insert-IsConsistent :
    (id : String → String) (q : Pool) (t : Pools)
    → norm_pool q ≡ accepted q
    → ((j : String) (o : Pool)
        → lookup j t ≡ some o
        → str_eq q.name j ≡ false
        → AreCompatible id q o)
    → IsConsistent id t
    → IsConsistent id (insert q.name q t)
insert-IsConsistent id q t n fits (normal, pairs) = (
  λ k p e. elim (new_or_old q.name k q p t e) [
    | inl (a, b) ↦ subst (IsNormal k) b (a, n)
    | inr (a, f) ↦ normal k p f
  ],
  λ k j p o e f d. elim (new_or_old q.name k q p t e) [
    | inl (a, b) ↦ elim (new_or_old q.name j q o t f) [
      | inl (c, _) ↦
          absurd
            (let same : str_eq k j ≡ true = (eq_iff k j).1 (sym a ∙ c) in ground (arith, d, same))
      | inr (c, g) ↦ subst (λ x. AreCompatible id x o) b (fits j o g c)
    ]
    | inr (a, g) ↦ elim (new_or_old q.name j q o t f) [
      | inl (_, b) ↦ compatible_swap id o p (subst (λ x. AreCompatible id x p) b (fits k p g a))
      | inr (_, h) ↦ pairs k j p o g h d
    ]
  ],
)

pub delete-IsConsistent :
    (id : String → String) (k : String) (t : Pools)
    → IsConsistent id t
    → IsConsistent id (delete k t)
delete-IsConsistent id k t (normal, pairs) =
    let old : (j : String) (p : Pool) → lookup j (delete k t) ≡ some p → lookup j t ≡ some p =
      λ j p e. ground (arith, e, lookup-delete k j t) in
    (λ j p e. normal j p (old j p e), λ j i p o e f d. pairs j i p o (old j p e) (old i o f) d)
