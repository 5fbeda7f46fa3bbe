-- ===== src/Pools/Clash.antt =====
-- Why a pool is refused for a conflict with another.
use phoneborg.Shared.{
  ◌≡◌, ◌≢◌, ◌⊎◌, refl, ap, sym, ◌∙◌, subst, Bool, true, false, not, ◌&&◌, ◌||◌, Option, none, some,
  List, [], ◌∷◌, String, str_eq, eq_iff, any, any-In, any_of_In, if◌then◌else◌, lookup, insert,
  lookup-insert, In, arith, Bool-cases, Option-cases, inl, inr,
}
use phoneborg.Pools.{
  Pool, Conflict, both_big, no_common_model, contains, first_some, shares_node, big_conflict,
  claims, model_conflict, pool_conflict, is_big_brain, is_empty,
}

-- Two pools that are not one, both enabled, claim the same node under these names.
abbrev pub SharesNode : (String → String) → Pool → Pool → String → String → Type 0
SharesNode id q o n m =
    (o.name ≢ q.name)
    × (q.disabled ≡ false)
    × (o.disabled ≡ false)
    × In n q.nodes
    × In m o.nodes
    × (id n ≡ id m)

-- The conflict is there: with another pool of the list, both are Big Brain pools, or both list models and
-- none is common.
abbrev pub IsClash : (String → String) → (Pool → Type 0) → Pool → Conflict → Type 0
IsClash id Held q (both_big other m) =
    (o : Pool) × (n : String) × Held o
    × (other ≡ o.name)
    × SharesNode id q o n m
    × (is_big_brain q.routing ≡ true)
    × (is_big_brain o.routing ≡ true)
IsClash id Held q (no_common_model other n) =
    (o : Pool) × (m : String) × Held o
    × (other ≡ o.name)
    × SharesNode id q o n m
    × (is_big_brain q.routing ≡ false)
    × (is_empty q.models ≡ false)
    × (is_empty o.models ≡ false)
    × ((x : String) → In x q.models → ¬ (In x o.models))

first_some-some :
    {A : Type 0} {B : Type 0} (f : A → Option B) (b : B) (xs : List A)
    → first_some f xs ≡ some b
    → (x : A) × In x xs × (f x ≡ some b)
first_some-some f b [] e = absurd (ground (arith, e))
first_some-some {A} {B} f b (y ∷ ys) e = elim (Option-cases (f y)) [
  | inr (c, q) ↦ (y, inl refl, q ∙ (let e' : some c ≡ some b = rw (q, first_some) at e in e'))
  | inl q ↦ let (x, i, p) = first_some-some f b ys (rw (q, first_some) at e) in (x, inr i, p)
]

module _ (id : String → String) where
  claims-from :
      (t : List (String × String)) (key v : String) (ns : List String)
      → lookup key (claims id t ns) ≡ some v
      → (lookup key t ≡ some v) ⊎ (In v ns × (id v ≡ key))
  claims-from t key v [] e = inl e
  claims-from t key v (n ∷ ns) e = elim (claims-from (insert (id n) n t) key v ns e) [
    | inr (i, q) ↦ inr (inr i, q)
    | inl f ↦ elim (Bool-cases (str_eq (id n) key)) [
      | inl s ↦
          let same : n ≡ v = ground (arith, f, lookup-insert (id n) key n t, s) in
          inr (inl (sym same), ap id (sym same) ∙ (eq_iff (id n) key).0 s)
      | inr s ↦ inl (ground (arith, f, lookup-insert (id n) key n t, s))
    ]
  ]

  -- What the guards of the loops leave.
  four :
      (a b c d : Bool)
      → (a || b || c || d) ≡ false
      → (a ≡ false) × (b ≡ false) × (c ≡ false) × (d ≡ false)
  four a b c d h = (ground (arith, h), ground (arith, h), ground (arith, h), ground (arith, h))

  other_name : (a b : String) → str_eq a b ≡ false → a ≢ b
  other_name a b h e = ground (arith, h, (eq_iff a b).1 e)

  module _ (q : Pool) (Held : Pool → Type 0) (c : Conflict) where
    big_conflict-IsClash :
        (o : Pool)
        → Held o
        → q.disabled ≡ false
        → is_big_brain q.routing ≡ true
        → big_conflict id q o ≡ some c
        → IsClash id Held q c
    unfolding big_conflict
    big_conflict-IsClash o i d b e =
        elim (Bool-cases (str_eq o.name q.name || not (is_big_brain o.routing) || o.disabled)) [
          | inl g ↦ absurd (let e' : none ≡ some c = rw g at e in ground (arith, e'))
          | inr g ↦
              let f : String → Option Conflict =
                λ m. if shares_node id q.nodes m then some (both_big o.name m) else none in
              let (m, j, p) = first_some-some f c o.nodes (rw g at e) in
              elim (Bool-cases (shares_node id q.nodes m)) [
                | inr s ↦ absurd (let p' : none ≡ some c = rw s at p in ground (arith, p'))
                | inl s ↦
                    let p' : some (both_big o.name m) ≡ some c = rw s at p in
                    let same : both_big o.name m ≡ c = ground (arith, p') in
                    let (n, k, t) = any-In (λ k. str_eq (id k) (id m)) q.nodes s in
                    subst (IsClash id Held q) same (
                      o,
                      n,
                      i,
                      refl,
                      (
                        other_name o.name q.name (ground (arith, g)),
                        d,
                        ground (arith, g),
                        k,
                        j,
                        (eq_iff (id n) (id m)).0 t,
                      ),
                      b,
                      ground (arith, g),
                    )
              ]
        ]

    no_common :
        (o : Pool)
        → any (contains q.models) o.models ≡ false
        → (x : String) → In x q.models
        → ¬ (In x o.models)
    unfolding contains
    no_common o a x i j =
        let t = any_of_In (λ y. str_eq y x) x q.models i ((eq_iff x x).1 refl) in
        let u = any_of_In (contains q.models) x o.models j t in ground (arith, a, u)

    model_conflict-IsClash :
        (o : Pool)
        → Held o
        → q.disabled ≡ false
        → is_big_brain q.routing ≡ false
        → is_empty q.models ≡ false
        → model_conflict id q o ≡ some c
        → IsClash id Held q c
    unfolding model_conflict
    model_conflict-IsClash o i d b s e =
        let none_common = any (contains q.models) o.models in
        elim (Bool-cases (
          str_eq o.name q.name
          || o.disabled
          || is_empty o.nodes
          || is_empty o.models
          || none_common)) [
            | inl g ↦ absurd (let e' : none ≡ some c = rw g at e in ground (arith, e'))
            | inr g ↦
                let f : String → Option Conflict = λ m.
                  elim (lookup (id m) (claims id [] q.nodes)) [
                    | some name ↦ some (no_common_model o.name name)
                    | none ↦ none
                  ] in
                let (m, j, p) = first_some-some f c o.nodes (rw g at e) in
                elim (Option-cases (lookup (id m) (claims id [] q.nodes))) [
                  | inl l ↦ absurd (let p' : none ≡ some c = rw l at p in ground (arith, p'))
                  | inr (n, l) ↦
                      let p' : some (no_common_model o.name n) ≡ some c = rw l at p in
                      let same : no_common_model o.name n ≡ c = ground (arith, p') in
                      elim (claims-from [] (id m) n q.nodes l) [
                        | inl z ↦ absurd (ground (arith, z))
                        | inr (k, t) ↦ subst (IsClash id Held q) same (
                          o,
                          m,
                          i,
                          refl,
                          (
                            other_name o.name q.name (ground (arith, g)),
                            d,
                            ground (arith, g),
                            k,
                            j,
                            t,
                          ),
                          b,
                          s,
                          ground (arith, g),
                          no_common o (ground (arith, g)),
                        )
                      ]
                ]
          ]

    -- A conflict that is found is one with a pool of the list.
    pub pool_conflict-IsClash :
        (others : List Pool)
        → ((o : Pool) → In o others → Held o)
        → pool_conflict id q others ≡ some c
        → IsClash id Held q c
    unfolding pool_conflict
    pool_conflict-IsClash others held e =
        elim (Bool-cases (is_big_brain q.routing && not q.disabled)) [
          | inl b ↦
              let (o, i, p) = first_some-some (big_conflict id q) c others (rw b at e) in
              big_conflict-IsClash o (held o i) (ground (arith, b)) (ground (arith, b)) p
          | inr b ↦ elim (Bool-cases (q.disabled || is_empty q.nodes || is_empty q.models)) [
            | inl g ↦ absurd (let e' : none ≡ some c = rw (b, g) at e in ground (arith, e'))
            | inr g ↦
                let (o, i, p) = first_some-some (model_conflict id q) c others (rw (b, g) at e) in
                model_conflict-IsClash o (held o i) (ground (arith, g)) (ground (arith, b, g))
                  (ground (arith, g)) p
          ]
        ]
