-- ===== src/Fleet/Backends.antt =====
-- Where the backends of the gateway come from.
use phoneborg.Shared.{
  ℕ, ◌≡◌, ◌⊎◌, refl, sym, subst, ◌∙◌, Bool, true, false, some, List, [], ◌∷◌, ◌++◌, String, any,
  ltb, if◌then◌else◌, map, In, In-append, any_of_In, Bool-cases, Option-cases, inl, inr, arith,
}
use phoneborg.Gateway.Backend.{Backend}
use phoneborg.Fleet.{
  Phone, Runtime, runtime_of, serves, backend_of, phone_backends, unmeasured, backends,
}
use phoneborg.Fleet.Describe.{IsUp, serves-IsUp, Describes, backend_of-Describes}

module _ (url : String → ℕ → String) (host : String) (limit : ℕ) where
  -- A node that serves, with its runtime and its backend.
  abbrev IsServing : List (String × Bool) → List Phone → Backend × Bool → Type 0
  IsServing drained ns e =
      (n : Phone) × (rt : Runtime) × In n ns
      × (runtime_of n ≡ some rt)
      × IsUp n rt
      × Describes url host limit drained n rt e

  later :
      (drained : List (String × Bool)) (n : Phone) (ns : List Phone) (e : Backend × Bool)
      → IsServing drained ns e
      → IsServing drained (n ∷ ns) e
  later drained n ns e (k, rt, i, r, s, q) = (k, rt, inr i, r, s, q)

  phone_backends-IsServing :
      (drained : List (String × Bool)) (ns : List Phone) (e : Backend × Bool)
      → In e (phone_backends url host limit drained ns)
      → IsServing drained ns e
  unfolding phone_backends
  phone_backends-IsServing drained [] e i = absurd i
  phone_backends-IsServing drained (n ∷ ns) e i = elim (Option-cases (runtime_of n)) [
    | inl r ↦
        let j : In e (phone_backends url host limit drained ns) = rw (r, phone_backends) at i in
        later drained n ns e (phone_backends-IsServing drained ns e j)
    | inr (rt, r) ↦ elim (Bool-cases (serves n rt)) [
      | inl s ↦
          elim (let j : In e (
                backend_of url host limit drained n rt ∷ phone_backends url host limit drained ns) =
              rw (r, phone_backends, s) at i in
            j) [
              | inl q ↦ (
                n,
                rt,
                inl refl,
                r,
                serves-IsUp n rt s,
                subst (Describes url host limit drained n rt) (sym q)
                    (backend_of-Describes url host limit drained n rt),
              )
              | inr j ↦ later drained n ns e (phone_backends-IsServing drained ns e j)
            ]
      | inr s ↦
          let j : In e (phone_backends url host limit drained ns) =
            rw (r, phone_backends, s) at i in
          later drained n ns e (phone_backends-IsServing drained ns e j)
    ]
  ]

  abbrev candidates : List Phone → List (String × Bool) → List Backend → List (Backend × Bool)
  candidates nodes drained external =
      phone_backends url host limit drained nodes ++ map (λ b. (b, ltb 0 b.speed)) external

  -- A candidate is a phone that serves, or an external backend, which is measured if it has a speed.
  abbrev pub IsCandidate :
      List Phone → List (String × Bool) → List Backend → Backend × Bool → Type 0
  IsCandidate nodes drained external e =
      IsServing drained nodes e ⊎ ((x : Backend) × In x external × (e ≡ (x, ltb 0 x.speed)))

  external-In :
      (e : Backend × Bool) (xs : List Backend)
      → In e (map (λ b. (b, ltb 0 b.speed)) xs)
      → (x : Backend) × In x xs × (e ≡ (x, ltb 0 x.speed))
  external-In e [] i = absurd i
  external-In e (x ∷ xs) (inl q) = (x, inl refl, q)
  external-In e (x ∷ xs) (inr i) = let (y, j, q) = external-In e xs i in (y, inr j, q)

  candidates-IsCandidate :
      (nodes : List Phone) (drained : List (String × Bool)) (external : List Backend)
      → (e : Backend × Bool) → In e (candidates nodes drained external)
      → IsCandidate nodes drained external e
  candidates-IsCandidate nodes drained external e i =
      elim (In-append e (phone_backends url host limit drained nodes)
        (map (λ b. (b, ltb 0 b.speed)) external) i) [
          | inl j ↦ inl (phone_backends-IsServing drained nodes e j)
          | inr j ↦ inr (external-In e external j)
        ]

  In-map_back :
      (f : Backend × Bool → Backend) (b : Backend) (es : List (Backend × Bool))
      → In b (map f es)
      → (e : Backend × Bool) × In e es × (b ≡ f e)
  In-map_back f b [] i = absurd i
  In-map_back f b (e ∷ es) (inl q) = (e, inl refl, q)
  In-map_back f b (e ∷ es) (inr i) = let (d, j, q) = In-map_back f b es i in (d, inr j, q)

  -- A backend as its candidate, or with the speed 0.
  abbrev pub IsOf : Backend → Backend × Bool → Type 0
  IsOf b e = (b ≡ e.0) ⊎ (b ≡ record (e.0) { speed = 0 })

  -- What is known of a backend's speed, if some candidate is measured and if none is.
  abbrev Scaled : Bool → Backend → Backend × Bool → Type 0
  Scaled any_measured b e =
      (any_measured ≡ true → (e.1 ≡ true) ⊎ (b.speed ≡ 0)) × (any_measured ≡ false → e.1 ≡ false)

  unmeasured-IsOf :
      (e : Backend × Bool)
      → IsOf (unmeasured url host limit e) e
        × ((e.1 ≡ true) ⊎ ((unmeasured url host limit e).speed ≡ 0))
  unmeasured-IsOf (b, true) = (inl refl, inl refl)
  unmeasured-IsOf (b, false) = (inr refl, inr refl)

  scaled :
      (nodes : List Phone) (drained : List (String × Bool)) (external : List Backend)
      → (b : Backend) → In b (backends url host limit nodes drained external)
      → (e : Backend × Bool) × In e (candidates nodes drained external)
        × IsOf b e
        × Scaled (any (λ c. c.1) (candidates nodes drained external)) b e
  unfolding backends
  scaled nodes drained external b i =
      let all = candidates nodes drained external in
      elim (Bool-cases (any (λ c. c.1) all)) [
        | inl a ↦
            let (e, j, q) = In-map_back (unmeasured url host limit) b all (
              subst
                (λ c. In b (if c then map (unmeasured url host limit) all else map (λ e. e.0) all))
                a i) in
            let (of, speed) = unmeasured-IsOf e in
            (
              e,
              j,
              subst (λ x. IsOf x e) (sym q) of,
              (
                λ _. subst (λ x. (e.1 ≡ true) ⊎ (x.speed ≡ 0)) (sym q) speed,
                λ f. absurd (ground (arith, a, f)),
              ),
            )
        | inr a ↦
            let (e, j, q) =
              In-map_back (λ e. e.0) b all
                (subst
                  (λ c.
                    In b (if c then map (unmeasured url host limit) all else map (λ e. e.0) all))
                  a i) in
            (
              e,
              j,
              inl q,
              (
                λ t. absurd (ground (arith, a, t)),
                λ _. elim (Bool-cases e.1) [
                  | inl m ↦ absurd (let t = any_of_In (λ c. c.1) e all j m in ground (arith, a, t))
                  | inr m ↦ m
                ],
              ),
            )
      ]

  one_scale :
      (m : Bool) (b c : Backend) (e f : Backend × Bool)
      → Scaled m b e
      → Scaled m c f
      → (e.1 ≡ f.1) ⊎ ((b.speed ≡ 0) ⊎ (c.speed ≡ 0))
  one_scale false b c e f s t = inl (s.1 refl ∙ sym (t.1 refl))
  one_scale true b c e f s t = elim (s.0 refl) [
    | inr z ↦ inr (inl z)
    | inl m ↦ elim (t.0 refl) [ inr z ↦ inr (inr z) | inl k ↦ inl (m ∙ sym k) ]
  ]

  -- Every backend is a phone that is active, with a server that is ready, has a port and is neither
  -- downloading nor loading a model, or an external backend. A phone's backend has its drain flag, is hot
  -- exactly if there is a limit and the phone reports a temperature at or above it, and has the speed
  -- that its server measured, or else its benchmark; only the speed may be set to 0. The speeds of two
  -- backends that are not 0 are of the same kind, both measured or both not.
  pub backends-IsOneScale :
      (nodes : List Phone) (drained : List (String × Bool)) (external : List Backend)
      → (b c : Backend) → In b (backends url host limit nodes drained external)
      → In c (backends url host limit nodes drained external)
      → (e : Backend × Bool) × (f : Backend × Bool) × IsCandidate nodes drained external e
        × IsCandidate nodes drained external f
        × IsOf b e
        × IsOf c f
        × ((e.1 ≡ f.1) ⊎ ((b.speed ≡ 0) ⊎ (c.speed ≡ 0)))
  backends-IsOneScale nodes drained external b c i j =
      let (e, k, p, s) = scaled nodes drained external b i in
      let (f, l, q, t) = scaled nodes drained external c j in
      (
        e,
        f,
        candidates-IsCandidate nodes drained external e k,
        candidates-IsCandidate nodes drained external f l,
        p,
        q,
        one_scale (any (λ d. d.1) (candidates nodes drained external)) b c e f s t,
      )
