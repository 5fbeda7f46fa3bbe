-- ===== src/Pools/Clean.antt =====
-- How `normPool` cleans a list.
use phoneborg.Shared.{
  ◌≡◌, ◌≢◌, ◌⊎◌, In, All, In-append, append_In, any-In, any_of_In, eq_iff, refl, ap, sym, ◌∙◌,
  subst, true, false, none, some, List, [], ◌∷◌, ◌++◌, String, str_eq, trim, trim-trim, arith,
  Bool-cases, inl, inr,
}
use phoneborg.Pools.{contains, clean_into, clean}

-- Cleaning goes item by item.
clean_into-append :
    (out xs ys mid : List String)
    → clean_into out xs ≡ some mid
    → clean_into out (xs ++ ys) ≡ clean_into mid ys
unfolding clean_into
clean_into-append out [] ys mid e = ap (λ o. clean_into o ys) (ground (arith, e))
clean_into-append out (x ∷ xs) ys mid e = elim (Bool-cases (str_eq (trim x) "")) [
  | inl q ↦ absurd (let e' : none ≡ some mid = rw q at e in ground (arith, e'))
  | inr q ↦ elim (Bool-cases (contains out (trim x))) [
    | inl c ↦ rw (q, clean_into, c) (clean_into-append out xs ys mid (rw (q, c) at e))
    | inr c ↦
        rw (q, clean_into, c) (clean_into-append (out ++ (trim x ∷ [])) xs ys mid (rw (q, c) at e))
  ]
]

-- A cleaned list is its own cleaning.
abbrev pub IsClean : List String → Type 0
IsClean xs = clean xs ≡ some xs

pub clean_into-IsClean :
    (out xs ys : List String) → IsClean out → clean_into out xs ≡ some ys → IsClean ys
unfolding clean_into
clean_into-IsClean out [] ys c e = let same : out ≡ ys = ground (arith, e) in subst IsClean same c
clean_into-IsClean out (x ∷ xs) ys c e = elim (Bool-cases (str_eq (trim x) "")) [
  | inl q ↦ absurd (let e' : none ≡ some ys = rw q at e in ground (arith, e'))
  | inr q ↦ elim (Bool-cases (contains out (trim x))) [
    | inl k ↦ clean_into-IsClean out xs ys c (rw (q, k) at e)
    | inr k ↦
        let one : clean_into out (trim x ∷ []) ≡ some (out ++ (trim x ∷ [])) =
          rw (trim-trim x, clean_into) (rw (q, clean_into) (rw (k, clean_into) refl)) in
        clean_into-IsClean (out ++ (trim x ∷ [])) xs ys
          (clean_into-append [] out (trim x ∷ []) out c ∙ one) (rw (q, k) at e)
  ]
]

-- The given entries without the spaces around them, each once.
abbrev pub IsDistinct : List String → Type 0
IsDistinct [] = Unit {0}
IsDistinct (x ∷ xs) = (¬ (In x xs)) × IsDistinct xs

abbrev pub IsEntry : String → Type 0
IsEntry x = (trim x ≡ x) × (x ≢ "")

abbrev pub Cleaned : List String → List String → Type 0
Cleaned given ys =
    All IsEntry ys
    × IsDistinct ys
    × ((y : String) → In y ys → (x : String) × In x given × (y ≡ trim x))
    × ((x : String) → In x given → In (trim x) ys)

-- What holds of the output of the loop so far.
abbrev IsTidy : List String → Type 0
IsTidy out = All IsEntry out × IsDistinct out

IsTidy-append :
    (out : List String) (x : String)
    → IsEntry x
    → ¬ (In x out)
    → IsTidy out
    → IsTidy (out ++ (x ∷ []))
IsTidy-append [] x e n t = ((e, tt), (λ i. i, tt))
IsTidy-append (y ∷ ys) x e n ((h, hs), (d, ds)) =
    let (all, distinct) = IsTidy-append ys x e (λ i. n (inr i)) (hs, ds) in
    (
      (h, all),
      (
        λ i. elim (In-append y ys (x ∷ []) i) [
          | inl j ↦ d j
          | inr j ↦ elim j [ inl q ↦ n (inl (sym q)) | inr z ↦ absurd z ]
        ],
        distinct,
      ),
    )

contains-In : (x : String) (xs : List String) → contains xs x ≡ true → In x xs
unfolding contains
contains-In x xs e =
    let (y, i, q) = any-In (λ y. str_eq y x) xs e in subst (λ z. In z xs) ((eq_iff y x).0 q) i

contains_of_In : (x : String) (xs : List String) → contains xs x ≡ false → ¬ (In x xs)
unfolding contains
contains_of_In x xs e i =
    let t = any_of_In (λ y. str_eq y x) x xs i ((eq_iff x x).1 refl) in ground (arith, e, t)

clean_into-Cleaned :
    (out xs ys : List String)
    → IsTidy out
    → clean_into out xs ≡ some ys
    → IsTidy ys
      × ((y : String) → In y ys → In y out ⊎ ((x : String) × In x xs × (y ≡ trim x)))
      × ((x : String) → In x out ⊎ ((z : String) × In z xs × (x ≡ trim z)) → In x ys)
unfolding clean_into
clean_into-Cleaned out [] ys t e =
    let same : out ≡ ys = ground (arith, e) in
    (
      subst IsTidy same t,
      λ y i. inl (subst (In y) (sym same) i),
      λ x o. elim o [ inl i ↦ subst (In x) same i | inr (z, i, q) ↦ absurd i ],
    )
clean_into-Cleaned out (x ∷ xs) ys t e = elim (Bool-cases (str_eq (trim x) "")) [
  | inl q ↦ absurd (let e' : none ≡ some ys = rw q at e in ground (arith, e'))
  | inr q ↦ elim (Bool-cases (contains out (trim x))) [
    | inl k ↦
        let (tidy, from, into) = clean_into-Cleaned out xs ys t (rw (q, k) at e) in
        (
          tidy,
          λ y i. elim (from y i) [ inl j ↦ inl j | inr (z, j, p) ↦ inr (z, inr j, p) ],
          λ y o. elim o [
            | inl j ↦ into y (inl j)
            | inr (z, j, p) ↦ elim j [
              | inl s ↦
                  into y
                    (inl (subst (λ w. In w out) (sym (p ∙ ap trim s)) (contains-In (trim x) out k)))
              | inr l ↦ into y (inr (z, l, p))
            ]
          ],
        )
    | inr k ↦
        let entry : IsEntry (trim x) =
          (trim-trim x, λ s. ground (arith, q, (eq_iff (trim x) "").1 s)) in
        let (tidy, from, into) =
          clean_into-Cleaned (out ++ (trim x ∷ [])) xs ys
            (IsTidy-append out (trim x) entry (contains_of_In (trim x) out k) t) (rw (q, k) at e) in
        (
          tidy,
          λ y i. elim (from y i) [
            | inl j ↦ elim (In-append y out (trim x ∷ []) j) [
              | inl l ↦ inl l
              | inr l ↦ elim l [ inl s ↦ inr (x, inl refl, s) | inr z ↦ absurd z ]
            ]
            | inr (z, j, p) ↦ inr (z, inr j, p)
          ],
          λ y o. elim o [
            | inl j ↦ into y (inl (append_In y out (trim x ∷ []) (inl j)))
            | inr (z, j, p) ↦ elim j [
              | inl s ↦ into y (inl (append_In y out (trim x ∷ []) (inr (inl (p ∙ ap trim s)))))
              | inr l ↦ into y (inr (z, l, p))
            ]
          ],
        )
  ]
]

pub clean-Cleaned : (xs ys : List String) → clean xs ≡ some ys → Cleaned xs ys
clean-Cleaned xs ys e =
    let ((entries, distinct), from, into) = clean_into-Cleaned [] xs ys (tt, tt) e in
    (
      entries,
      distinct,
      λ y i. elim (from y i) [ inl j ↦ absurd j | inr o ↦ o ],
      λ x i. into (trim x) (inr (x, i, refl)),
    )
