-- ===== src/Shared/Lists.antt =====
-- Lists measured by native numbers, searched and filtered by Boolean tests.
use Prim.Native.Nat.{ℕ, zero, suc, ◌+◌, ◌≤◌, min}
use mathlib.Core.Path.{◌≡◌, refl, ap, sym, subst, ◌∙◌}
use mathlib.Core.Bool.{Bool, true, false, ◌||◌}
use mathlib.Core.List.{List, [], ◌∷◌, ◌++◌}
use mathlib.Core.Logic.{◌⊎◌, inl, inr}
use native.Mathlib.Omega.{arith}
use phoneborg.Shared.Tests.{if◌then◌else◌, Bool-cases}

module _ {ℓ} {A : Type ℓ} where
  abbrev pub length : List A → ℕ
  length [] = 0
  length (x ∷ xs) = suc (length xs)

  pub length-append : (xs ys : List A) → length (xs ++ ys) ≡ length xs + length ys
  length-append [] ys = omega arith
  length-append (x ∷ xs) ys = omega (arith, length-append xs ys)

  abbrev pub take : ℕ → List A → List A
  take zero xs = []
  take (suc n) [] = []
  take (suc n) (x ∷ xs) = x ∷ take n xs

  pub length-take : (n : ℕ) (xs : List A) → length (take n xs) ≡ min n (length xs)
  length-take zero xs = omega arith
  length-take (suc n) [] = omega arith
  length-take (suc n) (x ∷ xs) = omega (arith, length-take n xs)

  abbrev pub drop : ℕ → List A → List A
  drop zero xs = xs
  drop (suc n) [] = []
  drop (suc n) (x ∷ xs) = drop n xs

  -- The items that pass a test, in order.
  abbrev pub keep : (A → Bool) → List A → List A
  keep p [] = []
  keep p (x ∷ xs) = if p x then x ∷ keep p xs else keep p xs

  pub length-keep : (p : A → Bool) (xs : List A) → length (keep p xs) ≤ length xs
  length-keep p [] = omega arith
  length-keep p (x ∷ xs) = ground (arith, length-keep p xs)

  -- The first list, or the second if the first is empty.
  unfoldable pub first_nonempty : List A → List A → List A
  first_nonempty [] ys = ys
  first_nonempty (x ∷ xs) ys = x ∷ xs

  abbrev pub any : (A → Bool) → List A → Bool
  any p [] = false
  any p (x ∷ xs) = p x || any p xs

-- Every item has the property; a predicate by recursion, which tactics read.
abbrev pub All {ℓ κ} : {A : Type ℓ} → (A → Type κ) → List A → Type κ
All P [] = Unit
All P (x ∷ xs) = P x × All P xs

-- The item stands somewhere in the list.
abbrev pub In : {A : Type 0} → A → List A → Type 0
In a [] = ⊥
In a (x ∷ xs) = (a ≡ x) ⊎ In a xs

module _ {A : Type 0} where
  pub In-append : (a : A) (xs ys : List A) → In a (xs ++ ys) → In a xs ⊎ In a ys
  In-append a [] ys i = inr i
  In-append a (x ∷ xs) ys (inl e) = inl (inl e)
  In-append a (x ∷ xs) ys (inr i) = elim (In-append a xs ys i) [
    | inl j ↦ inl (inr j)
    | inr j ↦ inr j
  ]

  pub In-take : (a : A) (n : ℕ) (xs : List A) → In a (take n xs) → In a xs
  In-take a zero xs i = absurd i
  In-take a (suc n) [] i = absurd i
  In-take a (suc n) (x ∷ xs) (inl e) = inl e
  In-take a (suc n) (x ∷ xs) (inr i) = inr (In-take a n xs i)

  pub In-drop : (a : A) (n : ℕ) (xs : List A) → In a (drop n xs) → In a xs
  In-drop a zero xs i = i
  In-drop a (suc n) [] i = absurd i
  In-drop a (suc n) (x ∷ xs) i = inr (In-drop a n xs i)

  pub In-keep : (p : A → Bool) (a : A) (xs : List A) → In a (keep p xs) → In a xs × (p a ≡ true)
  In-keep p a [] i = absurd i
  In-keep p a (x ∷ xs) i = elim (Bool-cases (p x)) [
    | inl e ↦ elim (let j : In a (x ∷ keep p xs) = rw e at i in j) [
      | inl q ↦ (inl q, ap p q ∙ e)
      | inr j ↦ let (k, t) = In-keep p a xs j in (inr k, t)
    ]
    | inr e ↦ let j : In a (keep p xs) = rw e at i in let (k, t) = In-keep p a xs j in (inr k, t)
  ]

  pub keep-In : (p : A → Bool) (a : A) (xs : List A) → In a xs → p a ≡ true → In a (keep p xs)
  keep-In p a [] i t = absurd i
  keep-In p a (x ∷ xs) (inl q) t = rw (sym (ap p q) ∙ t) (inl q)
  keep-In p a (x ∷ xs) (inr i) t = elim (Bool-cases (p x)) [
    | inl e ↦ rw e (inr (keep-In p a xs i t))
    | inr e ↦ rw e (keep-In p a xs i t)
  ]

  pub All-In : (P : A → Type 0) (a : A) (xs : List A) → All P xs → In a xs → P a
  All-In P a [] h i = absurd i
  All-In P a (x ∷ xs) h (inl e) = subst P (sym e) h.0
  All-In P a (x ∷ xs) h (inr i) = All-In P a xs h.1 i

  pub All-of_In : (P : A → Type 0) (xs : List A) → ((a : A) → In a xs → P a) → All P xs
  All-of_In P [] h = tt
  All-of_In P (x ∷ xs) h = (h x (inl refl), All-of_In P xs (λ a i. h a (inr i)))

  pub append_In : (a : A) (xs ys : List A) → In a xs ⊎ In a ys → In a (xs ++ ys)
  append_In a [] ys (inl i) = absurd i
  append_In a [] ys (inr i) = i
  append_In a (x ∷ xs) ys (inl (inl e)) = inl e
  append_In a (x ∷ xs) ys (inl (inr i)) = inr (append_In a xs ys (inl i))
  append_In a (x ∷ xs) ys (inr i) = inr (append_In a xs ys (inr i))

  -- An item stands among the first `n` or behind them.
  pub In-split : (a : A) (n : ℕ) (xs : List A) → In a xs → In a (take n xs) ⊎ In a (drop n xs)
  In-split a zero xs i = inr i
  In-split a (suc n) [] i = absurd i
  In-split a (suc n) (x ∷ xs) (inl e) = inl (inl e)
  In-split a (suc n) (x ∷ xs) (inr i) = elim (In-split a n xs i) [
    | inl j ↦ inl (inr j)
    | inr j ↦ inr j
  ]

  pub any-In : (p : A → Bool) (xs : List A) → any p xs ≡ true → (a : A) × In a xs × (p a ≡ true)
  any-In p [] e = absurd (ground arith)
  any-In p (x ∷ xs) e = elim (Bool-cases (p x)) [
    | inl t ↦ (x, inl refl, t)
    | inr f ↦
        let rest : any p xs ≡ true = ground arith in
        let (a, i, t) = any-In p xs rest in (a, inr i, t)
  ]

  pub any_of_In : (p : A → Bool) (a : A) (xs : List A) → In a xs → p a ≡ true → any p xs ≡ true
  any_of_In p a [] i t = absurd i
  any_of_In p a (x ∷ xs) (inl q) t = rw (sym (ap p q) ∙ t)
  any_of_In p a (x ∷ xs) (inr i) t = ground (arith, any_of_In p a xs i t)

  pub In-first_nonempty : (a : A) (xs ys : List A) → In a (first_nonempty xs ys) → In a xs ⊎ In a ys
  unfolding first_nonempty
  In-first_nonempty a [] ys i = inr i
  In-first_nonempty a (x ∷ xs) ys i = inl i
