-- ===== src/Shared/Sort.antt =====
-- A stable sort by a Boolean order, and what it guarantees.
use Prim.Native.Nat.{ℕ, zero, suc}
use mathlib.Core.Path.{◌≡◌, refl, sym, subst}
use mathlib.Core.Bool.{Bool, true, false}
use mathlib.Core.List.{List, [], ◌∷◌, Perm}
use mathlib.Core.List.Perm
use mathlib.Core.Logic.{inl, inr}
use phoneborg.Shared.Tests.{if◌then◌else◌, Bool-cases}
use phoneborg.Shared.Lists.{All, All-In, In, In-drop, take, drop, length}
use native.Mathlib.Omega.{arith}

module _ {A : Type 0} (le : A → A → Bool) where
  abbrev pub insert_by : A → List A → List A
  insert_by x [] = x ∷ []
  insert_by x (y ∷ ys) = if le x y then x ∷ y ∷ ys else y ∷ insert_by x ys

  abbrev pub sort_by : List A → List A
  sort_by [] = []
  sort_by (x ∷ xs) = insert_by x (sort_by xs)

  abbrev pub IsSorted : List A → Type 0
  IsSorted [] = Unit {0}
  IsSorted (x ∷ xs) = All (λ y. le x y ≡ true) xs × IsSorted xs

  pub insert_by_perm : (x : A) (xs : List A) → Perm (insert_by x xs) (x ∷ xs)
  insert_by_perm x [] = Perm.rfl
  insert_by_perm x (y ∷ ys) = elim (Bool-cases (le x y)) [
    | inl e ↦ rw e Perm.rfl
    | inr e ↦ rw e (Perm.trans (Perm.cons y (insert_by_perm x ys)) (Perm.swap x y ys))
  ]

  -- Sorting loses and invents nothing.
  pub sort_by_perm : (xs : List A) → Perm (sort_by xs) xs
  sort_by_perm [] = Perm.rfl
  sort_by_perm (x ∷ xs) = Perm.trans (insert_by_perm x (sort_by xs)) (Perm.cons x (sort_by_perm xs))

  length-insert_by : (x : A) (xs : List A) → length (insert_by x xs) ≡ suc (length xs)
  length-insert_by x [] = omega arith
  length-insert_by x (y ∷ ys) = elim (Bool-cases (le x y)) [
    | inl e ↦ rw e refl
    | inr e ↦ rw e (omega (arith, length-insert_by x ys))
  ]

  pub length-sort_by : (xs : List A) → length (sort_by xs) ≡ length xs
  length-sort_by [] = omega arith
  length-sort_by (x ∷ xs) = omega (arith, length-insert_by x (sort_by xs), length-sort_by xs)

  insert_by-All : (P : A → Type 0) (x : A) (xs : List A) → P x → All P xs → All P (insert_by x xs)
  insert_by-All P x [] p h = (p, tt)
  insert_by-All P x (y ∷ ys) p h = elim (Bool-cases (le x y)) [
    | inl e ↦ rw e (p, h)
    | inr e ↦ rw e (h.0, insert_by-All P x ys p h.1)
  ]

  pub sort_by-All : (P : A → Type 0) (xs : List A) → All P xs → All P (sort_by xs)
  sort_by-All P [] h = tt
  sort_by-All P (x ∷ xs) h = insert_by-All P x (sort_by xs) h.0 (sort_by-All P xs h.1)

  In-insert_by : (a x : A) (xs : List A) → In a (x ∷ xs) → In a (insert_by x xs)
  In-insert_by a x [] i = i
  In-insert_by a x (y ∷ ys) i = elim (Bool-cases (le x y)) [
    | inl e ↦ rw e i
    | inr e ↦ rw e (behind (λ j. In-insert_by a x ys j) i)
  ]
    where
      behind :
          (In a (x ∷ ys) → In a (insert_by x ys)) → In a (x ∷ y ∷ ys) → In a (y ∷ insert_by x ys)
      behind ih (inl q) = inr (ih (inl q))
      behind ih (inr (inl q)) = inl q
      behind ih (inr (inr j)) = inr (ih (inr j))

  pub In-sort_by : (a : A) (xs : List A) → In a xs → In a (sort_by xs)
  In-sort_by a [] i = i
  In-sort_by a (x ∷ xs) (inl q) = In-insert_by a x (sort_by xs) (inl q)
  In-sort_by a (x ∷ xs) (inr i) = In-insert_by a x (sort_by xs) (inr (In-sort_by a xs i))

  In-of_insert_by : (a x : A) (xs : List A) → In a (insert_by x xs) → In a (x ∷ xs)
  In-of_insert_by a x [] i = i
  In-of_insert_by a x (y ∷ ys) i = elim (Bool-cases (le x y)) [
    | inl e ↦ rw e at i
    | inr e ↦ elim (let j : In a (y ∷ insert_by x ys) = rw e at i in j) [
      | inl q ↦ inr (inl q)
      | inr j ↦ elim (In-of_insert_by a x ys j) [ inl q ↦ inl q | inr k ↦ inr (inr k) ]
    ]
  ]

  pub In-of_sort_by : (a : A) (xs : List A) → In a (sort_by xs) → In a xs
  In-of_sort_by a [] i = i
  In-of_sort_by a (x ∷ xs) i = elim (In-of_insert_by a x (sort_by xs) i) [
    | inl q ↦ inl q
    | inr j ↦ inr (In-of_sort_by a xs j)
  ]

  -- What stands among the first of a sorted list comes before what stands behind them.
  pub IsSorted-split :
      (n : ℕ) (xs : List A) (a b : A)
      → IsSorted xs
      → In a (take n xs)
      → In b (drop n xs)
      → le a b ≡ true
  IsSorted-split zero xs a b s i j = absurd i
  IsSorted-split (suc n) [] a b s i j = absurd i
  IsSorted-split (suc n) (x ∷ xs) a b s (inl q) j =
      subst (λ y. le y b ≡ true) (sym q) (All-In (λ y. le x y ≡ true) b xs s.0 (In-drop b n xs j))
  IsSorted-split (suc n) (x ∷ xs) a b s (inr i) j = IsSorted-split n xs a b s.1 i j

module _ {A : Type 0} (le : A → A → Bool) (total : (a b : A) → le a b ≡ false → le b a ≡ true)
    (trans : (a b c : A) → le a b ≡ true → le b c ≡ true → le a c ≡ true) where
  All-trans :
      (x y : A) (ys : List A)
      → le x y ≡ true
      → All (λ z. le y z ≡ true) ys
      → All (λ z. le x z ≡ true) ys
  All-trans x y [] e h = tt
  All-trans x y (z ∷ zs) e h = (trans x y z e h.0, All-trans x y zs e h.1)

  insert_by-IsSorted : (x : A) (xs : List A) → IsSorted le xs → IsSorted le (insert_by le x xs)
  insert_by-IsSorted x [] s = (tt, tt)
  insert_by-IsSorted x (y ∷ ys) s = elim (Bool-cases (le x y)) [
    | inl e ↦ rw e ((e, All-trans x y ys e s.0), s)
    | inr e ↦
        rw e (
          insert_by-All le (λ z. le y z ≡ true) x ys (total x y e) s.0,
          insert_by-IsSorted x ys s.1,
        )
  ]

  pub sort_by-IsSorted : (xs : List A) → IsSorted le (sort_by le xs)
  sort_by-IsSorted [] = tt
  sort_by-IsSorted (x ∷ xs) = insert_by-IsSorted x (sort_by le xs) (sort_by-IsSorted xs)
