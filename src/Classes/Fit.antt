-- ===== src/Classes/Fit.antt =====
-- What a class promises of its nodes.
use phoneborg.Shared.{
  ℕ, ◌≤◌, ◌≡◌, refl, sym, ◌∙◌, ap, subst, inl, inr, true, false, Bool-cases, List, [], ◌∷◌, String,
  str_eq, eq_iff, arith, any, In, any_of_In, ltb, ◌&&◌,
}
use phoneborg.Classes.{
  Class, classes, is_in, class_in, class_of, is_class, fits, fits_in, fits_classes,
}

-- A row of the table with this id, whose bounds hold the memory.
abbrev IsRow : ℕ → String → List Class → Type 0
IsRow ram id cs = (c : Class) × In c cs × (c.id ≡ id) × (is_in ram c ≡ true)

class_in-IsRow :
    (ram : ℕ) (last : String) (cs : List Class)
    → any (is_in ram) cs ≡ true
    → IsRow ram (class_in ram last cs) cs
class_in-IsRow ram last [] h = absurd (ground arith)
class_in-IsRow ram last (d ∷ ds) h = elim (Bool-cases (is_in ram d)) [
  | inl e ↦ rw e (d, inl refl, refl, e)
  | inr e ↦
      let (c, i, q, t) = class_in-IsRow ram d.id ds (ground (arith, h, e)) in rw e (c, inr i, q, t)
]

-- The bounds leave no gap.
every_ram : (ram : ℕ) → any (is_in ram) classes ≡ true
every_ram ram = ground arith

fits_in-In :
    (est : ℕ) (id : String) (cs : List Class)
    → any (λ x. str_eq x id) (fits_in est cs) ≡ true
    → (c : Class) × In c cs × (c.id ≡ id) × (fits est c.min_ram ≡ true)
fits_in-In est id [] h = absurd (ground arith)
fits_in-In est id (d ∷ ds) h = elim (Bool-cases (ltb 0 est && fits est d.min_ram)) [
  | inl e ↦ elim (Bool-cases (str_eq d.id id)) [
    | inl q ↦ (d, inl refl, (eq_iff d.id id).0 q, ground (arith, e))
    | inr q ↦ let (c, i, same, t) = fits_in-In est id ds (rw q at rw e at h) in (c, inr i, same, t)
  ]
  | inr e ↦ let (c, i, same, t) = fits_in-In est id ds (rw e at h) in (c, inr i, same, t)
]

-- No id stands twice.
abbrev IsDistinct : List Class → Type 0
IsDistinct [] = Unit {0}
IsDistinct (c ∷ cs) = (any (λ d. str_eq c.id d.id) cs ≡ false) × IsDistinct cs

not_later :
    (c d : Class) (cs : List Class)
    → any (λ x. str_eq c.id x.id) cs ≡ false
    → In d cs
    → c.id ≡ d.id
    → ⊥
not_later c d cs f i q =
    ground (arith, f, any_of_In (λ x. str_eq c.id x.id) d cs i ((eq_iff c.id d.id).1 q))

same_row : (c d : Class) (cs : List Class) → IsDistinct cs → In c cs → In d cs → c.id ≡ d.id → c ≡ d
same_row c d [] u i j q = absurd i
same_row c d (x ∷ xs) u (inl e) (inl f) q = e ∙ sym f
same_row c d (x ∷ xs) u (inl e) (inr j) q =
    absurd (not_later x d xs u.0 j (ap (λ r. r.id) (sym e) ∙ q))
same_row c d (x ∷ xs) u (inr i) (inl f) q =
    absurd (not_later x c xs u.0 i (ap (λ r. r.id) (sym f) ∙ sym q))
same_row c d (x ∷ xs) u (inr i) (inr j) q = same_row c d xs u.1 i j q

fits_mono : (est small ram : ℕ) → small ≤ ram → fits est small ≡ true → fits est ram ≡ true
unfolding fits
fits_mono est small ram h k = ground (arith, h, k)

-- Every memory has a class of the table, and a model that is listed as fitting that class fits the
-- node, whatever memory of the class it has.
pub fits_classes-fits :
    (est ram : ℕ)
    → (is_class (class_of ram) ≡ true)
      × (any (λ id. str_eq id (class_of ram)) (fits_classes est) ≡ true → fits est ram ≡ true)
unfolding is_class class_of fits_classes
fits_classes-fits est ram =
    let (c, i, q, t) = class_in-IsRow ram "" classes (every_ram ram) in
    (
      any_of_In (λ d. str_eq d.id (class_in ram "" classes)) c classes i
          ((eq_iff c.id (class_in ram "" classes)).1 q),
      λ h.
          let (d, j, p, f) = fits_in-In est (class_in ram "" classes) classes h in
          let same : d ≡ c =
            same_row d c classes (refl, (refl, (refl, (refl, (refl, tt))))) j i (p ∙ sym q) in
          fits_mono est c.min_ram ram (ground (arith, t))
            (subst (λ x. fits est x.min_ram ≡ true) same f),
    )
