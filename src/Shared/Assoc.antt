-- ===== src/Shared/Assoc.antt =====
-- A Go map with string keys, as an association list.
use Prim.Native.String.{String}
use text.Mathlib.TextEquality.{eq_iff}
use mathlib.Core.Path.{◌≡◌, refl, subst₂}
use mathlib.Core.Logic.{inl, inr}
use mathlib.Core.List.{List, [], ◌∷◌}
use mathlib.Core.Option.{Option, none, some}
use native.Mathlib.Omega.{arith}
use text.Mathlib.Text.{◌==◌ as str_eq}
use phoneborg.Shared.Tests.{if◌then◌else◌, Bool-cases}

module _ {ℓ} {V : Type ℓ} where
  abbrev pub lookup : String → List (String × V) → Option V
  lookup k [] = none
  lookup k ((j, v) ∷ m) = if str_eq j k then some v else lookup k m

  -- `m[k] = v`
  abbrev pub insert : String → V → List (String × V) → List (String × V)
  insert k v [] = (k, v) ∷ []
  insert k v ((j, w) ∷ m) = if str_eq j k then (k, v) ∷ m else (j, w) ∷ insert k v m

  -- `delete(m, k)`
  abbrev pub delete : String → List (String × V) → List (String × V)
  delete k [] = []
  delete k ((j, w) ∷ m) = if str_eq j k then delete k m else (j, w) ∷ delete k m

  pub lookup-insert :
      (k j : String) (v : V) (m : List (String × V))
      → lookup j (insert k v m) ≡ (if str_eq k j then some v else lookup j m)
  lookup-insert k j v [] = refl
  lookup-insert k j v ((i, w) ∷ m) =
      ground (arith, eq_iff k j, eq_iff i k, eq_iff i j, lookup-insert k j v m)

  pub lookup-delete :
      (k j : String) (m : List (String × V))
      → lookup j (delete k m) ≡ (if str_eq k j then none else lookup j m)
  lookup-delete k j [] = ground arith
  lookup-delete k j ((i, w) ∷ m) =
      ground (arith, eq_iff k j, eq_iff i k, eq_iff i j, lookup-delete k j m)

-- What holds of every entry holds of an entry found, and outlives a write and a deletion.
module _ {V : Type 0} (P : String → V → Type 0) where
  abbrev pub Entries : List (String × V) → Type 0
  Entries [] = Unit {0}
  Entries ((k, v) ∷ m) = P k v × Entries m

  pub Entries-lookup :
      (k : String) (v : V) (m : List (String × V)) → Entries m → lookup k m ≡ some v → P k v
  Entries-lookup k v [] h e = absurd (ground arith)
  Entries-lookup k v ((j, w) ∷ m) h e = elim (Bool-cases (str_eq j k)) [
    | inl q ↦ let same : w ≡ v = ground arith in subst₂ P ((eq_iff j k).0 q) same h.0
    | inr q ↦ Entries-lookup k v m h.1 (rw q at e)
  ]

  pub Entries-insert :
      (k : String) (v : V) (m : List (String × V)) → P k v → Entries m → Entries (insert k v m)
  Entries-insert k v [] p h = (p, tt)
  Entries-insert k v ((j, w) ∷ m) p h = elim (Bool-cases (str_eq j k)) [
    | inl q ↦ rw q (p, h.1)
    | inr q ↦ rw q (h.0, Entries-insert k v m p h.1)
  ]

  pub Entries-delete : (k : String) (m : List (String × V)) → Entries m → Entries (delete k m)
  Entries-delete k [] h = tt
  Entries-delete k ((j, w) ∷ m) h = elim (Bool-cases (str_eq j k)) [
    | inl q ↦ rw q (Entries-delete k m h.1)
    | inr q ↦ rw q (h.0, Entries-delete k m h.1)
  ]
