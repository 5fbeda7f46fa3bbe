-- ===== src/Shared/Text.antt =====
-- Texts: their code points, and Go's order on strings.
use Prim.Native.Nat.{ℕ, Ordering, compare as compare_ℕ}
use Prim.Native.Char.{code}
use Prim.Native.String.compare
use Prim.Native.String.{String, compare, then}
use mathlib.Core.Path.{◌≡◌, refl}
use mathlib.Core.Bool.{Bool, true, false}
use mathlib.Core.List.{List, [], ◌∷◌}
use native.Mathlib.Omega.{arith}

-- `String` has its own `[]` and `∷`. The code points of a text are its bytes, if it is ASCII.
abbrev pub codes : String → List ℕ
codes String.[] = []
codes (String.◌∷◌ c s) = code c ∷ codes s

abbrev pub not_gt : Ordering → Bool
not_gt Ordering.gt = false
not_gt _ = true

-- Go's `a <= b` on strings: by bytes, which is by code points.
abbrev pub str_leb : String → String → Bool
str_leb a b = not_gt (compare a b)

abbrev flip : Ordering → Ordering
flip Ordering.lt = Ordering.gt
flip Ordering.eq = Ordering.eq
flip Ordering.gt = Ordering.lt

flip-compare_ℕ : (m n : ℕ) → compare_ℕ m n ≡ flip (compare_ℕ n m)
flip-compare_ℕ m n = ground arith

flip-then : (a b : Ordering) → then (flip a) (flip b) ≡ flip (then a b)
flip-then Ordering.lt b = refl
flip-then Ordering.eq b = refl
flip-then Ordering.gt b = refl

flip-compare : (s t : String) → compare s t ≡ flip (compare t s)
flip-compare String.[] String.[] = refl
flip-compare String.[] (String.◌∷◌ d t) = rw (compare.nil-cons d t, compare.cons-nil d t)
flip-compare (String.◌∷◌ c s) String.[] = rw (compare.cons-nil c s, compare.nil-cons c s)
flip-compare (String.◌∷◌ c s) (String.◌∷◌ d t) =
    rw (compare.cons-cons c d s t, compare.cons-cons d c t s)
      (ground (arith, flip-compare_ℕ (code c) (code d), flip-compare s t))

-- One of two texts comes first.
pub str_leb_total : (s t : String) → str_leb s t ≡ false → str_leb t s ≡ true
str_leb_total s t h = ground (arith, flip-compare s t)

pub str_leb_trans : (a b c : String) → str_leb a b ≡ true → str_leb b c ≡ true → str_leb a c ≡ true
str_leb_trans String.[] b String.[] h k = refl
str_leb_trans String.[] b (String.◌∷◌ z u) h k = rw (compare.nil-cons z u)
str_leb_trans (String.◌∷◌ x s) String.[] c h k = absurd (ground (arith, compare.cons-nil x s))
str_leb_trans (String.◌∷◌ x s) (String.◌∷◌ y t) String.[] h k =
    absurd (ground (arith, compare.cons-nil y t))
str_leb_trans (String.◌∷◌ x s) (String.◌∷◌ y t) (String.◌∷◌ z u) h k = ground (
  arith,
  compare.cons-cons x y s t,
  compare.cons-cons y z t u,
  compare.cons-cons x z s u,
  str_leb_trans s t u,
)
