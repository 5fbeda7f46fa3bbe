-- ===== src/Shared/Trim.antt =====
-- Texts without the spaces at their ends, and without a prefix.
use Prim.Native.Nat.{ℕ}
use Prim.Native.Char.{Char, code}
use Prim.Native.String.{String}
use mathlib.Core.Path.{◌≡◌, refl, ap, ◌∙◌}
use mathlib.Core.Logic.{inl, inr}
use native.Mathlib.Omega.{arith}
use mathlib.Core.Bool.{Bool, true, false, not, ◌&&◌, ◌||◌}
use mathlib.Core.Option.{Option, none, some}
use phoneborg.Shared.Tests.{leb, ◌==◌, if◌then◌else◌, Bool-cases}

-- `unicode.IsSpace`
abbrev pub is_space : ℕ → Bool
is_space c =
    (leb 9 c && leb c 13)
    || c == 32
    || c == 133
    || c == 160
    || c == 5760
    || (leb 8192 c && leb c 8202)
    || c == 8232
    || c == 8233
    || c == 8239
    || c == 8287
    || c == 12288

abbrev pub trim_left : String → String
trim_left String.[] = String.[]
trim_left (String.◌∷◌ c s) = if is_space (code c) then trim_left s else String.◌∷◌ c s

-- A character before a trimmed text.
abbrev pub keep_char : Char → String → String
keep_char c String.[] = if is_space (code c) then String.[] else String.◌∷◌ c String.[]
keep_char c (String.◌∷◌ d t) = String.◌∷◌ c (String.◌∷◌ d t)

-- A text without the spaces at its end.
abbrev pub trim_right : String → String
trim_right String.[] = String.[]
trim_right (String.◌∷◌ c s) = keep_char c (trim_right s)

-- `strings.TrimSpace`
unfoldable pub trim : String → String
trim s = trim_right (trim_left s)

keep_char-trim_right :
    (c : Char) (t : String) → trim_right t ≡ t → trim_right (keep_char c t) ≡ keep_char c t
keep_char-trim_right c String.[] e = elim (Bool-cases (is_space (code c))) [
  | inl q ↦ rw q refl
  | inr q ↦ rw q (rw q refl)
]
keep_char-trim_right c (String.◌∷◌ d t) e = rw e refl

trim_right-trim_right : (s : String) → trim_right (trim_right s) ≡ trim_right s
trim_right-trim_right String.[] = refl
trim_right-trim_right (String.◌∷◌ c s) =
    keep_char-trim_right c (trim_right s) (trim_right-trim_right s)

-- A text that does not start with a space does not start with one without the spaces at its end.
abbrev starts_well : String → Bool
starts_well String.[] = true
starts_well (String.◌∷◌ c s) = not (is_space (code c))

trim_left-fixed : (s : String) → starts_well s ≡ true → trim_left s ≡ s
trim_left-fixed String.[] h = refl
trim_left-fixed (String.◌∷◌ c s) h = elim (Bool-cases (is_space (code c))) [
  | inl q ↦ absurd (let h' : not true ≡ true = rw q at h in ground (arith, h'))
  | inr q ↦ rw q refl
]

starts_well-trim_left : (s : String) → starts_well (trim_left s) ≡ true
starts_well-trim_left String.[] = refl
starts_well-trim_left (String.◌∷◌ c s) = elim (Bool-cases (is_space (code c))) [
  | inl q ↦ rw q (starts_well-trim_left s)
  | inr q ↦ rw q (rw q refl)
]

starts_well-keep_char :
    (c : Char) (t : String) → is_space (code c) ≡ false → starts_well (keep_char c t) ≡ true
starts_well-keep_char c String.[] q = rw q (rw q refl)
starts_well-keep_char c (String.◌∷◌ d t) q = rw q refl

starts_well-trim_right : (s : String) → starts_well s ≡ true → starts_well (trim_right s) ≡ true
starts_well-trim_right String.[] h = refl
starts_well-trim_right (String.◌∷◌ c s) h =
    starts_well-keep_char c (trim_right s) (ground (arith, h))

-- Trimming twice is trimming once.
pub trim-trim : (s : String) → trim (trim s) ≡ trim s
unfolding trim
trim-trim s =
    ap trim_right (
      trim_left-fixed (trim_right (trim_left s))
        (starts_well-trim_right (trim_left s) (starts_well-trim_left s)))
    ∙ trim_right-trim_right (trim_left s)

-- `strings.CutPrefix`
abbrev pub cut_prefix : String → String → Option String
cut_prefix s String.[] = some s
cut_prefix String.[] (String.◌∷◌ d p) = none
cut_prefix (String.◌∷◌ c s) (String.◌∷◌ d p) = if code c == code d then cut_prefix s p else none

-- A text up to its first comma.
abbrev pub before_comma : String → String
before_comma String.[] = String.[]
before_comma (String.◌∷◌ c s) = if code c == 44 then String.[] else String.◌∷◌ c (before_comma s)
