-- ===== src/Jobs/Naming.antt =====
-- Names of documents: a name is a fixed point of `docName`.
use phoneborg.Shared.{
  ℕ, zero, suc, ◌≤◌, ◌≡◌, refl, ◌∙◌, ap, Bool, true, false, ◌&&◌, List, [], ◌∷◌, String, arith,
  Bool-cases, ◌==◌, inl, inr,
}
use Prim.Native.Char.{Char, code}
use Prim.Native.String.{◌++◌}
use text.Mathlib.TextLemmas
use phoneborg.Jobs.Names.{
  is_space, keep_char, trim_right, trim, is_name_char, folds, fold_by, fold_char, fold_text,
  first_chars, doc_name,
}

-- Every character may stand in a name.
abbrev pub is_name : String → Bool
is_name String.[] = true
is_name (String.◌∷◌ c s) = is_name_char (code c) && is_name s

abbrev pub char_count : String → ℕ
char_count String.[] = 0
char_count (String.◌∷◌ c s) = suc (char_count s)

name_char_no_space : (n : ℕ) → is_name_char n ≡ true → is_space n ≡ false
name_char_no_space n h = ground (arith, h)

trim_right-is_name : (s : String) → is_name s ≡ true → trim_right s ≡ s
trim_right-is_name String.[] h = refl
trim_right-is_name (String.◌∷◌ c s) h = rw (trim_right-is_name s (ground (arith, h))) (kept s)
  where
    kept : (t : String) → keep_char c t ≡ String.◌∷◌ c t
    kept String.[] = rw (name_char_no_space (code c) (ground (arith, h))) refl
    kept (String.◌∷◌ d t) = refl

trim-is_name : (s : String) → is_name s ≡ true → trim s ≡ s
unfolding trim
trim-is_name String.[] h = refl
trim-is_name (String.◌∷◌ c s) h =
    rw (name_char_no_space (code c) (ground (arith, h))) (trim_right-is_name (String.◌∷◌ c s) h)

fold_text-is_name : (s : String) → is_name s ≡ true → fold_text s ≡ s
unfolding fold_text fold_char
fold_text-is_name String.[] h = refl
fold_text-is_name (String.◌∷◌ c s) h =
    let first : is_name_char (code c) ≡ true = ground (arith, h) in
    rw (first, fold_text-is_name s (ground (arith, h)))
      (TextLemmas.cons-append c String.[] s ∙ ap (String.◌∷◌ c) (TextLemmas.nil-append s))

is_name-append : (s t : String) → is_name s ≡ true → is_name t ≡ true → is_name (s ++ t) ≡ true
is_name-append String.[] t h k = rw (TextLemmas.nil-append t) k
is_name-append (String.◌∷◌ c s) t h k =
    rw (TextLemmas.cons-append c s t) (ground (arith, h, is_name-append s t, k))

abbrev all_names : List (ℕ × String) → Bool
all_names [] = true
all_names ((n, s) ∷ t) = is_name s && all_names t

is_name-fold_by :
    (t : List (ℕ × String)) (n : ℕ) → all_names t ≡ true → is_name (fold_by t n) ≡ true
is_name-fold_by [] n h = refl
is_name-fold_by ((m, s) ∷ t) n h = elim (Bool-cases (m == n)) [
  | inl e ↦ rw e (ground (arith, h))
  | inr e ↦ rw e (is_name-fold_by t n (ground (arith, h)))
]

is_name-fold_char : (c : Char) → is_name (fold_char c) ≡ true
unfolding fold_char
is_name-fold_char c = elim (Bool-cases (is_name_char (code c))) [
  | inl e ↦ rw e (rw e refl)
  | inr e ↦ rw e (is_name-fold_by folds (code c) refl)
]

is_name-fold_text : (s : String) → is_name (fold_text s) ≡ true
unfolding fold_text
is_name-fold_text String.[] = refl
is_name-fold_text (String.◌∷◌ c s) =
    is_name-append (fold_char c) (fold_text s) (is_name-fold_char c) (is_name-fold_text s)

is_name-first_chars : (n : ℕ) (s : String) → is_name s ≡ true → is_name (first_chars n s) ≡ true
is_name-first_chars zero s h = refl
is_name-first_chars (suc n) String.[] h = refl
is_name-first_chars (suc n) (String.◌∷◌ c s) h = ground (arith, h, is_name-first_chars n s)

first_chars-first_chars : (n : ℕ) (s : String) → first_chars n (first_chars n s) ≡ first_chars n s
first_chars-first_chars zero s = refl
first_chars-first_chars (suc n) String.[] = refl
first_chars-first_chars (suc n) (String.◌∷◌ c s) = ap (String.◌∷◌ c) (first_chars-first_chars n s)

char_count-first_chars : (n : ℕ) (s : String) → char_count (first_chars n s) ≤ n
char_count-first_chars zero s = omega arith
char_count-first_chars (suc n) String.[] = omega arith
char_count-first_chars (suc n) (String.◌∷◌ c s) = omega (arith, char_count-first_chars n s)

first_chars-append : (n : ℕ) (s t : String) → char_count s ≡ n → first_chars n (s ++ t) ≡ s
first_chars-append zero String.[] t e = refl
first_chars-append zero (String.◌∷◌ c s) t e = absurd (omega (arith, e))
first_chars-append (suc n) String.[] t e = absurd (omega (arith, e))
first_chars-append (suc n) (String.◌∷◌ c s) t e =
    rw (TextLemmas.cons-append c s t)
      (ap (String.◌∷◌ c) (first_chars-append n s t (omega (arith, e))))

-- The name of a text of name characters is its first 40.
doc_name-is_name : (s : String) → is_name s ≡ true → doc_name s ≡ first_chars 40 s
unfolding doc_name
doc_name-is_name s h = rw (trim-is_name s h, fold_text-is_name s h) refl

-- Whatever the text, its document name consists of at most 40 of `a`-`z`, `0`-`9`, `_` and `-`, and is its own
-- document name: a name that the orchestrator was shown finds the document again.
pub doc_name-doc_name :
    (s : String)
    → (is_name (doc_name s) ≡ true)
      × (char_count (doc_name s) ≤ 40)
      × (doc_name (doc_name s) ≡ doc_name s)
doc_name-doc_name s =
    let named : is_name (doc_name s) ≡ true =
      unfold doc_name in is_name-first_chars 40 (fold_text (trim s)) (is_name-fold_text (trim s)) in
    (
      named,
      unfold doc_name in char_count-first_chars 40 (fold_text (trim s)),
      doc_name-is_name (doc_name s) named
          ∙ (unfold doc_name in first_chars-first_chars 40 (fold_text (trim s))),
    )

-- A name of 40 characters with a number behind it, as two tasks of one call with one name get, is
-- not its own document name: it is looked up as the name without the number.
pub doc_name_number :
    (base number : String)
    → is_name base ≡ true
    → is_name number ≡ true
    → char_count base ≡ 40
    → doc_name (base ++ number) ≡ base
doc_name_number base number h k e =
    doc_name-is_name (base ++ number) (is_name-append base number h k)
    ∙ first_chars-append 40 base number e
