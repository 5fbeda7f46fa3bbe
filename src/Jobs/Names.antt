-- ===== src/Jobs/Names.antt =====
-- controller/gateway/jobs.go: texts and document names, `docName`. A text is a sequence of code
-- points; a name has ASCII only, so its bytes are its characters.
unfoldable pub use phoneborg.Shared.{is_space, trim_left, keep_char, trim_right, trim}
use phoneborg.Shared.{
  ℕ, zero, suc, ◌+◌, ◌-◌, Bool, ◌&&◌, ◌||◌, List, [], ◌∷◌, String, leb, ◌==◌, if◌then◌else◌,
}
use Prim.Native.Char.{Char, code, len_utf8}
use Prim.Native.String.{◌++◌}

-- The characters of a name: a letter, a digit, `_` or `-`.
abbrev pub is_name_char : ℕ → Bool
is_name_char c = (leb 97 c && leb c 122) || (leb 48 c && leb c 57) || c == 95 || c == 45

-- `strings.ToLower` followed by `asciiFold`, for the characters that then are in ASCII: capitals,
-- the letters with a diacritic, and the Kelvin sign, the capital sharp s and the dotted capital I,
-- whose lower case is one of these.
abbrev pub folds : List (ℕ × String)
folds =
    (65, "a")
    ∷ (66, "b")
    ∷ (67, "c")
    ∷ (68, "d")
    ∷ (69, "e")
    ∷ (70, "f")
    ∷ (71, "g")
    ∷ (72, "h")
    ∷ (73, "i")
    ∷ (74, "j")
    ∷ (75, "k")
    ∷ (76, "l")
    ∷ (77, "m")
    ∷ (78, "n")
    ∷ (79, "o")
    ∷ (80, "p")
    ∷ (81, "q")
    ∷ (82, "r")
    ∷ (83, "s")
    ∷ (84, "t")
    ∷ (85, "u")
    ∷ (86, "v")
    ∷ (87, "w")
    ∷ (88, "x")
    ∷ (89, "y")
    ∷ (90, "z")
    ∷ (261, "a")
    ∷ (260, "a")
    ∷ (263, "c")
    ∷ (262, "c")
    ∷ (281, "e")
    ∷ (280, "e")
    ∷ (322, "l")
    ∷ (321, "l")
    ∷ (324, "n")
    ∷ (323, "n")
    ∷ (243, "o")
    ∷ (211, "o")
    ∷ (347, "s")
    ∷ (346, "s")
    ∷ (378, "z")
    ∷ (377, "z")
    ∷ (380, "z")
    ∷ (379, "z")
    ∷ (228, "a")
    ∷ (196, "a")
    ∷ (246, "o")
    ∷ (214, "o")
    ∷ (252, "u")
    ∷ (220, "u")
    ∷ (223, "ss")
    ∷ (7838, "ss")
    ∷ (233, "e")
    ∷ (201, "e")
    ∷ (232, "e")
    ∷ (200, "e")
    ∷ (224, "a")
    ∷ (192, "a")
    ∷ (231, "c")
    ∷ (199, "c")
    ∷ (269, "c")
    ∷ (268, "c")
    ∷ (353, "s")
    ∷ (352, "s")
    ∷ (382, "z")
    ∷ (381, "z")
    ∷ (345, "r")
    ∷ (344, "r")
    ∷ (253, "y")
    ∷ (221, "y")
    ∷ (237, "i")
    ∷ (205, "i")
    ∷ (225, "a")
    ∷ (193, "a")
    ∷ (8490, "k")
    ∷ (304, "i")
    ∷ (32, "_")
    ∷ []

abbrev pub fold_by : List (ℕ × String) → ℕ → String
fold_by [] n = ""
fold_by ((m, s) ∷ t) n = if m == n then s else fold_by t n

-- What a character contributes to a name: itself, what it is folded to, or nothing.
unfoldable pub fold_char : Char → String
fold_char c = if is_name_char (code c) then String.◌∷◌ c String.[] else fold_by folds (code c)

unfoldable pub fold_text : String → String
fold_text String.[] = String.[]
fold_text (String.◌∷◌ c s) = fold_char c ++ fold_text s

-- `s[:n]` on ASCII
abbrev pub first_chars : ℕ → String → String
first_chars zero s = String.[]
first_chars (suc n) String.[] = String.[]
first_chars (suc n) (String.◌∷◌ c s) = String.◌∷◌ c (first_chars n s)

-- `docName`
unfoldable pub doc_name : String → String
unfolding trim fold_text fold_char
doc_name s = first_chars 40 (fold_text (trim s))

-- `clip`: the whole characters of the first `n` bytes, and a mark, unless the text is as short.
abbrev byte_length : String → ℕ
byte_length String.[] = 0
byte_length (String.◌∷◌ c s) = len_utf8 c + byte_length s

abbrev clip_bytes : ℕ → String → String
clip_bytes n String.[] = String.[]
clip_bytes n (String.◌∷◌ c s) =
    if leb (len_utf8 c) n then String.◌∷◌ c (clip_bytes (n - len_utf8 c) s) else String.[]

unfoldable pub clip : String → ℕ → String
clip s n = if leb (byte_length s) n then s else clip_bytes n s ++ "…"
