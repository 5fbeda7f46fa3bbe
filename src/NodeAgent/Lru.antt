-- ===== src/NodeAgent/Lru.antt =====
-- What a download's need of storage removes.
use Prim.Native.String.append
use Prim.Native.String.{◌++◌}
use phoneborg.Shared.{
  ℕ, ◌+◌, ◌≤◌, ◌<◌, ◌≡◌, ◌≢◌, ◌⊎◌, Bool, true, false, List, [], ◌∷◌, String, ltb, keep, sort_by, In,
}
use phoneborg.NodeAgent.{Manager}
use phoneborg.NodeAgent.Evict.{Entry, file_path, is_cached, is_older, served_file}

abbrev pub total : List Entry → ℕ
total [] = 0
total (e ∷ es) = e.size + total es

-- No file went in vain: without the last one, there was not enough room.
abbrev pub WasNeeded : ℕ → ℕ → List Entry → Type 0
WasNeeded needed free [] = Unit
WasNeeded needed free (e ∷ es) = (free < needed) × WasNeeded needed (free + e.size) es

module _ (needed : ℕ) where
  abbrev IsLeast : List Entry → ℕ → List Entry × ℕ → Type 0
  IsLeast es free r =
      (r.1 ≡ free + total r.0)
      × WasNeeded needed free r.0
      × ((e : Entry) → In e r.0 → In e es × (e.is_removable ≡ true))
      × ((e : Entry) → r.1 < needed → In e es → e.is_removable ≡ true → In e r.0)
      × ((a b : Entry)
          → In a r.0
          → In b es
          → b.is_removable ≡ true
          → In b r.0 ⊎ (is_older a b ≡ true))

abbrev pub is_candidate : String → Manager → String → Entry → Bool
is_candidate dir m dest = is_cached dir (served_file dir m) dest

-- The files that go and the error.
abbrev pub MakesRoom : String → Manager → String → ℕ → ℕ → List Entry → List Entry × Bool → Type 0
MakesRoom dir m dest free needed es r =
    (r.1 ≡ ltb (free + total r.0) needed)
    × WasNeeded needed free r.0
    × ((a : Entry)
        → In a r.0
        → In a es
          × (a.is_removable ≡ true)
          × (a.is_dir ≡ false)
          × ((stem : String) × (a.name ≡ stem ++ ".gguf"))
          × (file_path dir a ≢ dest)
          × (m.current ≢ "" → file_path dir a ≢ dir ++ "/" ++ m.current ++ ".gguf"))
    × ((a : Entry)
        → r.1 ≡ true
        → In a es
        → is_candidate dir m dest a ≡ true
        → a.is_removable ≡ true
        → In a r.0)
    × ((a b : Entry)
        → In a r.0
        → In b es
        → is_candidate dir m dest b ≡ true
        → b.is_removable ≡ true
        → In b r.0 ⊎ (a.mtime ≤ b.mtime))

module _ (dir : String) (m : Manager) (dest : String) (free needed : ℕ) (es : List Entry) where
  abbrev order : List Entry
  order = sort_by is_older (keep (is_candidate dir m dest) es)
