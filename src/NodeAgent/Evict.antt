-- ===== src/NodeAgent/Evict.antt =====
-- node-agent/download.go `evictLRU` and manager.go `makeRoom`: the cached models that go when a download
-- needs storage. What the phone answers (the free bytes, the directory, whether a file can be removed) is
-- an argument; times are numbers.
use Prim.Native.String.{◌++◌}
use phoneborg.Shared.{
  ℕ, ◌+◌, Bool, true, false, not, ◌&&◌, ◌||◌, Option, none, some, List, [], ◌∷◌, String, str_eq,
  leb, ltb, if◌then◌else◌, keep, sort_by,
}
use phoneborg.NodeAgent.{Manager}

-- An entry of the models' directory, with the answers of `Info` and of `os.Remove`.
pub record Entry : Type 0 where
  pub name : String
  pub is_dir : Bool
  pub has_info : Bool
  pub mtime : ℕ
  pub size : ℕ
  pub is_removable : Bool

-- `strings.HasSuffix`
abbrev pub has_suffix : String → String → Bool
has_suffix String.[] suffix = str_eq String.[] suffix
has_suffix (String.◌∷◌ c s) suffix = str_eq (String.◌∷◌ c s) suffix || has_suffix s suffix

abbrev pub file_path : String → Entry → String
file_path dir e = dir ++ "/" ++ e.name

-- A cached model that is neither served nor about to be written.
unfoldable pub is_cached : String → String → String → Entry → Bool
is_cached dir kept dest e =
    not e.is_dir
    && has_suffix e.name ".gguf"
    && not (str_eq (file_path dir e) kept || str_eq (file_path dir e) dest)
    && e.has_info

abbrev pub is_older : Entry → Entry → Bool
is_older a b = leb a.mtime b.mtime

-- The loop over the models in order: those that it removed, and the free bytes behind it.
unfoldable pub remove_until : ℕ → List Entry → ℕ → List Entry × ℕ
remove_until needed [] free = ([], free)
remove_until needed (e ∷ es) free =
    let skipped = remove_until needed es free in
    let (removed, left) = remove_until needed es (free + e.size) in
    if leb needed free
    then ([], free)
    else if not e.is_removable
    then skipped
    else (e ∷ removed, left)

-- `evictLRU`; no directory is the error of `ReadDir`. The error is `true`.
unfoldable pub evict_lru :
    String → String → String → ℕ → ℕ → Option (List Entry) → List Entry × Bool
unfolding remove_until
evict_lru dir kept dest free needed entries =
    if leb needed free then ([], false) else elim entries [
      | none ↦ ([], true)
      | some es ↦
          let (removed, left) =
            remove_until needed (sort_by is_older (keep (is_cached dir kept dest) es)) free in
          (removed, ltb left needed)
    ]

-- The file that is served, if one is.
unfoldable pub served_file : String → Manager → String
served_file dir m = if str_eq m.current "" then "" else dir ++ "/" ++ m.current ++ ".gguf"

-- `makeRoom`; no free bytes is the error of `statfs`.
unfoldable pub make_room :
    String → Manager → String → Option ℕ → ℕ → Option (List Entry) → List Entry × Bool
unfolding evict_lru served_file
make_room dir m dest free needed entries = elim free [
  | none ↦ ([], true)
  | some n ↦ evict_lru dir (served_file dir m) dest n needed entries
]
