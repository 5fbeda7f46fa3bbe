-- ===== src/Classes.antt =====
-- controller/models/classes.go: device classes, and the classes that a model fits. Sizes are byte
-- counts below 2^63, where the conversions between int64 and uint64 change nothing.
pub mod Fit
pub mod Tests
use phoneborg.Shared.{
  ℕ, ◌+◌, ◌*◌, ◌-◌, Bool, true, false, ◌&&◌, ◌||◌, List, [], ◌∷◌, String, str_eq, ltb, leb, ◌==◌,
  if◌then◌else◌, any,
}

abbrev pub gib : ℕ
gib = 1_073_741_824

-- `max_ram` is exclusive; 0 is no bound.
pub record Class : Type 0 where
  pub id : String
  pub min_ram : ℕ
  pub max_ram : ℕ

abbrev pub classes : List Class
classes =
    record { id = "xs"; min_ram = 0; max_ram = 3_221_225_472 }
    ∷ record { id = "s"; min_ram = 3_221_225_472; max_ram = 5_368_709_120 }
    ∷ record { id = "m"; min_ram = 5_368_709_120; max_ram = 7_516_192_768 }
    ∷ record { id = "l"; min_ram = 7_516_192_768; max_ram = 10_737_418_240 }
    ∷ record { id = "xl"; min_ram = 10_737_418_240; max_ram = 0 }
    ∷ []

abbrev pub is_in : ℕ → Class → Bool
is_in ram c = leb c.min_ram ram && (c.max_ram == 0 || ltb ram c.max_ram)

-- The loop of `ClassOf`, with the answer behind it.
abbrev pub class_in : ℕ → String → List Class → String
class_in ram last [] = last
class_in ram last (c ∷ cs) = if is_in ram c then c.id else class_in ram c.id cs

unfoldable pub class_of : ℕ → String
class_of ram = class_in ram "" classes

unfoldable pub is_class : String → Bool
is_class id = any (λ c. str_eq c.id id) classes

-- `KVCacheBytes`
unfoldable pub kv_cache_bytes : ℕ → ℕ → ℕ → ℕ → ℕ
kv_cache_bytes layers kv_heads head_dim ctx = 2 * layers * ctx * kv_heads * head_dim * 2

abbrev pub runtime_overhead : ℕ
runtime_overhead = 157_286_400

-- `EstimateRAM`
unfoldable pub estimate_ram : ℕ → ℕ → ℕ → ℕ → ℕ → ℕ
unfolding kv_cache_bytes
estimate_ram weight_bytes layers kv_heads head_dim ctx =
    weight_bytes + kv_cache_bytes layers kv_heads head_dim ctx + runtime_overhead

abbrev pub android_baseline : ℕ
android_baseline = 2_147_483_648

-- `Fits`
unfoldable pub fits : ℕ → ℕ → Bool
fits est ram = ltb android_baseline ram && leb est (ram - android_baseline)

abbrev pub fits_in : ℕ → List Class → List String
fits_in est [] = []
fits_in est (c ∷ cs) =
    if ltb 0 est && fits est c.min_ram then c.id ∷ fits_in est cs else fits_in est cs

-- `FitsClasses`
unfoldable pub fits_classes : ℕ → List String
unfolding fits
fits_classes est = fits_in est classes
