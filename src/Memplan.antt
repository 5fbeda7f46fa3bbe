-- ===== src/Memplan.antt =====
-- internal/memplan/memplan.go: the memory-sizing arithmetic. Byte counts, context sizes and slot
-- counts are non-negative in every call, so they are numbers; a budget may be negative.
mod Bounds
mod Search
pub mod Plan
mod Loop
mod Tests
use phoneborg.Shared.{
  ℕ, zero, suc, ◌+◌, ◌*◌, ◌/◌, ◌-◌, Bool, true, false, ◌||◌, Option, none, some, List, [], ◌∷◌, ℤ,
  pos, leb_ℤ, leb, ltb, ◌==◌, if◌then◌else◌,
}

abbrev pub min_ctx : ℕ
min_ctx = 4096

abbrev pub mib : ℕ
mib = 1_048_576

-- The strings "f16" and "q8_0", and "auto" or anything else in a request.
pub data Kv : Type 0 where
  f16 q8_0 : Kv

pub data KvRequest : Type 0 where
  exactly : Kv → KvRequest
  auto : KvRequest

pub record Shape : Type 0 where
  pub layers : ℕ
  pub kv_heads : ℕ
  pub head_dim : ℕ

-- The bytes counted fully resident, and the sparse rest.
unfoldable pub resident_weight_bytes : ℕ → ℕ → ℕ × ℕ
resident_weight_bytes file_size resident_bytes =
    if resident_bytes == 0 || ltb file_size resident_bytes
    then (file_size, 0)
    else (resident_bytes, file_size - resident_bytes)

-- In sixteenths of a byte: 2 for f16 and 1.0625 = 17 / 16 for q8_0.
unfoldable pub bytes_per_element : Kv → ℕ
bytes_per_element q8_0 = 17
bytes_per_element f16 = 32

-- The conversion of the float product to int64 drops the fraction.
unfoldable pub bytes_per_token : Shape → Kv → ℕ
unfolding bytes_per_element
bytes_per_token s kv = 2 * s.layers * s.kv_heads * s.head_dim * bytes_per_element kv / 16

-- A tenth of the sparse bytes (`SparseAllowanceFrac`) is counted, rounded down. The code computes in int64;
-- the numbers here are unbounded, so they are the code's for needs below 2^63 bytes.
unfoldable pub need_bytes : ℕ → ℕ → ℕ → ℕ → Shape → Kv → ℕ
unfolding resident_weight_bytes
need_bytes file_size resident_bytes ctx slots shape kv =
    let (resident, sparse) = resident_weight_bytes file_size resident_bytes in
    resident + sparse / 10 + slots * ctx * bytes_per_token shape kv + 150 * mib

unfoldable pub kv_candidates : KvRequest → List Kv
kv_candidates (exactly kv) = kv ∷ []
kv_candidates auto = f16 ∷ q8_0 ∷ []

pub record Result : Type 0 where
  pub ctx : ℕ
  pub slots : ℕ
  pub kv : Kv
  pub need : ℕ
  pub fits : Bool

-- What one call of `Plan` keeps fixed: the need of a configuration, and the budget.
pub record Sizing : Type 0 where
  pub need_of : ℕ → ℕ → Kv → ℕ
  pub budget : ℤ

-- The closure `try`: the first cache type that fits, with its need.
unfoldable pub try : Sizing → List Kv → ℕ → ℕ → Option (Kv × ℕ)
try z [] ctx slots = none
try z (kv ∷ kvs) ctx slots =
    if leb_ℤ (pos (z.need_of ctx slots kv)) z.budget
    then some (kv, z.need_of ctx slots kv)
    else try z kvs ctx slots

-- `ctx /= 2`, raised to the floor.
unfoldable pub halve : ℕ → ℕ
halve ctx = if ltb (ctx / 2) min_ctx then min_ctx else ctx / 2

abbrev pub found : ℕ → ℕ → Kv × ℕ → Result
found ctx slots (kv, need) = record { ctx = ctx; slots = slots; kv = kv; need = need; fits = true }

-- How the loop `for ctx > MinCtx` ends: a result, or the context at the floor.
pub data Shrunk : Type 0 where
  returned : Result → Shrunk
  floored : ℕ → Shrunk

-- A context of at most `fuel` tokens needs no more than `fuel` rounds: each round makes it smaller.
unfoldable pub shrink : ℕ → Sizing → List Kv → ℕ → ℕ → Shrunk
unfolding halve
shrink zero z kvs slots ctx = floored ctx
shrink (suc fuel) z kvs slots ctx =
    let rest = shrink fuel z kvs slots (halve ctx) in
    let next : Shrunk = elim (try z kvs (halve ctx) slots) [
      | some hit ↦ returned (found (halve ctx) slots hit)
      | none ↦ rest
    ] in
    if ltb min_ctx ctx then next else floored ctx

abbrev pub last_of : Kv → List Kv → Kv
last_of kv [] = kv
last_of kv (k ∷ ks) = last_of k ks

-- The result when no configuration fits: the smallest one tried and its need.
unfoldable pub refused : Sizing → List Kv → ℕ → ℕ → Result
refused z kvs ctx slots =
    let kv = last_of f16 kvs in
    record { ctx = ctx; slots = slots; kv = kv; need = z.need_of ctx slots kv; fits = false }

-- After the loop: one slot, where more were asked for, then give up.
unfoldable pub reduce_slots : Sizing → List Kv → ℕ → ℕ → Result
reduce_slots z kvs slots ctx =
    if ltb 1 slots
    then elim (try z kvs ctx 1) [ some hit ↦ found ctx 1 hit | none ↦ refused z kvs ctx 1 ]
    else refused z kvs ctx slots

unfoldable pub after_shrink : Sizing → List Kv → ℕ → Shrunk → Result
after_shrink z kvs slots (returned r) = r
after_shrink z kvs slots (floored ctx) = reduce_slots z kvs slots ctx

-- The body of `Plan` below the defaults.
unfoldable pub search_config : Sizing → List Kv → ℕ → ℕ → Result
search_config z kvs ctx slots = elim (try z kvs ctx slots) [
  | some hit ↦ found ctx slots hit
  | none ↦ after_shrink z kvs slots (shrink ctx z kvs slots ctx)
]

unfoldable pub or_default : ℕ → ℕ → ℕ
or_default n d = if n == 0 then d else n

abbrev pub sizing_of : ℕ → ℕ → Shape → ℤ → Sizing
sizing_of file_size resident_bytes shape budget = record {
  need_of = λ ctx slots kv. need_bytes file_size resident_bytes ctx slots shape kv;
  budget = budget;
}

unfoldable pub plan : ℕ → ℕ → Shape → ℕ → ℕ → KvRequest → ℤ → Result
unfolding or_default kv_candidates
plan file_size resident_bytes shape ctx slots kv_type budget =
    search_config (sizing_of file_size resident_bytes shape budget) (kv_candidates kv_type)
      (or_default ctx min_ctx) (or_default slots 1)
