-- ===== src/Gateway/Backend.antt =====
-- controller/gateway/picker.go: a backend, and the choice of the least loaded one.
-- A speed is only compared, so a number stands for it; 0 is unknown.
pub mod Least
pub mod Cool
use phoneborg.Shared.{
  ℕ, ◌+◌, ◌%◌, ◌^◌, Bool, true, false, not, ◌&&◌, ◌||◌, Option, none, some, List, [], ◌∷◌, ◌++◌,
  String, ltb, ◌==◌, if◌then◌else◌, keep, any, take, drop, length,
}

pub record Backend : Type 0 where
  pub node_id : String
  pub model : String
  pub url : String
  pub speed : ℕ
  pub drained : Bool
  pub hot : Bool
  pub ctx_size : ℕ
  pub alias : String
  pub external : Bool
  pub api_key : String
  pub max_concurrency : ℕ
  pub orchestrator_only : Bool
  pub pool_only : Bool

pub record Request : Type 0 where
  pub model : String
  pub affinity_key : String
  pub prompt_bytes : ℕ

abbrev pub is_cool : Backend → Bool
is_cool b = not b.hot

-- The candidates that are not overheating, or all of them if every one is.
unfoldable pub non_hot : List Backend → List Backend
non_hot c = elim (keep is_cool c) [ [] ↦ c | b ∷ bs ↦ b ∷ bs ]

unfoldable pub any_non_hot : List Backend → Bool
any_non_hot c = any is_cool c

-- A score is compared by its first number, then by its second, then the faster backend wins.
abbrev pub Score : Type 0
Score = Backend → ℕ × ℕ

unfoldable pub better : Score → Backend → Backend → Bool
better score b best =
    let (p, s) = score b in
    let (bp, bs) = score best in
    ltb p bp || (p == bp && ltb s bs) || (p == bp && s == bs && ltb best.speed b.speed)

unfoldable pub best_of : Score → Backend → Backend → Backend
unfolding better
best_of score b best = if better score b best then b else best

-- The loop of `leastBy` over the candidates that are left.
unfoldable pub scan : Score → Backend → List Backend → Backend
scan score best [] = best
scan score best (b ∷ bs) = scan score (best_of score b best) bs

-- `c[(start+i)%len(c)]` for i = 0, 1, … reads the list from `start` on, round its end.
abbrev pub from : ℕ → List Backend → List Backend
from start c = drop start c ++ take start c

-- `none`: on no candidates the code panics (an index out of range).
unfoldable pub least_by : Score → ℕ → List Backend → Option Backend
unfolding scan
least_by score start c = elim (from start c) [ [] ↦ none | b ∷ bs ↦ some (scan score b bs) ]

-- A counter of picks, a uint64.
abbrev pub bump : ℕ → ℕ
bump rr = (rr + 1) % 2 ^ 64

-- `LeastInflight.Pick` and `Spread.Pick` have this one body: the counter, and the pick.
unfoldable pub pick_least : ℕ → List Backend → (String → ℕ) → ℕ × Option Backend
unfolding non_hot least_by
pick_least rr c inflight =
    (bump rr, least_by (λ b. (inflight b.node_id, 0)) (bump rr % length (non_hot c)) (non_hot c))
