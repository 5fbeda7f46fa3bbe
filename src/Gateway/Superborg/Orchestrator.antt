-- ===== src/Gateway/Superborg/Orchestrator.antt =====
-- Which node orchestrates.
use phoneborg.Shared.{
  ℕ, ◌≡◌, ◌≤◌, str_leb, Bool, true, false, not, ◌||◌, Option, none, some, List, String, In,
}
use phoneborg.Gateway.Backend.{Backend}
use phoneborg.Gateway.Target.{Superborg, member}

-- A node that may be picked on its own.
abbrev pub is_eligible : List (String × Bool) → Backend → Bool
is_eligible tried b = not (member b.node_id tried || b.orchestrator_only)

module _ (can_call : Backend → Bool) (size : Backend → ℕ) where
  -- The first node suits no worse: it can call tools, if the second can; among equals its model is no
  -- smaller, then it is not slower, then it has the smaller id.
  abbrev pub SuitsBest : Backend → Backend → Type 0
  SuitsBest r b =
      (can_call b ≡ true → can_call r ≡ true)
      × (can_call r ≡ can_call b
          → (size b ≤ size r)
            × (size r ≡ size b
                → (b.speed ≤ r.speed) × (r.speed ≡ b.speed → str_leb r.node_id b.node_id ≡ true)))

  -- What the automatic choice promises: no node only if none may be picked; else one of the pool that
  -- may be picked, that every other such node of the pool comes behind.
  abbrev pub IsBestSuited : List (String × Bool) → List Backend → Option Backend → Type 0
  IsBestSuited tried pool none = (b : Backend) → In b pool → is_eligible tried b ≡ false
  IsBestSuited tried pool (some r) =
      In r pool
      × (is_eligible tried r ≡ true)
      × ((b : Backend) → In b pool → is_eligible tried b ≡ true → SuitsBest r b)
