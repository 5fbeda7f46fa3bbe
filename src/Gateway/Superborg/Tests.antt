-- ===== src/Gateway/Superborg/Tests.antt =====
-- A pool of three phones.
use phoneborg.Shared.{
  length, ℕ, ◌≡◌, refl, false, some, List, [], ◌∷◌, String, str_eq, if◌then◌else◌,
}
use phoneborg.Gateway.Backend.{Backend}
use phoneborg.Gateway.Target.{Superborg}
use phoneborg.Gateway.Superborg.{pick_orchestrator, search_pool, comes_first, assign}
use phoneborg.Gateway.Superborg.Workers.{AreFair, assign-AreFair}

abbrev phone : String → String → ℕ → Backend
phone id model speed = record {
  node_id = id;
  model = model;
  url = "";
  speed = speed;
  drained = false;
  hot = false;
  ctx_size = 4096;
  alias = "";
  external = false;
  api_key = "";
  max_concurrency = 0;
  orchestrator_only = false;
  pool_only = false;
}

abbrev pool : List Backend
pool = phone "a" "gemma" 40 ∷ phone "b" "qwen" 10 ∷ phone "c" "qwen" 20 ∷ []

abbrev settings : Superborg
settings = record { orchestrator = ""; thinking = false }

abbrev size : Backend → ℕ
size b = if str_eq b.model "gemma" then 9 else 4

best_is_c :
    pick_orchestrator (λ b. str_eq b.model "qwen") size settings pool pool []
    ≡ some (phone "c" "qwen" 20)
unfolding pick_orchestrator search_pool comes_first
best_is_c = refl

assign-AreFair_example :
    (bs : List Backend) × (assign (λ _. 0) pool [] ("a" ∷ "a" ∷ "" ∷ "b" ∷ []) ≡ some bs)
    × (length bs ≡ 4)
    × AreFair pool [] bs
assign-AreFair_example = assign-AreFair (λ _. 0) pool [] ("a" ∷ "a" ∷ "" ∷ "b" ∷ []) (λ e. cc)

abbrev idle : String → ℕ
idle id = 0
