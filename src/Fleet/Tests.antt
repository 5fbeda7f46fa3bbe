-- ===== src/Fleet/Tests.antt =====
-- Two phones, of which one has measured its speed.
use Prim.Native.String.{◌++◌}
use phoneborg.Shared.{
  ℕ, ◌≡◌, ◌⊎◌, refl, true, false, some, List, [], ◌∷◌, String, Bool, map, inl, inr, pos, In,
}
use phoneborg.Registry.{active}
use phoneborg.Gateway.Backend.{Backend}
use phoneborg.Fleet.{Phone, Runtime, backends}
use phoneborg.Fleet.Backends.{IsCandidate, IsOf, backends-IsOneScale}

abbrev pub runtime : String → ℕ → Runtime
runtime model tps = record {
  model = model;
  model_id = model;
  ready = true;
  advertise_host = "";
  advertise_port = 8080;
  ctx_size = 4096;
  gen_tps = tps;
  state = "serving";
  budget_bytes = 0;
}

abbrev pub phone : String → ℕ → Phone
phone id tps = record {
  id = id;
  alias = "";
  inventory = some (record { ram_total_bytes = 6_000_000_000 });
  remote_addr = "";
  benchmark = some 90;
  last_heartbeat =
      some (record { temperature = some (pos 30); runtime = some (runtime "small" tps) });
  state = active;
  registered_at = 0;
  last_seen = 0;
}

abbrev phones : List Phone
phones = phone "mi8" 7 ∷ phone "nord" 0 ∷ []

abbrev address : String → ℕ → String
address host port = "http://" ++ host

abbrev drains : List (String × Bool)
drains = ("nord", true) ∷ []

-- The benchmark of the second phone does not count next to a measured speed.
two_speeds : map (λ b. b.speed) (backends address "10.0.0.1" 45 phones drains []) ≡ (7 ∷ 0 ∷ [])
unfolding backends
two_speeds = refl

abbrev listed : String → ℕ → Bool → Backend
listed id speed drained = record {
  node_id = id;
  model = "small";
  url = "http://10.0.0.1";
  speed = speed;
  drained = drained;
  hot = false;
  ctx_size = 4096;
  alias = "";
  external = false;
  api_key = "";
  max_concurrency = 0;
  orchestrator_only = false;
  pool_only = false;
}

mi8_listed : In (listed "mi8" 7 false) (backends address "10.0.0.1" 45 phones drains [])
unfolding backends
mi8_listed = inl refl

nord_listed : In (listed "nord" 0 true) (backends address "10.0.0.1" 45 phones drains [])
unfolding backends
nord_listed = inr (inl refl)

backends-IsOneScale_example :
    (e : Backend × Bool) × (f : Backend × Bool) × IsCandidate address "10.0.0.1" 45 phones drains []
      e
    × IsCandidate address "10.0.0.1" 45 phones drains [] f
    × IsOf address "10.0.0.1" 45 (listed "mi8" 7 false) e
    × IsOf address "10.0.0.1" 45 (listed "nord" 0 true) f
    × ((e.1 ≡ f.1) ⊎ (((listed "mi8" 7 false).speed ≡ 0) ⊎ ((listed "nord" 0 true).speed ≡ 0)))
backends-IsOneScale_example =
    backends-IsOneScale address "10.0.0.1" 45 phones drains [] (listed "mi8" 7 false)
      (listed "nord" 0 true) mi8_listed nord_listed
