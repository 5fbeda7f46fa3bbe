-- ===== src/Pools/Tests.antt =====
-- Two phones, and pools over them.
use phoneborg.Shared.{
  ◌≡◌, ◌≢◌, ◌⊎◌, refl, true, false, none, List, [], ◌∷◌, String, map, pos, arith, eq_iff, trim,
}
use phoneborg.Registry.{matches_name}
use phoneborg.Registry.Calls.{new_registry}
use phoneborg.Gateway.Backend.{Backend}
use phoneborg.Gateway.Target.{allows}
use phoneborg.Fleet.{switching, is_hot}
use phoneborg.Fleet.Tests.{phone}
use phoneborg.Pools.{Pool, accepted, norm_pool, no_routing, by_spread, contains}
use phoneborg.Pools.Norm.{IsCleanOf, norm_pool-norm_pool}
use phoneborg.Pools.Members.{ready, pool_status, pool_members, external_members}
use phoneborg.Pools.Target.{View, members_of, resolve_pool}
use phoneborg.Pools.Reach.{IsHead, IsServedBy, resolve_pool-IsServedBy}
use phoneborg.Pools.Store.{
  Pools, World, Call, sets, deletes, run, migrate_superborg, set_pool, delete_pool,
}
use phoneborg.Pools.Compat.{insert-IsConsistent, IsConsistent}
use phoneborg.Pools.Refine.{IsMap, Sets, Deletes, contents, set_pool-delete_pool}
use phoneborg.Pools.Consistent.{run-IsConsistent, nil-IsConsistent}

abbrev pool : String → List String → List String → Pool
pool name nodes models = record {
  name = name;
  description = "";
  models = models;
  nodes = nodes;
  classes = [];
  min_gen_tps = pos 5;
  routing = no_routing;
  orchestrator = "";
  thinking = false;
  model = "";
  ctx_size = pos 0;
  disabled = false;
}

abbrev fast : Pool
fast = pool "fast" (" mi8 " ∷ "mi8" ∷ []) ("small" ∷ [])

abbrev fast_normed : Pool
fast_normed = record fast { nodes = "mi8" ∷ []; routing = by_spread }

fast_accepted : norm_pool fast ≡ accepted fast_normed
unfolding norm_pool matches_name trim
fast_accepted = refl

norm_pool-norm_pool_example :
    IsCleanOf fast fast_normed × (norm_pool fast_normed ≡ accepted fast_normed)
norm_pool-norm_pool_example = norm_pool-norm_pool fast fast_normed fast_accepted

abbrev world : World
world = record { id = λ n. n; has_model = λ m. true; saves = true }

-- The second pool claims the phone for another model, and is refused.
abbrev calls : List Call
calls = sets "fast" fast ∷ sets "big" (pool "" ("mi8" ∷ []) ("big" ∷ [])) ∷ deletes "slow" ∷ []

one_pool : map {B = String} (λ e. e.0) (run world calls []) ≡ ("fast" ∷ [])
unfolding run matches_name trim
one_pool = refl

run-IsConsistent_example : IsConsistent (λ n. n) (run world calls (migrate_superborg none []).0)
run-IsConsistent_example = run-IsConsistent world none calls tt

abbrev view : View
view = record {
  pools = ("fast", fast_normed) ∷ [];
  registry = new_registry 10 30;
  nodes = phone "mi8" 7 ∷ phone "nord" 9 ∷ [];
  drained = [];
  limit = 45;
  externals = [];
  head_ready = λ name. false;
}

one_ready : pool_status fast_normed (members_of view fast_normed) ≡ ready 1
unfolding pool_status pool_members contains switching is_hot external_members
one_ready = refl

abbrev mi8 : Backend
mi8 = record {
  node_id = "mi8";
  model = "small";
  url = "";
  speed = 7;
  drained = false;
  hot = false;
  ctx_size = 4096;
  alias = "";
  external = false;
  api_key = "";
  max_concurrency = 0;
  orchestrator_only = false;
  pool_only = false;
}

mi8_named : mi8.node_id ≢ ""
mi8_named e = ground (arith, e, eq_iff "mi8" "")

mi8_allowed : allows (resolve_pool view "pool/fast" fast_normed) mi8 ≡ true
unfolding allows resolve_pool pool_members contains switching is_hot external_members
mi8_allowed = refl

resolve_pool-IsServedBy_example :
    (fast_normed.disabled ≡ false) × (IsHead view fast_normed mi8 ⊎ IsServedBy view fast_normed mi8)
resolve_pool-IsServedBy_example =
    resolve_pool-IsServedBy view "pool/fast" fast_normed mi8 mi8_named mi8_allowed

abbrev fast_pools : Pools
fast_pools = ("fast", fast_normed) ∷ []

fast_pools-IsConsistent : IsConsistent (λ n. n) fast_pools
fast_pools-IsConsistent =
    insert-IsConsistent (λ n. n) fast_normed []
      (norm_pool-norm_pool fast fast_normed fast_accepted).1 (λ j o e d. absurd (ground (arith, e)))
      (nil-IsConsistent (λ n. n))

set_pool-delete_pool_example :
    Sets world "fast" fast
      (contents fast_pools)
      (contents (set_pool world "fast" fast fast_pools).0)
      (set_pool world "fast" fast fast_pools).1
    × Deletes world "fast"
        (contents fast_pools)
        (contents (delete_pool world "fast" fast_pools).0)
        (delete_pool world "fast" fast_pools).1
    × IsMap (set_pool world "fast" fast fast_pools).0
    × IsMap (delete_pool world "fast" fast_pools).0
set_pool-delete_pool_example =
    set_pool-delete_pool world "fast" fast fast_pools fast_pools-IsConsistent (refl, tt)
