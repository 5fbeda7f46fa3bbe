-- ===== src/Pools/Store.antt =====
-- controller/pools.go: the stored pools, the handlers that change them, and what is loaded at the start.
use phoneborg.Shared.{
  Bool, true, false, not, ◌&&◌, Option, none, some, List, [], ◌∷◌, String, if◌then◌else◌, lookup,
  insert, delete, is_some, map, pos,
}
use phoneborg.Pools.{
  Pool, PoolError, Normed, accepted, rejected, norm_pool, Conflict, pool_conflict, is_big_brain,
  by_superborg, not_in_catalog, save_failed, unknown_pool,
}

-- The map `byName`.
abbrev pub Pools : Type 0
Pools = List (String × Pool)

-- What a handler answers.
pub data Answer : Type 0 where
  stored : Pool → Answer
  deleted : Answer
  refused : PoolError → Answer
  conflicting : Conflict → Answer

-- Fixed during a call: the ids behind the nodes' names, the models of the catalog, and whether the
-- routing file can be written.
pub record World : Type 0 where
  pub id : String → String
  pub has_model : String → Bool
  pub saves : Bool

unfoldable pub put_pool : World → Pool → Pools → Pools × Answer
unfolding pool_conflict
put_pool w q pools = elim (pool_conflict w.id q (map (λ e. e.1) pools)) [
  | some c ↦ (pools, conflicting c)
  | none ↦ (insert q.name q pools, if w.saves then stored q else refused save_failed)
]

unfoldable pub set_normed : World → Normed → Pools → Pools × Answer
unfolding put_pool
set_normed w (rejected e) pools = (pools, refused e)
set_normed w (accepted q) pools =
    if is_big_brain q.routing && not (w.has_model q.model)
    then (pools, refused (not_in_catalog q.model))
    else put_pool w q pools

-- `adminSetPool`
unfoldable pub set_pool : World → String → Pool → Pools → Pools × Answer
unfolding set_normed norm_pool
set_pool w name body pools = set_normed w (norm_pool (record body { name = name })) pools

-- `adminDeletePool`
unfoldable pub delete_pool : World → String → Pools → Pools × Answer
delete_pool w name pools = (
  delete name pools,
  if is_some (lookup name pools)
      then (if w.saves then deleted else refused save_failed)
      else refused unknown_pool,
)

-- The old cluster-wide Super Borg setting.
pub record LegacySuperborg : Type 0 where
  pub orchestrator : String
  pub thinking : Bool

abbrev pub migrated : LegacySuperborg → Pool
migrated l = record {
  name = "superborg";
  description =
      "Super Borg: an orchestrator phone delegating to the others (migrated from the cluster-wide mode)";
  models = [];
  nodes = [];
  classes = [];
  min_gen_tps = pos 0;
  routing = by_superborg;
  orchestrator = l.orchestrator;
  thinking = l.thinking;
  model = "";
  ctx_size = pos 0;
  disabled = false;
}

unfoldable pub migrate_superborg : Option LegacySuperborg → Pools → Pools × Bool
migrate_superborg none pools = (pools, false)
migrate_superborg (some l) pools =
    if is_some (lookup "superborg" pools)
    then (pools, false)
    else (insert "superborg" (migrated l) pools, true)

-- The calls that change the pools.
pub data Call : Type 0 where
  sets : String → Pool → Call
  deletes : String → Call

unfoldable pub call : World → Call → Pools → Pools
unfolding set_pool delete_pool
call w (sets name body) pools = (set_pool w name body pools).0
call w (deletes name) pools = (delete_pool w name pools).0

unfoldable pub run : World → List Call → Pools → Pools
unfolding call
run w [] pools = pools
run w (c ∷ cs) pools = run w cs (call w c pools)
