-- ===== src/Pools/Target.antt =====
-- controller/pools.go: the gateway's view of a pool, and of the names "pool/…" and "node/…".
use Prim.Native.String.{◌++◌}
use phoneborg.Shared.{
  ℕ, Bool, true, false, Option, none, some, List, [], ◌∷◌, String, str_eq, if◌then◌else◌, lookup,
  insert, cut_prefix, any,
}
use mathlib.Core.List.{◌++◌ as append}
use phoneborg.Registry.{Registry, find_node}
use phoneborg.Gateway.Target.{Target, Superborg, spread, any_target}
use phoneborg.Fleet.{Phone, Heartbeat, Inventory}
use phoneborg.Pools.{Pool, PoolRouting, by_spread, by_superborg, is_big_brain}
use phoneborg.Pools.Members.{PoolMember, is_eligible, pool_members, External, external_members}

-- The sets of the eligible members' nodes and models.
unfoldable pub node_set : List (String × Bool) → List PoolMember → List (String × Bool)
node_set t [] = t
node_set t (m ∷ ms) = if is_eligible m then node_set (insert m.node_id true t) ms else node_set t ms

unfoldable pub model_set : List (String × Bool) → List PoolMember → List (String × Bool)
model_set t [] = t
model_set t (m ∷ ms) =
    if is_eligible m then model_set (insert m.model true t) ms else model_set t ms

abbrev pub superborg_of : Pool → PoolRouting → Option Superborg
superborg_of p by_superborg = some (record { orchestrator = p.orchestrator; thinking = p.thinking })
superborg_of p r = none

-- `poolTarget`, of a pool with its members; `head_ready` is the state of its Big Brain.
unfoldable pub pool_target : Pool → List PoolMember → Bool → Target
unfolding node_set model_set
pool_target p ms head_ready = record {
  label = "pool/" ++ p.name;
  model = "";
  nodes =
      some (if is_big_brain p.routing then ("bb:" ++ p.name, head_ready) ∷ [] else node_set [] ms);
  models = if is_big_brain p.routing then none else some (model_set [] ms);
  node = "";
  picker = none;
  superborg = superborg_of p p.routing;
  disabled = false;
}

-- What the resolver reads: the pools, the registry's view, the external engines and the states of the
-- Big Brains.
pub record View : Type 0 where
  pub pools : List (String × Pool)
  pub registry : Registry Inventory ℕ Heartbeat
  pub nodes : List Phone
  pub drained : List (String × Bool)
  pub limit : ℕ
  pub externals : List External
  pub head_ready : String → Bool

abbrev pub members_of : View → Pool → List PoolMember
members_of v p = append (pool_members p v.nodes v.drained v.limit) (external_members p v.externals)

abbrev pub with_picker : Pool → PoolRouting → Target → Target
with_picker p by_spread t = record t { picker = some spread }
with_picker p r t = t

unfoldable pub resolve_pool : View → String → Pool → Target
unfolding pool_target
resolve_pool v name p =
    if p.disabled
    then record any_target { label = name; disabled = true }
    else with_picker p p.routing (pool_target p (members_of v p) (v.head_ready p.name))

abbrev pub without_prefix : String → String → String
without_prefix s p = elim (cut_prefix s p) [ some r ↦ r | none ↦ s ]

unfoldable pub resolve_node : View → String → String → Option Target
resolve_node v name nn =
    let ext = without_prefix nn "ext:" in
    if any (λ x. str_eq x.name ext) v.externals
    then some (record any_target { label = name; node = "ext:" ++ ext })
    else (let (id, known) = find_node v.registry nn in
        if known then some (record any_target { label = name; node = id }) else none)

-- `serverTargets.Resolve`
unfoldable pub server_resolve : View → String → Option Target
unfolding resolve_pool resolve_node
server_resolve v name = elim (cut_prefix name "pool/") [
  | some pn ↦ elim (lookup pn v.pools) [ none ↦ none | some p ↦ some (resolve_pool v name p) ]
  | none ↦ elim (cut_prefix name "node/") [ some nn ↦ resolve_node v name nn | none ↦ none ]
]
