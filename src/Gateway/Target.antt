-- ===== src/Gateway/Target.antt =====
-- controller/gateway/targets.go: what a request's model name stands for, and which backends may
-- serve it. The resolver of pools and nodes is a parameter here; it is the controller's.
pub mod Access
use phoneborg.Shared.{
  ℕ, Bool, true, false, not, ◌&&◌, ◌||◌, Option, none, some, List, [], ◌∷◌, String, str_eq,
  if◌then◌else◌, lookup, keep, is_some, codes, ◌==◌,
}
use phoneborg.Gateway.Backend.{Backend}

-- The routing policies that a pool may set in place of the gateway's.
pub data Routing : Type 0 where
  least_inflight affinity spread : Routing

pub record Superborg : Type 0 where
  pub orchestrator : String
  pub thinking : Bool

-- `none` for a map or a pointer is nil.
pub record Target : Type 0 where
  pub label : String
  pub model : String
  pub nodes : Option (List (String × Bool))
  pub models : Option (List (String × Bool))
  pub node : String
  pub picker : Option Routing
  pub superborg : Option Superborg
  pub disabled : Bool

-- A read of a map of Booleans: false for a missing key or a nil map.
abbrev pub member : String → List (String × Bool) → Bool
member k m = elim (lookup k m) [ none ↦ false | some b ↦ b ]

abbrev pub member? : String → Option (List (String × Bool)) → Bool
member? k none = false
member? k (some m) = member k m

unfoldable pub allows : Target → Backend → Bool
allows t b =
    if t.disabled
    then false
    else if b.orchestrator_only && not (str_eq t.node b.node_id)
    then false
    else if b.pool_only && not (str_eq t.node b.node_id) && not (member? b.node_id t.nodes)
    then false
    else if not (str_eq t.node "")
    then str_eq b.node_id t.node
    else if is_some t.nodes && not (member? b.node_id t.nodes)
    then false
    else if is_some t.models && not (member? b.model t.models)
    then false
    else str_eq t.model "" || str_eq b.model t.model

unfoldable pub filter : Target → List Backend → List Backend
filter t all = keep (allows t) all

-- The zero value of a target.
abbrev pub any_target : Target
any_target = record {
  label = "";
  model = "";
  nodes = none;
  models = none;
  node = "";
  picker = none;
  superborg = none;
  disabled = false;
}

abbrev pub starts : List ℕ → List ℕ → Bool
starts cs [] = true
starts [] (p ∷ ps) = false
starts (c ∷ cs) (p ∷ ps) = c == p && starts cs ps

unfoldable pub is_virtual : String → Bool
is_virtual name = starts (codes name) (codes "pool/") || starts (codes name) (codes "node/")

pub data Resolved : Type 0 where
  resolved : Target → Resolved
  unknown_target : Resolved

-- `Resolve`, with the installed resolver; `none` is no resolver.
unfoldable pub resolve : Option (String → Option Target) → String → Resolved
resolve targets name =
    if str_eq name "auto"
    then resolved (record any_target { label = "auto" })
    else if is_virtual name
    then elim targets [
      | none ↦ unknown_target
      | some find ↦ elim (find name) [ none ↦ unknown_target | some t ↦ resolved t ]
    ]
    else resolved (record any_target { label = "model"; model = name })

-- `routable`: the backends that may take new requests.
unfoldable pub routable : List Backend → List Backend
routable all = keep (λ b. not b.drained) all
