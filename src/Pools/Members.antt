-- ===== src/Pools/Members.antt =====
-- controller/pools.go and controller/external.go: which nodes are eligible for a pool, and the pool's
-- status.
use phoneborg.Shared.{
  ℕ, suc, Bool, true, false, not, ◌&&◌, ◌||◌, Option, none, some, List, [], ◌∷◌, ◌++◌, String,
  str_eq, str_leb, ltb, ◌==◌, if◌then◌else◌, length, lookup, map, pos, ℤ, negsuc,
}
use phoneborg.Registry.{active, state_eq, is_drained}
use phoneborg.Classes.{class_of}
use phoneborg.Fleet.{Phone, Runtime, ram_of, runtime_of, switching, is_hot}
use phoneborg.Pools.{Pool, contains, is_empty, is_positive}

-- Why a node is not eligible; the empty reason is `none`.
pub data Reason : Type 0 where
  not_member class_refused drained_node overheated switches not_ready : Reason
  model_refused below_min_tps orchestrator_only : Reason

-- The texts, which `poolStatus` compares.
abbrev pub reason_text : Reason → String
reason_text not_member = "not a member"
reason_text class_refused = "class not allowed"
reason_text drained_node = "drained"
reason_text overheated = "hot"
reason_text switches = "switching"
reason_text not_ready = "not ready"
reason_text model_refused = "model not allowed"
reason_text below_min_tps = "below min_gen_tps"
reason_text orchestrator_only = "orchestrator only"

pub record PoolMember : Type 0 where
  pub node_id : String
  pub alias : String
  pub model : String
  pub reason : Option Reason

abbrev pub is_eligible : PoolMember → Bool
is_eligible m = elim m.reason [ none ↦ true | some r ↦ false ]

-- `switching(hb.Runtime)`, and that the runtime takes requests.
abbrev pub is_switching : Option Runtime → Bool
is_switching none = false
is_switching (some rt) = switching rt

abbrev pub takes_requests : Option Runtime → Bool
takes_requests none = false
takes_requests (some rt) = rt.ready && not (rt.advertise_port == 0)

-- `nodeReason`
unfoldable pub node_reason : Phone → Bool → ℕ → Option Reason
node_reason n drained limit =
    if drained
    then some drained_node
    else if is_switching (runtime_of n)
    then some switches
    else if not (state_eq n.state active) || not (takes_requests (runtime_of n))
    then some not_ready
    else if is_hot limit n
    then some overheated
    else none

abbrev pub model_of : Option Runtime → String
model_of none = ""
model_of (some rt) = rt.model

abbrev pub tps_of : Option Runtime → ℕ
tps_of none = 0
tps_of (some rt) = rt.gen_tps

abbrev pub below : ℤ → ℕ → Bool
below (pos min) tps = ltb tps min
below (negsuc n) tps = false

-- The two checks that follow an empty reason.
abbrev pub model_reason : Pool → String → ℕ → Option Reason
model_reason p model tps =
    if not (is_empty p.models) && not (contains p.models model)
    then some model_refused
    else if is_positive p.min_gen_tps && below p.min_gen_tps tps
    then some below_min_tps
    else none

-- The reason of one node.
unfoldable pub member_reason : Pool → Phone → Bool → ℕ → Option Reason
unfolding node_reason
member_reason p n drained limit =
    if not (is_empty p.nodes)
      && not (contains p.nodes n.id)
      && (str_eq n.alias "" || not (contains p.nodes n.alias))
    then some not_member
    else if not (is_empty p.classes) && not (contains p.classes (class_of (ram_of n)))
    then some class_refused
    else elim (node_reason n drained limit) [
      | some r ↦ some r
      | none ↦ model_reason p (model_of (runtime_of n)) (tps_of (runtime_of n))
    ]

-- `poolMembers`
unfoldable pub pool_members : Pool → List Phone → List (String × Bool) → ℕ → List PoolMember
unfolding member_reason
pool_members p nodes drained limit =
    map
      (λ n. record {
        node_id = n.id;
        alias = n.alias;
        model = model_of (runtime_of n);
        reason = member_reason p n (is_drained n.id drained) limit;
      })
      nodes

-- An external engine, as far as eligibility reads it; `measured` has the speed of each model.
pub record External : Type 0 where
  pub name : String
  pub node_id : String
  pub is_orchestrator : Bool
  pub drained : Bool
  pub is_active : Bool
  pub discovered_models : List String
  pub speed_tps : ℕ
  pub measured : List (String × ℕ)

abbrev pub speed_of : External → String → ℕ
speed_of x model =
    let self_test : ℕ = elim (lookup model x.measured) [ none ↦ 0 | some s ↦ s ] in
    if x.speed_tps == 0 then self_test else x.speed_tps

unfoldable pub external_reason : Pool → External → String → Option Reason
external_reason p x model =
    if not (is_empty p.nodes) && not (contains p.nodes x.node_id) && not (contains p.nodes x.name)
    then some not_member
    else if x.is_orchestrator
    then some orchestrator_only
    else if not (is_empty p.classes)
    then some class_refused
    else if x.drained
    then some drained_node
    else if not x.is_active || str_eq model ""
    then some not_ready
    else model_reason p model (speed_of x model)

abbrev pub or_unknown : List String → List String
or_unknown [] = "" ∷ []
or_unknown (m ∷ ms) = m ∷ ms

-- `externalMembers`: one member for each discovered model.
unfoldable pub external_members : Pool → List External → List PoolMember
unfolding external_reason
external_members p [] = []
external_members p (x ∷ xs) =
    map
      (λ model. record {
        node_id = x.node_id;
        alias = x.name;
        model = model;
        reason = external_reason p x model;
      })
      (or_unknown x.discovered_models)
    ++ external_members p xs

-- The distinct ids of the eligible members, in order.
abbrev pub eligible_ids : List String → List PoolMember → List String
eligible_ids ids [] = ids
eligible_ids ids (m ∷ ms) =
    if is_eligible m && not (contains ids m.node_id)
    then eligible_ids (ids ++ (m.node_id ∷ [])) ms
    else eligible_ids ids ms

-- `eligible`
unfoldable pub eligible : List PoolMember → ℕ
eligible ms = length (eligible_ids [] ms)

-- How many members have a reason: `count`.
unfoldable pub count_of : Reason → List PoolMember → ℕ
count_of r [] = 0
count_of r (m ∷ ms) =
    let more = count_of r ms in
    elim m.reason [
      | none ↦ more
      | some s ↦ if str_eq (reason_text s) (reason_text r) then suc more else more
    ]

-- The more frequent reason, and of two the first in the order of their texts.
unfoldable pub best_reason : List PoolMember → Option Reason → List PoolMember → Option Reason
unfolding count_of
best_reason all best [] = best
best_reason all best (m ∷ ms) = elim m.reason [
  | none ↦ best_reason all best ms
  | some r ↦ elim best [
    | none ↦ best_reason all (some r) ms
    | some b ↦
        if ltb (count_of b all) (count_of r all)
          || (count_of r all == count_of b all && not (str_leb (reason_text b) (reason_text r)))
        then best_reason all (some r) ms
        else best_reason all (some b) ms
  ]
]

pub data Status : Type 0 where
  disabled : Status
  ready : ℕ → Status
  no_nodes : Status
  no_allowed_model : List String → Status
  none_connected : Status
  nodes_are : Reason → Status

abbrev pub status_of : Pool → Option Reason → Status
status_of p none = no_nodes
status_of p (some model_refused) = no_allowed_model p.models
status_of p (some not_member) = none_connected
status_of p (some r) = nodes_are r

-- `poolStatus`
unfoldable pub pool_status : Pool → List PoolMember → Status
unfolding eligible best_reason
pool_status p ms =
    if p.disabled
    then disabled
    else if ltb 0 (eligible ms)
    then ready (eligible ms)
    else status_of p (best_reason ms none ms)
