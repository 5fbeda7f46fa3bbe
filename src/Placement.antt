-- ===== src/Placement.antt =====
-- controller/placement.go: the placement, the plan computed from it, the models that benchmarks force
-- onto nodes, and what a heartbeat's answer tells a node to serve. The planner is the default one.
mod Override
mod Tests
use phoneborg.Shared.{
  ℕ, suc, Bool, true, false, not, ◌&&◌, ◌||◌, Option, none, some, List, [], ◌∷◌, ◌++◌, String,
  str_eq, str_leb, ◌==◌, if◌then◌else◌, lookup, insert, delete, is_some, keep, map, sort_by, length,
}
use phoneborg.Registry.{Node, active, offline, state_eq, is_drained}
use phoneborg.Classes.{class_of}
use phoneborg.Memplan.{KvRequest}
use phoneborg.Fleet.{Phone, Runtime, ram_of, runtime_of}
use phoneborg.Planner
use phoneborg.Planner.{
  Policy, Spec, PlanModel, Mode, pin, Assignment, by_pin, by_replicas, by_percent, by_default, kept,
  idle,
}
use phoneborg.Planner.Place.{Plan, is_pin, default_plan}

-- A row with the reason that the placement gives it: the planner's, or a benchmark's.
pub record Row : Type 0 where
  pub assignment : Assignment
  pub benchmark : Bool

pub record Placement : Type 0 where
  pub spec : Spec
  pub rows : List Row
  pub by_node : List (String × Row)
  pub overrides : List (String × String)

-- The pin of an override.
abbrev pub override_pin : String → String → Policy
override_pin node model = record {
  model_id = model;
  mode = pin;
  nodes = node ∷ [];
  count = 0;
  share = 0;
  classes = [];
  min_tok_s = 0;
}

abbrev pub override_of : List (String × String) → String → String
override_of os n = elim (lookup n os) [ none ↦ "" | some m ↦ m ]

-- One pin for each key, in the order of the keys.
unfoldable pub override_pins : List (String × String) → List String → List Policy
override_pins os ns = map (λ n. override_pin n (override_of os n)) ns

abbrev pub is_free : List (String × String) → String → Bool
is_free os n = not (is_some (lookup n os))

-- The loop over the policies of the placement.
unfoldable pub without_overridden : List (String × String) → List Policy → List Policy
without_overridden os [] = []
without_overridden os (p ∷ ps) =
    let rest = without_overridden os ps in
    let free = keep (is_free os) p.nodes in
    if is_pin p.mode
    then (if length free == 0 then rest else record p { nodes = free } ∷ rest)
    else p ∷ rest

unfoldable pub with_overrides : Spec → List (String × String) → Spec
unfolding without_overridden override_pins
with_overrides spec os = record {
  policies =
      override_pins os (sort_by str_leb (map (λ o. o.0) os)) ++ without_overridden os spec.policies;
  default_model = spec.default_model;
}

-- `assigning`
unfoldable pub assigning : Row → Bool
assigning r = r.benchmark || elim r.assignment.reason [ kept ↦ false | idle ↦ false | _ ↦ true ]

unfoldable pub runtime_state : Option Runtime → String
runtime_state none = "idle"
runtime_state (some rt) =
    if not (str_eq rt.state "") then rt.state else if rt.ready then "serving" else "loading"

unfoldable pub current_model : Option Runtime → String
current_model none = ""
current_model (some rt) = if str_eq rt.model_id "" then rt.model else rt.model_id

-- A node's measured bandwidths.
pub record Perf : Type 0 where
  pub gen_gbps : ℕ
  pub prompt_gbps : ℕ

-- What a plan is computed from: the registry's view, the models that Big Brain pools lend nodes to, the
-- measured bandwidths, and the ready models of the catalog.
pub record Inputs : Type 0 where
  pub nodes : List Phone
  pub drained : List (String × Bool)
  pub big_brain_model : String → Option String
  pub perf : String → Perf
  pub ready : List PlanModel
  pub min_tok_s : ℕ

abbrev pub speed_of : Option Runtime → ℕ
speed_of none = 0
speed_of (some rt) = rt.gen_tps

abbrev pub budget_of : Option Runtime → ℕ
budget_of none = 0
budget_of (some rt) = rt.budget_bytes

-- The model that the last plan gave a node, if it made the controller send it.
unfoldable pub assigned_before : List (String × Row) → String → String
assigned_before prev id = elim (lookup id prev) [
  | none ↦ ""
  | some r ↦ if assigning r then r.assignment.model_id else ""
]

unfoldable pub plan_node : Inputs → List (String × Row) → Phone → Planner.Node
plan_node x prev n = record {
  id = n.id;
  class = class_of (ram_of n);
  ram_total = ram_of n;
  speed = speed_of (runtime_of n);
  gen_gbps = (x.perf n.id).gen_gbps;
  prompt_gbps = (x.perf n.id).prompt_gbps;
  current_model = current_model (runtime_of n);
  assigned = assigned_before prev n.id;
  is_drained = is_drained n.id x.drained;
  budget_bytes = budget_of (runtime_of n);
}

-- The nodes that are planned: not offline, and not lent to a Big Brain.
abbrev pub is_planned : Inputs → Phone → Bool
is_planned x n = not (state_eq n.state offline) && not (is_some (x.big_brain_model n.id))

unfoldable pub plan_inputs : Inputs → List (String × Row) → List Planner.Node
plan_inputs x prev = map (plan_node x prev) (keep (is_planned x) x.nodes)

-- The reason `ReasonBenchmark` for a row that serves an override.
unfoldable pub mark : List (String × String) → Assignment → Row
mark os a = record {
  assignment = a;
  benchmark = elim (lookup a.node_id os) [ none ↦ false | some m ↦ str_eq a.model_id m ];
}

unfoldable pub index_rows : List (String × Row) → List Row → List (String × Row)
index_rows t [] = t
index_rows t (r ∷ rs) = index_rows (insert r.assignment.node_id r t) rs

abbrev pub effective_spec : Spec → List (String × String) → Spec
effective_spec spec [] = spec
effective_spec spec (o ∷ os) = with_overrides spec (o ∷ os)

-- `Replan`
unfoldable pub replan : Inputs → Placement → Placement
unfolding plan_inputs index_rows mark
replan x p =
    let nodes = plan_inputs x p.by_node in
    let plan = default_plan x.min_tok_s (effective_spec p.spec p.overrides) nodes x.ready in
    let rows = map (mark p.overrides) plan.rows in
    record { spec = p.spec; rows = rows; by_node = index_rows [] rows; overrides = p.overrides }

-- `SetBenchmarkOverride`
unfoldable pub set_benchmark_override : Inputs → String → String → Placement → Placement
set_benchmark_override x node model p = replan x (record p {
  overrides = if str_eq model "" then delete node p.overrides else insert node model p.overrides;
})

-- What a node should serve: RPC for a Big Brain, or a model with its configuration.
pub data Desired : Type 0 where
  rpc : String → Desired
  serve : PlanModel → ℕ → ℕ → Option KvRequest → Desired

-- `file` is the catalog's `File`: the model, if it is ready.
unfoldable pub desired :
    (String → Option String) → (String → Option PlanModel) → Placement → String → Option Desired
desired big_brain_model file p id = elim (big_brain_model id) [
  | some m ↦ some (rpc m)
  | none ↦ elim (lookup id p.by_node) [
    | none ↦ none
    | some r ↦
        let a = r.assignment in
        if assigning r
        then elim (file a.model_id) [
          | none ↦ none
          | some m ↦ some (serve m a.ctx_size a.slots a.kv_type)
        ]
        else none
  ]
]

-- `nodesServing`
unfoldable pub nodes_serving : List (String × ℕ) → List Phone → List (String × ℕ)
nodes_serving t [] = t
nodes_serving t (n ∷ ns) =
    let model = current_model (runtime_of n) in
    let served : ℕ = elim (lookup model t) [ none ↦ 0 | some k ↦ k ] in
    let ready : Bool = elim (runtime_of n) [ none ↦ false | some rt ↦ rt.ready ] in
    if state_eq n.state active && ready
    then nodes_serving (insert model (suc served) t) ns
    else nodes_serving t ns
