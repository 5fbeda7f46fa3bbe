-- ===== src/Gateway/Superborg.antt =====
-- controller/gateway/superborg.go: which node of a pool orchestrates a request, which nodes work for
-- it, and which worker gets a task. The catalog is an argument: the size of a model, and whether
-- it can call tools.
pub mod Orchestrator
pub mod Workers
pub mod Tests
use phoneborg.Shared.{
  ℕ, Bool, true, false, not, ◌&&◌, ◌||◌, Option, none, some, List, [], ◌∷◌, String, str_eq, ltb,
  leb, ◌==◌, if◌then◌else◌, insert, keep, first_nonempty, sort_by, str_leb,
}
use phoneborg.Gateway.Backend.{Backend, least_by}
use phoneborg.Gateway.Target.{Target, Superborg, member, filter, routable}

-- `workerName`
unfoldable pub worker_name : Backend → String
worker_name b = if str_eq b.alias "" then b.node_id else b.alias

abbrev pub is_named : String → Backend → Bool
is_named name b = str_eq b.node_id name || str_eq b.alias name

-- The loop over the pool: the node named in the settings, or the candidates.
pub data Search : Type 0 where
  named : Backend → Search
  unnamed : List Backend → Search

abbrev pub prepend : Backend → Search → Search
prepend b (named c) = named c
prepend b (unnamed cs) = unnamed (b ∷ cs)

unfoldable pub search_pool : String → List (String × Bool) → List Backend → Search
search_pool name tried [] = unnamed []
search_pool name tried (b ∷ bs) =
    let rest = search_pool name tried bs in
    if member b.node_id tried || b.orchestrator_only
    then rest
    else if not (str_eq name "") && is_named name b
    then named b
    else prepend b rest

abbrev pub find_node : (Backend → Bool) → List Backend → Option Backend
find_node p [] = none
find_node p (b ∷ bs) = if p b then some b else find_node p bs

abbrev pub first_of : List Backend → Option Backend
first_of [] = none
first_of (b ∷ bs) = some b

module _ (can_call : Backend → Bool) (size : Backend → ℕ) where
  -- The order of the candidates: tool calls, then size, then speed, then the id.
  unfoldable pub comes_first : Backend → Backend → Bool
  comes_first a b =
      let by_id = str_leb a.node_id b.node_id in
      let by_speed = if a.speed == b.speed then by_id else ltb b.speed a.speed in
      let by_size = if size a == size b then by_speed else ltb (size b) (size a) in
      if can_call a
      then (if can_call b then by_size else true)
      else (if can_call b then false else by_size)

  -- `pickOrchestrator`, with the backends that `routable` gives.
  unfoldable pub pick_orchestrator :
      Superborg → List Backend → List Backend → List (String × Bool) → Option Backend
  pick_orchestrator sb all pool tried =
      let pooled : Option Backend = elim (search_pool sb.orchestrator tried pool) [
        | named b ↦ some b
        | unnamed cs ↦ first_of (sort_by comes_first cs)
      ] in
      if str_eq sb.orchestrator ""
      then pooled
      else elim (find_node
          (λ b. b.orchestrator_only && not (member b.node_id tried) && is_named sb.orchestrator b)
          all) [ some b ↦ some b | none ↦ pooled ]

-- `superborgWorkers`: the nodes but the orchestrator that are not hot, by name.
unfoldable pub superborg_workers : Backend → List Backend → List Backend
unfolding worker_name
superborg_workers orch pool =
    sort_by (λ a b. str_leb (worker_name a) (worker_name b))
      (keep (λ b. not (str_eq b.node_id orch.node_id) && not b.hot) pool)

-- `findWorker`
unfoldable pub find_worker : List Backend → String → Option Backend
find_worker workers name =
    find_node (λ b. str_eq (worker_name b) name || str_eq b.node_id name) workers

module _ (inflight : String → ℕ) where
  -- `leastBusy`: a free worker, or any if all are used, with
  -- the fewest requests in flight, then the fastest; they panic on no workers.
  unfoldable pub least_busy : List Backend → List (String × Bool) → Option Backend
  unfolding first_nonempty
  least_busy workers used =
      least_by (λ b. (inflight b.node_id, 0)) 0
        (first_nonempty (keep (λ b. not (member b.node_id used)) workers) workers)

  -- `fastestFree` of jobs.go: its first pass is over the workers not used, the second over all.
  unfoldable pub fastest_free : List Backend → List (String × Bool) → Option Backend
  unfolding first_nonempty
  fastest_free workers used =
      least_by (λ b. (inflight b.node_id, 0)) 0
        (first_nonempty (keep (λ b. not (member b.node_id used)) workers) workers)

  -- The worker of a task: the one it asks for, if it is there and free, or the least busy one.
  unfoldable pub worker_for : List Backend → List (String × Bool) → String → Option Backend
  worker_for workers used name = elim (find_worker workers name) [
    | none ↦ least_busy workers used
    | some b ↦ if member b.node_id used then least_busy workers used else some b
  ]

  -- The loop of `delegate` that assigns the tasks, given by the workers they ask for.
  unfoldable pub assign : List Backend → List (String × Bool) → List String → Option (List Backend)
  assign workers used [] = some []
  assign workers used (name ∷ names) =
      elim (worker_for workers used name) as (λ _. Option (List Backend)) [
        | none ↦ none
        | some b ↦
            elim (assign workers (insert b.node_id true used) names)
              as (λ _. Option (List Backend)) [ none ↦ none | some bs ↦ some (b ∷ bs) ]
      ]
