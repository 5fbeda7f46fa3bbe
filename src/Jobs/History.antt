-- ===== src/Jobs/History.antt =====
-- A history of a job: the steps that users, the runner, the orchestrator's calls and the workers
-- take, in whatever order they get the lock.
use phoneborg.Shared.{ℕ, Bool, List, [], ◌∷◌, String}
use phoneborg.Jobs.{Job, event, error}
use phoneborg.Jobs.Tools.{Tool}
use phoneborg.Jobs.Life.{
  Failure, say, cancel, reload, start, out_of_budget, step_failed, thought, without_call, call_tool,
  assigned, worker_done,
}

pub data Op : Type 0 where
  says : String → Op
  cancels reloads starts assigns worker_fails : Op
  runs_out thinks calls_none : String → Op
  fails : Failure → String → Op
  calls : Bool → String → String → Tool → Op
  works : String → String → String → Op

unfoldable pub step : Job → Op → ℕ → Job
step j (says text) now = say j text now
step j cancels now = cancel j now
step j reloads now = reload j
step j starts now = start j now
step j assigns now = assigned j now
step j worker_fails now = event j error now
step j (runs_out question) now = out_of_budget j question now
step j (thinks text) now = thought j text now
step j (calls_none question) now = without_call j question now
step j (fails f message) now = step_failed j f message now
step j (calls can_plan name args t) now = call_tool j can_plan name args t now
step j (works name text author) now = worker_done j name text author now

unfoldable pub run : Job → List (ℕ × Op) → Job
unfolding step
run j [] = j
run j ((now, op) ∷ ops) = run (step j op now) ops
