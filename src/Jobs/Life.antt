-- ===== src/Jobs/Life.antt =====
-- controller/gateway/jobs.go: what users, the runner and the workers do to a job, one step each.
use phoneborg.Shared.{
  ℕ, ◌+◌, Bool, false, not, ◌&&◌, ◌||◌, [], ◌∷◌, ◌++◌, String, str_eq, ltb, leb, if◌then◌else◌,
  length, any,
}
use phoneborg.Jobs.Names.{trim, clip}
use phoneborg.Jobs.{
  queued, running, waiting, failed, cancelled, is_running, user, think, delegates, worker, error,
  status, no_call, repeated, Job, event, put_doc, record_step, max_no_tool, last_of,
}
use phoneborg.Jobs.Tools.{Tool, tool, is_done}

-- `Create`: the id, the joined words of the goal, whose first 60 bytes are the title of a job without
-- one, and the time.
abbrev pub blank : String → String → String → String → String → String → ℕ → Job
blank id title goal words principal pool now = record {
  id = id;
  title = if str_eq (trim title) "" then clip words 60 else trim title;
  goal = trim goal;
  messages = [];
  principal = if str_eq principal "" then "job" else principal;
  pool = pool;
  status = queued;
  question = "";
  error = "";
  tasks = [];
  docs = [];
  result = [];
  summary = "";
  steps = 0;
  recent = [];
  planned_at = 0;
  language = "";
  finish_asked = false;
  no_tool = 0;
  events = [];
  created = now;
  updated = now;
}

unfoldable pub create : String → String → String → String → String → String → ℕ → Job
unfolding event
create id title goal words principal pool now =
    event (blank id title goal words principal pool now) user now

-- `Say`; an empty message is an error.
unfoldable pub say : Job → String → ℕ → Job
say j text now =
    let k = event (record j { messages = j.messages ++ (trim text ∷ []) }) user now in
    if str_eq (trim text) ""
    then j
    else if is_running k.status
    then k
    else record k { status = queued; question = ""; error = "" }

-- `Cancel`
unfoldable pub cancel : Job → ℕ → Job
cancel j now = event (record j { status = cancelled }) status now

-- `LoadJobs`: a job that was running is queued again; `no_tool` is not stored.
unfoldable pub reload : Job → Job
reload j = record j { status = if is_running j.status then queued else j.status; no_tool = 0 }

-- `run`, up to its loop.
unfoldable pub start : Job → ℕ → Job
start j now = elim j.status [ queued ↦ event (record j { status = running }) status now | _ ↦ j ]

-- `run`, at the head of a round behind the step budget.
unfoldable pub out_of_budget : Job → String → ℕ → Job
out_of_budget j question now =
    if is_running j.status
    then event (record j { status = waiting; question = question }) status now
    else j

-- How a step of the orchestrator fails: a pool that is none, no node, or another error, which counts.
pub data Failure : Type 0 where
  bad_pool no_node : Failure
  step_error : ℕ → Failure

abbrev pub max_errors : ℕ
max_errors = 5

-- `run`, behind a failed step; a step error carries the failures in a row before it.
unfoldable pub step_failed : Job → Failure → String → ℕ → Job
step_failed j bad_pool message now = record (event j error now) {
  status = waiting;
  question = message;
}
step_failed j no_node message now = event j error now
step_failed j (step_error failures) message now =
    let k = event j error now in
    if leb max_errors (failures + 1)
    then event (record k { status = failed; error = message }) status now
    else k

-- `step`: the orchestrator's text is logged, if there is any.
unfoldable pub thought : Job → String → ℕ → Job
thought j text now = if str_eq (trim text) "" then j else event j think now

-- `step`, on an answer without a tool call.
unfoldable pub without_call : Job → String → ℕ → Job
without_call j question now =
    let k = record_step j "none" "" no_call now in
    if leb max_no_tool (k.no_tool + 1)
    then event (record k { no_tool = 0; status = waiting; question = question }) error now
    else record k { no_tool = k.no_tool + 1 }

-- `repeats`
unfoldable pub repeats : Job → String → String → Bool
unfolding last_of
repeats j name args = elim (last_of 1 j.recent) [
  | [] ↦ false
  | s ∷ _ ↦ not (str_eq name "finish") && str_eq s.tool name && str_eq s.args args
]

-- `step`: whether the orchestrator may plan.
unfoldable pub may_plan : Job → Bool
may_plan j = not (any (λ t. not (is_done t)) j.tasks) || ltb j.planned_at (length j.messages)

-- `step`, on a tool call but `delegate`: a call just made is refused.
unfoldable pub call_tool : Job → Bool → String → String → Tool → ℕ → Job
call_tool j can_plan name args t now =
    let k = record j { no_tool = 0 } in
    let (after, answer) = tool k can_plan t now in
    if repeats j name args
    then record_step k name args repeated now
    else record_step after name args answer now

-- `delegate`: a task is given to a worker; a worker answers, under a name that is not empty; a worker
-- fails or answers nothing.
unfoldable pub assigned : Job → ℕ → Job
assigned j now = event j delegates now

unfoldable pub worker_done : Job → String → String → String → ℕ → Job
worker_done j name text author now =
    if str_eq text "" then event j error now else event (put_doc j name text author now) worker now
