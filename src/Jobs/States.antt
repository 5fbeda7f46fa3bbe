-- ===== src/Jobs/States.antt =====
-- The states of a job.
use phoneborg.Shared.{
  ℕ, ◌+◌, ◌≤◌, ◌≡◌, refl, ◌⊎◌, inl, inr, Bool, true, false, ◌||◌, none, some, List, [], ◌∷◌, String,
  str_eq, arith, Bool-cases, Option-cases, leb,
}
use phoneborg.Jobs.Names.{trim, doc_name}
use phoneborg.Jobs.{
  Status, queued, running, waiting, done, failed, cancelled, is_running, Job, event, put_doc,
  record_step, find_doc, max_no_tool,
}
use phoneborg.Jobs.Tools.{
  Tool, invalid, plan_tasks, write_doc, read_doc, ask_user, finish_job, other_tool, set_plan, tool,
}
use phoneborg.Jobs.Life.{
  Failure, bad_pool, no_node, step_error, max_errors, say, cancel, reload, start, out_of_budget,
  step_failed, thought, without_call, repeats, call_tool, assigned, worker_done,
}
use phoneborg.Jobs.History.{
  Op, says, cancels, reloads, starts, assigns, worker_fails, runs_out, thinks, calls_none, fails,
  calls, works, step,
}

-- The changes of state: what makes one, and from where to where. The first argument tells whether
-- the orchestrator was asked to compare the documents with the goal, and wrote none since.
pub data Moves : Bool → Op → Status → Status → Type 0 where
  queue : {b : Bool} {s : Status} (text : String) → Moves b (says text) s queued
  stop : {b : Bool} {s : Status} → Moves b cancels s cancelled
  requeue : {b : Bool} → Moves b reloads running queued
  begin : {b : Bool} → Moves b starts queued running
  pause : {b : Bool} (q : String) → Moves b (runs_out q) running waiting
  misconfigured : {b : Bool} {s : Status} (m : String) → Moves b (fails bad_pool m) s waiting
  give_up :
      {b : Bool} {s : Status} (n : ℕ) (m : String)
      → 4 ≤ n
      → Moves b (fails (step_error n) m) s failed
  wait_for_tools : {b : Bool} {s : Status} (q : String) → Moves b (calls_none q) s waiting
  question :
      {b : Bool} {s : Status} (p : Bool) (name args q : String)
      → Moves b (calls p name args (ask_user q)) s waiting
  complete :
      {s : Status} (p : Bool) (name args : String) (names : List String) (summary : String)
      → Moves true (calls p name args (finish_job names summary)) s done

-- A step keeps the state or makes one of the changes.
abbrev pub MovesTo : Job → Op → Job → Type 0
MovesTo j op k = (k.status ≡ j.status) ⊎ Moves j.finish_asked op j.status k.status

say-Moves : (j : Job) (text : String) (now : ℕ) → MovesTo j (says text) (say j text now)
unfolding say event
say-Moves j text now = elim (Bool-cases (str_eq (trim text) "")) [
  | inl e ↦ rw e (inl refl)
  | inr e ↦ rw e (elim (Bool-cases (is_running j.status)) [
    | inl r ↦ rw r (inl refl)
    | inr r ↦ rw r (inr (queue text))
  ])
]

reload-Moves : (b : Bool) (j : Job) → j.finish_asked ≡ b → MovesTo j reloads (reload j)
unfolding reload
reload-Moves b j f = by_status j.status refl
  where
    by_status : (s : Status) → j.status ≡ s → MovesTo j reloads (reload j)
    by_status running e = rw (e, reload) (inr requeue)
    by_status queued e = rw (e, reload) (inl refl)
    by_status waiting e = rw (e, reload) (inl refl)
    by_status done e = rw (e, reload) (inl refl)
    by_status failed e = rw (e, reload) (inl refl)
    by_status cancelled e = rw (e, reload) (inl refl)

start-Moves : (j : Job) (now : ℕ) → MovesTo j starts (start j now)
unfolding start event
start-Moves j now = by_status j.status refl
  where
    by_status : (s : Status) → j.status ≡ s → MovesTo j starts (start j now)
    by_status queued e = rw (e, start) (inr begin)
    by_status running e = rw (e, start) (inl e)
    by_status waiting e = rw (e, start) (inl e)
    by_status done e = rw (e, start) (inl e)
    by_status failed e = rw (e, start) (inl e)
    by_status cancelled e = rw (e, start) (inl e)

out_of_budget-Moves :
    (j : Job) (q : String) (now : ℕ) → MovesTo j (runs_out q) (out_of_budget j q now)
unfolding out_of_budget event
out_of_budget-Moves j q now = by_status j.status refl
  where
    by_status : (s : Status) → j.status ≡ s → MovesTo j (runs_out q) (out_of_budget j q now)
    by_status running e = rw (e, out_of_budget) (inr (pause q))
    by_status queued e = rw (e, out_of_budget) (inl refl)
    by_status waiting e = rw (e, out_of_budget) (inl refl)
    by_status done e = rw (e, out_of_budget) (inl refl)
    by_status failed e = rw (e, out_of_budget) (inl refl)
    by_status cancelled e = rw (e, out_of_budget) (inl refl)

step_failed-Moves :
    (j : Job) (f : Failure) (m : String) (now : ℕ) → MovesTo j (fails f m) (step_failed j f m now)
unfolding step_failed event
step_failed-Moves j bad_pool m now = inr (misconfigured m)
step_failed-Moves j no_node m now = inl refl
step_failed-Moves j (step_error n) m now = elim (Bool-cases (leb max_errors (n + 1))) [
  | inl e ↦ rw e (inr (give_up n m (ground (arith, e))))
  | inr e ↦ rw e (inl refl)
]

without_call-Moves :
    (j : Job) (q : String) (now : ℕ) → MovesTo j (calls_none q) (without_call j q now)
unfolding without_call record_step event
without_call-Moves j q now = elim (Bool-cases (leb max_no_tool (j.no_tool + 1))) [
  | inl e ↦ rw e (inr (wait_for_tools q))
  | inr e ↦ rw e (inl refl)
]

thought-Moves : (j : Job) (text : String) (now : ℕ) → MovesTo j (thinks text) (thought j text now)
unfolding thought event
thought-Moves j text now = elim (Bool-cases (str_eq (trim text) "")) [
  | inl e ↦ rw e (inl refl)
  | inr e ↦ rw e (inl refl)
]

worker_done-Moves :
    (j : Job) (name text author : String) (now : ℕ)
    → MovesTo j (works name text author) (worker_done j name text author now)
unfolding worker_done put_doc event
worker_done-Moves j name text author now = elim (Bool-cases (str_eq text "")) [
  | inl e ↦ rw e (inl refl)
  | inr e ↦ rw e (inl refl)
]

tool-Moves :
    (j : Job) (p : Bool) (name args : String) (t : Tool) (now : ℕ)
    → MovesTo j (calls p name args t) (tool j p t now).0
unfolding tool set_plan put_doc event
tool-Moves j p name args invalid now = inl refl
tool-Moves j false name args (plan_tasks ts l) now = inl refl
tool-Moves j true name args (plan_tasks none l) now = inl refl
tool-Moves j true name args (plan_tasks (some []) l) now = inl refl
tool-Moves j true name args (plan_tasks (some (t ∷ ts)) l) now = inl refl
tool-Moves j p name args (write_doc n text) now =
    elim (Bool-cases (str_eq (doc_name n) "" || str_eq (trim text) "")) [
      | inl e ↦ rw e (inl refl)
      | inr e ↦ rw e (inl refl)
    ]
tool-Moves j p name args (read_doc n) now = elim (Option-cases (find_doc (doc_name n) j.docs)) [
  | inl e ↦ rw (e, tool) (inl refl)
  | inr (d, e) ↦ rw (e, tool) (inl refl)
]
tool-Moves j p name args (ask_user q) now = inr (question p name args q)
tool-Moves j p name args (finish_job names summary) now = elim (Bool-cases j.finish_asked) [
  | inl e ↦ rw e (inr (complete p name args names summary))
  | inr e ↦ rw e (inl refl)
]
tool-Moves j p name args other_tool now = inl refl

call_tool-Moves :
    (j : Job) (p : Bool) (name args : String) (t : Tool) (now : ℕ)
    → MovesTo j (calls p name args t) (call_tool j p name args t now)
unfolding call_tool record_step
call_tool-Moves j p name args t now = elim (Bool-cases (repeats j name args)) [
  | inl e ↦ rw e (inl refl)
  | inr e ↦ rw e (tool-Moves (record j { no_tool = 0 }) p name args t now)
]

-- Every step of a job keeps its state or makes one of the changes listed in `Moves`: only `run`
-- starts a job, and only a queued one; only the users' messages and a restart queue it again; it
-- fails behind five errors in a row; and it is done only by a finish of an orchestrator that
-- was asked before to compare the documents with the goal.
pub step-Moves : (j : Job) (op : Op) (now : ℕ) → MovesTo j op (step j op now)
unfolding step
step-Moves j (says text) now = say-Moves j text now
step-Moves j cancels now = unfold cancel event in inr stop
step-Moves j reloads now = reload-Moves j.finish_asked j refl
step-Moves j starts now = start-Moves j now
step-Moves j assigns now = unfold assigned event in inl refl
step-Moves j worker_fails now = unfold event in inl refl
step-Moves j (runs_out q) now = out_of_budget-Moves j q now
step-Moves j (thinks text) now = thought-Moves j text now
step-Moves j (calls_none q) now = without_call-Moves j q now
step-Moves j (fails f m) now = step_failed-Moves j f m now
step-Moves j (calls p name args t) now = call_tool-Moves j p name args t now
step-Moves j (works name text author) now = worker_done-Moves j name text author now
