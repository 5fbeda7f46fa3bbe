-- ===== src/Jobs/Invariant.antt =====
-- What holds of a job at any time.
use phoneborg.Shared.{
  ℕ, ◌+◌, ◌≤◌, ◌≡◌, refl, inl, inr, Bool, true, false, ◌||◌, none, some, List, [], ◌∷◌, ◌++◌,
  String, str_eq, arith, Bool-cases, Option-cases, length, length-append, leb,
}
use phoneborg.Jobs.Names.{trim, doc_name}
use phoneborg.Jobs.{
  Status, queued, running, waiting, done, failed, cancelled, is_running, Task, Doc, Event, Step,
  Job, event, Kind, put_doc, record_step, write, mark_done, doc, Answer, has_doc, find_doc,
  max_no_tool, user,
}
use phoneborg.Jobs.Tools.{
  Tool, invalid, plan_tasks, write_doc, read_doc, ask_user, finish_job, other_tool, set_plan, tool,
  existing,
}
use phoneborg.Jobs.Life.{
  blank, create, Failure, bad_pool, no_node, step_error, max_errors, say, cancel, reload, start,
  out_of_budget, step_failed, thought, without_call, repeats, call_tool, assigned, worker_done,
}
use phoneborg.Jobs.Plan.{
  docs_of, OneEach, IsNumbered, docs_of-mark_done, mark_done-IsNumbered, merge_plan-IsNumbered,
  merge_plan-OneEach, merge_plan-All,
}
use phoneborg.Jobs.Docs.{
  IsNamed, write-IsNamed, IsBacked, write-IsBacked, IsResult, write-IsResult, existing-IsResult,
}
use phoneborg.Jobs.Log.{length-last_of, EndsAt, append-EndsAt, last_of-EndsAt, IsLog, append-IsLog}
use phoneborg.Jobs.History.{
  Op, says, cancels, reloads, starts, assigns, worker_fails, runs_out, thinks, calls_none, fails,
  calls, works, step, run,
}

-- The log holds at most 500 events, numbered without a gap; the last steps that the orchestrator is
-- shown are at most six, and the numbered ones up to the last; tasks have their positions as ids,
-- no two produce one document, and a task that is done has its document; no two documents have one
-- name; the result names documents; the plan is not ahead of the messages.
pub record Sound (events : List Event) (recent : List Step) (steps : ℕ) (tasks : List Task)
    (docs : List Doc) (result : List String) (planned messages : ℕ) : Type 0 where
  pub log : IsLog events
  pub shown : length recent ≤ 6
  pub counted : EndsAt (λ s. s.n) steps recent
  pub ids : IsNumbered 1 tasks
  pub apart : OneEach (docs_of tasks)
  pub backed : IsBacked docs tasks
  pub named : IsNamed docs
  pub found : IsResult docs result
  pub in_time : planned ≤ messages

abbrev pub IsSound : Job → Type 0
IsSound j = Sound j.events j.recent j.steps j.tasks j.docs j.result j.planned_at (length j.messages)

event-IsSound : (j : Job) (k : Kind) (now : ℕ) → IsSound j → IsSound (event j k now)
unfolding event
event-IsSound j k now h = record {
  log = append-IsLog j.events _ h.log refl;
  shown = h.shown;
  counted = h.counted;
  ids = h.ids;
  apart = h.apart;
  backed = h.backed;
  named = h.named;
  found = h.found;
  in_time = h.in_time;
}

put_doc-IsSound :
    (j : Job) (name text author : String) (now : ℕ)
    → IsSound j
    → IsSound (put_doc j name text author now)
unfolding put_doc
put_doc-IsSound j name text author now h =
    let d : Doc = record { name = name; text = text; author = author; updated = now } in
    let k : Job = record j {
      docs = write d j.docs;
      tasks = mark_done name j.tasks;
      finish_asked = false;
    } in
    let sound : IsSound k = record {
      log = h.log;
      shown = h.shown;
      counted = h.counted;
      ids = mark_done-IsNumbered name 1 j.tasks h.ids;
      apart = rw (docs_of-mark_done name j.tasks) h.apart;
      backed = write-IsBacked d j.docs j.tasks h.backed;
      named = write-IsNamed d j.docs h.named;
      found = write-IsResult d j.docs j.result h.found;
      in_time = h.in_time;
    } in
    event-IsSound k doc now sound

record_step-IsSound :
    (j : Job) (name args : String) (a : Answer) (now : ℕ)
    → IsSound j
    → IsSound (record_step j name args a now)
unfolding record_step
record_step-IsSound j name args a now h = record {
  log = h.log;
  shown =
      length-last_of 6
        (j.recent ++ (record { n = j.steps + 1; tool = name; args = args; result = a } ∷ []));
  counted =
      last_of-EndsAt (λ s. s.n) (j.steps + 1) 6 _
        (append-EndsAt (λ s. s.n) j.steps j.recent _ h.counted refl);
  ids = h.ids;
  apart = h.apart;
  backed = h.backed;
  named = h.named;
  found = h.found;
  in_time = h.in_time;
}

set_plan-IsSound :
    (j : Job) (tasks : List (String × String)) (language : String) (now : ℕ)
    → IsSound j
    → IsSound (set_plan j tasks language now).0
unfolding set_plan
set_plan-IsSound j tasks language now h = event-IsSound _ _ now (record {
  log = h.log;
  shown = h.shown;
  counted = h.counted;
  ids = merge_plan-IsNumbered j.tasks tasks;
  apart = merge_plan-OneEach j.tasks tasks h.apart;
  backed = merge_plan-All (λ d. has_doc d j.docs ≡ true) j.tasks tasks h.backed;
  named = h.named;
  found = h.found;
  in_time = omega arith;
})

resulting :
    (j : Job) (names : List String)
    → IsSound j
    → IsSound (record j { result = existing j.docs names })
resulting j names h = record {
  log = h.log;
  shown = h.shown;
  counted = h.counted;
  ids = h.ids;
  apart = h.apart;
  backed = h.backed;
  named = h.named;
  found = existing-IsResult j.docs names;
  in_time = h.in_time;
}

told :
    (j : Job) (text : String)
    → IsSound j
    → IsSound (record j { messages = j.messages ++ (text ∷ []) })
told j text h = record {
  log = h.log;
  shown = h.shown;
  counted = h.counted;
  ids = h.ids;
  apart = h.apart;
  backed = h.backed;
  named = h.named;
  found = h.found;
  in_time = omega (arith, h.in_time, length-append j.messages (text ∷ []));
}

tool-IsSound :
    (j : Job) (can_plan : Bool) (t : Tool) (now : ℕ) → IsSound j → IsSound (tool j can_plan t now).0
unfolding tool
tool-IsSound j can_plan invalid now h = h
tool-IsSound j false (plan_tasks tasks language) now h = h
tool-IsSound j true (plan_tasks none language) now h = h
tool-IsSound j true (plan_tasks (some []) language) now h = h
tool-IsSound j true (plan_tasks (some (t ∷ ts)) language) now h =
    set_plan-IsSound j (t ∷ ts) language now h
tool-IsSound j can_plan (write_doc name text) now h =
    elim (Bool-cases (str_eq (doc_name name) "" || str_eq (trim text) "")) [
      | inl e ↦ rw e h
      | inr e ↦ rw e (put_doc-IsSound j (doc_name name) text "orchestrator" now h)
    ]
tool-IsSound j can_plan (read_doc name) now h =
    elim (Option-cases (find_doc (doc_name name) j.docs)) [
      | inl e ↦ rw (e, tool) h
      | inr (d, e) ↦ rw (e, tool) (event-IsSound j _ now h)
    ]
tool-IsSound j can_plan (ask_user question) now h = event-IsSound _ _ now h
tool-IsSound j can_plan (finish_job names summary) now h = elim (Bool-cases j.finish_asked) [
  | inl e ↦ rw e (event-IsSound _ _ now (resulting j names h))
  | inr e ↦ rw e h
]
tool-IsSound j can_plan other_tool now h = h

say-IsSound : (j : Job) (text : String) (now : ℕ) → IsSound j → IsSound (say j text now)
unfolding say
say-IsSound j text now h = elim (Bool-cases (str_eq (trim text) "")) [
  | inl e ↦ rw e h
  | inr e ↦
      let k : Job = event (record j { messages = j.messages ++ (trim text ∷ []) }) user now in
      let sound : IsSound k =
        event-IsSound (record j { messages = j.messages ++ (trim text ∷ []) }) user now
          (told j (trim text) h) in
      rw e (elim (Bool-cases (is_running k.status)) [ inl r ↦ rw r sound | inr r ↦ rw r sound ])
]

start-IsSound : (j : Job) (now : ℕ) → IsSound j → IsSound (start j now)
unfolding start
start-IsSound j now h = by_status j.status refl
  where
    by_status : (s : Status) → j.status ≡ s → IsSound (start j now)
    by_status queued e = rw (e, start) (event-IsSound _ _ now h)
    by_status running e = rw (e, start) h
    by_status waiting e = rw (e, start) h
    by_status done e = rw (e, start) h
    by_status failed e = rw (e, start) h
    by_status cancelled e = rw (e, start) h

out_of_budget-IsSound :
    (j : Job) (question : String) (now : ℕ) → IsSound j → IsSound (out_of_budget j question now)
unfolding out_of_budget
out_of_budget-IsSound j question now h = elim (Bool-cases (is_running j.status)) [
  | inl e ↦ rw e (event-IsSound _ _ now h)
  | inr e ↦ rw e h
]

step_failed-IsSound :
    (j : Job) (f : Failure) (message : String) (now : ℕ)
    → IsSound j
    → IsSound (step_failed j f message now)
unfolding step_failed
step_failed-IsSound j bad_pool message now h = event-IsSound j _ now h
step_failed-IsSound j no_node message now h = event-IsSound j _ now h
step_failed-IsSound j (step_error n) message now h = elim (Bool-cases (leb max_errors (n + 1))) [
  | inl e ↦ rw e (event-IsSound _ _ now (event-IsSound j _ now h))
  | inr e ↦ rw e (event-IsSound j _ now h)
]

without_call-IsSound :
    (j : Job) (question : String) (now : ℕ) → IsSound j → IsSound (without_call j question now)
unfolding without_call
without_call-IsSound j question now h =
    let k = record_step j "none" "" Answer.no_call now in
    let sound : IsSound k = record_step-IsSound j _ _ _ now h in
    elim (Bool-cases (leb max_no_tool (k.no_tool + 1))) [
      | inl e ↦ rw e (event-IsSound _ _ now sound)
      | inr e ↦ rw e sound
    ]

call_tool-IsSound :
    (j : Job) (can_plan : Bool) (name args : String) (t : Tool) (now : ℕ)
    → IsSound j
    → IsSound (call_tool j can_plan name args t now)
unfolding call_tool
call_tool-IsSound j can_plan name args t now h = elim (Bool-cases (repeats j name args)) [
  | inl e ↦ rw e (record_step-IsSound _ name args _ now h)
  | inr e ↦ rw e (record_step-IsSound _ name args _ now (tool-IsSound _ can_plan t now h))
]

worker_done-IsSound :
    (j : Job) (name text author : String) (now : ℕ)
    → IsSound j
    → IsSound (worker_done j name text author now)
unfolding worker_done
worker_done-IsSound j name text author now h = elim (Bool-cases (str_eq text "")) [
  | inl e ↦ rw e (event-IsSound j _ now h)
  | inr e ↦ rw e (event-IsSound _ _ now (put_doc-IsSound j name text author now h))
]

thought-IsSound : (j : Job) (text : String) (now : ℕ) → IsSound j → IsSound (thought j text now)
unfolding thought
thought-IsSound j text now h = elim (Bool-cases (str_eq (trim text) "")) [
  | inl e ↦ rw e h
  | inr e ↦ rw e (event-IsSound j _ now h)
]

step-IsSound : (j : Job) (op : Op) (now : ℕ) → IsSound j → IsSound (step j op now)
unfolding step
step-IsSound j (says text) now h = say-IsSound j text now h
step-IsSound j cancels now h = unfold cancel in event-IsSound _ _ now h
step-IsSound j reloads now h = unfold reload in h
step-IsSound j starts now h = start-IsSound j now h
step-IsSound j assigns now h = unfold assigned in event-IsSound j _ now h
step-IsSound j worker_fails now h = event-IsSound j _ now h
step-IsSound j (runs_out question) now h = out_of_budget-IsSound j question now h
step-IsSound j (thinks text) now h = thought-IsSound j text now h
step-IsSound j (calls_none question) now h = without_call-IsSound j question now h
step-IsSound j (fails f message) now h = step_failed-IsSound j f message now h
step-IsSound j (calls can_plan name args t) now h = call_tool-IsSound j can_plan name args t now h
step-IsSound j (works name text author) now h = worker_done-IsSound j name text author now h

run-IsSound_from : (j : Job) (ops : List (ℕ × Op)) → IsSound j → IsSound (run j ops)
unfolding run
run-IsSound_from j [] h = h
run-IsSound_from j ((now, op) ∷ ops) h =
    run-IsSound_from (step j op now) ops (step-IsSound j op now h)

-- A job is sound after every history: whatever users, the runner, the orchestrator's calls and the
-- workers do to a new job, in any order and with any arguments, its log is bounded and numbered
-- without a gap, so are the steps shown to the orchestrator; every task has its position as its
-- id, no document is produced by two tasks, a task that is done has its document, no two documents
-- have one name, the result names documents, and the plan is not ahead of the messages.
pub run-IsSound :
    (id title goal words principal pool : String) (now : ℕ) (ops : List (ℕ × Op))
    → IsSound (run (create id title goal words principal pool now) ops)
unfolding create
run-IsSound id title goal words principal pool now ops =
    run-IsSound_from (create id title goal words principal pool now) ops (
      event-IsSound (blank id title goal words principal pool now) user now (record {
        log = record { bounded = omega arith; in_order = tt };
        shown = omega arith;
        counted = tt;
        ids = tt;
        apart = tt;
        backed = tt;
        named = tt;
        found = tt;
        in_time = omega arith;
      }))
