-- ===== src/Jobs/Tools.antt =====
-- controller/gateway/jobs.go: `tool`, which executes a tool call of the orchestrator. What decoding
-- the arguments gives is a part of the call; `delegate` is more than one step and stands in Life.
use phoneborg.Shared.{
  ℕ, suc, ◌-◌, Bool, true, false, not, ◌&&◌, ◌||◌, Option, none, some, List, [], ◌∷◌, ◌++◌, String,
  str_eq, if◌then◌else◌, length, keep, lookup, insert,
}
use phoneborg.Jobs.Names.{trim, doc_name, clip}
use phoneborg.Jobs.{
  waiting, done, Task, Doc, plan, read, ask, finish, Answer, bad_arguments, plan_is_set,
  needs_tasks, needs_text, unknown_doc, unknown_tool, plan_made, saved, shown, asked, compare_first,
  finished_job, Job, event, find_doc, has_doc, put_doc,
}

-- A call but `delegate`, with its arguments; tasks that do not decode are `none`.
pub data Tool : Type 0 where
  invalid : Tool
  plan_tasks : Option (List (String × String)) → String → Tool
  write_doc : String → String → Tool
  read_doc : String → Tool
  ask_user : String → Tool
  finish_job : List String → String → Tool
  other_tool : Tool

abbrev pub marked : String → List (String × Bool) → Bool
marked k m = elim (lookup k m) [ none ↦ false | some b ↦ b ]

-- The map `seen` behind the loop over the old tasks.
abbrev pub seen_docs : List Task → List (String × Bool) → List (String × Bool)
seen_docs [] seen = seen
seen_docs (t ∷ ts) seen =
    if t.finished then seen_docs ts (insert t.doc true seen) else seen_docs ts seen

-- The new tasks that are added.
abbrev pub new_tasks : List (String × String) → List (String × Bool) → List Task
new_tasks [] seen = []
new_tasks ((title, doc) ∷ ts) seen =
    let name = doc_name doc in
    let added =
      record { id = 0; title = trim title; doc = name; finished = false }
      ∷ new_tasks ts (insert name true seen) in
    let rest = new_tasks ts seen in
    if str_eq (trim title) "" || (not (str_eq name "") && marked name seen) then rest else added

-- The ids behind the last loop, from a number on.
abbrev pub number : ℕ → List Task → List Task
number n [] = []
number n (t ∷ ts) = record t { id = n } ∷ number (suc n) ts

abbrev pub is_done : Task → Bool
is_done t = t.finished

-- The list of tasks that a plan leaves.
unfoldable pub merge_plan : List Task → List (String × String) → List Task
merge_plan old tasks =
    let kept = keep is_done old in number 1 (kept ++ new_tasks tasks (seen_docs old []))

unfoldable pub set_plan : Job → List (String × String) → String → ℕ → Job × Answer
unfolding merge_plan
set_plan j tasks language now =
    let kept = length (keep is_done j.tasks) in
    let all = merge_plan j.tasks tasks in
    (
      event
          (record j {
            tasks = all;
            planned_at = length j.messages;
            language = if str_eq (trim language) "" then j.language else clip (trim language) 40;
          })
          plan now,
      plan_made (length all - kept) kept,
    )

-- The names that `finish` keeps.
abbrev pub existing : List Doc → List String → List String
existing docs [] = []
existing docs (n ∷ ns) =
    if has_doc (doc_name n) docs then doc_name n ∷ existing docs ns else existing docs ns

unfoldable pub tool : Job → Bool → Tool → ℕ → Job × Answer
tool j can_plan invalid now = (j, bad_arguments)
tool j can_plan (plan_tasks tasks language) now =
    if not can_plan then (j, plan_is_set) else elim tasks [
      | none ↦ (j, needs_tasks)
      | some ts ↦ elim ts [ [] ↦ (j, needs_tasks) | t ∷ rest ↦ set_plan j (t ∷ rest) language now ]
    ]
tool j can_plan (write_doc name text) now =
    if str_eq (doc_name name) "" || str_eq (trim text) ""
    then (j, needs_text)
    else (put_doc j (doc_name name) text "orchestrator" now, saved (doc_name name))
tool j can_plan (read_doc name) now = elim (find_doc (doc_name name) j.docs) [
  | none ↦ (j, unknown_doc)
  | some d ↦ (event j read now, shown d.name (clip d.text 6000))
]
tool j can_plan (ask_user question) now =
    (event (record j { status = waiting; question = trim question }) ask now, asked)
tool j can_plan (finish_job names summary) now =
    if not j.finish_asked then (record j { finish_asked = true }, compare_first) else (
      event (record j { status = done; result = existing j.docs names; summary = trim summary })
          finish now,
      finished_job,
    )
tool j can_plan other_tool now = (j, unknown_tool)
