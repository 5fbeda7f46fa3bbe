-- ===== src/Jobs/Store.antt =====
-- controller/gateway/jobs.go: the store of jobs, in memory and on disk. A file holds a job as it was
-- when it was saved; the directory is one map more. Ids are fresh random numbers, given here.
pub mod Order
pub mod Files
use phoneborg.Shared.{
  ℕ, zero, suc, ◌+◌, Bool, true, false, not, ◌&&◌, ◌||◌, Option, none, some, List, [], ◌∷◌, String,
  str_eq, ltb, if◌then◌else◌, lookup, insert, delete, is_some, keep, any, length, map, sort_by, leb,
}
use phoneborg.Jobs.Names.{trim, doc_name, clip}
use phoneborg.Jobs.{Job, Status, queued, running, Doc, Task, find_doc, is_running}
use phoneborg.Jobs.Tools.{is_done}
use phoneborg.Jobs.Life.{create, say, cancel, reload}
use phoneborg.Jobs.History.{Op, step}

-- `on_disk` is whether a directory is set.
pub record Jobs : Type 0 where
  pub on_disk : Bool
  pub jobs : List (String × Job)
  pub files : List (String × Job)

pub data Error : Type 0 where
  not_found empty_message not_removed : Error

-- `saveLocked`: a job that was deleted meanwhile is not written (the code compares the pointers; an id is
-- here not used twice). Every write succeeds; what the encoding keeps of a job is in `reload`.
unfoldable pub save : Jobs → String → Jobs
save s id = elim (lookup id s.jobs) [
  | none ↦ s
  | some j ↦ if s.on_disk then record s { files = insert id j s.files } else s
]

-- The map with one job changed, and saved.
unfoldable pub put : Jobs → String → Job → Jobs
unfolding save
put s id j = save (record s { jobs = insert id j s.jobs }) id

unfoldable pub create_job : Jobs → String → String → String → String → String → String → ℕ → Jobs
unfolding put
create_job s id title goal words principal pool now =
    put s id (create id title goal words principal pool now)

unfoldable pub say_to : Jobs → String → String → ℕ → Jobs × Option Error
unfolding put
say_to s id text now =
    if str_eq (trim text) "" then (s, some empty_message) else elim (lookup id s.jobs) [
      | none ↦ (s, some not_found)
      | some j ↦ (put s id (say j text now), none)
    ]

unfoldable pub cancel_job : Jobs → String → ℕ → Jobs × Option Error
unfolding put
cancel_job s id now = elim (lookup id s.jobs) [
  | none ↦ (s, some not_found)
  | some j ↦ (put s id (cancel j now), none)
]

-- `Delete`; the last argument is whether the file could be removed.
unfoldable pub delete_job : Jobs → String → Bool → Jobs × Option Error
delete_job s id removed = elim (lookup id s.jobs) [
  | none ↦ (s, some not_found)
  | some j ↦
      let gone = record s { jobs = delete id s.jobs } in
      if not s.on_disk
      then (gone, none)
      else if removed
      then (record gone { files = delete id s.files }, none)
      else (gone, some not_removed)
]

-- A step of a job; one that was deleted is no longer the store's.
unfoldable pub step_job : Jobs → String → Op → ℕ → Jobs
step_job s id op now = elim (lookup id s.jobs) [
  | none ↦ s
  | some j ↦ record s { jobs = insert id (step j op now) s.jobs }
]

-- `LoadJobs`, on the files of the directory.
abbrev pub reload_all : List (String × Job) → List (String × Job)
reload_all [] = []
reload_all ((id, j) ∷ m) = (id, reload j) ∷ reload_all m

unfoldable pub load_jobs : Jobs → Jobs
load_jobs s = record s { jobs = reload_all s.files }

abbrev pub is_queued : Status → Bool
is_queued queued = true
is_queued _ = false

-- The loop of `next`.
unfoldable pub oldest : Option Job → List (String × Job) → Option Job
oldest best [] = best
oldest none ((id, j) ∷ m) = if is_queued j.status then oldest (some j) m else oldest none m
oldest (some b) ((id, j) ∷ m) =
    if is_queued j.status && ltb j.created b.created then oldest (some j) m else oldest (some b) m

unfoldable pub next : Jobs → Option Job
unfolding oldest
next s = oldest none s.jobs

-- `Get`: a copy with previews of its documents.
abbrev pub previews : List Doc → List Doc
previews [] = []
previews (d ∷ ds) = record d { text = clip d.text 160 } ∷ previews ds

unfoldable pub get_job : Jobs → String → Option Job
get_job s id = elim (lookup id s.jobs) [
  | none ↦ none
  | some j ↦ some (record j { docs = previews j.docs })
]

-- `Doc`
unfoldable pub get_doc : Jobs → String → String → Option Doc
get_doc s id name = elim (lookup id s.jobs) [ none ↦ none | some j ↦ find_doc name j.docs ]

pub record JobSummary : Type 0 where
  pub id : String
  pub title : String
  pub pool : String
  pub status : Status
  pub question : String
  pub steps : ℕ
  pub tasks_done : ℕ
  pub tasks : ℕ
  pub docs : ℕ
  pub created : ℕ
  pub updated : ℕ

-- `summarize`
unfoldable pub summarize : Job → JobSummary
summarize j = record {
  id = j.id;
  title = j.title;
  pool = j.pool;
  status = j.status;
  question = j.question;
  steps = j.steps;
  tasks_done = length (keep is_done j.tasks);
  tasks = length j.tasks;
  docs = length j.docs;
  created = j.created;
  updated = j.updated;
}

abbrev pub summaries : List (String × Job) → List JobSummary
summaries [] = []
summaries ((id, j) ∷ m) = summarize j ∷ summaries m

-- `List`: the newest first.
unfoldable pub list_jobs : Jobs → List JobSummary
unfolding summarize
list_jobs s = sort_by (λ a b. leb b.created a.created) (summaries s.jobs)
