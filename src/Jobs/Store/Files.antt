-- ===== src/Jobs/Store/Files.antt =====
-- The files of the jobs, and a restart.
use mathlib.Core.Option
use phoneborg.Shared.{
  ℕ, ◌≡◌, ◌≢◌, refl, ◌∙◌, ap, inl, inr, true, false, none, some, List, [], ◌∷◌, String, str_eq,
  eq_iff, str_eq_refl, arith, Bool-cases, Option-cases, lookup, insert, delete, lookup-insert,
  lookup-delete, Entries, if_true, if_false,
}
use phoneborg.Jobs.Names.{trim}
use phoneborg.Jobs.{Job, Status, queued, running, waiting, done, failed, cancelled, is_running}
use phoneborg.Jobs.Life.{create, say, cancel, reload}
use phoneborg.Jobs.History.{Op, step}
use phoneborg.Jobs.Store.{
  Jobs, save, put, create_job, say_to, cancel_job, delete_job, step_job, reload_all, load_jobs,
}

-- What happens to the store; a file that could not be removed is left out here.
pub data Action : Type 0 where
  creates : String → String → String → String → String → String → Action
  says : String → String → Action
  cancels deletes saves : String → Action
  steps : String → Op → Action
  restarts : Action

unfoldable pub act : Jobs → Action → ℕ → Jobs
act s (creates id title goal words principal pool) now =
    create_job s id title goal words principal pool now
act s (says id text) now = (say_to s id text now).0
act s (cancels id) now = (cancel_job s id now).0
act s (deletes id) now = (delete_job s id true).0
act s (saves id) now = save s id
act s (steps id op) now = step_job s id op now
act s restarts now = load_jobs s

unfoldable pub act_all : Jobs → List (ℕ × Action) → Jobs
unfolding act
act_all s [] = s
act_all s ((now, a) ∷ rest) = act_all (act s a now) rest

-- The job is neither in memory nor on disk.
abbrev pub IsGone : String → Jobs → Type 0
IsGone id s = (lookup id s.jobs ≡ none) × (lookup id s.files ≡ none)

-- The action does not create a job of this id.
abbrev pub Avoids : String → Action → Type 0
Avoids id (creates k _ _ _ _ _) = k ≢ id
Avoids id _ = Unit {0}

abbrev pub AvoidsAll : String → List (ℕ × Action) → Type 0
AvoidsAll id [] = Unit {0}
AvoidsAll id ((now, a) ∷ rest) = Avoids id a × AvoidsAll id rest

insert-gone :
    (k id : String) (j : Job) (m : List (String × Job))
    → k ≢ id
    → lookup id m ≡ none
    → lookup id (insert k j m) ≡ none
insert-gone k id j m n e = ground (arith, lookup-insert k id j m, eq_iff k id, n, e)

-- A job that is there is not the one that is gone.
found-other :
    (k id : String) (j : Job) (m : List (String × Job))
    → lookup k m ≡ some j
    → lookup id m ≡ none
    → k ≢ id
found-other k id j m e n q = absurd (ground (arith, ap (λ x. lookup x m) q, e, n))

save-IsGone : (s : Jobs) (k id : String) → IsGone id s → IsGone id (save s k)
unfolding save
save-IsGone s k id h = elim (Option-cases (lookup k s.jobs)) [
  | inl e ↦ rw (e, save) h
  | inr (j, e) ↦ elim (Bool-cases s.on_disk) [
    | inl d ↦
        rw (e, save) (rw d (h.0, insert-gone k id j s.files (found-other k id j s.jobs e h.0) h.1))
    | inr d ↦ rw (e, save) (rw d h)
  ]
]

put-IsGone : (s : Jobs) (k id : String) (j : Job) → k ≢ id → IsGone id s → IsGone id (put s k j)
unfolding put
put-IsGone s k id j n h =
    save-IsGone (record s { jobs = insert k j s.jobs }) k id (insert-gone k id j s.jobs n h.0, h.1)

say_to-IsGone :
    (s : Jobs) (k id text : String) (now : ℕ) → IsGone id s → IsGone id (say_to s k text now).0
unfolding say_to
say_to-IsGone s k id text now h = elim (Bool-cases (str_eq (trim text) "")) [
  | inl t ↦ rw t h
  | inr t ↦ rw t (elim (Option-cases (lookup k s.jobs)) [
    | inl e ↦ rw e h
    | inr (j, e) ↦ rw e (put-IsGone s k id (say j text now) (found-other k id j s.jobs e h.0) h)
  ])
]

cancel_job-IsGone :
    (s : Jobs) (k id : String) (now : ℕ) → IsGone id s → IsGone id (cancel_job s k now).0
unfolding cancel_job
cancel_job-IsGone s k id now h = elim (Option-cases (lookup k s.jobs)) [
  | inl e ↦ rw (e, cancel_job) h
  | inr (j, e) ↦
      rw (e, cancel_job) (put-IsGone s k id (cancel j now) (found-other k id j s.jobs e h.0) h)
]

delete-gone :
    (k id : String) (m : List (String × Job)) → lookup id m ≡ none → lookup id (delete k m) ≡ none
delete-gone k id m e = ground (arith, lookup-delete k id m, e)

delete_job-IsGone : (s : Jobs) (k id : String) → IsGone id s → IsGone id (delete_job s k true).0
unfolding delete_job
delete_job-IsGone s k id h = elim (Option-cases (lookup k s.jobs)) [
  | inl e ↦ rw (e, delete_job) h
  | inr (j, e) ↦ elim (Bool-cases s.on_disk) [
    | inl d ↦ rw (e, delete_job) (rw d (delete-gone k id s.jobs h.0, delete-gone k id s.files h.1))
    | inr d ↦ rw (e, delete_job) (rw d (delete-gone k id s.jobs h.0, h.1))
  ]
]

step_job-IsGone :
    (s : Jobs) (k id : String) (op : Op) (now : ℕ) → IsGone id s → IsGone id (step_job s k op now)
unfolding step_job
step_job-IsGone s k id op now h = elim (Option-cases (lookup k s.jobs)) [
  | inl e ↦ rw (e, step_job) h
  | inr (j, e) ↦
      rw (e, step_job)
        (insert-gone k id (step j op now) s.jobs (found-other k id j s.jobs e h.0) h.0, h.1)
]

reload_all-gone :
    (id : String) (m : List (String × Job)) → lookup id m ≡ none → lookup id (reload_all m) ≡ none
reload_all-gone id [] e = refl
reload_all-gone id ((k, j) ∷ m) e = ground (arith, e, reload_all-gone id m)

act-IsGone :
    (s : Jobs) (a : Action) (now : ℕ) (id : String)
    → Avoids id a
    → IsGone id s
    → IsGone id (act s a now)
unfolding act
act-IsGone s (creates k title goal words principal pool) now id n h =
    unfold create_job in put-IsGone s k id (create k title goal words principal pool now) n h
act-IsGone s (says k text) now id n h = say_to-IsGone s k id text now h
act-IsGone s (cancels k) now id n h = cancel_job-IsGone s k id now h
act-IsGone s (deletes k) now id n h = delete_job-IsGone s k id h
act-IsGone s (saves k) now id n h = save-IsGone s k id h
act-IsGone s (steps k op) now id n h = step_job-IsGone s k id op now h
act-IsGone s restarts now id n h = unfold load_jobs in (reload_all-gone id s.files h.1, h.1)

act_all-IsGone :
    (s : Jobs) (rest : List (ℕ × Action)) (id : String)
    → AvoidsAll id rest
    → IsGone id s
    → IsGone id (act_all s rest)
unfolding act_all
act_all-IsGone s [] id n h = h
act_all-IsGone s ((now, a) ∷ rest) id n h =
    act_all-IsGone (act s a now) rest id n.1 (act-IsGone s a now id n.0 h)

-- A job that is deleted is gone for good, in memory and on disk: whatever happens then, steps of
-- its run that end late, saves and restarts included, unless a job of that id is created. The store
-- has a directory, the job is in it, and its file can be removed.
pub delete_job-act_all :
    (s : Jobs) (id : String) (j : Job) (rest : List (ℕ × Action))
    → s.on_disk ≡ true
    → lookup id s.jobs ≡ some j
    → AvoidsAll id rest
    → ((delete_job s id true).1 ≡ none) × IsGone id (act_all (delete_job s id true).0 rest)
unfolding delete_job
delete_job-act_all s id j rest d e n =
    let gone : Jobs = record s {
      on_disk = true;
      jobs = delete id s.jobs;
      files = delete id s.files;
    } in
    rw (e, delete_job)
      (rw d (
        refl,
        act_all-IsGone gone rest id n (
          ground (arith, lookup-delete id id s.jobs, str_eq_refl id),
          ground (arith, lookup-delete id id s.files, str_eq_refl id),
        ),
      ))

lookup-reload_all :
    (id : String) (m : List (String × Job))
    → lookup id (reload_all m) ≡ Option.map reload (lookup id m)
lookup-reload_all id [] = refl
lookup-reload_all id ((k, j) ∷ m) = elim (Bool-cases (str_eq k id)) [
  | inl q ↦ rw q refl
  | inr q ↦ rw q (lookup-reload_all id m)
]

reload_idle : (j : Job) → is_running (reload j).status ≡ false
unfolding reload
reload_idle j = elim (Bool-cases (is_running j.status)) [ inl e ↦ rw e refl | inr e ↦ rw e e ]

reload_all_idle :
    (m : List (String × Job)) → Entries (λ id j. is_running j.status ≡ false) (reload_all m)
reload_all_idle [] = tt
reload_all_idle ((k, j) ∷ m) = (reload_idle j, reload_all_idle m)

-- The job as it was, but for its state, which is queued if it was running, and the count of steps
-- without a call.
abbrev pub IsBack : Job → Job → Type 0
IsBack j r =
    (j.status ≡ running → r.status ≡ queued)
    × (j.status ≢ running → r.status ≡ j.status)
    × (r.no_tool ≡ 0)
    × (r.id ≡ j.id)
    × (r.title ≡ j.title)
    × (r.goal ≡ j.goal)
    × (r.messages ≡ j.messages)
    × (r.principal ≡ j.principal)
    × (r.pool ≡ j.pool)
    × (r.question ≡ j.question)
    × (r.error ≡ j.error)
    × (r.tasks ≡ j.tasks)
    × (r.docs ≡ j.docs)
    × (r.result ≡ j.result)
    × (r.summary ≡ j.summary)
    × (r.steps ≡ j.steps)
    × (r.recent ≡ j.recent)
    × (r.planned_at ≡ j.planned_at)
    × (r.language ≡ j.language)
    × (r.finish_asked ≡ j.finish_asked)
    × (r.events ≡ j.events)
    × (r.created ≡ j.created)
    × (r.updated ≡ j.updated)

running_only : (s : Status) → s ≢ running → is_running s ≡ false
running_only queued n = refl
running_only running n = absurd (n refl)
running_only waiting n = refl
running_only done n = refl
running_only failed n = refl
running_only cancelled n = refl

reload-IsBack : (j : Job) → IsBack j (reload j)
unfolding reload
reload-IsBack j = (
  λ e. if_true (is_running j.status) queued j.status (ap is_running e),
  λ n. if_false (is_running j.status) queued j.status (running_only j.status n),
  refl,
  refl,
  refl,
  refl,
  refl,
  refl,
  refl,
  refl,
  refl,
  refl,
  refl,
  refl,
  refl,
  refl,
  refl,
  refl,
  refl,
  refl,
  refl,
  refl,
  refl,
)

-- A job that was saved in a store with a directory is there behind a restart, as it was but for the
-- count of steps without a call and its state, which is queued if it was running; and no job runs
-- behind a restart.
pub save-load_jobs :
    (s : Jobs) (id : String) (j : Job)
    → s.on_disk ≡ true
    → lookup id s.jobs ≡ some j
    → ((r : Job) × (lookup id (load_jobs (save s id)).jobs ≡ some r) × IsBack j r)
      × Entries (λ k i. is_running i.status ≡ false) (load_jobs (save s id)).jobs
unfolding load_jobs save
save-load_jobs s id j d e =
    let stored : lookup id (insert id j s.files) ≡ some j =
      lookup-insert id id j s.files ∙ rw (str_eq_refl id) refl in
    rw (e, save)
      (rw d (
        (
          reload j,
          lookup-reload_all id (insert id j s.files) ∙ ap (Option.map reload) stored,
          reload-IsBack j,
        ),
        reload_all_idle (insert id j s.files),
      ))
