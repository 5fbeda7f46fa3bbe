-- ===== src/Jobs.antt =====
-- controller/gateway/jobs.go: a Super Borg job, and what happens to it. The lock is held for one
-- operation at a time, so each function here is one step. The texts of the event log and of
-- results are left out, their kinds are kept; times are numbers.
pub mod Names
pub mod Tools
pub mod Life
pub mod Plan
pub mod Docs
pub mod Log
pub mod History
pub mod Invariant
pub mod Naming
pub mod States
pub mod Writing
pub mod Store
pub mod Tests
use phoneborg.Shared.{
  ℕ, zero, suc, ◌+◌, ◌-◌, Bool, true, false, not, ◌&&◌, ◌||◌, Option, none, some, List, [], ◌∷◌,
  ◌++◌, String, str_eq, ltb, leb, ◌==◌, if◌then◌else◌, length, drop, keep, any, is_some,
}
use phoneborg.Jobs.Names.{trim, doc_name, clip}

pub data Status : Type 0 where
  queued running waiting done failed cancelled : Status

-- `finished` is Status "done" of a task.
pub record Task : Type 0 where
  pub id : ℕ
  pub title : String
  pub doc : String
  pub finished : Bool

pub record Doc : Type 0 where
  pub name : String
  pub text : String
  pub author : String
  pub updated : ℕ

pub data Kind : Type 0 where
  user think plan delegates worker doc read ask finish error status : Kind

pub record Event : Type 0 where
  pub seq : ℕ
  pub time : ℕ
  pub kind : Kind

-- What a tool call is answered with.
pub data Answer : Type 0 where
  bad_arguments plan_is_set needs_tasks needs_text unknown_doc unknown_tool : Answer
  plan_made : ℕ → ℕ → Answer
  saved : String → Answer
  shown : String → String → Answer
  asked compare_first finished_job repeated no_call delegated : Answer

pub record Step : Type 0 where
  pub n : ℕ
  pub tool : String
  pub args : String
  pub result : Answer

pub record Job : Type 0 where
  pub id : String
  pub title : String
  pub goal : String
  pub messages : List String
  pub principal : String
  pub pool : String
  pub status : Status
  pub question : String
  pub error : String
  pub tasks : List Task
  pub docs : List Doc
  pub result : List String
  pub summary : String
  pub steps : ℕ
  pub recent : List Step
  pub planned_at : ℕ
  pub language : String
  pub finish_asked : Bool
  pub no_tool : ℕ
  pub events : List Event
  pub created : ℕ
  pub updated : ℕ

abbrev pub max_events : ℕ
max_events = 500

abbrev pub recent_steps : ℕ
recent_steps = 6

abbrev pub max_no_tool : ℕ
max_no_tool = 3

abbrev pub is_running : Status → Bool
is_running running = true
is_running _ = false

abbrev pub last_seq : List Event → ℕ
last_seq [] = 0
last_seq (e ∷ []) = e.seq
last_seq (e ∷ f ∷ es) = last_seq (f ∷ es)

-- The last `n` entries: `l[len(l)-n:]`, if there are more.
unfoldable pub last_of {ℓ} : {A : Type ℓ} → ℕ → List A → List A
last_of n l = if ltb n (length l) then drop (length l - n) l else l

-- `event`
unfoldable pub event : Job → Kind → ℕ → Job
unfolding last_of
event j k now = record j {
  events =
      last_of max_events
        (j.events ++ (record { seq = last_seq j.events + 1; time = now; kind = k } ∷ []));
  updated = now;
}

-- `findDoc`
abbrev pub find_doc : String → List Doc → Option Doc
find_doc name [] = none
find_doc name (d ∷ ds) = if str_eq d.name name then some d else find_doc name ds

abbrev pub has_doc : String → List Doc → Bool
has_doc name ds = is_some (find_doc name ds)

-- The write of `putDoc`: over the document of that name, or a new one at the end.
abbrev pub write : Doc → List Doc → List Doc
write d [] = d ∷ []
write d (e ∷ ds) = if str_eq e.name d.name then d ∷ ds else e ∷ write d ds

abbrev pub mark_done : String → List Task → List Task
mark_done name [] = []
mark_done name (t ∷ ts) =
    (if str_eq t.doc name then record t { finished = true } else t) ∷ mark_done name ts

-- `putDoc`
unfoldable pub put_doc : Job → String → String → String → ℕ → Job
unfolding event
put_doc j name text author now =
    event
      (record j {
        docs = write (record { name = name; text = text; author = author; updated = now }) j.docs;
        tasks = mark_done name j.tasks;
        finish_asked = false;
      })
      doc now

-- `record`
unfoldable pub record_step : Job → String → String → Answer → ℕ → Job
unfolding last_of
record_step j tool args res now = record j {
  steps = j.steps + 1;
  recent =
      last_of recent_steps
        (j.recent ++ (record { n = j.steps + 1; tool = tool; args = args; result = res } ∷ []));
  updated = now;
}
