-- ===== src/Jobs/Tests.antt =====
-- A job that writes a story.
use phoneborg.Shared.{
  ℕ, ◌≡◌, ◌≢◌, refl, ◌≤◌, true, false, none, some, List, [], ◌∷◌, length, lookup, Entries,
}
use Prim.Native.String.{◌++◌}
use phoneborg.Jobs.Names.{doc_name, clip, trim}
use phoneborg.Jobs.{
  Job, queued, done, event, last_of, put_doc, record_step, compare_first, finished_job, shown,
  is_running,
}
use phoneborg.Jobs.Tools.{tool, plan_tasks, write_doc, read_doc, finish_job, set_plan, merge_plan}
use phoneborg.Jobs.Life.{create, start, call_tool, repeats, worker_done, assigned}
use phoneborg.Jobs.History.{Op, starts, calls, assigns, works, step, run}
use phoneborg.Jobs.Docs.{IsResult}
use phoneborg.Jobs.Naming.{is_name, char_count, doc_name-doc_name, doc_name_number}
use phoneborg.Jobs.Invariant.{IsSound, run-IsSound}
use phoneborg.Jobs.States.{MovesTo, step-Moves}
use phoneborg.Jobs.Store.{Jobs, next, oldest, save, load_jobs, delete_job}
use phoneborg.Jobs.Store.Order.{IsNext, next-IsNext}
use phoneborg.Jobs.Store.Files.{
  IsBack, Action, steps, saves, restarts, act_all, IsGone, delete_job-act_all, save-load_jobs,
}
use phoneborg.Jobs.Writing.{write_doc-read_doc, put_doc-finish}

abbrev story : List (ℕ × Op)
story =
    (1, starts)
    ∷ (
      2,
      calls true "plan_tasks" "{1}"
          (plan_tasks (some (("Plot", "outline") ∷ ("One", "Rozdział 1") ∷ [])) "en"),
    )
    ∷ (3, calls false "write_doc" "{2}" (write_doc "Outline" "A plot."))
    ∷ (4, assigns)
    ∷ (5, works "rozdzial_1" "Once upon a time" "pixel")
    ∷ (6, calls false "finish" "{3}" (finish_job ("outline" ∷ "nothing" ∷ []) "Done."))
    ∷ (7, calls false "finish" "{3}" (finish_job ("outline" ∷ "nothing" ∷ []) "Done."))
    ∷ []

abbrev new_job : Job
new_job = create "j1" "Story" "Write a story" "Write a story" "ann" "" 0

story_job : Job
unfolding create event last_of run step start call_tool repeats tool set_plan merge_plan doc_name
    put_doc record_step assigned worker_done
story_job = run new_job story

story_ends :
    (story_job.status ≡ done) × (story_job.result ≡ "outline" ∷ []) × (length story_job.events ≡ 8)
unfolding story_job
story_ends = (refl, refl, refl)

run-IsSound_example : IsSound (run new_job story)
run-IsSound_example = run-IsSound "j1" "Story" "Write a story" "Write a story" "ann" "" 0 story

step-Moves_example : MovesTo new_job starts (step new_job starts 1)
step-Moves_example = step-Moves new_job starts 1

doc_name-doc_name_example :
    (is_name (doc_name " Rozdział 1: Świt ") ≡ true)
    × (char_count (doc_name " Rozdział 1: Świt ") ≤ 40)
    × (doc_name (doc_name " Rozdział 1: Świt ") ≡ doc_name " Rozdział 1: Świt ")
doc_name-doc_name_example = doc_name-doc_name " Rozdział 1: Świt "

dawn : doc_name " Rozdział 1: Świt " ≡ "rozdzial_1_swit"
unfolding doc_name
dawn = refl

doc_name_number_example :
    doc_name ("the_adventures_of_the_old_man_by_the_sea" ++ "_2")
    ≡ "the_adventures_of_the_old_man_by_the_sea"
doc_name_number_example =
    doc_name_number "the_adventures_of_the_old_man_by_the_sea" "_2" refl refl refl

named_outline : doc_name "Outline" ≢ ""
unfolding doc_name
named_outline = λ e. cc

has_text : trim "A plot." ≢ ""
unfolding trim
has_text = λ e. cc

write_doc-read_doc_example :
    ((tool (tool new_job false (write_doc "Outline" "A plot.") 3).0 false (read_doc "Outline") 4).1
      ≡ shown (doc_name "Outline") (clip "A plot." 6000))
    × ((tool
          (tool new_job false (write_doc "Outline" "A plot.") 3).0
          false
          (read_doc (doc_name "Outline"))
          4).1
        ≡ shown (doc_name "Outline") (clip "A plot." 6000))
write_doc-read_doc_example =
    write_doc-read_doc new_job false "Outline" "A plot." 3 4 named_outline has_text

put_doc-finish_example :
    let k = put_doc new_job "outline" "A plot." "pixel" 3 in
    let checked = tool k false (finish_job ("outline" ∷ []) "Done.") 4 in
    let ended = tool checked.0 false (finish_job ("outline" ∷ []) "Done.") 5 in
    (checked.1 ≡ compare_first)
    × (checked.0.status ≡ queued)
    × (ended.1 ≡ finished_job)
    × (ended.0.status ≡ done)
    × IsResult k.docs ended.0.result
unfolding create event
put_doc-finish_example =
    put_doc-finish new_job false false "outline" "A plot." "pixel" ("outline" ∷ []) ("outline" ∷ [])
      "Done." "Done." 3 4 5

abbrev two_jobs : Jobs
two_jobs = record {
  on_disk = true;
  jobs = ("j1", new_job) ∷ ("j2", create "j2" "Poem" "Write a poem" "Write a poem" "bob" "" 5) ∷ [];
  files = ("j1", new_job) ∷ [];
}

next-IsNext_example : IsNext two_jobs.jobs (next two_jobs)
next-IsNext_example = next-IsNext two_jobs

older_first : next two_jobs ≡ some new_job
unfolding next oldest create event last_of
older_first = refl

abbrev late_steps : List (ℕ × Action)
late_steps = (6, steps "j1" (works "a" "text" "pixel")) ∷ (7, saves "j1") ∷ (8, restarts) ∷ []

delete_job-act_all_example :
    ((delete_job two_jobs "j1" true).1 ≡ none)
    × IsGone "j1" (act_all (delete_job two_jobs "j1" true).0 late_steps)
delete_job-act_all_example =
    delete_job-act_all two_jobs "j1" new_job late_steps refl refl (tt, (tt, (tt, tt)))

save-load_jobs_example :
    ((r : Job) × (lookup "j2" (load_jobs (save two_jobs "j2")).jobs ≡ some r)
      × IsBack (create "j2" "Poem" "Write a poem" "Write a poem" "bob" "" 5) r)
    × Entries (λ k i. is_running i.status ≡ false) (load_jobs (save two_jobs "j2")).jobs
save-load_jobs_example = save-load_jobs two_jobs "j2" _ refl refl
