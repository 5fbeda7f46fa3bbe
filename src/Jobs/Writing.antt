-- ===== src/Jobs/Writing.antt =====
-- Documents that the orchestrator writes and reads, and how a job is finished.
use phoneborg.Shared.{
  ℕ, ◌≡◌, ◌≢◌, refl, ◌∙◌, ap, Bool, false, ◌||◌, List, String, str_eq, eq_iff, arith, some,
}
use phoneborg.Jobs.Names.{trim, doc_name, clip}
use phoneborg.Jobs.{
  done, Job, event, put_doc, Doc, shown, find_doc, saved, compare_first, finished_job,
}
use phoneborg.Jobs.Tools.{write_doc, read_doc, finish_job, tool}
use phoneborg.Jobs.Docs.{find_doc-write, IsResult, existing-IsResult}
use phoneborg.Jobs.Naming.{doc_name-doc_name}

write_doc-put_doc :
    (j : Job) (p : Bool) (name text : String) (now : ℕ)
    → doc_name name ≢ ""
    → trim text ≢ ""
    → tool j p (write_doc name text) now
      ≡ (put_doc j (doc_name name) text "orchestrator" now, saved (doc_name name))
unfolding tool
write_doc-put_doc j p name text now n t =
    let e : (str_eq (doc_name name) "" || str_eq (trim text) "") ≡ false =
      ground (arith, n, t, eq_iff (doc_name name) "", eq_iff (trim text) "") in
    rw e refl

find_doc-put_doc :
    (j : Job) (name text author : String) (now : ℕ)
    → find_doc name (put_doc j name text author now).docs
      ≡ some (record { name = name; text = text; author = author; updated = now })
unfolding put_doc event
find_doc-put_doc j name text author now =
    find_doc-write (record { name = name; text = text; author = author; updated = now }) j.docs

read_doc-shown :
    (j : Job) (p : Bool) (name : String) (d : Doc) (now : ℕ)
    → find_doc (doc_name name) j.docs ≡ some d
    → (tool j p (read_doc name) now).1 ≡ shown d.name (clip d.text 6000)
unfolding tool
read_doc-shown j p name d now e = rw (e, tool) refl

-- A text written under a name is read back, cut at 6000 bytes and with its document name, under that name and under the
-- normalised one that the orchestrator is shown, whatever the job holds, if neither the text nor
-- the normalised name is empty.
pub write_doc-read_doc :
    (j : Job) (p : Bool) (name text : String) (now later : ℕ)
    → doc_name name ≢ ""
    → trim text ≢ ""
    → let k = (tool j p (write_doc name text) now).0 in
      ((tool k p (read_doc name) later).1 ≡ shown (doc_name name) (clip text 6000))
      × ((tool k p (read_doc (doc_name name)) later).1 ≡ shown (doc_name name) (clip text 6000))
write_doc-read_doc j p name text now later n t =
    let d : Doc = record {
      name = doc_name name;
      text = text;
      author = "orchestrator";
      updated = now;
    } in
    let k : Job = put_doc j (doc_name name) text "orchestrator" now in
    let found : find_doc (doc_name name) k.docs ≡ some d =
      find_doc-put_doc j (doc_name name) text "orchestrator" now in
    rw (write_doc-put_doc j p name text now n t) (
      read_doc-shown k p name d later found,
      read_doc-shown k p (doc_name name) d later
          (ap (λ m. find_doc m k.docs) (doc_name-doc_name name).2 ∙ found),
    )

-- A finish behind a document that a worker or the orchestrator wrote is not accepted: the job keeps
-- its state and the orchestrator is asked to compare the documents with the goal first. The next
-- finish, with no document written in between, ends the job, and its result names documents only.
pub put_doc-finish :
    (j : Job) (p q : Bool) (name text author : String) (names more : List String) (s u : String)
    (now t₁ t₂ : ℕ)
    → let k = put_doc j name text author now in
      let (checked, answer) = tool k p (finish_job names s) t₁ in
      let (ended, last) = tool checked q (finish_job more u) t₂ in
      (answer ≡ compare_first)
      × (checked.status ≡ j.status)
      × (last ≡ finished_job)
      × (ended.status ≡ done)
      × IsResult k.docs ended.result
unfolding tool put_doc event
put_doc-finish j p q name text author names more s u now t₁ t₂ =
    (refl, refl, refl, refl, existing-IsResult _ more)
