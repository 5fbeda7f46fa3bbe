-- ===== src/Jobs/Plan.antt =====
-- The task list of a job: ids in order, and one task per document.
use phoneborg.Shared.{
  ℕ, suc, ◌≡◌, ◌≢◌, refl, sym, ◌∙◌, ap, inl, inr, Bool, true, false, not, ◌&&◌, ◌||◌, List, [], ◌∷◌,
  ◌++◌, String, str_eq, eq_iff, str_eq_refl, arith, Bool-cases, All, keep, insert, lookup-insert,
}
use phoneborg.Jobs.Names.{trim, doc_name}
use phoneborg.Jobs.{Task, mark_done}
use phoneborg.Jobs.Tools.{marked, seen_docs, new_tasks, number, is_done, merge_plan}

abbrev pub docs_of : List Task → List String
docs_of [] = []
docs_of (t ∷ ts) = t.doc ∷ docs_of ts

-- A document is produced by one task only; an empty name is no document.
abbrev pub OneEach : List String → Type 0
OneEach [] = Unit {0}
OneEach (x ∷ xs) = All (λ y. x ≢ "" → y ≢ x) xs × OneEach xs

-- The ids are the positions in the list.
abbrev pub IsNumbered : ℕ → List Task → Type 0
IsNumbered n [] = Unit {0}
IsNumbered n (t ∷ ts) = (t.id ≡ n) × IsNumbered (suc n) ts

pub docs_of-mark_done : (name : String) (ts : List Task) → docs_of (mark_done name ts) ≡ docs_of ts
docs_of-mark_done name [] = refl
docs_of-mark_done name (t ∷ ts) = ground (arith, docs_of-mark_done name ts)

pub mark_done-IsNumbered :
    (name : String) (n : ℕ) (ts : List Task) → IsNumbered n ts → IsNumbered n (mark_done name ts)
mark_done-IsNumbered name n [] h = tt
mark_done-IsNumbered name n (t ∷ ts) h =
    (ground (arith, h.0), mark_done-IsNumbered name (suc n) ts h.1)

docs_of-number : (n : ℕ) (ts : List Task) → docs_of (number n ts) ≡ docs_of ts
docs_of-number n [] = refl
docs_of-number n (t ∷ ts) = ap (λ ds. t.doc ∷ ds) (docs_of-number (suc n) ts)

number-IsNumbered : (n : ℕ) (ts : List Task) → IsNumbered n (number n ts)
number-IsNumbered n [] = tt
number-IsNumbered n (t ∷ ts) = (refl, number-IsNumbered (suc n) ts)

docs_of-append : (xs ys : List Task) → docs_of (xs ++ ys) ≡ docs_of xs ++ docs_of ys
docs_of-append [] ys = refl
docs_of-append (t ∷ ts) ys = ap (λ ds. t.doc ∷ ds) (docs_of-append ts ys)

All-append : {A : Type 0} (P : A → Type 0) (xs ys : List A) → All P xs → All P ys → All P (xs ++ ys)
All-append P [] ys h k = k
All-append P (x ∷ xs) ys h k = (h.0, All-append P xs ys h.1 k)

OneEach-append :
    (xs ys : List String)
    → OneEach xs
    → OneEach ys
    → All (λ x. All (λ y. x ≢ "" → y ≢ x) ys) xs
    → OneEach (xs ++ ys)
OneEach-append [] ys h k o = k
OneEach-append (x ∷ xs) ys h k o =
    (All-append (λ y. x ≢ "" → y ≢ x) xs ys h.0 o.0, OneEach-append xs ys h.1 k o.1)

All-docs_keep :
    (P : String → Type 0) (ts : List Task) → All P (docs_of ts) → All P (docs_of (keep is_done ts))
All-docs_keep P [] h = tt
All-docs_keep P (t ∷ ts) h = elim (Bool-cases t.finished) [
  | inl e ↦ rw e (h.0, All-docs_keep P ts h.1)
  | inr e ↦ rw e (All-docs_keep P ts h.1)
]

OneEach-keep : (ts : List Task) → OneEach (docs_of ts) → OneEach (docs_of (keep is_done ts))
OneEach-keep [] h = tt
OneEach-keep (t ∷ ts) h = elim (Bool-cases t.finished) [
  | inl e ↦ rw e (All-docs_keep (λ y. t.doc ≢ "" → y ≢ t.doc) ts h.0, OneEach-keep ts h.1)
  | inr e ↦ rw e (OneEach-keep ts h.1)
]

marked-insert :
    (k j : String) (m : List (String × Bool))
    → marked j m ≡ true
    → marked j (insert k true m) ≡ true
marked-insert k j m h = ground (arith, lookup-insert k j true m)

marked-seen :
    (d : String) (old : List Task) (seen : List (String × Bool))
    → marked d seen ≡ true
    → marked d (seen_docs old seen) ≡ true
marked-seen d [] seen h = h
marked-seen d (t ∷ ts) seen h = elim (Bool-cases t.finished) [
  | inl e ↦ rw e (marked-seen d ts (insert t.doc true seen) (marked-insert t.doc d seen h))
  | inr e ↦ rw e (marked-seen d ts seen h)
]

-- The documents of the tasks that are done are marked.
seen_docs-marked :
    (old : List Task) (seen : List (String × Bool))
    → All (λ d. marked d (seen_docs old seen) ≡ true) (docs_of (keep is_done old))
seen_docs-marked [] seen = tt
seen_docs-marked (t ∷ ts) seen = elim (Bool-cases t.finished) [
  | inl e ↦ rw e (
    marked-seen t.doc ts (insert t.doc true seen)
        (ground (arith, lookup-insert t.doc t.doc true seen, str_eq_refl t.doc)),
    seen_docs-marked ts (insert t.doc true seen),
  )
  | inr e ↦ rw e (seen_docs-marked ts seen)
]

-- What a name that is new behind a write says of the names before it.
unmark :
    (k : String) (seen : List (String × Bool)) (ds : List String)
    → All (λ d. d ≢ "" → marked d (insert k true seen) ≡ false) ds
    → All (λ d. d ≢ "" → marked d seen ≡ false) ds × All (λ d. k ≢ "" → d ≢ k) ds
unmark k seen [] h = (tt, tt)
unmark k seen (d ∷ ds) h =
    let (u, v) = unmark k seen ds h.1 in
    (
      (λ n. ground (arith, h.0 n, lookup-insert k d true seen, eq_iff k d), u),
      (
        λ n e.
            ground (
              arith,
              h.0 (λ z. n (sym e ∙ z)),
              lookup-insert k d true seen,
              (eq_iff k d).1 (sym e),
            ),
        v,
      ),
    )

new_tasks-OneEach :
    (ts : List (String × String)) (seen : List (String × Bool))
    → All (λ d. d ≢ "" → marked d seen ≡ false) (docs_of (new_tasks ts seen))
      × OneEach (docs_of (new_tasks ts seen))
new_tasks-OneEach [] seen = (tt, tt)
new_tasks-OneEach ((title, doc) ∷ ts) seen =
    elim (Bool-cases
      (str_eq (trim title) "" || (not (str_eq (doc_name doc) "") && marked (doc_name doc) seen))) [
        | inl e ↦ rw e (new_tasks-OneEach ts seen)
        | inr e ↦
            let (m, o) = new_tasks-OneEach ts (insert (doc_name doc) true seen) in
            let (u, v) =
              unmark (doc_name doc) seen (docs_of (new_tasks ts (insert (doc_name doc) true seen)))
                m in
            rw e ((λ n. ground (arith, eq_iff (doc_name doc) "", n, e), u), (v, o))
      ]

clash-free :
    (seen : List (String × Bool)) (xs ys : List String)
    → All (λ d. marked d seen ≡ true) xs
    → All (λ d. d ≢ "" → marked d seen ≡ false) ys
    → All (λ x. All (λ y. x ≢ "" → y ≢ x) ys) xs
clash-free seen [] ys h k = tt
clash-free seen (x ∷ xs) ys h k = (apart ys k, clash-free seen xs ys h.1 k)
  where
    apart :
        (ys : List String)
        → All (λ d. d ≢ "" → marked d seen ≡ false) ys
        → All (λ y. x ≢ "" → y ≢ x) ys
    apart [] k = tt
    apart (y ∷ ys) k = (
      λ n e. absurd (ground (arith, h.0, k.0 (λ z. n (sym e ∙ z)), ap (λ d. marked d seen) e)),
      apart ys k.1,
    )

pub merge_plan-IsNumbered :
    (old : List Task) (tasks : List (String × String)) → IsNumbered 1 (merge_plan old tasks)
unfolding merge_plan
merge_plan-IsNumbered old tasks = number-IsNumbered 1 _

pub merge_plan-OneEach :
    (old : List Task) (tasks : List (String × String))
    → OneEach (docs_of old)
    → OneEach (docs_of (merge_plan old tasks))
unfolding merge_plan
merge_plan-OneEach old tasks h =
    let new = new_tasks-OneEach tasks (seen_docs old []) in
    rw
      (
        docs_of-number 1 (keep is_done old ++ new_tasks tasks (seen_docs old [])),
        docs_of-append (keep is_done old) (new_tasks tasks (seen_docs old [])),
      )
      (OneEach-append _ _ (OneEach-keep old h) new.1
        (clash-free (seen_docs old []) _ _ (seen_docs-marked old []) new.0))

-- What holds of the tasks that are done holds of those in the plan: the new ones are not done.
pub merge_plan-All :
    (P : String → Type 0) (old : List Task) (tasks : List (String × String))
    → All (λ t. t.finished ≡ true → P t.doc) old
    → All (λ t. t.finished ≡ true → P t.doc) (merge_plan old tasks)
unfolding merge_plan
merge_plan-All P old tasks h = numbered 1 _ (
    All-append (λ t. t.finished ≡ true → P t.doc) (keep is_done old) _ (kept old h) (fresh tasks _))
  where
    numbered :
        (n : ℕ) (ts : List Task)
        → All (λ t. t.finished ≡ true → P t.doc) ts
        → All (λ t. t.finished ≡ true → P t.doc) (number n ts)
    numbered n [] h = tt
    numbered n (t ∷ ts) h = (h.0, numbered (suc n) ts h.1)

    kept :
        (ts : List Task)
        → All (λ t. t.finished ≡ true → P t.doc) ts
        → All (λ t. t.finished ≡ true → P t.doc) (keep is_done ts)
    kept [] h = tt
    kept (t ∷ ts) h = elim (Bool-cases t.finished) [
      | inl e ↦ rw e ((λ _. h.0 e), kept ts h.1)
      | inr e ↦ rw e (kept ts h.1)
    ]

    fresh :
        (ts : List (String × String)) (seen : List (String × Bool))
        → All (λ t. t.finished ≡ true → P t.doc) (new_tasks ts seen)
    fresh [] seen = tt
    fresh ((title, doc) ∷ ts) seen =
        elim (Bool-cases (
          str_eq (trim title) ""
          || (not (str_eq (doc_name doc) "") && marked (doc_name doc) seen))) [
            | inl e ↦ rw e (fresh ts seen)
            | inr e ↦
                rw e ((λ k. absurd (ground arith)), fresh ts (insert (doc_name doc) true seen))
          ]
