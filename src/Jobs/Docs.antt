-- ===== src/Jobs/Docs.antt =====
-- The documents of a job: one per name, never removed.
use phoneborg.Shared.{
  ◌≡◌, refl, subst, inl, inr, true, false, ◌||◌, some, List, [], ◌∷◌, String, str_eq, eq_iff,
  str_eq_refl, arith, Bool-cases, All,
}
use phoneborg.Jobs.Names.{doc_name}
use phoneborg.Jobs.{Task, Doc, find_doc, has_doc, write, mark_done}
use phoneborg.Jobs.Tools.{existing}

-- No two documents have one name.
abbrev pub IsNamed : List Doc → Type 0
IsNamed [] = Unit {0}
IsNamed (d ∷ ds) = (has_doc d.name ds ≡ false) × IsNamed ds

-- A write makes its document, and takes none away.
pub has_doc-write :
    (n : String) (d : Doc) (ds : List Doc)
    → has_doc n (write d ds) ≡ (str_eq d.name n || has_doc n ds)
has_doc-write n d [] = ground arith
has_doc-write n d (e ∷ ds) =
    ground (arith, has_doc-write n d ds, eq_iff e.name d.name, eq_iff e.name n, eq_iff d.name n)

pub write-IsNamed : (d : Doc) (ds : List Doc) → IsNamed ds → IsNamed (write d ds)
write-IsNamed d [] h = (refl, tt)
write-IsNamed d (e ∷ ds) h = elim (Bool-cases (str_eq e.name d.name)) [
  | inl q ↦ rw q (subst (λ n. has_doc n ds ≡ false) ((eq_iff e.name d.name).0 q) h.0, h.1)
  | inr q ↦ rw q (
    ground (arith, has_doc-write e.name d ds, eq_iff e.name d.name, eq_iff d.name e.name, h.0, q),
    write-IsNamed d ds h.1,
  )
]

-- The document written is found.
pub find_doc-write : (d : Doc) (ds : List Doc) → find_doc d.name (write d ds) ≡ some d
find_doc-write d [] = rw (str_eq_refl d.name) refl
find_doc-write d (e ∷ ds) = elim (Bool-cases (str_eq e.name d.name)) [
  | inl q ↦ rw q (rw (str_eq_refl d.name) refl)
  | inr q ↦ rw q (rw q (find_doc-write d ds))
]

-- The tasks that are done have their document.
abbrev pub IsBacked : List Doc → List Task → Type 0
IsBacked docs ts = All (λ t. t.finished ≡ true → has_doc t.doc docs ≡ true) ts

pub write-IsBacked :
    (d : Doc) (ds : List Doc) (ts : List Task)
    → IsBacked ds ts
    → IsBacked (write d ds) (mark_done d.name ts)
write-IsBacked d ds [] h = tt
write-IsBacked d ds (t ∷ ts) h = (
  elim (Bool-cases (str_eq t.doc d.name)) [
    | inl q ↦
        rw q (λ k.
          ground (arith, has_doc-write t.doc d ds, eq_iff t.doc d.name, eq_iff d.name t.doc, q))
    | inr q ↦ rw q (λ k. ground (arith, has_doc-write t.doc d ds, h.0 k))
  ],
  write-IsBacked d ds ts h.1,
)

-- The names of the result are documents.
abbrev pub IsResult : List Doc → List String → Type 0
IsResult docs ns = All (λ n. has_doc n docs ≡ true) ns

pub write-IsResult :
    (d : Doc) (ds : List Doc) (ns : List String) → IsResult ds ns → IsResult (write d ds) ns
write-IsResult d ds [] h = tt
write-IsResult d ds (n ∷ ns) h =
    (ground (arith, has_doc-write n d ds, h.0), write-IsResult d ds ns h.1)

pub existing-IsResult : (docs : List Doc) (ns : List String) → IsResult docs (existing docs ns)
existing-IsResult docs [] = tt
existing-IsResult docs (n ∷ ns) = elim (Bool-cases (has_doc (doc_name n) docs)) [
  | inl e ↦ rw e (e, existing-IsResult docs ns)
  | inr e ↦ rw e (existing-IsResult docs ns)
]
