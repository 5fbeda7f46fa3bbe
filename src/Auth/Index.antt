-- ===== src/Auth/Index.antt =====
-- The index from hashes to names, against the list of entries.
use phoneborg.Shared.{
  ◌≡◌, ◌≢◌, refl, ◌∙◌, inl, inr, not, Option, none, some, List, [], ◌∷◌, ◌++◌, String, str_eq,
  eq_iff, if◌then◌else◌, arith, Bool-cases, Option-cases, lookup, insert, lookup-insert, keep,
}
use phoneborg.Auth.{KeyEntry, StaticKeys, index_into}

-- The name of the last entry of a hash.
abbrev pub owner : String → List KeyEntry → Option String
owner h [] = none
owner h (e ∷ es) = elim (owner h es) [
  | some n ↦ some n
  | none ↦ if str_eq e.hash h then some e.name else none
]

abbrev pub or_else : Option String → Option String → Option String
or_else none b = b
or_else (some a) b = some a

index_into-owner :
    (h : String) (m : List (String × String)) (es : List KeyEntry)
    → lookup h (index_into m es) ≡ or_else (owner h es) (lookup h m)
index_into-owner h m [] = refl
index_into-owner h m (e ∷ es) = index_into-owner h (insert e.hash e.name m) es ∙ last (owner h es)
  where
    last :
        (o : Option String)
        → or_else o (lookup h (insert e.hash e.name m))
          ≡ or_else
              (elim o [ some n ↦ some n | none ↦ if str_eq e.hash h then some e.name else none ])
              (lookup h m)
    last (some n) = refl
    last none = ground (arith, lookup-insert e.hash h e.name m)

-- The index agrees with the entries.
abbrev pub IsIndexed : StaticKeys → Type 0
IsIndexed s = (h : String) → lookup h s.by_hash ≡ owner h s.entries

pub index_into-lookup : (h : String) (es : List KeyEntry) → lookup h (index_into [] es) ≡ owner h es
index_into-lookup h es = index_into-owner h [] es ∙ neutral (owner h es)
  where
    neutral : (o : Option String) → or_else o none ≡ o
    neutral none = refl
    neutral (some n) = refl

pub owner-append :
    (h : String) (es : List KeyEntry) (e : KeyEntry)
    → owner h (es ++ (e ∷ [])) ≡ (if str_eq e.hash h then some e.name else owner h es)
owner-append h [] e = refl
owner-append h (d ∷ es) e = elim (Bool-cases (str_eq e.hash h)) [
  | inl q ↦ rw (owner-append h es e) (rw q refl)
  | inr q ↦ rw (owner-append h es e) (rw q refl)
]

owner-keep-none :
    (h name : String) (es : List KeyEntry)
    → owner h es ≡ none
    → owner h (keep (λ e. not (str_eq e.name name)) es) ≡ none
owner-keep-none h name [] q = refl
owner-keep-none h name (e ∷ es) q = ground (arith, q, owner-keep-none h name es)

-- Without the entries of a name, that name owns nothing, and the other owners keep what they own.
pub owner-keep :
    (h name : String) (es : List KeyEntry)
    → (owner h (keep (λ e. not (str_eq e.name name)) es) ≢ some name)
      × ((n : String)
          → n ≢ name
          → owner h es ≡ some n
          → owner h (keep (λ e. not (str_eq e.name name)) es) ≡ some n)
owner-keep h name [] = (λ q. cc, λ n o q. absurd (ground (arith, q)))
owner-keep h name (e ∷ es) =
    let (out, stays) = owner-keep h name es in
    (
      ground (arith, out, eq_iff e.name name),
      λ n o q. elim (Option-cases (owner h es)) [
        | inr (k, f) ↦
            let found : owner h (keep (λ x. not (str_eq x.name name)) es) ≡ some n =
              stays n o (f ∙ (rw f at q)) in
            elim (Bool-cases (str_eq e.name name)) [
              | inl t ↦ rw (t, found) refl
              | inr t ↦ rw t (rw found refl)
            ]
        | inl f ↦ ground (arith, owner-keep-none h name es f, rw f at q, o, eq_iff e.name name)
      ],
    )
