-- ===== src/Auth/Keys.antt =====
-- What the key store guarantees.
use phoneborg.Shared.{
  ℕ, ◌≡◌, ◌≢◌, refl, inl, inr, Bool, true, not, ◌&&◌, Option, none, some, List, [], ◌∷◌, ◌++◌,
  String, str_eq, eq_iff, arith, Bool-cases, Option-cases, lookup, lookup-insert, keep, length,
  ◌==◌, str_eq_refl,
}
use phoneborg.Auth.{
  KeyEntry, StaticKeys, Headers, key_of, persist, has_name, enforce, revoke, reload, set_entries,
  load_keys, key_owner, authenticate_key, create_key, valid_key_name,
}
use phoneborg.Auth.Index.{owner, IsIndexed, index_into-lookup, owner-append, owner-keep}

-- What happens to a store: keys are created and revoked, with a file that can be written or not,
-- the file is read again, and keys are enforced.
pub data Op : Type 0 where
  creates : Bool → String → String → ℕ → Op
  revokes : Bool → String → Op
  reloads : Option (List KeyEntry) → Op
  enforces : Op

persist-enforced :
    (w : Bool) (s t : StaticKeys) (es : List KeyEntry)
    → persist w s es ≡ some t
    → t.enforced ≡ s.enforced
persist-enforced w s t es e = ground (arith, e)

revoke-by_hash :
    (w : Bool) (s : StaticKeys) (name k : String)
    → (revoke w s name).1 ≡ none
    → lookup k (revoke w s name).0.by_hash
      ≡ owner k (keep (λ e. not (str_eq e.name name)) s.entries)
unfolding revoke
revoke-by_hash w s name k ok =
    let rest = keep (λ e. not (str_eq e.name name)) s.entries in
    elim (Bool-cases (length rest == length s.entries)) [
      | inl e ↦ absurd (ground (arith, rw e at ok))
      | inr e ↦ elim (Option-cases (persist w s rest)) [
        | inl q ↦ absurd (ground (arith, rw (e, q) at ok))
        | inr (t, q) ↦ rw e (rw q (index_into-lookup k rest))
      ]
    ]

module _ (hash_key : String → String) where
  unfoldable pub step : StaticKeys → Op → StaticKeys
  step s (creates w name key now) = (create_key hash_key w s name key now).0
  step s (revokes w name) = (revoke w s name).0
  step s (reloads read) = (reload s read).0
  step s enforces = (enforce s).0

  unfoldable pub run : StaticKeys → List Op → StaticKeys
  unfolding step
  run s [] = s
  run s (op ∷ ops) = run (step s op) ops

  create_key-IsIndexed :
      (w : Bool) (s : StaticKeys) (name key : String) (now : ℕ)
      → IsIndexed s
      → IsIndexed (create_key hash_key w s name key now).0
  unfolding create_key
  create_key-IsIndexed w s name key now h = elim (Bool-cases (valid_key_name name)) [
    | inr v ↦ rw v h
    | inl v ↦ elim (Bool-cases (has_name name s.entries)) [
      | inl n ↦ rw v (rw n h)
      | inr n ↦
          let e : KeyEntry = record { name = name; hash = hash_key key; created = some now } in
          elim (Option-cases (persist w s (s.entries ++ (e ∷ [])))) [
            | inl q ↦ rw v (rw n (rw q h))
            | inr (t, q) ↦ rw v (
                rw n (
                  rw q (λ k. ground (
                    arith,
                    lookup-insert (hash_key key) k name s.by_hash,
                    h k,
                    owner-append k s.entries e,
                  ))))
          ]
    ]
  ]

  revoke-IsIndexed :
      (w : Bool) (s : StaticKeys) (name : String) → IsIndexed s → IsIndexed (revoke w s name).0
  unfolding revoke
  revoke-IsIndexed w s name h =
      let rest = keep (λ e. not (str_eq e.name name)) s.entries in
      elim (Bool-cases (length rest == length s.entries)) [
        | inl e ↦ rw e h
        | inr e ↦ elim (Option-cases (persist w s rest)) [
          | inl q ↦ rw e (rw q h)
          | inr (t, q) ↦ rw e (rw q (λ k. index_into-lookup k rest))
        ]
      ]

  reload-IsIndexed :
      (s : StaticKeys) (read : Option (List KeyEntry)) → IsIndexed s → IsIndexed (reload s read).0
  unfolding reload set_entries
  reload-IsIndexed s none h = elim (Option-cases s.file) [
    | inl e ↦ rw (e, reload) h
    | inr (o, e) ↦ rw (e, reload) h
  ]
  reload-IsIndexed s (some es) h = elim (Option-cases s.file) [
    | inl e ↦ rw (e, reload) h
    | inr (o, e) ↦ rw (e, reload) (λ k. index_into-lookup k es)
  ]

  enforce-IsIndexed : (s : StaticKeys) → IsIndexed s → IsIndexed (enforce s).0
  unfolding enforce
  enforce-IsIndexed s h = elim (Bool-cases (length s.entries == 0 && not s.enforced)) [
    | inl e ↦ rw e h
    | inr e ↦ rw e h
  ]

  step-IsIndexed : (s : StaticKeys) (op : Op) → IsIndexed s → IsIndexed (step s op)
  unfolding step
  step-IsIndexed s (creates w name key now) h = create_key-IsIndexed w s name key now h
  step-IsIndexed s (revokes w name) h = revoke-IsIndexed w s name h
  step-IsIndexed s (reloads read) h = reload-IsIndexed s read h
  step-IsIndexed s enforces h = enforce-IsIndexed s h

  run-IsIndexed : (s : StaticKeys) (ops : List Op) → IsIndexed s → IsIndexed (run s ops)
  unfolding run
  run-IsIndexed s [] h = h
  run-IsIndexed s (op ∷ ops) h = run-IsIndexed (step s op) ops (step-IsIndexed s op h)

  load_keys-IsIndexed : (es : List KeyEntry) → IsIndexed (load_keys es)
  unfolding load_keys
  load_keys-IsIndexed es = λ k. index_into-lookup k es

  -- In any history of a store read from a file, a name that is revoked authenticates no request,
  -- whatever its headers, and whoever else a request authenticates as before the call it does
  -- behind it, if the call succeeds.
  pub revoke-key_owner :
      (es : List KeyEntry) (ops : List Op) (w : Bool) (name : String)
      → let s = run (load_keys es) ops in
        (revoke w s name).1 ≡ none
        → (h : Headers)
        → (key_owner hash_key (revoke w s name).0 h ≢ some name)
          × ((n : String)
              → n ≢ name
              → key_owner hash_key s h ≡ some n
              → key_owner hash_key (revoke w s name).0 h ≡ some n)
  unfolding key_owner
  revoke-key_owner es ops w name ok h =
      let s = run (load_keys es) ops in
      let k = hash_key (key_of h) in
      let index = run-IsIndexed (load_keys es) ops (load_keys-IsIndexed es) in
      let (out, stays) = owner-keep k name s.entries in
      elim (Bool-cases (str_eq (key_of h) "")) [
        | inl e ↦ rw e ((λ q. cc), λ n o q. absurd (ground (arith, q)))
        | inr e ↦ rw (e, revoke-by_hash w s name k ok, index k) (out, λ n o q. stays n o q)
      ]

  -- A key that was just created authenticates its request as the name it was created for, in any
  -- store, if the call succeeds and the key is not empty.
  create_key-key_owner :
      (w : Bool) (s : StaticKeys) (name key : String) (now : ℕ) (h : Headers)
      → key ≢ ""
      → key_of h ≡ key
      → (create_key hash_key w s name key now).1.1 ≡ none
      → key_owner hash_key (create_key hash_key w s name key now).0 h ≡ some name
  unfolding key_owner create_key
  create_key-key_owner w s name key now h k same ok = elim (Bool-cases (valid_key_name name)) [
    | inr v ↦ absurd (ground (arith, rw v at ok))
    | inl v ↦ elim (Bool-cases (has_name name s.entries)) [
      | inl n ↦ absurd (ground (arith, rw (v, n) at ok))
      | inr n ↦
          let e : KeyEntry = record { name = name; hash = hash_key key; created = some now } in
          elim (Option-cases (persist w s (s.entries ++ (e ∷ [])))) [
            | inl q ↦ absurd (ground (arith, rw (v, n, q) at ok))
            | inr (t, q) ↦
                rw (v, n, q, same)
                  (ground (
                    arith,
                    k,
                    eq_iff key "",
                    lookup-insert (hash_key key) (hash_key key) name s.by_hash,
                    str_eq_refl (hash_key key),
                  ))
          ]
    ]
  ]

  step-enforced : (s : StaticKeys) (op : Op) → s.enforced ≡ true → (step s op).enforced ≡ true
  unfolding step create_key revoke reload set_entries enforce
  step-enforced s (creates w name key now) h =
      let e : KeyEntry = record { name = name; hash = hash_key key; created = some now } in
      ground (arith, h)
  step-enforced s (revokes w name) h = ground (arith, h)
  step-enforced s (reloads read) h = ground (arith, h)
  step-enforced s enforces h = ground (arith, h)

  run-enforced : (s : StaticKeys) (ops : List Op) → s.enforced ≡ true → (run s ops).enforced ≡ true
  unfolding run
  run-enforced s [] h = h
  run-enforced s (op ∷ ops) h = run-enforced (step s op) ops (step-enforced s op h)

  enforced-authenticate_key :
      (s : StaticKeys) (h : Headers) (o : Option String)
      → s.enforced ≡ true
      → key_owner hash_key s h ≡ o
      → authenticate_key hash_key s h ≡ o
  unfolding authenticate_key
  enforced-authenticate_key s h none e q = rw (q, authenticate_key) (rw e refl)
  enforced-authenticate_key s h (some n) e q = rw (q, authenticate_key) refl

  -- Once keys are enforced no operation takes it back: a request is served as the owner of its key,
  -- and refused without one.
  run-authenticate_key :
      (s : StaticKeys) (ops : List Op)
      → s.enforced ≡ true
      → (h : Headers) → authenticate_key hash_key (run s ops) h ≡ key_owner hash_key (run s ops) h
  run-authenticate_key s ops e h =
      enforced-authenticate_key (run s ops) h (key_owner hash_key (run s ops) h)
        (run-enforced s ops e) refl
