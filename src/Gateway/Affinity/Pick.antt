-- ===== src/Gateway/Affinity/Pick.antt =====
-- What an affinity pick guarantees.
use phoneborg.Shared.{
  ℕ, ◌%◌, ◌≡◌, ◌≢◌, refl, subst, inl, inr, Bool, true, false, Option, none, some, List, [], ◌∷◌,
  String, str_eq, eq_iff, str_eq_refl, leb, lookup, lookup-insert, length, arith, Bool-cases,
  Option-cases, In,
}
use phoneborg.Gateway.Backend.{Backend, Request, non_hot, any_non_hot, bump}
use phoneborg.Gateway.Backend.Cool.{least_by-PicksCool}
use phoneborg.Gateway.Affinity.{
  Pin, Affinity, Decision, miss, spilled, prune, large_on, pick_fresh, is_usable, find_backend,
  Picked, repin, pick_pinned, pick_pruned, pick,
}

-- A pick is a candidate, and a cool one if there is any.
abbrev pub IsSafe : List Backend → Option Backend → Type 0
IsSafe c none = ⊥
IsSafe c (some r) = In r c × (any_non_hot c ≡ true → r.hot ≡ false)

-- The session is remembered on the node of the pick, as used now.
abbrev pub Remembers : String → ℕ → List (String × Pin) → Option Backend → Type 0
Remembers key now m none = ⊥
Remembers key now m (some r) =
    (p : Pin) × (lookup key m ≡ some p) × (p.node ≡ r.node_id) × (p.last ≡ now)

pub find_backend-In :
    (test : Backend → Bool) (r : Backend) (c : List Backend)
    → find_backend test c ≡ some r
    → In r c × (test r ≡ true)
find_backend-In test r [] e = absurd (ground arith)
find_backend-In test r (b ∷ bs) e = ground (arith, find_backend-In test r bs)

module _ (a : Affinity) (req : Request) (c : List Backend) (inflight : String → ℕ) (now : ℕ)
    (h : c ≢ []) where
  pick_fresh-IsSafe : (sessions : String → ℕ) → IsSafe c (pick_fresh a.rr c inflight sessions).1
  unfolding pick_fresh
  pick_fresh-IsSafe sessions =
      let (r, e, p) =
        least_by-PicksCool (λ b. (inflight b.node_id, sessions b.node_id))
          (bump a.rr % length (non_hot c)) c h in
      rw e (p.0, p.1)

  -- A safe pick, remembered for the key of the request.
  abbrev SafelyPinned : Picked → Type 0
  SafelyPinned r = IsSafe c r.backend × Remembers req.affinity_key now r.after.keys r.backend

  repin-SafelyPinned :
      (sessions : String → ℕ) (d : Decision) → SafelyPinned (repin a req c inflight sessions now d)
  unfolding repin
  repin-SafelyPinned sessions d = elim (Option-cases (pick_fresh a.rr c inflight sessions).1) [
    | inl e ↦ absurd (subst (IsSafe c) e (pick_fresh-IsSafe sessions))
    | inr (r, e) ↦
        let p : Pin = record {
          node = r.node_id;
          last = now;
          large = leb a.large_prompt req.prompt_bytes;
        } in
        rw (e, repin)
          (
            subst (IsSafe c) e (pick_fresh-IsSafe sessions),
            (
              p,
              rw (
                lookup-insert req.affinity_key req.affinity_key p a.keys,
                str_eq_refl req.affinity_key,
              ),
              refl,
              refl,
            ),
          )
  ]

  pick_pinned-SafelyPinned : (p : Pin) → SafelyPinned (pick_pinned a req c inflight now p)
  unfolding pick_pinned
  pick_pinned-SafelyPinned p = elim (Option-cases (find_backend (is_usable a p c inflight) c)) [
    | inl e ↦ rw (e, pick_pinned) (repin-SafelyPinned _ spilled)
    | inr (r, e) ↦
        let (i, t) = find_backend-In (is_usable a p c inflight) r c e in
        let q : Pin = record p { last = now } in
        rw (e, pick_pinned)
          (
            (i, ground arith),
            (
              q,
              rw (
                lookup-insert req.affinity_key req.affinity_key q a.keys,
                str_eq_refl req.affinity_key,
              ),
              ground (arith, eq_iff r.node_id p.node),
              refl,
            ),
          )
  ]

  pick_pruned-IsSafe :
      let r = pick_pruned a req c inflight now in
      IsSafe c r.backend
      × (req.affinity_key ≢ "" → Remembers req.affinity_key now r.after.keys r.backend)
  unfolding pick_pruned
  pick_pruned-IsSafe = elim (Bool-cases (str_eq req.affinity_key "")) [
    | inl e ↦
        rw (e, pick_pruned)
          (
            pick_fresh-IsSafe (λ node. large_on node a.keys),
            λ n. absurd (n ((eq_iff req.affinity_key "").0 e)),
          )
    | inr e ↦ elim (Option-cases (lookup req.affinity_key a.keys)) [
      | inl q ↦
          let s = repin-SafelyPinned (λ node. large_on node a.keys) miss in
          rw (e, q, pick_pruned) (s.0, λ _. s.1)
      | inr (p, q) ↦ let s = pick_pinned-SafelyPinned p in rw (e, q, pick_pruned) (s.0, λ _. s.1)
    ]
  ]

-- On any candidates, the affinity policy picks one of them, a hot one only if all are hot. A request
-- with a key leaves its session pinned to the picked node and marked as used now; this holds of
-- hits, misses and spills alike.
pub pick-IsSafe :
    (a : Affinity) (req : Request) (c : List Backend) (inflight : String → ℕ) (now : ℕ)
    → c ≢ []
    → let r = pick a req c inflight now in
      IsSafe c r.backend
      × (req.affinity_key ≢ "" → Remembers req.affinity_key now r.after.keys r.backend)
unfolding pick
pick-IsSafe a req c inflight now h = pick_pruned-IsSafe (prune a now) req c inflight now h
