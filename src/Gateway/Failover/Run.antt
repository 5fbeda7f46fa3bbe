-- ===== src/Gateway/Failover/Run.antt =====
-- What a whole request guarantees.
use phoneborg.Shared.{
  ℕ, zero, suc, ◌≡◌, ◌≢◌, refl, ◌⊎◌, inl, inr, Bool, true, false, some, List, [], ◌∷◌, String,
  str_eq, insert, In, arith, Bool-cases, Option-cases, if◌then◌else◌,
}
use phoneborg.Gateway.Backend.{Backend, Request}
use phoneborg.Gateway.Target.{Target, member}
use phoneborg.Gateway.Failover.{
  View, Policy, candidates, eligible, rejected, Reason, backends_failed, Served, choose_backend,
  try_backends, serve_target, turned_away,
}
use phoneborg.Gateway.Failover.Attempts.{
  candidates-In, eligible-In, IsSound, IsRun, finish-IsRun, settle-IsRun,
}

-- Failed backends are no reason to turn a request away.
turned_away-early :
    (t : Target) (est : ℕ) (v : View) (all : List Backend) (r : Reason)
    → turned_away t est v all ≡ some r
    → r ≢ backends_failed
unfolding turned_away
turned_away-early t est v [] r e = ground arith
turned_away-early t est v (b ∷ bs) r e = ground arith

module _ (p : Policy) (t : Target) (req : Request) (has_tools : Bool) (est : ℕ)
    (views : ℕ → View) where
  choose_backend-In :
      (s : p.State) (v : View) (c : List Backend)
      → c ≢ []
      → (r : Backend) × ((choose_backend p t req has_tools est views s v c).1 ≡ some r) × In r c
  unfolding choose_backend
  choose_backend-In s v [] h = absurd (h refl)
  choose_backend-In s v (b ∷ bs) h = elim (Bool-cases (str_eq t.node "")) [
    | inr e ↦ (b, rw e, inl refl)
    | inl e ↦ let (r, q, i, _) = p.choose_In s req (b ∷ bs) v.inflight v.now h in (r, rw e q, i)
  ]

  cands : ℕ → List (String × Bool) → List Backend
  cands i tried = candidates (views i) (eligible t has_tools (views i)) tried est

  cands-IsSound :
      (i : ℕ) (tried : List (String × Bool)) (b : Backend)
      → In b (cands i tried)
      → IsSound t est (record { view = views i; backend = b; outcome = (views i).forward b })
        × (member b.node_id tried ≡ false)
  unfolding cands
  cands-IsSound i tried b j =
      let (k, skip) = candidates-In (views i) (eligible t has_tools (views i)) tried est b j in
      let (present, live, reached) = eligible-In t has_tools (views i) b k in
      (
        record {
          present = present;
          live = live;
          reached = reached;
          context = ground (arith, skip);
          room = ground (arith, skip);
          happened = refl;
        },
        ground (arith, skip),
      )

  -- The loop, on any number of attempts.
  try_backends-IsRun :
      (n i : ℕ) (s : p.State) (tried : List (String × Bool))
      → IsRun t est tried n (try_backends p t req has_tools est views n i s tried)
  unfolding try_backends
  try_backends-IsRun zero i s tried = finish-IsRun t est tried zero
  try_backends-IsRun (suc n) i s tried =
      go (λ s' tried'. try_backends-IsRun n (suc i) s' tried') (cands i tried)
        (unfold cands in refl)
    where
      go :
          ((s' : p.State) (tried' : List (String × Bool))
            → IsRun t est tried' n (try_backends p t req has_tools est views n (suc i) s' tried'))
          → (c : List Backend) → candidates (views i) (eligible t has_tools (views i)) tried est ≡ c
          → IsRun t est tried (suc n) (try_backends p t req has_tools est views (suc n) i s tried)
      go ih [] e = rw (e, try_backends) (finish-IsRun t est tried (suc n))
      go ih (c ∷ cs) e =
          let (b, q, j) =
            choose_backend-In s (views i)
              (candidates (views i) (eligible t has_tools (views i)) tried est) (λ k. cc) in
          let (sound, untried) = cands-IsSound i tried b (unfold cands in j) in
          rw (e, q, try_backends)
            (settle-IsRun t est n tried (views i) b ((views i).forward b) _ sound untried
              (ih _ (insert b.node_id true tried)))

  -- A request that is turned away before the loop: no attempt was made, and the reason is one of
  -- the early checks.
  abbrev pub IsEarly : Served → Type 0
  IsEarly r =
      (r.attempts ≡ [])
      × (r.marked ≡ [])
      × ((e : Reason) × (r.reply ≡ rejected e) × (e ≢ backends_failed))

  -- How many attempts a request may make: `MaxAttempts`, and one for a node target.
  abbrev pub allowance : ℕ → ℕ
  allowance max_attempts = if str_eq t.node "" then max_attempts else 1

  -- Every request, on any cluster that changes as it likes, either is turned away before the first
  -- attempt for a reason other than failed backends, or runs the loop: it makes at most
  -- `MaxAttempts` attempts, and at most one for a node target; each is on a backend that is then
  -- present, not drained, reached by the target, large enough for the estimated prompt and below
  -- its limit; no node is tried twice; exactly the nodes that failed for another reason than a too
  -- long prompt are cooled down; and the reply is busy without an attempt, or tells how the
  -- attempts ended. A policy never fails to pick.
  pub serve_target-IsRun :
      (max_attempts : ℕ) (s : p.State)
      → let r = serve_target p t req has_tools est views max_attempts s in
        IsEarly r ⊎ IsRun t est [] (allowance max_attempts) r
  unfolding serve_target
  serve_target-IsRun max_attempts s =
      elim (Option-cases (turned_away t est (views 0) (eligible t has_tools (views 0)))) [
        | inl e ↦ rw (e, serve_target) (inr (try_backends-IsRun _ 1 s []))
        | inr (r, e) ↦
            rw (e, serve_target)
              (inl (
                refl,
                refl,
                (r, refl, turned_away-early t est (views 0) (eligible t has_tools (views 0)) r e),
              ))
      ]
