-- ===== src/NodeAgent/Keeps.antt =====
-- A switch never costs a phone the model that it serves.
use phoneborg.Shared.{
  ℕ, ◌≡◌, refl, ap, sym, ◌∙◌, ◌⊎◌, true, false, not, ◌&&◌, Option, none, some, String, str_eq,
  if◌then◌else◌, if_both, if_true, if_false, subst, Bool-cases, Option-cases, inl, inr,
}
use phoneborg.NodeAgent.{
  DesiredRuntime, wanted, Server, llama, Manager, SizingPlan, plan_memory, is_same,
  should_retry_now,
}
use phoneborg.NodeAgent.Switch.{
  Phone, path_of, fail, set_sub_state, clear_runtime, file_of, fallback, applied, finish,
  size_and_load, fetch, switch_model, leave_rpc, restored, reconcile_model, reconcile,
  reset_backoff, is_serving, unhealthy,
}
use phoneborg.NodeAgent.Invariant.{sized, finish_cases}
use phoneborg.NodeAgent.Reached.{after_fetch, switch_cases}

-- The server and its model stay.
abbrev pub Stays : Manager → Manager → Type 0
Stays m k = (k.runtime ≡ m.runtime) × (k.current ≡ m.current)

-- The wanted model runs, as it was sized for the budget, and is answering.
abbrev pub Serves : Phone → DesiredRuntime → Manager → Type 0
Serves w d k =
    (size : ℕ) × (plan : SizingPlan) × (w.is_healthy ≡ true)
    × (w.file_size ≡ some size)
    × (plan_memory d size w.plan_budget ≡ some plan)
    × (k.runtime ≡ some (llama (path_of w d.model_id) plan.ctx_size plan.slots plan.kv_type))
    × (k.current ≡ d.model_id)
    × (k.last_applied ≡ some d)
    × (k.last_err ≡ "")

fallback-Stays :
    (w : Phone) (m : Manager) (s : Server)
    → m.runtime ≡ some s
    → w.has_previous_file (file_of s) ≡ true
    → Stays m (fallback w m)
unfolding fallback
fallback-Stays w m s e f = subst (Stays m) (sym same) (refl, refl)
  where
    same :
        (elim m.runtime as (λ _. Manager) [
          | none ↦ clear_runtime m
          | some s ↦ if w.has_previous_file (file_of s) then m else clear_runtime m
        ])
        ≡ m
    same =
        ap
          (λ o. elim o as (λ _. Manager) [
            | none ↦ clear_runtime m
            | some s ↦ if w.has_previous_file (file_of s) then m else clear_runtime m
          ])
          e
        ∙ if_true (w.has_previous_file (file_of s)) m (clear_runtime m) f

module _ (w : Phone) (d : DesiredRuntime) (m : Manager) (s : Server) (runs : m.runtime ≡ some s)
    (there : w.has_previous_file (file_of s) ≡ true) where
  abbrev Ends : Manager → Type 0
  Ends k = Stays m k ⊎ Serves w d k

  fail-Stays : (err : String) (k : Manager) → Stays m k → Stays m (fail w d err k)
  unfolding fail
  fail-Stays err k h = h

  finish-Ends :
      (size : ℕ) (plan : SizingPlan) (k : Manager)
      → w.file_size ≡ some size
      → plan_memory d size w.plan_budget ≡ some plan
      → Stays m k
      → Ends (finish w d plan k)
  unfolding set_sub_state reset_backoff
  finish-Ends size plan k f p h =
      subst Ends (sym (finish_cases w d plan k)) (elim (Bool-cases w.is_healthy) [
        | inl e ↦
            subst Ends (sym (if_true w.is_healthy _ _ e))
              (inr (size, plan, e, f, p, refl, refl, refl, refl))
        | inr e ↦
            let kept = fallback-Stays w (sized plan k) s (h.0 ∙ runs) there in
            subst Ends (sym (if_false w.is_healthy _ _ e))
              (inl (fail-Stays unhealthy (fallback w (sized plan k)) (kept.0 ∙ h.0, kept.1 ∙ h.1)))
      ])

  size_and_load-Ends :
      (size : ℕ) (k : Manager)
      → w.file_size ≡ some size
      → Stays m k
      → Ends (size_and_load w d size k)
  unfolding size_and_load reset_backoff
  size_and_load-Ends size k f h = elim (Option-cases (plan_memory d size w.plan_budget)) [
    | inr (plan, p) ↦ rw (p, size_and_load) (finish-Ends size plan k f p h)
    | inl p ↦
        rw (p, size_and_load)
          (if_both Ends (is_serving d.model_id k)
            (applied d (record k { resident_bytes = d.resident_bytes }))
            (fail w d "model does not fit" k) (inl h) (inl (fail-Stays "model does not fit" k h)))
  ]

  after_fetch-Ends :
      (k : Manager) (f : Option ℕ) (o : Option String)
      → w.file_size ≡ f
      → Stays m k
      → Ends (after_fetch w d k f o)
  after_fetch-Ends k f (some e) q h = inl (fail-Stays e k h)
  after_fetch-Ends k none none q h = inl (fail-Stays "stat" k h)
  after_fetch-Ends k (some size) none q h = size_and_load-Ends size k q h

  fetch-Stays : (k : Manager) → Stays m k → Stays m (fetch w d k).0
  unfolding fetch set_sub_state
  fetch-Stays k h =
      if_both (λ (x : Manager × Option String). Stays m x.0)
        (not (str_eq d.sha256 "") && w.sha_matches) (k, none)
        (
          set_sub_state "downloading" k,
          elim w.room_error [ some e ↦ some e | none ↦ w.download_error ],
        )
        h h

  switch_model-Ends : (k : Manager) → Stays m k → Ends (switch_model w d k)
  switch_model-Ends k h =
      subst Ends (sym (switch_cases w d k))
        (after_fetch-Ends (fetch w d k).0 w.file_size (fetch w d k).1 refl (fetch-Stays k h))

  reconcile_model-Ends : Ends (reconcile_model w d m)
  unfolding reconcile_model
  reconcile_model-Ends =
      let begun = record m { switching = true; target = d.model_id; last_err = "" } in
      let next = record (switch_model w d begun) { switching = false } in
      let waits =
        is_same m.last_failed d
        && not (should_retry_now w.now m.retry_at m.last_failed_budget w.budget) in
      if_both Ends (is_same m.last_applied d) m (if waits then m else next) (inl (refl, refl))
        (if_both Ends waits m next (inl (refl, refl)) (switch_model-Ends begun (refl, refl)))

-- A phone that serves a model, with the model's file still on disk, is asked for another: whatever goes
-- wrong (room, download, the file, the memory, the new server), the old server runs on, or again, with
-- its model; and if the server changes, the wanted model answers, in a configuration that was sized for
-- the budget, and is the one applied, without an error.
pub reconcile-Serves :
    (w : Phone) (d : DesiredRuntime) (m : Manager) (s : Server)
    → str_eq d.mode "rpc" ≡ false
    → m.rpc ≡ false
    → m.runtime ≡ some s
    → w.has_previous_file (file_of s) ≡ true
    → Stays m (reconcile w (wanted d) m) ⊎ Serves w d (reconcile w (wanted d) m)
unfolding reconcile leave_rpc
reconcile-Serves w d m s mode rpc runs there =
    let P : Manager → Type 0 = λ k. Stays m k ⊎ Serves w d k in
    let stays : leave_rpc m ≡ m = if_false m.rpc (restored m m.pre_rpc) m rpc in
    subst P (sym (if_false (str_eq d.mode "rpc") _ (reconcile_model w d (leave_rpc m)) mode))
      (subst (λ k. P (reconcile_model w d k)) (sym stays) (reconcile_model-Ends w d m s runs there))
