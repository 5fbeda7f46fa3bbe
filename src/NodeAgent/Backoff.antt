-- ===== src/NodeAgent/Backoff.antt =====
-- A failed switch is tried again after its backoff.
use phoneborg.Shared.{
  ℕ, ◌<◌, ◌≤◌, ◌+◌, ◌*◌, min, ◌≡◌, ◌⊎◌, inl, inr, refl, ap, ◌∙◌, Bool, true, false, not, ◌&&◌,
  String, str_eq, str_eq_refl, ◌==◌, leb, if◌then◌else◌, if_true, if_false, arith, ℤ, pos, negsuc,
  Bool-cases,
}
use phoneborg.NodeAgent.{
  DesiredRuntime, wanted, Manager, is_same, should_retry_now, same_desired, has_grown,
}
use phoneborg.NodeAgent.Switch.{
  switch_model, Phone, fail, leave_rpc, restored, enter_rpc, reconcile_model, reconcile,
}

eq_self : (n : ℕ) → (n == n) ≡ true
eq_self n = ground arith

and_true : (a b : Bool) → a ≡ true → b ≡ true → (a && b) ≡ true
and_true a b e f = ground (arith, e, f)

same_self : (d : DesiredRuntime) → same_desired d d ≡ true
unfolding same_desired
same_self d =
    rw
      (
        str_eq_refl d.model_id,
        str_eq_refl d.url,
        str_eq_refl d.sha256,
        str_eq_refl d.kv_type,
        str_eq_refl d.mode,
        eq_self d.size_bytes,
        eq_self d.resident_bytes,
        eq_self d.ctx_size,
        eq_self d.slots,
        eq_self d.layers,
        eq_self d.kv_heads,
        eq_self d.head_dim,
      )
      refl

-- The budget has grown by more than a tenth since a failure with a positive one.
abbrev pub Grown : ℤ → ℤ → Type 0
Grown (pos n) (pos b) = (0 < n) × (11 * n < 10 * b)
Grown _ _ = ⊥

Grown-has_grown : (failed budget : ℤ) → Grown failed budget → has_grown failed budget ≡ true
Grown-has_grown (pos n) (pos b) h = ground (arith, h.0, h.1)
Grown-has_grown (pos n) (negsuc b) h = absurd h
Grown-has_grown (negsuc n) b h = absurd h

not-Grown : (failed budget : ℤ) → ¬ (Grown failed budget) → has_grown failed budget ≡ false
not-Grown (pos n) (pos b) h = elim (Bool-cases (has_grown (pos n) (pos b))) [
  | inr e ↦ e
  | inl e ↦ absurd (h (ground (arith, e), ground (arith, e)))
]
not-Grown (pos n) (negsuc b) h = ground arith
not-Grown (negsuc n) b h = refl

-- The failed switch may be tried again.
abbrev pub IsDue : ℕ → ℕ → ℤ → ℤ → Type 0
IsDue now retry_at failed budget = (retry_at ≤ now) ⊎ Grown failed budget

due :
    (now retry_at : ℕ) (failed budget : ℤ)
    → IsDue now retry_at failed budget
    → should_retry_now now retry_at failed budget ≡ true
unfolding should_retry_now
due now retry_at failed budget (inl h) = ground (arith, h)
due now retry_at failed budget (inr g) =
    let e = Grown-has_grown failed budget g in ground (arith, e)

not_due :
    (now retry_at : ℕ) (failed budget : ℤ)
    → ¬ (IsDue now retry_at failed budget)
    → should_retry_now now retry_at failed budget ≡ false
unfolding should_retry_now
not_due now retry_at failed budget h =
    let e = not-Grown failed budget (λ g. h (inr g)) in
    let late : leb retry_at now ≡ false = elim (Bool-cases (leb retry_at now)) [
      | inr f ↦ f
      | inl t ↦ absurd (h (inl (ground (arith, t))))
    ] in
    ground (arith, e, late)

held : (same retry : Bool) → same ≡ true → retry ≡ false → (same && not retry) ≡ true
held same retry e f = ground (arith, e, f)

not_held : (same retry : Bool) → retry ≡ true → (same && not retry) ≡ false
not_held same retry f = ground (arith, f)

-- A try of the switch, as the manager starts it.
abbrev pub tried : Phone → DesiredRuntime → Manager → Manager
tried w d m =
    record (switch_model w d (record m { switching = true; target = d.model_id; last_err = "" })) {
      switching = false;
    }

-- A switch failed, of a manager that serves. When the same desired state comes again: if the backoff is
-- over, or the budget has grown by more than a tenth since the failure, the switch is tried again, and
-- else nothing changes. The backoff runs from the time of the failure; it is 30 seconds after the first
-- failure of a desired state, and twice the one before, but at most ten minutes, after each further one.
pub fail-reconcile :
    (w next : Phone) (d : DesiredRuntime) (err : String) (m : Manager)
    → str_eq d.mode "rpc" ≡ false
    → m.rpc ≡ false
    → is_same m.last_applied d ≡ false
    → let k = fail w d err m in
      (IsDue next.now k.retry_at w.failed_budget next.budget
        → reconcile next (wanted d) k ≡ tried next d k)
      × (¬ (IsDue next.now k.retry_at w.failed_budget next.budget)
          → reconcile next (wanted d) k ≡ k)
      × (k.retry_at ≡ w.failed_at + k.backoff)
      × (is_same m.last_failed d ≡ false → k.backoff ≡ 30)
      × ((fail next d err k).backoff ≡ min (k.backoff * 2) 600)
unfolding reconcile leave_rpc reconcile_model fail
fail-reconcile w next d err m mode rpc new =
    let k = fail w d err m in
    let retry = should_retry_now next.now k.retry_at w.failed_budget next.budget in
    let go : reconcile next (wanted d) k
        ≡ (if same_desired d d && not retry then k else tried next d k) =
      if_false (str_eq d.mode "rpc") (enter_rpc next d k) (reconcile_model next d (leave_rpc k))
        mode
      ∙ ap (reconcile_model next d) (if_false k.rpc (restored k k.pre_rpc) k rpc)
      ∙ if_false (is_same m.last_applied d) k _ new in
    (
      λ h.
          go
          ∙ if_false (same_desired d d && not retry) k (tried next d k) (
              not_held (same_desired d d) retry
                (due next.now k.retry_at w.failed_budget next.budget h)),
      λ h.
          go
          ∙ if_true (same_desired d d && not retry) k (tried next d k) (
              held (same_desired d d) retry (same_self d)
                (not_due next.now k.retry_at w.failed_budget next.budget h)),
      refl,
      λ n. if_false (is_same m.last_failed d) _ _ n,
      if_true (same_desired d d) _ _ (same_self d),
    )
