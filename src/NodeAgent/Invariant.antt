-- ===== src/NodeAgent/Invariant.antt =====
-- What holds of the manager between two orders.
use Prim.Native.String.{◌++◌}
use phoneborg.Shared.{
  ℕ, ◌≡◌, refl, ◌⊎◌, ◌≤◌, ◌*◌, min, Bool, true, false, Option, none, some, String, str_eq, eq_iff,
  if◌then◌else◌, if_both, Bool-cases, Option-cases, inl, inr, arith,
}
use phoneborg.NodeAgent.{
  DesiredRuntime, Server, llama, ggml_rpc, PreRpc, Manager, SizingPlan, plan_memory, min_backoff,
  max_backoff, is_same,
}
use phoneborg.NodeAgent.Switch.{
  Phone, reset_backoff, fail, set_sub_state, is_serving, clear_runtime, file_of, fallback, applied,
  finish, size_and_load, path_of, unhealthy,
}

abbrev pub is_llama : Option Server → Bool
is_llama none = true
is_llama (some (llama path ctx slots kv)) = true
is_llama (some ggml_rpc) = false

-- If a server runs, its model is the one last applied.
abbrev pub Runs : Option DesiredRuntime → Option Server → String → Type 0
Runs none s current = Unit {0}
Runs (some d) none current = Unit {0}
Runs (some d) (some s) current = current ≡ d.model_id

abbrev pub IsBackoff : Option DesiredRuntime → ℕ → Type 0
IsBackoff none b = b ≡ 0
IsBackoff (some d) b = (min_backoff ≤ b) × (b ≤ max_backoff)

next-IsBackoff :
    (o : Option DesiredRuntime) (d : DesiredRuntime) (b : ℕ)
    → IsBackoff o b
    → IsBackoff (some d) (if is_same o d then min (b * 2) max_backoff else min_backoff)
next-IsBackoff none d b h = (omega arith, omega arith)
next-IsBackoff (some e) d b h = ground (arith, h)

Runs-none : (o : Option DesiredRuntime) (c : String) → Runs o none c
Runs-none none c = tt
Runs-none (some d) c = tt

-- The state with the new server.
abbrev pub loaded : Phone → DesiredRuntime → SizingPlan → Manager → Manager
loaded w d plan m = record m {
  runtime = some (llama (path_of w d.model_id) plan.ctx_size plan.slots plan.kv_type);
  current = d.model_id;
  resident_bytes = d.resident_bytes;
}

abbrev pub sized : SizingPlan → Manager → Manager
sized plan m = set_sub_state "loading" (record m { ram_bytes = plan.ram_estimate_bytes })

-- `finish` by the health of the new server.
pub finish_cases :
    (w : Phone) (d : DesiredRuntime) (plan : SizingPlan) (m : Manager)
    → finish w d plan m ≡ (
        if w.is_healthy
        then applied d (loaded w d plan (sized plan m))
        else fail w d unhealthy (fallback w (sized plan m)))
unfolding finish
finish_cases w d plan m = elim (Bool-cases w.is_healthy) [ inl e ↦ rw e refl | inr e ↦ rw e refl ]

Runs-current :
    (d : DesiredRuntime) (o : Option Server) (c : String)
    → str_eq c d.model_id ≡ true
    → Runs (some d) o c
Runs-current d none c e = tt
Runs-current d (some s) c e = (eq_iff c d.model_id).0 e

serving_current : (id : String) (m : Manager) → is_serving id m ≡ true → str_eq m.current id ≡ true
unfolding is_serving
serving_current id m e = ground (arith, e)

-- The static model's file and name are given.
module _ (static : String × String) where
  -- The file that a server runs is the one of the current model: the static one, or the one of that id in
  -- a directory. With no server there is no current model.
  abbrev pub Hosts : Option Server → String → Type 0
  Hosts none current = current ≡ ""
  Hosts (some (llama path ctx slots kv)) current =
      ((path ≡ static.0) × (current ≡ static.1))
      ⊎ ((dir : String) × (path ≡ dir ++ "/" ++ current ++ ".gguf"))
  Hosts (some ggml_rpc) current = ⊥

  abbrev pub Serving : Manager → Type 0
  Serving m =
      (m.rpc ≡ false)
      × (is_llama m.runtime ≡ true)
      × Runs m.last_applied m.runtime m.current
      × Hosts m.runtime m.current
      × IsBackoff m.last_failed m.backoff

  -- What runs before Big Brain can be restored.
  abbrev pub Restores : Option PreRpc → Type 0
  Restores none = Unit {0}
  Restores (some p) =
      (is_llama (some p.server) ≡ true)
      × Runs p.last_applied (some p.server) p.current
      × Hosts (some p.server) p.current

  abbrev pub InRpc : Manager → Type 0
  InRpc m =
      (m.rpc ≡ true)
      × (m.runtime ≡ some ggml_rpc)
      × (m.current ≡ "")
      × Restores m.pre_rpc
      × IsBackoff m.last_failed m.backoff

  abbrev pub IsSettled : Manager → Type 0
  IsSettled m = (m.switching ≡ false) × (Serving m ⊎ InRpc m)

  pub fail-Serving :
      (w : Phone) (d : DesiredRuntime) (err : String) (m : Manager)
      → Serving m
      → Serving (fail w d err m)
  unfolding fail
  fail-Serving w d err m (r, l, u, i, b) = (r, l, u, i, next-IsBackoff m.last_failed d m.backoff b)

  applied-Serving :
      (d : DesiredRuntime) (m : Manager)
      → Serving m
      → Runs (some d) m.runtime m.current
      → Serving (applied d m)
  unfolding reset_backoff
  applied-Serving d m (r, l, u, i, b) h = (r, l, h, i, refl)

  clear_runtime-Serving : (m : Manager) → Serving m → Serving (clear_runtime m)
  unfolding clear_runtime
  clear_runtime-Serving m (r, l, u, i, b) = (r, refl, Runs-none m.last_applied "", refl, b)

  fallback-Serving : (w : Phone) (m : Manager) → Serving m → Serving (fallback w m)
  unfolding fallback
  fallback-Serving w m h =
      elim m.runtime
        as (λ o. Serving (elim o [
          | none ↦ clear_runtime m
          | some s ↦ if w.has_previous_file (file_of s) then m else clear_runtime m
        ])) [
          | none ↦ clear_runtime-Serving m h
          | some s ↦
              if_both Serving (w.has_previous_file (file_of s)) m (clear_runtime m) h
                (clear_runtime-Serving m h)
        ]

  loaded-Serving :
      (w : Phone) (d : DesiredRuntime) (plan : SizingPlan) (m : Manager)
      → Serving m
      → Serving (applied d (loaded w d plan m))
  unfolding reset_backoff
  loaded-Serving w d plan m (r, l, u, i, b) = (r, refl, refl, inr (w.models_dir, refl), refl)

  sized-Serving : (plan : SizingPlan) (m : Manager) → Serving m → Serving (sized plan m)
  unfolding set_sub_state
  sized-Serving plan m h = h

  finish-Serving :
      (w : Phone) (d : DesiredRuntime) (plan : SizingPlan) (m : Manager)
      → Serving m
      → Serving (finish w d plan m)
  finish-Serving w d plan m h =
      let before = sized-Serving plan m h in
      rw (finish_cases w d plan m) (
        if_both Serving w.is_healthy (applied d (loaded w d plan (sized plan m)))
          (fail w d unhealthy (fallback w (sized plan m)))
          (loaded-Serving w d plan (sized plan m) before)
          (fail-Serving w d unhealthy (fallback w (sized plan m))
            (fallback-Serving w (sized plan m) before)))

  pub size_and_load-Serving :
      (w : Phone) (d : DesiredRuntime) (size : ℕ) (m : Manager)
      → Serving m
      → Serving (size_and_load w d size m)
  unfolding size_and_load
  size_and_load-Serving w d size m h = elim (Option-cases (plan_memory d size w.plan_budget)) [
    | inr (plan, e) ↦ rw (e, size_and_load) (finish-Serving w d plan m h)
    | inl e ↦
        rw (e, size_and_load)
          (elim (Bool-cases (is_serving d.model_id m)) [
            | inr f ↦ rw f (fail-Serving w d "model does not fit" m h)
            | inl t ↦ rw t (
                applied-Serving d (record m { resident_bytes = d.resident_bytes }) h
                  (Runs-current d m.runtime m.current (serving_current d.model_id m t)))
          ])
  ]
