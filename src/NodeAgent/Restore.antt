-- ===== src/NodeAgent/Restore.antt =====
-- Leaving a Big Brain pool gives back what ran before it.
use phoneborg.Shared.{
  ◌≡◌, ◌⊎◌, refl, sym, subst, true, false, not, ◌&&◌, Option, none, some, List, [], ◌∷◌, str_eq,
  if_true, if_false, if◌then◌else◌, if_both, All, inl, inr,
}
use phoneborg.NodeAgent.{
  DesiredRuntime, wanted, release, Server, ggml_rpc, PreRpc, Manager, is_same,
}
use phoneborg.NodeAgent.Switch.{
  Phone, reset_backoff, leave_rpc, restored, remembered, remember, enter_rpc, reconcile_model,
  reconcile, no_rpc_server,
}

-- The manager is asked to join Big Brain pools, one after the other.
abbrev pub join_all : List (Phone × DesiredRuntime) → Manager → Manager
join_all [] m = m
join_all ((w, d) ∷ js) m = join_all js (reconcile w (wanted d) m)

-- What is remembered is what ran.
abbrev Remembers : Manager → Option PreRpc → Type 0
Remembers m none = m.runtime ≡ none
Remembers m (some p) =
    (m.runtime ≡ some p.server)
    × (p.current ≡ m.current)
    × (p.resident_bytes ≡ m.resident_bytes)
    × (p.last_applied ≡ m.last_applied)

-- The same model runs, as it was applied.
abbrev IsAs : Manager → Manager → Type 0
IsAs m k =
    (k.rpc ≡ false)
    × (k.runtime ≡ m.runtime)
    × (k.current ≡ m.current)
    × (k.resident_bytes ≡ m.resident_bytes)
    × (k.last_applied ≡ m.last_applied)

abbrev Holds : Manager → Manager → Type 0
Holds m k = IsAs m k ⊎ ((k.rpc ≡ true) × Remembers m k.pre_rpc)

-- The server and its model are given back, with the desired state that they were applied for.
abbrev pub GivesBack : Manager → Manager → Type 0
GivesBack m k =
    (k.rpc ≡ false)
    × (k.runtime ≡ m.runtime)
    × (k.current ≡ m.current)
    × ((m.runtime ≡ none)
        ⊎ ((k.resident_bytes ≡ m.resident_bytes) × (k.last_applied ≡ m.last_applied)))

remembered-Remembers :
    (m k : Manager) (o : Option Server)
    → o ≡ m.runtime
    → k.current ≡ m.current
    → k.resident_bytes ≡ m.resident_bytes
    → k.last_applied ≡ m.last_applied
    → Remembers m (remembered k o)
remembered-Remembers m k none e c r l = sym e
remembered-Remembers m k (some s) e c r l = (sym e, c, r, l)

remember-Remembers : (m k : Manager) → Holds m k → Remembers m (remember k)
unfolding remember
remember-Remembers m k (inl (f, e, c, r, l)) =
    subst (Remembers m) (sym (if_false k.rpc k.pre_rpc (remembered k k.runtime) f))
      (remembered-Remembers m k k.runtime e c r l)
remember-Remembers m k (inr (t, h)) =
    subst (Remembers m) (sym (if_true k.rpc k.pre_rpc (remembered k k.runtime) t)) h

abbrev pub joined : DesiredRuntime → Manager → Manager
joined d m = reset_backoff (record m {
  pre_rpc = remember m;
  runtime = some ggml_rpc;
  current = "";
  resident_bytes = 0;
  ram_bytes = 0;
  rpc = true;
  last_applied = some d;
  last_err = "";
})

joined-Holds : (d : DesiredRuntime) (m k : Manager) → Holds m k → Holds m (joined d k)
unfolding reset_backoff
joined-Holds d m k h = inr (refl, remember-Remembers m k h)

enter_rpc-Holds :
    (w : Phone) (d : DesiredRuntime) (m k : Manager) → Holds m k → Holds m (enter_rpc w d k)
unfolding enter_rpc
enter_rpc-Holds w d m k h =
    if_both (Holds m) (k.rpc && is_same k.last_applied d) k
      (if not w.has_rpc_server then record k { last_err = no_rpc_server } else joined d k) h
      (if_both (Holds m) (not w.has_rpc_server) (record k { last_err = no_rpc_server }) (joined d k)
        h (joined-Holds d m k h))

join_all-Holds :
    (js : List (Phone × DesiredRuntime)) (m k : Manager)
    → All (λ j. str_eq j.1.mode "rpc" ≡ true) js
    → Holds m k
    → Holds m (join_all js k)
unfolding reconcile
join_all-Holds [] m k a h = h
join_all-Holds ((w, d) ∷ js) m k (e, a) h = join_all-Holds js m (reconcile w (wanted d) k) a (
    subst (Holds m)
      (sym (if_true (str_eq d.mode "rpc") (enter_rpc w d k) (reconcile_model w d (leave_rpc k)) e))
      (enter_rpc-Holds w d m k h))

restored-GivesBack :
    (m k : Manager) (p : Option PreRpc)
    → (m.runtime ≡ none → m.current ≡ "")
    → Remembers m p
    → GivesBack m (restored k p)
restored-GivesBack m k none i h = (refl, sym h, sym (i h), inl h)
restored-GivesBack m k (some p) i (e, c, r, l) = (refl, sym e, c, inr (r, l))

leave_rpc-GivesBack :
    (m k : Manager) → (m.runtime ≡ none → m.current ≡ "") → Holds m k → GivesBack m (leave_rpc k)
unfolding leave_rpc
leave_rpc-GivesBack m k i (inl (f, e, c, r, l)) =
    subst (GivesBack m) (sym (if_false k.rpc (restored k k.pre_rpc) k f)) (f, e, c, inr (r, l))
leave_rpc-GivesBack m k i (inr (t, h)) =
    subst (GivesBack m) (sym (if_true k.rpc (restored k k.pre_rpc) k t))
      (restored-GivesBack m k k.pre_rpc i h)

-- However often it is asked to join, and whether or not it can.
pub release-GivesBack :
    (js : List (Phone × DesiredRuntime)) (w : Phone) (m : Manager)
    → All (λ j. str_eq j.1.mode "rpc" ≡ true) js
    → m.rpc ≡ false
    → (m.runtime ≡ none → m.current ≡ "")
    → GivesBack m (reconcile w release (join_all js m))
unfolding reconcile
release-GivesBack js w m a f i =
    leave_rpc-GivesBack m (join_all js m) i
      (join_all-Holds js m m a (inl (f, refl, refl, refl, refl)))
