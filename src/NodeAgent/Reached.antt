-- ===== src/NodeAgent/Reached.antt =====
-- Every order keeps the manager's invariant.
use phoneborg.Shared.{
  All, Bool-cases, ℕ, ◌≡◌, refl, sym, ◌⊎◌, true, false, not, ◌&&◌, Option, none, some, List, [],
  ◌∷◌, String, str_eq, if◌then◌else◌, if_both, if_true, if_false, subst, Option-cases, inl, inr,
}
use phoneborg.NodeAgent.{
  DesiredRuntime, Order, wanted, release, Server, PreRpc, Manager, new_manager, is_same,
  should_retry_now,
}
use phoneborg.NodeAgent.Switch.{
  Phone, reset_backoff, fail, set_sub_state, size_and_load, fetch, switch_model, leave_rpc,
  remember, remembered, enter_rpc, restored, reconcile_model, reconcile, run, start_static,
  no_rpc_server,
}
use phoneborg.NodeAgent.Restore.{join_all, joined, GivesBack, release-GivesBack}
use phoneborg.NodeAgent.Invariant.{
  Hosts, is_llama, Runs, IsBackoff, Serving, Restores, InRpc, IsSettled, fail-Serving,
  size_and_load-Serving,
}

-- A failed fetch fails the switch; else the file on disk decides.
abbrev pub after_fetch : Phone → DesiredRuntime → Manager → Option ℕ → Option String → Manager
after_fetch w d m f (some e) = fail w d e m
after_fetch w d m none none = fail w d "stat" m
after_fetch w d m (some size) none = size_and_load w d size m

pub switch_cases :
    (w : Phone) (d : DesiredRuntime) (m : Manager)
    → switch_model w d m ≡ after_fetch w d (fetch w d m).0 w.file_size (fetch w d m).1
unfolding switch_model fail
switch_cases w d m = elim (Option-cases (fetch w d m).1) [
  | inr (e, q) ↦ rw (q, switch_model) refl
  | inl q ↦ elim (Option-cases w.file_size) [
    | inl f ↦ rw (q, switch_model) (rw f refl)
    | inr (size, f) ↦ rw (q, switch_model) (rw f refl)
  ]
]

module _ (static : String × String) where
  after_fetch-Serving :
      (w : Phone) (d : DesiredRuntime) (m : Manager) (f : Option ℕ) (o : Option String)
      → Serving static m
      → Serving static (after_fetch w d m f o)
  after_fetch-Serving w d m f (some e) h = fail-Serving static w d e m h
  after_fetch-Serving w d m none none h = fail-Serving static w d "stat" m h
  after_fetch-Serving w d m (some size) none h = size_and_load-Serving static w d size m h

  fetch-Serving :
      (w : Phone) (d : DesiredRuntime) (m : Manager)
      → Serving static m
      → Serving static (fetch w d m).0
  unfolding fetch set_sub_state
  fetch-Serving w d m h =
      if_both (λ (x : Manager × Option String). Serving static x.0)
        (not (str_eq d.sha256 "") && w.sha_matches) (m, none)
        (
          set_sub_state "downloading" m,
          elim w.room_error [ some e ↦ some e | none ↦ w.download_error ],
        )
        h h

  switch_model-Serving :
      (w : Phone) (d : DesiredRuntime) (m : Manager)
      → Serving static m
      → Serving static (switch_model w d m)
  switch_model-Serving w d m h =
      rw (switch_cases w d m) (
        after_fetch-Serving w d (fetch w d m).0 w.file_size (fetch w d m).1 (fetch-Serving w d m h))

  reconcile_model-IsSettled :
      (w : Phone) (d : DesiredRuntime) (m : Manager)
      → m.switching ≡ false
      → Serving static m
      → IsSettled static (reconcile_model w d m)
  unfolding reconcile_model
  reconcile_model-IsSettled w d m s h =
      let begun = record m { switching = true; target = d.model_id; last_err = "" } in
      let done : IsSettled static (record (switch_model w d begun) { switching = false }) =
        (refl, inl (switch_model-Serving w d begun h)) in
      if_both (IsSettled static) (is_same m.last_applied d) m
        (if is_same m.last_failed d
            && not (should_retry_now w.now m.retry_at m.last_failed_budget w.budget)
          then m
          else record (switch_model w d begun) { switching = false })
        (s, inl h)
        (if_both (IsSettled static)
          (is_same m.last_failed d
            && not (should_retry_now w.now m.retry_at m.last_failed_budget w.budget))
          m (record (switch_model w d begun) { switching = false }) (s, inl h) done)

  restored-Serving :
      (m : Manager) (p : Option PreRpc)
      → Restores static p
      → IsBackoff m.last_failed m.backoff
      → Serving static (restored m p)
  restored-Serving m none r b = (refl, refl, tt, refl, b)
  restored-Serving m (some p) r b = (refl, r.0, r.1, r.2, b)

  -- Behind `leaveRPC` the manager serves, or would.
  leave_rpc-Serving :
      (m : Manager) → Serving static m ⊎ InRpc static m → Serving static (leave_rpc m)
  unfolding leave_rpc
  leave_rpc-Serving m (inl h) =
      subst (Serving static) (sym (if_false m.rpc (restored m m.pre_rpc) m h.0)) h
  leave_rpc-Serving m (inr h) =
      subst (Serving static) (sym (if_true m.rpc (restored m m.pre_rpc) m h.0))
        (restored-Serving m m.pre_rpc h.3 h.4)

  leave_rpc-settled : (m : Manager) → m.switching ≡ false → (leave_rpc m).switching ≡ false
  unfolding leave_rpc
  leave_rpc-settled m s =
      if_both (λ (x : Manager). x.switching ≡ false) m.rpc (restored m m.pre_rpc) m (kept m.pre_rpc)
        s
    where
      kept : (p : Option PreRpc) → (restored m p).switching ≡ false
      kept none = s
      kept (some p) = s

  remembered-Restores :
      (m : Manager) (o : Option Server)
      → is_llama o ≡ true
      → Runs m.last_applied o m.current
      → Hosts static o m.current
      → Restores static (remembered m o)
  remembered-Restores m none l u v = tt
  remembered-Restores m (some s) l u v = (l, u, v)

  remember-Restores :
      (m : Manager) → Serving static m ⊎ InRpc static m → Restores static (remember m)
  unfolding remember
  remember-Restores m (inl h) =
      subst (Restores static) (sym (if_false m.rpc m.pre_rpc (remembered m m.runtime) h.0))
        (remembered-Restores m m.runtime h.1 h.2 h.3)
  remember-Restores m (inr h) =
      subst (Restores static) (sym (if_true m.rpc m.pre_rpc (remembered m m.runtime) h.0)) h.3

  joined-IsSettled :
      (d : DesiredRuntime) (m : Manager) → IsSettled static m → IsSettled static (joined d m)
  unfolding reset_backoff
  joined-IsSettled d m (s, h) = (s, inr (refl, refl, refl, remember-Restores m h, refl))

  enter_rpc-IsSettled :
      (w : Phone) (d : DesiredRuntime) (m : Manager)
      → IsSettled static m
      → IsSettled static (enter_rpc w d m)
  unfolding enter_rpc
  enter_rpc-IsSettled w d m h =
      if_both (IsSettled static) (m.rpc && is_same m.last_applied d) m
        (if not w.has_rpc_server then record m { last_err = no_rpc_server } else joined d m) h
        (if_both (IsSettled static) (not w.has_rpc_server) (record m { last_err = no_rpc_server })
          (joined d m) h (joined-IsSettled d m h))

  reconcile-IsSettled :
      (w : Phone) (o : Order) (m : Manager)
      → IsSettled static m
      → IsSettled static (reconcile w o m)
  unfolding reconcile
  reconcile-IsSettled w release m (s, h) = (leave_rpc-settled m s, inl (leave_rpc-Serving m h))
  reconcile-IsSettled w (wanted d) m (s, h) =
      if_both (IsSettled static) (str_eq d.mode "rpc") (enter_rpc w d m)
        (reconcile_model w d (leave_rpc m)) (enter_rpc-IsSettled w d m (s, h))
        (reconcile_model-IsSettled w d (leave_rpc m) (leave_rpc-settled m s)
          (leave_rpc-Serving m h))

  run_all-IsSettled :
      (os : List (Phone × Order)) (m : Manager) → IsSettled static m → IsSettled static (run os m)
  unfolding run
  run_all-IsSettled [] m h = h
  run_all-IsSettled ((w, o) ∷ os) m h =
      run_all-IsSettled os (reconcile w o m) (reconcile-IsSettled w o m h)

  IsSettled-current :
      (m : Manager) → IsSettled static m → m.rpc ≡ false → m.runtime ≡ none → m.current ≡ ""
  IsSettled-current m (s, inr h) f e = h.2
  IsSettled-current m (s, inl h) f e = subst (λ o. Hosts static o m.current) e h.3

  IsSettled-released :
      (js : List (Phone × DesiredRuntime)) (w : Phone) (m : Manager)
      → All (λ j. str_eq j.1.mode "rpc" ≡ true) js
      → IsSettled static m
      → (m.rpc ≡ true) ⊎ GivesBack m (reconcile w release (join_all js m))
  IsSettled-released js w m a h = elim (Bool-cases m.rpc) [
    | inl t ↦ inl t
    | inr f ↦ inr (release-GivesBack js w m a f (IsSettled-current m h f))
  ]

-- Whatever orders come and whatever the phone answers, from a start with no server or with the static
-- model: between two orders no switch is under way; either the manager serves, with llama-server on the
-- file of its current model, or with nothing and no current model, and then a running server's model is
-- the one last applied, if any was; or it lends its memory, with ggml-rpc-server, and what it remembers,
-- if anything ran before, is a llama-server in the same sense. The backoff is 0 with no failed state, and
-- else from 30 seconds to 10 minutes. And a manager that serves, asked any number of times to join Big
-- Brain pools and then released, runs what it ran before: the same server, or none, with the same current
-- model and the same applied state.
pub run-IsSettled :
    (os : List (Phone × Order)) (js : List (Phone × DesiredRuntime)) (w : Phone)
    (path name : String) (ctx : ℕ)
    → All (λ j. str_eq j.1.mode "rpc" ≡ true) js
    → let m = run os new_manager in
      let n = run os (start_static path name ctx new_manager) in
      IsSettled (path, name) m
      × IsSettled (path, name) n
      × ((m.rpc ≡ true) ⊎ GivesBack m (reconcile w release (join_all js m)))
      × ((n.rpc ≡ true) ⊎ GivesBack n (reconcile w release (join_all js n)))
unfolding start_static
run-IsSettled os js w path name ctx a =
    let static : String × String = (path, name) in
    let m = run os new_manager in
    let n = run os (start_static path name ctx new_manager) in
    let h : IsSettled static m =
      run_all-IsSettled static os new_manager (refl, inl (refl, refl, tt, refl, refl)) in
    let k : IsSettled static n =
      run_all-IsSettled static os (start_static path name ctx new_manager)
        (refl, inl (refl, refl, tt, inl (refl, refl), refl)) in
    (h, k, IsSettled-released static js w m a h, IsSettled-released static js w n a k)
