-- ===== src/Registry/Invariant.antt =====
-- What holds of every node and every logged transition, whatever the history.
use phoneborg.Shared.{
  ℕ, ◌≡◌, ◌≢◌, inl, inr, Bool, true, false, List, [], ◌∷◌, ◌++◌, String, is_some, lookup, Entries,
  Entries-lookup, Entries-insert, Entries-delete, All, arith, Option-cases, Bool-cases,
}
use phoneborg.Registry.{
  unset, benchmarking, active, Node, Transition, Registry, set_state, store, fresh, register,
  report_benchmark, resume, heartbeat, sweep_node, sweep_nodes, sweep, set_drained, forget,
  set_alias, load_aliases,
}
use phoneborg.Registry.Calls.{
  Call, registers, benchmarks, beats, sweeps, drains, forgets, names, loads, new_registry, step,
  run,
}

-- A transition leads to another state, and never back to `unset`.
abbrev pub IsReal : Transition → Type 0
IsReal t = (t.from ≢ t.to) × (t.to ≢ unset)

All-append : (ts us : List Transition) → All IsReal ts → All IsReal us → All IsReal (ts ++ us)
All-append [] us h k = k
All-append (t ∷ ts) us h k = (h.0, All-append ts us h.1 k)

module _ {I B H : Type 0} where
  -- A stored node stands under its own id, was registered with an inventory, is active only with a
  -- benchmark, and benchmarks only without one.
  pub record IsKept (k : String) (n : Node I B H) : Type 0 where
    pub own_id : n.id ≡ k
    pub registered : n.state ≢ unset
    pub known : is_some n.inventory ≡ true
    pub active_measured : n.state ≡ active → is_some n.benchmark ≡ true
    pub benchmarking_unmeasured : n.state ≡ benchmarking → is_some n.benchmark ≡ false

  pub record Inv (r : Registry I B H) : Type 0 where
    pub kept : Entries IsKept r.nodes
    pub real : All IsReal r.log

  -- A node and its transitions, as `store` takes them.
  abbrev KeptWith : String → Node I B H × List Transition → Type 0
  KeptWith k (n, ts) = IsKept k n × All IsReal ts

  store-Inv :
      (r : Registry I B H) (k : String) (u : Node I B H × List Transition)
      → Inv r
      → KeptWith k u
      → Inv (store r k u)
  unfolding store
  store-Inv r k (n, ts) v h = record {
    kept = Entries-insert IsKept k n r.nodes h.0 v.kept;
    real = All-append r.log ts v.real h.1;
  }

  register-Inv :
      (r : Registry I B H) (k : String) (i : I) (addr : String) (now : ℕ)
      → Inv r
      → Inv (register r k i addr now)
  unfolding register
  register-Inv r k i addr now v = elim (Option-cases (lookup k r.nodes)) [
    | inl e ↦ rw (e, register) (store-Inv r k _ v (unfold set_state fresh in ground arith))
    | inr (n, e) ↦
        let old = Entries-lookup IsKept k n r.nodes v.kept e in
        rw (e, register) (store-Inv r k _ v (unfold set_state in ground arith))
  ]

  report_benchmark-Inv :
      (r : Registry I B H) (k : String) (b : B) (now : ℕ)
      → Inv r
      → Inv (report_benchmark r k b now).0
  unfolding report_benchmark
  report_benchmark-Inv r k b now v = elim (Option-cases (lookup k r.nodes)) [
    | inl e ↦ rw (e, report_benchmark) v
    | inr (n, e) ↦
        let old = Entries-lookup IsKept k n r.nodes v.kept e in
        rw (e, report_benchmark) (store-Inv r k _ v (unfold set_state in ground arith))
  ]

  heartbeat-Inv :
      (r : Registry I B H) (k : String) (hb : H) (now : ℕ) → Inv r → Inv (heartbeat r k hb now).0
  unfolding heartbeat
  heartbeat-Inv r k hb now v = elim (Option-cases (lookup k r.nodes)) [
    | inl e ↦ rw (e, heartbeat) v
    | inr (n, e) ↦
        let old = Entries-lookup IsKept k n r.nodes v.kept e in
        rw (e, heartbeat) (store-Inv r k _ v (unfold resume in ground arith))
  ]

  sweep_node-Kept :
      (s o now : ℕ) (k : String) (n : Node I B H) → IsKept k n → KeptWith k (sweep_node s o now n)
  unfolding sweep_node
  sweep_node-Kept s o now k n h = ground arith

  sweep_nodes-Kept :
      (s o now : ℕ) (ns : List (String × Node I B H))
      → Entries IsKept ns
      → Entries IsKept (sweep_nodes s o now ns).0 × All IsReal (sweep_nodes s o now ns).1
  unfolding sweep_nodes
  sweep_nodes-Kept s o now [] h = (tt, tt)
  sweep_nodes-Kept s o now ((k, n) ∷ ns) h =
      let (one, real) = sweep_node-Kept s o now k n h.0 in
      let (rest, reals) = sweep_nodes-Kept s o now ns h.1 in
      ((one, rest), All-append (sweep_node s o now n).1 (sweep_nodes s o now ns).1 real reals)

  sweep-Inv : (r : Registry I B H) (now : ℕ) → Inv r → Inv (sweep r now)
  unfolding sweep
  sweep-Inv r now v =
      let (ns, ts) = sweep_nodes-Kept r.suspect_after r.offline_after now r.nodes v.kept in
      record { kept = ns; real = All-append r.log _ v.real ts }

  forget-Inv : (r : Registry I B H) (k : String) → Inv r → Inv (forget r k).0
  unfolding forget
  forget-Inv r k v = elim (Bool-cases (is_some (lookup k r.nodes))) [
    | inl e ↦ rw e (record { kept = Entries-delete IsKept k r.nodes v.kept; real = v.real })
    | inr e ↦ rw e v
  ]

  set_drained-Inv : (r : Registry I B H) (k : String) (b : Bool) → Inv r → Inv (set_drained r k b).0
  unfolding set_drained
  set_drained-Inv r k b v = ground arith

  set_alias-Inv : (r : Registry I B H) (k a : String) → Inv r → Inv (set_alias r k a).0
  unfolding set_alias
  set_alias-Inv r k a v = ground arith

  step-Inv : (r : Registry I B H) (now : ℕ) (c : Call I B H) → Inv r → Inv (step r now c)
  unfolding step load_aliases
  step-Inv r now (registers k i addr) v = register-Inv r k i addr now v
  step-Inv r now (benchmarks k b) v = report_benchmark-Inv r k b now v
  step-Inv r now (beats k hb) v = heartbeat-Inv r k hb now v
  step-Inv r now sweeps v = sweep-Inv r now v
  step-Inv r now (drains k b) v = set_drained-Inv r k b v
  step-Inv r now (forgets k) v = forget-Inv r k v
  step-Inv r now (names k a) v = set_alias-Inv r k a v
  step-Inv r now (loads m) v = record { kept = v.kept; real = v.real }

  run-Inv_from : (r : Registry I B H) (cs : List (ℕ × Call I B H)) → Inv r → Inv (run r cs)
  unfolding run
  run-Inv_from r [] v = v
  run-Inv_from r ((now, c) ∷ cs) v = run-Inv_from (step r now c) cs (step-Inv r now c v)

  -- After any history of calls at any times, every node stands under its own id with an inventory
  -- and a state; an active node has a benchmark and a benchmarking node has none; and every logged
  -- transition changed the state, never to the unset one.
  pub run-Inv :
      (suspect_after offline_after : ℕ) (cs : List (ℕ × Call I B H))
      → Inv (run (new_registry suspect_after offline_after) cs)
  unfolding new_registry
  run-Inv s o cs = run-Inv_from (new_registry s o) cs (record { kept = tt; real = tt })
