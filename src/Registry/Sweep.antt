-- ===== src/Registry/Sweep.antt =====
-- Sweeps: demotion by age, and the way back.
use mathlib.Core.List.{append-nil}
use mathlib.Core.Option
use phoneborg.Shared.{
  ℕ, ◌≤◌, ◌≡◌, refl, ap, ◌∙◌, none, some, List, [], ◌∷◌, ◌++◌, String, is_some, lookup, arith,
  lookup-insert, str_eq_refl, if◌then◌else◌, Entries-lookup,
}
use phoneborg.Registry.{
  NodeState, benchmarking, active, Node, Registry, Transition, resume, store, heartbeat, sweep_node,
  sweep_nodes, sweep,
}
use phoneborg.Registry.Invariant.{IsKept, Inv}

module _ {I B H : Type 0} where
  sweep_node_twice :
      (s o t now : ℕ) (n : Node I B H)
      → t ≤ now
      → (sweep_node s o now (sweep_node s o t n).0).0 ≡ (sweep_node s o now n).0
  unfolding sweep_node
  sweep_node_twice s o t now n h = ground arith

  sweep_node_quiet :
      (s o now : ℕ) (n : Node I B H) → (sweep_node s o now (sweep_node s o now n).0).1 ≡ []
  unfolding sweep_node
  sweep_node_quiet s o now n = ground arith

  sweep_nodes_twice :
      (s o t now : ℕ) (ns : List (String × Node I B H))
      → t ≤ now
      → (sweep_nodes s o now (sweep_nodes s o t ns).0).0 ≡ (sweep_nodes s o now ns).0
  unfolding sweep_nodes
  sweep_nodes_twice s o t now [] h = refl
  sweep_nodes_twice s o t now ((k, n) ∷ ns) h =
      cc (sweep_node_twice s o t now n h, sweep_nodes_twice s o t now ns h)

  sweep_nodes_quiet :
      (s o now : ℕ) (ns : List (String × Node I B H))
      → (sweep_nodes s o now (sweep_nodes s o now ns).0).1 ≡ []
  unfolding sweep_nodes
  sweep_nodes_quiet s o now [] = refl
  sweep_nodes_quiet s o now ((k, n) ∷ ns) =
      rw (sweep_node_quiet s o now n, sweep_nodes_quiet s o now ns)

  -- How often the registry is swept does not matter: a sweep after an earlier sweep leaves the
  -- nodes as the later sweep alone would, and a second sweep at the same time logs no transition.
  sweep_twice :
      (r : Registry I B H) (t now : ℕ)
      → t ≤ now
      → ((sweep (sweep r t) now).nodes ≡ (sweep r now).nodes)
        × ((sweep (sweep r now) now).log ≡ (sweep r now).log)
  unfolding sweep
  sweep_twice r t now h = (
    sweep_nodes_twice r.suspect_after r.offline_after t now r.nodes h,
    ap (λ ts. (r.log ++ (sweep_nodes r.suspect_after r.offline_after now r.nodes).1) ++ ts)
          (sweep_nodes_quiet r.suspect_after r.offline_after now r.nodes)
        ∙ append-nil _,
  )

  -- Where a node stands after a sweep.
  pub lookup-sweep_nodes :
      (s o now : ℕ) (k : String) (ns : List (String × Node I B H))
      → lookup k (sweep_nodes s o now ns).0
        ≡ Option.map (λ n. (sweep_node s o now n).0) (lookup k ns)
  unfolding sweep_nodes
  lookup-sweep_nodes s o now k [] = refl
  lookup-sweep_nodes s o now k ((j, n) ∷ ns) = ground (arith, lookup-sweep_nodes s o now k ns)

  -- The state that the last word from a node and its benchmark imply.
  abbrev pub alive_state : Node I B H → NodeState
  alive_state n = if is_some n.benchmark then active else benchmarking

  resume-sweep_node :
      (s o t now : ℕ) (hb : H) (k : String) (n : Node I B H)
      → IsKept k n
      → let m = (sweep_node s o t n).0 in
        (resume (record m { last_heartbeat = some hb; last_seen = now })).0.state ≡ alive_state n
  unfolding sweep_node resume
  resume-sweep_node s o t now hb k n h = ground arith

  pub lookup-store_self :
      (r : Registry I B H) (k : String) (u : Node I B H × List Transition)
      → lookup k (store r k u).nodes ≡ some u.0
  unfolding store
  lookup-store_self r k (n, ts) = rw (lookup-insert k k n r.nodes, str_eq_refl k)

  heartbeat_known :
      (r : Registry I B H) (k : String) (hb : H) (now : ℕ) (n : Node I B H)
      → lookup k r.nodes ≡ some n
      → heartbeat r k hb now
        ≡ (store r k (resume (record n { last_heartbeat = some hb; last_seen = now })), none)
  unfolding heartbeat
  heartbeat_known r k hb now n e = rw (e, heartbeat)

  lookup-sweep :
      (r : Registry I B H) (t : ℕ) (k : String) (n : Node I B H)
      → lookup k r.nodes ≡ some n
      → lookup k (sweep r t).nodes ≡ some (sweep_node r.suspect_after r.offline_after t n).0
  unfolding sweep
  lookup-sweep r t k n e =
      lookup-sweep_nodes r.suspect_after r.offline_after t k r.nodes
      ∙ ap (Option.map (λ m. (sweep_node r.suspect_after r.offline_after t m).0)) e

  -- A heartbeat undoes any demotion: in a registry that meets the invariant, after a sweep at any
  -- time, a heartbeat of a known node is accepted and leaves it active if it has a benchmark, and
  -- benchmarking if it has none.
  pub heartbeat-sweep :
      (r : Registry I B H) (k : String) (hb : H) (t now : ℕ) (n : Node I B H)
      → Inv r
      → lookup k r.nodes ≡ some n
      → let (r', error) = heartbeat (sweep r t) k hb now in
        (error ≡ none) × (Option.map (λ m. m.state) (lookup k r'.nodes) ≡ some (alive_state n))
  heartbeat-sweep r k hb t now n v e =
      let m = (sweep_node r.suspect_after r.offline_after t n).0 in
      rw (heartbeat_known (sweep r t) k hb now m (lookup-sweep r t k n e)) (
        refl,
        ap (Option.map (λ x. x.state)) (lookup-store_self (sweep r t) k _)
            ∙ ap some (
                resume-sweep_node r.suspect_after r.offline_after t now hb k n
                  (Entries-lookup IsKept k n r.nodes v.kept e)),
      )
