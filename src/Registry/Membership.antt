-- ===== src/Registry/Membership.antt =====
-- What outlives registering and forgetting, and what an unknown node gets.
use phoneborg.Shared.{
  ℕ, ◌≡◌, ◌≢◌, refl, ◌∙◌, true, none, some, List, [], ◌∷◌, String, lookup, arith, is_some, eq_iff,
  lookup-insert, lookup-delete, All,
}
use phoneborg.Registry.{
  Registry, unknown_node, is_drained, store, register, report_benchmark, heartbeat, sweep,
  set_drained, forget, set_alias, load_aliases,
}
use phoneborg.Registry.Calls.{
  Call, registers, benchmarks, beats, sweeps, drains, forgets, names, loads, step, run,
}

module _ {I B H : Type 0} where
  -- The calls other than draining or undraining this node.
  abbrev pub SparesDrain : String → Call I B H → Type 0
  SparesDrain id (drains j b) = j ≢ id
  SparesDrain id _ = Unit {0}

  store-drained : (r : Registry I B H) (k : String) (u : _) → (store r k u).drained ≡ r.drained
  unfolding store
  store-drained r k (n, ts) = refl

  is_drained-step :
      (r : Registry I B H) (now : ℕ) (c : Call I B H) (id : String)
      → SparesDrain id c
      → is_drained id (step r now c).drained ≡ is_drained id r.drained
  unfolding step
  is_drained-step r now (registers k i a) id h = unfold register in refl
  is_drained-step r now (benchmarks k b) id h = unfold report_benchmark in ground arith
  is_drained-step r now (beats k hb) id h = unfold heartbeat in ground arith
  is_drained-step r now sweeps id h = unfold sweep in refl
  is_drained-step r now (drains k b) id h =
      unfold set_drained in
      ground (arith, lookup-insert k id true r.drained, lookup-delete k id r.drained, eq_iff k id)
  is_drained-step r now (forgets k) id h = unfold forget in ground arith
  is_drained-step r now (names k a) id h = unfold set_alias in ground arith
  is_drained-step r now (loads m) id h = unfold load_aliases in refl

  -- A drain flag changes only by draining or undraining its own node: over any history without
  -- such a call, with registrations, forgetting and sweeps at any times, it stays as it was.
  is_drained-run :
      (r : Registry I B H) (cs : List (ℕ × Call I B H)) (id : String)
      → All (λ c. SparesDrain id c.1) cs
      → is_drained id (run r cs).drained ≡ is_drained id r.drained
  unfolding run
  is_drained-run r [] id h = refl
  is_drained-run r ((now, c) ∷ cs) id h =
      is_drained-run (step r now c) cs id h.1 ∙ is_drained-step r now c id h.0

  -- A forgotten node is unknown until it registers: forgetting a known node succeeds, and then its
  -- heartbeats and benchmark reports are answered with the unknown-node error and change nothing.
  forget-unknown :
      (r : Registry I B H) (id : String) (hb : H) (b : B) (now : ℕ)
      → is_some (lookup id r.nodes) ≡ true
      → let r' = (forget r id).0 in
        ((forget r id).1 ≡ none)
        × (heartbeat r' id hb now ≡ (r', some unknown_node))
        × (report_benchmark r' id b now ≡ (r', some unknown_node))
  unfolding forget heartbeat report_benchmark
  forget-unknown r id hb b now h = ground (arith, lookup-delete id id r.nodes, eq_iff id id)
