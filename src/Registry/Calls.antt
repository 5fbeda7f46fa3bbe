-- ===== src/Registry/Calls.antt =====
-- The calls of the registry, as one step function, and histories of them.
use phoneborg.Shared.{ℕ, Bool, List, [], ◌∷◌, String}
use phoneborg.Registry.{
  Registry, register, report_benchmark, heartbeat, sweep, set_drained, forget, set_alias,
  load_aliases,
}

pub data Call (I B H : Type 0) : Type 0 where
  registers : String → I → String → Call I B H
  benchmarks : String → B → Call I B H
  beats : String → H → Call I B H
  sweeps : Call I B H
  drains : String → Bool → Call I B H
  forgets : String → Call I B H
  names : String → String → Call I B H
  loads : List (String × String) → Call I B H

module _ {I B H : Type 0} where
  -- `NewRegistry`
  unfoldable pub new_registry : ℕ → ℕ → Registry I B H
  new_registry suspect_after offline_after = record {
    nodes = [];
    drained = [];
    aliases = [];
    suspect_after = suspect_after;
    offline_after = offline_after;
    log = [];
  }

  -- A call at a time.
  unfoldable pub step : Registry I B H → ℕ → Call I B H → Registry I B H
  step r now (registers id inventory addr) = register r id inventory addr now
  step r now (benchmarks id b) = (report_benchmark r id b now).0
  step r now (beats id hb) = (heartbeat r id hb now).0
  step r now sweeps = sweep r now
  step r now (drains id b) = (set_drained r id b).0
  step r now (forgets id) = (forget r id).0
  step r now (names id a) = (set_alias r id a).0
  step r now (loads m) = load_aliases r m

  unfoldable pub run : Registry I B H → List (ℕ × Call I B H) → Registry I B H
  run r [] = r
  run r ((now, c) ∷ cs) = run (step r now c) cs
