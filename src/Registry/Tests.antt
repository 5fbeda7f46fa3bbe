-- ===== src/Registry/Tests.antt =====
-- A registry of two phones.
use mathlib.Core.Option
use phoneborg.Shared.{ℕ, ◌≡◌, refl, true, Option, none, some, List, [], ◌∷◌, String, lookup}
use phoneborg.Registry.{
  Registry, Node, NodeState, active, suspect, offline, register, report_benchmark, heartbeat, sweep,
  set_alias, valid_alias, set_drained, sweep_node,
}
use phoneborg.Registry.Calls.{Call, registers, benchmarks, drains, names, new_registry, step, run}
use phoneborg.Registry.Invariant.{Inv, run-Inv}
use phoneborg.Registry.Sweep.{heartbeat-sweep, alive_state}
use phoneborg.Registry.Alias.{IsUnique, set_alias-IsUnique}

abbrev Phones : Type 0
Phones = Registry ℕ ℕ ℕ

abbrev morning : List (ℕ × Call ℕ ℕ ℕ)
morning =
    (0, registers "b2" 8 "10.0.0.2")
    ∷ (1, benchmarks "b2" 50)
    ∷ (2, registers "a1" 6 "10.0.0.1")
    ∷ (3, drains "a1" true)
    ∷ (4, names "b2" "pixel")
    ∷ []

two_phones : Phones
unfolding run step new_registry register report_benchmark set_drained set_alias valid_alias
two_phones = run (new_registry 10 30) morning

state_at : String → Phones → Option NodeState
state_at id r = Option.map (λ n. n.state) (lookup id r.nodes)

silent_phone : state_at "b2" (sweep two_phones 12) ≡ some suspect
unfolding state_at two_phones sweep sweep_node
silent_phone = refl

lost_phone : state_at "b2" (sweep two_phones 40) ≡ some offline
unfolding state_at two_phones sweep sweep_node
lost_phone = refl

abbrev measured : Node ℕ ℕ ℕ
measured = record {
  id = "b2";
  alias = "";
  inventory = some 8;
  remote_addr = "10.0.0.2";
  benchmark = some 50;
  last_heartbeat = none;
  state = active;
  registered_at = 0;
  last_seen = 1;
}

run-Inv_example : Inv (run (new_registry 10 30) morning)
run-Inv_example = run-Inv 10 30 morning

heartbeat-sweep_example :
    let (r', error) = heartbeat (sweep two_phones 40) "b2" 7 41 in
    (error ≡ none)
    × (Option.map (λ m. m.state) (lookup "b2" r'.nodes) ≡ some (alive_state measured))
unfolding two_phones
heartbeat-sweep_example =
    heartbeat-sweep two_phones "b2" 7 40 41 measured (run-Inv 10 30 morning) refl

set_alias-IsUnique_example : IsUnique (set_alias two_phones "a1" "pixel").0.aliases
unfolding two_phones
set_alias-IsUnique_example = set_alias-IsUnique two_phones "a1" "pixel" (tt, tt)
