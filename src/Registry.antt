-- ===== src/Registry.antt =====
-- controller/registry.go: node membership, drain flags and aliases.
-- What a node reports (inventory, benchmark, heartbeat) is stored and never read here, so its types
-- are parameters. An operation that calls `onTransition` appends to the log of transitions. Times
-- are numbers; an age is compared as `last seen + limit ≤ now`. Go walks a map in any order, and
-- the model in the order of the list.
pub mod Calls
pub mod Invariant
pub mod Sweep
pub mod Alias
pub mod Snapshot
mod Tests
pub mod Membership
use phoneborg.Shared.{
  ℕ, zero, suc, ◌+◌, ◌-◌, ◌≤◌, ◌≡◌, Bool, true, false, not, ◌&&◌, ◌||◌, Option, none, some, List,
  [], ◌∷◌, ◌++◌, String, str_eq, leb, ltb, ◌==◌, if◌then◌else◌, lookup, insert, delete, any, keep,
  map, length, codes, take, is_some, str_leb, sort_by,
}

-- `unset` is the zero value of a node not registered yet.
pub data NodeState : Type 0 where
  unset benchmarking active suspect offline : NodeState

pub data Error : Type 0 where
  unknown_node alias_invalid alias_taken : Error

abbrev pub state_code : NodeState → ℕ
state_code unset = 0
state_code benchmarking = 1
state_code active = 2
state_code suspect = 3
state_code offline = 4

abbrev pub state_eq : NodeState → NodeState → Bool
state_eq a b = state_code a == state_code b

pub record Node (Inventory Benchmark Heartbeat : Type 0) : Type 0 where
  pub id : String
  pub alias : String
  pub inventory : Option Inventory
  pub remote_addr : String
  pub benchmark : Option Benchmark
  pub last_heartbeat : Option Heartbeat
  pub state : NodeState
  pub registered_at : ℕ
  pub last_seen : ℕ

pub record Transition : Type 0 where
  pub node : String
  pub from : NodeState
  pub to : NodeState

pub record Registry (Inventory Benchmark Heartbeat : Type 0) : Type 0 where
  pub nodes : List (String × Node Inventory Benchmark Heartbeat)
  pub drained : List (String × Bool)
  pub aliases : List (String × String)
  pub suspect_after : ℕ
  pub offline_after : ℕ
  pub log : List Transition

-- Reading an absent key gives the zero value.
abbrev pub is_drained : String → List (String × Bool) → Bool
is_drained id m = elim (lookup id m) [ none ↦ false | some b ↦ b ]

abbrev pub alias_of : String → List (String × String) → String
alias_of id m = elim (lookup id m) [ none ↦ "" | some a ↦ a ]

-- `nameRE`: `^[a-z0-9][a-z0-9-]{0,31}$`.
abbrev pub is_name_head : ℕ → Bool
is_name_head c = (leb b'a' c && leb c b'z') || (leb b'0' c && leb c b'9')

abbrev pub all_name_tail : List ℕ → Bool
all_name_tail [] = true
all_name_tail (c ∷ cs) = (is_name_head c || c == b'-') && all_name_tail cs

unfoldable pub matches_name : List ℕ → Bool
matches_name [] = false
matches_name (c ∷ cs) = is_name_head c && leb (length cs) 31 && all_name_tail cs

abbrev pub has_prefix : List ℕ → List ℕ → Bool
has_prefix cs [] = true
has_prefix [] (p ∷ ps) = false
has_prefix (c ∷ cs) (p ∷ ps) = c == p && has_prefix cs ps

unfoldable pub valid_alias : String → Bool
unfolding matches_name
valid_alias a =
    matches_name (codes a) && not (has_prefix (codes a) (codes "pool")) && not (str_eq a "auto")

-- Another node holds the alias.
abbrev pub holds_alias : String → String → List (String × String) → Bool
holds_alias id alias [] = false
holds_alias id alias ((other, a) ∷ m) =
    (str_eq a alias && not (str_eq other id)) || holds_alias id alias m

abbrev pub valid_entries : List (String × String) → List (String × String)
valid_entries [] = []
valid_entries ((id, a) ∷ m) = if valid_alias a then (id, a) ∷ valid_entries m else valid_entries m

abbrev pub id_of_alias : String → List (String × String) → Option String
id_of_alias name [] = none
id_of_alias name ((id, a) ∷ m) = if str_eq a name then some id else id_of_alias name m

module _ {I B H : Type 0} where
  -- `setState`: the node in its new state, and the transition, if it is one.
  unfoldable pub set_state : Node I B H → NodeState → Node I B H × List Transition
  set_state n to =
      if state_eq n.state to
      then (n, [])
      else (record n { state = to }, record { node = n.id; from = n.state; to = to } ∷ [])

  -- A node changed in place, through the pointer that the map holds.
  unfoldable pub store : Registry I B H → String → Node I B H × List Transition → Registry I B H
  store r id (n, ts) = record r { nodes = insert id n r.nodes; log = r.log ++ ts }

  unfoldable pub fresh : String → ℕ → Node I B H
  fresh id now = record {
    id = id;
    alias = "";
    inventory = none;
    remote_addr = "";
    benchmark = none;
    last_heartbeat = none;
    state = unset;
    registered_at = now;
    last_seen = 0;
  }

  unfoldable pub register : Registry I B H → String → I → String → ℕ → Registry I B H
  unfolding fresh set_state store
  register r id inventory remote_addr now =
      let n = elim (lookup id r.nodes) as (λ _. Node I B H) [ none ↦ fresh id now | some n ↦ n ] in
      store r id (
        set_state
          (record n {
            inventory = some inventory;
            remote_addr = remote_addr;
            benchmark = none;
            last_seen = now;
          })
          benchmarking)

  unfoldable pub report_benchmark : Registry I B H → String → B → ℕ → Registry I B H × Option Error
  unfolding set_state store
  report_benchmark r id b now = elim (lookup id r.nodes) [
    | none ↦ (r, some unknown_node)
    | some n ↦
        (store r id (set_state (record n { benchmark = some b; last_seen = now }) active), none)
  ]

  -- A node that was given up comes back to where its benchmark says.
  unfoldable pub resume : Node I B H → Node I B H × List Transition
  unfolding set_state
  resume n =
      if state_eq n.state suspect || state_eq n.state offline
      then (if is_some n.benchmark then set_state n active else set_state n benchmarking)
      else (n, [])

  unfoldable pub heartbeat : Registry I B H → String → H → ℕ → Registry I B H × Option Error
  unfolding resume store
  heartbeat r id hb now = elim (lookup id r.nodes) [
    | none ↦ (r, some unknown_node)
    | some n ↦ (store r id (resume (record n { last_heartbeat = some hb; last_seen = now })), none)
  ]

  -- One round of the loop of `Sweep`.
  unfoldable pub sweep_node : ℕ → ℕ → ℕ → Node I B H → Node I B H × List Transition
  unfolding set_state
  sweep_node suspect_after offline_after now n =
      if leb (n.last_seen + offline_after) now
      then set_state n offline
      else if leb (n.last_seen + suspect_after) now && not (state_eq n.state offline)
      then set_state n suspect
      else (n, [])

  unfoldable pub sweep_nodes :
      ℕ → ℕ → ℕ → List (String × Node I B H) → List (String × Node I B H) × List Transition
  sweep_nodes s o now [] = ([], [])
  sweep_nodes s o now ((k, n) ∷ ns) =
      let (n', ts) = sweep_node s o now n in
      let (ns', ts') = sweep_nodes s o now ns in ((k, n') ∷ ns', ts ++ ts')

  unfoldable pub sweep : Registry I B H → ℕ → Registry I B H
  unfolding sweep_nodes
  sweep r now =
      let (ns, ts) = sweep_nodes r.suspect_after r.offline_after now r.nodes in
      record r { nodes = ns; log = r.log ++ ts }

  unfoldable pub set_drained : Registry I B H → String → Bool → Registry I B H × Option Error
  set_drained r id drained =
      if not (is_some (lookup id r.nodes)) && (drained || not (is_drained id r.drained))
      then (r, some unknown_node)
      else if drained
      then (record r { drained = insert id true r.drained }, none)
      else (record r { drained = delete id r.drained }, none)

  unfoldable pub forget : Registry I B H → String → Registry I B H × Option Error
  forget r id =
      if is_some (lookup id r.nodes)
      then (record r { nodes = delete id r.nodes }, none)
      else (r, some unknown_node)

  unfoldable pub set_alias : Registry I B H → String → String → Registry I B H × Option Error
  set_alias r id alias =
      if not (is_some (lookup id r.nodes))
        && (not (str_eq alias "") || str_eq (alias_of id r.aliases) "")
      then (r, some unknown_node)
      else if str_eq alias ""
      then (record r { aliases = delete id r.aliases }, none)
      else if not (valid_alias alias)
      then (r, some alias_invalid)
      else if is_some (lookup alias r.nodes) && not (str_eq alias id)
      then (r, some alias_taken)
      else if holds_alias id alias r.aliases
      then (r, some alias_taken)
      else (record r { aliases = insert id alias r.aliases }, none)

  unfoldable pub load_aliases : Registry I B H → List (String × String) → Registry I B H
  load_aliases r aliases = record r { aliases = valid_entries aliases }

  -- `Lookup`: an id, and whether it was found.
  unfoldable pub find_node : Registry I B H → String → String × Bool
  find_node r name = elim (id_of_alias name r.aliases) [
    | some id ↦ (id, true)
    | none ↦ (name, is_some (lookup name r.nodes))
  ]

  -- The copy of a node that `snapshot` takes.
  abbrev pub with_alias : List (String × String) → Node I B H → Node I B H
  with_alias aliases n = record n { alias = alias_of n.id aliases }

  -- Copies with their aliases, sorted by id.
  unfoldable pub snapshot : Registry I B H → List (Node I B H)
  snapshot r = sort_by (λ a b. str_leb a.id b.id) (map (λ e. with_alias r.aliases e.1) r.nodes)

  -- `View`: the drained ids are copied with the value true.
  unfoldable pub view : Registry I B H → List (Node I B H) × List (String × Bool)
  unfolding snapshot
  view r = (snapshot r, map (λ e. (e.0, true)) r.drained)
