-- ===== src/Fleet.antt =====
-- controller/server.go: the backends that the gateway sees, made from the nodes of the registry. A
-- phone is a node with what it reports; speeds are only compared and tested for 0, so numbers stand for
-- them; temperatures are integers.
mod Describe
mod Backends
pub mod Tests
use phoneborg.Shared.{
  ℕ, Bool, true, false, not, ◌&&◌, ◌||◌, Option, none, some, List, [], ◌∷◌, ◌++◌, String, str_eq,
  any, ltb, ◌==◌, if◌then◌else◌, map, is_some, ℤ, pos, leb_ℤ,
}
use phoneborg.Registry.{Node, active, state_eq, is_drained}
use phoneborg.Gateway.Backend.{Backend}

-- proto/v0.go, `RuntimeStatus`: the fields that routing reads.
pub record Runtime : Type 0 where
  pub model : String
  pub model_id : String
  pub ready : Bool
  pub advertise_host : String
  pub advertise_port : ℕ
  pub ctx_size : ℕ
  pub gen_tps : ℕ
  pub state : String
  pub budget_bytes : ℕ

pub record Heartbeat : Type 0 where
  pub temperature : Option ℤ
  pub runtime : Option Runtime

pub record Inventory : Type 0 where
  pub ram_total_bytes : ℕ

-- A node of the registry; its benchmark is the score `CPUGFLOPS`.
abbrev pub Phone : Type 0
Phone = Node Inventory ℕ Heartbeat

abbrev pub ram_of : Phone → ℕ
ram_of n = elim n.inventory [ some i ↦ i.ram_total_bytes | none ↦ 0 ]

abbrev pub runtime_of : Phone → Option Runtime
runtime_of n = elim n.last_heartbeat [ some hb ↦ hb.runtime | none ↦ none ]

unfoldable pub switching : Runtime → Bool
switching rt = str_eq rt.state "downloading" || str_eq rt.state "loading"

-- `thermalLimitC > 0 && hb.TemperatureC != nil && *hb.TemperatureC >= thermalLimitC`
unfoldable pub is_hot : ℕ → Phone → Bool
is_hot limit n = ltb 0 limit && elim n.last_heartbeat [
  | none ↦ false
  | some hb ↦ elim hb.temperature [ none ↦ false | some t ↦ leb_ℤ (pos limit) t ]
]

-- Not the guard of the `continue`.
unfoldable pub serves : Phone → Runtime → Bool
unfolding switching
serves n rt =
    state_eq n.state active && rt.ready && not (rt.advertise_port == 0) && not (switching rt)

abbrev pub or_host : String → String → String
or_host host default_host = if str_eq host "" then default_host else host

-- `url` prints "http://host:port".
module _ (url : String → ℕ → String) (default_host : String) (limit : ℕ) where
  -- A backend with its speed before the speeds are made comparable, and whether it is measured.
  unfoldable pub backend_of : List (String × Bool) → Phone → Runtime → Backend × Bool
  unfolding is_hot
  backend_of drained n rt =
      let measured = ltb 0 rt.gen_tps in
      let benchmark : ℕ = elim n.benchmark [ none ↦ 0 | some g ↦ g ] in
      (
        record {
          node_id = n.id;
          model = rt.model;
          url = url (or_host rt.advertise_host default_host) rt.advertise_port;
          speed = if measured then rt.gen_tps else benchmark;
          drained = is_drained n.id drained;
          hot = is_hot limit n;
          ctx_size = rt.ctx_size;
          alias = n.alias;
          external = false;
          api_key = "";
          max_concurrency = 0;
          orchestrator_only = false;
          pool_only = false;
        },
        measured,
      )

  -- The loop over the nodes.
  unfoldable pub phone_backends : List (String × Bool) → List Phone → List (Backend × Bool)
  unfolding backend_of serves
  phone_backends drained [] = []
  phone_backends drained (n ∷ ns) =
      let rest = phone_backends drained ns in
      elim (runtime_of n) [
        | none ↦ rest
        | some rt ↦ if serves n rt then backend_of drained n rt ∷ rest else rest
      ]

  abbrev pub unmeasured : Backend × Bool → Backend
  unmeasured (b, m) = if m then b else record b { speed = 0 }

  -- `Backends`
  unfoldable pub backends : List Phone → List (String × Bool) → List Backend → List Backend
  unfolding phone_backends
  backends nodes drained external =
      let all = phone_backends drained nodes ++ map (λ b. (b, ltb 0 b.speed)) external in
      if any (λ e. e.1) all then map unmeasured all else map (λ e. e.0) all
