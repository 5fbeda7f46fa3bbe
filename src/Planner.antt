-- ===== src/Planner.antt =====
-- controller/models/planner.go, and the speed predictions of controller/models/perf.go. Byte counts
-- and replica counts are numbers. The measured floats are numbers too: a bandwidth in bytes a second,
-- a speed limit in thousandths of a token a second, a percentage in hundredths. What is computed from
-- them is exact.
pub mod Place
mod Backed
pub mod Rows
mod Pins
pub mod Pinned
mod Prefer
mod Percent
mod Valid
mod PinOnce
mod Tests
pub mod Validate
use phoneborg.Shared.{
  ℕ, ◌+◌, ◌*◌, ◌/◌, max, Bool, true, false, ◌&&◌, ◌||◌, not, Option, none, some, List, [], ◌∷◌,
  String, str_eq, str_leb, any, ltb, leb, ◌==◌, if◌then◌else◌, pos,
}
use phoneborg.Memplan
use phoneborg.Memplan.{Shape, KvRequest, auto}
use phoneborg.Classes.{estimate_ram, fits}

-- The texts "pin", "replicas" and "percent", and any other text.
pub data Mode : Type 0 where
  pin replicas percent : Mode
  other_mode : String → Mode

pub record Policy : Type 0 where
  pub model_id : String
  pub mode : Mode
  pub nodes : List String
  pub count : ℕ
  pub share : ℕ
  pub classes : List String
  pub min_tok_s : ℕ

pub record Spec : Type 0 where
  pub policies : List Policy
  pub default_model : String

pub record Node : Type 0 where
  pub id : String
  pub class : String
  pub ram_total : ℕ
  pub speed : ℕ
  pub gen_gbps : ℕ
  pub prompt_gbps : ℕ
  pub current_model : String
  pub assigned : String
  pub is_drained : Bool
  pub budget_bytes : ℕ

pub record PlanModel : Type 0 where
  pub id : String
  pub size_bytes : ℕ
  pub resident_bytes : ℕ
  pub ctx_train : ℕ
  pub layers : ℕ
  pub kv_heads : ℕ
  pub head_dim : ℕ

-- A predicted speed in tokens a second, as a fraction; 0 is unknown.
pub record Tps : Type 0 where
  pub num : ℕ
  pub den : ℕ

-- `ReasonPin` to `ReasonNone`
pub data Reason : Type 0 where
  by_pin by_replicas by_percent by_default kept idle : Reason

pub record Assignment : Type 0 where
  pub node_id : String
  pub model_id : String
  pub reason : Reason
  pub ctx_size : ℕ
  pub slots : ℕ
  pub kv_type : Option KvRequest
  pub est_ram_bytes : ℕ
  pub is_fit : Bool
  pub pred_gen_tps : Tps
  pub pred_prompt_tps : Tps

abbrev pub default_ctx_size : ℕ
default_ctx_size = 16_384

unfoldable pub ctx_size : PlanModel → ℕ
ctx_size m =
    if ltb 0 m.ctx_train && ltb m.ctx_train default_ctx_size then m.ctx_train else default_ctx_size

unfoldable pub resident_bytes : PlanModel → ℕ
resident_bytes m = if ltb 0 m.resident_bytes then m.resident_bytes else m.size_bytes

unfoldable pub est_ram : PlanModel → ℕ
est_ram m = estimate_ram (resident_bytes m) m.layers m.kv_heads m.head_dim (ctx_size m)

abbrev pub unknown_tps : Tps
unknown_tps = record { num = 0; den = 1 }

unfoldable pub predicted_tps : ℕ → ℕ → Tps
predicted_tps gbps resident =
    if gbps == 0 || resident == 0 then unknown_tps else record { num = gbps; den = resident }

unfoldable pub matches_class : List String → String → Bool
matches_class [] class = true
matches_class (c ∷ cs) class = any (λ d. str_eq d class) (c ∷ cs)

-- By the node's own budget, the way its agent decides, or else by its memory.
unfoldable pub fits_node : PlanModel → Node → Bool
fits_node m n =
    let shape : Shape = record {
      layers = m.layers;
      kv_heads = m.kv_heads;
      head_dim = m.head_dim;
    } in
    if ltb 0 n.budget_bytes
    then (Memplan.plan m.size_bytes m.resident_bytes shape (ctx_size m) 1 auto
        (pos n.budget_bytes)).fits
    else fits (est_ram m) n.ram_total

unfoldable pub effective_min_tok_s : Policy → ℕ → ℕ
effective_min_tok_s p def = if ltb 0 p.min_tok_s then p.min_tok_s else def

-- `pred == 0 || pred >= minTokS`
abbrev pub is_fast : ℕ → Tps → Bool
is_fast min pred = pred.num == 0 || leb (min * pred.den) (1000 * pred.num)

unfoldable pub meets_speed : PlanModel → Node → ℕ → Bool
unfolding predicted_tps resident_bytes
meets_speed m n min =
    if min == 0 then true else is_fast min (predicted_tps n.gen_gbps (resident_bytes m))

-- p / 100 percent of n, for a float64 percentage of at most two decimals, rounded half up: the floor of p * n / 10000 + 0.5 + 1e-9.
unfoldable pub percent_of : ℕ → ℕ → ℕ
percent_of p n =
    if p == 0 || n == 0 then 0 else max 1 ((p * n * 100_000 + 500_000_001) / 1_000_000_000)

-- 0 for a node that serves the model, 1 for one that had it in the last plan.
unfoldable pub rank : String → Node → ℕ
rank id n = if str_eq n.current_model id then 0 else if str_eq n.assigned id then 1 else 2

abbrev pub by_size : Node → Node → Bool
by_size a b =
    ltb b.speed a.speed
    || (b.speed == a.speed
        && (ltb b.ram_total a.ram_total || (b.ram_total == a.ram_total && str_leb a.id b.id)))

-- `preferFor(id, a, b) <= 0`
unfoldable pub prefer_for : String → Node → Node → Bool
unfolding rank
prefer_for id a b = ltb (rank id a) (rank id b) || (rank id a == rank id b && by_size a b)

-- The closure `eligible` of one policy.
unfoldable pub eligible : Policy → PlanModel → ℕ → Node → Bool
unfolding effective_min_tok_s
eligible p m def n =
    not n.is_drained
    && matches_class p.classes n.class
    && fits_node m n
    && meets_speed m n (effective_min_tok_s p def)
