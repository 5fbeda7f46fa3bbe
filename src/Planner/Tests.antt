-- ===== src/Planner/Tests.antt =====
-- Three phones and two models.
use phoneborg.Shared.{
  ℕ, ◌≡◌, refl, ◌≤◌, ◌<◌, ◌+◌, ◌*◌, inl, inr, false, some, List, [], ◌∷◌, String, arith, map,
  sort_by, lookup, In, max,
}
use phoneborg.Planner.{
  Policy, Spec, Node, PlanModel, pin, replicas, by_pin, by_replicas, by_default, Reason, percent_of,
  prefer_for, eligible, matches_class, fits_node, est_ram, resident_bytes, ctx_size, meets_speed,
}
use phoneborg.Planner.Place.{
  by_id, by_model, by_node, default_plan, row_for, chosen, free_nodes, final_row, offer, keep_row,
  place_all, place, ready_of, model_at, assign_all, wanted, bigger_first, pin_nodes,
}
use phoneborg.Classes.{is_class, estimate_ram, fits}
use phoneborg.Planner.Validate.{known, class_percent, validate}
use phoneborg.Planner.Rows.{AreRows, default_plan-AreRows}
use phoneborg.Planner.PinOnce.{validate-default_plan}
use phoneborg.Planner.Percent.{percent_of-IsShare}
use phoneborg.Planner.Valid.{IsValid, validate-IsValid}

abbrev phone : String → ℕ → ℕ → String → Node
phone id ram speed model = record {
  id = id;
  class = "m";
  ram_total = ram;
  speed = speed;
  gen_gbps = 0;
  prompt_gbps = 0;
  current_model = model;
  assigned = "";
  is_drained = false;
  budget_bytes = 0;
}

abbrev mi8 : Node
mi8 = phone "mi8" 6_000_000_000 9 ""

abbrev nord : Node
nord = phone "nord" 8_000_000_000 12 ""

abbrev old : Node
old = phone "old" 8_000_000_000 5 "big"

abbrev phones : List Node
phones = nord ∷ old ∷ mi8 ∷ []

abbrev model : String → ℕ → PlanModel
model id size = record {
  id = id;
  size_bytes = size;
  resident_bytes = 0;
  ctx_train = 0;
  layers = 0;
  kv_heads = 0;
  head_dim = 0;
}

abbrev big : PlanModel
big = model "big" 4_000_000_000

abbrev small : PlanModel
small = model "small" 1_000_000_000

abbrev catalog : List PlanModel
catalog = big ∷ small ∷ []

abbrev pinned : Policy
pinned = record {
  model_id = "small";
  mode = pin;
  nodes = "nord" ∷ [];
  count = 0;
  share = 0;
  classes = [];
  min_tok_s = 0;
}

abbrev one_big : Policy
one_big = record {
  model_id = "big";
  mode = replicas;
  nodes = [];
  count = 1;
  share = 0;
  classes = "m" ∷ [];
  min_tok_s = 0;
}

abbrev spec : Spec
spec = record { policies = one_big ∷ pinned ∷ []; default_model = "small" }

-- The phone that serves the big model keeps it, though it is the slowest.
three_rows :
    map {B = String × String × Reason}
      (λ a. (a.node_id, a.model_id, a.reason))
      (default_plan 0 spec phones catalog).rows
    ≡ (("mi8", "small", by_default) ∷ ("nord", "small", by_pin) ∷ ("old", "big", by_replicas) ∷ [])
unfolding default_plan final_row offer keep_row place_all place ready_of chosen free_nodes model_at
    assign_all wanted bigger_first pin_nodes prefer_for eligible matches_class fits_node est_ram
    estimate_ram resident_bytes ctx_size fits meets_speed
three_rows = refl

third_of_ten : percent_of 3_300 10 ≡ 3
unfolding percent_of
third_of_ten = refl

no_errors : validate spec ("mi8" ∷ "nord" ∷ "old" ∷ []) ("big" ∷ "small" ∷ []) ≡ []
unfolding validate is_class class_percent
no_errors = refl

all_named : known ("big" ∷ "small" ∷ []) "" ≡ false
unfolding known
all_named = refl

nord_here : lookup "nord" (by_node [] (sort_by by_id phones)) ≡ some nord
unfolding by_node
nord_here = refl

small_here : lookup "small" (by_model [] catalog) ≡ some small
unfolding by_model
small_here = refl

default_plan-AreRows_example :
    AreRows 0 spec
      (sort_by by_id phones)
      (by_model [] catalog)
      (sort_by by_id phones)
      (default_plan 0 spec phones catalog).rows
default_plan-AreRows_example = default_plan-AreRows 0 spec phones catalog

validate-default_plan_example :
    In (row_for nord small by_pin) (default_plan 0 spec phones catalog).rows
validate-default_plan_example =
    validate-default_plan 0 spec ("mi8" ∷ "nord" ∷ "old" ∷ []) ("big" ∷ "small" ∷ []) phones catalog
      pinned nord small all_named no_errors refl (inr (inl refl)) (inl refl) (inl refl) nord_here
      small_here

percent_of-IsShare_example :
    (1 ≤ percent_of 3_300 10)
    × (percent_of 3_300 10 ≤ 10)
    × (33_000 < 10_000 * percent_of 3_300 10 + 5_000)
    × (10_000 * percent_of 3_300 10 ≤ max 10_000 38_000)
percent_of-IsShare_example = percent_of-IsShare 3_300 10 (omega arith) (omega arith) (omega arith)

validate-IsValid_example : IsValid spec ("mi8" ∷ "nord" ∷ "old" ∷ []) ("big" ∷ "small" ∷ [])
validate-IsValid_example =
    validate-IsValid spec ("mi8" ∷ "nord" ∷ "old" ∷ []) ("big" ∷ "small" ∷ []) all_named no_errors
