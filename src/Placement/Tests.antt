-- ===== src/Placement/Tests.antt =====
-- A benchmark on one of two phones.
use phoneborg.Shared.{true, ◌≡◌, refl, none, some, [], ◌∷◌, String, Option, lookup, sort_by, inl}
use phoneborg.Memplan.{auto}
use phoneborg.Planner.{PlanModel, ctx_size}
use phoneborg.Planner.Place.{by_id, by_model, by_node}
use phoneborg.Fleet.Tests.{phone}
use phoneborg.Placement.{Row, Placement, Inputs, plan_inputs, plan_node, replan, serve, desired}
use phoneborg.Placement.Override.{replan-desired}

abbrev big : PlanModel
big = record {
  id = "big";
  size_bytes = 9_000_000_000;
  resident_bytes = 0;
  ctx_train = 0;
  layers = 0;
  kv_heads = 0;
  head_dim = 0;
}

abbrev inputs : Inputs
inputs = record {
  nodes = phone "mi8" 7 ∷ phone "nord" 9 ∷ [];
  drained = [];
  big_brain_model = λ id. none;
  perf = λ id. record { gen_gbps = 0; prompt_gbps = 0 };
  ready = big ∷ [];
  min_tok_s = 0;
}

abbrev forced : Placement
forced = record {
  spec = record { policies = []; default_model = "" };
  rows = [];
  by_node = [];
  overrides = ("mi8", "big") ∷ [];
}

abbrev files : String → Option PlanModel
files id = some big

mi8_here :
    lookup "mi8" (by_node [] (sort_by by_id (plan_inputs inputs [])))
    ≡ some (plan_node inputs [] (phone "mi8" 7))
unfolding by_node plan_inputs plan_node
mi8_here = refl

big_here : lookup "big" (by_model [] inputs.ready) ≡ some big
unfolding by_model
big_here = refl

-- The model is too large for the phone, and is sent all the same.
replan-desired_example :
    (desired inputs.big_brain_model files (replan inputs forced) "mi8"
      ≡ some (serve big (ctx_size big) 1 (some auto)))
    × ((row : Row) × (lookup "mi8" (replan inputs forced).by_node ≡ some row)
        × (row.benchmark ≡ true)
        × (row.assignment.node_id ≡ "mi8")
        × (row.assignment.model_id ≡ big.id))
replan-desired_example =
    replan-desired inputs forced (phone "mi8" 7) big files refl refl (inl refl) refl mi8_here
      big_here refl
