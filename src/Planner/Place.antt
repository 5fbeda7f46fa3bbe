-- ===== src/Planner/Place.antt =====
-- `DefaultPlanner.Plan`: pins, then replicas, then percentages, then the default model.
use phoneborg.Shared.{
  ℕ, min, Bool, true, false, ◌&&◌, ◌||◌, not, Option, none, some, List, [], ◌∷◌, ◌++◌, String,
  str_eq, str_leb, ltb, ◌==◌, if◌then◌else◌, lookup, insert, keep, length, take, sort_by, map,
}
use phoneborg.Memplan.{auto}
use phoneborg.Planner.{
  Mode, pin, replicas, percent, Policy, Spec, Node, PlanModel, Tps, Reason, by_pin, by_replicas,
  by_percent, by_default, kept, idle, Assignment, ctx_size, resident_bytes, est_ram, unknown_tps,
  predicted_tps, matches_class, fits_node, effective_min_tok_s, meets_speed, percent_of, prefer_for,
  eligible,
}

-- Why no node was eligible (`noFitReason`).
pub data Cause : Type 0 where
  no_class no_memory no_speed : Cause

-- The warnings' texts, as data.
pub data Warning : Type 0 where
  not_ready : String → Mode → Warning
  default_not_ready : String → Warning
  not_connected : String → String → Warning
  already_pinned : String → String → String → Warning
  pin_too_small : String → String → Warning
  too_slow : String → String → Tps → ℕ → Warning
  none_eligible : String → Cause → Warning
  too_few : String → ℕ → ℕ → Warning
  default_too_small : String → List String → Warning

pub record Plan : Type 0 where
  pub rows : List Assignment
  pub warnings : List Warning

-- The maps `assigned` and the warnings so far.
pub record Draft : Type 0 where
  pub assigned : List (String × Assignment)
  pub warnings : List Warning

abbrev pub warn : Warning → Draft → Draft
warn w d = record { assigned = d.assigned; warnings = d.warnings ++ (w ∷ []) }

-- `byModel`, where a later entry replaces an earlier one.
unfoldable pub by_model : List (String × PlanModel) → List PlanModel → List (String × PlanModel)
by_model t [] = t
by_model t (m ∷ ms) = by_model (insert m.id m t) ms

unfoldable pub by_node : List (String × Node) → List Node → List (String × Node)
by_node t [] = t
by_node t (n ∷ ns) = by_node (insert n.id n t) ns

-- `assigned[id].ModelID`
unfoldable pub model_at : String → List (String × Assignment) → String
model_at id t = elim (lookup id t) [ some a ↦ a.model_id | none ↦ "" ]

abbrev pub row_for : Node → PlanModel → Reason → Assignment
row_for n m reason = record {
  node_id = n.id;
  model_id = m.id;
  reason = reason;
  ctx_size = ctx_size m;
  slots = 1;
  kv_type = some auto;
  est_ram_bytes = est_ram m;
  is_fit = fits_node m n;
  pred_gen_tps = predicted_tps n.gen_gbps (resident_bytes m);
  pred_prompt_tps = predicted_tps n.prompt_gbps (resident_bytes m);
}

-- The closure `assign`.
abbrev pub assign : Node → PlanModel → Reason → Draft → Draft
assign n m reason d = record {
  assigned = insert n.id (row_for n m reason) d.assigned;
  warnings = d.warnings;
}

-- The checks on the policies whose model is not ready.
unfoldable pub warn_not_ready : List (String × PlanModel) → List Policy → Draft → Draft
warn_not_ready models [] d = d
warn_not_ready models (p ∷ ps) d = elim (lookup p.model_id models) [
  | some m ↦ warn_not_ready models ps d
  | none ↦ warn_not_ready models ps (warn (not_ready p.model_id p.mode) d)
]

unfoldable pub warn_default : List (String × PlanModel) → String → Draft → Draft
warn_default models id d = elim (lookup id models) [
  | some m ↦ d
  | none ↦ if str_eq id "" then d else warn (default_not_ready id) d
]

-- The two warnings of a pin that is set all the same.
abbrev pub warn_pin : ℕ → Policy → PlanModel → Node → Draft → Draft
warn_pin def p m n d =
    let small = if fits_node m n then d else warn (pin_too_small p.model_id n.id) d in
    if meets_speed m n (effective_min_tok_s p def)
    then small
    else warn
        (too_slow m.id n.id (predicted_tps n.gen_gbps (resident_bytes m))
          (effective_min_tok_s p def))
        small

-- The loop over the nodes of one pin policy.
unfoldable pub pin_nodes :
    ℕ → List (String × Node) → Policy → PlanModel → List String → Draft → Draft
pin_nodes def nodes p m [] d = d
pin_nodes def nodes p m (id ∷ ids) d = elim (lookup id nodes) [
  | none ↦ pin_nodes def nodes p m ids (warn (not_connected p.model_id id) d)
  | some n ↦
      if str_eq (model_at id d.assigned) ""
      then pin_nodes def nodes p m ids (warn_pin def p m n (assign n m by_pin d))
      else pin_nodes def nodes p m ids
          (warn (already_pinned p.model_id id (model_at id d.assigned)) d)
]

abbrev pub is_pin : Mode → Bool
is_pin pin = true
is_pin m = false

unfoldable pub pin_all :
    ℕ → List (String × Node) → List (String × PlanModel) → List Policy → Draft → Draft
pin_all def nodes models [] d = d
pin_all def nodes models (p ∷ ps) d = elim (lookup p.model_id models) [
  | none ↦ pin_all def nodes models ps d
  | some m ↦
      if is_pin p.mode
      then pin_all def nodes models ps (pin_nodes def nodes p m p.nodes d)
      else pin_all def nodes models ps d
]

-- The two rounds of the loop `for _, mode`.
pub data Round : Type 0 where
  replicas_round percent_round : Round

abbrev pub is_of : Round → Mode → Bool
is_of replicas_round replicas = true
is_of percent_round percent = true
is_of r m = false

abbrev pub reason_of : Round → Reason
reason_of replicas_round = by_replicas
reason_of percent_round = by_percent

-- The ready policies of a round, each with its model.
unfoldable pub ready_of :
    Round → List (String × PlanModel) → List Policy → List (Policy × PlanModel)
ready_of r models [] = []
ready_of r models (p ∷ ps) = elim (lookup p.model_id models) [
  | none ↦ ready_of r models ps
  | some m ↦ if is_of r p.mode then (p, m) ∷ ready_of r models ps else ready_of r models ps
]

-- The bigger model first, then by its id.
unfoldable pub bigger_first : Policy × PlanModel → Policy × PlanModel → Bool
bigger_first (p, m) (q, k) =
    ltb (est_ram k) (est_ram m) || (est_ram k == est_ram m && str_leb p.model_id q.model_id)

unfoldable pub wanted : Round → Policy → ℕ → ℕ
wanted replicas_round p pool = p.count
wanted percent_round p pool = percent_of p.share pool

unfoldable pub no_fit_reason : PlanModel → Policy → List Node → Cause
no_fit_reason m p nodes =
    let seen = keep (λ n. not (n.is_drained || not (matches_class p.classes n.class))) nodes in
    if length seen == 0
    then no_class
    else if length (keep (fits_node m) seen) == 0
    then no_memory
    else no_speed

-- The eligible nodes that have no model yet.
unfoldable pub free_nodes : (Node → Bool) → List Node → List (String × Assignment) → List Node
free_nodes ok nodes t = keep (λ n. ok n && str_eq (model_at n.id t) "") nodes

unfoldable pub assign_all : List Node → PlanModel → Reason → Draft → Draft
assign_all [] m reason d = d
assign_all (n ∷ ns) m reason d = assign_all ns m reason (assign n m reason d)

-- The nodes that a policy takes: the first of the free ones, in order of preference.
unfoldable pub chosen :
    Policy → PlanModel → ℕ → ℕ → List Node → List (String × Assignment) → List Node
chosen p m def want nodes t =
    let free = sort_by (prefer_for m.id) (free_nodes (eligible p m def) nodes t) in
    take (min want (length free)) free

-- The body of the loop over the policies of a round.
unfoldable pub place : ℕ → List Node → Round → Policy × PlanModel → Draft → Draft
place def nodes r (p, m) d =
    let pool = length (keep (eligible p m def) nodes) in
    let want = wanted r p pool in
    let taken = chosen p m def want nodes d.assigned in
    let placed = assign_all taken m (reason_of r) d in
    if pool == 0
    then warn (none_eligible m.id (no_fit_reason m p nodes)) d
    else if ltb (length taken) want
    then warn (too_few m.id want (length taken)) placed
    else placed

unfoldable pub place_all : ℕ → List Node → Round → List (Policy × PlanModel) → Draft → Draft
place_all def nodes r [] d = d
place_all def nodes r (pm ∷ ps) d = place_all def nodes r ps (place def nodes r pm d)

unfoldable pub run_round :
    ℕ → List Node → List (String × PlanModel) → List Policy → Round → Draft → Draft
run_round def nodes models ps r d =
    place_all def nodes r (sort_by bigger_first (ready_of r models ps)) d

-- What the last loop does for a node with no row.
pub data Offer : Type 0 where
  not_offered offered_small offered_slow offered : Offer

unfoldable pub offer : ℕ → Option PlanModel → Node → Offer
offer def none n = not_offered
offer def (some dm) n =
    if n.is_drained
    then not_offered
    else if fits_node dm n
    then if meets_speed dm n def then offered else offered_slow
    else offered_small

-- A node keeps what it serves.
unfoldable pub keep_row : List (String × PlanModel) → Node → Assignment
keep_row models n =
    let reason = if str_eq n.current_model "" then idle else kept in
    elim (lookup n.current_model models) [
      | some cur ↦ record {
        node_id = n.id;
        model_id = n.current_model;
        reason = reason;
        ctx_size = ctx_size cur;
        slots = 1;
        kv_type = some auto;
        est_ram_bytes = est_ram cur;
        is_fit = fits_node cur n;
        pred_gen_tps = unknown_tps;
        pred_prompt_tps = unknown_tps;
      }
      | none ↦ record {
        node_id = n.id;
        model_id = n.current_model;
        reason = reason;
        ctx_size = 0;
        slots = 0;
        kv_type = none;
        est_ram_bytes = 0;
        is_fit = true;
        pred_gen_tps = unknown_tps;
        pred_prompt_tps = unknown_tps;
      }
    ]

-- The row of a node that no policy has claimed.
abbrev pub open_row : List (String × PlanModel) → Option PlanModel → Node → Offer → Assignment
open_row models (some dm) n offered = row_for n dm by_default
open_row models dm n o = keep_row models n

unfoldable pub final_row :
    ℕ
    → List (String × PlanModel)
    → Option PlanModel
    → List (String × Assignment)
    → Node
    → Assignment
final_row def models dm t n = elim (lookup n.id t) [
  | some a ↦ a
  | none ↦ open_row models dm n (offer def dm n)
]

unfoldable pub final_rows :
    ℕ
    → List (String × PlanModel)
    → Option PlanModel
    → List (String × Assignment)
    → List Node
    → List Assignment
final_rows def models dm t [] = []
final_rows def models dm t (n ∷ ns) = final_row def models dm t n ∷ final_rows def models dm t ns

-- What the default model means for a node, which may have a row.
unfoldable pub offer_to : ℕ → Option PlanModel → List (String × Assignment) → Node → Offer
unfolding offer
offer_to def dm t n = elim (lookup n.id t) [ some a ↦ not_offered | none ↦ offer def dm n ]

abbrev pub is_small : Offer → Bool
is_small offered_small = true
is_small o = false

abbrev pub is_slow : Offer → Bool
is_slow offered_slow = true
is_slow o = false

-- The nodes that the default model does not fit, and the warnings about slow ones.
unfoldable pub too_small :
    ℕ → Option PlanModel → List (String × Assignment) → List Node → List String
too_small def dm t ns = map (λ n. n.id) (keep (λ n. is_small (offer_to def dm t n)) ns)

unfoldable pub slow_warnings : ℕ → PlanModel → List (String × Assignment) → List Node → List Warning
slow_warnings def dm t ns =
    map (λ n. too_slow dm.id n.id (predicted_tps n.gen_gbps (resident_bytes dm)) def)
      (keep (λ n. is_slow (offer_to def (some dm) t n)) ns)

abbrev pub small_warning : String → List String → List Warning
small_warning id [] = []
small_warning id (x ∷ xs) = default_too_small id (x ∷ xs) ∷ []

unfoldable pub final_warnings :
    ℕ → Option PlanModel → List (String × Assignment) → List Node → List Warning
unfolding slow_warnings too_small
final_warnings def none t ns = []
final_warnings def (some dm) t ns =
    slow_warnings def dm t ns ++ small_warning dm.id (too_small def (some dm) t ns)

abbrev pub by_id : Node → Node → Bool
by_id a b = str_leb a.id b.id

-- The draft after the policies.
unfoldable pub draft : ℕ → Spec → List Node → List (String × PlanModel) → Draft
unfolding warn_not_ready warn_default pin_all run_round by_node
draft def spec nodes models =
    let start : Draft = record { assigned = []; warnings = [] } in
    let waiting =
      warn_default models spec.default_model (warn_not_ready models spec.policies start) in
    let pinned = pin_all def (by_node [] nodes) models spec.policies waiting in
    run_round def nodes models spec.policies percent_round
      (run_round def nodes models spec.policies replicas_round pinned)

-- `DefaultPlanner.Plan`
unfoldable pub default_plan : ℕ → Spec → List Node → List PlanModel → Plan
unfolding draft by_model final_rows final_warnings
default_plan def spec unsorted catalog =
    let nodes = sort_by by_id unsorted in
    let models = by_model [] catalog in
    let d = draft def spec nodes models in
    let dm = lookup spec.default_model models in
    record {
      rows = final_rows def models dm d.assigned nodes;
      warnings = d.warnings ++ final_warnings def dm d.assigned nodes;
    }
