-- ===== src/Pools.antt =====
-- controller/pools.go: the pools that clients address as "pool/<name>", their validation, and the
-- conflicts between them. The fields that responses compute are no part of a pool here. A speed limit
-- is an integer in thousandths of a token a second.
mod Clean
mod Norm
pub mod Store
pub mod Members
pub mod Target
mod Reach
mod Tests
mod Compat
mod Consistent
mod Clash
mod Refine
use phoneborg.Shared.{
  ℕ, Bool, true, false, not, ◌&&◌, ◌||◌, Option, none, some, List, [], ◌∷◌, ◌++◌, String, str_eq,
  any, ltb, leb, ◌==◌, if◌then◌else◌, lookup, insert, trim, codes, length, ℤ, pos, negsuc, pos_part,
  neg_part,
}
use phoneborg.Registry.{matches_name}
use phoneborg.Classes.{is_class}

-- The texts of `Routing`; `no_routing` is "".
pub data PoolRouting : Type 0 where
  no_routing by_spread by_affinity by_superborg by_big_brain : PoolRouting
  other_routing : String → PoolRouting

pub record Pool : Type 0 where
  pub name : String
  pub description : String
  pub models : List String
  pub nodes : List String
  pub classes : List String
  pub min_gen_tps : ℤ
  pub routing : PoolRouting
  pub orchestrator : String
  pub thinking : Bool
  pub model : String
  pub ctx_size : ℤ
  pub disabled : Bool

pub data Field : Type 0 where
  models_field nodes_field classes_field : Field

-- The errors of `normPool`, and the two of the handler.
pub data PoolError : Type 0 where
  bad_name negative_min big_no_model big_few_nodes big_extra big_ctx bad_routing : PoolError
  empty_entry : Field → PoolError
  unknown_class : String → PoolError
  not_in_catalog : String → PoolError
  save_failed unknown_pool : PoolError

pub data Normed : Type 0 where
  accepted : Pool → Normed
  rejected : PoolError → Normed

-- `slices.Contains`
unfoldable pub contains : List String → String → Bool
contains xs x = any (λ y. str_eq y x) xs

-- The loop of the closure `clean`; `none` is an empty entry.
unfoldable pub clean_into : List String → List String → Option (List String)
unfolding contains
clean_into out [] = some out
clean_into out (v ∷ vs) =
    let t = trim v in
    if str_eq t ""
    then none
    else if contains out t
    then clean_into out vs
    else clean_into (out ++ (t ∷ [])) vs

abbrev pub clean : List String → Option (List String)
clean vs = clean_into [] vs

abbrev pub bad_class : List String → Option String
bad_class [] = none
bad_class (c ∷ cs) = if is_class c then bad_class cs else some c

abbrev pub is_negative : ℤ → Bool
is_negative (pos n) = false
is_negative (negsuc n) = true

abbrev pub is_empty : List String → Bool
is_empty [] = true
is_empty (x ∷ xs) = false

-- Not `ctx != 0 && (ctx < 512 || ctx > 131072)`.
abbrev pub ctx_ok : ℤ → Bool
ctx_ok (pos n) = n == 0 || (leb 512 n && leb n 131_072)
ctx_ok (negsuc n) = false

abbrev pub is_positive : ℤ → Bool
is_positive (pos n) = ltb 0 n
is_positive (negsuc n) = false

abbrev pub with_routing : Pool → PoolRouting → String → Pool
with_routing p r model = record p { routing = r; model = model }

-- The case `RoutingBigBrain`, with the trimmed model.
unfoldable pub norm_big_brain : Pool → Normed
norm_big_brain p =
    if str_eq p.model ""
    then rejected big_no_model
    else if ltb (length p.nodes) 2
    then rejected big_few_nodes
    else if not (is_empty p.models) || not (is_empty p.classes) || is_positive p.min_gen_tps
    then rejected big_extra
    else if ctx_ok p.ctx_size
    then accepted p
    else rejected big_ctx

-- The `switch p.Routing`.
unfoldable pub norm_routing : Pool → PoolRouting → Normed
norm_routing p no_routing = accepted (with_routing p by_spread p.model)
norm_routing p by_spread = accepted (with_routing p by_spread p.model)
norm_routing p by_affinity = accepted (with_routing p by_affinity p.model)
norm_routing p by_superborg = accepted (with_routing p by_superborg p.model)
norm_routing p by_big_brain = norm_big_brain (with_routing p by_big_brain (trim p.model))
norm_routing p (other_routing r) = rejected bad_routing

abbrev pub with_lists : Pool → List String → List String → List String → Pool
with_lists p models nodes classes = record p {
  models = models;
  nodes = nodes;
  classes = classes;
  orchestrator = trim p.orchestrator;
}

-- The checks behind the lists.
unfoldable pub norm_rest : Pool → Normed
unfolding norm_routing norm_big_brain
norm_rest p = elim (bad_class p.classes) [
  | some c ↦ rejected (unknown_class c)
  | none ↦ if is_negative p.min_gen_tps then rejected negative_min else norm_routing p p.routing
]

unfoldable pub norm_pool : Pool → Normed
unfolding clean_into norm_rest
norm_pool p =
    if not (matches_name (codes p.name)) then rejected bad_name else elim (clean p.models) [
      | none ↦ rejected (empty_entry models_field)
      | some models ↦ elim (clean p.nodes) [
        | none ↦ rejected (empty_entry nodes_field)
        | some nodes ↦ elim (clean p.classes) [
          | none ↦ rejected (empty_entry classes_field)
          | some classes ↦ norm_rest (with_lists p models nodes classes)
        ]
      ]
    ]

abbrev pub is_big_brain : PoolRouting → Bool
is_big_brain by_big_brain = true
is_big_brain r = false

-- Why two pools cannot both be enabled.
pub data Conflict : Type 0 where
  both_big : String → String → Conflict
  no_common_model : String → String → Conflict

-- The result of the first item that has one.
abbrev pub first_some {ℓ κ} : {A : Type ℓ} {B : Type κ} → (A → Option B) → List A → Option B
first_some f [] = none
first_some f (x ∷ xs) = elim (f x) [ some b ↦ some b | none ↦ first_some f xs ]

-- `id` gives the node id of an alias or a node id (the closure `id`).
module _ (id : String → String) where
  abbrev pub shares_node : List String → String → Bool
  shares_node ns n = any (λ m. str_eq (id m) (id n)) ns

  unfoldable pub big_conflict : Pool → Pool → Option Conflict
  big_conflict p o =
      if str_eq o.name p.name || not (is_big_brain o.routing) || o.disabled
      then none
      else first_some (λ n. if shares_node p.nodes n then some (both_big o.name n) else none)
          o.nodes

  -- The map `mine`.
  abbrev pub claims : List (String × String) → List String → List (String × String)
  claims t [] = t
  claims t (n ∷ ns) = claims (insert (id n) n t) ns

  unfoldable pub model_conflict : Pool → Pool → Option Conflict
  unfolding contains
  model_conflict p o =
      if str_eq o.name p.name
        || o.disabled
        || is_empty o.nodes
        || is_empty o.models
        || any (contains p.models) o.models
      then none
      else first_some
          (λ n. elim (lookup (id n) (claims [] p.nodes)) [
            | some name ↦ some (no_common_model o.name name)
            | none ↦ none
          ])
          o.nodes

  unfoldable pub pool_conflict : Pool → List Pool → Option Conflict
  unfolding big_conflict model_conflict
  pool_conflict p others =
      if is_big_brain p.routing && not p.disabled
      then first_some (big_conflict p) others
      else if p.disabled || is_empty p.nodes || is_empty p.models
      then none
      else first_some (model_conflict p) others
