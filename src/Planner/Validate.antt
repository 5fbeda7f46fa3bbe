-- ===== src/Planner/Validate.antt =====
-- `Validate`: the errors in a placement, as data.
use phoneborg.Shared.{
  ℕ, ◌+◌, Bool, ◌&&◌, not, none, some, List, [], ◌∷◌, ◌++◌, String, str_eq, any, ltb, leb,
  if◌then◌else◌, lookup, insert,
}
use phoneborg.Classes.{is_class}
use phoneborg.Planner.{Mode, pin, replicas, percent, other_mode, Policy, Spec, matches_class}

pub data Error : Type 0 where
  unknown_model : String → Error
  more_than_one : String → Error
  unknown_class : String → String → Error
  no_nodes : String → Error
  unknown_node : String → String → Error
  pinned_already : String → String → String → Error
  too_few_replicas : String → Error
  bad_percent : String → ℕ → Error
  bad_mode : String → Error
  percent_sum : String → ℕ → Error
  unknown_default : String → Error

unfoldable pub known : List String → String → Bool
known ids id = any (λ j. str_eq j id) ids

unfoldable pub class_errors : String → List String → List Error
class_errors at [] = []
class_errors at (c ∷ cs) =
    if is_class c then class_errors at cs else unknown_class at c ∷ class_errors at cs

-- The map `pinned`, with "" for a node that no policy has pinned.
abbrev pub Pinned : Type 0
Pinned = List (String × String)

abbrev pub pin_of : String → Pinned → String
pin_of n t = elim (lookup n t) [ some m ↦ m | none ↦ "" ]

-- The loop over the nodes of a pin policy.
unfoldable pub pin_errors : List String → String → List String → Pinned → List Error × Pinned
unfolding known
pin_errors ids at [] t = ([], t)
pin_errors ids at (n ∷ ns) t =
    if not (known ids n)
    then (let (es, u) = pin_errors ids at ns t in (unknown_node at n ∷ es, u))
    else if not (str_eq (pin_of n t) "")
    then (let (es, u) = pin_errors ids at ns t in (pinned_already at n (pin_of n t) ∷ es, u))
    else pin_errors ids at ns (insert n at t)

abbrev pub no_node_errors : String → List String → List Error
no_node_errors at [] = no_nodes at ∷ []
no_node_errors at (n ∷ ns) = []

-- The `switch p.Mode`: the errors, and the pins with this policy's.
unfoldable pub mode_errors : List String → Policy → Mode → Pinned → List Error × Pinned
unfolding pin_errors
mode_errors ids p pin t =
    let (es, u) = pin_errors ids p.model_id p.nodes t in
    (no_node_errors p.model_id p.nodes ++ es, u)
mode_errors ids p replicas t = (if ltb p.count 1 then too_few_replicas p.model_id ∷ [] else [], t)
mode_errors ids p percent t =
    (if ltb 0 p.share && leb p.share 10_000 then [] else bad_percent p.model_id p.share ∷ [], t)
mode_errors ids p (other_mode m) t = (bad_mode p.model_id ∷ [], t)

-- The errors of one policy below the policies `seen`.
unfoldable pub policy_errors :
    List String → List String → List String → Policy → Pinned → List Error × Pinned
unfolding known class_errors mode_errors
policy_errors ids models seen p t =
    let unknown = if known models p.model_id then [] else unknown_model p.model_id ∷ [] in
    let twice = if known seen p.model_id then more_than_one p.model_id ∷ [] else [] in
    let (es, u) = mode_errors ids p p.mode t in
    (unknown ++ twice ++ class_errors p.model_id p.classes ++ es, u)

unfoldable pub policies_errors :
    List String → List String → List String → List Policy → Pinned → List Error
unfolding policy_errors
policies_errors ids models seen [] t = []
policies_errors ids models seen (p ∷ ps) t =
    let (es, u) = policy_errors ids models seen p t in
    es ++ policies_errors ids models (p.model_id ∷ seen) ps u

abbrev pub share_in : String → Policy → Mode → ℕ
share_in class p percent = if matches_class p.classes class then p.share else 0
share_in class p m = 0

-- `classPercent[c.ID]`, in hundredths.
unfoldable pub class_percent : String → List Policy → ℕ
class_percent class [] = 0
class_percent class (p ∷ ps) = share_in class p p.mode + class_percent class ps

unfoldable pub sum_errors : List String → List Policy → List Error
sum_errors [] ps = []
sum_errors (c ∷ cs) ps =
    if ltb 10_000 (class_percent c ps)
    then percent_sum c (class_percent c ps) ∷ sum_errors cs ps
    else sum_errors cs ps

abbrev pub class_ids : List String
class_ids = "xs" ∷ "s" ∷ "m" ∷ "l" ∷ "xl" ∷ []

-- `Validate`; no error is the empty list.
unfoldable pub validate : Spec → List String → List String → List Error
unfolding policies_errors sum_errors known
validate spec ids models =
    let wrong_default =
      if not (str_eq spec.default_model "") && not (known models spec.default_model)
      then unknown_default spec.default_model ∷ []
      else [] in
    policies_errors ids models [] spec.policies []
    ++ sum_errors class_ids spec.policies
    ++ wrong_default
