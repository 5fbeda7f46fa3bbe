-- ===== src/Planner/Valid.antt =====
-- What `Validate` promises of a placement that it accepts.
use phoneborg.Shared.{
  ◌≤◌, ◌<◌, ◌≡◌, refl, ap, true, false, ◌&&◌, not, List, [], ◌∷◌, ◌++◌, String, str_eq, str_eq_refl,
  ltb, if◌then◌else◌, insert, lookup-insert, All, In, arith, Bool-cases, inl, inr, eq_iff, map,
}
use phoneborg.Classes.{is_class}
use phoneborg.Planner.{Mode, pin, replicas, percent, other_mode, Policy, Spec}
use phoneborg.Planner.Place.{is_pin}
use phoneborg.Planner.Validate.{
  Error, known, Pinned, pin_of, pin_errors, no_node_errors, mode_errors, class_errors,
  policy_errors, policies_errors, class_percent, sum_errors, class_ids, validate, unknown_class,
  unknown_node, pinned_already, unknown_model, more_than_one, percent_sum, unknown_default,
}

-- No item stands in `seen`, and none stands twice.
abbrev pub Apart : List String → List String → Type 0
Apart seen [] = Unit {0}
Apart seen (x ∷ xs) = (In x seen → ⊥) × Apart (x ∷ seen) xs

-- The nodes that the pin policies list, in order.
abbrev pub pinned_nodes : List Policy → List String
pinned_nodes [] = []
pinned_nodes (p ∷ ps) = if is_pin p.mode then p.nodes ++ pinned_nodes ps else pinned_nodes ps

abbrev pub IsMode : List String → Policy → Mode → Type 0
IsMode ids p pin = (p.nodes ≡ [] → ⊥) × All (λ n. known ids n ≡ true) p.nodes
IsMode ids p replicas = 1 ≤ p.count
IsMode ids p percent = (0 < p.share) × (p.share ≤ 10_000)
IsMode ids p (other_mode m) = ⊥

-- A policy of its own: a known model, known classes, and what its mode asks.
abbrev pub IsPolicy : List String → List String → Policy → Type 0
IsPolicy ids models p =
    (known models p.model_id ≡ true) × All (λ c. is_class c ≡ true) p.classes × IsMode ids p p.mode

abbrev pub IsValid : Spec → List String → List String → Type 0
IsValid spec ids models =
    All (IsPolicy ids models) spec.policies
    × Apart [] (map (λ p. p.model_id) spec.policies)
    × Apart [] (pinned_nodes spec.policies)
    × All (λ c. class_percent c spec.policies ≤ 10_000) class_ids
    × ((spec.default_model ≡ "" → ⊥) → known models spec.default_model ≡ true)

module _ {A : Type 0} where
  nil_left : (xs ys : List A) → xs ++ ys ≡ [] → xs ≡ []
  nil_left [] ys e = refl
  nil_left (x ∷ xs) ys e = absurd (ground (arith, e))

  nil_right : (xs ys : List A) → xs ++ ys ≡ [] → ys ≡ []
  nil_right [] ys e = e
  nil_right (x ∷ xs) ys e = absurd (ground (arith, e))

class_errors-All :
    (at : String) (cs : List String) → class_errors at cs ≡ [] → All (λ c. is_class c ≡ true) cs
unfolding class_errors
class_errors-All at [] e = tt
class_errors-All at (c ∷ cs) e = elim (Bool-cases (is_class c)) [
  | inl t ↦ (t, class_errors-All at cs (rw t at e))
  | inr f ↦
      absurd
        (let e' : (unknown_class at c ∷ class_errors at cs) ≡ [] = rw f at e in ground (arith, e'))
]

-- The map `pinned` has every node of a list.
abbrev Covers : Pinned → List String → Type 0
Covers t [] = Unit {0}
Covers t (n ∷ ns) = (str_eq (pin_of n t) "" ≡ false) × Covers t ns

Covers-In :
    (t : Pinned) (n : String) (ns : List String)
    → Covers t ns
    → str_eq (pin_of n t) "" ≡ true
    → In n ns
    → ⊥
Covers-In t n [] c e i = i
Covers-In t n (k ∷ ks) c e (inl q) = ground (arith, c.0, e, ap (λ x. pin_of x t) q)
Covers-In t n (k ∷ ks) c e (inr i) = Covers-In t n ks c.1 e i

Covers-insert :
    (t : Pinned) (n at : String) (ns : List String)
    → str_eq at "" ≡ false
    → Covers t ns
    → Covers (insert n at t) ns
Covers-insert t n at [] f c = tt
Covers-insert t n at (k ∷ ks) f c =
    (ground (arith, f, c.0, lookup-insert n k at t), Covers-insert t n at ks f c.1)

-- The nodes of an accepted pin, and the nodes that the map has then.
abbrev pub noted : List String → List String → List String
noted [] seen = seen
noted (n ∷ ns) seen = noted ns (n ∷ seen)

pin_errors-Apart :
    (ids : List String) (at : String) (ns seen : List String) (t : Pinned)
    → str_eq at "" ≡ false
    → Covers t seen
    → (pin_errors ids at ns t).0 ≡ []
    → All (λ n. known ids n ≡ true) ns
      × Apart seen ns
      × Covers (pin_errors ids at ns t).1 (noted ns seen)
unfolding pin_errors
pin_errors-Apart ids at [] seen t f c e = (tt, tt, c)
pin_errors-Apart ids at (n ∷ ns) seen t f c e = elim (Bool-cases (known ids n)) [
  | inr k ↦ absurd (
      let e' : (unknown_node at n ∷ (pin_errors ids at ns t).0) ≡ [] = rw k at e in
      ground (arith, e'))
  | inl k ↦ elim (Bool-cases (str_eq (pin_of n t) "")) [
    | inr q ↦ absurd (
        let e' : (pinned_already at n (pin_of n t) ∷ (pin_errors ids at ns t).0) ≡ [] =
          rw (k, q) at e in
        ground (arith, e'))
    | inl q ↦
        let new : str_eq (pin_of n (insert n at t)) "" ≡ false =
          ground (arith, f, lookup-insert n n at t, str_eq_refl n) in
        let (a, b, d) =
          pin_errors-Apart ids at ns (n ∷ seen) (insert n at t) f
            (new, Covers-insert t n at seen f c) (rw (k, q) at e) in
        rw (k, pin_errors, q) ((refl, a), (Covers-In t n seen c q, b), d)
  ]
]

Apart-append :
    (seen xs ys : List String) → Apart seen xs → Apart (noted xs seen) ys → Apart seen (xs ++ ys)
Apart-append seen [] ys a b = b
Apart-append seen (x ∷ xs) ys a b = (a.0, Apart-append (x ∷ seen) xs ys a.1 b)

abbrev seen_after : Policy → Mode → List String → List String
seen_after p pin seen = noted p.nodes seen
seen_after p m seen = seen

some_nodes : (at : String) (ns : List String) → no_node_errors at ns ≡ [] → ns ≡ [] → ⊥
some_nodes at [] e q = ground (arith, e)
some_nodes at (n ∷ ns) e q = ground (arith, q)

mode_errors-IsMode :
    (ids : List String) (p : Policy) (m : Mode) (seen : List String) (t : Pinned)
    → str_eq p.model_id "" ≡ false
    → Covers t seen
    → (mode_errors ids p m t).0 ≡ []
    → IsMode ids p m
      × Covers (mode_errors ids p m t).1 (seen_after p m seen)
      × (is_pin m ≡ true → Apart seen p.nodes)
unfolding mode_errors
mode_errors-IsMode ids p pin seen t f c e =
    let (a, b, d) =
      pin_errors-Apart ids p.model_id p.nodes seen t f c
        (nil_right (no_node_errors p.model_id p.nodes) (pin_errors ids p.model_id p.nodes t).0 e) in
    (
      (
        some_nodes p.model_id p.nodes (
            nil_left (no_node_errors p.model_id p.nodes) (pin_errors ids p.model_id p.nodes t).0 e),
        a,
      ),
      d,
      λ _. b,
    )
mode_errors-IsMode ids p replicas seen t f c e =
    (ground (arith, e), c, λ x. absurd (ground (arith, x)))
mode_errors-IsMode ids p percent seen t f c e =
    ((ground (arith, e), ground (arith, e)), c, λ x. absurd (ground (arith, x)))
mode_errors-IsMode ids p (other_mode m) seen t f c e = absurd (ground (arith, e))

abbrev AreValid : List String → List String → List String → List String → List Policy → Type 0
AreValid ids models names seen ps =
    All (IsPolicy ids models) ps
    × Apart names (map (λ p. p.model_id) ps)
    × Apart seen (pinned_nodes ps)

-- An unknown text is no item of the list.
known-In : (ids : List String) (id : String) → known ids id ≡ false → In id ids → ⊥
unfolding known
known-In [] id e i = i
known-In (j ∷ ids) id e (inl q) = ground (arith, e, q, eq_iff j id)
known-In (j ∷ ids) id e (inr i) = known-In ids id (ground (arith, e)) i

pinned_step :
    (p : Policy) (ps : List Policy) (m : Mode) (seen : List String)
    → p.mode ≡ m
    → (is_pin m ≡ true → Apart seen p.nodes)
    → Apart (seen_after p m seen) (pinned_nodes ps)
    → Apart seen (pinned_nodes (p ∷ ps))
pinned_step p ps pin seen e a b = rw e (Apart-append seen p.nodes (pinned_nodes ps) (a refl) b)
pinned_step p ps replicas seen e a b = rw e b
pinned_step p ps percent seen e a b = rw e b
pinned_step p ps (other_mode m) seen e a b = rw e b

pub named :
    (models : List String) (id : String)
    → known models "" ≡ false
    → known models id ≡ true
    → str_eq id "" ≡ false
named models id u k = elim (Bool-cases (str_eq id "")) [
  | inl q ↦ absurd (let e = ap (known models) ((eq_iff id "").0 q) in ground (arith, u, k, e))
  | inr q ↦ q
]

policies_errors-AreValid :
    (ids models names seen : List String) (ps : List Policy) (t : Pinned)
    → known models "" ≡ false
    → Covers t seen
    → policies_errors ids models names ps t ≡ []
    → AreValid ids models names seen ps
unfolding policies_errors policy_errors
policies_errors-AreValid ids models names seen [] t u c e = (tt, tt, tt)
policies_errors-AreValid ids models names seen (p ∷ ps) t u c e =
    let unknown : List Error =
      if known models p.model_id then [] else unknown_model p.model_id ∷ [] in
    let twice : List Error = if known names p.model_id then more_than_one p.model_id ∷ [] else [] in
    let es = (mode_errors ids p p.mode t).0 in
    let next = (mode_errors ids p p.mode t).1 in
    let rest = policies_errors ids models (p.model_id ∷ names) ps next in
    let listed = class_errors p.model_id p.classes in
    let own = nil_left (unknown ++ twice ++ listed ++ es) rest e in
    let ids_and_classes = nil_left (unknown ++ twice ++ listed) es own in
    let both = nil_left (unknown ++ twice) listed ids_and_classes in
    let k : known models p.model_id ≡ true =
      let e' = nil_left unknown twice both in ground (arith, e') in
    let n : known names p.model_id ≡ false =
      let e' = nil_right unknown twice both in ground (arith, e') in
    let (a, covers, b) =
      mode_errors-IsMode ids p p.mode seen t (named models p.model_id u k) c
        (nil_right (unknown ++ twice ++ listed) es own) in
    let (ok, once, apart) =
      policies_errors-AreValid ids models (p.model_id ∷ names) (seen_after p p.mode seen) ps next u
        covers (nil_right (unknown ++ twice ++ listed ++ es) rest e) in
    (
      (
        (
          k,
          class_errors-All p.model_id p.classes
              (nil_right (unknown ++ twice) listed ids_and_classes),
          a,
        ),
        ok,
      ),
      (known-In names p.model_id n, once),
      pinned_step p ps p.mode seen refl b apart,
    )

sum_errors-All :
    (cs : List String) (ps : List Policy)
    → sum_errors cs ps ≡ []
    → All (λ c. class_percent c ps ≤ 10_000) cs
unfolding sum_errors
sum_errors-All [] ps e = tt
sum_errors-All (c ∷ cs) ps e = elim (Bool-cases (ltb 10_000 (class_percent c ps))) [
  | inl q ↦ absurd (
      let e' : (percent_sum c (class_percent c ps) ∷ sum_errors cs ps) ≡ [] = rw q at e in
      ground (arith, e'))
  | inr q ↦ (ground (arith, q), sum_errors-All cs ps (rw q at e))
]

-- A placement without errors, for models that all have a name: every policy has a known model, known
-- classes and what its mode needs (known nodes, a count of at least 1, a percentage above 0 and at most
-- 100); no model has two policies and no node is pinned twice; the percentages of a class are at most
-- 100 together, and the default model is known.
pub validate-IsValid :
    (spec : Spec) (ids models : List String)
    → known models "" ≡ false
    → validate spec ids models ≡ []
    → IsValid spec ids models
unfolding validate
validate-IsValid spec ids models u e =
    let wrong : List Error =
      if not (str_eq spec.default_model "") && not (known models spec.default_model)
      then unknown_default spec.default_model ∷ []
      else [] in
    let policies = policies_errors ids models [] spec.policies [] in
    let sums = sum_errors class_ids spec.policies in
    let both = nil_left (policies ++ sums) wrong e in
    let last = nil_right (policies ++ sums) wrong e in
    let (ok, once, apart) =
      policies_errors-AreValid ids models [] [] spec.policies [] u tt
        (nil_left policies sums both) in
    (
      ok,
      once,
      apart,
      sum_errors-All class_ids spec.policies (nil_right policies sums both),
      λ named. ground (arith, last, eq_iff spec.default_model "", named),
    )
