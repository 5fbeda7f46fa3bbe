-- ===== src/Gateway/Target/Access.antt =====
-- Which backends a target reaches.
use phoneborg.Shared.{
  ◌≡◌, ◌≢◌, refl, ◌↔◌, ◌⊎◌, Bool, true, false, not, Option, List, String, eq_iff, arith, In,
  In-keep, keep-In, is_some, keep,
}
use phoneborg.Gateway.Backend.{Backend}
use phoneborg.Gateway.Target.{
  Target, resolved, member?, allows, filter, resolve, routable, any_target,
}

-- The pool lists the node.
abbrev pub Lists : Option (List (String × Bool)) → String → Type 0
Lists nodes id = member? id nodes ≡ true

-- What it takes for a target to reach a backend, in the terms of the documentation: the target is
-- enabled; a node target reaches its own node; any other keeps to its pool's nodes, its models and
-- its model, never reaches an external orchestrator, and reaches a pool head only through a pool
-- that lists it.
pub record Reaches (t : Target) (b : Backend) : Type 0 where
  pub enabled : t.disabled ≡ false
  pub node_target : t.node ≢ "" → t.node ≡ b.node_id
  pub no_orchestrator : t.node ≡ "" → b.orchestrator_only ≡ false
  pub pool_head : t.node ≡ "" → b.pool_only ≡ true → Lists t.nodes b.node_id
  pub in_pool : t.node ≡ "" → is_some t.nodes ≡ true → Lists t.nodes b.node_id
  pub in_models : t.node ≡ "" → is_some t.models ≡ true → Lists t.models b.model
  pub serves : t.node ≡ "" → (t.model ≡ "") ⊎ (b.model ≡ t.model)

-- `allows` is exactly this, for every target and every backend with a node id.
pub allows-Reaches : (t : Target) (b : Backend) → b.node_id ≢ "" → (allows t b ≡ true) ↔ Reaches t b
unfolding allows
allows-Reaches t b n = (
  λ h. ground (
    arith,
    n,
    eq_iff t.node b.node_id,
    eq_iff b.node_id t.node,
    eq_iff t.node "",
    eq_iff t.model "",
    eq_iff b.model t.model,
  ),
  λ h. ground (
    arith,
    n,
    eq_iff t.node b.node_id,
    eq_iff b.node_id t.node,
    eq_iff t.node "",
    eq_iff t.model "",
    eq_iff b.model t.model,
  ),
)

allows-auto :
    (b : Backend)
    → b.node_id ≢ ""
    → (allows (record any_target { label = "auto" }) b ≡ true)
      ↔ ((b.orchestrator_only ≡ false) × (b.pool_only ≡ false))
unfolding allows
allows-auto b n = (λ h. ground (arith, n, eq_iff "" b.node_id), λ h. ground arith)

-- The model name "auto" resolves, whatever the resolver of pools and nodes, to a target that
-- reaches exactly the backends that are not drained and are neither external orchestrators nor
-- pool heads.
auto-filter :
    (targets : Option (String → Option Target)) (all : List Backend) (b : Backend)
    → b.node_id ≢ ""
    → (t : Target) × (resolve targets "auto" ≡ resolved t)
      × (In b (filter t (routable all)) ↔ (
          In b all × (b.drained ≡ false) × (b.orchestrator_only ≡ false) × (b.pool_only ≡ false)))
unfolding resolve filter routable
auto-filter targets all b n =
    let t : Target = record any_target { label = "auto" } in
    (
      t,
      refl,
      (
        λ i.
            let (j, reach) = In-keep (allows t) b (keep (λ x. not x.drained) all) i in
            let (k, live) = In-keep (λ x. not x.drained) b all j in
            let free = (allows-auto b n).0 reach in (k, ground arith, free.0, free.1),
        λ (k, live, o, p).
            keep-In (allows t) b (keep (λ x. not x.drained) all)
              (keep-In (λ x. not x.drained) b all k (ground arith)) ((allows-auto b n).1 (o, p)),
      ),
    )
