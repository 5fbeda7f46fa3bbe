-- ===== src/Fleet/Describe.antt =====
-- What the backend of a phone says of it.
use phoneborg.Shared.{
  ℕ, ◌<◌, ◌≡◌, ◌≢◌, ◌↔◌, ap, ◌&&◌, none, Option, lookup, ℤ, pos, leb_ℤ, ◌≤ℤ◌, eq_iff, str_eq,
  if_true, if_false, refl, sym, subst, ◌∙◌, Bool, true, false, some, List, String, ltb,
  Option-cases, inl, inr, arith,
}
use phoneborg.Gateway.Backend.{Backend}
use phoneborg.Registry.{NodeState, unset, active, benchmarking, suspect, offline, state_eq}
use phoneborg.Fleet.{Phone, Runtime, Heartbeat, switching, is_hot, serves, backend_of}

is_active : (s : NodeState) → state_eq s active ≡ true → s ≡ active
is_active active e = refl
is_active benchmarking e = absurd (ground (arith, e))
is_active suspect e = absurd (ground (arith, e))
is_active unset e = absurd (ground (arith, e))
is_active offline e = absurd (ground (arith, e))

-- The phone has reported a temperature that is at the limit or above, and there is a limit.
abbrev pub IsHot : ℕ → Phone → Type 0
IsHot limit n =
    (0 < limit)
    × ((hb : Heartbeat) × (t : ℤ) × (n.last_heartbeat ≡ some hb)
        × (hb.temperature ≡ some t)
        × (pos limit ≤ℤ t))

abbrev hot_by : ℕ → Option Heartbeat → Bool
hot_by limit o = elim o as (λ _. Bool) [
  | none ↦ false
  | some hb ↦ elim hb.temperature as (λ _. Bool) [ none ↦ false | some t ↦ leb_ℤ (pos limit) t ]
]

hot_reported :
    (limit : ℕ) (o : Option Heartbeat)
    → hot_by limit o ≡ true
    → (hb : Heartbeat) × (t : ℤ) × (o ≡ some hb) × (hb.temperature ≡ some t) × (pos limit ≤ℤ t)
hot_reported limit none h = absurd (ground (arith, h))
hot_reported limit (some hb) h = elim (Option-cases hb.temperature) [
  | inl e ↦ absurd (
      let h' : false ≡ true =
        subst (λ o. (elim o as (λ _. Bool) [ none ↦ false | some t ↦ leb_ℤ (pos limit) t ]) ≡ true)
          e h in
      ground (arith, h'))
  | inr (t, e) ↦
      let h' : leb_ℤ (pos limit) t ≡ true =
        subst (λ o. (elim o as (λ _. Bool) [ none ↦ false | some t ↦ leb_ℤ (pos limit) t ]) ≡ true)
          e h in
      (hb, t, refl, e, ground (arith, h'))
]

reported_hot :
    (limit : ℕ) (o : Option Heartbeat) (hb : Heartbeat) (t : ℤ)
    → o ≡ some hb
    → hb.temperature ≡ some t
    → pos limit ≤ℤ t
    → hot_by limit o ≡ true
reported_hot limit o hb t p q l =
    let here : leb_ℤ (pos limit) t ≡ true = ground (arith, l) in
    subst (λ o. hot_by limit o ≡ true) (sym p)
      (subst (λ o. (elim o as (λ _. Bool) [ none ↦ false | some t ↦ leb_ℤ (pos limit) t ]) ≡ true)
        (sym q) here)

both_true : (a b : Bool) → (a && b) ≡ true → (a ≡ true) × (b ≡ true)
both_true a b h = (ground (arith, h), ground (arith, h))

true_both : (a b : Bool) → a ≡ true → b ≡ true → (a && b) ≡ true
true_both a b h k = ground (arith, h, k)

is_hot-IsHot : (limit : ℕ) (n : Phone) → (is_hot limit n ≡ true) ↔ IsHot limit n
unfolding is_hot
is_hot-IsHot limit n = (
  λ h.
      let (l, r) = both_true (ltb 0 limit) (hot_by limit n.last_heartbeat) h in
      (ground (arith, l), hot_reported limit n.last_heartbeat r),
  λ h.
      true_both (ltb 0 limit) (hot_by limit n.last_heartbeat) (ground (arith, h.0))
        (let (hb, t, p, q, l) = h.1 in reported_hot limit n.last_heartbeat hb t p q l),
)

-- The node is active, its server is ready, reached by a port, and not about to switch its model.
abbrev pub IsUp : Phone → Runtime → Type 0
IsUp n rt =
    (n.state ≡ active)
    × (rt.ready ≡ true)
    × (rt.advertise_port ≢ 0)
    × (rt.state ≢ "downloading")
    × (rt.state ≢ "loading")

pub serves-IsUp : (n : Phone) (rt : Runtime) → serves n rt ≡ true → IsUp n rt
unfolding serves switching
serves-IsUp n rt h = (
  is_active n.state (ground (arith, h)),
  ground (arith, h),
  λ e. ground (arith, h, e),
  λ e. ground (arith, h, eq_iff rt.state "downloading", e),
  λ e. ground (arith, h, eq_iff rt.state "loading", e),
)

module _ (url : String → ℕ → String) (host : String) (limit : ℕ) where
  -- What the backend of a node says, and whether its speed is measured: then it is the tokens per second
  -- of its server, and else its benchmark.
  abbrev pub Describes : List (String × Bool) → Phone → Runtime → Backend × Bool → Type 0
  Describes drained n rt e =
      (e.0.node_id ≡ n.id)
      × (e.0.alias ≡ n.alias)
      × (e.0.model ≡ rt.model)
      × (e.0.ctx_size ≡ rt.ctx_size)
      × (rt.advertise_host ≢ "" → e.0.url ≡ url rt.advertise_host rt.advertise_port)
      × (rt.advertise_host ≡ "" → e.0.url ≡ url host rt.advertise_port)
      × ((e.0.drained ≡ true) ↔ (lookup n.id drained ≡ some true))
      × ((e.0.hot ≡ true) ↔ IsHot limit n)
      × (e.0.external ≡ false)
      × (e.0.orchestrator_only ≡ false)
      × (e.0.pool_only ≡ false)
      × (0 < rt.gen_tps → (e.1 ≡ true) × (e.0.speed ≡ rt.gen_tps))
      × (rt.gen_tps ≡ 0
          → (e.1 ≡ false)
            × ((g : ℕ) → n.benchmark ≡ some g → e.0.speed ≡ g)
            × (n.benchmark ≡ none → e.0.speed ≡ 0))

  pub backend_of-Describes :
      (drained : List (String × Bool)) (n : Phone) (rt : Runtime)
      → Describes drained n rt (backend_of url host limit drained n rt)
  unfolding backend_of
  backend_of-Describes drained n rt = (
    refl,
    refl,
    refl,
    refl,
    λ h.
        ap (λ a. url a rt.advertise_port)
          (if_false (str_eq rt.advertise_host "") host rt.advertise_host
            (ground (arith, h, eq_iff rt.advertise_host ""))),
    λ h.
        ap (λ a. url a rt.advertise_port)
          (if_true (str_eq rt.advertise_host "") host rt.advertise_host
            (ground (arith, h, eq_iff rt.advertise_host ""))),
    drain_flag (lookup n.id drained),
    is_hot-IsHot limit n,
    refl,
    refl,
    refl,
    λ h. (ground (arith, h), if_true (ltb 0 rt.gen_tps) _ _ (ground (arith, h))),
    λ h. (
      ground (arith, h),
      λ g b.
          if_false (ltb 0 rt.gen_tps) _ _ (ground (arith, h))
          ∙ ap (λ o. elim o as (λ _. ℕ) [ none ↦ 0 | some k ↦ k ]) b,
      λ b.
          if_false (ltb 0 rt.gen_tps) _ _ (ground (arith, h))
          ∙ ap (λ o. elim o as (λ _. ℕ) [ none ↦ 0 | some k ↦ k ]) b,
    ),
  )
    where
      drain_flag :
          (o : Option Bool)
          → ((elim o as (λ _. Bool) [ none ↦ false | some b ↦ b ]) ≡ true) ↔ (o ≡ some true)
      drain_flag none = (λ h. absurd (ground (arith, h)), λ h. absurd (ground (arith, h)))
      drain_flag (some b) = (λ h. ap some h, λ h. ground (arith, h))
