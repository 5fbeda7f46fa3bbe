-- ===== src/Pools/Reach.antt =====
-- Which backends a request for a pool may reach.
use Prim.Native.String.{◌++◌}
use phoneborg.Shared.{
  ℕ, ◌≡◌, ◌≢◌, ◌⊎◌, refl, ap, sym, subst, ◌∙◌, Bool, true, false, ◌||◌, none, some, List, [], ◌∷◌,
  String, str_eq, eq_iff, if◌then◌else◌, insert, lookup-insert, map, In, In-append, arith,
  Bool-cases, inl, inr,
}
use phoneborg.Registry.{active, state_eq, is_drained}
use phoneborg.Classes.{class_of}
use phoneborg.Gateway.Backend.{Backend}
use phoneborg.Gateway.Target.{Target, member, member?, allows, any_target}
use phoneborg.Gateway.Target.Access.{Reaches, allows-Reaches}
use phoneborg.Fleet.{Phone, ram_of, runtime_of, is_hot}
use phoneborg.Pools.{
  Pool, PoolRouting, no_routing, by_spread, by_affinity, by_superborg, by_big_brain, other_routing,
  contains, is_empty, is_positive, is_big_brain,
}
use phoneborg.Pools.Members.{
  PoolMember, is_eligible, node_reason, member_reason, model_reason, below, pool_members, External,
  external_reason, external_members, or_unknown, model_of, tps_of, is_switching, takes_requests,
  speed_of,
}
use phoneborg.Pools.Target.{
  View, node_set, model_set, pool_target, members_of, with_picker, resolve_pool,
}

-- A model that the pool serves, fast enough.
abbrev pub ServesModel : Pool → String → ℕ → Type 0
ServesModel p model tps =
    (is_empty p.models ≡ false → contains p.models model ≡ true)
    × (is_positive p.min_gen_tps ≡ true → below p.min_gen_tps tps ≡ false)

-- A phone that is eligible: of the pool's nodes, by its id or its alias, of its classes, not drained,
-- active and ready, not about to switch its model, not hot, and serving the model.
pub record Admits (v : View) (p : Pool) (n : Phone) : Type 0 where
  pub is_listed :
      is_empty p.nodes ≡ false → (contains p.nodes n.id || contains p.nodes n.alias) ≡ true
  pub class : is_empty p.classes ≡ false → contains p.classes (class_of (ram_of n)) ≡ true
  pub in_use : is_drained n.id v.drained ≡ false
  pub is_active : state_eq n.state active ≡ true
  pub is_ready : takes_requests (runtime_of n) ≡ true
  pub stays : is_switching (runtime_of n) ≡ false
  pub cool : is_hot v.limit n ≡ false
  pub serves : ServesModel p (model_of (runtime_of n)) (tps_of (runtime_of n))

-- An external engine that is eligible with a model.
pub record AdmitsExternal (p : Pool) (x : External) (model : String) : Type 0 where
  pub is_listed :
      is_empty p.nodes ≡ false → (contains p.nodes x.node_id || contains p.nodes x.name) ≡ true
  pub no_orchestrator : x.is_orchestrator ≡ false
  pub no_classes : is_empty p.classes ≡ true
  pub in_use : x.drained ≡ false
  pub is_active : x.is_active ≡ true
  pub serves : ServesModel p model (speed_of x model)

model_reason-ServesModel :
    (p : Pool) (model : String) (tps : ℕ)
    → model_reason p model tps ≡ none
    → ServesModel p model tps
model_reason-ServesModel p model tps e = (λ h. ground (arith, e, h), λ h. ground (arith, e, h))

member_reason-Admits :
    (v : View) (p : Pool) (n : Phone)
    → member_reason p n (is_drained n.id v.drained) v.limit ≡ none
    → Admits v p n
unfolding member_reason node_reason
member_reason-Admits v p n e = record {
  is_listed = λ h. ground (arith, e, h);
  class = λ h. ground (arith, e, h);
  in_use = ground (arith, e);
  is_active = ground (arith, e);
  is_ready = ground (arith, e);
  stays = ground (arith, e);
  cool = ground (arith, e);
  serves =
      model_reason-ServesModel p (model_of (runtime_of n)) (tps_of (runtime_of n))
        (ground (arith, e));
}

external_reason-AdmitsExternal :
    (p : Pool) (x : External) (model : String)
    → external_reason p x model ≡ none
    → AdmitsExternal p x model
unfolding external_reason
external_reason-AdmitsExternal p x model e = record {
  is_listed = λ h. ground (arith, e, h);
  no_orchestrator = ground (arith, e);
  no_classes = ground (arith, e);
  in_use = ground (arith, e);
  is_active = ground (arith, e);
  serves = model_reason-ServesModel p model (speed_of x model) (ground (arith, e));
}

-- A key of either set stands for an eligible member.
node_set-In :
    (id : String) (t : List (String × Bool)) (ms : List PoolMember)
    → member id (node_set t ms) ≡ true
    → (member id t ≡ true)
      ⊎ ((m : PoolMember) × In m ms × (is_eligible m ≡ true) × (m.node_id ≡ id))
unfolding node_set
node_set-In id t [] h = inl h
node_set-In id t (m ∷ ms) h = elim (Bool-cases (is_eligible m)) [
  | inr e ↦ elim (node_set-In id t ms (rw (e, node_set) at h)) [
    | inl k ↦ inl k
    | inr (k, i, f, q) ↦ inr (k, inr i, f, q)
  ]
  | inl e ↦ elim (node_set-In id (insert m.node_id true t) ms (rw (e, node_set) at h)) [
    | inr (k, i, f, q) ↦ inr (k, inr i, f, q)
    | inl k ↦ elim (Bool-cases (str_eq m.node_id id)) [
      | inl q ↦ inr (m, inl refl, e, (eq_iff m.node_id id).0 q)
      | inr q ↦ inl (ground (arith, k, q, lookup-insert m.node_id id true t))
    ]
  ]
]

model_set-In :
    (id : String) (t : List (String × Bool)) (ms : List PoolMember)
    → member id (model_set t ms) ≡ true
    → (member id t ≡ true) ⊎ ((m : PoolMember) × In m ms × (is_eligible m ≡ true) × (m.model ≡ id))
unfolding model_set
model_set-In id t [] h = inl h
model_set-In id t (m ∷ ms) h = elim (Bool-cases (is_eligible m)) [
  | inr e ↦ elim (model_set-In id t ms (rw (e, model_set) at h)) [
    | inl k ↦ inl k
    | inr (k, i, f, q) ↦ inr (k, inr i, f, q)
  ]
  | inl e ↦ elim (model_set-In id (insert m.model true t) ms (rw (e, model_set) at h)) [
    | inr (k, i, f, q) ↦ inr (k, inr i, f, q)
    | inl k ↦ elim (Bool-cases (str_eq m.model id)) [
      | inl q ↦ inr (m, inl refl, e, (eq_iff m.model id).0 q)
      | inr q ↦ inl (ground (arith, k, q, lookup-insert m.model id true t))
    ]
  ]
]

-- Who is an eligible member: a phone or a model of an external engine.
abbrev pub IsMember : View → Pool → PoolMember → Type 0
IsMember v p m =
    ((n : Phone) × In n v.nodes
      × (n.id ≡ m.node_id)
      × (model_of (runtime_of n) ≡ m.model)
      × Admits v p n)
    ⊎ ((x : External) × In x v.externals × (x.node_id ≡ m.node_id) × AdmitsExternal p x m.model)

eligible_none : (m : PoolMember) → is_eligible m ≡ true → m.reason ≡ none
eligible_none m e = ground (arith, e)

In-map :
    {A : Type 0} (f : A → PoolMember) (m : PoolMember) (xs : List A)
    → In m (map f xs)
    → (x : A) × In x xs × (m ≡ f x)
In-map f m [] i = absurd i
In-map f m (x ∷ xs) (inl q) = (x, inl refl, q)
In-map f m (x ∷ xs) (inr i) = let (y, j, q) = In-map f m xs i in (y, inr j, q)

external_members-IsMember :
    (v : View) (p : Pool) (m : PoolMember) (xs : List External)
    → ((x : External) → In x xs → In x v.externals)
    → In m (external_members p xs)
    → m.reason ≡ none
    → IsMember v p m
unfolding external_members
external_members-IsMember v p m [] sub i e = absurd i
external_members-IsMember v p m (x ∷ xs) sub i e =
    let row : String → PoolMember = λ model. record {
      node_id = x.node_id;
      alias = x.name;
      model = model;
      reason = external_reason p x model;
    } in
    elim (In-append m (map row (or_unknown x.discovered_models)) (external_members p xs) i) [
      | inr j ↦ external_members-IsMember v p m xs (λ y k. sub y (inr k)) j e
      | inl j ↦
          let (model, _, q) = In-map row m (or_unknown x.discovered_models) j in
          let ok : external_reason p x model ≡ none = ap (λ r. r.reason) (sym q) ∙ e in
          let same : model ≡ m.model = ap (λ r. r.model) (sym q) in
          inr (
            x,
            sub x (inl refl),
            ap (λ r. r.node_id) (sym q),
            subst (AdmitsExternal p x) same (external_reason-AdmitsExternal p x model ok),
          )
    ]

members_of-IsMember :
    (v : View) (p : Pool) (m : PoolMember)
    → In m (members_of v p)
    → is_eligible m ≡ true
    → IsMember v p m
unfolding pool_members
members_of-IsMember v p m i e =
    let row : Phone → PoolMember = λ n. record {
      node_id = n.id;
      alias = n.alias;
      model = model_of (runtime_of n);
      reason = member_reason p n (is_drained n.id v.drained) v.limit;
    } in
    elim (In-append m (map row v.nodes) (external_members p v.externals) i) [
      | inl j ↦
          let (n, k, q) = In-map row m v.nodes j in
          let ok : member_reason p n (is_drained n.id v.drained) v.limit ≡ none =
            ap (λ r. r.reason) (sym q) ∙ eligible_none m e in
          inl (
            n,
            k,
            ap (λ r. r.node_id) (sym q),
            ap (λ r. r.model) (sym q),
            member_reason-Admits v p n ok,
          )
      | inr j ↦ external_members-IsMember v p m v.externals (λ x k. k) j (eligible_none m e)
    ]

with_picker-same :
    (p : Pool) (r : PoolRouting) (t : Target)
    → ((with_picker p r t).nodes ≡ t.nodes)
      × ((with_picker p r t).models ≡ t.models)
      × ((with_picker p r t).node ≡ t.node)
with_picker-same p no_routing t = (refl, refl, refl)
with_picker-same p by_spread t = (refl, refl, refl)
with_picker-same p by_affinity t = (refl, refl, refl)
with_picker-same p by_superborg t = (refl, refl, refl)
with_picker-same p by_big_brain t = (refl, refl, refl)
with_picker-same p (other_routing r) t = (refl, refl, refl)

-- The head of the pool's Big Brain.
abbrev pub IsHead : View → Pool → Backend → Type 0
IsHead v p b =
    (is_big_brain p.routing ≡ true) × (b.node_id ≡ "bb:" ++ p.name) × (v.head_ready p.name ≡ true)

-- The backend's node is a member, and some member serves the backend's model.
abbrev pub IsServedBy : View → Pool → Backend → Type 0
IsServedBy v p b =
    ((m : PoolMember) × (m.node_id ≡ b.node_id) × IsMember v p m)
    × ((m : PoolMember) × (m.model ≡ b.model) × IsMember v p m)

one_key : (id k : String) (b : Bool) → member id ((k, b) ∷ []) ≡ true → (id ≡ k) × (b ≡ true)
one_key id k b h = (ground (arith, h, eq_iff k id), ground (arith, h))

-- A read of the targets' sets gives an eligible member.
of_nodes :
    (v : View) (p : Pool) (id : String)
    → member id (node_set [] (members_of v p)) ≡ true
    → (m : PoolMember) × (m.node_id ≡ id) × IsMember v p m
of_nodes v p id h = elim (node_set-In id [] (members_of v p) h) [
  | inl e ↦ absurd (ground (arith, e))
  | inr (m, i, e, q) ↦ (m, q, members_of-IsMember v p m i e)
]

of_models :
    (v : View) (p : Pool) (id : String)
    → member id (model_set [] (members_of v p)) ≡ true
    → (m : PoolMember) × (m.model ≡ id) × IsMember v p m
of_models v p id h = elim (model_set-In id [] (members_of v p) h) [
  | inl e ↦ absurd (ground (arith, e))
  | inr (m, i, e, q) ↦ (m, q, members_of-IsMember v p m i e)
]

served :
    (v : View) (p : Pool) (b : Backend)
    → Reaches (with_picker p p.routing (pool_target p (members_of v p) (v.head_ready p.name))) b
    → IsHead v p b ⊎ IsServedBy v p b
unfolding pool_target
served v p b r =
    let t = pool_target p (members_of v p) (v.head_ready p.name) in
    let (ns, ms, nd) = with_picker-same p p.routing t in
    let listed : member? b.node_id t.nodes ≡ true =
      subst (λ x. member? b.node_id x ≡ true) ns (r.in_pool nd (rw ns refl)) in
    elim (Bool-cases (is_big_brain p.routing)) [
      | inl big ↦
          let one : member b.node_id (("bb:" ++ p.name, v.head_ready p.name) ∷ []) ≡ true =
            subst
              (λ c.
                member b.node_id (
                  if c
                  then ("bb:" ++ p.name, v.head_ready p.name) ∷ []
                  else node_set [] (members_of v p))
                ≡ true)
              big listed in
          let (q, ready) = one_key b.node_id ("bb:" ++ p.name) (v.head_ready p.name) one in
          inl (big, q, ready)
      | inr small ↦
          let models : t.models ≡ some (model_set [] (members_of v p)) =
            ap (λ c. if c then none else some (model_set [] (members_of v p))) small in
          let node : member b.node_id (node_set [] (members_of v p)) ≡ true =
            subst
              (λ c.
                member b.node_id (
                  if c
                  then ("bb:" ++ p.name, v.head_ready p.name) ∷ []
                  else node_set [] (members_of v p))
                ≡ true)
              small listed in
          let all : member? b.model (some (model_set [] (members_of v p))) ≡ true =
            subst (λ x. member? b.model x ≡ true) (ms ∙ models)
              (r.in_models nd (rw (ms ∙ models) refl)) in
          inr (of_nodes v p b.node_id node, of_models v p b.model all)
    ]

-- A backend that a request for a pool may reach, whatever the pool: the pool is enabled, and the
-- backend is the ready head of the pool's Big Brain, or its node is an eligible member and its model is
-- that of an eligible member. An eligible phone is one of the pool's nodes and classes, not drained,
-- active, ready, not about to switch its model, not hot, with an allowed model and the wanted speed; an
-- eligible external engine is no orchestrator.
pub resolve_pool-IsServedBy :
    (v : View) (name : String) (p : Pool) (b : Backend)
    → b.node_id ≢ ""
    → allows (resolve_pool v name p) b ≡ true
    → (p.disabled ≡ false) × (IsHead v p b ⊎ IsServedBy v p b)
unfolding resolve_pool
resolve_pool-IsServedBy v name p b named h =
    let off : Target = record any_target { label = name; disabled = true } in
    let t = pool_target p (members_of v p) (v.head_ready p.name) in
    let on = with_picker p p.routing t in
    elim (Bool-cases p.disabled) [
      | inl d ↦
          let h' : allows off b ≡ true = subst (λ c. allows (if c then off else on) b ≡ true) d h in
          absurd (let e = ((allows-Reaches off b named).0 h').enabled in ground (arith, e))
      | inr d ↦
          let h' : allows on b ≡ true = subst (λ c. allows (if c then off else on) b ≡ true) d h in
          (d, served v p b ((allows-Reaches on b named).0 h'))
    ]
