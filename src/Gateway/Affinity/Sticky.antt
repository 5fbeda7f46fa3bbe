-- ===== src/Gateway/Affinity/Sticky.antt =====
-- A session stays where it is while its node can serve it.
use phoneborg.Shared.{
  ℕ, zero, suc, ◌+◌, ◌≤◌, ◌<◌, ◌≡◌, ◌≢◌, refl, sym, ◌∙◌, ap, subst, ◌⊎◌, inl, inr, Bool, true,
  false, some, List, [], ◌∷◌, String, str_eq, eq_iff, ltb_ge, lookup, insert, length, arith,
  Bool-cases, In,
}
use phoneborg.Gateway.Backend.{Backend, Request, any_non_hot}
use phoneborg.Gateway.Affinity.{
  Pin, Affinity, hit, fresh_keys, trim, prune, min_inflight, is_usable, find_backend, Picked, repin,
  pick_pinned, pick_pruned, pick,
}
use phoneborg.Gateway.Affinity.Pick.{find_backend-In, Remembers, pick-IsSafe}

find_backend-some :
    (test : Backend → Bool) (b : Backend) (c : List Backend)
    → In b c
    → test b ≡ true
    → (r : Backend) × (find_backend test c ≡ some r)
find_backend-some test b [] i t = absurd i
find_backend-some test b (x ∷ xs) i t = elim (Bool-cases (test x)) [
  | inl e ↦ (x, rw e)
  | inr e ↦ let (r, q) = find_backend-some test b xs (ground (arith, ap test)) t in (r, rw e q)
]

min_inflight-le :
    (inflight : String → ℕ) (b : Backend) (c : List Backend)
    → In b c
    → min_inflight inflight c ≤ inflight b.node_id
min_inflight-le inflight b [] i = absurd i
min_inflight-le inflight b (x ∷ []) (inl e) = rw e (omega arith)
min_inflight-le inflight b (x ∷ []) (inr i) = absurd i
min_inflight-le inflight b (x ∷ y ∷ ys) (inl e) = rw e (omega arith)
min_inflight-le inflight b (x ∷ y ∷ ys) (inr i) =
    omega (arith, min_inflight-le inflight b (y ∷ ys) i)

-- The backend may keep a session: it is cool, or all are hot, and it is less than `spill` requests
-- busier than the least busy candidate.
abbrev pub MayKeep : ℕ → List Backend → (String → ℕ) → Backend → Type 0
MayKeep spill c inflight b =
    ((b.hot ≡ false) ⊎ (any_non_hot c ≡ false))
    × (inflight b.node_id < min_inflight inflight c + spill)

pick_pruned_pinned :
    (a : Affinity) (req : Request) (c : List Backend) (inflight : String → ℕ) (now : ℕ) (p : Pin)
    → str_eq req.affinity_key "" ≡ false
    → lookup req.affinity_key a.keys ≡ some p
    → pick_pruned a req c inflight now ≡ pick_pinned a req c inflight now p
unfolding pick_pruned
pick_pruned_pinned a req c inflight now p h e = rw (h, e, pick_pruned)

abbrev hit_of : Affinity → Request → ℕ → Pin → Backend → Picked
hit_of a req now p r = record {
  after = record a { keys = insert req.affinity_key (record p { last = now }) a.keys };
  backend = some r;
  decision = hit;
}

pick_pinned_hit :
    (a : Affinity) (req : Request) (c : List Backend) (inflight : String → ℕ) (now : ℕ) (p : Pin)
    (r : Backend)
    → find_backend (is_usable a p c inflight) c ≡ some r
    → pick_pinned a req c inflight now p ≡ hit_of a req now p r
unfolding pick_pinned
pick_pinned_hit a req c inflight now p r e = rw (e, pick_pinned)

pick_pruned-hit :
    (a : Affinity) (req : Request) (c : List Backend) (inflight : String → ℕ) (now : ℕ) (p : Pin)
    (b : Backend)
    → req.affinity_key ≢ ""
    → lookup req.affinity_key a.keys ≡ some p
    → In b c
    → b.node_id ≡ p.node
    → MayKeep a.spill c inflight b
    → let r = pick_pruned a req c inflight now in
      (r.decision ≡ hit) × (r' : Backend) × (r.backend ≡ some r') × (r'.node_id ≡ p.node)
pick_pruned-hit a req c inflight now p b n e i q k =
    let other : str_eq req.affinity_key "" ≡ false =
      ground (arith, eq_iff req.affinity_key "", n) in
    let (r, f) =
      find_backend-some (is_usable a p c inflight) b c i
        (ground (arith, eq_iff b.node_id p.node, min_inflight-le inflight b c i)) in
    let (_, t) = find_backend-In (is_usable a p c inflight) r c f in
    rw
      (
        pick_pruned_pinned a req c inflight now p other e,
        pick_pinned_hit a req c inflight now p r f,
      )
      (refl, r, refl, ground (arith, eq_iff r.node_id p.node))

lookup-fresh_keys :
    (ttl now : ℕ) (key : String) (p : Pin) (m : List (String × Pin))
    → lookup key m ≡ some p
    → now ≤ p.last + ttl
    → lookup key (fresh_keys ttl now m) ≡ some p
lookup-fresh_keys ttl now key p [] e h = e
lookup-fresh_keys ttl now key p ((j, w) ∷ m) e h = ground (arith, lookup-fresh_keys ttl now key p m)

length-fresh_keys :
    (ttl now : ℕ) (m : List (String × Pin)) → length (fresh_keys ttl now m) ≤ length m
length-fresh_keys ttl now [] = omega arith
length-fresh_keys ttl now ((j, w) ∷ m) = ground (arith, length-fresh_keys ttl now m)

trim_small :
    (fuel max_keys : ℕ) (m : List (String × Pin)) → length m ≤ max_keys → trim fuel max_keys m ≡ m
unfolding trim
trim_small zero max_keys m h = refl
trim_small (suc fuel) max_keys m h = rw (ltb_ge max_keys (length m) (omega arith))

lookup-prune :
    (a : Affinity) (now : ℕ) (key : String) (p : Pin)
    → lookup key a.keys ≡ some p
    → now ≤ p.last + a.ttl
    → length a.keys ≤ a.max_keys
    → lookup key (prune a now).keys ≡ some p
unfolding prune
lookup-prune a now key p e h k =
    rw
      (trim_small (length (fresh_keys a.ttl now a.keys)) a.max_keys (fresh_keys a.ttl now a.keys)
        (omega (arith, length-fresh_keys a.ttl now a.keys)))
      (lookup-fresh_keys a.ttl now key p a.keys e h)

-- A pick changes no setting, and neither does pruning.
abbrev SameSettings : Affinity → Affinity → Type 0
SameSettings a a' =
    (a'.ttl ≡ a.ttl)
    × (a'.max_keys ≡ a.max_keys)
    × (a'.spill ≡ a.spill)
    × (a'.large_prompt ≡ a.large_prompt)

pick_settings :
    (a : Affinity) (req : Request) (c : List Backend) (inflight : String → ℕ) (now : ℕ)
    → SameSettings a (pick a req c inflight now).after
unfolding pick prune pick_pruned pick_pinned repin
pick_settings a req c inflight now = ground arith

-- A session stays on its node: it was pinned by a pick, at most `TTL` ago and within `MaxKeys`, and
-- the node is a candidate again that is cool (or all are hot) and less than `Spill` requests
-- busier than the least busy candidate. Then the next pick for the key is a hit on that node,
-- whatever the candidates and their loads are now.
pub pick-hit :
    (a : Affinity) (req next : Request) (c d : List Backend) (inflight load : String → ℕ)
    (now later : ℕ) (r b : Backend)
    → req.affinity_key ≢ ""
    → c ≢ []
    → let first = pick a req c inflight now in
      first.backend ≡ some r
      → length first.after.keys ≤ a.max_keys
      → later ≤ now + a.ttl
      → next.affinity_key ≡ req.affinity_key
      → In b d
      → b.node_id ≡ r.node_id
      → MayKeep a.spill d load b
      → let second = pick first.after next d load later in
        (second.decision ≡ hit)
        × (r' : Backend) × (second.backend ≡ some r')
        × (r'.node_id ≡ r.node_id)
pick-hit a req next c d inflight load now later r b n h e few soon same i q k =
    let first = pick a req c inflight now in
    let settings = pick_settings a req c inflight now in
    let (p, found, node, last) =
      subst (Remembers req.affinity_key now first.after.keys) e
        ((pick-IsSafe a req c inflight now h).1 n) in
    let kept =
      lookup-prune first.after later req.affinity_key p found (omega arith) (omega arith) in
    let (done, r', back, there) =
      pick_pruned-hit (prune first.after later) next d load later p b (rw same n) (rw same kept) i
        (q ∙ sym node) (unfold prune in ground arith) in
    (unfold pick in done, r', unfold pick in back, there ∙ node)
