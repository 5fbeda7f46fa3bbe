-- ===== src/Gateway/Affinity.antt =====
-- controller/gateway/picker.go: session affinity, which keeps a session on the node that has its
-- prompt in cache. Times are numbers, an age is compared as `last + TTL < now`, and a negative spill
-- threshold is 0 (both never allow a hit). The empty key stands for no key and is never pinned.
pub mod Prune
pub mod Pick
pub mod Sticky
use phoneborg.Shared.{
  ℕ, zero, suc, ◌+◌, ◌-◌, ◌%◌, ◌<◌, min, Bool, true, false, not, ◌&&◌, ◌||◌, Option, none, some,
  List, [], ◌∷◌, String, str_eq, ltb, leb, if◌then◌else◌, lookup, insert, delete, length,
}
use phoneborg.Gateway.Backend.{Backend, Request, Score, non_hot, any_non_hot, least_by, bump}

pub record Pin : Type 0 where
  pub node : String
  pub last : ℕ
  pub large : Bool

pub record Affinity : Type 0 where
  pub ttl : ℕ
  pub max_keys : ℕ
  pub spill : ℕ
  pub large_prompt : ℕ
  pub rr : ℕ
  pub keys : List (String × Pin)

-- The label of the decision counter.
pub data Decision : Type 0 where
  hit miss spilled no_key : Decision

-- The first loop of `prune`.
abbrev pub fresh_keys : ℕ → ℕ → List (String × Pin) → List (String × Pin)
fresh_keys ttl now [] = []
fresh_keys ttl now ((k, p) ∷ m) =
    if ltb (p.last + ttl) now then fresh_keys ttl now m else (k, p) ∷ fresh_keys ttl now m

-- The key used longest ago, the first of several in the order of the map.
abbrev pub oldest_of : String → ℕ → List (String × Pin) → String
oldest_of k t [] = k
oldest_of k t ((j, p) ∷ m) = if ltb p.last t then oldest_of j p.last m else oldest_of k t m

abbrev pub drop_oldest : List (String × Pin) → List (String × Pin)
drop_oldest [] = []
drop_oldest ((k, p) ∷ m) = delete (oldest_of k p.last m) ((k, p) ∷ m)

-- The second loop of `prune`. Each round removes a key, so there are at most as many as keys.
unfoldable pub trim : ℕ → ℕ → List (String × Pin) → List (String × Pin)
trim zero max_keys m = m
trim (suc fuel) max_keys m =
    let rest = trim fuel max_keys (drop_oldest m) in if ltb max_keys (length m) then rest else m

unfoldable pub prune : Affinity → ℕ → Affinity
unfolding trim
prune a now =
    let m = fresh_keys a.ttl now a.keys in record a { keys = trim (length m) a.max_keys m }

-- `sessions`: the large sessions pinned to a node.
abbrev pub large_on : String → List (String × Pin) → ℕ
large_on node [] = 0
large_on node ((k, p) ∷ m) =
    if p.large && str_eq p.node node then suc (large_on node m) else large_on node m

-- The closure `fresh`: the pick of a new session, by requests in flight and large sessions.
unfoldable pub pick_fresh : ℕ → List Backend → (String → ℕ) → (String → ℕ) → ℕ × Option Backend
pick_fresh rr c inflight sessions = (
  bump rr,
  least_by (λ b. (inflight b.node_id, sessions b.node_id)) (bump rr % length (non_hot c))
      (non_hot c),
)

-- `none` on no candidates, where the code panics.
abbrev pub min_inflight : (String → ℕ) → List Backend → ℕ
min_inflight inflight [] = 0
min_inflight inflight (b ∷ []) = inflight b.node_id
min_inflight inflight (b ∷ c ∷ cs) = min (inflight b.node_id) (min_inflight inflight (c ∷ cs))

-- The candidate that serves a pinned session: the pinned node, unless it is hot and a cooler one is
-- there, or it is `spill` requests busier than the least busy one.
abbrev pub is_usable : Affinity → Pin → List Backend → (String → ℕ) → Backend → Bool
is_usable a p c inflight b =
    str_eq b.node_id p.node
    && not (b.hot && any_non_hot c)
    && ltb (inflight b.node_id - min_inflight inflight c) a.spill

abbrev pub find_backend : (Backend → Bool) → List Backend → Option Backend
find_backend test [] = none
find_backend test (b ∷ bs) = if test b then some b else find_backend test bs

pub record Picked : Type 0 where
  pub after : Affinity
  pub backend : Option Backend
  pub decision : Decision

-- A session that the pinned node does not serve is pinned to a fresh pick.
unfoldable pub repin :
    Affinity → Request → List Backend → (String → ℕ) → (String → ℕ) → ℕ → Decision → Picked
repin a req c inflight sessions now d =
    let (rr, r) = pick_fresh a.rr c inflight sessions in
    record {
      after = elim r as (λ _. Affinity) [
        | none ↦ record a { rr = rr }
        | some b ↦ record a {
          rr = rr;
          keys =
              insert req.affinity_key
                (record {
                  node = b.node_id;
                  last = now;
                  large = leb a.large_prompt req.prompt_bytes;
                })
                a.keys;
        }
      ];
      backend = r;
      decision = d;
    }

-- The pick for a key that has a pin. A large session is not counted against the node it leaves.
unfoldable pub pick_pinned : Affinity → Request → List Backend → (String → ℕ) → ℕ → Pin → Picked
pick_pinned a req c inflight now p = elim (find_backend (is_usable a p c inflight) c) [
  | some b ↦ record {
    after = record a { keys = insert req.affinity_key (record p { last = now }) a.keys };
    backend = some b;
    decision = hit;
  }
  | none ↦
      repin a req c inflight
        (λ node.
          if p.large && str_eq p.node node then large_on node a.keys - 1 else large_on node a.keys)
        now spilled
]

-- `Pick` behind the call of `prune`.
unfoldable pub pick_pruned : Affinity → Request → List Backend → (String → ℕ) → ℕ → Picked
pick_pruned a req c inflight now =
    let free = pick_fresh a.rr c inflight (λ node. large_on node a.keys) in
    if str_eq req.affinity_key ""
    then record { after = record a { rr = free.0 }; backend = free.1; decision = no_key }
    else elim (lookup req.affinity_key a.keys) as (λ _. Picked) [
      | none ↦ repin a req c inflight (λ node. large_on node a.keys) now miss
      | some p ↦ pick_pinned a req c inflight now p
    ]

unfoldable pub pick : Affinity → Request → List Backend → (String → ℕ) → ℕ → Picked
pick a req c inflight now = pick_pruned (prune a now) req c inflight now

-- `SetSpill`
unfoldable pub set_spill : Affinity → ℕ → Affinity
set_spill a n = record a { spill = n }

abbrev pub pins_on : String → List (String × Pin) → ℕ
pins_on node [] = 0
pins_on node ((k, p) ∷ m) = if str_eq p.node node then suc (pins_on node m) else pins_on node m

-- `Pins`: the store pruned, and the sessions of each node.
unfoldable pub pins : Affinity → ℕ → Affinity × (String → ℕ)
unfolding prune
pins a now = (prune a now, λ node. pins_on node (prune a now).keys)

abbrev pub without_node : String → List (String × Pin) → List (String × Pin)
without_node node [] = []
without_node node ((k, p) ∷ m) =
    if str_eq p.node node then without_node node m else (k, p) ∷ without_node node m

-- `Unpin`: the store, and how many sessions were forgotten.
unfoldable pub unpin : Affinity → String → Affinity × ℕ
unpin a node = (record a { keys = without_node node a.keys }, pins_on node a.keys)
