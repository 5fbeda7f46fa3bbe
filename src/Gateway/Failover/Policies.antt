-- ===== src/Gateway/Failover/Policies.antt =====
-- The routing policies of controller/gateway/picker.go behind the interface of the gateway.
use phoneborg.Shared.{ℕ, ◌≡◌, refl, true, false, List, Option, none, some, In}
use phoneborg.Gateway.Backend.{Backend, pick_least, any_non_hot}
use phoneborg.Gateway.Backend.Cool.{pick_least-lightest}
use phoneborg.Gateway.Affinity.{Affinity, pick}
use phoneborg.Gateway.Affinity.Pick.{IsSafe, pick-IsSafe}
use phoneborg.Gateway.Failover.{Policy}

-- `LeastInflight` and `Spread`, whose state is the counter of picks.
abbrev pub least_policy : Policy
least_policy = record {
  State = ℕ;
  choose = λ rr req c inflight now. pick_least rr c inflight;
  choose_In = λ rr req c inflight now h.
      let (r, e, i, cool, _) = pick_least-lightest rr c inflight h in (r, e, i, cool);
}

pub picked_safe :
    (c : List Backend) (o : Option Backend)
    → IsSafe c o
    → (r : Backend) × (o ≡ some r) × In r c × (any_non_hot c ≡ true → r.hot ≡ false)
picked_safe c none h = absurd h
picked_safe c (some r) h = (r, refl, h.0, h.1)

-- `Affinity`, whose state is its store of pins.
abbrev pub affinity_policy : Policy
affinity_policy = record {
  State = Affinity;
  choose = λ a req c inflight now. let r = pick a req c inflight now in (r.after, r.backend);
  choose_In = λ a req c inflight now h.
      picked_safe c (pick a req c inflight now).backend (pick-IsSafe a req c inflight now h).0;
}
