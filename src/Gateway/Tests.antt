-- ===== src/Gateway/Tests.antt =====
-- A gateway with two phones, one of them overheating.
use phoneborg.Shared.{
  ℕ, ◌+◌, ◌≡◌, ◌≢◌, ◌≤◌, refl, ◌⊎◌, inl, ◌↔◌, Bool, true, false, some, List, [], ◌∷◌, String, arith,
  length, Entries, if◌then◌else◌, str_eq, first_nonempty,
}
use phoneborg.Gateway.Backend.{
  Backend, Request, pick_least, any_non_hot, non_hot, least_by, scan, best_of, better,
}
use phoneborg.Gateway.Affinity.{
  Affinity, Pin, Picked, hit, prune, pick, trim, pick_pruned, repin, pick_fresh,
}
use phoneborg.Gateway.Affinity.Prune.{prune_bounds}
use phoneborg.Gateway.Affinity.Pick.{IsSafe, Remembers, pick-IsSafe}
use phoneborg.Gateway.Affinity.Sticky.{pick-hit}
use phoneborg.Gateway.Target.{Target, any_target, allows, filter, routable}
use phoneborg.Gateway.Target.Access.{Reaches, allows-Reaches}
use phoneborg.Gateway.Failover.{
  View, served, retryable, serve_target, Served, answered, try_backends, candidates, eligible,
  turned_away, settle, finish, choose_backend,
}
use phoneborg.Gateway.Failover.Attempts.{IsRun}
use phoneborg.Gateway.Failover.Run.{IsEarly, allowance, serve_target-IsRun}
use phoneborg.Gateway.Failover.Policies.{least_policy}

abbrev phone : String → ℕ → Bool → Backend
phone id speed hot = record {
  node_id = id;
  model = "qwen";
  url = "";
  speed = speed;
  drained = false;
  hot = hot;
  ctx_size = 4096;
  alias = "";
  external = false;
  api_key = "";
  max_concurrency = 2;
  orchestrator_only = false;
  pool_only = false;
}

abbrev cool_phone : Backend
cool_phone = phone "a" 20 false

abbrev hot_phone : Backend
hot_phone = phone "b" 50 true

abbrev phones : List Backend
phones = cool_phone ∷ hot_phone ∷ []

abbrev busy_a : String → ℕ
busy_a id = if str_eq id "a" then 1 else 0

abbrev chat : Request
chat = record { model = "auto"; affinity_key = "s1"; prompt_bytes = 100 }

abbrev pin : String → ℕ → Pin
pin node last = record { node = node; last = last; large = false }

abbrev store : Affinity
store = record {
  ttl = 600;
  max_keys = 2;
  spill = 2;
  large_prompt = 8000;
  rr = 0;
  keys = ("old", pin "b" 10) ∷ ("x", pin "b" 700) ∷ ("y", pin "a" 800) ∷ ("z", pin "b" 900) ∷ [];
}

prune_bounds_example :
    (length (prune store 1000).keys ≤ 2)
    × Entries (λ k p. 1000 ≤ p.last + 600) (prune store 1000).keys
prune_bounds_example = prune_bounds store 1000

pick-IsSafe_example :
    IsSafe phones (pick store chat phones busy_a 1000).backend
    × (chat.affinity_key ≢ ""
        → Remembers "s1" 1000
            (pick store chat phones busy_a 1000).after.keys
            (pick store chat phones busy_a 1000).backend)
pick-IsSafe_example = pick-IsSafe store chat phones busy_a 1000 (λ e. cc)

abbrev empty_store : Affinity
empty_store = record store { keys = [] }

first_pick : Picked
unfolding pick prune trim pick_pruned repin pick_fresh
first_pick = pick empty_store chat phones busy_a 1000

first_picks_a : first_pick.backend ≡ some cool_phone
unfolding first_pick non_hot any_non_hot least_by scan best_of better
first_picks_a = refl

one_session : length first_pick.after.keys ≤ 2
unfolding first_pick non_hot any_non_hot least_by scan best_of better
one_session = omega arith

pick-hit_example :
    let second = pick first_pick.after chat phones busy_a 1500 in
    (second.decision ≡ hit) × (r : Backend) × (second.backend ≡ some r) × (r.node_id ≡ "a")
unfolding first_pick
pick-hit_example =
    pick-hit empty_store chat chat phones phones busy_a busy_a 1000 1500 cool_phone cool_phone
      (λ e. cc) (λ e. cc) first_picks_a one_session (omega arith) refl (inl refl) refl
      (inl refl, omega arith)

allows-Reaches_example :
    (allows (record any_target { model = "qwen" }) cool_phone ≡ true)
    ↔ Reaches (record any_target { model = "qwen" }) cool_phone
allows-Reaches_example = allows-Reaches (record any_target { model = "qwen" }) cool_phone (λ e. cc)

-- The fast phone fails, the other answers.
abbrev scene : ℕ → View
scene i = record {
  backends = phone "a" 20 false ∷ phone "b" 50 false ∷ [];
  inflight = λ _. 0;
  cooldown = [];
  now = i;
  can_call_tools = λ _. false;
  forward = λ b. elim (str_eq b.node_id "b") [ true ↦ retryable | false ↦ served ];
}

abbrev any_model : Target
any_model = any_target

served_chat : Served
served_chat = serve_target least_policy any_model chat false 100 scene 3 7

second_answers : served_chat.reply ≡ answered "a"
unfolding served_chat first_nonempty serve_target try_backends candidates eligible turned_away
    settle finish choose_backend filter routable allows pick_least best_of
second_answers = refl

serve_target-IsRun_example :
    IsEarly least_policy any_model chat false 100 scene served_chat
    ⊎ IsRun any_model 100 [] (allowance least_policy any_model chat false 100 scene 3) served_chat
unfolding served_chat
serve_target-IsRun_example = serve_target-IsRun least_policy any_model chat false 100 scene 3 7
