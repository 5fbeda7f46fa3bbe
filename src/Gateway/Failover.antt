-- ===== src/Gateway/Failover.antt =====
-- controller/gateway/proxy.go: a request tries the backends of its target, one after another.
-- Between two attempts anything may change, so each attempt has its own view of the cluster: the
-- backends, loads, cooldowns and the time that it reads, which models can call tools, and what
-- forwarding to a backend comes to.
pub mod Attempts
pub mod Run
pub mod Policies
use phoneborg.Shared.{
  ℕ, zero, suc, ◌+◌, ◌≡◌, ◌≢◌, Bool, true, false, not, ◌&&◌, ◌||◌, Option, none, some, List, [],
  ◌∷◌, ◌++◌, String, str_eq, ltb, leb, ◌==◌, if◌then◌else◌, lookup, insert, keep, is_some, In,
  first_nonempty,
}
use phoneborg.Gateway.Backend.{Backend, Request, any_non_hot}
use phoneborg.Gateway.Target.{Target, member, filter, routable}

-- `forward` returns nil; an error before any byte was sent, `errContextTooSmall` among them; or an
-- error after the response has started.
pub data Outcome : Type 0 where
  served retryable context_too_small broken : Outcome

pub record View : Type 0 where
  pub backends : List Backend
  pub inflight : String → ℕ
  pub cooldown : List (String × ℕ)
  pub now : ℕ
  pub can_call_tools : Backend → Bool
  pub forward : Backend → Outcome

-- A routing policy behind its law: on candidates it picks one of them, a hot one only if all are.
pub record Policy : Type 1 where
  pub State : Type 0
  pub choose : State → Request → List Backend → (String → ℕ) → ℕ → State × Option Backend
  pub choose_In :
      (s : State) (req : Request) (c : List Backend) (inflight : String → ℕ) (now : ℕ)
      → c ≢ []
      → (r : Backend) × ((choose s req c inflight now).1 ≡ some r)
        × In r c
        × (any_non_hot c ≡ true → r.hot ≡ false)

abbrev pub cooldown_of : String → List (String × ℕ) → ℕ
cooldown_of id m = elim (lookup id m) [ none ↦ 0 | some t ↦ t ]

-- A backend that `candidates` skips.
abbrev pub is_skipped : View → List (String × Bool) → ℕ → Backend → Bool
is_skipped v tried est b =
    member b.node_id tried
    || (ltb 0 b.ctx_size && ltb b.ctx_size est)
    || (ltb 0 b.max_concurrency && leb b.max_concurrency (v.inflight b.node_id))

abbrev pub is_cooling : View → Backend → Bool
is_cooling v b = ltb v.now (cooldown_of b.node_id v.cooldown)

abbrev pub is_healthy : View → List (String × Bool) → ℕ → Backend → Bool
is_healthy v tried est b = not (is_skipped v tried est b) && not (is_cooling v b)

abbrev pub is_last_resort : View → List (String × Bool) → ℕ → Backend → Bool
is_last_resort v tried est b = not (is_skipped v tried est b) && is_cooling v b

-- `candidates`: the healthy ones, or the cooling ones if there is none.
unfoldable pub candidates : View → List Backend → List (String × Bool) → ℕ → List Backend
candidates v all tried est =
    first_nonempty (keep (is_healthy v tried est) all) (keep (is_last_resort v tried est) all)

-- The closure `eligible`: the target's backends; for a request with tools that names no node, those
-- that can call tools, if there are any.
unfoldable pub eligible : Target → Bool → View → List Backend
eligible t has_tools v =
    let all = filter t (routable v.backends) in
    if str_eq t.node "" && has_tools then first_nonempty (keep v.can_call_tools all) all else all

-- `maxContext`
abbrev pub max_context : ℕ → List Backend → ℕ
max_context m [] = m
max_context m (b ∷ bs) = max_context (if ltb m b.ctx_size then b.ctx_size else m) bs

-- The reasons of an error response.
pub data Reason : Type 0 where
  node_unavailable pool_empty no_ready_nodes model_not_found : Reason
  context_too_large : ℕ → ℕ → Reason
  busy backends_failed : Reason

abbrev pub http_code : Reason → ℕ
http_code node_unavailable = 503
http_code pool_empty = 503
http_code no_ready_nodes = 503
http_code model_not_found = 404
http_code (context_too_large est most) = 400
http_code busy = 503
http_code backends_failed = 502

-- `answered` by a node, `cut_off` after a node had started, or an error response; `panicked` stands
-- for a policy that picks nothing.
pub data Reply : Type 0 where
  answered cut_off : String → Reply
  rejected : Reason → Reply
  panicked : Reply

-- One attempt: what it saw, what it tried, and how it ended.
pub record Attempt : Type 0 where
  pub view : View
  pub backend : Backend
  pub outcome : Outcome

-- The attempts in order, the nodes put in cooldown (`markDown`), and the reply.
pub record Served : Type 0 where
  pub attempts : List Attempt
  pub marked : List String
  pub reply : Reply

abbrev pub behind : Attempt → List String → Served → Served
behind a marks s = record s { attempts = a ∷ s.attempts; marked = marks ++ s.marked }

-- Behind the loop: no attempt was made, or all failed.
unfoldable pub finish : List (String × Bool) → Served
finish [] = record { attempts = []; marked = []; reply = rejected busy }
finish (x ∷ xs) = record { attempts = []; marked = []; reply = rejected backends_failed }

-- What follows an attempt; `rest` is the next round.
unfoldable pub settle : View → Backend → Outcome → Served → Served
settle v b served rest = record {
  attempts = record { view = v; backend = b; outcome = served } ∷ [];
  marked = [];
  reply = answered b.node_id;
}
settle v b retryable rest =
    behind (record { view = v; backend = b; outcome = retryable }) (b.node_id ∷ []) rest
settle v b context_too_small rest =
    behind (record { view = v; backend = b; outcome = context_too_small }) [] rest
settle v b broken rest = record {
  attempts = record { view = v; backend = b; outcome = broken } ∷ [];
  marked = b.node_id ∷ [];
  reply = cut_off b.node_id;
}

abbrev pub reject : Reason → Served
reject r = record { attempts = []; marked = []; reply = rejected r }

-- The early returns of `serveTarget`: the eligible backends as the request arrives.
unfoldable pub turned_away : Target → ℕ → View → List Backend → Option Reason
turned_away t est v [] =
    if not (str_eq t.node "")
    then some node_unavailable
    else if is_some t.nodes
    then some pool_empty
    else some (elim (routable v.backends) [ [] ↦ no_ready_nodes | _ ∷ _ ↦ model_not_found ])
turned_away t est v (b ∷ bs) =
    let most = max_context 0 (b ∷ bs) in
    if ltb 0 most && ltb most est then some (context_too_large est most) else none

module _ (p : Policy) (t : Target) (req : Request) (has_tools : Bool) (est : ℕ)
    (views : ℕ → View) where
  -- The backend of an attempt: node targets take the first candidate.
  unfoldable pub choose_backend : p.State → View → List Backend → p.State × Option Backend
  choose_backend s v [] = (s, none)
  choose_backend s v (b ∷ bs) =
      if str_eq t.node "" then p.choose s req (b ∷ bs) v.inflight v.now else (s, some b)

  -- The loop, with the attempts left and the number of the next view.
  unfoldable pub try_backends : ℕ → ℕ → p.State → List (String × Bool) → Served
  try_backends zero i s tried = finish tried
  try_backends (suc n) i s tried =
      let cands = candidates (views i) (eligible t has_tools (views i)) tried est in
      let choice = choose_backend s (views i) cands in
      elim cands [
        | [] ↦ finish tried
        | c ∷ cs ↦ elim choice.1 [
          | none ↦ record { attempts = []; marked = []; reply = panicked }
          | some b ↦
              settle (views i) b ((views i).forward b)
                (try_backends n (suc i) choice.0 (insert b.node_id true tried))
        ]
      ]

  -- `serveTarget` without metrics and usage records. The checks read the first view.
  unfoldable pub serve_target : ℕ → p.State → Served
  serve_target max_attempts s =
      elim (turned_away t est (views 0) (eligible t has_tools (views 0))) [
        | some r ↦ reject r
        | none ↦ try_backends (if str_eq t.node "" then max_attempts else 1) 1 s []
      ]
