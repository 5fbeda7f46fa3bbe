-- ===== src/NodeAgent/Tests.antt =====
-- A phone with one model, and a second one that does not start.
use phoneborg.Shared.{
  ℕ, ◌+◌, ◌*◌, min, ◌≡◌, ◌⊎◌, refl, true, false, none, some, List, [], ◌∷◌, String, pos,
}
use phoneborg.Memplan
use phoneborg.Memplan.{f16}
use phoneborg.NodeAgent.{
  Order, DesiredRuntime, wanted, release, llama, Manager, new_manager, plan_memory, same_desired,
  is_same,
}
use phoneborg.NodeAgent.Switch.{
  Phone, fail, reconcile, run, start_static, state_of, size_and_load, fallback, clear_runtime,
}
use phoneborg.NodeAgent.Invariant.{IsSettled}
use phoneborg.NodeAgent.Restore.{join_all, GivesBack}
use phoneborg.NodeAgent.Reached.{run-IsSettled}
use phoneborg.NodeAgent.Keeps.{Stays, Serves, reconcile-Serves}
use phoneborg.NodeAgent.Backoff.{IsDue, tried, fail-reconcile}
use phoneborg.NodeAgent.Evict.{Entry, is_cached, make_room, evict_lru, remove_until, served_file}

abbrev desire : String → DesiredRuntime
desire id = record {
  model_id = id;
  url = "";
  sha256 = "";
  size_bytes = 1000;
  resident_bytes = 0;
  ctx_size = 4096;
  slots = 1;
  kv_type = "f16";
  layers = 1;
  kv_heads = 1;
  head_dim = 1;
  mode = "";
}

abbrev phone : Phone
phone = record {
  models_dir = "/models";
  has_rpc_server = false;
  sha_matches = false;
  room_error = none;
  download_error = none;
  file_size = some 1000;
  is_healthy = false;
  has_previous_file = λ path. true;
  now = 100;
  budget = pos 1_000_000_000;
  plan_budget = pos 1_000_000_000;
  failed_at = 120;
  failed_budget = pos 1_000_000_000;
}

abbrev small : Manager
small = record new_manager {
  runtime = some (llama "/models/small.gguf" 4096 1 f16);
  current = "small";
  last_applied = some (desire "small");
}

-- A phone that can lend its memory, and the desired state that asks for it.
abbrev lender : Phone
lender = record phone { has_rpc_server = true }

abbrev joins : DesiredRuntime
joins = record (desire "huge") { mode = "rpc" }

run-IsSettled_example :
    let os : List (Phone × Order) = (phone, wanted (desire "big")) ∷ (phone, release) ∷ [] in
    let js : List (Phone × DesiredRuntime) = (lender, joins) ∷ [] in
    let m = run os new_manager in
    let n = run os (start_static "/models/small.gguf" "small" 4096 new_manager) in
    IsSettled ("/models/small.gguf", "small") m
    × IsSettled ("/models/small.gguf", "small") n
    × ((m.rpc ≡ true) ⊎ GivesBack m (reconcile phone release (join_all js m)))
    × ((n.rpc ≡ true) ⊎ GivesBack n (reconcile phone release (join_all js n)))
run-IsSettled_example =
    run-IsSettled ((phone, wanted (desire "big")) ∷ (phone, release) ∷ []) ((lender, joins) ∷ [])
      phone "/models/small.gguf" "small" 4096 (refl, tt)

reconcile-Serves_example :
    Stays small (reconcile phone (wanted (desire "big")) small)
    ⊎ Serves phone (desire "big") (reconcile phone (wanted (desire "big")) small)
reconcile-Serves_example =
    reconcile-Serves phone (desire "big") small (llama "/models/small.gguf" 4096 1 f16) refl refl
      refl refl

other : is_same small.last_applied (desire "big") ≡ false
unfolding same_desired
other = refl

fail-reconcile_example :
    let k = fail phone (desire "big") "stat" small in
    (IsDue 100 k.retry_at (pos 1_000_000_000) (pos 1_000_000_000)
      → reconcile phone (wanted (desire "big")) k ≡ tried phone (desire "big") k)
    × (¬ (IsDue 100 k.retry_at (pos 1_000_000_000) (pos 1_000_000_000))
        → reconcile phone (wanted (desire "big")) k ≡ k)
    × (k.retry_at ≡ 120 + k.backoff)
    × (is_same small.last_failed (desire "big") ≡ false → k.backoff ≡ 30)
    × ((fail phone (desire "big") "stat" k).backoff ≡ min (k.backoff * 2) 600)
fail-reconcile_example = fail-reconcile phone phone (desire "big") "stat" small refl refl other

-- The second model is given up, and the error is still reported.
stale_error :
    state_of true
      (reconcile phone (wanted (desire "small")) (fail phone (desire "big") "stat" small))
    ≡ "error"
unfolding state_of reconcile same_desired fail
stale_error = refl

-- Nothing runs any more, and the model applied before is not started again.
abbrev no_files : Phone
no_files = record phone { has_previous_file = λ path. false }

stopped :
    (reconcile phone
      (wanted (desire "small"))
      (reconcile no_files (wanted (desire "big")) small)).runtime
    ≡ none
unfolding reconcile same_desired fail size_and_load plan_memory fallback clear_runtime Memplan.plan
    Memplan.search_config Memplan.try Memplan.need_bytes Memplan.bytes_per_token
stopped = refl

abbrev file : String → ℕ → Entry
file name mtime = record {
  name = name;
  is_dir = false;
  has_info = true;
  mtime = mtime;
  size = 10;
  is_removable = true;
}

abbrev files : List Entry
files = file "new.gguf" 9 ∷ file "small.gguf" 1 ∷ file "old.gguf" 5 ∷ file "notes.txt" 2 ∷ []

-- The model that runs stays, and of the others the older one goes.
older_goes :
    make_room "/models" small "/models/big.gguf" (some 3) 12 (some files)
    ≡ (file "old.gguf" 5 ∷ [], false)
unfolding make_room evict_lru remove_until served_file is_cached
older_goes = refl
