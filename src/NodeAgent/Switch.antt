-- ===== src/NodeAgent/Switch.antt =====
-- The steps of the manager: `reconcile` with what it calls, and Big Brain's `enterRPC` and `leaveRPC`.
use Prim.Native.String.{◌++◌}
use phoneborg.Shared.{
  ℕ, ◌+◌, ◌*◌, min, Bool, true, false, not, ◌&&◌, Option, none, some, List, [], ◌∷◌, String, str_eq,
  if◌then◌else◌, ℤ, pos, is_some,
}
use phoneborg.Memplan.{f16}
use phoneborg.NodeAgent.{
  DesiredRuntime, Order, wanted, release, Server, llama, ggml_rpc, PreRpc, Manager, SizingPlan,
  plan_memory, min_backoff, max_backoff, should_retry_now, is_same,
}

-- What the phone answers during one reconcile.
pub record Phone : Type 0 where
  pub models_dir : String
  pub has_rpc_server : Bool
  -- The cached file has the wanted hash.
  pub sha_matches : Bool
  -- The errors of `makeRoom` and of the download, and the size of the file on disk or an error.
  pub room_error : Option String
  pub download_error : Option String
  pub file_size : Option ℕ
  -- The new server answered in time; the file of the one before it is still there.
  pub is_healthy : Bool
  pub has_previous_file : String → Bool
  pub now : ℕ
  pub budget : ℤ
  pub plan_budget : ℤ
  pub failed_at : ℕ
  pub failed_budget : ℤ

abbrev pub path_of : Phone → String → String
path_of w id = w.models_dir ++ "/" ++ id ++ ".gguf"

unfoldable pub reset_backoff : Manager → Manager
reset_backoff m = record m {
  last_failed = none;
  backoff = 0;
  retry_at = 0;
  last_failed_budget = pos 0;
}

-- `fail`
unfoldable pub fail : Phone → DesiredRuntime → String → Manager → Manager
fail w d err m =
    let backoff =
      if is_same m.last_failed d then min (m.backoff * 2) max_backoff else min_backoff in
    record m {
      last_err = d.model_id ++ ": " ++ err;
      backoff = backoff;
      last_failed = some d;
      last_failed_budget = w.failed_budget;
      retry_at = w.failed_at + backoff;
    }

unfoldable pub set_sub_state : String → Manager → Manager
set_sub_state s m = record m { sub_state = s }

-- `serving`
unfoldable pub is_serving : String → Manager → Bool
is_serving id m = is_some m.runtime && str_eq m.current id

unfoldable pub clear_runtime : Manager → Manager
clear_runtime m = record m { runtime = none; current = ""; resident_bytes = 0 }

-- The model file of a server; ggml-rpc-server has none.
abbrev pub file_of : Server → String
file_of (llama path ctx slots kv) = path
file_of ggml_rpc = ""

-- `fallback`, behind the server that was stopped: the manager still holds what ran before.
unfoldable pub fallback : Phone → Manager → Manager
unfolding clear_runtime
fallback w m = elim m.runtime [
  | none ↦ clear_runtime m
  | some s ↦ if w.has_previous_file (file_of s) then m else clear_runtime m
]

abbrev pub unhealthy : String
unhealthy = "llama-server did not become healthy within 2m0s"

-- `load`: the error is `none` if the new server is healthy.
unfoldable pub load : Phone → DesiredRuntime → SizingPlan → Manager → Manager × Option String
unfolding fallback
load w d plan m =
    if w.is_healthy
    then (
      record m {
        runtime = some (llama (path_of w d.model_id) plan.ctx_size plan.slots plan.kv_type);
        current = d.model_id;
        resident_bytes = d.resident_bytes;
      },
      none,
    )
    else (fallback w m, some unhealthy)

-- The state after a switch that succeeded.
abbrev pub applied : DesiredRuntime → Manager → Manager
applied d m = reset_backoff (record m { last_applied = some d; last_err = "" })

-- `reconcile` from `load` on.
unfoldable pub finish : Phone → DesiredRuntime → SizingPlan → Manager → Manager
unfolding load set_sub_state
finish w d plan m =
    let sized = set_sub_state "loading" (record m { ram_bytes = plan.ram_estimate_bytes }) in
    let (loaded, err) = load w d plan sized in
    elim err [ none ↦ applied d loaded | some e ↦ fail w d e loaded ]

-- `reconcile` from the sizing on, with the size of the file.
unfoldable pub size_and_load : Phone → DesiredRuntime → ℕ → Manager → Manager
unfolding finish is_serving
size_and_load w d size m = elim (plan_memory d size w.plan_budget) [
  | some plan ↦ finish w d plan m
  | none ↦
      if is_serving d.model_id m
      then applied d (record m { resident_bytes = d.resident_bytes })
      else fail w d "model does not fit" m
]

-- The download, unless the file is cached: the error, if any, and the state.
unfoldable pub fetch : Phone → DesiredRuntime → Manager → Manager × Option String
unfolding set_sub_state
fetch w d m = if not (str_eq d.sha256 "") && w.sha_matches then (m, none) else (
  set_sub_state "downloading" m,
  elim w.room_error [ some e ↦ some e | none ↦ w.download_error ],
)

-- The body of `reconcile` behind its early returns.
unfoldable pub switch_model : Phone → DesiredRuntime → Manager → Manager
unfolding fetch size_and_load
switch_model w d m =
    let (fetched, err) = fetch w d m in
    elim err [
      | some e ↦ fail w d e fetched
      | none ↦ elim w.file_size [
        | none ↦ fail w d "stat" fetched
        | some size ↦ size_and_load w d size fetched
      ]
    ]

-- What `leaveRPC` restores.
abbrev pub restored : Manager → Option PreRpc → Manager
restored m none = record m {
  rpc = false;
  pre_rpc = none;
  last_applied = none;
  last_err = "";
  runtime = none;
  current = "";
  resident_bytes = 0;
}
restored m (some p) = record m {
  rpc = false;
  pre_rpc = none;
  last_applied = p.last_applied;
  last_err = "";
  runtime = some p.server;
  current = p.current;
  resident_bytes = p.resident_bytes;
}

-- `leaveRPC`
unfoldable pub leave_rpc : Manager → Manager
leave_rpc m = if m.rpc then restored m m.pre_rpc else m

-- What ran before, for `leaveRPC`.
abbrev pub remembered : Manager → Option Server → Option PreRpc
remembered m none = none
remembered m (some s) = some (record {
  server = s;
  current = m.current;
  resident_bytes = m.resident_bytes;
  last_applied = m.last_applied;
})

unfoldable pub remember : Manager → Option PreRpc
remember m = if m.rpc then m.pre_rpc else remembered m m.runtime

abbrev pub no_rpc_server : String
no_rpc_server =
    "rpc: no ggml-rpc-server on this node (re-provision with a llama.cpp build that has it)"

-- `enterRPC`, without the wipe of the tensor cache.
unfoldable pub enter_rpc : Phone → DesiredRuntime → Manager → Manager
unfolding remember reset_backoff
enter_rpc w d m =
    if m.rpc && is_same m.last_applied d
    then m
    else if not w.has_rpc_server
    then record m { last_err = no_rpc_server }
    else reset_backoff (record m {
      pre_rpc = remember m;
      runtime = some ggml_rpc;
      current = "";
      resident_bytes = 0;
      ram_bytes = 0;
      rpc = true;
      last_applied = some d;
      last_err = "";
    })

-- `reconcile` for a model to serve, behind `leaveRPC`. The deferred end clears `switching`.
unfoldable pub reconcile_model : Phone → DesiredRuntime → Manager → Manager
unfolding switch_model
reconcile_model w d m =
    let begun = record m { switching = true; target = d.model_id; last_err = "" } in
    if is_same m.last_applied d
    then m
    else if is_same m.last_failed d
        && not (should_retry_now w.now m.retry_at m.last_failed_budget w.budget)
    then m
    else record (switch_model w d begun) { switching = false }

-- `reconcile`
unfoldable pub reconcile : Phone → Order → Manager → Manager
unfolding leave_rpc enter_rpc reconcile_model
reconcile w release m = leave_rpc m
reconcile w (wanted d) m =
    if str_eq d.mode "rpc" then enter_rpc w d m else reconcile_model w d (leave_rpc m)

-- `SetDesired`: what is left in the channel, of capacity one, that `Run` takes from.
unfoldable pub set_desired : Manager → Option DesiredRuntime → Option Order → Option Order
set_desired m none channel = if m.rpc then some release else channel
set_desired m (some d) channel = some (wanted d)

-- The state that `Status` reports, from whether the server is ready.
unfoldable pub state_of : Bool → Manager → String
state_of ready m =
    if not (str_eq m.last_err "")
    then "error"
    else if m.rpc
    then (if ready then "rpc" else "loading")
    else if m.switching
    then m.sub_state
    else if is_some m.runtime
    then (if ready then "serving" else "loading")
    else "idle"

-- `startStatic`, before the loop.
unfoldable pub start_static : String → String → ℕ → Manager → Manager
start_static path name ctx m = record m { runtime = some (llama path ctx 1 f16); current = name }

-- `Run`: the orders taken from the channel, each with what the phone answers.
unfoldable pub run : List (Phone × Order) → Manager → Manager
unfolding reconcile
run [] m = m
run ((w, o) ∷ os) m = run os (reconcile w o m)
