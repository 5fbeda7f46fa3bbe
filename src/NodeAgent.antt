-- ===== src/NodeAgent.antt =====
-- node-agent/manager.go and node-agent/sizing.go: how an agent switches its phone to the model that the
-- controller wants. What the phone answers (files, downloads, the health of a server, free memory and
-- the time) is an argument of each step. A running server is its configuration, without the ports, the
-- binaries and the threads, which never change. Times are in seconds; the progress of a download is left
-- out, and the texts of the errors of the sizing and of a missing file are shortened.
pub mod Switch
mod Invariant
pub mod Evict
mod Lru
mod Restore
mod Reached
mod Keeps
mod Backoff
mod Tests
use phoneborg.Shared.{
  ℕ, ◌+◌, ◌*◌, ◌/◌, min, Bool, true, false, not, ◌&&◌, ◌||◌, Option, none, some, List, String,
  str_eq, leb, ltb, ◌==◌, if◌then◌else◌, ℤ, pos, negsuc, sub_ℕ, leb_ℤ,
}
use phoneborg.Memplan
use phoneborg.Memplan.{Shape, KvRequest, Kv, exactly, auto, f16, q8_0}

-- proto/v0.go; the path of the file is no part of a decision.
pub record DesiredRuntime : Type 0 where
  pub model_id : String
  pub url : String
  pub sha256 : String
  pub size_bytes : ℕ
  pub resident_bytes : ℕ
  pub ctx_size : ℕ
  pub slots : ℕ
  pub kv_type : String
  pub layers : ℕ
  pub kv_heads : ℕ
  pub head_dim : ℕ
  pub mode : String

-- `*a == *b`
unfoldable pub same_desired : DesiredRuntime → DesiredRuntime → Bool
same_desired a b =
    str_eq a.model_id b.model_id
    && str_eq a.url b.url
    && str_eq a.sha256 b.sha256
    && a.size_bytes == b.size_bytes
    && a.resident_bytes == b.resident_bytes
    && a.ctx_size == b.ctx_size
    && a.slots == b.slots
    && str_eq a.kv_type b.kv_type
    && a.layers == b.layers
    && a.kv_heads == b.kv_heads
    && a.head_dim == b.head_dim
    && str_eq a.mode b.mode

-- What waits in the channel: a desired state, or `releaseRPC`.
pub data Order : Type 0 where
  wanted : DesiredRuntime → Order
  release : Order

-- The server that runs: llama-server with a model, or ggml-rpc-server.
pub data Server : Type 0 where
  llama : String → ℕ → ℕ → Kv → Server
  ggml_rpc : Server

pub record PreRpc : Type 0 where
  pub server : Server
  pub current : String
  pub resident_bytes : ℕ
  pub last_applied : Option DesiredRuntime

pub record Manager : Type 0 where
  pub runtime : Option Server
  pub current : String
  pub resident_bytes : ℕ
  pub last_applied : Option DesiredRuntime
  pub switching : Bool
  pub sub_state : String
  pub target : String
  pub last_err : String
  pub ram_bytes : ℕ
  pub last_failed : Option DesiredRuntime
  pub last_failed_budget : ℤ
  pub backoff : ℕ
  pub retry_at : ℕ
  pub rpc : Bool
  pub pre_rpc : Option PreRpc

-- `NewManager`
abbrev pub new_manager : Manager
new_manager = record {
  runtime = none;
  current = "";
  resident_bytes = 0;
  last_applied = none;
  switching = false;
  sub_state = "";
  target = "";
  last_err = "";
  ram_bytes = 0;
  last_failed = none;
  last_failed_budget = pos 0;
  backoff = 0;
  retry_at = 0;
  rpc = false;
  pre_rpc = none;
}

-- `MemoryBudget`
unfoldable pub memory_budget : ℕ → ℕ → ℕ → ℤ
memory_budget avail rss_anon reserve = sub_ℕ (avail + rss_anon) reserve

pub record SizingPlan : Type 0 where
  pub ctx_size : ℕ
  pub slots : ℕ
  pub kv_type : Kv
  pub ram_estimate_bytes : ℕ

-- The texts of a cache type; anything else is "auto".
abbrev pub kv_request : String → KvRequest
kv_request s =
    if str_eq s "f16" then exactly f16 else if str_eq s "q8_0" then exactly q8_0 else auto

abbrev pub shape_of : DesiredRuntime → Shape
shape_of d = record { layers = d.layers; kv_heads = d.kv_heads; head_dim = d.head_dim }

-- `PlanMemory` for a file of a size; `none` is the error.
unfoldable pub plan_memory : DesiredRuntime → ℕ → ℤ → Option SizingPlan
plan_memory d file_size budget =
    let r =
      Memplan.plan file_size d.resident_bytes (shape_of d) d.ctx_size d.slots (kv_request d.kv_type)
        budget in
    if r.fits
    then some
        (record { ctx_size = r.ctx; slots = r.slots; kv_type = r.kv; ram_estimate_bytes = r.need })
    else none

abbrev pub min_backoff : ℕ
min_backoff = 30

abbrev pub max_backoff : ℕ
max_backoff = 600

-- More than a tenth above the last budget, if that was positive.
abbrev pub has_grown : ℤ → ℤ → Bool
has_grown (pos n) budget = ltb 0 n && not (leb_ℤ budget (pos (n + n / 10)))
has_grown (negsuc n) budget = false

-- `shouldRetryNow`
unfoldable pub should_retry_now : ℕ → ℕ → ℤ → ℤ → Bool
should_retry_now now retry_at last_failed_budget budget =
    leb retry_at now || has_grown last_failed_budget budget

abbrev pub is_same : Option DesiredRuntime → DesiredRuntime → Bool
is_same none d = false
is_same (some e) d = same_desired e d
