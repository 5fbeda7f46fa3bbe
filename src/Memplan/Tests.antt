-- ===== src/Memplan/Tests.antt =====
-- The sizing of concrete models on concrete budgets.
use phoneborg.Shared.{◌≡◌, refl, true, false, pos, arith, ◌*◌}
use phoneborg.Memplan.{
  Shape, auto, min_ctx, mib, need_bytes, bytes_per_token, plan, shrink, search_config, try,
  reduce_slots, after_shrink, refused, sizing_of, kv_candidates,
}
use phoneborg.Memplan.Search.{NoneFits}
use phoneborg.Memplan.Loop.{IsOver, shrink-IsOver}
use phoneborg.Memplan.Plan.{Outcome, requested, plan-Outcome, plan_refuses_only_impossible}

abbrev small_shape : Shape
small_shape = record { layers = 28; kv_heads = 8; head_dim = 128 }

-- A 1 GiB model at a context of 16384 tokens.
degraded :
    let r = plan (1024 * mib) 0 small_shape 16384 2 auto (pos (2048 * mib)) in
    (r.fits ≡ true) × (r.ctx ≡ 4096) × (r.slots ≡ 2)
unfolding plan search_config try shrink after_shrink need_bytes bytes_per_token
degraded = (refl, refl, refl)

no_room : (plan (1024 * mib) 0 small_shape 16384 2 auto (pos (1024 * mib))).fits ≡ false
unfolding plan search_config try shrink after_shrink reduce_slots refused need_bytes bytes_per_token
no_room = refl

plan-Outcome_example :
    Outcome
      (sizing_of (1024 * mib) 0 small_shape (pos (2048 * mib)))
      (kv_candidates auto)
      (requested 16384 min_ctx)
      (requested 2 1)
      (plan (1024 * mib) 0 small_shape 16384 2 auto (pos (2048 * mib)))
plan-Outcome_example = plan-Outcome (1024 * mib) 0 small_shape 16384 2 auto (pos (2048 * mib))

plan_refuses_only_impossible_example :
    NoneFits (sizing_of (1024 * mib) 0 small_shape (pos (1024 * mib))) (kv_candidates auto) 8192 3
plan_refuses_only_impossible_example =
    plan_refuses_only_impossible (1024 * mib) 0 small_shape 16384 2 auto (pos (1024 * mib)) 8192 3
      no_room (omega arith) (omega arith)

shrink-IsOver_example :
    let z = sizing_of (1024 * mib) 0 small_shape (pos (2048 * mib)) in
    IsOver z (kv_candidates auto) 2 16384 (shrink 20_000 z (kv_candidates auto) 2 16384)
    × (shrink 20_000 z (kv_candidates auto) 2 16384 ≡ shrink 16384 z (kv_candidates auto) 2 16384)
shrink-IsOver_example =
    shrink-IsOver 20_000 (sizing_of (1024 * mib) 0 small_shape (pos (2048 * mib)))
      (kv_candidates auto) 2 16384 (omega arith)
