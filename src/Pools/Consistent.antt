-- ===== src/Pools/Consistent.antt =====
-- Every sequence of calls of the handlers keeps the pools consistent.
use phoneborg.Shared.{
  ◌≡◌, refl, not, ◌&&◌, Option, none, some, List, [], ◌∷◌, String, eq_iff, if_both, map, arith,
  Option-cases, inl, inr, trim,
}
use phoneborg.Registry.{matches_name}
use phoneborg.Pools.{
  Pool, Normed, accepted, rejected, norm_pool, norm_rest, pool_conflict, is_big_brain,
  not_in_catalog,
}
use phoneborg.Pools.Norm.{norm_pool-norm_pool, big_brain-models}
use phoneborg.Pools.Store.{
  Pools, Answer, refused, World, put_pool, set_normed, set_pool, delete_pool, LegacySuperborg,
  migrated, migrate_superborg, Call, sets, deletes, call, run,
}
use phoneborg.Pools.Compat.{
  IsConsistent, pool_conflict-none, lookup-In, insert-IsConsistent, delete-IsConsistent,
}

put_pool-IsConsistent :
    (w : World) (q : Pool) (t : Pools)
    → norm_pool q ≡ accepted q
    → IsConsistent w.id t
    → IsConsistent w.id (put_pool w q t).0
unfolding put_pool
put_pool-IsConsistent w q t n h = elim (Option-cases (pool_conflict w.id q (map (λ e. e.1) t))) [
  | inr (c, e) ↦ rw (e, put_pool) h
  | inl e ↦
      rw (e, put_pool)
        (insert-IsConsistent w.id q t n
          (λ j o f d.
            pool_conflict-none w.id q o (map (λ e. e.1) t)
              (let same = (h.0 j o f).0 in
                ground (arith, d, same, eq_iff o.name q.name, eq_iff q.name j))
              (big_brain-models q q n) (lookup-In j o t f) e)
          h)
]

set_normed-IsConsistent :
    (w : World) (r : Normed) (t : Pools)
    → ((q : Pool) → r ≡ accepted q → norm_pool q ≡ accepted q)
    → IsConsistent w.id t
    → IsConsistent w.id (set_normed w r t).0
unfolding set_normed
set_normed-IsConsistent w (rejected e) t n h = h
set_normed-IsConsistent w (accepted q) t n h =
    if_both (λ (x : Pools × Answer). IsConsistent w.id x.0)
      (is_big_brain q.routing && not (w.has_model q.model)) (t, refused (not_in_catalog q.model))
      (put_pool w q t) h (put_pool-IsConsistent w q t (n q refl) h)

call-IsConsistent :
    (w : World) (c : Call) (t : Pools) → IsConsistent w.id t → IsConsistent w.id (call w c t)
unfolding call set_pool delete_pool
call-IsConsistent w (sets name body) t h =
    set_normed-IsConsistent w (norm_pool (record body { name = name })) t
      (λ q e. (norm_pool-norm_pool (record body { name = name }) q e).1) h
call-IsConsistent w (deletes name) t h = delete-IsConsistent w.id name t h

run_all-IsConsistent :
    (w : World) (cs : List Call) (t : Pools) → IsConsistent w.id t → IsConsistent w.id (run w cs t)
unfolding run
run_all-IsConsistent w [] t h = h
run_all-IsConsistent w (c ∷ cs) t h =
    run_all-IsConsistent w cs (call w c t) (call-IsConsistent w c t h)

-- The orchestrator's name in the old setting has no spaces at its ends.
abbrev pub IsTrimmed : Option LegacySuperborg → Type 0
IsTrimmed none = Unit {0}
IsTrimmed (some l) = trim l.orchestrator ≡ l.orchestrator

migrated-norm_pool :
    (l : LegacySuperborg)
    → trim l.orchestrator ≡ l.orchestrator
    → norm_pool (migrated l) ≡ accepted (migrated l)
unfolding norm_pool norm_rest matches_name
migrated-norm_pool l t = rw t refl

pub nil-IsConsistent : (id : String → String) → IsConsistent id []
nil-IsConsistent id =
    (λ k p e. absurd (ground (arith, e)), λ k j p o e f d. absurd (ground (arith, e)))

migrate-IsConsistent :
    (id : String → String) (legacy : Option LegacySuperborg)
    → IsTrimmed legacy
    → IsConsistent id (migrate_superborg legacy []).0
unfolding migrate_superborg
migrate-IsConsistent id none h = nil-IsConsistent id
migrate-IsConsistent id (some l) h =
    insert-IsConsistent id (migrated l) [] (migrated-norm_pool l h)
      (λ j o e d. absurd (ground (arith, e))) (nil-IsConsistent id)

-- Whatever pools are set and deleted from a start with no pools, or with the migrated one of the old
-- Super Borg setting (its orchestrator's name trimmed), refused and unsaved calls included: every pool
-- is stored under its name in normal form, and if two enabled pools name the same node, they are not
-- both Big Brain pools, and if both list their models they share one. The ids behind the nodes' names
-- stay the same meanwhile.
pub run-IsConsistent :
    (w : World) (legacy : Option LegacySuperborg) (cs : List Call)
    → IsTrimmed legacy
    → IsConsistent w.id (run w cs (migrate_superborg legacy []).0)
run-IsConsistent w legacy cs h =
    run_all-IsConsistent w cs (migrate_superborg legacy []).0 (migrate-IsConsistent w.id legacy h)
