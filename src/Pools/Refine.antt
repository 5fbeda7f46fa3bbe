-- ===== src/Pools/Refine.antt =====
-- The handlers of pools implement an abstract map from names to pools.
use phoneborg.Shared.{
  ◌≡◌, refl, [], ◌∷◌, In, if_true, subst, insert, ap, sym, ◌∙◌, true, false, not, ◌&&◌, Option,
  none, some, String, str_eq, eq_iff, if◌then◌else◌, lookup, delete, lookup-insert, lookup-delete,
  map, arith, Bool-cases, Option-cases, inl, inr,
}
use phoneborg.Pools.{
  Pool, PoolError, Normed, accepted, rejected, norm_pool, Conflict, pool_conflict, is_big_brain,
  not_in_catalog, save_failed, unknown_pool,
}
use phoneborg.Pools.Norm.{big_brain-models}
use phoneborg.Pools.Store.{
  Pools, Answer, stored, deleted, refused, conflicting, World, put_pool, set_normed, set_pool,
  delete_pool,
}
use phoneborg.Pools.Clash.{IsClash, pool_conflict-IsClash}
use phoneborg.Pools.Compat.{AreCompatible, IsConsistent, pool_conflict-none, lookup-In}

-- What the pools are, for a client: a pool or none under each name.
abbrev pub Contents : Type 0
Contents = String → Option Pool

abbrev pub contents : Pools → Contents
contents t k = lookup k t

abbrev pub Unchanged : Contents → Contents → Type 0
Unchanged s s' = (k : String) → s' k ≡ s k

-- One write of the map.
abbrev pub Writes : Contents → String → Option Pool → Contents → Type 0
Writes s name v s' = (k : String) → s' k ≡ (if str_eq name k then v else s k)

abbrev pub answer_of : World → Answer → Answer
answer_of w a = if w.saves then a else refused save_failed

-- What setting a pool may do: it stores the accepted definition, compatible with every other pool, or
-- it changes nothing and says why. An unsaved write is refused, and stays in memory.
pub data Sets (w : World) (name : String) (body : Pool) (s : Contents) (s' : Contents)
    : Answer → Type 0 where
  stores :
      (q : Pool)
      → norm_pool (record body { name = name }) ≡ accepted q
      → (is_big_brain q.routing ≡ true → w.has_model q.model ≡ true)
      → ((k : String) (o : Pool) → s k ≡ some o → str_eq q.name k ≡ false → AreCompatible w.id q o)
      → Writes s q.name (some q) s'
      → Sets w name body s s' (answer_of w (stored q))
  rejects :
      (e : PoolError)
      → norm_pool (record body { name = name }) ≡ rejected e
      → Unchanged s s'
      → Sets w name body s s' (refused e)
  lacks_model :
      (q : Pool)
      → norm_pool (record body { name = name }) ≡ accepted q
      → is_big_brain q.routing ≡ true
      → w.has_model q.model ≡ false
      → Unchanged s s'
      → Sets w name body s s' (refused (not_in_catalog q.model))
  conflicts :
      (q : Pool) (c : Conflict)
      → norm_pool (record body { name = name }) ≡ accepted q
      → IsClash w.id (λ o. (k : String) × (s k ≡ some o)) q c
      → Unchanged s s'
      → Sets w name body s s' (conflicting c)

pub data Deletes (w : World) (name : String) (s : Contents) (s' : Contents) : Answer → Type 0 where
  deletes_known :
      (p : Pool)
      → s name ≡ some p
      → Writes s name none s'
      → Deletes w name s s' (answer_of w deleted)
  deletes_unknown : s name ≡ none → Unchanged s s' → Deletes w name s s' (refused unknown_pool)

-- No name stands twice, as in a map.
abbrev pub IsMap : Pools → Type 0
IsMap [] = Unit {0}
IsMap ((k, p) ∷ t) = (lookup k t ≡ none) × IsMap t

lookup_of_In : (k : String) (o : Pool) (t : Pools) → IsMap t → In (k, o) t → lookup k t ≡ some o
lookup_of_In k o [] h i = absurd i
lookup_of_In k o ((j, p) ∷ t) h (inl e) =
    if_true (str_eq j k) (some p) (lookup k t) ((eq_iff j k).1 (ap (λ x. x.0) (sym e)))
    ∙ ap (λ x. some (x.1)) (sym e)
lookup_of_In k o ((j, p) ∷ t) h (inr i) = elim (Bool-cases (str_eq j k)) [
  | inr q ↦ rw q (lookup_of_In k o t h.1 i)
  | inl q ↦
      let found = lookup_of_In k o t h.1 i in
      absurd
        (let same = ap (λ x. lookup x t) ((eq_iff j k).0 q) in ground (arith, found, same, h.0))
]

In-map_back : (o : Pool) (t : Pools) → In o (map (λ e. e.1) t) → (k : String) × In (k, o) t
In-map_back o [] i = absurd i
In-map_back o ((k, p) ∷ t) (inl e) = (k, inl (ap (λ x. (k, x)) e))
In-map_back o ((k, p) ∷ t) (inr i) = let (j, l) = In-map_back o t i in (j, inr l)

insert-IsMap : (k : String) (q : Pool) (t : Pools) → IsMap t → IsMap (insert k q t)
insert-IsMap k q [] h = (refl, tt)
insert-IsMap k q ((j, p) ∷ t) h = elim (Bool-cases (str_eq j k)) [
  | inl e ↦ rw e (subst (λ x. lookup x t ≡ none) ((eq_iff j k).0 e) h.0, h.1)
  | inr e ↦ rw e (
    ground (arith, lookup-insert k j q t, h.0, e, eq_iff k j, eq_iff j k),
    insert-IsMap k q t h.1,
  )
]

delete-IsMap : (k : String) (t : Pools) → IsMap t → IsMap (delete k t)
delete-IsMap k [] h = tt
delete-IsMap k ((j, p) ∷ t) h = elim (Bool-cases (str_eq j k)) [
  | inl e ↦ rw e (delete-IsMap k t h.1)
  | inr e ↦ rw e (ground (arith, lookup-delete k j t, h.0), delete-IsMap k t h.1)
]

put_pool-IsMap : (w : World) (q : Pool) (t : Pools) → IsMap t → IsMap (put_pool w q t).0
unfolding put_pool
put_pool-IsMap w q t h = elim (Option-cases (pool_conflict w.id q (map (λ e. e.1) t))) [
  | inr (c, e) ↦ rw (e, put_pool) h
  | inl e ↦ rw (e, put_pool) (insert-IsMap q.name q t h)
]

set_normed-IsMap : (w : World) (r : Normed) (t : Pools) → IsMap t → IsMap (set_normed w r t).0
unfolding set_normed
set_normed-IsMap w (rejected e) t h = h
set_normed-IsMap w (accepted q) t h =
    elim (Bool-cases (is_big_brain q.routing && not (w.has_model q.model))) [
      | inl b ↦ rw (b, set_normed) h
      | inr b ↦ rw (b, set_normed) (put_pool-IsMap w q t h)
    ]

delete_pool-IsMap : (w : World) (k : String) (t : Pools) → IsMap t → IsMap (delete_pool w k t).0
unfolding delete_pool
delete_pool-IsMap w k t h = delete-IsMap k t h

put_pool-Sets :
    (w : World) (name : String) (body q : Pool) (t : Pools)
    → norm_pool (record body { name = name }) ≡ accepted q
    → (is_big_brain q.routing ≡ true → w.has_model q.model ≡ true)
    → IsConsistent w.id t
    → IsMap t
    → Sets w name body (contents t) (contents (put_pool w q t).0) (put_pool w q t).1
unfolding put_pool
put_pool-Sets w name body q t n m h u =
    elim (Option-cases (pool_conflict w.id q (map (λ e. e.1) t))) [
      | inr (c, e) ↦
          rw (e, put_pool)
            (conflicts q c n
              (pool_conflict-IsClash w.id q (λ o. (k : String) × (lookup k t ≡ some o)) c
                (map (λ e. e.1) t)
                (λ o i. let (k, j) = In-map_back o t i in (k, lookup_of_In k o t u j)) e)
              (λ k. refl))
      | inl e ↦
          let fits : (k : String) (o : Pool)
              → lookup k t ≡ some o
              → str_eq q.name k ≡ false
              → AreCompatible w.id q o =
            λ k o f d.
              pool_conflict-none w.id q o (map (λ e. e.1) t)
                (let same = (h.0 k o f).0 in
                  ground (arith, d, same, eq_iff o.name q.name, eq_iff q.name k))
                (big_brain-models (record body { name = name }) q n) (lookup-In k o t f) e in
          rw (e, put_pool) (stores q n m fits (λ k. lookup-insert q.name k q t))
    ]

set_pool-Sets :
    (w : World) (name : String) (body : Pool) (t : Pools) (r : Normed)
    → norm_pool (record body { name = name }) ≡ r
    → IsConsistent w.id t
    → IsMap t
    → Sets w name body (contents t) (contents (set_normed w r t).0) (set_normed w r t).1
unfolding set_normed
set_pool-Sets w name body t (rejected e) n h u = rejects e n (λ k. refl)
set_pool-Sets w name body t (accepted q) n h u =
    elim (Bool-cases (is_big_brain q.routing && not (w.has_model q.model))) [
      | inl b ↦
          rw (b, set_normed) (lacks_model q n (ground (arith, b)) (ground (arith, b)) (λ k. refl))
      | inr b ↦ rw (b, set_normed) (put_pool-Sets w name body q t n (λ g. ground (arith, b, g)) h u)
    ]

unknown_delete :
    (name : String) (t : Pools)
    → lookup name t ≡ none
    → (k : String) → lookup k (delete name t) ≡ lookup k t
unknown_delete name t e k = elim (Bool-cases (str_eq name k)) [
  | inl q ↦ lookup-delete name k t ∙ rw q (sym e ∙ ap (λ x. lookup x t) ((eq_iff name k).0 q))
  | inr q ↦ lookup-delete name k t ∙ rw q refl
]

delete_pool-Deletes :
    (w : World) (name : String) (t : Pools)
    → Deletes w name (contents t) (contents (delete_pool w name t).0) (delete_pool w name t).1
unfolding delete_pool
delete_pool-Deletes w name t = elim (Option-cases (lookup name t)) [
  | inl e ↦ rw e (deletes_unknown e (unknown_delete name t e))
  | inr (p, e) ↦ rw e (deletes_known p e (λ k. lookup-delete name k t))
]

-- In consistent pools, setting and deleting refine the abstract map: setting stores the accepted
-- definition under its name and leaves every other name alone, the pool being compatible with all
-- others and its Big Brain model in the catalog, or changes nothing and refuses it: for the definition's
-- error, for a Big Brain model that the catalog lacks, or for a conflict that is there, naming another
-- enabled pool that shares a node and is a Big Brain pool like it, or lists models of which none is
-- common. Deleting removes a known pool and no other, and refuses an unknown one. A failed save is
-- answered as such, and the change stays. No name ever stands twice.
pub set_pool-delete_pool :
    (w : World) (name : String) (body : Pool) (t : Pools)
    → IsConsistent w.id t
    → IsMap t
    → Sets w name body (contents t) (contents (set_pool w name body t).0) (set_pool w name body t).1
      × Deletes w name (contents t) (contents (delete_pool w name t).0) (delete_pool w name t).1
      × IsMap (set_pool w name body t).0
      × IsMap (delete_pool w name t).0
unfolding set_pool
set_pool-delete_pool w name body t h u = (
  set_pool-Sets w name body t (norm_pool (record body { name = name })) refl h u,
  delete_pool-Deletes w name t,
  set_normed-IsMap w (norm_pool (record body { name = name })) t u,
  delete_pool-IsMap w name t u,
)
