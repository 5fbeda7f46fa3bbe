-- ===== src/Registry/Snapshot.antt =====
-- What the clients of the registry see.
use mathlib.Core.List.{Perm}
use phoneborg.Shared.{
  map, str_leb, str_leb_total, str_leb_trans, IsSorted, sort_by_perm, sort_by-IsSorted,
}
use phoneborg.Registry.{Registry, Node, with_alias, snapshot}

module _ {I B H : Type 0} where
  -- `Snapshot` holds every node once, as it is stored but under its current alias, in the order of
  -- the ids.
  snapshot-IsSorted :
      (r : Registry I B H)
      → Perm (snapshot r) (map (λ e. with_alias r.aliases e.1) r.nodes)
        × IsSorted (λ a b. str_leb a.id b.id) (snapshot r)
  unfolding snapshot
  snapshot-IsSorted r = (
    sort_by_perm _ _,
    sort_by-IsSorted {A = Node I B H} (λ a b. str_leb a.id b.id) (λ a b. str_leb_total a.id b.id)
        (λ a b c. str_leb_trans a.id b.id c.id) (map (λ e. with_alias r.aliases e.1) r.nodes),
  )
