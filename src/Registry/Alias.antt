-- ===== src/Registry/Alias.antt =====
-- Aliases: unique among the nodes, and found again.
use phoneborg.Shared.{
  ℕ, ◌≡◌, ◌≢◌, ap, subst, ◌∙◌, ◌⊎◌, inl, inr, true, false, none, some, List, [], ◌∷◌, String,
  is_some, lookup, insert, delete, arith, Option-cases, Bool-cases, str_eq, str_eq_refl, eq_iff,
  Entries, Entries-lookup, Entries-insert, Entries-delete,
}
use phoneborg.Registry.Sweep.{lookup-store_self}
use phoneborg.Registry.{Registry, holds_alias, id_of_alias, set_alias, find_node, register}

-- Neither the id nor the alias stands in the list.
abbrev pub IsNew : String → String → List (String × String) → Type 0
IsNew id a m = Entries (λ j b. (j ≢ id) × (b ≢ a)) m

-- No id and no alias stands twice.
abbrev pub IsUnique : List (String × String) → Type 0
IsUnique [] = Unit {0}
IsUnique ((id, a) ∷ m) = IsNew id a m × IsUnique m

IsNew-of_free :
    (id a b : String) (m : List (String × String))
    → holds_alias id a m ≡ false
    → IsNew id b m
    → IsNew id a m
IsNew-of_free id a b [] h n = tt
IsNew-of_free id a b ((j, c) ∷ m) h n = (
  (n.0.0, λ e. absurd (ground (arith, n.0.0, eq_iff c a, eq_iff j id))),
  IsNew-of_free id a b m (ground arith) n.1,
)

insert-IsUnique :
    (id a : String) (m : List (String × String))
    → holds_alias id a m ≡ false
    → IsUnique m
    → IsUnique (insert id a m)
insert-IsUnique id a [] h u = (tt, tt)
insert-IsUnique id a ((j, b) ∷ m) h u = elim (Bool-cases (str_eq j id)) [
  | inl e ↦
      let same : j ≡ id = (eq_iff j id).0 e in
      rw e (IsNew-of_free id a b m (ground arith) (subst (λ k. IsNew k b m) same u.0), u.1)
  | inr e ↦ rw e (
    Entries-insert (λ i c. (i ≢ j) × (c ≢ b)) id a m
        (
          (λ q. absurd (ground (arith, eq_iff j id))),
          (λ q. absurd (ground (arith, eq_iff b a, eq_iff j id))),
        )
        u.0,
    insert-IsUnique id a m (ground arith) u.1,
  )
]

delete-IsUnique : (id : String) (m : List (String × String)) → IsUnique m → IsUnique (delete id m)
delete-IsUnique id [] u = tt
delete-IsUnique id ((j, b) ∷ m) u = elim (Bool-cases (str_eq j id)) [
  | inl e ↦ rw e (delete-IsUnique id m u.1)
  | inr e ↦ rw e (Entries-delete (λ i c. (i ≢ j) × (c ≢ b)) id m u.0, delete-IsUnique id m u.1)
]

module _ {I B H : Type 0} where
  -- Setting or clearing an alias, accepted or refused, keeps the ids and the aliases unique.
  pub set_alias-IsUnique :
      (r : Registry I B H) (id a : String)
      → IsUnique r.aliases
      → IsUnique (set_alias r id a).0.aliases
  unfolding set_alias
  set_alias-IsUnique r id a u =
      ground (arith, insert-IsUnique id a r.aliases, delete-IsUnique id r.aliases)

id_of_alias-insert :
    (id a : String) (m : List (String × String))
    → holds_alias id a m ≡ false
    → id_of_alias a (insert id a m) ≡ some id
id_of_alias-insert id a [] h = rw (str_eq_refl a)
id_of_alias-insert id a ((j, b) ∷ m) h =
    ground (arith, eq_iff j id, eq_iff b a, str_eq_refl a, id_of_alias-insert id a m)

-- Looking up by alias is the inverse of looking up an alias by id.
id_of_alias_sound :
    (id a : String) (m : List (String × String))
    → IsUnique m
    → id_of_alias a m ≡ some id
    → lookup id m ≡ some a
id_of_alias_sound id a [] u e = cc
id_of_alias_sound id a ((j, b) ∷ m) u e = elim (Bool-cases (str_eq b a)) [
  | inl q ↦ ground (arith, eq_iff b a, str_eq_refl id)
  | inr q ↦
      let found : lookup id m ≡ some a = id_of_alias_sound id a m u.1 (ground arith) in
      let apart = Entries-lookup (λ i c. (i ≢ j) × (c ≢ b)) id a m u.0 found in
      ground (arith, apart.0, eq_iff j id)
]

id_of_alias_complete :
    (id a : String) (m : List (String × String))
    → IsUnique m
    → lookup id m ≡ some a
    → id_of_alias a m ≡ some id
id_of_alias_complete id a [] u e = cc
id_of_alias_complete id a ((j, b) ∷ m) u e = elim (Bool-cases (str_eq j id)) [
  | inl q ↦ ground (arith, eq_iff j id, str_eq_refl a)
  | inr q ↦
      let found : lookup id m ≡ some a = ground arith in
      let apart = Entries-lookup (λ i c. (i ≢ j) × (c ≢ b)) id a m u.0 found in
      ground (arith, apart.1, eq_iff b a, id_of_alias_complete id a m u.1)
]

module _ {I B H : Type 0} where
  -- `Lookup` in a registry with unique aliases. A name that is some node's alias, known or
  -- forgotten, gives that node. And a name that `Lookup` finds as a node is either that node's alias
  -- or its own id, and then the node is known.
  find_node-alias :
      (r : Registry I B H) (id a : String)
      → IsUnique r.aliases
      → (lookup id r.aliases ≡ some a → find_node r a ≡ (id, true))
        × (find_node r a ≡ (id, true)
            → (lookup id r.aliases ≡ some a) ⊎ ((id ≡ a) × (is_some (lookup a r.nodes) ≡ true)))
  unfolding find_node
  find_node-alias r id a u = (
    λ e. rw (id_of_alias_complete id a r.aliases u e, find_node),
    λ e. elim (Option-cases (id_of_alias a r.aliases)) [
      | inl q ↦ inr (ground arith)
      | inr (other, q) ↦
          let same : other ≡ id = ground arith in
          inl (id_of_alias_sound id a r.aliases u (q ∙ ap some same))
    ],
  )

  -- An accepted alias finds its node: after `SetAlias` with a non-empty alias returns no error,
  -- `Lookup` of that alias returns the id and says that it was found.
  find_node-set_alias :
      (r : Registry I B H) (id a : String)
      → a ≢ ""
      → (set_alias r id a).1 ≡ none
      → find_node (set_alias r id a).0 a ≡ (id, true)
  unfolding set_alias find_node
  find_node-set_alias r id a h e = ground (arith, eq_iff a "", id_of_alias-insert id a r.aliases)

  -- An alias shadows a node id. Registering checks no alias: when another node's alias is the id of
  -- the node that registers, that node is stored, and `Lookup` of its own id returns the other node.
  alias_shadows_id :
      (r : Registry I B H) (other id : String) (inventory : I) (addr : String) (now : ℕ)
      → IsUnique r.aliases
      → lookup other r.aliases ≡ some id
      → let r' = register r id inventory addr now in
        (is_some (lookup id r'.nodes) ≡ true) × (find_node r' id ≡ (other, true))
  unfolding find_node register
  alias_shadows_id r other id inventory addr now u e =
      (rw (lookup-store_self r id _), rw (id_of_alias_complete other id r.aliases u e, find_node))
