-- ===== src/Gateway/Affinity/Prune.antt =====
-- What pruning and unpinning leave.
use phoneborg.Shared.{
  ℕ, zero, suc, ◌+◌, ◌≤◌, ◌<◌, ◌≡◌, ◌≢◌, refl, ◌⊎◌, inl, inr, List, [], ◌∷◌, String, eq_iff, ltb,
  delete, Entries, Entries-delete, length, arith, Bool-cases, dec_lt, lt→ltb, ltb_ge,
}
use phoneborg.Gateway.Affinity.{
  Pin, Affinity, fresh_keys, oldest_of, drop_oldest, trim, prune, pins_on, without_node, unpin,
}

abbrev pub Keys : Type 0
Keys = List (String × Pin)

-- The key stands in the map.
abbrev HasKey : String → Keys → Type 0
HasKey k [] = ⊥
HasKey k ((j, p) ∷ m) = (k ≡ j) ⊎ HasKey k m

oldest_of-HasKey :
    (k : String) (t : ℕ) (m : Keys) → (oldest_of k t m ≡ k) ⊎ HasKey (oldest_of k t m) m
oldest_of-HasKey k t [] = inl refl
oldest_of-HasKey k t ((j, p) ∷ m) =
    ground (arith, oldest_of-HasKey j p.last m, oldest_of-HasKey k t m)

length-delete_le : (k : String) (m : Keys) → length (delete k m) ≤ length m
length-delete_le k [] = omega arith
length-delete_le k ((j, p) ∷ m) = ground (arith, length-delete_le k m)

length-delete_lt : (k : String) (m : Keys) → HasKey k m → length (delete k m) < length m
length-delete_lt k [] h = absurd h
length-delete_lt k ((j, p) ∷ m) (inl e) = ground (arith, length-delete_le k m, eq_iff j k)
length-delete_lt k ((j, p) ∷ m) (inr h) = ground (arith, length-delete_lt k m h)

drop_oldest_shrinks : (m : Keys) → 0 < length m → length (drop_oldest m) < length m
drop_oldest_shrinks [] h = absurd (omega arith)
drop_oldest_shrinks ((k, p) ∷ m) h =
    length-delete_lt (oldest_of k p.last m) ((k, p) ∷ m) (oldest_of-HasKey k p.last m)

trim-length :
    (fuel max_keys : ℕ) (m : Keys) → length m ≤ fuel → length (trim fuel max_keys m) ≤ max_keys
unfolding trim
trim-length zero max_keys m h = omega arith
trim-length (suc fuel) max_keys m h = elim (dec_lt max_keys (length m)) [
  | yes more ↦
      rw (lt→ltb _ _ more)
        (trim-length fuel max_keys (drop_oldest m) (omega (arith, drop_oldest_shrinks m)))
  | no few ↦ rw (ltb_ge _ _ few) (omega arith)
]

module _ (P : String → Pin → Type 0) where
  drop_oldest-Entries : (m : Keys) → Entries P m → Entries P (drop_oldest m)
  drop_oldest-Entries [] h = tt
  drop_oldest-Entries ((k, p) ∷ m) h = Entries-delete P (oldest_of k p.last m) ((k, p) ∷ m) h

  trim-Entries : (fuel max_keys : ℕ) (m : Keys) → Entries P m → Entries P (trim fuel max_keys m)
  unfolding trim
  trim-Entries zero max_keys m h = h
  trim-Entries (suc fuel) max_keys m h = elim (Bool-cases (ltb max_keys (length m))) [
    | inl e ↦ rw e (trim-Entries fuel max_keys (drop_oldest m) (drop_oldest-Entries m h))
    | inr e ↦ rw e h
  ]

fresh_keys-Entries :
    (ttl now : ℕ) (m : Keys) → Entries (λ k p. now ≤ p.last + ttl) (fresh_keys ttl now m)
fresh_keys-Entries ttl now [] = tt
fresh_keys-Entries ttl now ((k, p) ∷ m) = ground (arith, fresh_keys-Entries ttl now m)

-- Pruning leaves at most `MaxKeys` sessions, each used within the last `TTL`; its second loop ends
-- within the rounds that the model gives it, one for each key.
pub prune_bounds :
    (a : Affinity) (now : ℕ)
    → (length (prune a now).keys ≤ a.max_keys)
      × Entries (λ k p. now ≤ p.last + a.ttl) (prune a now).keys
unfolding prune
prune_bounds a now =
    let m = fresh_keys a.ttl now a.keys in
    (
      trim-length (length m) a.max_keys m (omega arith),
      trim-Entries (λ k p. now ≤ p.last + a.ttl) (length m) a.max_keys m
          (fresh_keys-Entries a.ttl now a.keys),
    )

without_node_pins : (node : String) (m : Keys) → pins_on node (without_node node m) ≡ 0
without_node_pins node [] = refl
without_node_pins node ((k, p) ∷ m) = ground (arith, without_node_pins node m)

without_node_others :
    (node other : String) (m : Keys)
    → other ≢ node
    → pins_on other (without_node node m) ≡ pins_on other m
without_node_others node other [] h = refl
without_node_others node other ((k, p) ∷ m) h =
    ground (arith, without_node_others node other m h, eq_iff p.node node, eq_iff p.node other)

without_node_count :
    (node : String) (m : Keys) → length (without_node node m) + pins_on node m ≡ length m
without_node_count node [] = refl
without_node_count node ((k, p) ∷ m) = ground (arith, without_node_count node m)

-- Unpinning a node forgets its sessions and no others: afterwards none is pinned to it, every other
-- node has as many as before, and the number returned is the number of sessions forgotten.
unpin-pins_on :
    (a : Affinity) (node : String)
    → (pins_on node (unpin a node).0.keys ≡ 0)
      × ((other : String)
          → other ≢ node
          → pins_on other (unpin a node).0.keys ≡ pins_on other a.keys)
      × (length (unpin a node).0.keys + (unpin a node).1 ≡ length a.keys)
unfolding unpin
unpin-pins_on a node = (
  without_node_pins node a.keys,
  λ other. without_node_others node other a.keys,
  without_node_count node a.keys,
)
