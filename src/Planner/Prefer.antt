-- ===== src/Planner/Prefer.antt =====
-- The order of preference among nodes, and the nodes that a replicas or percent policy takes.
use phoneborg.Shared.{◌≡◌, ◌≤◌, ◌⊎◌, Bool, str_eq, str_leb, true, false, String}
use phoneborg.Planner.{Node}

abbrev pub serves_model : String → Node → Bool
serves_model id n = str_eq n.current_model id

abbrev pub had_model : String → Node → Bool
had_model id n = str_eq n.assigned id

-- The first node is no worse: it serves the model, if the second does; it had it in the last plan, if the
-- second had and neither serves it; and among equals it is not slower, then has no less memory, then has
-- the smaller id.
abbrev pub IsPreferred : String → Node → Node → Type 0
IsPreferred id a b =
    (serves_model id b ≡ true → serves_model id a ≡ true)
    × (serves_model id a ≡ false → had_model id b ≡ true → had_model id a ≡ true)
    × (serves_model id a ≡ serves_model id b
        → (serves_model id a ≡ true) ⊎ (had_model id a ≡ had_model id b)
        → (b.speed ≤ a.speed)
          × (a.speed ≡ b.speed
              → (b.ram_total ≤ a.ram_total)
                × (a.ram_total ≡ b.ram_total → str_leb a.id b.id ≡ true)))
