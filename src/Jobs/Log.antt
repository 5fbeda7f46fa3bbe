-- ===== src/Jobs/Log.antt =====
-- Bounded logs whose entries are numbered without a gap.
use phoneborg.Shared.{
  ℕ, zero, suc, ◌+◌, ◌-◌, ◌≤◌, ◌<◌, ◌≡◌, inl, inr, List, [], ◌∷◌, ◌++◌, ltb, arith, Bool-cases,
  length, drop, length-append,
}
use phoneborg.Jobs.{Event, last_seq, last_of, max_events}

module _ {A : Type 0} where
  length-drop : (n : ℕ) (xs : List A) → length (drop n xs) ≡ length xs - n
  length-drop zero xs = omega arith
  length-drop (suc n) [] = omega arith
  length-drop (suc n) (x ∷ xs) = omega (arith, length-drop n xs)

  pub length-last_of : (n : ℕ) (xs : List A) → length (last_of n xs) ≤ n
  unfolding last_of
  length-last_of n xs = ground (arith, length-drop (length xs - n) xs)

  -- The numbers of the entries follow one another; the last one is `m`, which is 0 of no entries.
  module _ (f : A → ℕ) where
    abbrev pub EndsAt : ℕ → List A → Type 0
    EndsAt m [] = Unit {0}
    EndsAt m (x ∷ xs) = (f x + length xs ≡ m) × EndsAt m xs

    pub append-EndsAt :
        (m : ℕ) (xs : List A) (x : A) → EndsAt m xs → f x ≡ m + 1 → EndsAt (m + 1) (xs ++ (x ∷ []))
    append-EndsAt m [] x h e = (omega (arith, e), tt)
    append-EndsAt m (y ∷ ys) x h e =
        (omega (arith, h.0, length-append ys (x ∷ [])), append-EndsAt m ys x h.1 e)

    drop-EndsAt : (m n : ℕ) (xs : List A) → EndsAt m xs → EndsAt m (drop n xs)
    drop-EndsAt m zero xs h = h
    drop-EndsAt m (suc n) [] h = tt
    drop-EndsAt m (suc n) (x ∷ xs) h = drop-EndsAt m n xs h.1

    pub last_of-EndsAt : (m n : ℕ) (xs : List A) → EndsAt m xs → EndsAt m (last_of n xs)
    unfolding last_of
    last_of-EndsAt m n xs h = elim (Bool-cases (ltb n (length xs))) [
      | inl e ↦ rw e (drop-EndsAt m (length xs - n) xs h)
      | inr e ↦ rw e h
    ]

-- The last entry has the last number.
pub last_seq-EndsAt :
    (m : ℕ) (e : Event) (es : List Event) → EndsAt (λ x. x.seq) m (e ∷ es) → last_seq (e ∷ es) ≡ m
last_seq-EndsAt m e [] h = omega (arith, h.0)
last_seq-EndsAt m e (f ∷ es) h = last_seq-EndsAt m f es h.1

last_seq-EndsAt_nonempty :
    (m : ℕ) (es : List Event) → 0 < length es → EndsAt (λ x. x.seq) m es → last_seq es ≡ m
last_seq-EndsAt_nonempty m [] p h = absurd (omega (arith, p))
last_seq-EndsAt_nonempty m (e ∷ es) p h = last_seq-EndsAt m e es h

-- A log of at most 500 events, numbered without a gap.
pub record IsLog (es : List Event) : Type 0 where
  pub bounded : length es ≤ 500
  pub in_order : EndsAt (λ x. x.seq) (last_seq es) es

last_of_nonempty : (es : List Event) (e : Event) → 0 < length (last_of 500 (es ++ (e ∷ [])))
unfolding last_of
last_of_nonempty es e =
    ground (
      arith,
      length-append es (e ∷ []),
      length-drop (length (es ++ (e ∷ [])) - 500) (es ++ (e ∷ [])),
    )

pub append-IsLog :
    (es : List Event) (e : Event)
    → IsLog es
    → e.seq ≡ last_seq es + 1
    → IsLog (last_of max_events (es ++ (e ∷ [])))
append-IsLog es e h q =
    let ends = append-EndsAt (λ x. x.seq) (last_seq es) es e h.in_order q in
    let after = last_of-EndsAt (λ x. x.seq) (last_seq es + 1) 500 (es ++ (e ∷ [])) ends in
    record {
      bounded = length-last_of 500 (es ++ (e ∷ []));
      in_order =
          rw
            (last_seq-EndsAt_nonempty (last_seq es + 1) (last_of 500 (es ++ (e ∷ [])))
              (last_of_nonempty es e) after)
            after;
    }
