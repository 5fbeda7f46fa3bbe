-- ===== src/Gateway/Failover/Attempts.antt =====
-- What every attempt of a request meets.
use phoneborg.Shared.{
  ℕ, suc, ◌≤◌, ◌<◌, ◌≡◌, ◌≢◌, refl, ap, ◌⊎◌, inl, inr, Bool, true, false, not, List, [], ◌∷◌,
  String, str_eq, eq_iff, insert, lookup-insert, keep, In, In-keep, All, length, arith,
  first_nonempty, In-first_nonempty, ◌&&◌, Bool-cases,
}
use phoneborg.Gateway.Backend.{Backend}
use phoneborg.Gateway.Target.{Target, member, allows, filter, routable}
use phoneborg.Gateway.Failover.{
  Outcome, served, retryable, context_too_small, broken, View, is_skipped, is_healthy,
  is_last_resort, candidates, eligible, Reply, answered, cut_off, rejected, busy, backends_failed,
  Attempt, Served, finish, settle,
}

pub candidates-In :
    (v : View) (all : List Backend) (tried : List (String × Bool)) (est : ℕ) (b : Backend)
    → In b (candidates v all tried est)
    → In b all × (is_skipped v tried est b ≡ false)
unfolding candidates
candidates-In v all tried est b i =
    elim (In-first_nonempty b (keep (is_healthy v tried est) all) _ i) [
      | inl j ↦ let (k, t) = In-keep (is_healthy v tried est) b all j in (k, ground arith)
      | inr j ↦ let (k, t) = In-keep (is_last_resort v tried est) b all j in (k, ground arith)
    ]

filter-routable-In :
    (t : Target) (v : View) (b : Backend)
    → In b (filter t (routable v.backends))
    → In b v.backends × (b.drained ≡ false) × (allows t b ≡ true)
unfolding filter routable
filter-routable-In t v b i =
    let (j, ok) = In-keep (allows t) b (keep (λ x. not x.drained) v.backends) i in
    let (k, live) = In-keep (λ x. not x.drained) b v.backends j in (k, ground arith, ok)

pub eligible-In :
    (t : Target) (has_tools : Bool) (v : View) (b : Backend)
    → In b (eligible t has_tools v)
    → In b v.backends × (b.drained ≡ false) × (allows t b ≡ true)
unfolding eligible
eligible-In t has_tools v b i = elim (Bool-cases (str_eq t.node "" && has_tools)) [
  | inr e ↦ filter-routable-In t v b (rw e at i)
  | inl e ↦
      let j : In b (
          first_nonempty (keep v.can_call_tools (filter t (routable v.backends)))
            (filter t (routable v.backends))) =
        rw e at i in
      elim (In-first_nonempty b (keep v.can_call_tools (filter t (routable v.backends))) _ j) [
        | inl k ↦
            filter-routable-In t v b
              (In-keep v.can_call_tools b (filter t (routable v.backends)) k).0
        | inr k ↦ filter-routable-In t v b k
      ]
]

-- Every attempt is on a backend that its view shows: it is not drained, the target reaches it, its
-- context fits the request, it is below its concurrency limit, and the outcome is what forwarding
-- to it came to.
pub record IsSound (t : Target) (est : ℕ) (a : Attempt) : Type 0 where
  pub present : In a.backend a.view.backends
  pub live : a.backend.drained ≡ false
  pub reached : allows t a.backend ≡ true
  pub context : (a.backend.ctx_size ≡ 0) ⊎ (est ≤ a.backend.ctx_size)
  pub room :
      (a.backend.max_concurrency ≡ 0)
      ⊎ (a.view.inflight a.backend.node_id < a.backend.max_concurrency)
  pub happened : a.outcome ≡ a.view.forward a.backend

-- No node is tried twice.
abbrev pub Untried : String → List Attempt → Type 0
Untried id rest = All (λ a. a.backend.node_id ≢ id) rest

abbrev pub IsDistinct : List Attempt → Type 0
IsDistinct [] = Unit {0}
IsDistinct (a ∷ rest) = Untried a.backend.node_id rest × IsDistinct rest

-- The reply tells how the attempts ended: all but the last failed before an answer started, and the
-- last one answered, broke off, or failed too.
abbrev pub Explains : List Attempt → Reply → Type 0
Explains [] reply = reply ≡ rejected backends_failed
Explains (a ∷ rest) reply =
    ((a.outcome ≡ served) × (rest ≡ []) × (reply ≡ answered a.backend.node_id))
    ⊎ ((a.outcome ≡ broken) × (rest ≡ []) × (reply ≡ cut_off a.backend.node_id))
    ⊎ (((a.outcome ≡ retryable) ⊎ (a.outcome ≡ context_too_small)) × Explains rest reply)

-- The nodes to cool down: those that failed for another reason than a too long prompt.
abbrev pub marks_of : List Attempt → List String
marks_of [] = []
marks_of (a ∷ rest) = elim a.outcome [
  | served ↦ marks_of rest
  | context_too_small ↦ marks_of rest
  | _ ↦ a.backend.node_id ∷ marks_of rest
]

-- What a run of the loop guarantees, with the nodes tried before it and the attempts it may make.
pub record IsRun (t : Target) (est : ℕ) (tried : List (String × Bool)) (n : ℕ) (s : Served)
    : Type 0 where
  pub sound : All (IsSound t est) s.attempts
  pub new : All (λ a. member a.backend.node_id tried ≡ false) s.attempts
  pub distinct : IsDistinct s.attempts
  pub few : length s.attempts ≤ n
  pub marks : s.marked ≡ marks_of s.attempts
  pub ends :
      ((tried ≡ []) × (s.attempts ≡ []) × (s.reply ≡ rejected busy))
      ⊎ (((tried ≢ []) ⊎ (s.attempts ≢ [])) × Explains s.attempts s.reply)

pub finish-IsRun :
    (t : Target) (est : ℕ) (tried : List (String × Bool)) (n : ℕ)
    → IsRun t est tried n (finish tried)
unfolding finish
finish-IsRun t est [] n = record {
  sound = tt;
  new = tt;
  distinct = tt;
  few = omega arith;
  marks = refl;
  ends = inl (refl, refl, refl);
}
finish-IsRun t est (x ∷ xs) n = record {
  sound = tt;
  new = tt;
  distinct = tt;
  few = omega arith;
  marks = refl;
  ends = inr (inl (λ e. cc), refl);
}

-- A node just tried is tried no more.
new-after :
    (id : String) (tried : List (String × Bool)) (rest : List Attempt)
    → All (λ a. member a.backend.node_id (insert id true tried) ≡ false) rest
    → Untried id rest × All (λ a. member a.backend.node_id tried ≡ false) rest
new-after id tried [] h = (tt, tt)
new-after id tried (a ∷ rest) h =
    let (u, m) = new-after id tried rest h.1 in
    (
      (
        ground (
          arith,
          h.0,
          lookup-insert id a.backend.node_id true tried,
          eq_iff id a.backend.node_id,
        ),
        u,
      ),
      (
        ground (
          arith,
          h.0,
          lookup-insert id a.backend.node_id true tried,
          eq_iff id a.backend.node_id,
        ),
        m,
      ),
    )

insert-ne_nil : (id : String) (tried : List (String × Bool)) → insert id true tried ≢ []
insert-ne_nil id [] = λ e. cc
insert-ne_nil id ((j, b) ∷ m) = ground arith

pub settle-IsRun :
    (t : Target) (est n : ℕ) (tried : List (String × Bool)) (v : View) (b : Backend) (o : Outcome)
    (r : Served)
    → IsSound t est (record { view = v; backend = b; outcome = o })
    → member b.node_id tried ≡ false
    → IsRun t est (insert b.node_id true tried) n r
    → IsRun t est tried (suc n) (settle v b o r)
unfolding settle
settle-IsRun t est n tried v b served r s m h = record {
  sound = (s, tt);
  new = (m, tt);
  distinct = (tt, tt);
  few = omega arith;
  marks = refl;
  ends = inr (inr (λ e. cc), inl (refl, refl, refl));
}
settle-IsRun t est n tried v b broken r s m h = record {
  sound = (s, tt);
  new = (m, tt);
  distinct = (tt, tt);
  few = omega arith;
  marks = refl;
  ends = inr (inr (λ e. cc), inr (inl (refl, refl, refl)));
}
settle-IsRun t est n tried v b retryable r s m h =
    let (untried, new) = new-after b.node_id tried r.attempts h.new in
    record {
      sound = (s, h.sound);
      new = (m, new);
      distinct = (untried, h.distinct);
      few = omega (arith, h.few);
      marks = ap (λ ms. b.node_id ∷ ms) h.marks;
      ends = inr (inr (λ e. cc), inr (inr (inl refl, explained h.ends)));
    }
  where
    explained :
        ((insert b.node_id true tried ≡ []) × (r.attempts ≡ []) × (r.reply ≡ rejected busy))
          ⊎ (((insert b.node_id true tried ≢ []) ⊎ (r.attempts ≢ [])) × Explains r.attempts r.reply)
        → Explains r.attempts r.reply
    explained (inl e) = absurd (insert-ne_nil b.node_id tried e.0)
    explained (inr e) = e.1
settle-IsRun t est n tried v b context_too_small r s m h =
    let (untried, new) = new-after b.node_id tried r.attempts h.new in
    record {
      sound = (s, h.sound);
      new = (m, new);
      distinct = (untried, h.distinct);
      few = omega (arith, h.few);
      marks = h.marks;
      ends = inr (inr (λ e. cc), inr (inr (inr refl, explained h.ends)));
    }
  where
    explained :
        ((insert b.node_id true tried ≡ []) × (r.attempts ≡ []) × (r.reply ≡ rejected busy))
          ⊎ (((insert b.node_id true tried ≢ []) ⊎ (r.attempts ≢ [])) × Explains r.attempts r.reply)
        → Explains r.attempts r.reply
    explained (inl e) = absurd (insert-ne_nil b.node_id tried e.0)
    explained (inr e) = e.1
