-- ===== src/Finalization/ResolutionSet/Worst.antt =====
-- The audit outcome of a resolution set is the worst of its items' outcomes.
use mathlib.Core.List.{Memᴰ}
use qarunner.Prelude.{
  Bool-cases, List, [], ap, arith, if◌then◌else◌, inl, inr, ltb, ok, refl, some, sym, ◌∙◌, ◌∷◌, ◌≡◌,
  ◌≢◌, ◌≤◌, ◌⊎◌,
}
use qarunner.Finalization.{
  RunOutcome, outcome_cancelled, outcome_infra_failed, outcome_passed, outcome_test_failed,
}
use qarunner.Finalization.Items.Entry.{RunItemResolution}
use qarunner.Finalization.ResolutionSet.{
  RunItemResolutionSet, audit_outcome, precedence, set_post_init, worst,
}

-- From the best to the worst: passed, cancelled, failed test, failed infrastructure.
abbrev pub NoWorse : RunOutcome → RunOutcome → Type 0
NoWorse outcome_passed o = Unit
NoWorse outcome_cancelled o = o ≢ outcome_passed
NoWorse outcome_test_failed o = (o ≡ outcome_test_failed) ⊎ (o ≡ outcome_infra_failed)
NoWorse outcome_infra_failed o = o ≡ outcome_infra_failed

precedence-NoWorse : (p o : RunOutcome) → precedence p ≤ precedence o → NoWorse p o
precedence-NoWorse outcome_passed o h = tt
precedence-NoWorse outcome_cancelled o h = ground (arith, h)
precedence-NoWorse outcome_test_failed o h = ground (arith, h)
precedence-NoWorse outcome_infra_failed o h = ground (arith, h)

-- An outcome that some item has, and that no item's outcome exceeds.
pub record IsWorst (o : RunOutcome) (entries : List RunItemResolution) : Type 0 where
  pub reached : (r : RunItemResolution) × Memᴰ r entries × (r.effective.outcome ≡ o)
  pub bounds : (r : RunItemResolution) → Memᴰ r entries → NoWorse r.effective.outcome o

abbrev better : RunOutcome → RunItemResolution → RunOutcome
better best r =
    if ltb (precedence best) (precedence r.effective.outcome) then r.effective.outcome else best

better_cases :
    (best : RunOutcome) (r : RunItemResolution)
    → (better best r ≡ best) ⊎ (better best r ≡ r.effective.outcome)
better_cases best r = ground arith

better_bounds :
    (best : RunOutcome) (r : RunItemResolution)
    → (precedence best ≤ precedence (better best r))
      × (precedence r.effective.outcome ≤ precedence (better best r))
better_bounds best r = elim (Bool-cases (ltb (precedence best) (precedence r.effective.outcome))) [
  | inl e ↦ rw e (ground arith)
  | inr e ↦ rw e (ground arith)
]

worst-reached :
    (best : RunOutcome) (l : List RunItemResolution)
    → (worst best l ≡ best)
      ⊎ ((r : RunItemResolution) × Memᴰ r l × (r.effective.outcome ≡ worst best l))
unfolding worst
worst-reached best [] = inl refl
worst-reached best (r ∷ rest) = elim (worst-reached (better best r) rest) [
  | inr (x, m, e) ↦ inr (x, Memᴰ.tail m, e)
  | inl e ↦ elim (better_cases best r) [
    | inl b ↦ inl (e ∙ b)
    | inr b ↦ inr (r, Memᴰ.head refl, sym (e ∙ b))
  ]
]

worst-first :
    (best : RunOutcome) (l : List RunItemResolution) → precedence best ≤ precedence (worst best l)
unfolding worst
worst-first best [] = omega arith
worst-first best (r ∷ rest) =
    let (h, k) = better_bounds best r in let below = worst-first (better best r) rest in omega arith

worst-bounds :
    {x : RunItemResolution} (best : RunOutcome) {l : List RunItemResolution}
    → Memᴰ x l
    → precedence x.effective.outcome ≤ precedence (worst best l)
unfolding worst
worst-bounds best (Memᴰ.head {x = r} {xs = rest} e) =
    let (h, k) = better_bounds best r in
    let below = worst-first (better best r) rest in
    let same_outcome = ap (λ (z : RunItemResolution). precedence z.effective.outcome) e in
    omega arith
worst-bounds best (Memᴰ.tail {x = r} m) = worst-bounds (better best r) m

first_bounds :
    (r : RunItemResolution) (rest : List RunItemResolution) {x : RunItemResolution}
    → Memᴰ x (r ∷ rest)
    → precedence x.effective.outcome ≤ precedence (worst r.effective.outcome rest)
first_bounds r rest (Memᴰ.head e) =
    let below = worst-first r.effective.outcome rest in
    let same_outcome = ap (λ (z : RunItemResolution). precedence z.effective.outcome) e in
    omega arith
first_bounds r rest (Memᴰ.tail m) = worst-bounds r.effective.outcome m

first_reached :
    (r : RunItemResolution) (rest : List RunItemResolution)
    → (x : RunItemResolution) × Memᴰ x (r ∷ rest)
      × (x.effective.outcome ≡ worst r.effective.outcome rest)
first_reached r rest = elim (worst-reached r.effective.outcome rest) [
  | inl e ↦ (r, Memᴰ.head refl, sym e)
  | inr (x, m, e) ↦ (x, Memᴰ.tail m, e)
]

-- A resolution set that its constructor accepts has an audit outcome, which is the outcome of some
-- item, and no item has an outcome that is worse, in the order passed, cancelled, failed test,
-- failed infrastructure.
pub audit_outcome-IsWorst :
    (s v : RunItemResolutionSet)
    → set_post_init s ≡ ok v
    → (o : RunOutcome) × (audit_outcome s ≡ some o) × IsWorst o s.entries
unfolding audit_outcome
audit_outcome-IsWorst s v h = of_entries s.entries refl
  where
    worst_of :
        (r : RunItemResolution) (rest : List RunItemResolution)
        → IsWorst (worst r.effective.outcome rest) (r ∷ rest)
    worst_of r rest = record {
      reached = first_reached r rest;
      bounds = λ x m.
          precedence-NoWorse x.effective.outcome (worst r.effective.outcome rest)
            (first_bounds r rest m);
    }

    of_entries :
        (l : List RunItemResolution)
        → s.entries ≡ l
        → (o : RunOutcome) × (audit_outcome s ≡ some o) × IsWorst o s.entries
    of_entries [] e = absurd (unfold set_post_init in ground arith)
    of_entries (r ∷ rest) e = rw e (worst r.effective.outcome rest, refl, worst_of r rest)
