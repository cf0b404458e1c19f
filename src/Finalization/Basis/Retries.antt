-- ===== src/Finalization/Basis/Retries.antt =====
-- The retries behind a finalization lead from the original Attempt to the final one without a gap.
use mathlib.Core.Path.{subst}
use qarunner.Prelude.{List, Option, [], arith, inl, inr, none, ok, some, true, ◌∙◌, ◌∷◌, ◌≡◌, ◌⊎◌}
use qarunner.Finalization.Decisions.{
  RetryDecisionResultRef, RunFinalizationDecisionRef, retry_result,
}
use qarunner.Finalization.Basis.{
  RetrySource, RetryStep, RunFinalizationBasis, ends, ends_check, follows, last_target, retries,
  starts, steps_check, validate_decisions,
}
use qarunner.Values.Laws.{digest_eq_iff}
use qarunner.Finalization.Basis.Leads.{
  Accepted, Leads, Retries, as_source, decision_post_init-kind, retries_pass, retries_step,
  source_of-Leaves, source_of_ref, step_check-Follows, step_of_cases, steps_check-Leads,
  steps_parts,
}

-- Some decision of the list retries.
abbrev pub SomeRetry : List RunFinalizationDecisionRef → Type 0
SomeRetry [] = ⊥
SomeRetry (d ∷ rest) = Retries d.decision_kind ⊎ SomeRetry rest

-- The steps of a list with a retry: its first one leaves an Attempt that the list leads on from.
record Way (l : List RunFinalizationDecisionRef) : Type 0 where
  step : RetryStep
  later : List RetryStep
  first : RetrySource
  shape : retries l ≡ step ∷ later
  from : step.source ≡ some first
  leads : Leads first l (as_source (last_target step.target later))

passed_Way :
    (d : RunFinalizationDecisionRef) (rest : List RunFinalizationDecisionRef)
    → ¬ Retries d.decision_kind
    → retries (d ∷ rest) ≡ retries rest
    → Way rest
    → Way (d ∷ rest)
passed_Way d rest n e w = record {
  step = w.step;
  later = w.later;
  first = w.first;
  shape = e ∙ w.shape;
  from = w.from;
  leads = Leads.passes n w.leads;
}

retried_Way :
    (d : RunFinalizationDecisionRef) (rest : List RunFinalizationDecisionRef)
    (to : RetryDecisionResultRef)
    → Accepted rest
    → Retries d.decision_kind
    → d.decision_result ≡ retry_result to
    → retries (d ∷ rest) ≡ record { source = source_of_ref d; target = to } ∷ retries rest
    → steps_check none (retries (d ∷ rest)) ≡ ok tt
    → Way (d ∷ rest)
retried_Way d rest to more k x e h =
    let step : RetryStep = record { source = source_of_ref d; target = to } in
    let (one, others) = steps_parts none step (retries rest) (retries (d ∷ rest)) e h in
    let (s, g, follows, u) = step_check-Follows none (source_of_ref d) to one in
    record {
      step = step;
      later = retries rest;
      first = s;
      shape = e;
      from = g;
      leads =
          Leads.retries_to to k x (source_of-Leaves d s g) follows
            (steps_check-Leads to rest more others);
    }

first_Way :
    (l : List RunFinalizationDecisionRef)
    → Accepted l
    → SomeRetry l
    → steps_check none (retries l) ≡ ok tt
    → Way l
first_Way [] a found h = absurd found
first_Way (d ∷ rest) (a, more) found h =
    elim (step_of_cases d.decision_kind d d.decision_result (decision_post_init-kind d a)) [
      | inl (n, e) ↦
          let same_steps = retries_pass d rest e in
          passed_Way d rest n same_steps (
            first_Way rest more (later_retry n found)
              (subst (λ (x : List RetryStep). steps_check none x ≡ ok tt) same_steps h))
      | inr (to, k, x, e) ↦ retried_Way d rest to more k x (retries_step d rest _ e) h
    ]
  where
    later_retry : ¬ Retries d.decision_kind → SomeRetry (d ∷ rest) → SomeRetry rest
    later_retry n (inl k) = absurd (n k)
    later_retry n (inr found) = found

-- What the retries of an accepted basis show.
pub record Connects (b : RunFinalizationBasis) (first final : RetrySource) : Type 0 where
  pub leads : Leads first b.values.decision_chain final
  pub from_original : b.values.original_attempt_id ≡ some first.attempt_id
  pub from_fence : b.values.original_attempt_fence ≡ some first.attempt_fence
  pub to_final : b.values.final_attempt_id ≡ some final.attempt_id
  pub to_number : b.values.final_attempt_no ≡ some final.attempt_no
  pub to_fence : b.values.final_attempt_fence ≡ some final.attempt_fence
  pub for_all_items : final.item_set_digest ≡ b.run_item_set_digest

ends_check-starts :
    (b : RunFinalizationBasis) (s : RetryStep) (rest steps : List RetryStep)
    → steps ≡ s ∷ rest
    → ends_check b steps ≡ ok tt
    → (starts b s.source ≡ true) × (ends b (last_target s.target rest) ≡ true)
ends_check-starts b s rest steps e h =
    open_check (subst (λ (x : List RetryStep). ends_check b x ≡ ok tt) e h)
  where
    open_check :
        ends_check b (s ∷ rest) ≡ ok tt
        → (starts b s.source ≡ true) × (ends b (last_target s.target rest) ≡ true)
    open_check g = unfold ends_check in ground arith

connect :
    (b : RunFinalizationBasis) (o : Option RetrySource) (first : RetrySource)
    (final : RetryDecisionResultRef)
    → o ≡ some first
    → starts b o ≡ true
    → ends b final ≡ true
    → Leads first b.values.decision_chain (as_source final)
    → Connects b first (as_source final)
connect b none first final e h k r = cc
connect b (some s) first final e h k r =
    ground (arith, digest_eq_iff final.target_item_set_digest b.run_item_set_digest)

validate_decisions-checked :
    (b : RunFinalizationBasis)
    → validate_decisions b ≡ ok tt
    → (steps_check none (retries b.values.decision_chain) ≡ ok tt)
      × (ends_check b (retries b.values.decision_chain) ≡ ok tt)
unfolding validate_decisions
validate_decisions-checked b h = ground arith

-- When the basis accepts a chain of accepted decisions of which some are retries, suite or platform,
-- these lead from an Attempt with the basis's original id and fence to one with its final id, number
-- and fence. Each retry starts where the one before it ended and targets the Attempt after: the next
-- number, a greater fence and the same items, which are the Run's whole item set. The number of the
-- original Attempt is the one that the first retry names, as the basis holds none.
pub validate_decisions-Connects :
    (b : RunFinalizationBasis)
    → validate_decisions b ≡ ok tt
    → Accepted b.values.decision_chain
    → SomeRetry b.values.decision_chain
    → (first : RetrySource) × (final : RetrySource) × Connects b first final
validate_decisions-Connects b h accepted found =
    let (steps, end) = validate_decisions-checked b h in
    let w = first_Way b.values.decision_chain accepted found steps in
    let (a, z) = ends_check-starts b w.step w.later (retries b.values.decision_chain) w.shape end in
    (
      w.first,
      as_source (last_target w.step.target w.later),
      connect b w.step.source w.first (last_target w.step.target w.later) w.from a z w.leads,
    )
