-- ===== src/Finalization/Basis/Leads.antt =====
-- What the retries of a chain of decisions are, one after the other.
use mathlib.Core.Path.{subst}
use qarunner.Finalization.{FinalizationDecisionKind, platform_retry, suite_retry}
use qarunner.Prelude.{
  >>=-eq-ok, List, Option, [], arith, inl, inr, none, ok, refl, some, sym, true, ◌+◌, ◌<◌, ◌∷◌, ◌≡◌,
  ◌⊎◌,
}
use qarunner.Finalization.Decisions.{
  DecisionResult, RetryDecisionResultRef, RunFinalizationDecisionRef, decision_post_init,
  kind_matches, retry_result,
}
use qarunner.Finalization.Basis.{
  RetrySource, RetryStep, follows, last_target, retries, source_of, step_check, step_of,
  steps_check,
}
use qarunner.Values.Laws.{digest_eq_iff}

-- The kinds of decision that start another Attempt.
abbrev pub Retries : FinalizationDecisionKind → Type 0
Retries k = (k ≡ suite_retry) ⊎ (k ≡ platform_retry)

-- The decision starts from the Attempt `s`.
pub record Leaves (d : RunFinalizationDecisionRef) (s : RetrySource) : Type 0 where
  by_id : d.source_attempt_id ≡ some s.attempt_id
  by_number : d.source_attempt_no ≡ some s.attempt_no
  by_fence : d.source_attempt_fence ≡ some s.attempt_fence
  by_items : d.source_item_set_digest ≡ some s.item_set_digest

-- The target of a retry is the Attempt after its source: the next number, a greater fence and the
-- same items.
pub record Follows (s : RetrySource) (t : RetryDecisionResultRef) : Type 0 where
  next_number : t.target_attempt_no ≡ s.attempt_no + 1
  greater_fence : s.attempt_fence < t.target_attempt_fence
  same_items : t.target_item_set_digest ≡ s.item_set_digest

-- The target of a retry as the source of the next one.
abbrev pub as_source : RetryDecisionResultRef → RetrySource
as_source t = record {
  attempt_id = t.target_attempt_id;
  attempt_no = t.target_attempt_no;
  attempt_fence = t.target_attempt_fence;
  item_set_digest = t.target_item_set_digest;
}

-- Every decision that retries starts where the one before it ended, and leads to the Attempt after.
pub data Leads : RetrySource → List RunFinalizationDecisionRef → RetrySource → Type 0 where
  arrived : {s : RetrySource} → Leads s [] s
  passes :
      {s t : RetrySource} {d : RunFinalizationDecisionRef} {rest : List RunFinalizationDecisionRef}
      → ¬ Retries d.decision_kind
      → Leads s rest t
      → Leads s (d ∷ rest) t
  retries_to :
      {s t : RetrySource} {d : RunFinalizationDecisionRef} {rest : List RunFinalizationDecisionRef}
      (to : RetryDecisionResultRef)
      → Retries d.decision_kind
      → d.decision_result ≡ retry_result to
      → Leaves d s
      → Follows s to
      → Leads (as_source to) rest t
      → Leads s (d ∷ rest) t

-- Each decision's result is of its kind, as the decisions' own constructor asks.
abbrev pub Accepted : List RunFinalizationDecisionRef → Type 0
Accepted [] = Unit
Accepted (d ∷ rest) = (decision_post_init d ≡ ok d) × Accepted rest

pub decision_post_init-kind :
    (d : RunFinalizationDecisionRef)
    → decision_post_init d ≡ ok d
    → kind_matches d.decision_kind d.decision_result ≡ true
unfolding decision_post_init
decision_post_init-kind d h = ground arith

abbrev pub source_of_ref : RunFinalizationDecisionRef → Option RetrySource
source_of_ref d =
    source_of d.source_attempt_id d.source_attempt_no d.source_attempt_fence
      d.source_item_set_digest

pub step_of_cases :
    (k : FinalizationDecisionKind) (d : RunFinalizationDecisionRef) (x : DecisionResult)
    → kind_matches k x ≡ true
    → (¬ Retries k) × (step_of k d x ≡ none)
      ⊎ ((t : RetryDecisionResultRef) × Retries k
          × (x ≡ retry_result t)
          × (step_of k d x ≡ some (record { source = source_of_ref d; target = t })))
step_of_cases k d x h = ground arith

pub source_of-Leaves :
    (d : RunFinalizationDecisionRef) (s : RetrySource) → source_of_ref d ≡ some s → Leaves d s
source_of-Leaves d s h = ground arith

abbrev Continues : Option RetryDecisionResultRef → RetrySource → Type 0
Continues none s = Unit
Continues (some p) s = s ≡ as_source p

pub step_check-Follows :
    (previous : Option RetryDecisionResultRef) (o : Option RetrySource) (t : RetryDecisionResultRef)
    → step_check previous o t ≡ ok tt
    → (s : RetrySource) × (o ≡ some s) × Follows s t × Continues previous s
step_check-Follows previous none t h = cc
step_check-Follows none (some s) t h =
    (s, refl, ground (arith, digest_eq_iff t.target_item_set_digest s.item_set_digest), tt)
step_check-Follows (some p) (some s) t h = (
  s,
  refl,
  ground (arith, digest_eq_iff t.target_item_set_digest s.item_set_digest),
  ground (arith, digest_eq_iff s.item_set_digest p.target_item_set_digest),
)

-- The retries of a list that begins with a decision, by what the decision is.
pub retries_pass :
    (d : RunFinalizationDecisionRef) (rest : List RunFinalizationDecisionRef)
    → step_of d.decision_kind d d.decision_result ≡ none
    → retries (d ∷ rest) ≡ retries rest
unfolding retries
retries_pass d rest h = rw h refl

pub retries_step :
    (d : RunFinalizationDecisionRef) (rest : List RunFinalizationDecisionRef) (s : RetryStep)
    → step_of d.decision_kind d d.decision_result ≡ some s
    → retries (d ∷ rest) ≡ s ∷ retries rest
unfolding retries
retries_step d rest s h = rw h refl

pub steps_parts :
    (previous : Option RetryDecisionResultRef) (s : RetryStep) (rest steps : List RetryStep)
    → steps ≡ s ∷ rest
    → steps_check previous steps ≡ ok tt
    → (step_check previous s.source s.target ≡ ok tt) × (steps_check (some s.target) rest ≡ ok tt)
unfolding steps_check
steps_parts previous s rest steps e h =
    let h' : steps_check previous (s ∷ rest) ≡ ok tt =
      subst (λ (x : List RetryStep). steps_check previous x ≡ ok tt) e h in
    let (u, f, k) = >>=-eq-ok (step_check previous s.source s.target) _ h' in (f, k)

abbrev last_of : RetryDecisionResultRef → List RunFinalizationDecisionRef → RetryDecisionResultRef
last_of t l = last_target t (retries l)

link :
    (previous : Option RetryDecisionResultRef) (d : RunFinalizationDecisionRef)
    (t : RetryDecisionResultRef)
    → step_check previous (source_of_ref d) t ≡ ok tt
    → (s : RetrySource) × Leaves d s × Follows s t × Continues previous s
link previous d t h =
    let (s, e, f, c) = step_check-Follows previous (source_of_ref d) t h in
    (s, source_of-Leaves d s e, f, c)

-- The rest of the way, when the retry before led to `t`.
pub steps_check-Leads :
    (t : RetryDecisionResultRef) (l : List RunFinalizationDecisionRef)
    → Accepted l
    → steps_check (some t) (retries l) ≡ ok tt
    → Leads (as_source t) l (as_source (last_of t l))
unfolding retries last_target
steps_check-Leads t [] a h = Leads.arrived
steps_check-Leads t (d ∷ rest) (a, more) h =
    elim (step_of_cases d.decision_kind d d.decision_result (decision_post_init-kind d a)) [
      | inl (n, e) ↦
          let same_steps = retries_pass d rest e in
          let later =
            steps_check-Leads t rest more
              (subst (λ (x : List RetryStep). steps_check (some t) x ≡ ok tt) same_steps h) in
          subst
            (λ (x : List RetryStep). Leads (as_source t) (d ∷ rest) (as_source (last_target t x)))
            (sym same_steps) (Leads.passes n later)
      | inr (to, k, x, e) ↦
          let step : RetryStep = record { source = source_of_ref d; target = to } in
          let steps = retries_step d rest step e in
          let (one, others) =
            steps_parts (some t) step (retries rest) (retries (d ∷ rest)) steps h in
          let (s, leaves, follows, from) = link (some t) d to one in
          subst
            (λ (y : List RetryStep). Leads (as_source t) (d ∷ rest) (as_source (last_target t y)))
            (sym steps)
            (subst (λ (z : RetrySource). Leads z (d ∷ rest) (as_source (last_of to rest))) from
              (Leads.retries_to to k x leaves follows (steps_check-Leads to rest more others)))
    ]
