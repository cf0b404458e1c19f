-- ===== src/Finalization/Selection/Latest.antt =====
-- The Attempt that is selected is the last complete one of a chain without gaps.
use qarunner.Prelude.{
  Bool, List, Option, String, [], arith, false, if◌then◌else◌, inl, inr, is_blank, is_empty, last,
  last_such, none, ok, or_else, raised, refl, some, sym, true, ℕ, ◌++◌, ◌+◌, ◌<◌, ◌↔◌, ◌∙◌, ◌∷◌,
  ◌≡◌, ◌⊎◌,
}
use qarunner.Values.{Command, Digest, DomainError, review_required}
use qarunner.Finalization.Keys.{RunItemKey}
use qarunner.Finalization.ResolutionSet.{is_subset, repeats_key, same_keys}
use qarunner.Finalization.Selection.{
  VerifiedAttemptResolutionSet, choose, complete_attempts, keys,
  select_latest_authorized_complete_attempt,
}
use qarunner.Values.Laws.{digest_eq_iff}

-- Attempts that continue one another: the numbers have no gap, the fences rise, each Attempt is for
-- all the Run's items, and has results of these only.
pub data Chain (expected : List RunItemKey) (item_set : Digest)
    : ℕ → ℕ → List VerifiedAttemptResolutionSet → Type 0 where
  stop : {n fence : ℕ} → Chain expected item_set n fence []
  next :
      {n fence : ℕ} {a : VerifiedAttemptResolutionSet} {rest : List VerifiedAttemptResolutionSet}
      → a.attempt_no ≡ n
      → fence < a.attempt_fence
      → a.attempt_item_set_digest ≡ item_set
      → is_subset (keys a) expected ≡ true
      → Chain expected item_set (n + 1) a.attempt_fence rest
      → Chain expected item_set n fence (a ∷ rest)

-- An Attempt with a result for each of the Run's items.
abbrev pub is_complete : List RunItemKey → VerifiedAttemptResolutionSet → Bool
is_complete expected a = same_keys (keys a) expected

last_snoc :
    (xs : List VerifiedAttemptResolutionSet) (a : VerifiedAttemptResolutionSet)
    → last (xs ++ a ∷ []) ≡ some a
last_snoc [] a = refl
last_snoc (x ∷ []) a = refl
last_snoc (x ∷ y ∷ ys) a = last_snoc (y ∷ ys) a

module _ (expected : List RunItemKey) (item_set : Digest) where
  extend :
      (a : VerifiedAttemptResolutionSet) (rest : List VerifiedAttemptResolutionSet) (n fence : ℕ)
      → a.attempt_no ≡ n
      → fence < a.attempt_fence
      → a.attempt_item_set_digest ≡ item_set
      → is_subset (keys a) expected ≡ true
      → Chain expected item_set (n + 1) a.attempt_fence rest
      → Chain expected item_set n fence (a ∷ rest)
  extend a rest n fence e f g k c = Chain.next {a = a} e f g k c

  complete_attempts-Chain :
      (n fence : ℕ) (found attempts result : List VerifiedAttemptResolutionSet)
      → complete_attempts expected item_set n fence found attempts ≡ ok result
      → Chain expected item_set n fence attempts
        × (last result ≡ or_else (last_such (is_complete expected) attempts) (last found))
  unfolding complete_attempts last_such
  complete_attempts-Chain n fence found [] result h = (Chain.stop, ground arith)
  complete_attempts-Chain n fence found (a ∷ rest) result h = ground (
    arith,
    digest_eq_iff a.attempt_item_set_digest item_set,
    last_snoc found a,
    complete_attempts-Chain (n + 1) a.attempt_fence (found ++ a ∷ []) rest result,
    complete_attempts-Chain (n + 1) a.attempt_fence found rest result,
    extend a rest n fence,
  )

  complete_attempts_runs :
      {n fence : ℕ} {attempts : List VerifiedAttemptResolutionSet}
      → Chain expected item_set n fence attempts
      → (found : List VerifiedAttemptResolutionSet)
      → (result : List VerifiedAttemptResolutionSet) × (complete_attempts expected item_set n fence
            found attempts
          ≡ ok result)
  unfolding complete_attempts
  complete_attempts_runs Chain.stop found = (found, refl)
  complete_attempts_runs (Chain.next {a = a} e f g k c) found = ground (
    arith,
    digest_eq_iff a.attempt_item_set_digest item_set,
    complete_attempts_runs c (if is_complete expected a then found ++ a ∷ [] else found),
  )

module _ (expected : List RunItemKey) (item_set : Digest) where
  complete_attempts_cases :
      (n fence : ℕ) (found attempts : List VerifiedAttemptResolutionSet)
      → Chain expected item_set n fence attempts
        ⊎ ((e : DomainError) × (complete_attempts expected item_set n fence found attempts
              ≡ raised e))
  complete_attempts_cases n fence found attempts =
      split (complete_attempts expected item_set n fence found attempts) refl
    where
      split :
          (result : Command (List VerifiedAttemptResolutionSet))
          → complete_attempts expected item_set n fence found attempts ≡ result
          → Chain expected item_set n fence attempts
            ⊎ ((e : DomainError) × (complete_attempts expected item_set n fence found attempts
                  ≡ raised e))
      split (ok result) h =
          inl (complete_attempts-Chain expected item_set n fence found attempts result h).0
      split (raised e) h = inr (e, h)

-- What the selection asks of its arguments.
pub record Selectable (expected : List RunItemKey) (item_set : Digest) (n fence : ℕ)
    (attempts : List VerifiedAttemptResolutionSet) (run_id : String) : Type 0 where
  pub some_item : is_empty expected ≡ false
  pub items_once : repeats_key expected ≡ false
  pub named : is_blank run_id ≡ false
  pub numbered : 0 < n
  pub fenced : 0 < fence
  pub some_attempt : is_empty attempts ≡ false
  pub continuous : Chain expected item_set (n + 1) fence attempts

or_else-none : (o : Option VerifiedAttemptResolutionSet) → or_else o none ≡ o
or_else-none none = refl
or_else-none (some a) = refl

choose_iff :
    (run_id : String) (latest o : Option VerifiedAttemptResolutionSet)
    (a : VerifiedAttemptResolutionSet)
    → (choose run_id latest o ≡ ok a) ↔ (o ≡ some a)
unfolding choose
choose_iff run_id latest (some x) a = ground arith
choose_iff run_id none none a = ground arith
choose_iff run_id (some x) none a = ground arith

module _ (expected : List RunItemKey) (item_set : Digest) (n fence : ℕ)
    (attempts : List VerifiedAttemptResolutionSet) (run_id : String) where
  -- From the chain to the result: the loop gives the last complete Attempt.
  select-choose :
      Selectable expected item_set n fence attempts run_id
      → select_latest_authorized_complete_attempt expected item_set n fence attempts run_id
        ≡ choose run_id (last attempts) (last_such (is_complete expected) attempts)
  unfolding select_latest_authorized_complete_attempt
  select-choose h =
      let (found, e) = complete_attempts_runs expected item_set h.continuous [] in
      let (c, l) = complete_attempts-Chain expected item_set (n + 1) fence [] attempts found e in
      let lasts = l ∙ or_else-none (last_such (is_complete expected) attempts) in ground arith

  select-Selectable :
      (a : VerifiedAttemptResolutionSet)
      → select_latest_authorized_complete_attempt expected item_set n fence attempts run_id ≡ ok a
      → Selectable expected item_set n fence attempts run_id
  unfolding select_latest_authorized_complete_attempt
  select-Selectable a h =
      ground (arith, complete_attempts_cases expected item_set (n + 1) fence [] attempts)

  -- An Attempt is selected exactly when there are items, each once, the run is named, the original
  -- number and fence are positive, the Attempts continue the original one with numbers without a
  -- gap and rising fences, each for the Run's item set and with results of the Run's items only, and
  -- it is the last of them that has a result for each item.
  pub select_iff :
      (a : VerifiedAttemptResolutionSet)
      → (select_latest_authorized_complete_attempt expected item_set n fence attempts run_id ≡ ok a)
        ↔ Selectable expected item_set n fence attempts run_id
          × (last_such (is_complete expected) attempts ≡ some a)
  select_iff a = (
    λ h. (
      select-Selectable a h,
      (choose_iff run_id (last attempts) (last_such (is_complete expected) attempts) a).0
          (sym (select-choose (select-Selectable a h)) ∙ h),
    ),
    λ (s, h).
        select-choose s
        ∙ (choose_iff run_id (last attempts) (last_such (is_complete expected) attempts) a).1 h,
  )

  -- Under the same conditions on the arguments, when none of the Attempts has a result for each
  -- item, the last one is sent to review as unknown, under its own fence.
  pub select-review :
      (latest : VerifiedAttemptResolutionSet)
      → Selectable expected item_set n fence attempts run_id
      → last_such (is_complete expected) attempts ≡ none
      → last attempts ≡ some latest
      → select_latest_authorized_complete_attempt expected item_set n fence attempts run_id
        ≡ raised (
            review_required run_id latest.attempt_id latest.attempt_fence
              "no_authorized_complete_attempt")
  select-review latest h e f = select-choose h ∙ (unfold choose in rw (e, f) refl)
