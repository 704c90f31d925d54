-- ===== src/Reconciler/Summary.antt =====
-- What the summary of a pass says.
use opsflow.Prelude.{
  ℕ, ◌+◌, ◌≡◌, refl, ◌∙◌, subst, Option, none, some, List, [], ◌∷◌, length, arith,
}
use opsflow.Reconciler.{
  ReconciliationOutcome, task_succeeded, retryable_failure, permanent_failure,
  ReconciliationSummary, Candidate, attempt, tally, reconcile_all, reconcile_once,
}

-- Every candidate that was looked at was skipped or claimed, and every claimed one has one outcome.
pub record AddsUp (looked_at : ℕ) (s : ReconciliationSummary) : Type 0 where
  pub candidates : looked_at ≡ s.claimed + s.skipped
  pub outcomes : s.claimed ≡ s.succeeded_count + (s.retryable_failures + s.permanent_failures)

tally-AddsUp :
    (a : Option (Option ReconciliationOutcome)) (n : ℕ) (s s' : ReconciliationSummary)
    → AddsUp n s
    → tally a s ≡ some s'
    → AddsUp (n + 1) s' × (s'.discovered ≡ s.discovered)
tally-AddsUp none n s s' u h =
    (record { candidates = ground arith; outcomes = ground arith }, ground arith)
tally-AddsUp (some none) n s s' u h = ground arith
tally-AddsUp (some (some task_succeeded)) n s s' u h =
    (record { candidates = ground arith; outcomes = ground arith }, ground arith)
tally-AddsUp (some (some retryable_failure)) n s s' u h =
    (record { candidates = ground arith; outcomes = ground arith }, ground arith)
tally-AddsUp (some (some permanent_failure)) n s s' u h =
    (record { candidates = ground arith; outcomes = ground arith }, ground arith)

reconcile_all-AddsUp :
    (lease : ℕ) (cs : List Candidate) (n : ℕ) (s s' : ReconciliationSummary)
    → AddsUp n s
    → reconcile_all lease cs s ≡ some s'
    → AddsUp (n + length cs) s' × (s'.discovered ≡ s.discovered)
unfolding reconcile_all
reconcile_all-AddsUp lease [] n s s' u h =
    (record { candidates = ground arith; outcomes = ground arith }, ground arith)
reconcile_all-AddsUp lease (c ∷ cs) n s s' u h =
    from _ refl (λ s₁ u₁ h₁. reconcile_all-AddsUp lease cs (n + 1) s₁ s' u₁ h₁) h
  where
    from :
        (t : Option ReconciliationSummary)
        → tally (attempt lease c).0 s ≡ t
        → ((s₁ : ReconciliationSummary)
            → AddsUp (n + 1) s₁
            → reconcile_all lease cs s₁ ≡ some s'
            → AddsUp (n + 1 + length cs) s' × (s'.discovered ≡ s₁.discovered))
        → (elim t [ none ↦ none | some s₁ ↦ reconcile_all lease cs s₁ ]) ≡ some s'
        → AddsUp (n + length (c ∷ cs)) s' × (s'.discovered ≡ s.discovered)
    from none e more h' = ground arith
    from (some s₁) e more h' =
        let one = tally-AddsUp (attempt lease c).0 n s s₁ u e in
        let rest = more s₁ one.0 h' in
        (subst (λ k. AddsUp k s') (omega arith) rest.0, rest.1 ∙ one.1)

-- A pass that ends counts every candidate it discovered as skipped or claimed, and every claimed one
-- under exactly one outcome.
pub reconcile_once-AddsUp :
    (lease : ℕ) (candidates : List Candidate) (s : ReconciliationSummary)
    → reconcile_once lease candidates ≡ some s
    → AddsUp s.discovered s × (s.discovered ≡ length candidates)
unfolding reconcile_once
reconcile_once-AddsUp lease candidates s h =
    let (sum, same) =
      reconcile_all-AddsUp lease candidates 0 (start candidates) s
        (record { candidates = refl; outcomes = refl }) h in
    (subst (λ k. AddsUp k s) (omega (arith, same)) sum, same)
  where
    start : List Candidate → ReconciliationSummary
    start cs = record {
      discovered = length cs;
      claimed = 0;
      succeeded_count = 0;
      retryable_failures = 0;
      permanent_failures = 0;
      skipped = 0;
    }
