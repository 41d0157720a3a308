-- ===== src/Tests/BudgetExamples.antt =====
-- The budget theorems at a budget of two requests.
use alr_tw.Prelude.{
  ℕ, ◌<◌, ◌+◌, ◌-◌, String, false, ◌≡◌, ◌≢◌, refl, [], ◌∷◌, arith, min, length, string_eq,
}
use alr_tw.Budget.{Outcome, check, request, bounded_provider, Coroutine}
use alr_tw.Budget.Charges.{
  exhausted_absorbs, IsWithin, charge_all, charge_all-IsWithin, charge_all_exact, DeliversAt,
  bounded_provider_deadline,
}
use alr_tw.Tests.Samples.{open_scope, exhausted_scope}

not_empty : ◌≢◌ {A = String} "TIMEOUT_BUDGET_EXHAUSTED" ""
not_empty e = ground (arith, (string_eq.test_iff "TIMEOUT_BUDGET_EXHAUSTED" "").1 e)

exhausted_absorbs_example :
    (check 5 exhausted_scope ≡ (exhausted_scope, Outcome.exceeded "TIMEOUT_BUDGET_EXHAUSTED"))
    × (request 5 exhausted_scope ≡ (exhausted_scope, Outcome.exceeded "TIMEOUT_BUDGET_EXHAUSTED"))
exhausted_absorbs_example =
    exhausted_absorbs exhausted_scope "TIMEOUT_BUDGET_EXHAUSTED" 5 (refl, not_empty)

charge_all-IsWithin_example :
    ((charge_all open_scope (5 ∷ 6 ∷ 7 ∷ [])).0.budget.used_http_requests
      ≡ open_scope.budget.used_http_requests + (charge_all open_scope (5 ∷ 6 ∷ 7 ∷ [])).1)
    × ((charge_all open_scope (5 ∷ 6 ∷ 7 ∷ [])).0.budget.max_http_requests
        ≡ open_scope.budget.max_http_requests)
    × IsWithin (charge_all open_scope (5 ∷ 6 ∷ 7 ∷ [])).0
charge_all-IsWithin_example = charge_all-IsWithin open_scope (5 ∷ 6 ∷ 7 ∷ []) (omega arith)

charge_all_exact_example :
    (charge_all open_scope (5 ∷ 6 ∷ 7 ∷ [])).1
    ≡ min
        (length {A = ℕ} (5 ∷ 6 ∷ 7 ∷ []))
        (open_scope.budget.max_http_requests - open_scope.budget.used_http_requests)
charge_all_exact_example =
    charge_all_exact open_scope (5 ∷ 6 ∷ 7 ∷ []) refl (omega arith)
      (omega arith, (omega arith, (omega arith, tt)))

sample_checked : check 5 open_scope ≡ (open_scope, Outcome.returned 995)
unfolding check
sample_checked = refl

-- a provider that answers at once
abbrev answering : Coroutine ℕ
answering left s = (s, Outcome.returned 42, false)

sample_provided : bounded_provider answering 5 6 open_scope ≡ (open_scope, Outcome.returned 42)
unfolding bounded_provider check
sample_provided = refl

bounded_provider_deadline_example : (5 < open_scope.deadline) × DeliversAt 6 open_scope
bounded_provider_deadline_example =
    bounded_provider_deadline 6 open_scope 42 answering 5 open_scope sample_provided
