-- ===== src/Budget.antt =====
-- Request accounting and time limits: src/alr_tw/contracts/budget.py and src/alr_tw/budget.py.
-- Times are microseconds; every reading of a clock is an argument.
pub mod Charges
use alr_tw.Prelude.{
  ℕ, ◌+◌, ◌-◌, ◌≤◌, String, Bool, true, false, not, ◌≡◌, Option, none, some, List, [], ◌∷◌, min,
  leb, ◌==◌, string_eq, if◌then◌else◌,
}

pub record ResearchBudget : Type 0 where
  pub max_micros : ℕ  -- `max_seconds`
  pub max_http_requests : ℕ
  pub deadline_at : Option ℕ
  pub used_http_requests : ℕ
  pub exhausted_reason : Option String
  pub used_total_tokens : Option ℕ

-- `ResearchBudget.remaining`; the truncated `-` is the `max(0.0, …)`
unfoldable remaining : ResearchBudget → ℕ → ℕ
remaining b now = elim b.deadline_at [ none ↦ b.max_micros | some at ↦ min b.max_micros (at - now) ]

-- `persisted` is the list of what the callback `persist` was given, the last first.
pub record BudgetScope : Type 0 where
  pub budget : ResearchBudget
  pub deadline : ℕ
  pub persisted : List ResearchBudget

-- How a call ends: with a value, by `BudgetExceeded`, by `TimeoutError` or by another exception.
pub data Outcome {ℓ} (A : Type ℓ) : Type ℓ where
  returned : A → Outcome A
  exceeded : String → Outcome A
  timed_out : Outcome A
  failed : String → Outcome A

abbrev timeout_reason : String
timeout_reason = "TIMEOUT_BUDGET_EXHAUSTED"

abbrev pub http_reason : String
http_reason = "HTTP_BUDGET_EXHAUSTED"

-- `persist(budget)` after the budget is replaced
unfoldable pub store_budget : ResearchBudget → BudgetScope → BudgetScope
store_budget b s = record s { budget = b; persisted = b ∷ s.persisted }

-- `BudgetScope.exhaust`
unfoldable exhaust {ℓ} : {A : Type ℓ} → String → BudgetScope → BudgetScope × Outcome A
unfolding store_budget
exhaust reason s =
    (store_budget (record s.budget { exhausted_reason = some reason }) s, Outcome.exceeded reason)

-- the rest of `check`, once no reason is recorded
check_time : ℕ → BudgetScope → BudgetScope × Outcome ℕ
unfolding exhaust
check_time now s =
    if leb s.deadline now
    then exhaust timeout_reason s
    else (s, Outcome.returned (s.deadline - now))

-- the empty text counts as no reason
check_reason : Option String → ℕ → BudgetScope → BudgetScope × Outcome ℕ
unfolding check_time
check_reason none now s = check_time now s
check_reason (some reason) now s =
    if reason == "" then check_time now s else (s, Outcome.exceeded reason)

-- `BudgetScope.check`
unfoldable pub check : ℕ → BudgetScope → BudgetScope × Outcome ℕ
unfolding check_reason
check now s = check_reason s.budget.exhausted_reason now s

charge : BudgetScope → BudgetScope × Outcome (Unit {0})
unfolding exhaust store_budget
charge s =
    if leb s.budget.max_http_requests s.budget.used_http_requests then exhaust http_reason s else (
      store_budget (record s.budget { used_http_requests = s.budget.used_http_requests + 1 }) s,
      Outcome.returned tt,
    )

after_check : BudgetScope → Outcome ℕ → BudgetScope × Outcome (Unit {0})
unfolding charge
after_check s (Outcome.returned left) = charge s
after_check s (Outcome.exceeded reason) = (s, Outcome.exceeded reason)
after_check s Outcome.timed_out = (s, Outcome.timed_out)
after_check s (Outcome.failed message) = (s, Outcome.failed message)

-- `BudgetScope.request`
unfoldable pub request : ℕ → BudgetScope → BudgetScope × Outcome (Unit {0})
unfolding check after_check
request now s = let (s', o) = check now s in after_check s' o

-- `charge_http_request`: no active scope, no accounting
unfoldable charge_http_request : ℕ → Option BudgetScope → Option BudgetScope × Outcome (Unit {0})
unfolding request
charge_http_request now none = (none, Outcome.returned tt)
charge_http_request now (some s) = let (s', o) = request now s in (some s', o)

-- A coroutine under the timer: it may charge the scope, ends somehow, and tells whether the timer
-- had expired.
abbrev pub Coroutine {ℓ} : Type ℓ → Type ℓ
Coroutine A = ℕ → BudgetScope → BudgetScope × Outcome A × Bool

module _ {ℓ} {A : Type ℓ} where
  recheck : A → BudgetScope × Outcome ℕ → BudgetScope × Outcome A
  recheck result (s, Outcome.returned left) = (s, Outcome.returned result)
  recheck result (s, Outcome.exceeded reason) = (s, Outcome.exceeded reason)
  recheck result (s, Outcome.timed_out) = (s, Outcome.timed_out)
  recheck result (s, Outcome.failed message) = (s, Outcome.failed message)

  -- what follows the `async with`
  after_wait : ℕ → BudgetScope → Outcome A → Bool → BudgetScope × Outcome A
  unfolding recheck check exhaust
  after_wait later s (Outcome.returned result) expired = recheck result (check later s)
  after_wait later s Outcome.timed_out expired =
      if expired then exhaust timeout_reason s else (s, Outcome.timed_out)
  after_wait later s (Outcome.exceeded reason) expired = (s, Outcome.exceeded reason)
  after_wait later s (Outcome.failed message) expired = (s, Outcome.failed message)

  await : Coroutine A → ℕ → BudgetScope → Outcome ℕ → BudgetScope × Outcome A
  unfolding after_wait
  await coroutine later s (Outcome.returned left) =
      let (s', o, expired) = coroutine left s in after_wait later s' o expired
  await coroutine later s (Outcome.exceeded reason) = (s, Outcome.exceeded reason)
  await coroutine later s Outcome.timed_out = (s, Outcome.timed_out)
  await coroutine later s (Outcome.failed message) = (s, Outcome.failed message)

  -- `bounded_provider` in an active scope: `now` when it is called, `later` when the wait is over
  unfoldable pub bounded_provider : Coroutine A → ℕ → ℕ → BudgetScope → BudgetScope × Outcome A
  unfolding check await
  bounded_provider coroutine now later s = let (s', o) = check now s in await coroutine later s' o
