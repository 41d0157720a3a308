-- ===== src/Budget/Charges.antt =====
-- The limits hold: requests, exhaustion, and results after the deadline.
use alr_tw.Prelude.{
  ℕ, ◌+◌, ◌-◌, ◌≤◌, ◌<◌, String, Bool, true, false, ◌≡◌, ◌≢◌, ◌⊎◌, inl, inr, refl, none, some, List,
  [], ◌∷◌, min, length, arith, All, Bool-cases, Option-cases, ap, subst, sym, ◌∙◌, string_eq, ◌==◌,
}
use native.Mathlib.Decide.{dec_lt}
use alr_tw.Budget.{
  BudgetScope, Outcome, check, request, store_budget, bounded_provider, Coroutine, http_reason,
  recheck, after_wait, await,
}

-- The scope has recorded why no more is allowed.
abbrev IsExhausted : BudgetScope → String → Type 0
IsExhausted s reason = (s.budget.exhausted_reason ≡ some reason) × (reason ≢ "")

pub exhausted_absorbs :
    (s : BudgetScope) (reason : String) (now : ℕ)
    → IsExhausted s reason
    → (check now s ≡ (s, Outcome.exceeded reason)) × (request now s ≡ (s, Outcome.exceeded reason))
unfolding check request
exhausted_absorbs s reason now h = ground (arith, string_eq.test_iff reason "")

-- A request leaves the scope alone, or writes one budget and hands it to `persist`.
pub request_persists :
    (now : ℕ) (s : BudgetScope)
    → ((request now s).0 ≡ s) ⊎ ((request now s).0 ≡ store_budget (request now s).0.budget s)
unfolding request store_budget
request_persists now s = ground arith

abbrev pub IsWithin : BudgetScope → Type 0
IsWithin s = s.budget.used_http_requests ≤ s.budget.max_http_requests

-- What a series of requests does, each at its reading of the clock: the scope, and how many were
-- granted. A refused request ends only itself.
abbrev granted_one : Outcome (Unit {0}) → ℕ
granted_one (Outcome.returned _) = 1
granted_one _ = 0

pub charge_all : BudgetScope → List ℕ → BudgetScope × ℕ
charge_all s [] = (s, 0)
charge_all s (now ∷ times) =
    let (s', o) = request now s in
    let (end, granted) = charge_all s' times in (end, granted_one o + granted)

request_counts :
    (now : ℕ) (s : BudgetScope)
    → IsWithin s
    → let (s', o) = request now s in
      (s'.budget.used_http_requests ≡ s.budget.used_http_requests + granted_one o)
      × (s'.budget.max_http_requests ≡ s.budget.max_http_requests)
      × IsWithin s'
unfolding request
request_counts now s h = (ground arith, ground arith, ground arith)

-- Whatever the clock reads, the requests used grow by exactly the requests granted, and never pass
-- the limit, which does not change.
pub charge_all-IsWithin :
    (s : BudgetScope) (times : List ℕ)
    → IsWithin s
    → let (end, granted) = charge_all s times in
      (end.budget.used_http_requests ≡ s.budget.used_http_requests + granted)
      × (end.budget.max_http_requests ≡ s.budget.max_http_requests)
      × IsWithin end
unfolding charge_all
charge_all-IsWithin s [] h = (omega arith, refl, h)
charge_all-IsWithin s (now ∷ times) h =
    let (u, m, w) = request_counts now s h in
    let (u', m', w') = charge_all-IsWithin (request now s).0 times w in
    (omega (arith, u, u'), m' ∙ m, w')

-- Open for business: no reason is recorded.
abbrev IsOpen : BudgetScope → Type 0
IsOpen s = s.budget.exhausted_reason ≡ none

request-IsOpen :
    (now : ℕ) (s : BudgetScope)
    → IsOpen s
    → now < s.deadline
    → s.budget.used_http_requests < s.budget.max_http_requests
    → let (s', o) = request now s in
      IsOpen s' × (s'.deadline ≡ s.deadline) × (o ≡ Outcome.returned tt)
unfolding request
request-IsOpen now s h t m = (ground arith, ground arith, ground arith)

request_full :
    (now : ℕ) (s : BudgetScope)
    → IsOpen s
    → now < s.deadline
    → s.budget.max_http_requests ≤ s.budget.used_http_requests
    → let (s', o) = request now s in
      (s'.budget.exhausted_reason ≡ some http_reason) × (o ≡ Outcome.exceeded http_reason)
unfolding request
request_full now s h t m = (ground arith, ground arith)

closed_grants_none :
    (s : BudgetScope) (times : List ℕ)
    → s.budget.exhausted_reason ≡ some http_reason
    → (charge_all s times).1 ≡ 0
unfolding charge_all
closed_grants_none s [] h = refl
closed_grants_none s (now ∷ times) h =
    rw
      (exhausted_absorbs s http_reason now
        (h, λ e. ground (arith, string_eq.test_iff http_reason ""))).1
      (omega (arith, closed_grants_none s times h))

pub charge_all_exact :
    (s : BudgetScope) (times : List ℕ)
    → IsOpen s
    → IsWithin s
    → All (λ now. now < s.deadline) times
    → (charge_all s times).1
      ≡ min (length times) (s.budget.max_http_requests - s.budget.used_http_requests)
unfolding charge_all
charge_all_exact s [] o w h = omega arith
charge_all_exact s (now ∷ times) o w h =
    elim (dec_lt s.budget.used_http_requests s.budget.max_http_requests) [
      | yes room ↦
          (let (o', d, g) = request-IsOpen now s o h.0 room in
            let (u, m, w') = request_counts now s w in
            let ih =
              charge_all_exact (request now s).0 times o' w'
                (subst (λ k. All (λ t. t < k) times) (sym d) h.1) in
            let one = ap granted_one g in omega (arith, one, ih, u, m))
      | no full ↦
          (let (r, g) = request_full now s o h.0 (omega arith) in
            let one = ap granted_one g in
            omega (arith, one, closed_grants_none (request now s).0 times r))
    ]

-- A check returns only in time, on a scope that records no reason, and changes nothing.
pub check_returned :
    (now : ℕ) (s end : BudgetScope) (left : ℕ)
    → check now s ≡ (end, Outcome.returned left)
    → (end ≡ s)
      × (now < s.deadline)
      × ((s.budget.exhausted_reason ≡ none) ⊎ (s.budget.exhausted_reason ≡ some ""))
unfolding check
check_returned now s end left h = elim (Option-cases s.budget.exhausted_reason) [
  | inl e ↦ (ground arith, ground arith, inl e)
  | inr (reason, e) ↦ elim (Bool-cases (reason == "")) [
    | inl q ↦ (ground arith, ground arith, inr (e ∙ ap some ((string_eq.test_iff reason "").0 q)))
    | inr q ↦ absurd (ground arith)
  ]
]

-- The scope may deliver at this time.
abbrev pub DeliversAt : ℕ → BudgetScope → Type 0
DeliversAt later s =
    (later < s.deadline)
    × ((s.budget.exhausted_reason ≡ none) ⊎ (s.budget.exhausted_reason ≡ some ""))

module _ {ℓ} {A : Type ℓ} (later : ℕ) (end : BudgetScope) (result : A) where
  recheck_delivers :
      (s : BudgetScope) (r : A) (c : BudgetScope × Outcome ℕ)
      → check later s ≡ c
      → recheck r c ≡ (end, Outcome.returned result)
      → DeliversAt later end
  unfolding recheck
  recheck_delivers s r (s', Outcome.returned left) e h =
      let (same, time, reason) = check_returned later s s' left e in
      let moved : s ≡ end = sym same ∙ ap (λ p. p.0) h in
      subst (DeliversAt later) moved (time, reason)
  recheck_delivers s r (s', Outcome.exceeded reason) e h = cc
  recheck_delivers s r (s', Outcome.timed_out) e h = cc
  recheck_delivers s r (s', Outcome.failed message) e h = cc

  wait_delivers :
      (s : BudgetScope) (o : Outcome A) (expired : Bool)
      → after_wait later s o expired ≡ (end, Outcome.returned result)
      → DeliversAt later end
  unfolding after_wait
  wait_delivers s (Outcome.returned r) expired h = recheck_delivers s r (check later s) refl h
  wait_delivers s Outcome.timed_out true h = cc
  wait_delivers s Outcome.timed_out false h = cc
  wait_delivers s (Outcome.exceeded reason) expired h = cc
  wait_delivers s (Outcome.failed message) expired h = cc

  await_delivers :
      (coroutine : Coroutine A) (now : ℕ) (s : BudgetScope) (c : BudgetScope × Outcome ℕ)
      → check now s ≡ c
      → await coroutine later c.0 c.1 ≡ (end, Outcome.returned result)
      → (now < s.deadline) × DeliversAt later end
  unfolding await
  await_delivers coroutine now s (s', Outcome.returned left) e h =
      let (s₁, o, expired) = coroutine left s' in
      ((check_returned now s s' left e).1, wait_delivers s₁ o expired h)
  await_delivers coroutine now s (s', Outcome.exceeded reason) e h = cc
  await_delivers coroutine now s (s', Outcome.timed_out) e h = cc
  await_delivers coroutine now s (s', Outcome.failed message) e h = cc

  pub bounded_provider_deadline :
      (coroutine : Coroutine A) (now : ℕ) (s : BudgetScope)
      → bounded_provider coroutine now later s ≡ (end, Outcome.returned result)
      → (now < s.deadline) × DeliversAt later end
  unfolding bounded_provider
  bounded_provider_deadline coroutine now s h = await_delivers coroutine now s (check now s) refl h
