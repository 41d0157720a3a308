-- ===== src/Research/Routes.antt =====
-- How a run comes to a validated or a qualified answer.
use mathlib.Core.List.{Sublistᴰ}
use alr_tw.Prelude.{
  ◌<◌, ◌≡◌, ◌⊎◌, inl, inr, refl, ◌∙◌, sym, ap, subst, List, [], ◌∷◌, map, Result, ok, err, arith,
}
use alr_tw.Research.Kinds.{ResearchState}
use alr_tw.Research.Run.{Datetime, ResearchRun}
use alr_tw.Research.Transitions.{transition_run}
use alr_tw.Research.Paths.{
  ◌⟶◌, plan, stage, stage-⟶, accepted-⟶, run_after, Request, apply_requests,
}

-- One request keeps the state or follows the edge to its target.
step_cases :
    (run : ResearchRun) (target : ResearchState) (at : Datetime)
    → let s = (run_after run (transition_run run target at)).state in
      (s ≡ run.state) ⊎ ((s ≡ target) × (run.state ⟶ target))
step_cases run target at = by_result (transition_run run target at) refl
  where
    by_result :
        (r : Result ResearchRun)
        → transition_run run target at ≡ r
        → ((run_after run r).state ≡ run.state)
          ⊎ (((run_after run r).state ≡ target) × (run.state ⟶ target))
    by_result (err message) e = inl refl
    by_result (ok next) e =
        let (written, moved) = accepted-⟶ run next target at e in
        elim moved [
          | inl same ↦ inl (ap (λ (r : ResearchRun). r.state) written ∙ same)
          | inr edge ↦ inr (ap (λ (r : ResearchRun). r.state) written, edge)
        ]

-- After any requests the run is in the state where it was, or in one of a later stage.
pub apply_requests-stage :
    (run : ResearchRun) (requests : List Request)
    → ((apply_requests run requests).state ≡ run.state)
      ⊎ (stage run.state < stage (apply_requests run requests).state)
unfolding apply_requests
apply_requests-stage run [] = inl refl
apply_requests-stage run (r ∷ rest) =
    advance (step_cases run r.target r.at)
      (apply_requests-stage (run_after run (transition_run run r.target r.at)) rest)
  where
    s : ResearchState
    s = (run_after run (transition_run run r.target r.at)).state

    end : ResearchState
    end = (apply_requests (run_after run (transition_run run r.target r.at)) rest).state

    advance :
        (s ≡ run.state) ⊎ ((s ≡ r.target) × (run.state ⟶ r.target))
        → (end ≡ s) ⊎ (stage s < stage end)
        → (end ≡ run.state) ⊎ (stage run.state < stage end)
    advance (inl same) (inl stays) = inl (stays ∙ same)
    advance (inl same) (inr up) = inr (omega (arith, ap stage same))
    advance (inr (to, edge)) (inl stays) =
        inr (omega (arith, stage-⟶ edge, ap stage to, ap stage stays))
    advance (inr (to, edge)) (inr up) = inr (omega (arith, stage-⟶ edge, ap stage to))

-- The states that a run still has to enter before an answer in the given state.
abbrev pub route : ResearchState → ResearchState → List ResearchState
route goal ResearchState.created =
    ResearchState.planning ∷ ResearchState.researching ∷ ResearchState.verifying
    ∷ ResearchState.ready_for_draft ∷ ResearchState.validating ∷ goal ∷ []
route goal ResearchState.planning =
    ResearchState.researching ∷ ResearchState.verifying ∷ ResearchState.ready_for_draft
    ∷ ResearchState.validating ∷ goal ∷ []
route goal ResearchState.researching =
    ResearchState.verifying ∷ ResearchState.ready_for_draft ∷ ResearchState.validating ∷ goal ∷ []
route goal ResearchState.verifying =
    ResearchState.ready_for_draft ∷ ResearchState.validating ∷ goal ∷ []
route goal ResearchState.ready_for_draft = ResearchState.validating ∷ goal ∷ []
route goal ResearchState.validating = goal ∷ []
route goal _ = []

abbrev IsAnswered : ResearchState → Type 0
IsAnswered s = (s ≡ ResearchState.validated) ⊎ (s ≡ ResearchState.qualified)

route-⟶ :
    {s t : ResearchState} (goal : ResearchState)
    → IsAnswered goal
    → s ⟶ t
    → (goal ≡ t) ⊎ (stage t < stage goal)
    → route goal s ≡ t ∷ route goal t
route-⟶ goal a plan h = ground arith
route-⟶ goal a _ h = ground arith

route_end : (s goal : ResearchState) → IsAnswered goal → goal ≡ s → route goal s ≡ []
route_end s goal a e = ground arith

-- A run that ends with a validated or a qualified answer was asked, in this order, for every state
-- of the workflow that it had not yet passed.
pub answered_route :
    (goal : ResearchState) (run : ResearchRun) (requests : List Request)
    → IsAnswered goal
    → (apply_requests run requests).state ≡ goal
    → Sublistᴰ (route goal run.state) (map (λ r. r.target) requests)
unfolding apply_requests
answered_route goal run [] a e =
    subst (λ l. Sublistᴰ l []) (sym (route_end run.state goal a (sym e))) Sublistᴰ.slnil
answered_route goal run (r ∷ rest) a e =
    extend (step_cases run r.target r.at)
      (apply_requests-stage (run_after run (transition_run run r.target r.at)) rest)
      (answered_route goal (run_after run (transition_run run r.target r.at)) rest a e)
  where
    s : ResearchState
    s = (run_after run (transition_run run r.target r.at)).state

    end : ResearchState
    end = (apply_requests (run_after run (transition_run run r.target r.at)) rest).state

    ends : end ≡ goal
    ends = e

    targets : List ResearchState
    targets = map (λ r. r.target) rest

    extend :
        (s ≡ run.state) ⊎ ((s ≡ r.target) × (run.state ⟶ r.target))
        → (end ≡ s) ⊎ (stage s < stage end)
        → Sublistᴰ (route goal s) targets
        → Sublistᴰ (route goal run.state) (r.target ∷ targets)
    extend (inl same) p ih = Sublistᴰ.cons (subst (λ k. Sublistᴰ (route goal k) targets) same ih)
    extend (inr (to, edge)) p ih =
        subst (λ l. Sublistᴰ l (r.target ∷ targets)) (sym (route-⟶ goal a edge (goal_ahead p)))
          (Sublistᴰ.cons-cons refl (subst (λ k. Sublistᴰ (route goal k) targets) to ih))
      where
        goal_ahead :
            (end ≡ s) ⊎ (stage s < stage end) → (goal ≡ r.target) ⊎ (stage r.target < stage goal)
        goal_ahead (inl stays) = inl (sym ends ∙ stays ∙ to)
        goal_ahead (inr up) = inr (omega (arith, ap stage to, ap stage ends))
