-- ===== src/Halves/Subgoals.antt =====
-- When the loop half completes, and what it does not see.
use module_agents_part.Prelude.{
  ℕ, ◌≡◌, ap, String, true, false, Option, List, [], ◌∷◌, ◌++◌, ◌==◌, is_some, Bool-cases, inl, inr,
}
use module_agents_part.Executor.Loop.{Subgoal, ExecutorResult, Session}
use module_agents_part.Executor.Outcome.{IsOutcome}
use module_agents_part.Halves.Structured.{complete}
use module_agents_part.Halves.Loop.{
  Attempt, done, raises, Services, LoopResult, all_done, run_subgoals,
}

module _ {S : Type 0} (services : Services S) where
  -- The subgoals ran in order from the state s, each for the loop half, with success and no handoff;
  -- the results are rs and the state is t.
  abbrev pub Ran : S → List Subgoal → List ExecutorResult → S → Type 0
  Ran s [] [] t = s ≡ t
  Ran s (sg ∷ sgs) (r ∷ rs) t =
      (s' : S) × (services.execute sg s ≡ done r s')
      × ((sg.assigned_half == "loop") ≡ true)
      × (r.success ≡ true)
      × (r.handoff_requested ≡ false)
      × Ran s' sgs rs t
  Ran s _ _ t = ⊥

  abbrev Completes : List Subgoal → List ExecutorResult → S → Attempt LoopResult S → Type 0
  Completes sgs results s (raises e t) = Unit
  Completes sgs results s (done h t) =
      h.next_action ≡ complete
      → (rs : List ExecutorResult) × Ran s sgs rs t × (h ≡ all_done services (results ++ rs))

  -- If a subgoal's run pauses for approval, as a run of the executor's loop may, the loop half goes on
  -- with the next subgoal at once, or completes after the last.
  pub pause_not_seen :
      {W : Type 0} (before after : Session W) (max_turns : ℕ) (sg : Subgoal) (sgs : List Subgoal)
      (results : List ExecutorResult) (s s' : S) (r : ExecutorResult)
      → (sg.assigned_half == "loop") ≡ true
      → services.execute sg s ≡ done r s'
      → IsOutcome max_turns before r after
      → is_some r.awaiting_approval ≡ true
      → run_subgoals services (sg ∷ sgs) results s
        ≡ run_subgoals services sgs (results ++ r ∷ []) s'
  unfolding run_subgoals
  pause_not_seen before after max_turns sg sgs results s s' r mine ran outcome waits =
      let stays = outcome.not_both waits in
      elim (Bool-cases r.success) [
        | inl good ↦ rw (mine, ran, stays, good)
        | inr bad ↦
            let (_, _, quiet) = outcome.gave_up bad in
            absurd (cc (ap (λ (o : Option String). is_some o) quiet))
      ]
