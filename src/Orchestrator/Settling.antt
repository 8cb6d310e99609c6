-- ===== src/Orchestrator/Settling.antt =====
-- Where process_session leaves a session.
use module_agents_part.Prelude.{
  ◌≡◌, ◌⊎◌, inl, inr, refl, sym, subst, String, Bool, true, false, List, [], ◌∷◌, ◌++◌, ◌==◌,
  if_ind,
}
use module_agents_part.Prelude.Json.{Json, str, obj, end, field}
use module_agents_part.Executor.Loop.{Subgoal, ExecutorResult}
use module_agents_part.Halves.Structured.{
  NextAction, complete, handoff_to_structured, handoff_to_loop, escalate,
}
use module_agents_part.Halves.Loop.{
  Attempt, done, raises, LoopResult, run, run_subgoals, after_execute, after_set, after_plan,
}
use module_agents_part.Session.State.{Iso, Time, SessionState, is_transition_allowed, to_dict}
use module_agents_part.Session.Handle.{
  Change, Handle, Outcome, set_attribute, set_attributes, set_all, update_state, mark_complete,
  mark_escalated,
}
use module_agents_part.Orchestrator.Process.{
  Live, Around, Engine, attempted, state_change, updated, services, after_loop_half, after_run,
  dispatch_loop_half,
}

-- an allowed call: the object and the document with the asked state
pub update_allowed :
    (iso : Iso) (now : Time) (name : String) (after : List Change) (h : Handle) (s : SessionState)
    → is_transition_allowed h.state.state name ≡ true
    → set_attributes after (record h.state { state = name }) ≡ (s, true)
    → let s' = record s { updated_at = now } in
      update_state iso now (state_change name after) h
      ≡ (record { state = s'; disk = to_dict iso s' }, Outcome.done)
unfolding update_state
update_allowed iso now name after h s allowed set =
    rw (allowed, update_state) (unfold set_all set_attributes in rw (set, update_state) refl)

abbrev pub state_of : {W : Type 0} → Live W → String
state_of l = l.handle.state.state

-- the state, written to the document
abbrev pub Persisted : Iso → {W : Type 0} → String → Live W → Type 0
Persisted iso name l = (state_of l ≡ name) × (l.handle.disk ≡ to_dict iso l.handle.state)

-- the states in which the loop half starts
abbrev pub IsWorking : {W : Type 0} → Live W → Type 0
IsWorking l = (state_of l ≡ "planning") ⊎ (state_of l ≡ "executing")

abbrev pub IsExecuting : {W A : Type 0} → Attempt A (Live W) → Type 0
IsExecuting (done a l) = state_of l ≡ "executing"
IsExecuting (raises e l) = state_of l ≡ "executing"

abbrev pub Kept : Iso → {W : Type 0} → String → Attempt Bool (Live W) → Type 0
Kept iso name (done b l) = (b ≡ true) × Persisted iso name l
Kept iso name (raises e l) = ⊥

-- How the loop half can leave a session: in one of three states, written to the document; at work, where
-- a subgoal was for another half; or at work with an exception.
abbrev pub Left : Iso → {W : Type 0} → Attempt Bool (Live W) → Type 0
Left iso (done b l) =
    (b ≡ true)
    × ((state_of l ≡ "executing")
        ⊎ Persisted iso "completed" l
        ⊎ Persisted iso "handed_off_to_structured" l
        ⊎ Persisted iso "escalated" l)
Left iso (raises e l) = IsWorking l

-- after the except blocks
abbrev pub Advances : Iso → {W : Type 0} → Bool × Live W → Type 0
Advances iso (true, l) =
    (state_of l ≡ "executing")
    ⊎ Persisted iso "completed" l
    ⊎ Persisted iso "handed_off_to_structured" l
    ⊎ Persisted iso "escalated" l
Advances iso (false, l) = Persisted iso "failed" l

pub from_working :
    {W : Type 0} (name : String) (l : Live W)
    → is_transition_allowed "planning" name ≡ true
    → is_transition_allowed "executing" name ≡ true
    → IsWorking l
    → is_transition_allowed (state_of l) name ≡ true
from_working name l p e (inl h) = subst (λ x. is_transition_allowed x name ≡ true) (sym h) p
from_working name l p e (inr h) = subst (λ x. is_transition_allowed x name ≡ true) (sym h) e

module _ (iso : Iso) (now : Time) {W : Type 0} (engine : Engine W) where
  update-Kept :
      (name : String) (after : List Change) (l : Live W) (s : SessionState)
      → is_transition_allowed (state_of l) name ≡ true
      → set_attributes after (record l.handle.state { state = name }) ≡ (s, true)
      → s.state ≡ name
      → Kept iso name (updated true l (update_state iso now (state_change name after) l.handle))
  update-Kept name after l s allowed set same =
      subst (λ r. Kept iso name (updated true l r))
        (sym (update_allowed iso now name after l.handle s allowed set)) (refl, (same, refl))

  -- an ending of the three kinds, with a value as its result
  pub ends-Kept :
      (name : String) (v : Json) (l : Live W)
      → is_transition_allowed (state_of l) name ≡ true
      → Kept iso name (
          updated true l (update_state iso now (state_change name (Change.result v ∷ [])) l.handle))
  unfolding set_attributes set_attribute
  ends-Kept name v l allowed =
      update-Kept name (Change.result v ∷ []) l (record l.handle.state { state = name; result = v })
        allowed refl refl

  weaken :
      (a : Attempt Bool (Live W)) (name : String)
      → ((l : Live W)
          → Persisted iso name l
          → (state_of l ≡ "executing")
            ⊎ Persisted iso "completed" l
            ⊎ Persisted iso "handed_off_to_structured" l
            ⊎ Persisted iso "escalated" l)
      → Kept iso name a
      → Left iso a
  weaken (done b l) name w (t, p) = (t, w l p)
  weaken (raises e l) name w k = absurd k

  after_loop_half-Left :
      (r : LoopResult) (n : NextAction) (l : Live W)
      → state_of l ≡ "executing"
      → Left iso (after_loop_half iso now engine r n l)
  unfolding after_loop_half mark_complete mark_escalated set_attributes is_transition_allowed
  after_loop_half-Left r complete l e =
      weaken _ "completed" (λ l p. inr (inl p))
        (ends-Kept "completed" (engine.output_dict r.output) l
          (subst (λ x. is_transition_allowed x "completed" ≡ true) (sym e) refl))
  after_loop_half-Left r handoff_to_structured l e =
      weaken _ "handed_off_to_structured" (λ l p. inr (inr (inl p)))
        (update-Kept "handed_off_to_structured" [] l
          (record l.handle.state { state = "handed_off_to_structured" })
          (subst (λ x. is_transition_allowed x "handed_off_to_structured" ≡ true) (sym e) refl) refl
          refl)
  after_loop_half-Left r escalate l e =
      weaken _ "escalated" (λ l p. inr (inr (inr p)))
        (ends-Kept "escalated" (obj (field "reason" (str r.summary) end)) l
          (subst (λ x. is_transition_allowed x "escalated" ≡ true) (sym e) refl))
  after_loop_half-Left r handoff_to_loop l e = (refl, inl e)

  attempted-IsExecuting :
      {A : Type 0} (l : Live W) (a : Attempt A (Around W))
      → state_of l ≡ "executing"
      → IsExecuting (attempted l a)
  attempted-IsExecuting l (done a r) e = e
  attempted-IsExecuting l (raises x r) e = e

  -- after the planner, and after the loop half
  abbrev IsPlanned : Attempt (List Subgoal) (Live W) → Type 0
  IsPlanned (done sgs l) = IsWorking l
  IsPlanned (raises e l) = IsWorking l

  abbrev IsRun : Attempt LoopResult (Live W) → Type 0
  IsRun (done r l) = state_of l ≡ "executing"
  IsRun (raises e l) = IsWorking l

  attempted-IsPlanned :
      (l : Live W) (a : Attempt (List Subgoal) (Around W)) → IsWorking l → IsPlanned (attempted l a)
  attempted-IsPlanned l (done a r) w = w
  attempted-IsPlanned l (raises x r) w = w

  executing-IsRun : (a : Attempt LoopResult (Live W)) → IsExecuting a → IsRun a
  executing-IsRun (done r l) e = e
  executing-IsRun (raises x l) e = inr e

  after_execute-IsExecuting :
      (sg : Subgoal) (results : List ExecutorResult)
      (rest : List ExecutorResult → Live W → Attempt LoopResult (Live W))
      (a : Attempt ExecutorResult (Live W))
      → ((rs : List ExecutorResult) (l : Live W)
          → state_of l ≡ "executing"
          → IsExecuting (rest rs l))
      → IsExecuting a
      → IsExecuting (after_execute (services iso now engine) sg results rest a)
  after_execute-IsExecuting sg results rest (raises x l) goes e = e
  after_execute-IsExecuting sg results rest (done r l) goes e =
      if_ind IsExecuting r.handoff_requested (λ _. e)
        (λ _. if_ind IsExecuting r.success (λ _. goes (results ++ r ∷ []) l e) (λ _. e))

  run_subgoals-IsExecuting :
      (sgs : List Subgoal) (results : List ExecutorResult) (l : Live W)
      → state_of l ≡ "executing"
      → IsExecuting (run_subgoals (services iso now engine) sgs results l)
  unfolding run_subgoals
  run_subgoals-IsExecuting [] results l e = e
  run_subgoals-IsExecuting (sg ∷ sgs) results l e =
      if_ind IsExecuting (sg.assigned_half == "loop")
        (λ _.
          after_execute-IsExecuting sg results (run_subgoals (services iso now engine) sgs)
            (attempted l (engine.execute sg l)) (run_subgoals-IsExecuting sgs)
            (attempted-IsExecuting l (engine.execute sg l) e))
        (λ _. e)

  -- moving a working session to executing succeeds
  set_executing_done :
      (P : Attempt Unit (Live W) → Type 0) (sgs : List Subgoal) (l : Live W)
      → IsWorking l
      → ((l' : Live W) → state_of l' ≡ "executing" → P (done tt l'))
      → P ((services iso now engine).set_executing sgs l)
  unfolding set_attributes set_attribute is_transition_allowed
  set_executing_done P sgs l w goes =
      let v = engine.planner_dict sgs in
      subst (λ r. P (updated tt l r))
        (sym (
          update_allowed iso now "executing" (Change.planner v ∷ []) l.handle
            (record l.handle.state { state = "executing"; planner = v })
            (from_working "executing" l refl refl w) refl))
        (goes _ refl)

  after_plan-IsRun :
      (a : Attempt (List Subgoal) (Live W))
      → IsPlanned a
      → IsRun (after_plan (services iso now engine) a)
  unfolding after_plan
  after_plan-IsRun (raises x l) w = w
  after_plan-IsRun (done sgs l) w =
      set_executing_done (λ a. IsRun (after_set (services iso now engine) sgs a)) sgs l w
        (λ l' e. executing-IsRun _ (run_subgoals-IsExecuting sgs [] l' e))

  after_run-Left :
      (a : Attempt LoopResult (Live W)) → IsRun a → Left iso (after_run iso now engine a)
  after_run-Left (done r l) e = after_loop_half-Left r r.next_action l e
  after_run-Left (raises x l) w = w

  pub dispatch_loop_half-Left :
      (l : Live W) → IsWorking l → Left iso (dispatch_loop_half iso now engine l)
  unfolding dispatch_loop_half run
  dispatch_loop_half-Left l w =
      after_run-Left _ (after_plan-IsRun _ (attempted-IsPlanned l (engine.plan l) w))
