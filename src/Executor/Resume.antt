-- ===== src/Executor/Resume.antt =====
-- executor/__init__.py: resume_from_approval. It reads the boxes of ipc/approval.py, and its loop is that
-- of _react_loop with another opening, ticket id and last message.
use Prim.Native.String.{◌++◌ as concat}
use module_agents_part.Prelude.{
  ℕ, ◌≡◌, refl, sym, subst, true, false, String, List, [], ◌∷◌, ◌==◌, if◌then◌else◌,
}
use module_agents_part.Prelude.Dict.{get}
use module_agents_part.Prelude.Json.{Json, null, truthy}
use module_agents_part.Executor.Loop.{Subgoal, ChatMessage, Session, LoopEnd, plain_message}
use module_agents_part.Executor.React.{Executor, turns}
use module_agents_part.Executor.Outcome.{EndsWell}
use module_agents_part.Ipc.Approval.{
  ApprovalResponse, Boxes, Request, request, no_request, request_raises, get_pending_approval, Look,
  decided, goes_on, look_raises, find_decision, look_at, Recorded, recorded,
}

-- str and json.dumps of a value
pub record Shown : Type 0 where
  pub show : Json → String
  pub dumps : Json → String

-- decision.reason or '(none)'
abbrev pub reason_text : Shown → Json → String
reason_text shown v = if truthy v then shown.show v else "(none)"

-- the line about an output of the approver's own
abbrev pub override_text : Shown → Json → String
override_text shown null = ""
override_text shown v =
    concat "The approver overrode the tool's output with: " (concat (shown.dumps v) "\n")

abbrev pub verdict_text : Shown → String → ApprovalResponse → String
verdict_text shown verdict r = concat "APPROVAL " (
    concat verdict (
      concat " by " (
        concat (shown.show r.approver) (
          concat " at " (
            concat (shown.show r.decided_at)
              (concat ". Reason: " (concat (reason_text shown r.reason) ".\n")))))))

-- outcome_text
unfoldable pub outcome_text : Shown → ApprovalResponse → String
unfolding truthy
outcome_text shown r =
    if r.decision == "granted"
    then concat (verdict_text shown "GRANTED" r) (
        concat (override_text shown r.override_output)
          "You may now proceed with the approved action or its consequences. If the approved action satisfies the subgoal, call complete_task. Otherwise continue as needed.")
    else concat (verdict_text shown "DENIED" r)
        "You must NOT proceed with the denied action. Propose an alternative approach, request clarification, or call complete_task with a failure result if no viable alternative exists."

-- How resume_from_approval ends: with the loop, one of the two SovereignIOErrors, or an exception of
-- reading the boxes.
pub data ResumeEnd : Type 0 where
  ran : LoopEnd → ResumeEnd
  still_pending : ResumeEnd
  no_record : ResumeEnd
  boxes_raise : ResumeEnd

abbrev pub without_decision : Request → ResumeEnd
without_decision (request r) = still_pending
without_decision no_request = no_record
without_decision request_raises = boxes_raise

module _ {W : Type 0} (executor : Executor W) (shown : Shown) where
  abbrev pub resume_opening : Subgoal → String → ApprovalResponse → List ChatMessage
  resume_opening subgoal request_id r =
      plain_message "system" executor.system_prompt
      ∷ plain_message "user" (
          concat "SUBGOAL " (
            concat subgoal.id (
              concat ": " (
                concat subgoal.description (
                  concat "\nSUCCESS CRITERION: " (
                    concat subgoal.success_criterion (
                      concat "\n\nYou previously requested approval for a tool call (request_id=" (
                        concat request_id (
                          concat "). That request has now been decided:\n\n"
                            (outcome_text shown r))))))))))
      ∷ []

  -- the rest, with a decision
  unfoldable pub resume_decided :
      Subgoal → Session W → String → ℕ → ApprovalResponse → LoopEnd × Session W
  unfolding turns outcome_text
  resume_decided subgoal session request_id max_turns r =
      turns executor max_turns subgoal (concat "exec_resume_" subgoal.id)
        (concat "(max_turns="
          (concat (executor.str_nat max_turns) " exhausted in resumed subgoal)"))
        (record {
          messages = resume_opening subgoal request_id r;
          tool_calls_made = [];
          turn = 0;
          session = session;
        })

  abbrev pub after_look : Boxes → Subgoal → Session W → String → ℕ → Look → ResumeEnd × Session W
  after_look boxes subgoal session request_id max_turns (decided r) =
      let e = resume_decided subgoal session request_id max_turns r in (ran e.0, e.1)
  after_look boxes subgoal session request_id max_turns goes_on =
      (without_decision (get_pending_approval boxes request_id), session)
  after_look boxes subgoal session request_id max_turns look_raises = (boxes_raise, session)

  unfoldable pub resume_from_approval :
      Boxes → Subgoal → Session W → String → ℕ → ResumeEnd × Session W
  unfolding find_decision get_pending_approval resume_decided
  resume_from_approval boxes subgoal session request_id max_turns =
      after_look boxes subgoal session request_id max_turns (find_decision boxes request_id)

  -- the loop ran and ended well, or the session is as before
  abbrev pub ResumesWell : ℕ → Session W → ResumeEnd × Session W → Type 0
  ResumesWell max_turns before (ran e, after) = EndsWell executor max_turns before e after
  ResumesWell max_turns before (_, after) = after ≡ before

  -- The verdict and the advice that the text for the model has, by the decision.
  abbrev pub IsTold : ApprovalResponse → Type 0
  IsTold r =
      (r.decision ≡ "granted"
        → outcome_text shown r
          ≡ concat (verdict_text shown "GRANTED" r) (
              concat (override_text shown r.override_output)
                "You may now proceed with the approved action or its consequences. If the approved action satisfies the subgoal, call complete_task. Otherwise continue as needed."))
      × (r.decision ≡ "denied"
          → outcome_text shown r
            ≡ concat (verdict_text shown "DENIED" r)
                "You must NOT proceed with the denied action. Propose an alternative approach, request clarification, or call complete_task with a failure result if no viable alternative exists.")

  told : (r : ApprovalResponse) → IsTold r
  unfolding outcome_text
  told r = (
    (λ e. rw (subst (λ x. (x == "granted") ≡ true) (sym e) refl) refl),
    (λ e. rw (subst (λ x. (x == "granted") ≡ false) (sym e) refl) refl),
  )

  -- what resuming after a recorded decision does
  abbrev pub ResumesWith : Boxes → ApprovalResponse → Subgoal → Session W → ℕ → Recorded → Type 0
  ResumesWith b r subgoal session max_turns (recorded b') =
      let resumed = resume_from_approval b' subgoal session r.request_id max_turns in
      let told = resume_decided subgoal session r.request_id max_turns r in
      (r.decision ≡ "granted" → resumed ≡ (ran told.0, told.1))
      × (r.decision ≡ "denied"
          → look_at (get r.request_id b.granted) ≡ goes_on
          → resumed ≡ (ran told.0, told.1))
  ResumesWith b r subgoal session max_turns _ = Unit
