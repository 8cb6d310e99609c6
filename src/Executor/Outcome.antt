-- ===== src/Executor/Outcome.antt =====
-- What a run of _react_loop ends in.
use module_agents_part.Prelude.{
  ℕ, zero, suc, ◌+◌, ◌≤◌, ◌≡◌, ◌⊎◌, inl, inr, refl, ap, String, true, false, Option, none, some,
  List, [], ◌∷◌, arith, is_some, option_ind,
}
use module_agents_part.Prelude.Dict.{put}
use module_agents_part.Executor.Dispatch.{ToolCall, dispatch}
use module_agents_part.Executor.Dispatching.{dispatch_total}
use module_agents_part.Executor.Loop.{
  Subgoal, ChatMessage, Reply, response, chat_raised, ExecutorResult, Session, Progress, LoopEnd,
  returned, raised, write_raised, Writing, both_written, awaiting_fails, log_fails, build_request,
  write_request, assertion_failed, Turn, go_on, ended, Answered, zip_calls, first_approval,
  handoff_payload_of, ApprovalRequest,
}
use module_agents_part.Executor.React.{
  Executor, pause_end, paused, record_calls, after_calls, call_turn, on_reply, one_turn, turns,
  react_loop,
}

-- The approval that a result waits for is the one request that was written, under the id that it names.
abbrev pub Asked : {W : Type 0} → Session W → ExecutorResult → Session W → Type 0
Asked before r after =
    (q : ApprovalRequest) × (r.awaiting_approval ≡ some q.request_id)
    × (r.approval_request ≡ some q)
    × (after.awaiting ≡ put q.request_id q before.awaiting)

-- What a result says is so.
pub record IsOutcome {W : Type 0} (max_turns : ℕ) (before : Session W) (r : ExecutorResult)
    (after : Session W) : Type 0 where
  pub bounded : r.turns_used ≤ max_turns
  pub gave_up :
      r.success ≡ false
      → (r.turns_used ≡ max_turns) × (r.handoff_requested ≡ false) × (r.awaiting_approval ≡ none)
  pub not_both : is_some r.awaiting_approval ≡ true → r.handoff_requested ≡ false
  pub payload : is_some r.handoff_payload ≡ r.handoff_requested
  pub quiet : r.awaiting_approval ≡ none → after.awaiting ≡ before.awaiting
  pub asked : is_some r.awaiting_approval ≡ true → Asked before r after

module _ {W : Type 0} (executor : Executor W) where
  -- an outcome, or an exception of the client or of writing a request; the assertion never fails
  abbrev pub EndsWell : ℕ → Session W → LoopEnd → Session W → Type 0
  EndsWell max_turns before (returned r) after = IsOutcome max_turns before r after
  EndsWell max_turns before (raised e) after =
      (messages : List ChatMessage) × (executor.chat messages ≡ chat_raised e)
      × (after.awaiting ≡ before.awaiting)
  EndsWell max_turns before (write_raised x) after =
      (q : ApprovalRequest) × (((executor.writing q ≡ awaiting_fails x)
          × (after.awaiting ≡ before.awaiting))
        ⊎ ((executor.writing q ≡ log_fails x)
            × (after.awaiting ≡ put q.request_id q before.awaiting)))
  EndsWell max_turns before assertion_failed after = ⊥

  -- a turn that began with the count `turn` already raised
  abbrev TurnsWell : ℕ → Session W → ℕ → Turn W → Type 0
  TurnsWell max_turns before turn (go_on s) =
      (s.turn ≡ turn) × (s.session.awaiting ≡ before.awaiting)
  TurnsWell max_turns before turn (ended e session) = EndsWell max_turns before e session

  module _ (subgoal : Subgoal) (ticket_id : String) (max_turns : ℕ) (before : Session W) where
    -- the end of a turn that pauses, whatever the writes end in
    paused-EndsWell :
        (request : ApprovalRequest) (s : Progress W) (w : Writing)
        → executor.writing request ≡ w
        → s.turn ≤ max_turns
        → s.session.awaiting ≡ before.awaiting
        → let (session, failed) = write_request w request s.session in
          EndsWell max_turns before
            (pause_end executor failed (paused executor subgoal request s))
            session
    paused-EndsWell request s both_written e bound same = record {
      bounded = bound;
      gave_up = λ e. cc;
      not_both = λ _. refl;
      payload = refl;
      quiet = λ e. cc;
      asked = λ _. (_, refl, refl, ap (put _ _) same);
    }
    paused-EndsWell request s (awaiting_fails x) e bound same = (request, inl (e, same))
    paused-EndsWell request s (log_fails x) e bound same = (request, inr (e, ap (put _ _) same))

    after_calls-TurnsWell :
        (pairs : List Answered) (s : Progress W)
        → s.turn ≤ max_turns
        → s.session.awaiting ≡ before.awaiting
        → TurnsWell max_turns before s.turn (after_calls executor subgoal ticket_id pairs s)
    unfolding after_calls
    after_calls-TurnsWell pairs s bound same =
        option_ind (TurnsWell max_turns before s.turn) (first_approval pairs)
          (λ _.
            option_ind (TurnsWell max_turns before s.turn) (handoff_payload_of pairs)
              (λ _. (refl, same))
              (λ payload _. record {
                bounded = bound;
                gave_up = λ e. cc;
                not_both = λ e. cc;
                payload = refl;
                quiet = λ _. same;
                asked = λ e. cc;
              }))
          (λ asked _.
            let request = build_request subgoal.id ticket_id asked in
            paused-EndsWell request s (executor.writing request) refl bound same)

    call_turn-TurnsWell :
        (content : Option String) (calls : List ToolCall) (s : Progress W)
        → s.turn ≤ max_turns
        → s.session.awaiting ≡ before.awaiting
        → TurnsWell max_turns before s.turn (call_turn executor subgoal ticket_id content calls s)
    unfolding call_turn
    call_turn-TurnsWell content calls s bound same =
        let e =
          dispatch executor.preview executor.tools executor.schedule executor.policy calls
            s.session.world in
        let (os, _, some_os) =
          dispatch_total executor.preview executor.tools executor.schedule executor.policy calls
            s.session.world in
        option_ind (TurnsWell max_turns before s.turn) e.outputs (λ nothing. cc)
          (λ outputs _.
            let pairs = zip_calls calls outputs in
            unfold record_calls in
            after_calls-TurnsWell pairs (record_calls executor content calls pairs e s) bound same)

    on_reply-TurnsWell :
        (s : Progress W) (messages : List ChatMessage) (reply : Reply)
        → executor.chat messages ≡ reply
        → s.turn ≤ max_turns
        → s.session.awaiting ≡ before.awaiting
        → TurnsWell max_turns before s.turn (on_reply executor subgoal ticket_id s reply)
    unfolding on_reply
    on_reply-TurnsWell s messages (chat_raised f) e bound same = (messages, e, same)
    on_reply-TurnsWell s messages (response content []) e bound same = record {
      bounded = bound;
      gave_up = λ e. cc;
      not_both = λ _. refl;
      payload = refl;
      quiet = λ _. same;
      asked = λ e. cc;
    }
    on_reply-TurnsWell s messages (response content (c ∷ cs)) e bound same =
        call_turn-TurnsWell content (c ∷ cs) s bound same

    -- the rest of the loop after a turn
    abbrev then_loop : ℕ → String → Turn W → LoopEnd × Session W
    then_loop n exhausted (go_on s) = turns executor n subgoal ticket_id exhausted s
    then_loop n exhausted (ended e session) = (e, session)

    then_loop-EndsWell :
        (n : ℕ) (exhausted : String) (turn : ℕ)
        → ((s : Progress W)
            → s.turn ≡ suc turn
            → s.session.awaiting ≡ before.awaiting
            → EndsWell max_turns before
                (turns executor n subgoal ticket_id exhausted s).0
                (turns executor n subgoal ticket_id exhausted s).1)
        → (t : Turn W) → TurnsWell max_turns before (suc turn) t
        → EndsWell max_turns before (then_loop n exhausted t).0 (then_loop n exhausted t).1
    then_loop-EndsWell n exhausted turn rest (go_on s) h = rest s h.0 h.1
    then_loop-EndsWell n exhausted turn rest (ended e session) h = h

    pub turns-EndsWell :
        (n : ℕ) (exhausted : String) (s : Progress W)
        → s.turn + n ≡ max_turns
        → s.session.awaiting ≡ before.awaiting
        → let r = turns executor n subgoal ticket_id exhausted s in
          EndsWell max_turns before r.0 r.1
    unfolding turns one_turn
    turns-EndsWell zero exhausted s count same = record {
      bounded = omega (arith, count);
      gave_up = λ _. (omega (arith, count), refl, refl);
      not_both = λ _. refl;
      payload = refl;
      quiet = λ _. same;
      asked = λ e. cc;
    }
    turns-EndsWell (suc n) exhausted s count same =
        then_loop-EndsWell n exhausted s.turn
          (λ s' c e. turns-EndsWell n exhausted s' (omega (arith, c, count)) e)
          (one_turn executor subgoal ticket_id s)
          (on_reply-TurnsWell (record s { turn = suc s.turn }) s.messages (executor.chat s.messages)
            refl (omega (arith, count)) same)

  -- With tool calls whose arguments are JSON objects: a run of the loop ends in an exception only if the
  -- client raised it, and then no request was written, or if a write of an approval request raised it,
  -- and then that request is in ipc/awaiting_approval only if it was its copy in logs/ that failed; the
  -- assertion of the dispatch never fails. Otherwise its result uses at most max_turns turns, and is a
  -- failure only with all of them used. No result asks for a handoff and for approval. If it awaits
  -- approval, the one request that was written is the request in the result, under the id in the result;
  -- otherwise no request was written.
  pub react_loop-EndsWell :
      (subgoal : Subgoal) (session : Session W) (max_turns : ℕ)
      → let r = react_loop executor subgoal session max_turns in EndsWell max_turns session r.0 r.1
  unfolding react_loop
  react_loop-EndsWell subgoal session max_turns =
      turns-EndsWell subgoal _ max_turns session max_turns _ _ (omega arith) refl
