-- ===== src/Executor/Ticketed.antt =====
-- executor/__init__.py: _run_executor_via_ticket, the ticket around a run of the executor. The run is any
-- attempt; raw_output.json is the only file of the manifest.
use Prim.Native.String.{◌++◌ as concat}
use Prim.Native.String.append.{cons as append_cons}
use Prim.Native.Char.{Char, code}
use module_agents_part.Prelude.{
  Option, ℕ, ◌-◌, ◌≡◌, refl, sym, String, Bool, true, false, none, some, List, [], ◌∷◌, map, length,
  if◌then◌else◌, subst, ◌/◌,
}
use module_agents_part.Prelude.Json.{Json}
use module_agents_part.Errors.{Exception, structured, wrap_unexpected}
use module_agents_part.Executor.Tool.{Failure}
use module_agents_part.Executor.Loop.{Subgoal, ExecutorResult, CallRecord}
use module_agents_part.Halves.Loop.{Attempt, done, raises}
use module_agents_part.Tickets.State.{success, error, value, is_ticket_transition_allowed}
use module_agents_part.Tickets.Manifest.{Manifest, Files, Time, verify}
use module_agents_part.Tickets.Ticket.{
  Ticket, Outcome, create, start, succeed, fail, is_blank, is_space, record_success, write_state,
}

-- ", ".join(names)
abbrev pub join_names : List String → String
join_names [] = ""
join_names (n ∷ []) = n
join_names (n ∷ m ∷ ns) = concat n (concat ", " (join_names (m ∷ ns)))

abbrev pub names_text : List String → String
names_text [] = "."
names_text (n ∷ ns) = concat ": " (concat (join_names (n ∷ ns)) ".")

abbrev pub handoff_text : Bool → String
handoff_text true = " Handoff to structured half requested."
handoff_text false = ""

-- the summary of a run
abbrev pub run_summary : (ℕ → String) → Subgoal → ExecutorResult → String
run_summary str_nat subgoal r = concat "Executor " (
    concat (if r.success then "completed" else "did not complete") (
      concat " subgoal " (
        concat subgoal.id (
          concat " in " (
            concat (str_nat r.turns_used) (
              concat " turn(s). Made " (
                concat (str_nat (length r.tool_calls_made)) (
                  concat " tool call(s)" (
                    concat (names_text (map (λ (c : CallRecord). c.name) r.tool_calls_made))
                      (handoff_text r.handoff_requested))))))))))

-- What the run and its environment give: the text of raw_output.json with its path and size, the metrics,
-- the times, str of a number, and SHA-256; the exception of writing, hashing or sizing that file, if one is
-- raised; and the files at the time that the manifest is verified, which another process may have changed.
pub record Surroundings : Type 0 where
  pub sha256 : String → String
  pub str_nat : ℕ → String
  pub raw_path : String
  pub raw_output : ExecutorResult → String
  pub size_of : String → ℕ
  pub metrics : ExecutorResult → Json
  pub raw_raises : ExecutorResult → Option Exception
  pub files : ExecutorResult → Files
  pub started : Time
  pub completed : Time

-- Manifest(...)
abbrev pub run_manifest : Surroundings → Ticket → ExecutorResult → Manifest
run_manifest e t r = record {
  ticket_id = t.ticket_id;
  operation = t.operation;
  started_at = e.started;
  completed_at = e.completed;
  duration_ms = (e.completed - e.started) / 1000;
  outputs =
      record {
        path = e.raw_path;
        sha256 = e.sha256 (e.raw_output r);
        size_bytes = e.size_of (e.raw_output r);
        content_type = "application/json";
      }
      ∷ [];
  metrics = e.metrics r;
}

-- what `succeed` raises
abbrev pub ticket_error : String → Outcome → Failure
ticket_error ticket_id Outcome.done = record { code = ""; message = "" }
ticket_error ticket_id (Outcome.invalid_transition s p) = record {
  code = "SA_VAL_INVALID_STATE_TRANSITION";
  message =
      concat "invalid ticket transition: '"
        (concat (value s) (concat "' -> '" (concat (value p) "'")));
}
ticket_error ticket_id Outcome.missing_summary = record {
  code = "SA_VAL_MISSING_REQUIRED_FIELD";
  message = "ticket.succeed() requires a non-empty summary";
}
ticket_error ticket_id Outcome.manifest_invalid = record {
  code = "SA_IO_MANIFEST_INVALID";
  message = concat "manifest for ticket " (
      concat ticket_id
        " did not verify: one or more output files are missing or their sha256 does not match.");
}

-- a text that starts with a character that is no space is not blank
starts_filled :
    (c : Char) (s t : String)
    → is_space (code c) ≡ false
    → is_blank (concat (String.◌∷◌ c s) t) ≡ false
unfolding is_blank
starts_filled c s t h =
    subst (λ x. is_blank x ≡ false) (sym (append_cons c s t)) (rw (h, is_blank) refl)

summary_filled :
    (e : Surroundings) (subgoal : Subgoal) (r : ExecutorResult)
    → is_blank (run_summary e.str_nat subgoal r) ≡ false
summary_filled e subgoal r = starts_filled "E" "xecutor " _ refl

-- the ticket of a run, once it has started
abbrev pub running_ticket : Time → String → Subgoal → Ticket
running_ticket now ticket_id subgoal =
    (start now (create ticket_id (concat "executor.run_subgoal/" subgoal.id))).0

module _ (e : Surroundings) {S : Type 0} where
  -- the except blocks
  abbrev pub fail_ticket : Exception → S → Ticket → Ticket × Attempt ExecutorResult S
  fail_ticket x s t =
      let w = wrap_unexpected x in
      ((fail e.completed w.code w.message t).0, raises (structured w) s)

  abbrev pub after_succeed :
      ExecutorResult → S → Ticket × Outcome → Ticket × Attempt ExecutorResult S
  after_succeed r s (t, Outcome.done) = (t, done r s)
  after_succeed r s (t, o) = fail_ticket (structured (ticket_error t.ticket_id o)) s t

  -- after the writing of the raw output
  abbrev pub after_raw :
      Subgoal → ExecutorResult → S → Ticket → Option Exception → Ticket × Attempt ExecutorResult S
  after_raw subgoal r s t (some x) = fail_ticket x s t
  after_raw subgoal r s t none = after_succeed r s (
      succeed e.sha256 (e.files r) e.completed (run_manifest e t r)
        (run_summary e.str_nat subgoal r) t)

  -- The try block, after the run. The writes of the ticket's own files are taken to succeed, and an
  -- exception is an Exception: a CancelledError, which no except block catches, is left out.
  abbrev pub after_run :
      Subgoal → Attempt ExecutorResult S → Ticket → Ticket × Attempt ExecutorResult S
  after_run subgoal (raises x s) t = fail_ticket x s t
  after_run subgoal (done r s) t = after_raw subgoal r s t (e.raw_raises r)

  -- DefaultExecutor.execute with _run_executor_via_ticket
  unfoldable pub run_via_ticket :
      String → Subgoal → Attempt ExecutorResult S → Ticket × Attempt ExecutorResult S
  unfolding create start succeed fail
  run_via_ticket ticket_id subgoal run =
      after_run subgoal run
        (start e.started (create ticket_id (concat "executor.run_subgoal/" subgoal.id))).0

  -- the call raises an exception, or its wrapping, and the ticket is an error that says so
  abbrev pub Failed : Exception → S → Ticket × Attempt ExecutorResult S → Type 0
  Failed x s (t, outcome) =
      (outcome ≡ raises (structured (wrap_unexpected x)) s)
      × (t.state ≡ error)
      × (t.state_file.state ≡ error)
      × (t.state_file.error_code ≡ some (wrap_unexpected x).code)
      × (t.state_file.error_message ≡ some (wrap_unexpected x).message)
      × (t.manifest_file ≡ none)

  -- the call returns the result, and the ticket is a success with a manifest that the files match
  abbrev pub Succeeded : ExecutorResult → S → Manifest → Ticket × Attempt ExecutorResult S → Type 0
  Succeeded r s m (t, outcome) =
      (outcome ≡ done r s)
      × (t.state ≡ success)
      × (t.state_file.state ≡ success)
      × (t.manifest_file ≡ some m)
      × (verify e.sha256 (e.files r) m ≡ true)

  -- what a ticket says of a run
  abbrev pub Tells :
      String → Subgoal → Attempt ExecutorResult S → Ticket × Attempt ExecutorResult S → Type 0
  Tells ticket_id subgoal (raises x s) p = Failed x s p
  Tells ticket_id subgoal (done r s) p =
      let m = run_manifest e (running_ticket e.started ticket_id subgoal) r in
      ((x : Exception) → e.raw_raises r ≡ some x → Failed x s p)
      × (e.raw_raises r ≡ none
          → verify e.sha256 (e.files r) m ≡ false
          → Failed (structured (ticket_error ticket_id Outcome.manifest_invalid)) s p)
      × (e.raw_raises r ≡ none → verify e.sha256 (e.files r) m ≡ true → Succeeded r s m p)

  -- The ticket around a run tells how it ended, on every branch. If the run raises an Exception, or writing
  -- and hashing its raw output does, the call raises the same error, or its wrapping, and the ticket on disk
  -- is an error with that code and message and without a manifest. If the run returns and its output does
  -- not match the manifest at the end, that is the error. Otherwise the call returns the result of the
  -- run, and the ticket on disk is a success with the manifest of the run, which the files match. The writes
  -- of the ticket's own files are taken to succeed, and a cancelled run is not covered.
  pub run_via_ticket-Tells :
      (ticket_id : String) (subgoal : Subgoal) (run : Attempt ExecutorResult S)
      → Tells ticket_id subgoal run (run_via_ticket ticket_id subgoal run)
  unfolding run_via_ticket is_ticket_transition_allowed record_success write_state
  run_via_ticket-Tells ticket_id subgoal (raises x s) = (refl, refl, refl, refl, refl, refl)
  run_via_ticket-Tells ticket_id subgoal (done r s) = (
    (λ x h.
        let t = running_ticket e.started ticket_id subgoal in
        subst (λ o. Failed x s (after_raw subgoal r s t o)) (sym h)
          (refl, refl, refl, refl, refl, refl)),
    (λ h bad.
        let t = running_ticket e.started ticket_id subgoal in
        let x = structured (ticket_error ticket_id Outcome.manifest_invalid) in
        subst (λ o. Failed x s (after_raw subgoal r s t o)) (sym h)
          (rw (summary_filled e subgoal r, succeed)
            (rw (bad, succeed) (refl, refl, refl, refl, refl, refl)))),
    (λ h good.
        let t = running_ticket e.started ticket_id subgoal in
        subst (λ o. Succeeded r s (run_manifest e t r) (after_raw subgoal r s t o)) (sym h)
          (rw (summary_filled e subgoal r, succeed)
            (rw (good, succeed) (refl, refl, refl, refl, refl)))),
  )
