-- ===== src/Orchestrator/Processed.antt =====
-- What process_session and advance_session_once promise.
use module_agents_part.Prelude.{
  ◌≡◌, refl, sym, ap, ◌∙◌, subst, String, Bool, true, false, Option, none, some, [], ◌∷◌, ◌==◌,
  ◌||◌, if_ind, arith, eq_iff,
}
use module_agents_part.Prelude.Json.{str, obj, end, field}
use module_agents_part.Halves.Loop.{Attempt, done, raises}
use module_agents_part.Session.State.{Iso, Time, SessionState, is_transition_allowed}
use module_agents_part.Session.Handle.{
  Change, Outcome, set_attributes, set_attribute, mark_failed, mark_escalated,
}
use module_agents_part.Session.Store.{
  Document, Loaded, loaded, not_found, decode_error, bad_document, read_entry,
}
use module_agents_part.Orchestrator.Process.{
  Live, Engine, dispatch_structured_half, dispatch, reason_of, settle, live, process_loaded,
  process_session,
}
use module_agents_part.Orchestrator.Settling.{
  state_of, Persisted, update_allowed, IsWorking, Left, Advances, Kept, from_working, ends-Kept,
  dispatch_loop_half-Left,
}

-- What comes of a session by its state before: at work or new, it advances; handed over to the structured
-- half, it is escalated; in any other state, the three terminal ones and handed_off_to_research included,
-- it is left as it is and the call reports success.
pub record Settles (iso : Iso) {W : Type 0} (s : SessionState) (before : Live W) (r : Bool × Live W)
    : Type 0 where
  pub advances : (s.state == "planning" || s.state == "executing") ≡ true → Advances iso r
  pub escalates :
      s.state ≡ "handed_off_to_structured" → (r.0 ≡ true) × Persisted iso "escalated" r.1
  pub leaves :
      (s.state == "planning" || s.state == "executing") ≡ false
      → (s.state == "handed_off_to_structured") ≡ false
      → r ≡ (true, before)

-- the account of process_session
abbrev pub Processed :
    Iso → {W : Type 0} → Option Document → W → Loaded → Bool × Option (Live W) → Type 0
Processed iso doc w (loaded s) (b, some l) = Settles iso s.state (live doc w s) (b, l)
Processed iso doc w (loaded s) (b, none) = ⊥
Processed iso doc w failure r = r ≡ (false, none)

pub starts-IsWorking :
    {W : Type 0} (l : Live W)
    → (state_of l == "planning" || state_of l == "executing") ≡ true
    → IsWorking l
starts-IsWorking l h =
    ground (arith, eq_iff (state_of l) "planning", eq_iff (state_of l) "executing", h)

module _ (iso : Iso) (now : Time) {W : Type 0} (engine : Engine W) where
  -- mark_failed where the table lets it
  pub fail-Persisted :
      (why : String) (l : Live W)
      → is_transition_allowed (state_of l) "failed" ≡ true
      → ((mark_failed iso now why l.handle).1 ≡ Outcome.done)
        × Persisted iso "failed" (record l { handle = (mark_failed iso now why l.handle).0 })
  unfolding mark_failed set_attributes set_attribute
  fail-Persisted why l allowed =
      let v = obj (field "reason" (str why) end) in
      subst (λ r. (r.1 ≡ Outcome.done) × Persisted iso "failed" (record l { handle = r.0 }))
        (sym (
          update_allowed iso now "failed" (Change.result v ∷ []) l.handle
            (record l.handle.state { state = "failed"; result = v }) allowed refl))
        (refl, (refl, refl))

  pub working_may_fail :
      (l : Live W) → IsWorking l → is_transition_allowed (state_of l) "failed" ≡ true
  unfolding is_transition_allowed
  working_may_fail l w = from_working "failed" l refl refl w

  settle-Advances :
      (a : Attempt Bool (Live W)) → Left iso a → Advances iso (settle iso now engine a)
  unfolding settle
  settle-Advances (done true l) (t, left) = left
  settle-Advances (done false l) (t, left) = cc t
  settle-Advances (raises e l) w = (fail-Persisted (reason_of e) l (working_may_fail l w)).1

  settle-Kept :
      (a : Attempt Bool (Live W)) (name : String)
      → Kept iso name a
      → let r = settle iso now engine a in (r.0 ≡ true) × Persisted iso name r.1
  unfolding settle
  settle-Kept (done b l) name k = k
  settle-Kept (raises e l) name k = absurd k

  pub dispatch_structured_half-Kept :
      (l : Live W)
      → state_of l ≡ "handed_off_to_structured"
      → Kept iso "escalated" (dispatch_structured_half iso now engine l)
  unfolding dispatch_structured_half mark_escalated is_transition_allowed
  dispatch_structured_half-Kept l e =
      ends-Kept iso now engine "escalated" _ l
        (subst (λ x. is_transition_allowed x "escalated" ≡ true) (sym e) refl)

  dispatch-Settles :
      (s : SessionState) (l : Live W)
      → l.handle.state ≡ s
      → Settles iso s l (settle iso now engine (dispatch iso now engine s.state l))
  unfolding dispatch
  dispatch-Settles s l same = record {
    advances = λ h.
        rw (h, dispatch)
          (settle-Advances _ (
            dispatch_loop_half-Left iso now engine l (
              starts-IsWorking l (
                subst (λ t. (t.state == "planning" || t.state == "executing") ≡ true) (sym same)
                  h))));
    escalates = λ e.
        subst
          (λ x.
            let r = settle iso now engine (dispatch iso now engine x l) in
            (r.0 ≡ true) × Persisted iso "escalated" r.1)
          (sym e)
          (settle-Kept _ "escalated"
            (dispatch_structured_half-Kept l (ap (λ t. t.state) same ∙ e)));
    leaves = λ h1 h2.
        rw (h1, dispatch)
          (rw (h2, dispatch)
            (if_ind (λ a. settle iso now engine a ≡ (true, l))
              (s.state == "completed" || (s.state == "failed" || s.state == "escalated"))
              (λ _. unfold settle in refl) (λ _. unfold settle in refl)));
  }

  process_loaded-Processed :
      (doc : Option Document) (w : W) (x : Loaded)
      → Processed iso doc w x (process_loaded iso now engine doc w x)
  process_loaded-Processed doc w (loaded s) = dispatch-Settles s.state (live doc w s) refl
  process_loaded-Processed doc w (not_found id) = refl
  process_loaded-Processed doc w decode_error = refl
  process_loaded-Processed doc w (bad_document e) = refl

  -- process_session, whatever the planner and the executor do and whatever they raise. A session that does
  -- not load is reported as a failure. A planning or executing session that the call reports as a success
  -- is completed, handed over to the structured half or escalated, and its document says so, or it is
  -- executing; reported as a failure, it is failed and its document says so. A session handed over to the
  -- structured half is escalated. Every other session is left as it is and reported as a success.
  pub process_session-Processed :
      (id : String) (doc : Option Document) (w : W)
      → Processed iso doc w (read_entry iso id doc) (process_session iso now engine id doc w)
  unfolding process_session
  process_session-Processed id doc w = process_loaded-Processed doc w (read_entry iso id doc)
