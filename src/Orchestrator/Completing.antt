-- ===== src/Orchestrator/Completing.antt =====
-- What the watcher's callbacks do to a session.
use module_agents_part.Prelude.{
  ◌≡◌, refl, sym, ◌∙◌, subst, String, Bool, true, false, Option, none, some, List, [], ◌∷◌, if_ind,
}
use module_agents_part.Prelude.Json.{Fields, obj}
use module_agents_part.Session.State.{
  Iso, Time, SessionState, ok, is_transition_allowed, is_terminal, elem, terminal_states, from_dict,
}
use module_agents_part.Session.RoundTrip.{from_dict-to_dict}
use module_agents_part.Session.Transitions.{terminal_closed}
use module_agents_part.Session.Handle.{
  Change, Handle, Outcome, set_attributes, set_attribute, update_state, mark_complete,
}
use module_agents_part.Session.Store.{
  Document, readable, Session, Loaded, loaded, not_found, decode_error, bad_document, read_entry,
}
use module_agents_part.Ipc.Consume.{File, parsed}
use module_agents_part.Ipc.Watcher.{
  SessionFiles, Handlers, complete, process_complete, complete_content,
}
use module_agents_part.Orchestrator.Process.{fields_of, state_change}
use module_agents_part.Orchestrator.Callbacks.{
  result_or_payload, handle_of, returned, complete_with, complete_loaded, on_session_complete,
}
use module_agents_part.Orchestrator.Settling.{update_allowed}
use module_agents_part.Orchestrator.Advancing.{read_entry-from_dict}

-- a call that the table does not allow raises and changes nothing
pub update_refused :
    (iso : Iso) (now : Time) (name : String) (after : List Change) (h : Handle)
    → is_transition_allowed h.state.state name ≡ false
    → update_state iso now (state_change name after) h
      ≡ (h, Outcome.invalid_transition h.state.state name)
unfolding update_state
update_refused iso now name after h denied = rw (denied, update_state) refl

-- a document reads as this state
abbrev pub Reads : Iso → Option Document → SessionState → Type 0
Reads iso doc s = from_dict iso (fields_of doc) ≡ ok s

-- What on_session_complete does to a session that loaded as s, for a payload that is a dict.
pub record Completes (iso : Iso) (now : Time) (d : Fields) (s : SessionState)
    (r : Option Document × Bool) : Type 0 where
  -- a session that the table lets complete reads as completed, with the result
  pub completes :
      is_transition_allowed s.state "completed" ≡ true
      → (r.1 ≡ true)
        × Reads iso r.0
            (record s { state = "completed"; result = result_or_payload d; updated_at = now })
  -- every other session reads as before, and the call returns only if it was terminal
  pub refuses :
      is_transition_allowed s.state "completed" ≡ false → (r.1 ≡ is_terminal s) × Reads iso r.0 s

abbrev pub Completed :
    Iso → Time → Option Document → Fields → Loaded → Option Document × Bool → Type 0
Completed iso now doc d (loaded s) r = Completes iso now d s.state r
Completed iso now doc d failure r = r ≡ (doc, true)

module _ (iso : Iso) (now : Time) where
  complete_with-Completes :
      (doc : Option Document) (s : Session) (d : Fields)
      → Reads iso doc s.state
      → is_terminal s.state ≡ false
      → Completes iso now d s.state (complete_with iso now doc s (obj d))
  unfolding mark_complete set_attributes set_attribute
  complete_with-Completes doc s d reads unfinished = record {
    completes = λ allowed.
        subst
          (λ (r : Handle × Outcome).
            (returned r.1 ≡ true)
            × Reads iso (some (readable r.0.disk)) (record s.state {
              state = "completed";
              result = result_or_payload d;
              updated_at = now;
            }))
          (sym (
            update_allowed iso now "completed" (Change.result (result_or_payload d) ∷ [])
              (handle_of doc s)
              (record s.state { state = "completed"; result = result_or_payload d }) allowed refl))
          (refl, from_dict-to_dict iso _);
    refuses = λ denied.
        subst
          (λ (r : Handle × Outcome).
            (returned r.1 ≡ is_terminal s.state) × Reads iso (some (readable r.0.disk)) s.state)
          (sym (
            update_refused iso now "completed" (Change.result (result_or_payload d) ∷ [])
              (handle_of doc s) denied))
          (sym unfinished, reads);
  }

  complete_loaded-Completed :
      (id : String) (doc : Option Document) (d : Fields) (x : Loaded)
      → read_entry iso id doc ≡ x
      → Completed iso now doc d x (complete_loaded iso now doc (obj d) x)
  complete_loaded-Completed id doc d (loaded s) read =
      let reads = read_entry-from_dict iso id doc s read in
      if_ind (Completes iso now d s.state) (is_terminal s.state)
        (λ over. record {
          completes = λ allowed.
              cc (allowed, terminal_closed s.state.state "completed" (unfold is_terminal in over));
          refuses = λ _. (sym over, reads);
        })
        (complete_with-Completes doc s d reads)
  complete_loaded-Completed id doc d (not_found j) read = refl
  complete_loaded-Completed id doc d decode_error read = refl
  complete_loaded-Completed id doc d (bad_document f) read = refl

  pub on_session_complete-Completed :
      (id : String) (doc : Option Document) (d : Fields)
      → Completed iso now doc d (read_entry iso id doc) (on_session_complete iso now id doc (obj d))
  unfolding on_session_complete
  on_session_complete-Completed id doc d =
      complete_loaded-Completed id doc d (read_entry iso id doc) refl

  -- A completion that the watcher finds while the session is still planning is lost: the file is taken out
  -- of ipc/ and handed to the callback, which raises, and the session reads as it did before.
  planning_completion_lost :
      (handlers : Handlers) (files : SessionFiles) (f : File) (d : Fields) (id : String)
      (doc : Option Document) (s : Session)
      → handlers.on_complete ≡ true
      → files.completion ≡ some f
      → f.content ≡ parsed (obj d)
      → f.movable ≡ true
      → read_entry iso id doc ≡ loaded s
      → s.state.state ≡ "planning"
      → let polled = process_complete handlers files in
        let called = on_session_complete iso now id doc (obj d) in
        (polled.0.completion ≡ none)
        × (polled.1 ≡ complete (obj d) ∷ [])
        × (called.1 ≡ false)
        × Reads iso called.0 s.state
  unfolding process_complete complete_content is_transition_allowed is_terminal
  planning_completion_lost handlers files f d id doc s on there content moves read planning =
      let account =
        subst (λ x. Completed iso now doc d x (on_session_complete iso now id doc (obj d))) read
          (on_session_complete-Completed id doc d) in
      let (raised, reads) =
        account.refuses
          (subst (λ x. is_transition_allowed x "completed" ≡ false) (sym planning) refl) in
      (
        rw (on, there, content, moves) refl,
        rw (on, there, content, moves) refl,
        raised ∙ subst (λ x. elem x terminal_states ≡ false) (sym planning) refl,
        reads,
      )
