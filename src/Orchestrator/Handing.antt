-- ===== src/Orchestrator/Handing.antt =====
-- What _on_handoff does to a session and the queue.
use module_agents_part.Prelude.{
  ◌≡◌, refl, sym, subst, String, true, false, Option, some, [], ◌∷◌, option_ind,
}
use module_agents_part.Prelude.Json.{Json, Items, arr}
use module_agents_part.Session.State.{Iso, Time, SessionState, is_transition_allowed}
use module_agents_part.Session.RoundTrip.{from_dict-to_dict}
use module_agents_part.Session.Handle.{Change, Handle, Outcome, set_attributes, set_attribute}
use module_agents_part.Session.Store.{
  Document, readable, Session, Loaded, loaded, not_found, decode_error, bad_document, read_entry,
}
use module_agents_part.Queue.State.{World}
use module_agents_part.Queue.Enqueue.{enqueue, handoff_task}
use module_agents_part.Orchestrator.Callbacks.{
  handle_of, append_item, extended, handoff_state, record_handoff, handoff_loaded, on_handoff,
}
use module_agents_part.Orchestrator.Settling.{update_allowed}
use module_agents_part.Orchestrator.Completing.{Reads, update_refused}
use module_agents_part.Orchestrator.Advancing.{read_entry-from_dict}

-- What a handoff does to a session that loaded as s.
pub record Handles (iso : Iso) (now : Time) (id target : String) (payload : Json) (s : SessionState)
    (q : World) (r : Option Document × World) : Type 0 where
  -- where the table lets the session go to the asked state, the payload is added to the history
  pub recorded :
      (items : Items)
      → s.handoff_history ≡ arr items
      → is_transition_allowed s.state (handoff_state target s.state) ≡ true
      → Reads iso r.0 (record s {
        state = handoff_state target s.state;
        handoff_history = arr (append_item items payload);
        updated_at = now;
      })
  -- where it does not, the payload is dropped
  pub dropped :
      is_transition_allowed s.state (handoff_state target s.state) ≡ false → Reads iso r.0 s
  -- the queue gets a task for the structured half either way, and none for the research half
  pub structured : target ≡ "structured" → r.1 ≡ enqueue (handoff_task id "structured") q
  pub research : target ≡ "research" → r.1 ≡ q
  -- a session that was moved to the structured half before loses the payload, and is queued
  pub again :
      target ≡ "structured"
      → s.state ≡ "handed_off_to_structured"
      → Reads iso r.0 s × (r.1 ≡ enqueue (handoff_task id "structured") q)

abbrev pub Handled :
    Iso
    → Time
    → String
    → Option Document
    → String
    → Json
    → World
    → Loaded
    → Option Document × World
    → Type 0
Handled iso now id doc target payload q (loaded s) r = Handles iso now id target payload s.state q r
Handled iso now id doc target payload q failure r = r ≡ (doc, q)

module _ (iso : Iso) (now : Time) where
  recorded-Reads :
      (doc : Option Document) (s : Session) (asked : String) (items : Items) (payload : Json)
      → s.state.handoff_history ≡ arr items
      → is_transition_allowed s.state.state asked ≡ true
      → Reads iso (record_handoff iso now doc s asked payload) (record s.state {
        state = asked;
        handoff_history = arr (append_item items payload);
        updated_at = now;
      })
  unfolding record_handoff set_attributes set_attribute
  recorded-Reads doc s asked items payload list allowed =
      let history = arr (append_item items payload) in
      rw (list, record_handoff)
        (subst
          (λ (r : Handle × Outcome).
            Reads iso (some (readable r.0.disk))
              (record s.state { state = asked; handoff_history = history; updated_at = now }))
          (sym (
            update_allowed iso now asked (Change.handoff_history history ∷ []) (handle_of doc s)
              (record s.state { state = asked; handoff_history = history }) allowed refl))
          (from_dict-to_dict iso _))

  dropped-Reads :
      (doc : Option Document) (s : Session) (asked : String) (payload : Json)
      → Reads iso doc s.state
      → is_transition_allowed s.state.state asked ≡ false
      → Reads iso (record_handoff iso now doc s asked payload) s.state
  unfolding record_handoff
  dropped-Reads doc s asked payload reads denied =
      option_ind (λ (d : Option Document). Reads iso d s.state)
        (extended s.state.handoff_history payload) (λ _. reads)
        (λ history _.
          subst (λ (r : Handle × Outcome). Reads iso (some (readable r.0.disk)) s.state)
            (sym (
              update_refused iso now asked (Change.handoff_history history ∷ []) (handle_of doc s)
                denied))
            reads)

  handoff_loaded-Handled :
      (id : String) (doc : Option Document) (target : String) (payload : Json) (q : World)
      (x : Loaded)
      → read_entry iso id doc ≡ x
      → Handled iso now id doc target payload q x (handoff_loaded iso now id doc target payload q x)
  unfolding handoff_state is_transition_allowed
  handoff_loaded-Handled id doc target payload q (loaded s) read =
      let reads = read_entry-from_dict iso id doc s read in
      let denied = dropped-Reads doc s (handoff_state target s.state.state) payload reads in
      let queued : target ≡ "structured"
          → (handoff_loaded iso now id doc target payload q (loaded s)).1
            ≡ enqueue (handoff_task id "structured") q =
        λ e. rw (e) refl in
      record {
        recorded = λ items list allowed.
            recorded-Reads doc s (handoff_state target s.state.state) items payload list allowed;
        dropped = denied;
        structured = queued;
        research = λ e. rw (e) refl;
        again = λ e at. (denied (rw (e, at) refl), queued e);
      }
  handoff_loaded-Handled id doc target payload q (not_found j) read = refl
  handoff_loaded-Handled id doc target payload q decode_error read = refl
  handoff_loaded-Handled id doc target payload q (bad_document f) read = refl

  -- _on_handoff. Where the table lets the session go to the asked state, it reads as that state, with the
  -- payload at the end of its history; where the table does not, it reads as before and the payload is in
  -- no history. A handoff to the structured half is queued either way, one to the research half never. In
  -- particular, a handoff to the structured half of a session that is there already is queued, but its
  -- payload is dropped. A session that does not load is left alone.
  pub on_handoff-Handled :
      (id : String) (doc : Option Document) (target : String) (payload : Json) (q : World)
      → Handled iso now id doc target payload q
          (read_entry iso id doc)
          (on_handoff iso now id doc target payload q)
  unfolding on_handoff
  on_handoff-Handled id doc target payload q =
      handoff_loaded-Handled id doc target payload q (read_entry iso id doc) refl
