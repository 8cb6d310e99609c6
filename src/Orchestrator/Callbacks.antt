-- ===== src/Orchestrator/Callbacks.antt =====
-- orchestrator/main.py: the watcher's callbacks, the start, and the summary of a session. A callback's
-- result is the session's document afterwards, and whether it returned.
use module_agents_part.Prelude.{
  String, Bool, true, false, Option, none, some, List, [], ◌∷◌, ◌==◌, if◌then◌else◌,
}
use module_agents_part.Prelude.Json.{Json, Items, Fields, arr, obj, nil, cons, member, truthy}
use module_agents_part.Session.State.{Iso, Time, is_terminal}
use module_agents_part.Session.Handle.{Change, Handle, Outcome, update_state, mark_complete}
use module_agents_part.Session.Store.{
  Document, readable, Session, Loaded, loaded, read_entry, read_document,
}
use module_agents_part.Queue.State.{QueuedTask, World}
use module_agents_part.Queue.Enqueue.{enqueue, planner_task, executor_task, handoff_task}
use module_agents_part.Orchestrator.Process.{fields_of, state_change}

-- payload.get("result") or payload
abbrev pub result_or_payload : Fields → Json
result_or_payload d = elim (member "result" d) [
  | none ↦ obj d
  | some v ↦ if truthy v then v else obj d
]

abbrev pub handle_of : Option Document → Session → Handle
handle_of doc s = record { state = s.state; disk = fields_of doc }

abbrev pub returned : Outcome → Bool
returned Outcome.done = true
returned _ = false

-- items + [v]
unfoldable pub append_item : Items → Json → Items
append_item nil v = cons v nil
append_item (cons w ws) v = cons w (append_item ws v)

-- history + [payload], or TypeError
abbrev pub extended : Json → Json → Option Json
extended (arr items) payload = some (arr (append_item items payload))
extended _ payload = none

-- the state that a handoff asks for
unfoldable pub handoff_state : String → String → String
handoff_state target current =
    if target == "structured"
    then "handed_off_to_structured"
    else if target == "research"
    then "handed_off_to_research"
    else current

module _ (iso : Iso) (now : Time) where
  -- mark_complete with the payload; what is no dict has no `get`
  abbrev pub complete_with : Option Document → Session → Json → Option Document × Bool
  complete_with doc s (obj d) =
      let r = mark_complete iso now (result_or_payload d) (handle_of doc s) in
      (some (readable r.0.disk), returned r.1)
  complete_with doc s _ = (doc, false)

  abbrev pub complete_loaded : Option Document → Json → Loaded → Option Document × Bool
  complete_loaded doc payload (loaded s) =
      if is_terminal s.state then (doc, true) else complete_with doc s payload
  complete_loaded doc payload failure = (doc, true)

  -- _on_session_complete
  unfoldable pub on_session_complete : String → Option Document → Json → Option Document × Bool
  unfolding member truthy mark_complete is_terminal read_document
  on_session_complete id doc payload = complete_loaded doc payload (read_entry iso id doc)

  -- the try block of _on_handoff
  unfoldable pub record_handoff : Option Document → Session → String → Json → Option Document
  unfolding append_item update_state
  record_handoff doc s asked payload = elim (extended s.state.handoff_history payload) [
    | none ↦ doc
    | some history ↦ some (
        readable
          (update_state iso now (state_change asked (Change.handoff_history history ∷ []))
            (handle_of doc s)).0.disk)
  ]

  abbrev pub handoff_loaded :
      String → Option Document → String → Json → World → Loaded → Option Document × World
  handoff_loaded id doc target payload q (loaded s) =
      let asked = handoff_state target s.state.state in
      (
        record_handoff doc s asked payload,
        if asked == "handed_off_to_structured" then enqueue (handoff_task id "structured") q else q,
      )
  handoff_loaded id doc target payload q failure = (doc, q)

  -- _on_handoff, with the queue
  unfoldable pub on_handoff :
      String → Option Document → String → Json → World → Option Document × World
  unfolding handoff_state record_handoff enqueue read_document
  on_handoff id doc target payload q =
      handoff_loaded id doc target payload q (read_entry iso id doc)

-- the task of _resume_on_startup for a session, if it is not terminal and its state is known
unfoldable pub startup_task : Session → Option QueuedTask
unfolding is_terminal
startup_task s =
    let state = s.state.state in
    if is_terminal s.state
    then none
    else if state == "planning"
    then some (planner_task s.session_id)
    else if state == "executing"
    then some (executor_task s.session_id)
    else if state == "handed_off_to_structured"
    then some (handoff_task s.session_id "structured")
    else if state == "handed_off_to_research"
    then some (handoff_task s.session_id "research")
    else none

abbrev pub enqueue_some : Option QueuedTask → World → World
enqueue_some none q = q
enqueue_some (some t) q = enqueue t q

-- _resume_on_startup, over the listed sessions
unfoldable pub resume_on_startup : List Session → World → World
unfolding startup_task enqueue
resume_on_startup [] q = q
resume_on_startup (s ∷ ss) q = resume_on_startup ss (enqueue_some (startup_task s) q)
