-- ===== src/Orchestrator/TaskEnding.antt =====
-- What run_task gives.
use module_agents_part.Prelude.{
  ◌≡◌, ◌⊎◌, inl, inr, refl, sym, ap, ◌∙◌, subst, String, Bool, true, false, not, ◌&&◌, ◌||◌, Option,
  none, some, ◌==◌, if◌then◌else◌, arith, eq_iff, Bool-cases,
}
use module_agents_part.Prelude.Dict.{has, get-put_self}
use module_agents_part.Prelude.Json.{Json}
use module_agents_part.Session.State.{
  Iso, Time, SessionState, ok, is_terminal, elem, terminal_states, to_dict, from_dict,
}
use module_agents_part.Session.RoundTrip.{from_dict-to_dict}
use module_agents_part.Session.Store.{
  Document, readable, Root, Session, Loaded, loaded, not_found, decode_error, bad_document,
  read_entry, create_session, initial_state,
}
use module_agents_part.Orchestrator.Process.{Live, Engine, fields_of, process_session}
use module_agents_part.Orchestrator.Settling.{state_of, Advances}
use module_agents_part.Orchestrator.Processed.{Processed, process_session-Processed}
use module_agents_part.Orchestrator.Advancing.{read_entry-from_dict, document_reads}
use module_agents_part.Orchestrator.Task.{
  TaskEnd, task_result, not_created, not_loaded, task_creation, finish, after_process, run_task,
}

-- How a task ends, where process_session gave r: with the id of the new session and a result that is a
-- success exactly if the document reads as completed or escalated; or, only if the loop half left the
-- session executing, with what the document's load raised.
abbrev pub Ends : Iso → {W : Type 0} → String → Bool × Option (Live W) → TaskEnd → Type 0
Ends iso id r (task_result t doc) =
    (t.session_id ≡ id)
    × ((s : SessionState) × (from_dict iso (fields_of doc) ≡ ok s)
        × (t.success ≡ (s.state == "completed" || s.state == "escalated")))
Ends iso id r (not_created j) = ⊥
Ends iso id (b, none) (not_loaded f) = ⊥
Ends iso id (b, some l) (not_loaded f) =
    (b ≡ true)
    × (state_of l ≡ "executing")
    × (read_entry iso id (some (readable l.handle.disk)) ≡ f)

terminal_success :
    (s : SessionState)
    → (is_terminal s && not (s.state == "failed"))
      ≡ (s.state == "completed" || s.state == "escalated")
unfolding is_terminal
terminal_success s = elim (Bool-cases (s.state == "failed")) [
  | inl e ↦
      subst
        (λ x.
          (elem x terminal_states && not (x == "failed")) ≡ (x == "completed" || x == "escalated"))
        (sym (is_failed e)) refl
  | inr other ↦ rw (other) (flat (s.state == "completed") (s.state == "escalated"))
]
  where
    is_failed : (s.state == "failed") ≡ true → s.state ≡ "failed"
    is_failed e = ground (arith, eq_iff s.state "failed", e)

    flat :
        (c e : Bool)
        → ((if c then true else if false then true else if e then true else false) && true)
          ≡ (c || e)
    flat true e = refl
    flat false true = refl
    flat false false = refl

-- the document of a new session
abbrev pub initial_document :
    Iso → String → Time → String → String → Option String → Option Document
initial_document iso id now scenario task user_id =
    some (readable (to_dict iso (initial_state id now (task_creation scenario task user_id))))

module _ (iso : Iso) (show : Json → String) {W : Type 0} where
  ended : String → Bool → Live W → Loaded → TaskEnd
  ended id b l x = finish iso show id b (some (readable l.handle.disk)) x

  finish-Ends :
      (id : String) (l : Live W) (x : Loaded)
      → read_entry iso id (some (readable l.handle.disk)) ≡ x
      → ((t : Session) × (x ≡ loaded t)) ⊎ (state_of l ≡ "executing")
      → Ends iso id (true, some l) (ended id true l x)
  unfolding ended
  finish-Ends id l (loaded s) read left = (
    refl,
    (
      s.state,
      read_entry-from_dict iso id (some (readable l.handle.disk)) s read,
      terminal_success s.state,
    ),
  )
  finish-Ends id l (not_found j) read (inl (t, h)) = cc h
  finish-Ends id l (not_found j) read (inr e) = (refl, e, read)
  finish-Ends id l decode_error read (inl (t, h)) = cc h
  finish-Ends id l decode_error read (inr e) = (refl, e, read)
  finish-Ends id l (bad_document f) read (inl (t, h)) = cc h
  finish-Ends id l (bad_document f) read (inr e) = (refl, e, read)

  advanced-Ends :
      (id : String) (b : Bool) (l : Live W)
      → Advances iso (b, l)
      → Ends iso id (b, some l) (ended id b l (read_entry iso id (some (readable l.handle.disk))))
  unfolding ended
  advanced-Ends id true l (inl e) = finish-Ends id l _ refl (inr e)
  advanced-Ends id true l (inr (inl p)) =
      finish-Ends id l _ refl (inl (_, document_reads iso id "completed" l p))
  advanced-Ends id true l (inr (inr (inl p))) =
      finish-Ends id l _ refl (inl (_, document_reads iso id "handed_off_to_structured" l p))
  advanced-Ends id true l (inr (inr (inr p))) =
      finish-Ends id l _ refl (inl (_, document_reads iso id "escalated" l p))
  advanced-Ends id false l p =
      subst
        (λ x.
          Ends iso id (false, some l) (finish iso show id false (some (readable l.handle.disk)) x))
        (sym (document_reads iso id "failed" l p))
        (
          refl,
          (
            l.handle.state,
            ap (from_dict iso) p.1 ∙ from_dict-to_dict iso l.handle.state,
            subst (λ x. false ≡ (x == "completed" || x == "escalated")) (sym p.0) refl,
          ),
        )

  after_process-Ends :
      (id : String) (doc : Option Document) (w : W) (s : Session) (r : Bool × Option (Live W))
      → s.state.state ≡ "planning"
      → Processed iso doc w (loaded s) r
      → Ends iso id r (after_process iso show id doc r)
  unfolding ended
  after_process-Ends id doc w s (b, none) e p = absurd p
  after_process-Ends id doc w s (b, some l) e p =
      advanced-Ends id b l
        (p.advances (subst (λ x. (x == "planning" || x == "executing") ≡ true) (sym e) refl))

  -- run_task on a fresh id, whatever the planner and the executor do and raise. It creates the session and
  -- runs process_session on it. It returns a result, which is a success exactly if the session's document
  -- then reads as completed or escalated; unless the loop half left the session executing and the document
  -- does not load any more.
  pub run_task-Ends :
      (now : Time) (engine : Engine W) (w : W) (generated scenario task : String)
      (user_id : Option String) (root : Root)
      → has generated root ≡ false
      → Ends iso generated
          (process_session iso now engine generated
            (initial_document iso generated now scenario task user_id)
            w)
          (run_task iso show now engine w generated scenario task user_id root)
  unfolding run_task create_session
  run_task-Ends now engine w generated scenario task user_id root new =
      let s = initial_state generated now (task_creation scenario task user_id) in
      let session : Session = record { session_id = generated; state = s } in
      let doc = initial_document iso generated now scenario task user_id in
      let l : Live W = record { handle = record { state = s; disk = to_dict iso s }; world = w } in
      rw (new, create_session)
        (rw (get-put_self generated _ root) (
          after_process-Ends generated doc w session
            (process_session iso now engine generated doc w) refl
            (subst (λ x. Processed iso doc w x (process_session iso now engine generated doc w))
              (document_reads iso generated "planning" l (refl, refl))
              (process_session-Processed iso now engine generated doc w))))
