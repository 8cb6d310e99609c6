-- ===== src/Orchestrator/Task.antt =====
-- orchestrator/main.py: run_task and the result of a task.
use Prim.Native.String.{◌++◌ as concat}
use module_agents_part.Prelude.{String, Bool, not, ◌&&◌, Option, none, some, ◌==◌, if◌then◌else◌}
use module_agents_part.Prelude.Dict.{get}
use module_agents_part.Prelude.Json.{Json, Fields, str, obj, end, member, truthy}
use module_agents_part.Session.State.{Iso, Time, SessionState, is_terminal}
use module_agents_part.Session.Store.{
  Document, readable, Entry, Root, Loaded, loaded, read_entry, read_document, Creation, Created,
  created, already_exists, create_session,
}
use module_agents_part.Orchestrator.Process.{Live, Engine, process_session}

-- session.state.result or {}; a result is a dict or None
abbrev pub result_fields : Json → Fields
result_fields (obj d) = d
result_fields _ = end

-- a or b, where a comes from a `get`
abbrev pub or_else : Json → Option Json → Json
or_else b none = b
or_else b (some v) = if truthy v then v else b

-- str(d.get(k, "unknown"))
abbrev pub text_or_unknown : (Json → String) → Option Json → String
text_or_unknown show none = "unknown"
text_or_unknown show (some v) = show v

-- _summary_from_state; `show` is str of a value
unfoldable pub summary_from_state : (Json → String) → SessionState → Json
unfolding member truthy
summary_from_state show s =
    let r = result_fields s.result in
    if s.state == "completed"
    then or_else (or_else (str "completed") (member "summary" r)) (member "final_answer" r)
    else if s.state == "failed"
    then str (concat "failed: " (text_or_unknown show (member "reason" r)))
    else if s.state == "escalated"
    then str (concat "escalated: " (text_or_unknown show (member "reason" r)))
    else str (concat "session in state '" (concat s.state "'"))

pub record TaskResult : Type 0 where
  pub session_id : String
  pub success : Bool
  pub summary : Json
  pub output : Fields

-- How run_task ends: with a result, the exception of create_session, or that of the last load.
pub data TaskEnd : Type 0 where
  task_result : TaskResult → Option Document → TaskEnd
  not_created : String → TaskEnd
  not_loaded : Loaded → TaskEnd

-- the arguments that run_task passes to create_session
abbrev pub task_creation : String → String → Option String → Creation
task_creation scenario task user_id = record {
  scenario = scenario;
  task = task;
  user_id = user_id;
  config_overrides = none;
  session_id = none;
  resumed_from = none;
}

abbrev pub document_of : Option Entry → Option Document
document_of none = none
document_of (some e) = e.session_json

-- the session's document after process_session
abbrev pub document_after : {W : Type 0} → Option Document → Option (Live W) → Option Document
document_after doc none = doc
document_after doc (some l) = some (readable l.handle.disk)

module _ (iso : Iso) (show : Json → String) where
  abbrev pub finish : String → Bool → Option Document → Loaded → TaskEnd
  finish id processed doc (loaded s) =
      task_result
        (record {
          session_id = id;
          success = processed && (is_terminal s.state && not (s.state.state == "failed"));
          summary = summary_from_state show s.state;
          output = result_fields s.state.result;
        })
        doc
  finish id processed doc failure = not_loaded failure

  abbrev pub after_process :
      {W : Type 0} → String → Option Document → Bool × Option (Live W) → TaskEnd
  after_process id doc r =
      let final = document_after doc r.1 in finish id r.0 final (read_entry iso id final)

  abbrev pub after_creation : {W : Type 0} → Time → Engine W → W → Created → TaskEnd
  after_creation now engine w (already_exists id) = not_created id
  after_creation now engine w (created s root) =
      let doc = document_of (get s.session_id root) in
      after_process s.session_id doc (process_session iso now engine s.session_id doc w)

  -- run_task; `generated` is the random id
  unfoldable pub run_task :
      {W : Type 0} → Time → Engine W → W → String → String → String → Option String → Root → TaskEnd
  unfolding get create_session process_session read_document is_terminal summary_from_state
  run_task now engine w generated scenario task user_id root =
      after_creation now engine w
        (create_session iso generated now (task_creation scenario task user_id) root)
