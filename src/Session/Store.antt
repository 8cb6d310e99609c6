-- ===== src/Session/Store.antt =====
-- session/directory.py: the directory of sessions. It is a dictionary from names to entries; an entry
-- is what a session's own directory holds.
use Prim.Native.String.{◌++◌ as concat}
use text.Mathlib.Text.{starts_with}
use module_agents_part.Prelude.{
  String, Bool, true, false, Option, none, some, List, [], ◌∷◌, ◌==◌, leb, if◌then◌else◌,
}
use module_agents_part.Prelude.Dict.{Dict, get, put, remove, has}
use module_agents_part.Prelude.Int.{pos}
use module_agents_part.Prelude.Json.{Fields, null, arr, obj, nil, end}
use module_agents_part.Session.State.{
  Iso, Time, SessionState, Failure, key_error, type_error, value_error, Result, ok, raise, to_dict,
  from_dict, is_terminal,
}

-- the contents of session.json: a JSON object, a JSON value of another shape, text that json.load refuses,
-- or bytes that are not UTF-8
pub data Document : Type 0 where
  readable : Fields → Document
  not_object : Document
  corrupt : Document
  undecodable : Document

pub record Entry : Type 0 where
  pub session_json : Option Document
  pub session_md : String
  pub trace_lines : List String
  pub ticket_names : List String

abbrev pub Root : Type 0
Root = Dict Entry

-- a Session object; its directory is the entry at its id
pub record Session : Type 0 where
  pub session_id : String
  pub state : SessionState

-- What reading a session ends in.
pub data Loaded : Type 0 where
  loaded : Session → Loaded
  not_found : String → Loaded
  decode_error : Loaded
  bad_document : Failure → Loaded

module _ (iso : Iso) where
  -- json.load and SessionState.from_dict
  unfoldable pub read_document : String → Document → Loaded
  unfolding from_dict
  read_document id corrupt = decode_error
  -- a UnicodeDecodeError is a ValueError, and no JSONDecodeError
  read_document id undecodable = bad_document value_error
  -- data["session_id"] of a list, a text, a number or None
  read_document id not_object = bad_document type_error
  read_document id (readable d) = elim (from_dict iso d) [
    | ok s ↦ loaded (record { session_id = id; state = s })
    | raise e ↦ bad_document e
  ]

  abbrev pub read_entry : String → Option Document → Loaded
  read_entry id none = not_found id
  read_entry id (some doc) = read_document id doc

  -- load_session
  unfoldable pub load_session : String → Root → Loaded
  unfolding get read_document
  load_session id root = elim (get id root) [
    | none ↦ not_found id
    | some e ↦ read_entry id e.session_json
  ]

  -- Session.parent_session: OSError, JSONDecodeError and KeyError give None; the other exceptions of
  -- reading and of from_dict are raised
  abbrev pub as_parent : Loaded → Result (Option Session)
  as_parent (loaded s) = ok (some s)
  as_parent (not_found id) = ok none
  as_parent decode_error = ok none
  as_parent (bad_document key_error) = ok none
  as_parent (bad_document e) = raise e

  unfoldable pub parent_session : Root → Session → Result (Option Session)
  unfolding load_session
  parent_session root s = elim s.state.resumed_from [
    | none ↦ ok none
    | some parent ↦ as_parent (load_session parent root)
  ]

-- task or "(no task description provided)"
abbrev pub or_text : String → String → String
or_text d s = if s == "" then d else s

-- _DEFAULT_SESSION_MD_TEMPLATE.format(...)
unfoldable pub session_md : String → String → String → String → String
session_md session_id scenario created_at task = concat "# Session " (
    concat session_id (
      concat "\n\n**Scenario:** " (
        concat scenario (
          concat "\n**Created:** " (
            concat created_at (
              concat
                "\n\n## Your task\n\n(The loop half reads this file on every turn. The initial task description\nhas been written below by the orchestrator when the session was created.\nAdditional per-session instructions — constraints, identity, voice — can\nbe added by the scenario author.)\n\n## Task description\n\n"
                (concat task
                  "\n\n## Constraints\n\n- Be honest when you do not know something.\n- Prefer reading memory over guessing.\n- When the task is ambiguous, ask for clarification rather than inventing an answer.\n")))))))

-- the arguments of create_session
pub record Creation : Type 0 where
  pub scenario : String
  pub task : String
  pub user_id : Option String
  pub config_overrides : Option Fields
  pub session_id : Option String
  pub resumed_from : Option String

-- session_id or _generate_session_id()
abbrev pub or_generated : String → Option String → String
or_generated generated none = generated
or_generated generated (some id) = or_text generated id

abbrev pub or_empty : Option Fields → Fields
or_empty none = end
or_empty (some d) = d

-- the SessionState that a creation starts with
abbrev pub initial_state : String → Time → Creation → SessionState
initial_state id now c = record {
  session_id = id;
  created_at = now;
  updated_at = now;
  scenario = c.scenario;
  state = "planning";
  version = pos 1;
  user_id = c.user_id;
  current_half = "loop";
  planner = obj end;
  executor = obj end;
  structured = obj end;
  memory = obj end;
  handoff_history = arr nil;
  bare_mode = false;
  config_overrides = obj (or_empty c.config_overrides);
  result = null;
  resumed_from = c.resumed_from;
}

pub data Created : Type 0 where
  created : Session → Root → Created
  already_exists : String → Created

-- create_session; `generated` is the random id
unfoldable pub create_session : Iso → String → Time → Creation → Root → Created
unfolding get put to_dict session_md
create_session iso generated now c root =
    let id = or_generated generated c.session_id in
    let state = initial_state id now c in
    if has id root
    then already_exists id
    else created (record { session_id = id; state = state })
        (put id
          (record {
            session_json = some (readable (to_dict iso state));
            session_md =
                session_md id c.scenario (iso.isoformat now)
                  (or_text "(no task description provided)" c.task);
            trace_lines = [];
            ticket_names = [];
          })
          root)

-- sessions.sort(key=created_at, reverse=True), which keeps the order of equals
unfoldable pub insert_newest : Session → List Session → List Session
insert_newest s [] = s ∷ []
insert_newest s (t ∷ ts) =
    if leb t.state.created_at s.state.created_at then s ∷ t ∷ ts else t ∷ insert_newest s ts

unfoldable pub newest_first : List Session → List Session
unfolding insert_newest
newest_first [] = []
newest_first (s ∷ ss) = insert_newest s (newest_first ss)

abbrev pub passes : Option String → Session → Bool
passes none s = true
passes (some name) s = s.state.state == name

-- a loaded session that the filter lets through, before the others
abbrev pub keep : Option String → Loaded → List Session → List Session
keep filter (loaded s) rest = if passes filter s then s ∷ rest else rest
keep filter _ rest = rest

-- the loop of list_sessions over the entries that are left of the whole directory
unfoldable pub collect : Iso → Option String → Root → Root → List Session
unfolding load_session
collect iso filter root [] = []
collect iso filter root ((name, e) ∷ entries) =
    let rest = collect iso filter root entries in
    if starts_with name "sess_" then keep filter (load_session iso name root) rest else rest

unfoldable pub list_sessions : Iso → Option String → Root → List Session
unfolding collect newest_first
list_sessions iso filter root = newest_first (collect iso filter root root)

pub data Archived : Type 0 where
  moved : Root → Root → Archived
  -- shutil.move puts the directory inside one of its name that is there
  moved_inside : Root → Archived
  not_terminal : String → Archived
  missing : Archived

-- archive_session, of a session whose object may be older than its document
unfoldable pub archive_session : Session → Root → Root → Archived
unfolding get put remove is_terminal
archive_session s root archive =
    if is_terminal s.state
    then elim (get s.session_id root) [
      | none ↦ missing
      | some e ↦
          if has s.session_id archive
          then moved_inside (remove s.session_id root)
          else moved (remove s.session_id root) (put s.session_id e archive)
    ]
    else not_terminal s.state.state
