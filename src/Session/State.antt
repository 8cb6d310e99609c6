-- ===== src/Session/State.antt =====
-- session/state.py. A datetime is its number of microseconds since the epoch; how it is written as
-- ISO-8601 text and read back is the parameter `Iso`.
use module_agents_part.Prelude.{
  ℕ, ◌≡◌, String, Bool, true, false, Option, none, some, List, [], ◌∷◌, ◌==◌, if◌then◌else◌,
}
use module_agents_part.Prelude.Dict.{Dict, get}
use module_agents_part.Prelude.Int.{ℤ, pos}
use module_agents_part.Prelude.Json.{
  Json, Fields, null, bool, num, str, arr, obj, nil, end, field, member, optional_str,
}

-- `x in s` for a set of strings
abbrev pub elem : String → List String → Bool
elem x [] = false
elem x (y ∷ ys) = if x == y then true else elem x ys

abbrev pub terminal_states : List String
terminal_states = "completed" ∷ "failed" ∷ "escalated" ∷ []

-- ALLOWED_TRANSITIONS
abbrev pub allowed_transitions : Dict (List String)
allowed_transitions =
    ("planning", "executing" ∷ "handed_off_to_structured" ∷ "failed" ∷ "escalated" ∷ [])
    ∷ (
      "executing",
      "executing" ∷ "handed_off_to_structured" ∷ "handed_off_to_research" ∷ "completed" ∷ "failed"
          ∷ "escalated" ∷ [],
    )
    ∷ ("handed_off_to_structured", "executing" ∷ "completed" ∷ "failed" ∷ "escalated" ∷ [])
    ∷ ("handed_off_to_research", "executing" ∷ "completed" ∷ "failed" ∷ "escalated" ∷ [])
    ∷ ("completed", [])
    ∷ ("failed", [])
    ∷ ("escalated", [])
    ∷ []

-- is_transition_allowed; `.get` gives None for a state that is not in the table
unfoldable pub is_transition_allowed : String → String → Bool
unfolding get
is_transition_allowed current proposed = elim (get current allowed_transitions) [
  | none ↦ false
  | some allowed ↦ elem proposed allowed
]

abbrev pub Time : Type 0
Time = ℕ

pub record SessionState : Type 0 where
  pub session_id : String
  pub created_at : Time
  pub updated_at : Time
  pub scenario : String
  pub state : String
  pub version : ℤ
  pub user_id : Option String
  pub current_half : String
  pub planner : Json
  pub executor : Json
  pub structured : Json
  pub memory : Json
  pub handoff_history : Json
  pub bare_mode : Bool
  pub config_overrides : Json
  pub result : Json
  pub resumed_from : Option String

-- is_terminal
unfoldable pub is_terminal : SessionState → Bool
is_terminal s = elem s.state terminal_states

-- `datetime.isoformat`, and `datetime.fromisoformat` after `.replace("Z", "+00:00")`: the second
-- reads what the first writes.
pub record Iso : Type 0 where
  pub isoformat : Time → String
  pub parse : String → Option Time
  pub parse-isoformat : (t : Time) → parse (isoformat t) ≡ some t

-- The exceptions of reading a document. Python does not look at the type of a plain field; a document
-- in which one has another type than `SessionState` says is outside the model, and is `ill_typed`.
pub data Failure : Type 0 where
  key_error type_error value_error ill_typed : Failure

pub data Result (A : Type 0) : Type 0 where
  ok : A → Result A
  raise : Failure → Result A

infixl 10 ◌>>=◌
abbrev pub ◌>>=◌ : {A B : Type 0} → Result A → (A → Result B) → Result B
ok a >>= f = f a
raise e >>= f = raise e

-- fromisoformat raises ValueError
abbrev pub or_value_error : Option Time → Result Time
or_value_error none = raise value_error
or_value_error (some t) = ok t

module _ (iso : Iso) where
  -- to_dict
  unfoldable pub to_dict : SessionState → Fields
  to_dict s = field "session_id" (str s.session_id) (
      field "version" (num s.version) (
        field "created_at" (str (iso.isoformat s.created_at)) (
          field "updated_at" (str (iso.isoformat s.updated_at)) (
            field "scenario" (str s.scenario) (
              field "state" (str s.state) (
                field "user_id" (optional_str s.user_id) (
                  field "current_half" (str s.current_half) (
                    field "planner" s.planner (
                      field "executor" s.executor (
                        field "structured" s.structured (
                          field "memory" s.memory (
                            field "handoff_history" s.handoff_history (
                              field "bare_mode" (bool s.bare_mode) (
                                field "config_overrides" s.config_overrides (
                                  field "result" s.result (
                                    field "resumed_from" (optional_str s.resumed_from)
                                      end))))))))))))))))

  -- _parse_dt, on a value that came from a document
  abbrev pub parse_dt : Json → Result Time
  parse_dt (str s) = or_value_error (iso.parse s)
  parse_dt _ = raise type_error

-- data[k]
abbrev pub required : Option Json → Result Json
required none = raise key_error
required (some v) = ok v

-- data.get(k, d)
abbrev pub default : Json → Option Json → Json
default d none = d
default d (some v) = v

abbrev pub as_str : Json → Result String
as_str (str s) = ok s
as_str _ = raise ill_typed

abbrev pub as_optional_str : Json → Result (Option String)
as_optional_str null = ok none
as_optional_str (str s) = ok (some s)
as_optional_str _ = raise ill_typed

abbrev pub as_num : Json → Result ℤ
as_num (num n) = ok n
as_num _ = raise ill_typed

abbrev pub as_bool : Json → Result Bool
as_bool (bool b) = ok b
as_bool _ = raise ill_typed

-- from_dict, its arguments evaluated in the order of the call
unfoldable pub from_dict : Iso → Fields → Result SessionState
unfolding member
from_dict iso d = do
  session_id ← required (member "session_id" d) >>= as_str
  version ← as_num (default (num (pos 1)) (member "version" d))
  created_at ← required (member "created_at" d) >>= parse_dt iso
  updated_at ← required (member "updated_at" d) >>= parse_dt iso
  scenario ← required (member "scenario" d) >>= as_str
  state ← as_str (default (str "planning") (member "state" d))
  user_id ← as_optional_str (default null (member "user_id" d))
  current_half ← as_str (default (str "loop") (member "current_half" d))
  bare_mode ← as_bool (default (bool false) (member "bare_mode" d))
  resumed_from ← as_optional_str (default null (member "resumed_from" d))
  ok (record {
    session_id = session_id;
    created_at = created_at;
    updated_at = updated_at;
    scenario = scenario;
    state = state;
    version = version;
    user_id = user_id;
    current_half = current_half;
    planner = default (obj end) (member "planner" d);
    executor = default (obj end) (member "executor" d);
    structured = default (obj end) (member "structured" d);
    memory = default (obj end) (member "memory" d);
    handoff_history = default (arr nil) (member "handoff_history" d);
    bare_mode = bare_mode;
    config_overrides = default (obj end) (member "config_overrides" d);
    result = default null (member "result" d);
    resumed_from = resumed_from;
  })
