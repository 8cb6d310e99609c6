-- ===== src/Session/Handle.antt =====
-- The handle of session/directory.py: `update_state`, `mark_complete`, `mark_failed`,
-- `mark_escalated` and `reload_state`.
use module_agents_part.Prelude.{
  String, Bool, true, false, Option, none, some, List, [], ◌∷◌, if◌then◌else◌,
}
use module_agents_part.Prelude.Int.{ℤ}
use module_agents_part.Prelude.Json.{Json, Fields, str, obj, end, field}
use module_agents_part.Session.State.{
  Iso, Time, SessionState, Result, ok, raise, is_transition_allowed, to_dict, from_dict,
}

-- One keyword argument of `update_state` beside `state`. `unknown` is a name that `SessionState` does
-- not have; the two datetimes are never passed, and a call overwrites `updated_at`.
pub data Change : Type 0 where
  session_id scenario current_half : String → Change
  version : ℤ → Change
  user_id resumed_from : Option String → Change
  planner executor structured memory handoff_history config_overrides result : Json → Change
  bare_mode : Bool → Change
  unknown : String → Change

-- The keyword arguments in their order: those before `state=`, that one, and those behind it.
pub record Changes : Type 0 where
  pub before : List Change
  pub state : Option String
  pub after : List Change

-- setattr(self.state, key, value), or AttributeError
unfoldable pub set_attribute : Change → SessionState → Option SessionState
set_attribute (session_id v) s = some (record s { session_id = v })
set_attribute (scenario v) s = some (record s { scenario = v })
set_attribute (current_half v) s = some (record s { current_half = v })
set_attribute (version v) s = some (record s { version = v })
set_attribute (user_id v) s = some (record s { user_id = v })
set_attribute (resumed_from v) s = some (record s { resumed_from = v })
set_attribute (planner v) s = some (record s { planner = v })
set_attribute (executor v) s = some (record s { executor = v })
set_attribute (structured v) s = some (record s { structured = v })
set_attribute (memory v) s = some (record s { memory = v })
set_attribute (handoff_history v) s = some (record s { handoff_history = v })
set_attribute (config_overrides v) s = some (record s { config_overrides = v })
set_attribute (result v) s = some (record s { result = v })
set_attribute (bare_mode v) s = some (record s { bare_mode = v })
set_attribute (unknown _) s = none

-- what the attributes are after the loop, and whether it ended without AttributeError
unfoldable pub set_attributes : List Change → SessionState → SessionState × Bool
unfolding set_attribute
set_attributes [] s = (s, true)
set_attributes (c ∷ cs) s = elim (set_attribute c s) [
  | none ↦ (s, false)
  | some s' ↦ set_attributes cs s'
]

abbrev pub set_state : Option String → SessionState → SessionState
set_state none s = s
set_state (some name) s = record s { state = name }

-- A session object and the contents of its session.json.
pub record Handle : Type 0 where
  pub state : SessionState
  pub disk : Fields

pub data Outcome : Type 0 where
  done : Outcome
  -- InvalidStateTransition, with both states
  invalid_transition : String → String → Outcome
  attribute_error : Outcome

-- the guard: without `state` among the changes there is none
abbrev pub is_refused : String → Option String → Bool
is_refused current none = false
is_refused current (some proposed) = if is_transition_allowed current proposed then false else true

abbrev pub refusal : String → Option String → Outcome
refusal current none = done
refusal current (some proposed) = invalid_transition current proposed

-- the loop over all arguments, in their order
unfoldable pub set_all : Changes → SessionState → SessionState × Bool
unfolding set_attributes
set_all ch s =
    let (s1, ok1) = set_attributes ch.before s in
    if ok1 then set_attributes ch.after (set_state ch.state s1) else (s1, false)

-- update_state: an AttributeError leaves the object with the attributes set before it, and does not
-- write
unfoldable pub update_state : Iso → Time → Changes → Handle → Handle × Outcome
unfolding is_transition_allowed set_all
update_state iso now ch h =
    if is_refused h.state.state ch.state
    then (h, refusal h.state.state ch.state)
    else let (s, finished) = set_all ch h.state in
      if finished
      then (
        record {
          state = record s { updated_at = now };
          disk = to_dict iso (record s { updated_at = now });
        },
        done,
      )
      else (record { state = s; disk = h.disk }, attribute_error)

abbrev pub ending : String → Json → Changes
ending name v = record { before = []; state = some name; after = result v ∷ [] }

unfoldable pub mark_complete : Iso → Time → Json → Handle → Handle × Outcome
unfolding update_state
mark_complete iso now v = update_state iso now (ending "completed" v)

unfoldable pub mark_failed : Iso → Time → String → Handle → Handle × Outcome
unfolding update_state
mark_failed iso now reason =
    update_state iso now (ending "failed" (obj (field "reason" (str reason) end)))

unfoldable pub mark_escalated : Iso → Time → String → Handle → Handle × Outcome
unfolding update_state
mark_escalated iso now reason =
    update_state iso now (ending "escalated" (obj (field "reason" (str reason) end)))

-- reload_state: an unreadable document leaves the object as it is
unfoldable pub reload_state : Iso → Handle → Result Handle
unfolding from_dict
reload_state iso h = elim (from_dict iso h.disk) [
  | ok s ↦ ok (record h { state = s })
  | raise e ↦ raise e
]

-- A list of calls, each with its time; a caller that catches the exceptions goes on.
unfoldable pub updates : Iso → List (Time × Changes) → Handle → Handle
unfolding update_state
updates iso [] h = h
updates iso ((now, ch) ∷ rest) h = updates iso rest (update_state iso now ch h).0
