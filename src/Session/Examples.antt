-- ===== src/Session/Examples.antt =====
-- The theorems about session states at concrete inputs.
use module_agents_part.Prelude.{
  zero, suc, ◌≡◌, ◌≢◌, ◌⊎◌, refl, String, Option, true, false, false, none, some, [], ◌∷◌,
}
use module_agents_part.Prelude.Int.{pos}
use module_agents_part.Prelude.Json.{null, arr, obj, nil, end}
use module_agents_part.Session.State.{
  Iso, Time, SessionState, ok, is_transition_allowed, to_dict, from_dict, is_terminal,
}
use module_agents_part.Session.RoundTrip.{from_dict-to_dict}
use module_agents_part.Session.Handle.{Change, Changes, Handle, done, update_state, reload_state}
use module_agents_part.Session.Transitions.{
  Call, call_all, IsIn, update_state-Moved, terminal_frozen,
}
use module_agents_part.Session.Persistence.{update_state_persists, stale_object_overwrites}

-- Times written in unary are enough for the examples.
unfoldable pub unary : Time → String
unary zero = String.[]
unary (suc n) = String.◌∷◌ "I" (unary n)

unfoldable pub tally : String → Time
tally String.[] = 0
tally (String.◌∷◌ c s) = suc (tally s)

pub tally-unary : (t : Time) → some (tally (unary t)) ≡ some t
unfolding unary tally
tally-unary zero = refl
tally-unary (suc n) = cc (tally-unary n)

abbrev pub clock : Iso
clock = record { isoformat = unary; parse = λ s. some (tally s); parse-isoformat = tally-unary }

abbrev pub fresh : SessionState
fresh = record {
  session_id = "sess_0123456789ab";
  created_at = 3;
  updated_at = 3;
  scenario = "research";
  state = "planning";
  version = pos 1;
  user_id = none;
  current_half = "loop";
  planner = obj end;
  executor = obj end;
  structured = obj end;
  memory = obj end;
  handoff_history = arr nil;
  bare_mode = false;
  config_overrides = obj end;
  result = null;
  resumed_from = some "sess_00000000000a";
}

abbrev opened : Handle
opened = record { state = fresh; disk = to_dict clock fresh }

abbrev executing : Handle
executing = record opened { state = record fresh { state = "executing" } }

abbrev closed : Handle
closed = let s = record fresh { state = "failed" } in record { state = s; disk = to_dict clock s }

abbrev to : String → Changes
to name = record { before = []; state = some name; after = [] }

from_dict-to_dict_example : from_dict clock (to_dict clock fresh) ≡ ok fresh
from_dict-to_dict_example = from_dict-to_dict clock fresh

update_state-Moved_example :
    let h' = (update_state clock 9 (to "executing") opened).0 in
    (h'.state.state ≡ opened.state.state)
    ⊎ ((◌≡◌ {A = Option String} (some "executing") (some h'.state.state))
        × (is_transition_allowed opened.state.state h'.state.state ≡ true))
update_state-Moved_example = update_state-Moved clock 9 (to "executing") opened

-- a call that only sets another attribute
abbrev noted : Changes
noted = record { before = []; state = none; after = Change.scenario "late" ∷ [] }

terminal_frozen_example : IsIn clock "failed" (
    call_all clock
      (Call.update 9 (to "executing") ∷ Call.reload ∷ Call.update 10 noted ∷ Call.reload ∷ [])
      closed)
unfolding is_terminal
terminal_frozen_example =
    terminal_frozen clock
      (Call.update 9 (to "executing") ∷ Call.reload ∷ Call.update 10 noted ∷ Call.reload ∷ [])
      "failed" closed refl
      (record {
        in_memory = refl;
        on_disk = (closed.state, from_dict-to_dict clock closed.state, refl);
      })

update_state_persists_example :
    let (h', outcome) = update_state clock 9 (to "executing") opened in
    (outcome ≡ done → (reload_state clock h' ≡ ok h') × (h'.state.updated_at ≡ 9))
    × (outcome ≢ done → h'.disk ≡ opened.disk)
update_state_persists_example = update_state_persists clock 9 (to "executing") opened

-- an object that was loaded before the session was completed
abbrev stale : Handle
stale = record executing { disk = to_dict clock (record fresh { state = "completed" }) }

stale_object_overwrites_example :
    let (h', outcome) = update_state clock 9 (to "handed_off_to_structured") stale in
    (outcome ≡ done)
    × (is_transition_allowed "completed" "handed_off_to_structured" ≡ false)
    × (reload_state clock h' ≡ ok h')
    × (h'.state.state ≡ "handed_off_to_structured")
unfolding is_terminal is_transition_allowed
stale_object_overwrites_example =
    stale_object_overwrites clock 9 "handed_off_to_structured" stale
      (record fresh { state = "completed" })
      (from_dict-to_dict clock (record fresh { state = "completed" })) refl refl
