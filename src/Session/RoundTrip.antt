-- ===== src/Session/RoundTrip.antt =====
-- A session state survives its document.
use module_agents_part.Prelude.{String, ◌≡◌, refl, Option, none, some}
use module_agents_part.Prelude.Json.{optional_str}
use module_agents_part.Session.State.{
  Iso, Time, or_value_error, SessionState, ok, to_dict, from_dict, as_optional_str,
}

as_optional_str-optional_str : (o : Option String) → as_optional_str (optional_str o) ≡ ok o
as_optional_str-optional_str none = refl
as_optional_str-optional_str (some s) = refl

or_value_error-parse : (iso : Iso) (t : Time) → or_value_error (iso.parse (iso.isoformat t)) ≡ ok t
or_value_error-parse iso t = rw (iso.parse-isoformat t)

-- Reading the document that a session state was written to gives the same state.
pub from_dict-to_dict : (iso : Iso) (s : SessionState) → from_dict iso (to_dict iso s) ≡ ok s
unfolding from_dict to_dict
from_dict-to_dict iso s = rw (or_value_error-parse iso s.created_at) (
    rw (or_value_error-parse iso s.updated_at) (
      rw (as_optional_str-optional_str s.user_id)
        (rw (as_optional_str-optional_str s.resumed_from))))
