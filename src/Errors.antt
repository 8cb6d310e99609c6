-- ===== src/Errors.antt =====
-- errors.py: the structured errors, their codes and wrap_unexpected.
pub mod Codes
use Prim.Native.String.{◌++◌ as concat}
use text.Mathlib.Text.{starts_with}
use module_agents_part.Prelude.{
  String, Bool, true, Option, none, some, List, [], ◌∷◌, if◌then◌else◌,
}
use module_agents_part.Session.State.{elem}
use module_agents_part.Executor.Tool.{Failure}

pub data ErrorCategory : Type 0 where
  sys val io ext tool : ErrorCategory

unfoldable pub category_value : ErrorCategory → String
category_value sys = "SYS"
category_value val = "VAL"
category_value io = "IO"
category_value ext = "EXT"
category_value tool = "TOOL"

abbrev pub expected_prefix : ErrorCategory → String
expected_prefix c = concat "SA_" (concat (category_value c) "_")

-- a SovereignError without its context and cause
pub record SovereignError : Type 0 where
  pub code : String
  pub category : ErrorCategory
  pub message : String
  pub retriable : Bool

-- the constructor with __post_init__; none is its ValueError
unfoldable pub sovereign_error : String → ErrorCategory → String → Bool → Option SovereignError
unfolding category_value
sovereign_error code category message retriable =
    if starts_with code (expected_prefix category)
    then some
        (record { code = code; category = category; message = message; retriable = retriable })
    else none

-- CANONICAL_CODES
unfoldable pub canonical_codes : ErrorCategory → List String
canonical_codes sys =
    "SA_SYS_DISK_FULL" ∷ "SA_SYS_OOM" ∷ "SA_SYS_PROCESS_CRASHED" ∷ "SA_SYS_PID_LOST"
    ∷ "SA_SYS_UNEXPECTED" ∷ []
canonical_codes val =
    "SA_VAL_INVALID_CONFIG" ∷ "SA_VAL_MISSING_REQUIRED_FIELD" ∷ "SA_VAL_BAD_TYPE"
    ∷ "SA_VAL_INVALID_DISCOVERY_SCHEMA" ∷ "SA_VAL_INVALID_STATE_TRANSITION"
    ∷ "SA_VAL_INVALID_PLANNER_OUTPUT" ∷ "SA_VAL_INVALID_HANDOFF_SCHEMA" ∷ []
canonical_codes io =
    "SA_IO_NOT_FOUND" ∷ "SA_IO_PERMISSION_DENIED" ∷ "SA_IO_MANIFEST_INVALID"
    ∷ "SA_IO_MANIFEST_CORRUPT" ∷ "SA_IO_SESSION_ESCAPE" ∷ "SA_IO_ATOMIC_WRITE_FAILED"
    ∷ "SA_IO_MALFORMED_HANDOFF_STATE" ∷ []
canonical_codes ext =
    "SA_EXT_AUTH_EXPIRED" ∷ "SA_EXT_RATE_LIMITED" ∷ "SA_EXT_TIMEOUT" ∷ "SA_EXT_SERVICE_UNAVAILABLE"
    ∷ "SA_EXT_UNEXPECTED_RESPONSE" ∷ []
canonical_codes tool =
    "SA_TOOL_INVALID_INPUT" ∷ "SA_TOOL_EXECUTION_FAILED" ∷ "SA_TOOL_DEPENDENCY_MISSING"
    ∷ "SA_TOOL_NOT_FOUND" ∷ []

abbrev pub any_category : (ErrorCategory → Bool) → Bool
any_category p =
    if p sys
    then true
    else if p val
    then true
    else if p io
    then true
    else if p ext
    then true
    else p tool

-- is_canonical
unfoldable pub is_canonical : String → Bool
unfolding canonical_codes
is_canonical code = any_category (λ c. elem code (canonical_codes c))

-- an exception: a SovereignError as far as it is shown, or another one by its type and its text
pub data Exception : Type 0 where
  structured : Failure → Exception
  other : String → String → Exception

-- wrap_unexpected
abbrev pub wrap_unexpected : Exception → Failure
wrap_unexpected (structured e) = e
wrap_unexpected (other type_name text) = record {
  code = "SA_SYS_UNEXPECTED";
  message = concat "unexpected " (concat type_name (concat ": " text));
}
