-- ===== src/Executor/Tool.antt =====
-- tools/registry.py: a registered tool and what comes of a call of it. The state that tools read and
-- change is the parameter W; repr and the type names of Python come with the values.
use Prim.Native.String.{◌++◌ as concat}
use module_agents_part.Prelude.{String, Bool, true, false, Option, none, some}
use module_agents_part.Prelude.Dict.{Dict}
use module_agents_part.Prelude.Json.{Json, Fields, end, field}

-- a SovereignError, as far as it is shown
pub record Failure : Type 0 where
  pub code : String
  pub message : String

pub record ToolResult : Type 0 where
  pub success : Bool
  pub output : Fields
  pub summary : String
  pub error : Option Failure
  pub requires_human_approval : Bool

-- How a tool's function ends. A value that is neither a ToolResult nor a dict comes with the name of its
-- type, an exception with its text.
pub data FnEnd : Type 0 where
  returned_result : ToolResult → FnEnd
  returned_dict : Fields → FnEnd
  returned_other : Json → String → FnEnd
  raised_sovereign : Failure → FnEnd
  raised_type_error : String → FnEnd
  raised_other : String → String → FnEnd

-- How the verify_args hook ends.
pub data Verdict : Type 0 where
  accepted : Verdict
  rejected : String → Verdict
  hook_raised : String → Verdict

-- _RegisteredTool, the fields that a call reads
pub record RegisteredTool (W : Type 0) : Type 0 where
  pub name : String
  pub fn : Fields → W → FnEnd × W
  pub parallel_safe : Bool
  pub verify_args : Option (Fields → Verdict)

-- str(err) of a SovereignError
abbrev pub show_failure : Failure → String
show_failure e = concat "[" (concat e.code (concat "] " e.message))

abbrev pub failure : String → String → Failure
failure code message = record { code = code; message = message }

abbrev pub failed : Failure → Fields → String → ToolResult
failed e output summary = record {
  success = false;
  output = output;
  summary = summary;
  error = some e;
  requires_human_approval = false;
}

abbrev pub passed : Fields → String → ToolResult
passed output summary = record {
  success = true;
  output = output;
  summary = summary;
  error = none;
  requires_human_approval = false;
}

module _ (preview : Fields → String) where
  -- the summary of a plain dict; `preview` shows its first three items, each by `_short`
  abbrev pub dict_summary : String → Fields → String
  dict_summary name end = concat name " returned"
  dict_summary name (field k v rest) = concat name (concat " returned: " (preview (field k v rest)))

  -- what `execute` makes of the end of the function
  unfoldable pub wrap : String → FnEnd → ToolResult
  wrap name (returned_result r) = r
  wrap name (returned_dict d) = passed d (dict_summary name d)
  wrap name (returned_other v type_name) =
      passed (field "value" v end) (concat name (concat " returned " type_name))
  wrap name (raised_sovereign e) = failed e end (concat "tool failed: " (show_failure e))
  wrap name (raised_type_error text) =
      let e =
        failure "SA_TOOL_INVALID_INPUT"
          (concat "invalid arguments to tool " (concat name (concat ": " text))) in
      failed e end (show_failure e)
  wrap name (raised_other type_name text) =
      let e =
        failure "SA_TOOL_EXECUTION_FAILED" (
          concat "tool " (concat name (concat " raised " (concat type_name (concat ": " text))))) in
      failed e end (show_failure e)

  -- the two early returns of the verify_args hook; `none` goes on to the function
  unfoldable pub refusal : String → Verdict → Option ToolResult
  refusal name accepted = none
  refusal name (rejected reason) = some (
      failed (failure "SA_VAL_ARG_REJECTED" (concat "arguments rejected by verify_args: " reason))
        (field "rejected_reason" (Json.str reason) end)
        (concat name (concat ": args rejected — " reason)))
  refusal name (hook_raised text) =
      let e =
        failure "SA_TOOL_VERIFY_FAILED"
          (concat "verify_args for " (concat name (concat " raised: " text))) in
      some (failed e end (show_failure e))

  -- the hook, if there is one
  abbrev pub verify_call : {W : Type 0} → RegisteredTool W → Fields → Option ToolResult
  verify_call tool args = elim tool.verify_args [
    | none ↦ none
    | some hook ↦ refusal tool.name (hook args)
  ]

  -- _RegisteredTool.execute
  unfoldable pub execute : {W : Type 0} → RegisteredTool W → Fields → W → ToolResult × W
  unfolding wrap refusal
  execute tool args w = elim (verify_call tool args) [
    | some r ↦ (r, w)
    | none ↦ let ended = tool.fn args w in (wrap tool.name ended.0, ended.1)
  ]

abbrev pub Registry : Type 0 → Type 0
Registry W = Dict (RegisteredTool W)

-- ToolRegistry.get's error
abbrev pub not_registered : String → Failure
not_registered name = record {
  code = "SA_TOOL_NOT_FOUND";
  message = concat "tool '" (concat name "' is not registered");
}
