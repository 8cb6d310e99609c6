-- ===== src/Discovery.antt =====
-- discovery.py: validate_schema.
pub mod Schema
mod Examples
use Prim.Native.String.{◌++◌ as concat}
use module_agents_part.Prelude.{
  ◌≡◌, refl, sym, ap, ◌∙◌, subst, String, Bool, true, false, not, Option, none, some, List, [], ◌∷◌,
  ◌==◌, ◌↔◌, is_some, if◌then◌else◌, Bool-cases, inl, inr,
}
use module_agents_part.Prelude.Json.{
  Json, Items, Fields, null, bool, num, str, arr, obj, nil, cons, end, field, member,
}
use module_agents_part.Session.State.{elem}

-- _VALID_KINDS
abbrev pub valid_kinds : List String
valid_kinds = "tool" ∷ "planner" ∷ "executor" ∷ "memory" ∷ "half" ∷ "observability" ∷ []

-- _REQUIRED_FIELDS
abbrev pub required_fields : List String
required_fields =
    "name" ∷ "kind" ∷ "description" ∷ "parameters" ∷ "returns" ∷ "error_codes" ∷ "examples"
    ∷ "version" ∷ []

-- How validate_schema ends: it returns the schema, raises ValidationError with a message, or raises
-- TypeError, where an unhashable value is looked up in the set of kinds.
pub data Verdict : Type 0 where
  valid : Fields → Verdict
  invalid : String → Verdict
  type_error : Verdict

-- type(schema).__name__
abbrev pub type_name : Json → String
type_name null = "NoneType"
type_name (bool b) = "bool"
type_name (num n) = "int"
type_name (str s) = "str"
type_name (arr xs) = "list"
type_name (obj d) = "dict"

-- the first required field that is missing
unfoldable pub first_missing : Fields → List String → Option String
first_missing d [] = none
first_missing d (f ∷ fs) =
    let rest = first_missing d fs in if is_some (member f d) then rest else some f

abbrev pub is_nonempty_str : Option Json → Bool
is_nonempty_str (some (str s)) = not (s == "")
is_nonempty_str _ = false

abbrev pub is_dict : Option Json → Bool
is_dict (some (obj d)) = true
is_dict _ = false

unfoldable pub all_str : Items → Bool
all_str nil = true
all_str (cons (str s) vs) = all_str vs
all_str (cons v vs) = false

unfoldable pub all_dict : Items → Bool
all_dict nil = true
all_dict (cons (obj d) vs) = all_dict vs
all_dict (cons v vs) = false

abbrev pub is_str_list : Option Json → Bool
is_str_list (some (arr vs)) = all_str vs
is_str_list _ = false

-- a list that is not empty, of dicts
abbrev pub is_examples : Option Json → Bool
is_examples (some (arr nil)) = false
is_examples (some (arr (cons v vs))) = all_dict (cons v vs)
is_examples _ = false

-- a check and what follows it
abbrev pub require : Bool → String → Verdict → Verdict
require b message rest = if b then rest else invalid message

module _ (repr : Option Json → String) where
  -- `schema["kind"] not in _VALID_KINDS`
  abbrev pub check_kind : Option Json → Verdict → Verdict
  check_kind (some (arr vs)) rest = type_error
  check_kind (some (obj d)) rest = type_error
  check_kind (some (str s)) rest =
      require (elem s valid_kinds)
        (concat
          "discovery schema: 'kind' must be one of ['executor', 'half', 'memory', 'observability', 'planner', 'tool'], got "
          (repr (some (str s))))
        rest
  check_kind v rest = invalid (
      concat
        "discovery schema: 'kind' must be one of ['executor', 'half', 'memory', 'observability', 'planner', 'tool'], got "
        (repr v))

  -- the checks behind that of the kind
  unfoldable pub check_rest : Fields → Verdict
  unfolding member all_str all_dict
  check_rest d =
      require (is_nonempty_str (member "description" d))
        "discovery schema: 'description' must be a non-empty string"
        (require (is_dict (member "parameters" d))
          "discovery schema: 'parameters' must be a dict (JSON Schema object)"
          (require (is_dict (member "returns" d))
            "discovery schema: 'returns' must be a dict (JSON Schema object)"
            (require (is_str_list (member "error_codes" d))
              "discovery schema: 'error_codes' must be a list of strings"
              (require (is_examples (member "examples" d))
                "discovery schema: 'examples' must be a non-empty list of dicts. Every extension must document at least one example invocation."
                (require (is_nonempty_str (member "version" d))
                  "discovery schema: 'version' must be a non-empty string" (valid d))))))

  abbrev pub check_fields : Fields → Option String → Verdict
  check_fields d (some f) =
      invalid (concat "discovery schema missing required field '" (concat f "'"))
  check_fields d none =
      require (is_nonempty_str (member "name" d))
        "discovery schema: 'name' must be a non-empty string"
        (check_kind (member "kind" d) (check_rest d))

  unfoldable pub validate_schema : Json → Verdict
  unfolding first_missing check_rest member
  validate_schema (obj d) = check_fields d (first_missing d required_fields)
  validate_schema v = invalid (concat "discovery schema must be a dict, got " (type_name v))
