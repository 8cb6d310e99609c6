-- ===== src/Discovery/Examples.antt =====
-- The theorem about discovery schemas at a concrete schema.
use module_agents_part.Prelude.{◌≡◌, refl, String, Option, ◌↔◌}
use module_agents_part.Prelude.Json.{Json, Fields, str, arr, obj, nil, cons, end, field}
use module_agents_part.Discovery.{valid, type_error, validate_schema}
use module_agents_part.Discovery.Schema.{IsSchema, validate_schema_iff}

abbrev repr : Option Json → String
repr v = "v"

abbrev schema_of_kind : Json → Fields
schema_of_kind kind = field "name" (str "default") (
    field "kind" kind (
      field "description" (str "Runs a subgoal.") (
        field "parameters" (obj end) (
          field "returns" (obj end) (
            field "error_codes" (arr nil)
              (field "examples" (arr (cons (obj end) nil)) (field "version" (str "0.1.0") end)))))))

is_valid :
    validate_schema repr (obj (schema_of_kind (str "executor")))
    ≡ valid (schema_of_kind (str "executor"))
unfolding validate_schema
is_valid = refl

-- a list as the kind is no ValidationError
list_kind : validate_schema repr (obj (schema_of_kind (arr nil))) ≡ type_error
unfolding validate_schema
list_kind = refl

validate_schema_iff_example :
    let d = schema_of_kind (str "executor") in (validate_schema repr (obj d) ≡ valid d) ↔ IsSchema d
validate_schema_iff_example = validate_schema_iff repr (schema_of_kind (str "executor"))
