-- ===== src/Discovery/Schema.antt =====
-- Which schemas validate_schema accepts.
use module_agents_part.Prelude.{
  ◌≡◌, refl, sym, ap, ◌∙◌, subst, String, Bool, true, false, not, Option, none, some, List, [], ◌∷◌,
  ◌==◌, ◌↔◌, is_some, Bool-cases, inl, inr, All,
}
use module_agents_part.Prelude.Json.{
  Json, Items, Fields, null, bool, num, str, arr, obj, nil, cons, member,
}
use module_agents_part.Session.State.{elem}
use module_agents_part.Discovery.{
  valid_kinds, required_fields, Verdict, valid, first_missing, is_nonempty_str, is_dict, all_str,
  all_dict, is_str_list, is_examples, require, check_kind, check_rest, check_fields,
  validate_schema,
}

abbrev pub IsText : Option Json → Type 0
IsText v = (s : String) × (v ≡ some (str s)) × ((s == "") ≡ false)

abbrev pub IsDict : Option Json → Type 0
IsDict v = (d : Fields) × (v ≡ some (obj d))

-- every item is a string, or a dict
abbrev pub AllStr : Items → Type 0
AllStr nil = Unit
AllStr (cons v vs) = ((s : String) × (v ≡ str s)) × AllStr vs

abbrev pub AllDict : Items → Type 0
AllDict nil = Unit
AllDict (cons v vs) = ((d : Fields) × (v ≡ obj d)) × AllDict vs

-- What a discovery schema must be.
pub record IsSchema (d : Fields) : Type 0 where
  pub name : IsText (member "name" d)
  pub kind : (s : String) × (member "kind" d ≡ some (str s)) × (elem s valid_kinds ≡ true)
  pub description : IsText (member "description" d)
  pub parameters : IsDict (member "parameters" d)
  pub returns : IsDict (member "returns" d)
  pub error_codes : (vs : Items) × (member "error_codes" d ≡ some (arr vs)) × AllStr vs
  pub examples :
      (v : Json) × (vs : Items) × (member "examples" d ≡ some (arr (cons v vs)))
      × AllDict (cons v vs)
  pub version : IsText (member "version" d)

as_nonempty : (v : Option Json) → is_nonempty_str v ≡ true → IsText v
as_nonempty (some (str s)) h =
    (s, refl, elim (Bool-cases (s == "")) [ inl e ↦ cc (ap not e) | inr e ↦ e ])
as_nonempty (some null) h = cc h
as_nonempty (some (bool b)) h = cc h
as_nonempty (some (num n)) h = cc h
as_nonempty (some (arr vs)) h = cc h
as_nonempty (some (obj d)) h = cc h
as_nonempty none h = cc h

from_nonempty : (v : Option Json) → IsText v → is_nonempty_str v ≡ true
from_nonempty v (s, e, filled) = subst (λ w. is_nonempty_str w ≡ true) (sym e) (ap not filled)

as_obj : (v : Option Json) → is_dict v ≡ true → IsDict v
as_obj (some (obj d)) h = (d, refl)
as_obj (some null) h = cc h
as_obj (some (bool b)) h = cc h
as_obj (some (num n)) h = cc h
as_obj (some (str s)) h = cc h
as_obj (some (arr vs)) h = cc h
as_obj none h = cc h

from_obj : (v : Option Json) → IsDict v → is_dict v ≡ true
from_obj v (d, e) = subst (λ w. is_dict w ≡ true) (sym e) refl

all_str-AllStr : (vs : Items) → all_str vs ≡ true → AllStr vs
unfolding all_str
all_str-AllStr nil h = tt
all_str-AllStr (cons (str s) vs) h = ((s, refl), all_str-AllStr vs h)
all_str-AllStr (cons null vs) h = cc h
all_str-AllStr (cons (bool b) vs) h = cc h
all_str-AllStr (cons (num n) vs) h = cc h
all_str-AllStr (cons (arr us) vs) h = cc h
all_str-AllStr (cons (obj d) vs) h = cc h

AllStr-all_str : (vs : Items) → AllStr vs → all_str vs ≡ true
unfolding all_str
AllStr-all_str nil a = refl
AllStr-all_str (cons v vs) ((s, e), a) =
    subst (λ w. all_str (cons w vs) ≡ true) (sym e) (AllStr-all_str vs a)

all_dict-AllDict : (vs : Items) → all_dict vs ≡ true → AllDict vs
unfolding all_dict
all_dict-AllDict nil h = tt
all_dict-AllDict (cons (obj d) vs) h = ((d, refl), all_dict-AllDict vs h)
all_dict-AllDict (cons null vs) h = cc h
all_dict-AllDict (cons (bool b) vs) h = cc h
all_dict-AllDict (cons (num n) vs) h = cc h
all_dict-AllDict (cons (str s) vs) h = cc h
all_dict-AllDict (cons (arr us) vs) h = cc h

AllDict-all_dict : (vs : Items) → AllDict vs → all_dict vs ≡ true
unfolding all_dict
AllDict-all_dict nil a = refl
AllDict-all_dict (cons v vs) ((d, e), a) =
    subst (λ w. all_dict (cons w vs) ≡ true) (sym e) (AllDict-all_dict vs a)

codes_of : (v : Option Json) → is_str_list v ≡ true → (vs : Items) × (v ≡ some (arr vs)) × AllStr vs
codes_of (some (arr vs)) h = (vs, refl, all_str-AllStr vs h)
codes_of (some null) h = cc h
codes_of (some (bool b)) h = cc h
codes_of (some (num n)) h = cc h
codes_of (some (str s)) h = cc h
codes_of (some (obj d)) h = cc h
codes_of none h = cc h

examples_of :
    (v : Option Json)
    → is_examples v ≡ true
    → (w : Json) × (vs : Items) × (v ≡ some (arr (cons w vs))) × AllDict (cons w vs)
examples_of (some (arr (cons w vs))) h = (w, vs, refl, all_dict-AllDict (cons w vs) h)
examples_of (some (arr nil)) h = cc h
examples_of (some null) h = cc h
examples_of (some (bool b)) h = cc h
examples_of (some (num n)) h = cc h
examples_of (some (str s)) h = cc h
examples_of (some (obj d)) h = cc h
examples_of none h = cc h

-- a check that let a schema pass
require_valid :
    (b : Bool) (message : String) (rest : Verdict) (d : Fields)
    → require b message rest ≡ valid d
    → (b ≡ true) × (rest ≡ valid d)
require_valid true message rest d h = (refl, h)
require_valid false message rest d h = cc h

passes : (b : Bool) (message : String) (rest : Verdict) → b ≡ true → require b message rest ≡ rest
passes true message rest e = refl
passes false message rest e = cc e

module _ (repr : Option Json → String) where
  kind_of :
      (v : Option Json) (rest : Verdict) (d : Fields)
      → check_kind repr v rest ≡ valid d
      → ((s : String) × (v ≡ some (str s)) × (elem s valid_kinds ≡ true)) × (rest ≡ valid d)
  kind_of (some (str s)) rest d h =
      let (known, e) = require_valid (elem s valid_kinds) _ rest d h in ((s, refl, known), e)
  kind_of (some null) rest d h = cc h
  kind_of (some (bool b)) rest d h = cc h
  kind_of (some (num n)) rest d h = cc h
  kind_of (some (arr vs)) rest d h = cc h
  kind_of (some (obj f)) rest d h = cc h
  kind_of none rest d h = cc h

  of_kind :
      (v : Option Json) (rest : Verdict)
      → (s : String) × (v ≡ some (str s)) × (elem s valid_kinds ≡ true)
      → check_kind repr v rest ≡ rest
  of_kind v rest (s, e, known) =
      subst (λ w. check_kind repr w rest ≡ rest) (sym e) (passes (elem s valid_kinds) _ rest known)

  accepted :
      (d : Fields) (missing : Option String) → check_fields repr d missing ≡ valid d → IsSchema d
  unfolding check_rest
  accepted d (some f) h = cc h
  accepted d none h =
      let (name, h1) = require_valid (is_nonempty_str (member "name" d)) _ _ d h in
      let (kind, h2) = kind_of (member "kind" d) _ d h1 in
      let (description, h3) = require_valid (is_nonempty_str (member "description" d)) _ _ d h2 in
      let (parameters, h4) = require_valid (is_dict (member "parameters" d)) _ _ d h3 in
      let (returns, h5) = require_valid (is_dict (member "returns" d)) _ _ d h4 in
      let (codes, h6) = require_valid (is_str_list (member "error_codes" d)) _ _ d h5 in
      let (examples, h7) = require_valid (is_examples (member "examples" d)) _ _ d h6 in
      let (version, h8) = require_valid (is_nonempty_str (member "version" d)) _ _ d h7 in
      record {
        name = as_nonempty _ name;
        kind = kind;
        description = as_nonempty _ description;
        parameters = as_obj _ parameters;
        returns = as_obj _ returns;
        error_codes = codes_of _ codes;
        examples = examples_of _ examples;
        version = as_nonempty _ version;
      }

  nothing_missing :
      (d : Fields) (fs : List String)
      → All (λ f. is_some (member f d) ≡ true) fs
      → first_missing d fs ≡ none
  unfolding first_missing
  nothing_missing d [] a = refl
  nothing_missing d (f ∷ fs) a = rw (a.0) (nothing_missing d fs a.1)

  there : {v : Option Json} {w : Json} → v ≡ some w → is_some v ≡ true
  there e = ap (λ o. is_some o) e

  accepts : (d : Fields) → IsSchema d → validate_schema repr (obj d) ≡ valid d
  unfolding validate_schema check_rest
  accepts d s =
      let (_, name, _) = s.name in
      let (_, kind, _) = s.kind in
      let (_, description, _) = s.description in
      let (_, codes, strs) = s.error_codes in
      let (_, _, examples, dicts) = s.examples in
      let (_, version, _) = s.version in
      ap (check_fields repr d) (
        nothing_missing d required_fields (
          there name,
          (
            there kind,
            (
              there description,
              (
                there s.parameters.1,
                (there s.returns.1, (there codes, (there examples, (there version, tt)))),
              ),
            ),
          ),
        ))
      ∙ passes (is_nonempty_str (member "name" d)) _ _ (from_nonempty _ s.name)
      ∙ of_kind (member "kind" d) _ s.kind
      ∙ passes (is_nonempty_str (member "description" d)) _ _ (from_nonempty _ s.description)
      ∙ passes (is_dict (member "parameters" d)) _ _ (from_obj _ s.parameters)
      ∙ passes (is_dict (member "returns" d)) _ _ (from_obj _ s.returns)
      ∙ passes (is_str_list (member "error_codes" d)) _ _
          (subst (λ v. is_str_list v ≡ true) (sym codes) (AllStr-all_str _ strs))
      ∙ passes (is_examples (member "examples" d)) _ _ (
          subst (λ v. is_examples v ≡ true) (sym examples)
            (AllDict-all_dict (cons s.examples.0 s.examples.1) dicts))
      ∙ passes (is_nonempty_str (member "version" d)) _ _ (from_nonempty _ s.version)

  -- validate_schema returns a dict exactly if it is a discovery schema: it has all eight fields, with a name,
  -- a description and a version that are strings and not empty, a known kind, dicts as parameters and
  -- returns, a list of strings as error codes, and a list of dicts, not empty, as examples.
  pub validate_schema_iff : (d : Fields) → (validate_schema repr (obj d) ≡ valid d) ↔ IsSchema d
  unfolding validate_schema
  validate_schema_iff d = (accepted d (first_missing d required_fields), accepts d)
