-- ===== src/Halves/Structured.antt =====
-- halves/structured.py, with the verifiers of halves/verifiers.py that it evaluates. What checks and
-- actions do is part of the rules; a check also shows as an exception or as a malformed field.
use Prim.Native.String.{◌++◌ as concat}
use module_agents_part.Prelude.{
  String, Bool, true, false, Option, none, some, List, [], ◌∷◌, if◌then◌else◌,
}
use module_agents_part.Prelude.Json.{Json, Fields, end, field, str}

-- VerifierResult; the score is JSON, since it may be a float
pub record VerifierResult : Type 0 where
  pub ok : Bool
  pub reason : String
  pub score : Json

-- How `await verifier.evaluate(data)` ends.
pub data Evaluation : Type 0 where
  verdict : VerifierResult → Evaluation
  eval_raised : String → Evaluation

-- a RuleCheck as `as_verifier` takes it: a verifier or a callable, or anything else, with the TypeError
pub data RuleCheck (D : Type 0) : Type 0 where
  check : (D → Evaluation) → RuleCheck D
  malformed : String → RuleCheck D

-- How an action ends.
pub data Action : Type 0 where
  did : Fields → Action
  act_raised : String → Action

pub record Rule (D : Type 0) : Type 0 where
  pub name : String
  pub condition : RuleCheck D
  pub action : D → Action
  pub escalate_if : Option (RuleCheck D)

pub data NextAction : Type 0 where
  complete handoff_to_structured handoff_to_loop escalate : NextAction

pub record HalfResult : Type 0 where
  pub success : Bool
  pub output : Fields
  pub summary : String
  pub next_action : NextAction

-- f"rule {rule.name!r} …", with repr's quotes
abbrev pub about_rule : String → String → String
about_rule name text = concat "rule '" (concat name (concat "' " text))

-- the result of an exception or a malformed check
abbrev pub rule_error : String → String → String → HalfResult
rule_error name error text = record {
  success = false;
  output = field "rule" (str name) (field "error" (str error) end);
  summary = about_rule name text;
  next_action = escalate;
}

-- What the condition or the escalation check of a rule comes to.
pub data Checked : Type 0 where
  checked : VerifierResult → Checked
  stopped : HalfResult → Checked

-- as_verifier, then evaluate; the texts are those of the two except clauses
unfoldable pub run_check : {D : Type 0} → String → String → String → RuleCheck D → D → Checked
run_check name bad raised (malformed error) data_ = stopped (rule_error name error bad)
run_check name bad raised (check evaluate) data_ = elim (evaluate data_) [
  | verdict v ↦ checked v
  | eval_raised error ↦ stopped (rule_error name error raised)
]

-- esc_result.reason or "escalate_if returned True"
unfoldable pub or_default : String → String
or_default String.[] = "escalate_if returned True"
or_default (String.◌∷◌ c s) = String.◌∷◌ c s

abbrev pub escalated : String → VerifierResult → HalfResult
escalated name v = record {
  success = false;
  output = field "rule" (str name) (
      field "reason" (str (or_default v.reason))
        (field "verifier_reason" (str v.reason) (field "verifier_score" v.score end)));
  summary = about_rule name "triggered escalation";
  next_action = escalate;
}

abbrev pub fired : String → VerifierResult → Fields → HalfResult
fired name v result = record {
  success = true;
  output = field "rule" (str name) (
      field "result" (Json.obj result)
        (field "verifier_reason" (str v.reason) (field "verifier_score" v.score end)));
  summary = about_rule name "fired";
  next_action = complete;
}

-- the result of an action, after a condition with the verdict v
abbrev pub acted : String → VerifierResult → Action → HalfResult
acted name v (did result) = fired name v result
acted name v (act_raised error) = rule_error name error "action raised"

abbrev pub act : {D : Type 0} → Rule D → VerifierResult → D → HalfResult
act rule v data_ = acted rule.name v (rule.action data_)

-- after the escalation check: stop there, escalate, or act
abbrev pub after_check : {D : Type 0} → Rule D → VerifierResult → D → Checked → HalfResult
after_check rule v data_ (stopped r) = r
after_check rule v data_ (checked w) = if w.ok then escalated rule.name w else act rule v data_

-- the escalation check of a rule
abbrev pub escalation_of : {D : Type 0} → Rule D → RuleCheck D → D → Checked
escalation_of rule esc data_ =
    run_check rule.name "has malformed escalate_if" "escalate_if raised" esc data_

-- a matching rule: its escalation check, if it has one, and its action
unfoldable pub apply_rule : {D : Type 0} → Rule D → VerifierResult → D → HalfResult
unfolding run_check or_default
apply_rule rule v data_ = elim rule.escalate_if [
  | none ↦ act rule v data_
  | some esc ↦ after_check rule v data_ (escalation_of rule esc data_)
]

abbrev pub no_match : HalfResult
no_match = record {
  success = false;
  output = field "reason" (str "no matching rule") end;
  summary = "structured half could not match any rule";
  next_action = escalate;
}

-- the condition of a rule
abbrev pub condition_of : {D : Type 0} → Rule D → D → Checked
condition_of rule data_ =
    run_check rule.name "has malformed condition" "condition raised" rule.condition data_

-- after the condition: stop there, apply the rule, or go on with the rest of the rules
abbrev pub after_condition : {D : Type 0} → Rule D → D → HalfResult → Checked → HalfResult
after_condition rule data_ rest (stopped r) = r
after_condition rule data_ rest (checked v) = if v.ok then apply_rule rule v data_ else rest

-- the loop of StructuredHalf.run over the rules
unfoldable pub run_rules : {D : Type 0} → List (Rule D) → D → HalfResult
unfolding run_check apply_rule
run_rules [] data_ = no_match
run_rules (rule ∷ rules) data_ =
    after_condition rule data_ (run_rules rules data_) (condition_of rule data_)
