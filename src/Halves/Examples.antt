-- ===== src/Halves/Examples.antt =====
-- The theorems about the structured half at concrete rules.
use module_agents_part.Prelude.{ℕ, ◌≡◌, refl, none, some, List, [], ◌∷◌, ltb}
use module_agents_part.Prelude.Json.{end, null}
use module_agents_part.Halves.Structured.{
  verdict, RuleCheck, check, malformed, did, act_raised, Rule, run_rules,
}

abbrev less_than : ℕ → RuleCheck ℕ
less_than n = check (λ d. verdict (record { ok = ltb d n; reason = "amount"; score = null }))

-- amounts under 5 are refunded, those under 100 are paid unless they are under 10
abbrev rules : List (Rule ℕ)
rules =
    record { name = "refund"; condition = less_than 5; action = λ d. did end; escalate_if = none }
    ∷ record {
      name = "pay";
      condition = less_than 100;
      action = λ d. did end;
      escalate_if = some (less_than 10);
    }
    ∷ record {
      name = "odd";
      condition = malformed "not callable";
      action = λ d. act_raised "no";
      escalate_if = none;
    }
    ∷ []

paid : (run_rules rules 50).summary ≡ "rule 'pay' fired"
unfolding run_rules
paid = refl

escalations :
    ((run_rules rules 7).summary ≡ "rule 'pay' triggered escalation")
    × ((run_rules rules 200).summary ≡ "rule 'odd' has malformed condition")
unfolding run_rules
escalations = (refl, refl)
