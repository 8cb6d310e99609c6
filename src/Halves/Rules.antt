-- ===== src/Halves/Rules.antt =====
-- Which rule decides.
use module_agents_part.Prelude.{
  ◌≡◌, refl, String, true, false, none, some, List, [], ◌∷◌, ◌++◌, All, arith, ◌⊎◌, inl, inr,
  if_ind, option_ind,
}
use module_agents_part.Prelude.Json.{Fields}
use module_agents_part.Halves.Structured.{
  VerifierResult, Rule, RuleCheck, Checked, checked, stopped, HalfResult, complete, escalate,
  Action, did, act_raised, fired, apply_rule, condition_of, run_rules, run_check, acted,
  after_check, escalation_of, after_condition,
}

-- success and next_action say the same
abbrev pub Consistent : HalfResult → Type 0
Consistent r =
    ((r.success ≡ true) × (r.next_action ≡ complete))
    ⊎ ((r.success ≡ false) × (r.next_action ≡ escalate))

acted-Consistent : (name : String) (v : VerifierResult) (a : Action) → Consistent (acted name v a)
acted-Consistent name v (did result) = inl (refl, refl)
acted-Consistent name v (act_raised error) = inr (refl, refl)

module _ {D : Type 0} where
  abbrev pub IsSkipped : D → Rule D → Type 0
  IsSkipped d rule = (v : VerifierResult) × (condition_of rule d ≡ checked v) × (v.ok ≡ false)

  -- no escalation check, or one that came out false
  abbrev pub IsCalm : D → Rule D → Type 0
  IsCalm d rule =
      (rule.escalate_if ≡ none)
      ⊎ ((esc : RuleCheck D) × (w : VerifierResult) × (rule.escalate_if ≡ some esc)
          × (escalation_of rule esc d ≡ checked w)
          × (w.ok ≡ false))

  -- the rule that made a success, and what it did
  pub record Fires (rules : List (Rule D)) (d : D) (r : HalfResult) : Type 0 where
    pub before : List (Rule D)
    pub rule : Rule D
    pub after : List (Rule D)
    pub split : rules ≡ before ++ rule ∷ after
    pub skipped : All (IsSkipped d) before
    pub verdict_of : VerifierResult
    pub matched : (condition_of rule d ≡ checked verdict_of) × (verdict_of.ok ≡ true)
    pub calm : IsCalm d rule
    pub result : Fields
    pub acted : rule.action d ≡ did result
    pub same : r ≡ fired rule.name verdict_of result

  -- what a success of the action was
  record Acts (rule : Rule D) (v : VerifierResult) (d : D) (r : HalfResult) : Type 0 where
    result : Fields
    acted_as : rule.action d ≡ did result
    is_fired : r ≡ fired rule.name v result

  run_check-Consistent :
      (name bad raised : String) (c : RuleCheck D) (d : D) (r : HalfResult)
      → run_check name bad raised c d ≡ stopped r
      → Consistent r
  unfolding run_check
  run_check-Consistent name bad raised c d r e = ground arith

  apply_rule-Consistent :
      (rule : Rule D) (v : VerifierResult) (d : D) → Consistent (apply_rule rule v d)
  unfolding apply_rule
  apply_rule-Consistent rule v d =
      option_ind Consistent rule.escalate_if (λ _. acted-Consistent rule.name v (rule.action d))
        (λ esc _. checks esc (escalation_of rule esc d) refl)
    where
      checks :
          (esc : RuleCheck D) (c : Checked)
          → escalation_of rule esc d ≡ c
          → Consistent (after_check rule v d c)
      checks esc (stopped r) e =
          run_check-Consistent rule.name "has malformed escalate_if" "escalate_if raised" esc d r e
      checks esc (checked w) e =
          if_ind Consistent w.ok (λ _. inr (refl, refl))
            (λ _. acted-Consistent rule.name v (rule.action d))

  one_rule-Consistent :
      (rule : Rule D) (d : D) (rest : HalfResult) (c : Checked)
      → condition_of rule d ≡ c
      → Consistent rest
      → Consistent (after_condition rule d rest c)
  one_rule-Consistent rule d rest (stopped r) e h =
      run_check-Consistent rule.name _ _ rule.condition d r e
  one_rule-Consistent rule d rest (checked v) e h =
      if_ind Consistent v.ok (λ _. apply_rule-Consistent rule v d) (λ _. h)

  -- The half ends for all rules and data, those with malformed or raising checks and actions included:
  -- either it succeeds and says "complete", or it fails and says "escalate".
  run_rules-Consistent : (rules : List (Rule D)) (d : D) → Consistent (run_rules rules d)
  unfolding run_rules
  run_rules-Consistent [] d = inr (refl, refl)
  run_rules-Consistent (rule ∷ rules) d =
      one_rule-Consistent rule d (run_rules rules d) (condition_of rule d) refl
        (run_rules-Consistent rules d)
