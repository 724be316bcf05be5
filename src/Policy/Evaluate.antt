-- ===== src/Policy/Evaluate.antt =====
-- `evaluate` of policy/rules.py: the most severe verdict wins, ties go to the rule listed first.
use nd_mind.Base.{ℕ, String, Option, none, some, List, [], ◌∷◌, ltb, if◌then◌else◌, get_or}
use nd_mind.Core.{Decision, PolicyVerdict}
use nd_mind.Policy.Facts.{OpFacts, PolicyContext}
use nd_mind.Policy.Rules.{
  Rule, p_secret_1, p_trust_1, p_mod_1, p_infer_1, p_sens_1, p_core_1, p_bulk_1, p_default, rules,
}

abbrev pub severity : Decision → ℕ
severity Decision.allowed = 0
severity Decision.held = 1
severity Decision.blocked = 2

-- One round of the loop: the verdict replaces a less severe one.
abbrev pub worse : Option PolicyVerdict → Option PolicyVerdict → Option PolicyVerdict
worse worst none = worst
worse none (some v) = some v
worse (some w) (some v) = if ltb (severity w.decision) (severity v.decision) then some v else some w

unfoldable pub worst_of :
    List (String × Rule) → OpFacts → PolicyContext → Option PolicyVerdict → Option PolicyVerdict
worst_of [] op ctx worst = worst
worst_of ((_, rule) ∷ rest) op ctx worst = worst_of rest op ctx (worse worst (rule op ctx))

unfoldable pub evaluate : OpFacts → PolicyContext → PolicyVerdict
unfolding worst_of rules p_secret_1 p_trust_1 p_mod_1 p_infer_1 p_sens_1 p_core_1 p_bulk_1 p_default
evaluate op ctx = get_or (worst_of rules op ctx none) (p_default op ctx)
