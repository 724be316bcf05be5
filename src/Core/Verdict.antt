-- ===== src/Core/Verdict.antt =====
-- `PolicyDecision` and `PolicyVerdict` of core/events.py.
use nd_mind.Base.{ℕ, String}

pub data Decision : Type 0 where
  allowed held blocked : Decision

-- A reason is a text; the two that name numbers keep them apart from the words round them.
pub data Reason : Type 0 where
  text : String → Reason
  too_many_items : ℕ → ℕ → Reason
  over_budget : ℕ → ℕ → Reason

pub record PolicyVerdict : Type 0 where
  pub decision : Decision
  pub rule_id : String
  pub reason : Reason
