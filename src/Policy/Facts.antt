-- ===== src/Policy/Facts.antt =====
-- `OpFacts` and `PolicyContext` of policy/rules.py: what the policy knows of one op and its turn.
use nd_mind.Base.{ℕ, String, Bool, false, Option, none}
use nd_mind.Core.{WriteOp, TargetType, Kind, Trust, Origin, Sensitivity, Modality}

-- A confidence is a float between 0 and 1 that is only compared with 1: in millionths.
abbrev pub full_confidence : ℕ
full_confidence = 1000000

pub record OpFacts : Type 0 where
  pub op : WriteOp
  pub target : TargetType
  pub kind : Option Kind
  pub trust : Trust
  pub origin : Origin
  pub sensitivity : Sensitivity
  pub modality : Modality
  pub confidence : ℕ
  pub core_write : Bool
  pub creates_trigger : Bool
  pub edits_existing : Bool
  pub layer_only : Bool
  pub fills_own_item : Bool

-- The defaults of the dataclass, at the three values that the writer always gives.
abbrev pub default_facts : WriteOp → Trust → Origin → OpFacts
default_facts op trust origin = record {
  op = op;
  target = TargetType.item;
  kind = none;
  trust = trust;
  origin = origin;
  sensitivity = Sensitivity.normal;
  modality = Modality.asserted;
  confidence = full_confidence;
  core_write = false;
  creates_trigger = false;
  edits_existing = false;
  layer_only = false;
  fills_own_item = false;
}

pub record PolicyContext : Type 0 where
  pub turn_kind : String
  pub confirmed : Bool
  pub edited_items : ℕ
  pub bulk_threshold : ℕ
