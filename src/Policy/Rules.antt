-- ===== src/Policy/Rules.antt =====
-- The rules of policy/rules.py, one function each, `none` where the rule does not apply.
use nd_mind.Base.{
  String, Bool, true, false, not, ◌&&◌, ◌||◌, Option, none, some, List, [], ◌∷◌, ltb, str_eq,
  if◌then◌else◌,
}
use nd_mind.Core.{
  WriteOp, TargetType, Kind, Trust, Origin, Sensitivity, Modality, Decision, Reason, PolicyVerdict,
}
use nd_mind.Policy.Facts.{OpFacts, PolicyContext, full_confidence}

abbrev pub Rule : Type 0
Rule = OpFacts → PolicyContext → Option PolicyVerdict

abbrev pub verdict : Decision → String → Reason → PolicyVerdict
verdict decision rule_id reason = record { decision = decision; rule_id = rule_id; reason = reason }

abbrev pub held : String → String → PolicyVerdict
held rule_id reason = verdict Decision.held rule_id (Reason.text reason)

abbrev pub blocked : String → String → PolicyVerdict
blocked rule_id reason = verdict Decision.blocked rule_id (Reason.text reason)

-- Membership of `USER_ORIGINS`.
abbrev pub user_origin : Origin → Bool
user_origin Origin.user_message = true
user_origin Origin.undo = true
user_origin Origin.confirm = true
user_origin Origin.ui_edit = true
user_origin _ = false

-- Membership of `CONTENT_ALLOWED_OPS`.
abbrev pub content_allowed_op : WriteOp → Bool
content_allowed_op WriteOp.create = true
content_allowed_op WriteOp.link = true
content_allowed_op WriteOp.upsert_entity = true
content_allowed_op _ = false

abbrev pub is_secret : Sensitivity → Bool
is_secret Sensitivity.secret = true
is_secret _ = false

abbrev pub is_sensitive : Sensitivity → Bool
is_sensitive Sensitivity.sensitive = true
is_sensitive _ = false

abbrev pub is_content_derived : Trust → Bool
is_content_derived Trust.content_derived = true
is_content_derived Trust.user_stated = false

abbrev pub is_hypothetical : Modality → Bool
is_hypothetical Modality.hypothetical = true
is_hypothetical _ = false

abbrev pub is_update : WriteOp → Bool
is_update WriteOp.update = true
is_update _ = false

abbrev pub is_create : WriteOp → Bool
is_create WriteOp.create = true
is_create _ = false

abbrev pub is_delete : WriteOp → Bool
is_delete WriteOp.delete = true
is_delete _ = false

-- The ops that withdraw something, which `p_infer_1` lets through.
abbrev pub withdraws : WriteOp → Bool
withdraws WriteOp.delete = true
withdraws WriteOp.unlink = true
withdraws WriteOp.unrelate = true
withdraws _ = false

abbrev pub kind_is_rule : Option Kind → Bool
kind_is_rule (some Kind.rule) = true
kind_is_rule _ = false

abbrev pub kind_is_pattern : Option Kind → Bool
kind_is_pattern (some Kind.pattern) = true
kind_is_pattern _ = false

-- Membership of `HYPOTHETICAL_KINDS`.
abbrev pub hypothetical_kind : Option Kind → Bool
hypothetical_kind (some Kind.note) = true
hypothetical_kind _ = false

abbrev pub targets_item : TargetType → Bool
targets_item TargetType.item = true
targets_item _ = false

abbrev pub undo_or_system : Origin → Bool
undo_or_system Origin.undo = true
undo_or_system Origin.system = true
undo_or_system _ = false

unfoldable pub p_secret_1 : Rule
p_secret_1 op ctx =
    if is_secret op.sensitivity
    then some (blocked "P-SECRET-1" "looks like a secret (password, PIN, code or key)")
    else none

unfoldable pub p_trust_1 : Rule
p_trust_1 op ctx =
    if not (is_content_derived op.trust)
    then none
    else if op.core_write
    then some (held "P-TRUST-1" "a core write proposed from content, not from you")
    else if is_update op.op && op.fills_own_item && not op.creates_trigger
    then none
    else if kind_is_rule op.kind || op.creates_trigger || not (content_allowed_op op.op)
    then some (blocked "P-TRUST-1" "content can't change rules, set triggers or edit memory")
    else none

unfoldable pub p_core_1 : Rule
p_core_1 op ctx =
    if op.core_write && not ctx.confirmed && not (user_origin op.origin)
    then some (held "P-CORE-1" "core writes need your own message or confirmation")
    else none

unfoldable pub p_sens_1 : Rule
p_sens_1 op ctx =
    if op.core_write && is_sensitive op.sensitivity && not ctx.confirmed
    then some (held "P-SENS-1" "sensitive, so it goes to core only if you confirm")
    else none

unfoldable pub p_mod_1 : Rule
p_mod_1 op ctx =
    if not (is_hypothetical op.modality)
    then none
    else if is_create op.op && not (hypothetical_kind op.kind) || op.core_write
    then some (blocked "P-MOD-1" "hypothetical, so not stored as if it were true")
    else none

unfoldable pub p_infer_1 : Rule
p_infer_1 op ctx =
    if ctx.confirmed || op.layer_only || withdraws op.op
    then none
    else if (kind_is_pattern op.kind
          || ltb op.confidence full_confidence && str_eq ctx.turn_kind "system")
        && targets_item op.target
    then some (held "P-INFER-1" "inferred, so it waits for your confirmation")
    else none

unfoldable pub p_bulk_1 : Rule
p_bulk_1 op ctx =
    if ctx.confirmed || op.layer_only || not op.edits_existing
    then none
    else if is_delete op.op && not (undo_or_system op.origin)
    then some (held "P-BULK-1" "deleting needs your confirmation")
    else if ltb ctx.bulk_threshold ctx.edited_items
    then some (
        verdict Decision.held "P-BULK-1"
          (Reason.too_many_items ctx.edited_items ctx.bulk_threshold))
    else none

unfoldable pub p_default : OpFacts → PolicyContext → PolicyVerdict
p_default op ctx = verdict Decision.allowed "P-DEFAULT" (Reason.text "allowed")

-- `RULES`, in its order.
unfoldable pub rules : List (String × Rule)
rules =
    ("P-SECRET-1", p_secret_1)
    ∷ ("P-TRUST-1", p_trust_1)
    ∷ ("P-MOD-1", p_mod_1)
    ∷ ("P-INFER-1", p_infer_1)
    ∷ ("P-SENS-1", p_sens_1)
    ∷ ("P-CORE-1", p_core_1)
    ∷ ("P-BULK-1", p_bulk_1)
    ∷ []
