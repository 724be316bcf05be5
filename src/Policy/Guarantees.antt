-- ===== src/Policy/Guarantees.antt =====
-- What the rule table guarantees of every verdict.
use nd_mind.Base.{
  true, false, Bool-cases, some, arith, ◌≡◌, ◌≢◌, ◌⊎◌, inl, inr, refl, ◌≤◌, String, List, [], ◌∷◌,
}
use nd_mind.Core.{Decision, Kind, Modality, Sensitivity, Trust, WriteOp, PolicyVerdict}
use nd_mind.Policy.Facts.{OpFacts, PolicyContext}
use nd_mind.Policy.Rules.{
  Rule, rules, undo_or_system, user_origin, content_allowed_op, blocked, p_secret_1, p_trust_1,
  p_core_1, p_sens_1, p_mod_1, p_infer_1, p_bulk_1,
}
use nd_mind.Policy.Evaluate.{evaluate, severity}
use nd_mind.Policy.Worst.{AtMost, IsFirstWorst, evaluate-IsFirstWorst, evaluate-Bounds}

module _ (op : OpFacts) (ctx : PolicyContext) where
  -- No rule gives a verdict more severe than that of `evaluate`; one line for each rule in use.
  trust_bound : AtMost (severity (evaluate op ctx).decision) (p_trust_1 op ctx)
  unfolding rules
  trust_bound = (evaluate-Bounds op ctx).1.0

  mod_bound : AtMost (severity (evaluate op ctx).decision) (p_mod_1 op ctx)
  unfolding rules
  mod_bound = (evaluate-Bounds op ctx).1.1.0

  infer_bound : AtMost (severity (evaluate op ctx).decision) (p_infer_1 op ctx)
  unfolding rules
  infer_bound = (evaluate-Bounds op ctx).1.1.1.0

  sens_bound : AtMost (severity (evaluate op ctx).decision) (p_sens_1 op ctx)
  unfolding rules
  sens_bound = (evaluate-Bounds op ctx).1.1.1.1.0

  core_bound : AtMost (severity (evaluate op ctx).decision) (p_core_1 op ctx)
  unfolding rules
  core_bound = (evaluate-Bounds op ctx).1.1.1.1.1.0

  bulk_bound : AtMost (severity (evaluate op ctx).decision) (p_bulk_1 op ctx)
  unfolding rules
  bulk_bound = (evaluate-Bounds op ctx).1.1.1.1.1.1.0

  -- A blocking verdict at the head of the table is the one that wins.
  blocked_first :
      (v w : PolicyVerdict) (rest : List (String × Rule)) (rule : Rule)
      → rule op ctx ≡ some w
      → w.decision ≡ Decision.blocked
      → IsFirstWorst op ctx v (("P-SECRET-1", rule) ∷ rest)
      → v ≡ w
  blocked_first v w rest rule e b (inl (h, _)) = ground arith
  blocked_first v w rest rule e b (inr (h, _)) = ground arith

-- The table behind its first line.
abbrev other_rules : List (String × Rule)
other_rules =
    ("P-TRUST-1", p_trust_1)
    ∷ ("P-MOD-1", p_mod_1)
    ∷ ("P-INFER-1", p_infer_1)
    ∷ ("P-SENS-1", p_sens_1)
    ∷ ("P-CORE-1", p_core_1)
    ∷ ("P-BULK-1", p_bulk_1)
    ∷ []

-- A secret is always blocked, by the secret rule, whatever else applies.
pub evaluate-secret :
    (op : OpFacts) (ctx : PolicyContext)
    → op.sensitivity ≡ Sensitivity.secret
    → evaluate op ctx ≡ blocked "P-SECRET-1" "looks like a secret (password, PIN, code or key)"
unfolding rules p_secret_1
evaluate-secret op ctx h = elim (evaluate-IsFirstWorst op ctx) [
  | inl first ↦
      blocked_first op ctx (evaluate op ctx)
        (blocked "P-SECRET-1" "looks like a secret (password, PIN, code or key)") other_rules
        p_secret_1 (ground arith) refl first
  | inr (nothing, _) ↦ ground arith
]

trust_allowed :
    (op : OpFacts) (ctx : PolicyContext)
    → op.trust ≡ Trust.content_derived
    → AtMost 0 (p_trust_1 op ctx)
    → (op.core_write ≡ false)
      × (op.creates_trigger ≡ false)
      × ((op.op ≡ WriteOp.update) × (op.fills_own_item ≡ true)
          ⊎ (content_allowed_op op.op ≡ true) × (op.kind ≢ some Kind.rule))
unfolding p_trust_1
trust_allowed op ctx t b = ground arith

-- What content proposed is written at once only if it writes no core memory and sets no
-- reminder, and either fills in the saved link's own item, or stores, links or names something
-- that is no rule.
pub evaluate-content :
    (op : OpFacts) (ctx : PolicyContext)
    → op.trust ≡ Trust.content_derived
    → (evaluate op ctx).decision ≡ Decision.allowed
    → (op.core_write ≡ false)
      × (op.creates_trigger ≡ false)
      × ((op.op ≡ WriteOp.update) × (op.fills_own_item ≡ true)
          ⊎ (content_allowed_op op.op ≡ true) × (op.kind ≢ some Kind.rule))
evaluate-content op ctx t a = trust_allowed op ctx t (rw a at (trust_bound op ctx))

core_allowed :
    (op : OpFacts) (ctx : PolicyContext)
    → ctx.confirmed ≡ false
    → op.core_write ≡ true
    → AtMost 0 (p_trust_1 op ctx)
    → AtMost 0 (p_mod_1 op ctx)
    → AtMost 0 (p_sens_1 op ctx)
    → AtMost 0 (p_core_1 op ctx)
    → (op.trust ≡ Trust.user_stated)
      × (user_origin op.origin ≡ true)
      × (op.sensitivity ≢ Sensitivity.sensitive)
      × (op.modality ≢ Modality.hypothetical)
unfolding p_trust_1 p_mod_1 p_sens_1 p_core_1
core_allowed op ctx c w t m s k = (ground arith, ground arith, ground arith, ground arith)

-- Without a confirmation, core memory is written at once only by what the user stated, through
-- the user's own action, and neither sensitive nor hypothetical.
pub evaluate-core :
    (op : OpFacts) (ctx : PolicyContext)
    → ctx.confirmed ≡ false
    → op.core_write ≡ true
    → (evaluate op ctx).decision ≡ Decision.allowed
    → (op.trust ≡ Trust.user_stated)
      × (user_origin op.origin ≡ true)
      × (op.sensitivity ≢ Sensitivity.sensitive)
      × (op.modality ≢ Modality.hypothetical)
evaluate-core op ctx c w a =
    core_allowed op ctx c w (rw a at (trust_bound op ctx)) (rw a at (mod_bound op ctx))
      (rw a at (sens_bound op ctx)) (rw a at (core_bound op ctx))

bulk_allowed :
    (op : OpFacts) (ctx : PolicyContext)
    → ctx.confirmed ≡ false
    → op.layer_only ≡ false
    → op.edits_existing ≡ true
    → AtMost 0 (p_bulk_1 op ctx)
    → (ctx.edited_items ≤ ctx.bulk_threshold)
      × ((op.op ≢ WriteOp.delete) ⊎ (undo_or_system op.origin ≡ true))
unfolding p_bulk_1
bulk_allowed op ctx c l e b = (
  ground arith,
  elim (Bool-cases (undo_or_system op.origin)) [ inl u ↦ inr u | inr u ↦ inl (ground arith) ],
)

-- Without a confirmation, a change of an existing row goes through at once only in a turn that
-- edits at most the threshold of items, and a delete only as part of an undo or of the system.
-- Moving an item in or out of the quick layer is exempt.
pub evaluate-bulk :
    (op : OpFacts) (ctx : PolicyContext)
    → ctx.confirmed ≡ false
    → op.layer_only ≡ false
    → op.edits_existing ≡ true
    → (evaluate op ctx).decision ≡ Decision.allowed
    → (ctx.edited_items ≤ ctx.bulk_threshold)
      × ((op.op ≢ WriteOp.delete) ⊎ (undo_or_system op.origin ≡ true))
evaluate-bulk op ctx c l e a = bulk_allowed op ctx c l e (rw a at (bulk_bound op ctx))

-- What the user states and has confirmed is never held.
pub evaluate-confirmed :
    (op : OpFacts) (ctx : PolicyContext)
    → ctx.confirmed ≡ true
    → op.trust ≡ Trust.user_stated
    → (evaluate op ctx).decision ≢ Decision.held
unfolding evaluate
evaluate-confirmed op ctx c t = ground arith
