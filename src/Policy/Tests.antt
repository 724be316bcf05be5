-- ===== src/Policy/Tests.antt =====
-- The policy at concrete ops: a secret, a saved page, a core write and a delete.
use nd_mind.Base.{◌≤◌, true, false, some, ◌≡◌, ◌≢◌, ◌⊎◌, refl}
use nd_mind.Core.{Decision, Kind, Origin, Sensitivity, Trust, WriteOp}
use nd_mind.Policy.Facts.{OpFacts, PolicyContext, default_facts}
use nd_mind.Policy.Rules.{blocked, undo_or_system, content_allowed_op}
use nd_mind.Policy.Evaluate.{evaluate}
use nd_mind.Policy.Guarantees.{evaluate-secret, evaluate-content, evaluate-bulk}
use nd_mind.Policy.Worst.{IsFirstWorst, NoneApplies, evaluate-IsFirstWorst}
use nd_mind.Policy.Rules.{rules, p_default}

abbrev plain_turn : PolicyContext
plain_turn = record { turn_kind = "user"; confirmed = false; edited_items = 2; bulk_threshold = 5 }

abbrev confirmed_turn : PolicyContext
confirmed_turn = record plain_turn { confirmed = true; edited_items = 9 }

abbrev pin : OpFacts
pin = record (default_facts WriteOp.create Trust.user_stated Origin.user_message) {
  kind = some Kind.fact;
  sensitivity = Sensitivity.secret;
  core_write = true;
}

abbrev page : OpFacts
page = record (default_facts WriteOp.update Trust.content_derived Origin.content) {
  kind = some Kind.resource;
  edits_existing = true;
  fills_own_item = true;
}

abbrev about_me : OpFacts
about_me = record (default_facts WriteOp.create Trust.user_stated Origin.user_message) {
  kind = some Kind.fact;
  core_write = true;
}

abbrev reversal : OpFacts
reversal = record (default_facts WriteOp.delete Trust.user_stated Origin.undo) {
  kind = some Kind.fact;
  edits_existing = true;
}

allowed_ops :
    ((evaluate page plain_turn).decision ≡ Decision.allowed)
    × ((evaluate about_me plain_turn).decision ≡ Decision.allowed)
    × ((evaluate reversal plain_turn).decision ≡ Decision.allowed)
unfolding evaluate
allowed_ops = (refl, refl, refl)

evaluate-IsFirstWorst_example :
    IsFirstWorst pin plain_turn (evaluate pin plain_turn) rules
    ⊎ NoneApplies pin plain_turn rules × (evaluate pin plain_turn ≡ p_default pin plain_turn)
evaluate-IsFirstWorst_example = evaluate-IsFirstWorst pin plain_turn

evaluate-secret_example :
    evaluate pin plain_turn
    ≡ blocked "P-SECRET-1" "looks like a secret (password, PIN, code or key)"
evaluate-secret_example = evaluate-secret pin plain_turn refl

evaluate-content_example :
    (page.core_write ≡ false)
    × (page.creates_trigger ≡ false)
    × ((page.op ≡ WriteOp.update) × (page.fills_own_item ≡ true)
        ⊎ (content_allowed_op page.op ≡ true) × (page.kind ≢ some Kind.rule))
evaluate-content_example = evaluate-content page plain_turn refl allowed_ops.0

evaluate-bulk_example :
    (plain_turn.edited_items ≤ plain_turn.bulk_threshold)
    × ((reversal.op ≢ WriteOp.delete) ⊎ (undo_or_system reversal.origin ≡ true))
evaluate-bulk_example = evaluate-bulk reversal plain_turn refl refl refl allowed_ops.2
