-- ===== src/Memory/Writer/Facts.antt =====
-- What the policy is told of an op, and the budget of core memory: `_facts`, `_fills_own_item`,
-- `_item_changes`, `_layer_only`, `_edited_items` and `_core_budget` of memory/writer.py.
use nd_mind.Base.{
  ℕ, Bool, true, false, not, ◌&&◌, ◌||◌, Option, none, some, List, [], ◌∷◌, ◌==◌, ltb,
  if◌then◌else◌, get_or, any, filter,
}
use nd_mind.Base.Dict.{lookup}
use nd_mind.Core.{Decision, ItemStatus, Kind, Origin, PolicyVerdict, Reason, Source, TargetType}
use nd_mind.Policy.Facts.{OpFacts, default_facts}
use nd_mind.Policy.Rules.{verdict}
use nd_mind.Memory.Records.{ItemRecord}
use nd_mind.Memory.Changes.{
  Changes, content_changed, names_other, names_quick, no_changes, nonempty,
}
use nd_mind.Memory.Ops.{Action, CreateItem, Op, op_label}
use nd_mind.Memory.Tables.{Tables, core_items}
use nd_mind.Memory.CoreLayer.{core_tokens_with}
use nd_mind.Memory.Exec.{Exec, ◌>>=◌, reads}
use nd_mind.Memory.Writer.Turn.{Turn, target_of}
use nd_mind.Memory.Writer.Items.{new_item}

-- `_layer_only`: an update of quick-layer fields and nothing else, and of at least one.
unfoldable pub layer_only : Action → Bool
layer_only (Action.update_item _ c) = names_quick c && not (content_changed c)
layer_only _ = false

-- `_item_changes`
unfoldable pub item_changes : Action → Changes
item_changes (Action.update_item _ c) = c
item_changes (Action.set_item_state _ s) = record no_changes { state = some s }
item_changes (Action.supersede_item s) = record no_changes {
  state = some s.state;
  valid_to = some (some s.valid_to);
}
item_changes (Action.correct_item _) = record no_changes { status = some ItemStatus.archived }
item_changes (Action.fulfil_intention f) = record no_changes { state = some f.state }
item_changes (Action.delete_item _) = record no_changes { status = some ItemStatus.deleted }
item_changes (Action.restore_item _) = record no_changes { status = some ItemStatus.active }
item_changes _ = no_changes

abbrev pub is_delete_item : Action → Bool
is_delete_item (Action.delete_item _) = true
is_delete_item _ = false

abbrev pub from_content : Origin → Bool
from_content Origin.content = true
from_content _ = false

abbrev pub is_resource : Kind → Bool
is_resource Kind.resource = true
is_resource _ = false

abbrev pub is_link_source : Source → Bool
is_link_source Source.link = true
is_link_source _ = false

-- The changes name nothing but the title, the summary and the tags.
abbrev pub page_fields_only : Action → Bool
page_fields_only (Action.update_item _ c) = not (names_quick c) && not (names_other c)
page_fields_only _ = false

-- `_fills_own_item`
unfoldable pub fills_own_item : Op → Action → ItemRecord → Bool
fills_own_item op action before =
    page_fields_only action
    && from_content op.origin
    && is_resource before.content.kind
    && is_link_source before.content.source

-- The facts of an op on a stored item; here and below the op's action is given once more, to be
-- matched on.
unfoldable pub item_facts : Op → Action → ItemRecord → Bool → OpFacts
unfolding layer_only item_changes fills_own_item
item_facts op action before existed =
    let changes = item_changes action in
    let after_core = get_or changes.in_core before.content.in_core in
    record (default_facts (op_label op) op.trust op.origin) {
      kind = some before.content.kind;
      sensitivity = get_or changes.sensitivity before.content.sensitivity;
      modality = before.content.modality;
      confidence = before.content.confidence;
      core_write =
          not (is_delete_item action)
          && (after_core && (not before.content.in_core || content_changed changes));
      edits_existing = existed;
      layer_only = layer_only action;
      fills_own_item = fills_own_item op action before;
    }

abbrev pub item_facts? : Op → Action → Option ItemRecord → Bool → OpFacts
item_facts? op action none existed = default_facts (op_label op) op.trust op.origin
item_facts? op action (some before) existed = item_facts op action before existed

-- `getattr(op, "create", False)`
abbrev pub creates_entity : Action → Bool
creates_entity (Action.upsert_entity u) = u.create
creates_entity _ = false

unfoldable pub facts_on : Op → Action → Tables → List ℕ → OpFacts
facts_on op action t created = elim (target_of action).type [
  | TargetType.item ↦
      let id = (target_of action).id in
      item_facts? op action (lookup id t.items) (not (any (λ i. i == id) created))
  | TargetType.trigger ↦ record (default_facts (op_label op) op.trust op.origin) {
    target = TargetType.trigger;
    edits_existing = true;
  }
  | TargetType.entity ↦ record (default_facts (op_label op) op.trust op.origin) {
    target = TargetType.entity;
    edits_existing = not (creates_entity action);
  }
  | other ↦ record (default_facts (op_label op) op.trust op.origin) { target = other }
]

unfoldable pub create_facts : Op → CreateItem → OpFacts
create_facts op c = record (default_facts (op_label op) op.trust op.origin) {
  kind = some c.item.kind;
  sensitivity = c.item.sensitivity;
  modality = c.item.modality;
  confidence = c.item.confidence;
  core_write = c.item.in_core;
  creates_trigger = nonempty c.triggers;
}

abbrev pub facts_for : Action → Op → Tables → List ℕ → OpFacts
facts_for (Action.create_item c) op t created = create_facts op c
facts_for action op t created = facts_on op action t created

-- `_facts`
unfoldable pub facts : Op → Tables → List ℕ → OpFacts
unfolding create_facts facts_on item_facts
facts op t created = facts_for op.action op t created

-- The set of the items that a turn edits, as a list without repetition.
abbrev add_id : ℕ → List ℕ → List ℕ
add_id i is = if any (λ j. j == i) is then is else i ∷ is

abbrev add_edited : Op → List ℕ → List ℕ
add_edited op is = elim op.action [
  | Action.update_item i c ↦ if layer_only op.action then is else add_id i is
  | Action.set_item_state i s ↦ add_id i is
  | Action.delete_item i ↦ add_id i is
  | Action.restore_item i ↦ add_id i is
  | Action.supersede_item s ↦ add_id s.old_id is
  | Action.correct_item c ↦ add_id c.old_id is
  | Action.fulfil_intention f ↦ add_id f.intention_id is
  | _ ↦ is
]

abbrev all_edited : List Op → List ℕ
all_edited [] = []
all_edited (op ∷ ops) = add_edited op (all_edited ops)

-- The items that the turn creates.
unfoldable pub created_items : List Op → List ℕ
created_items [] = []
created_items (op ∷ ops) =
    let rest = created_items ops in
    elim op.action [ Action.create_item c ↦ c.item_id ∷ rest | _ ↦ rest ]

-- `_edited_items`
unfoldable pub edited_items : List Op → List ℕ → List ℕ
unfolding layer_only
edited_items ops created = filter (λ i. not (any (λ j. j == i) created)) (all_edited ops)

abbrev over_budget : Turn → PolicyVerdict → ItemRecord → Tables → PolicyVerdict
over_budget turn v candidate t =
    let current = filter (λ i. not (i.id == candidate.id)) (core_items t) in
    let tokens = core_tokens_with current candidate in
    if ltb turn.core_token_budget tokens
    then verdict Decision.blocked "CORE-BUDGET" (Reason.over_budget tokens turn.core_token_budget)
    else v

abbrev budget_for : Turn → PolicyVerdict → Option ItemRecord → Tables → PolicyVerdict
budget_for turn v none t = v
budget_for turn v (some candidate) t = over_budget turn v candidate t

abbrev pub budget_of : Turn → Action → PolicyVerdict → Exec PolicyVerdict
budget_of turn (Action.create_item c) v = do
  candidate ← new_item turn c none
  reads (over_budget turn v candidate)
budget_of turn action v = reads (λ t. budget_for turn v (lookup (target_of action).id t.items) t)

-- `_core_budget`
unfoldable pub core_budget : Turn → Op → PolicyVerdict → Exec PolicyVerdict
core_budget turn op v = budget_of turn op.action v
