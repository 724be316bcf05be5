-- ===== src/Memory/Ops.antt =====
-- memory/ops.py: the operations that the memory writer accepts.
use nd_mind.Base.{ℕ, String, Bool, Option, List}
use nd_mind.Core.{EntityRole, LinkType, Origin, TriggerOn, TriggerState, Trust, WriteOp}
use nd_mind.Memory.Records.{EntityContent, ItemContent, TriggerContent}
use nd_mind.Memory.Changes.{Changes}

pub record EntityLink : Type 0 where
  pub row_id : ℕ
  pub entity_id : ℕ
  pub role : EntityRole

pub record NewTrigger : Type 0 where
  pub trigger_id : ℕ
  pub trigger : TriggerContent

pub record CreateItem : Type 0 where
  pub item_id : ℕ
  pub item : ItemContent
  pub entities : List EntityLink
  pub triggers : List NewTrigger
  pub category_slug : Option String
  pub category_name : Option String

pub record SupersedeItem : Type 0 where
  pub old_id : ℕ
  pub new_id : ℕ
  pub link_id : ℕ
  pub valid_to : ℕ
  pub state : String

pub record CorrectItem : Type 0 where
  pub old_id : ℕ
  pub new_id : ℕ
  pub link_id : ℕ

pub record FulfilIntention : Type 0 where
  pub intention_id : ℕ
  pub episode_id : ℕ
  pub link_id : ℕ
  pub state : String

pub record LinkItems : Type 0 where
  pub link_id : ℕ
  pub src_id : ℕ
  pub link_type : LinkType
  pub dst_id : ℕ

pub record AttachEntity : Type 0 where
  pub row_id : ℕ
  pub item_id : ℕ
  pub entity_id : ℕ
  pub role : EntityRole

pub record UpsertEntity : Type 0 where
  pub entity_id : ℕ
  pub entity : EntityContent
  pub create : Bool

pub record RelateEntities : Type 0 where
  pub relation_id : ℕ
  pub src_entity_id : ℕ
  pub relation : String
  pub dst_entity_id : ℕ
  pub valid_from : Option ℕ
  pub evidence_item_id : Option ℕ

-- The `changes` of a trigger: one option for each field of its content.
pub record TriggerChanges : Type 0 where
  pub on : Option TriggerOn
  pub spec : Option String
  pub fires_at : Option (Option ℕ)
  pub state : Option TriggerState
  pub expires_at : Option (Option ℕ)

pub data Action : Type 0 where
  create_item : CreateItem → Action
  update_item : ℕ → Changes → Action
  set_item_state : ℕ → String → Action
  supersede_item : SupersedeItem → Action
  correct_item : CorrectItem → Action
  fulfil_intention : FulfilIntention → Action
  delete_item : ℕ → Action
  restore_item : ℕ → Action
  link_items : LinkItems → Action
  unlink_items : ℕ → Action
  attach_entity : AttachEntity → Action
  detach_entity : ℕ → Action
  upsert_entity : UpsertEntity → Action
  delete_entity : ℕ → Action
  relate_entities : RelateEntities → Action
  unrelate_entities : ℕ → Action
  set_trigger_state : ℕ → TriggerState → Action
  update_trigger : ℕ → TriggerChanges → Action

-- What every op has (`_Op`), and what it does. How the op was reconciled is shown in the diff only
-- and left out.
pub record Op : Type 0 where
  pub title : String
  pub rationale : String
  pub trust : Trust
  pub origin : Origin
  pub action : Action

-- `OP_LABELS` and `op_label`.
abbrev pub action_label : Action → WriteOp
action_label (Action.create_item _) = WriteOp.create
action_label (Action.update_item _ _) = WriteOp.update
action_label (Action.set_item_state _ _) = WriteOp.set_state
action_label (Action.supersede_item _) = WriteOp.supersede
action_label (Action.correct_item _) = WriteOp.correct
action_label (Action.fulfil_intention _) = WriteOp.fulfil
action_label (Action.delete_item _) = WriteOp.delete
action_label (Action.restore_item _) = WriteOp.restore
action_label (Action.link_items _) = WriteOp.link
action_label (Action.unlink_items _) = WriteOp.unlink
action_label (Action.attach_entity _) = WriteOp.link
action_label (Action.detach_entity _) = WriteOp.unlink
action_label (Action.upsert_entity _) = WriteOp.upsert_entity
action_label (Action.delete_entity _) = WriteOp.delete
action_label (Action.relate_entities _) = WriteOp.relate
action_label (Action.unrelate_entities _) = WriteOp.unrelate
action_label (Action.set_trigger_state _ _) = WriteOp.set_state
action_label (Action.update_trigger _ _) = WriteOp.update

abbrev pub op_label : Op → WriteOp
op_label op = action_label op.action
