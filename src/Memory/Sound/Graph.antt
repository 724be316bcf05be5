-- ===== src/Memory/Sound/Graph.antt =====
-- The operations on links, entities, relations and triggers leave the items alone.
use nd_mind.Base.{ℕ, ◌≡◌, arith}
use nd_mind.Memory.Ops.{AttachEntity, LinkItems, RelateEntities, TriggerChanges, UpsertEntity}
use nd_mind.Memory.Exec.{Tx}
use nd_mind.Memory.Tables.{
  delete_item_entity, delete_link, delete_relation, insert_item_entity, insert_link,
  insert_relation, put_entity, put_trigger,
}
use nd_mind.Memory.Writer.Turn.{RowLog, Turn}
use nd_mind.Memory.Writer.Graph.{
  attach, change_trigger, delete_entity, detach, link_items, relate, unlink_items, unrelate,
  upsert_entity,
}

module _ (turn : Turn) (log : RowLog) (tx : Tx) where
  pub items-link_items :
      (op : LinkItems) → (link_items turn op log tx).1.tables.items ≡ tx.tables.items
  unfolding link_items insert_link
  items-link_items op = ground arith

  pub items-attach : (op : AttachEntity) → (attach turn op log tx).1.tables.items ≡ tx.tables.items
  unfolding attach insert_item_entity
  items-attach op = ground arith

  pub items-upsert_entity :
      (op : UpsertEntity) → (upsert_entity turn op log tx).1.tables.items ≡ tx.tables.items
  unfolding upsert_entity put_entity
  items-upsert_entity op = ground arith

  pub items-delete_entity : (i : ℕ) → (delete_entity turn i log tx).1.tables.items ≡ tx.tables.items
  unfolding delete_entity put_entity
  items-delete_entity i = ground arith

  pub items-relate :
      (op : RelateEntities) → (relate turn op log tx).1.tables.items ≡ tx.tables.items
  unfolding relate insert_relation
  items-relate op = ground arith

  pub items-change_trigger :
      (i : ℕ) (c : TriggerChanges)
      → (change_trigger turn i c log tx).1.tables.items ≡ tx.tables.items
  unfolding change_trigger put_trigger
  items-change_trigger i c = ground arith

module _ (log : RowLog) (tx : Tx) (i : ℕ) where
  pub items-unlink_items : (unlink_items i log tx).1.tables.items ≡ tx.tables.items
  unfolding unlink_items delete_link
  items-unlink_items = ground arith

  pub items-detach : (detach i log tx).1.tables.items ≡ tx.tables.items
  unfolding detach delete_item_entity
  items-detach = ground arith

  pub items-unrelate : (unrelate i log tx).1.tables.items ≡ tx.tables.items
  unfolding unrelate delete_relation
  items-unrelate = ground arith
