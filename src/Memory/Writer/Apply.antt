-- ===== src/Memory/Writer/Apply.antt =====
-- `_apply` of memory/writer.py: one case for each op, and the rows that it logged.
use nd_mind.Base.{ℕ, List, []}
use nd_mind.Memory.Records.{WriteLogRecord}
use nd_mind.Memory.Ops.{Action, Op}
use nd_mind.Memory.Exec.{Exec, ◌>>=◌, pure}
use nd_mind.Memory.Writer.Turn.{RowLog, Turn}
use nd_mind.Memory.Writer.Facts.{item_changes}
use nd_mind.Memory.Writer.Items.{change_item, correct, create_item, fulfil, supersede}
use nd_mind.Memory.Writer.Graph.{
  attach, change_trigger, delete_entity, detach, link_items, relate, state_change, unlink_items,
  unrelate, upsert_entity,
}

abbrev pub apply_action : Turn → Action → RowLog → Exec RowLog
apply_action turn (Action.create_item c) log = create_item turn c log
apply_action turn (Action.update_item i c) log =
    change_item turn i (item_changes (Action.update_item i c)) log
apply_action turn (Action.set_item_state i s) log =
    change_item turn i (item_changes (Action.set_item_state i s)) log
apply_action turn (Action.supersede_item s) log = supersede turn s log
apply_action turn (Action.correct_item c) log = correct turn c log
apply_action turn (Action.fulfil_intention f) log = fulfil turn f log
apply_action turn (Action.delete_item i) log =
    change_item turn i (item_changes (Action.delete_item i)) log
apply_action turn (Action.restore_item i) log =
    change_item turn i (item_changes (Action.restore_item i)) log
apply_action turn (Action.link_items l) log = link_items turn l log
apply_action turn (Action.unlink_items i) log = unlink_items i log
apply_action turn (Action.attach_entity a) log = attach turn a log
apply_action turn (Action.detach_entity i) log = detach i log
apply_action turn (Action.upsert_entity u) log = upsert_entity turn u log
apply_action turn (Action.delete_entity i) log = delete_entity turn i log
apply_action turn (Action.relate_entities r) log = relate turn r log
apply_action turn (Action.unrelate_entities i) log = unrelate i log
apply_action turn (Action.set_trigger_state i s) log = change_trigger turn i (state_change s) log
apply_action turn (Action.update_trigger i c) log = change_trigger turn i c log

abbrev pub empty_log : Turn → Op → ℕ → RowLog
empty_log turn op seq = record { turn = turn; op = op; seq = seq; rows = [] }

-- `_apply`
unfoldable pub apply : Turn → Op → ℕ → Exec (List WriteLogRecord)
apply turn op seq = do log ← apply_action turn op.action (empty_log turn op seq); pure log.rows
