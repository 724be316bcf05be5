-- ===== src/Memory/Sound/Step.antt =====
-- One op of a commit keeps the invariant: the policy lets no secret through.
use nd_mind.Base.{ℕ, Bool, not, some, ◌≡◌, ◌≢◌, arith, List, any, ◌==◌}
use nd_mind.Base.Dict.{lookup}
use nd_mind.Core.{Decision, Sensitivity}
use nd_mind.Policy.Facts.{OpFacts, PolicyContext}
use nd_mind.Policy.Evaluate.{evaluate}
use nd_mind.Policy.Guarantees.{evaluate-secret}
use nd_mind.Memory.Records.{ItemRecord}
use nd_mind.Memory.Ops.{Action, Op}
use nd_mind.Memory.Tables.{Tables}
use nd_mind.Memory.Exec.{Exec, Outcome, Tx}
use nd_mind.Memory.Writer.Turn.{RowLog, Turn}
use nd_mind.Memory.Exec.Rules.{Ensures}
use nd_mind.Memory.Writer.Graph.{
  attach, change_trigger, delete_entity, detach, link_items, relate, state_change, unlink_items,
  unrelate, upsert_entity,
}
use nd_mind.Memory.Writer.Facts.{facts_for, facts_on, create_facts, item_changes, item_facts}
use nd_mind.Memory.Writer.Apply.{apply_action}
use nd_mind.Memory.Sound.Items.{IsSound, same_items-IsSound}
use nd_mind.Memory.Sound.Graph.{
  items-link_items, items-attach, items-upsert_entity, items-delete_entity, items-relate,
  items-change_trigger, items-unlink_items, items-detach, items-unrelate,
}
use nd_mind.Memory.Sound.Ops.{Keeps, Anything, change_item-Keeps}
use nd_mind.Memory.Sound.Create.{create_item-Keeps, supersede-Keeps, correct-Keeps, fulfil-Keeps}

-- The action brings in no secret: neither as a new item nor by a change of a stored one.
abbrev pub IsClean : Action → Tables → Type 0
IsClean (Action.create_item c) t = c.item.sensitivity ≢ Sensitivity.secret
IsClean (Action.update_item k c) t =
    (b : ItemRecord) → lookup k t.items ≡ some b → c.sensitivity ≢ some Sensitivity.secret
IsClean _ t = Unit

IsSound-anyway {ℓ} :
    {A : Type ℓ} (o : Outcome A) (tx : Tx)
    → IsSound tx.tables
    → Ensures
        (λ a tx'. IsSound tx'.tables × Anything a)
        (λ tx'. IsSound tx'.tables)
        (λ tx'. IsSound tx'.tables)
        o
        tx
IsSound-anyway (Outcome.ok a) tx s = (s, tt)
IsSound-anyway (Outcome.skip r) tx s = s
IsSound-anyway (Outcome.fail e) tx s = s

-- A step that leaves the items alone keeps the invariant.
same-Keeps {ℓ} :
    {A : Type ℓ} (m : Exec A) (tx : Tx)
    → (m tx).1.tables.items ≡ tx.tables.items
    → IsSound tx.tables
    → Keeps Anything m tx
same-Keeps m tx e s = IsSound-anyway (m tx).0 (m tx).1 (same_items-IsSound e s)

pub apply_action-Keeps :
    (turn : Turn) (a : Action) (log : RowLog) (tx : Tx)
    → IsSound tx.tables
    → IsClean a tx.tables
    → Keeps Anything (apply_action turn a log) tx
unfolding item_changes
apply_action-Keeps turn (Action.create_item c) log tx s h = create_item-Keeps turn c log tx s h
apply_action-Keeps turn (Action.update_item i c) log tx s h = change_item-Keeps turn i c log tx s h
apply_action-Keeps turn (Action.set_item_state i st) log tx s h =
    change_item-Keeps turn i _ log tx s (λ b e p. cc)
apply_action-Keeps turn (Action.supersede_item o) log tx s h = supersede-Keeps turn o log tx s
apply_action-Keeps turn (Action.correct_item o) log tx s h = correct-Keeps turn o log tx s
apply_action-Keeps turn (Action.fulfil_intention o) log tx s h = fulfil-Keeps turn o log tx s
apply_action-Keeps turn (Action.delete_item i) log tx s h =
    change_item-Keeps turn i _ log tx s (λ b e p. cc)
apply_action-Keeps turn (Action.restore_item i) log tx s h =
    change_item-Keeps turn i _ log tx s (λ b e p. cc)
apply_action-Keeps turn (Action.link_items l) log tx s h =
    same-Keeps (link_items turn l log) tx (items-link_items turn log tx l) s
apply_action-Keeps turn (Action.unlink_items i) log tx s h =
    same-Keeps (unlink_items i log) tx (items-unlink_items log tx i) s
apply_action-Keeps turn (Action.attach_entity a) log tx s h =
    same-Keeps (attach turn a log) tx (items-attach turn log tx a) s
apply_action-Keeps turn (Action.detach_entity i) log tx s h =
    same-Keeps (detach i log) tx (items-detach log tx i) s
apply_action-Keeps turn (Action.upsert_entity u) log tx s h =
    same-Keeps (upsert_entity turn u log) tx (items-upsert_entity turn log tx u) s
apply_action-Keeps turn (Action.delete_entity i) log tx s h =
    same-Keeps (delete_entity turn i log) tx (items-delete_entity turn log tx i) s
apply_action-Keeps turn (Action.relate_entities r) log tx s h =
    same-Keeps (relate turn r log) tx (items-relate turn log tx r) s
apply_action-Keeps turn (Action.unrelate_entities i) log tx s h =
    same-Keeps (unrelate i log) tx (items-unrelate log tx i) s
apply_action-Keeps turn (Action.set_trigger_state i st) log tx s h =
    same-Keeps (change_trigger turn i (state_change st) log) tx
      (items-change_trigger turn log tx i (state_change st)) s
apply_action-Keeps turn (Action.update_trigger i c) log tx s h =
    same-Keeps (change_trigger turn i c log) tx (items-change_trigger turn log tx i c) s

-- Facts that name a secret are blocked.
pub allowed-no_secret :
    (f : OpFacts) (ctx : PolicyContext)
    → (evaluate f ctx).decision ≡ Decision.allowed
    → f.sensitivity ≢ Sensitivity.secret
allowed-no_secret f ctx a h = let e = evaluate-secret f ctx h in cc

-- What the policy allows is clean.
update-no_secret :
    (op : Op) (a : Action) (b : ItemRecord) (existed : Bool)
    → (item_facts op a b existed).sensitivity ≢ Sensitivity.secret
    → (item_changes a).sensitivity ≢ some Sensitivity.secret
unfolding item_facts
update-no_secret op a b existed h = ground arith

pub facts-IsClean :
    (op : Op) (a : Action) (t : Tables) (created : List ℕ)
    → (facts_for a op t created).sensitivity ≢ Sensitivity.secret
    → IsClean a t
unfolding facts_on create_facts
facts-IsClean op (Action.create_item c) t created h = h
facts-IsClean op (Action.update_item k c) t created h = λ b e.
    let n = not (any (λ i. i == k) created) in
    let h' : (item_facts op (Action.update_item k c) b n).sensitivity ≢ Sensitivity.secret =
      rw e at h in
    unfold item_changes in update-no_secret op (Action.update_item k c) b n h'
facts-IsClean op _ t created h = tt
