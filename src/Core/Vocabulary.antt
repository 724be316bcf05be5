-- ===== src/Core/Vocabulary.antt =====
-- The closed vocabularies of core/memory_model.py, and the Boolean tests that the code makes on
-- them by `is`.

pub data Kind : Type 0 where
  fact preference episode plan task intention resource note rule pattern : Kind

pub data Source : Type 0 where
  user_message link file derived : Source

pub data Trust : Type 0 where
  user_stated content_derived : Trust

pub data ItemStatus : Type 0 where
  active archived deleted : ItemStatus

pub data Modality : Type 0 where
  asserted planned hypothetical reported : Modality

pub data Sensitivity : Type 0 where
  normal personal sensitive secret : Sensitivity

pub data TimePrecision : Type 0 where
  datetime day month year : TimePrecision

pub data EntityKind : Type 0 where
  self person place org thing work topic project list : EntityKind

pub data EntityRole : Type 0 where
  about with for by at owner part_of : EntityRole

pub data LinkType : Type 0 where
  supersedes fulfils part_of follows because evidence_for duplicate_of derived_from gift_for_event
        corrects :
      LinkType

pub data TriggerOn : Type 0 where
  time person place topic situation : TriggerOn

pub data TriggerState : Type 0 where
  pending fired done cancelled expired : TriggerState

pub data VocabKind : Type 0 where
  subtype predicate relation : VocabKind

pub data WriteOp : Type 0 where
  create update link unlink delete restore supersede fulfil set_state upsert_entity relate unrelate
        correct :
      WriteOp

pub data TargetType : Type 0 where
  item entity trigger link item_entity relation : TargetType

pub data Layer : Type 0 where
  core quick archive : Layer

-- Where an op came from (`Origin` of memory/ops.py).
pub data Origin : Type 0 where
  user_message ui_edit content system undo confirm : Origin
