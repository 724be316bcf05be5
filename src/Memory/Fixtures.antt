-- ===== src/Memory/Fixtures.antt =====
-- A small workspace and a turn, for tests.
use nd_mind.Base.{ℕ, String, false, none, some, List, [], ◌∷◌}
use nd_mind.Core.{
  EntityKind, EntityRole, ItemStatus, Kind, Modality, Origin, Sensitivity, Source, Trust,
}
use nd_mind.Memory.Records.{EntityRecord, EntityStatus, ItemContent}
use nd_mind.Memory.Changes.{no_changes}
use nd_mind.Memory.Ops.{Action, Op}
use nd_mind.Memory.Tables.{Tables}
use nd_mind.Memory.Writer.Turn.{Turn}
use nd_mind.Memory.Writer.Commit.{Writer}

abbrev pub fact : ItemContent
fact = record {
  status = ItemStatus.active;
  source = Source.user_message;
  trust = Trust.user_stated;
  kind = Kind.fact;
  state = "current";
  text = "lives in Pune";
  title = "home";
  category_id = none;
  subject_entity_id = none;
  predicate = none;
  mentioned_at = 10;
  occurred_start = none;
  occurred_end = none;
  time_precision = none;
  rrule = none;
  due_at = none;
  valid_from = none;
  valid_to = none;
  modality = Modality.asserted;
  confidence = 1000000;
  sensitivity = Sensitivity.normal;
  access_count = 0;
  last_accessed_at = none;
  in_core = false;
  core_confirmed_at = none;
  in_quick = false;
  quick_reason = none;
  quick_until = none;
  details = λ _. none;
}

abbrev pub me : EntityRecord
me = record {
  id = 1;
  workspace_id = 7;
  created_at = 0;
  updated_at = 0;
  created_by_turn_id = none;
  updated_by_turn_id = none;
  content = record {
    kind = EntityKind.self;
    name = "me";
    aliases = [];
    labels = [];
    is_key = false;
    attributes = "{}";
    summary = none;
    summary_updated_at = none;
    status = EntityStatus.active;
  };
}

abbrev pub empty : Tables
empty = record {
  items = [];
  entities = (1, me) ∷ [];
  item_entities = [];
  links = [];
  relations = [];
  triggers = [];
  categories = [];
  vocab = [];
  write_log = [];
  held = [];
  versions = [];
}

abbrev pub turn : Turn
turn = record {
  turn_id = 100;
  workspace_id = 7;
  kind = "user";
  now = 50;
  bulk_threshold = 5;
  core_token_budget = 1500;
  confirmed = false;
  store_workspace = 7;
  new_id = λ n. n;
  seq_base = 0;
}

abbrev pub by_user : String → Action → Op
by_user title action = record {
  title = title;
  rationale = "said so";
  trust = Trust.user_stated;
  origin = Origin.user_message;
  action = action;
}

abbrev pub create : ℕ → ItemContent → Action
create id content = Action.create_item (record {
  item_id = id;
  item = content;
  entities = record { row_id = 30; entity_id = 1; role = EntityRole.about } ∷ [];
  triggers = [];
  category_slug = some "home/city";
  category_name = none;
})

-- Three ops: a new fact, one that is a secret, and a change of the first.
abbrev pub ops : List Op
ops =
    by_user "home" (create 20 fact)
    ∷ by_user "pin" (create 21 (record fact { sensitivity = Sensitivity.secret }))
    ∷ by_user "home" (Action.update_item 20 (record no_changes { text = some "lives in Goa" }))
    ∷ []

abbrev pub writer : Writer
writer = record { turn = turn; ops = ops; vocab = []; committed = false }
