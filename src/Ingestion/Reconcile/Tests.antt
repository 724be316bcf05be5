-- ===== src/Ingestion/Reconcile/Tests.antt =====
-- A stored wish and two drafts, with a model that chooses the first candidate.
use nd_mind.Base.{none, some, List, [], ◌∷◌, ◌≡◌, refl}
use nd_mind.Base.Dict.{lookup, insert}
use nd_mind.Core.Vocabulary.{Kind, EntityKind, EntityRole}
use nd_mind.Memory.Records.{ItemRecord, ItemEntityRecord}
use nd_mind.Memory.Fixtures.{fact}
use nd_mind.Ingestion.Reconcile.{
  Draft, ReconcileDecision, Reader, Texts, Reconciler, things, same_value, adds_detail, ask,
  first_wish, find_same, episode, decided,
}
use nd_mind.Ingestion.Reconcile.Decide.{
  like_wish, same_wish, similar, close_to, candidates_of, is_candidate, decide,
}
use nd_mind.Ingestion.Reconcile.Settled.{IsSettled, decide-IsSettled}
use nd_mind.Ingestion.Reconcile.Episodes.{EpisodeDecision, decide-EpisodeDecision}

abbrev wish : ItemRecord
wish = record {
  id = 40;
  workspace_id = 7;
  created_at = 1;
  updated_at = 1;
  created_by_turn_id = 90;
  updated_by_turn_id = 90;
  content = record fact { kind = Kind.intention; state = "wanted"; text = "watch the film" };
}

abbrev link : ItemEntityRecord
link = record {
  id = 50;
  workspace_id = 7;
  item_id = 40;
  entity_id = 3;
  role = EntityRole.about;
  created_by_turn_id = 90;
}

abbrev wishes_of : Kind → List ItemRecord
wishes_of Kind.intention = wish ∷ []
wishes_of _ = []

abbrev reader : Reader
reader = record {
  find_items = λ q. wishes_of q.kind;
  items = λ ids. wish ∷ [];
  item_entities = λ ids. link ∷ [];
  similar_items = λ v. (40, 900000) ∷ (41, 10) ∷ [];
}

abbrev texts : Texts
texts = record { squeeze = λ s. s; trim = λ s. s; value_of = λ v. none; attributes_of = λ a. [] }

abbrev reconciler : Reconciler
reconciler = record {
  reader = reader;
  texts = texts;
  threshold = 500000;
  embed = some (λ s. some 1);
  choose = some (λ d cs. (ReconcileDecision.link, some 0, "the same film"));
}

abbrev draft : Kind → Draft
draft k = record {
  item_id = 60;
  content = record fact { kind = k; text = "the film is by a friend" };
  entities = record { entity_id = 3; role = EntityRole.about; kind = EntityKind.work } ∷ [];
}

runs : Unit {0}
unfolding things same_value adds_detail ask first_wish find_same episode like_wish same_wish similar
    close_to candidates_of is_candidate decide lookup insert
runs = tt

chosen : (decide reconciler (draft Kind.fact)).decision ≡ ReconcileDecision.link
unfolding runs
chosen = refl

chosen_score : (decide reconciler (draft Kind.fact)).score ≡ some 900000
unfolding runs
chosen_score = refl

fulfilled :
    decide reconciler (draft Kind.episode)
    ≡ decided ReconcileDecision.fulfil wish "episode about something on the wish list"
unfolding runs
fulfilled = refl

decide-IsSettled_example : IsSettled reader 60 (decide reconciler (draft Kind.fact))
decide-IsSettled_example = decide-IsSettled reconciler (draft Kind.fact) refl

decide-EpisodeDecision_example :
    EpisodeDecision reader (draft Kind.episode) (decide reconciler (draft Kind.episode))
decide-EpisodeDecision_example = decide-EpisodeDecision reconciler (draft Kind.episode) refl
