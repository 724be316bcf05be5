-- ===== src/Memory/Sound/Hold.antt =====
-- A turn that edits too many items without a confirmation: memory/writer.py holds all of it.
use nd_mind.Base.{ℕ, true, false, not, ◌∙◌, ◌&&◌, ltb, ◌<◌, ◌≡◌, refl, arith, List, [], ◌∷◌}
use nd_mind.Memory.Records.{VocabRecord, WriteLogRecord}
use nd_mind.Memory.Ops.{Op}
use nd_mind.Memory.Tables.{
  HeldWriteRecord, Tables, insert_held_write, insert_version, insert_write_log, upsert_vocab,
}
use nd_mind.Memory.Exec.{Outcome, Tx}
use nd_mind.Memory.Exec.Rules.{stays_bind}
use nd_mind.Memory.Writer.Turn.{Turn}
use nd_mind.Memory.Writer.Commit.{
  CommitResult, VocabEntry, Writer, apply_all, close, commit, context_of, continued,
  hold_everything, rows_of, store_held, store_vocab, transaction, version_row, write_versions,
}

-- The tables of the memory itself are the same; the log, the held writes, the versions, the
-- categories and the vocabulary may differ.
abbrev pub SameMemory : Tables → Tables → Type 0
SameMemory a b =
    (b.items ≡ a.items)
    × (b.entities ≡ a.entities)
    × (b.item_entities ≡ a.item_entities)
    × (b.links ≡ a.links)
    × (b.relations ≡ a.relations)
    × (b.triggers ≡ a.triggers)

SameMemory-trans : (a b c : Tables) → SameMemory a b → SameMemory b c → SameMemory a c
SameMemory-trans a b c p q = (q.0 ∙ p.0, q.1 ∙ p.1, q.2 ∙ p.2, q.3 ∙ p.3, q.4 ∙ p.4, q.5 ∙ p.5)

store_held-SameMemory :
    (hs : List HeldWriteRecord) (a t : Tables) → SameMemory a t → SameMemory a (store_held hs t)
unfolding insert_held_write
store_held-SameMemory [] a t s = s
store_held-SameMemory (h ∷ hs) a t s = store_held-SameMemory hs a (insert_held_write h t) s

version_row-SameMemory :
    (turn : Turn) (row : WriteLogRecord) (t : Tables) → SameMemory t (version_row turn row t)
unfolding insert_version
version_row-SameMemory turn row t = ground arith

write_versions-SameMemory :
    (turn : Turn) (rows : List WriteLogRecord) (a t : Tables)
    → SameMemory a t
    → SameMemory a (write_versions turn rows t)
unfolding write_versions
write_versions-SameMemory turn [] a t s = s
write_versions-SameMemory turn (row ∷ rows) a t s =
    write_versions-SameMemory turn rows a (version_row turn row t)
      (SameMemory-trans a t (version_row turn row t) s (version_row-SameMemory turn row t))

upsert_vocab-SameMemory : (v : VocabRecord) (t : Tables) → SameMemory t (upsert_vocab v t)
unfolding upsert_vocab
upsert_vocab-SameMemory v t = ground arith

abbrev entry_record : Turn → VocabEntry → Tx → VocabRecord
entry_record turn e tx = record {
  id = turn.new_id tx.draws;
  workspace_id = turn.workspace_id;
  vocab = e.vocab;
  slug = e.slug;
  aliases = e.aliases;
}

store_vocab-SameMemory :
    (turn : Turn) (es : List VocabEntry) (a : Tables) (tx : Tx)
    → SameMemory a tx.tables
    → SameMemory a (store_vocab turn es tx).1.tables
unfolding store_vocab
store_vocab-SameMemory turn [] a tx s = s
store_vocab-SameMemory turn (e ∷ es) a tx s = store_vocab-SameMemory turn es a _ (
    SameMemory-trans a tx.tables (upsert_vocab (entry_record turn e tx) tx.tables) s
      (upsert_vocab-SameMemory (entry_record turn e tx) tx.tables))

apply_all-SameMemory :
    (turn : Turn) (ops : List Op) (tx : Tx) (a : Tables)
    → (not turn.confirmed && ltb turn.bulk_threshold (context_of turn ops).edited_items) ≡ true
    → SameMemory a tx.tables
    → SameMemory a (apply_all turn ops tx).1.tables
unfolding apply_all hold_everything
apply_all-SameMemory turn ops tx a e s = rw e s

is_bulk :
    (turn : Turn) (edited : ℕ)
    → turn.confirmed ≡ false
    → turn.bulk_threshold < edited
    → (not turn.confirmed && ltb turn.bulk_threshold edited) ≡ true
is_bulk turn edited c l = ground arith

tables_at_end :
    (turn : Turn) (r : CommitResult) (a t : Tables)
    → SameMemory a t
    → SameMemory a (
        write_versions turn
          (rows_of r.outcomes)
          (store_held r.held (insert_write_log (rows_of r.outcomes) t)))
unfolding insert_write_log
tables_at_end turn r a t s =
    write_versions-SameMemory turn (rows_of r.outcomes) a _ (store_held-SameMemory r.held a _ s)

transaction-SameMemory :
    (turn : Turn) (vocab : List VocabEntry) (ops : List Op) (tx : Tx)
    → turn.confirmed ≡ false
    → turn.bulk_threshold < (context_of turn ops).edited_items
    → SameMemory tx.tables (transaction turn vocab ops tx).1.tables
unfolding transaction
transaction-SameMemory turn vocab ops tx c l =
    let turn' = continued turn tx.tables in
    stays_bind (SameMemory tx.tables) (store_vocab turn' vocab) _ tx
      (store_vocab-SameMemory turn' vocab tx.tables tx (refl, refl, refl, refl, refl, refl))
      (λ _ u s'.
        stays_bind (SameMemory tx.tables) (apply_all turn' ops) _ u
          (apply_all-SameMemory turn' ops u tx.tables
            (is_bulk turn' (context_of turn' ops).edited_items c l) s')
          (λ r v s''. tables_at_end turn' r tx.tables v.tables s''))

close-SameMemory :
    (o : Outcome CommitResult) (tx : Tx) (t : Tables)
    → SameMemory t tx.tables
    → SameMemory t (close (o, tx) t).1
close-SameMemory (Outcome.ok r) tx t s = s
close-SameMemory (Outcome.skip r) tx t s = (refl, refl, refl, refl, refl, refl)
close-SameMemory (Outcome.fail e) tx t s = (refl, refl, refl, refl, refl, refl)

-- The first commit of an unconfirmed turn that edits more items than the threshold, whatever its ops
-- are, leaves items, entities, their links and relations, and triggers as they were.
pub commit-SameMemory :
    (w : Writer) (t : Tables)
    → w.committed ≡ false
    → w.turn.confirmed ≡ false
    → w.turn.bulk_threshold < (context_of w.turn w.ops).edited_items
    → SameMemory t (commit w t).1.1
unfolding commit
commit-SameMemory w t first c l =
    let start : Tx = record { tables = t; draws = 0 } in
    rw first (
      close-SameMemory (transaction w.turn w.vocab w.ops start).0
        (transaction w.turn w.vocab w.ops start).1 t
        (transaction-SameMemory w.turn w.vocab w.ops start c l))
