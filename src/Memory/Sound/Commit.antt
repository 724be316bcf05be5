-- ===== src/Memory/Sound/Commit.antt =====
-- A commit keeps the invariant, whatever its ops are.
use nd_mind.Base.{ℕ, not, ◌∙◌, ltb, ◌&&◌, ◌≡◌, refl, arith, Bool-cases, inl, inr, List, [], ◌∷◌}
use nd_mind.Policy.Facts.{PolicyContext}
use nd_mind.Memory.Records.{WriteLogRecord}
use nd_mind.Memory.Ops.{Op}
use nd_mind.Memory.Tables.{
  Tables, HeldWriteRecord, insert_held_write, insert_version, insert_write_log,
}
use nd_mind.Memory.Exec.{Outcome, Tx}
use nd_mind.Memory.Exec.Rules.{stays_bind}
use nd_mind.Memory.Writer.Turn.{Turn}
use nd_mind.Memory.Writer.Facts.{created_items}
use nd_mind.Memory.Writer.Commit.{
  CommitResult, step, run_ops, apply_all, hold_everything, store_vocab, write_versions, transaction,
  commit, close, Writer, VocabEntry, nothing_done, context_of, rows_of, continued, store_held,
  version_row,
}
use nd_mind.Memory.Sound.Items.{IsSound, same_items-IsSound}
use nd_mind.Memory.Sound.Round.{step-IsSound}

run_ops-IsSound :
    (turn : Turn) (created : List ℕ) (ctx : PolicyContext) (ops : List Op) (seq : ℕ)
    (result : CommitResult) (tx : Tx)
    → IsSound tx.tables
    → IsSound (run_ops turn created ctx ops seq result tx).1.tables
unfolding run_ops
run_ops-IsSound turn created ctx [] seq result tx s = s
run_ops-IsSound turn created ctx (op ∷ ops) seq result tx s =
    stays_bind IsSound (step turn created ctx op seq result)
      (λ p. run_ops turn created ctx ops p.0 p.1) tx
      (step-IsSound turn created ctx op seq result tx s)
      (λ p u s'. run_ops-IsSound turn created ctx ops p.0 p.1 u s')

apply_all-IsSound :
    (turn : Turn) (ops : List Op) (tx : Tx)
    → IsSound tx.tables
    → IsSound (apply_all turn ops tx).1.tables
unfolding apply_all
apply_all-IsSound turn ops tx s =
    let ctx = context_of turn ops in
    elim (Bool-cases (not turn.confirmed && ltb turn.bulk_threshold ctx.edited_items)) [
      | inl many ↦ rw many (unfold hold_everything in s)
      | inr few ↦ rw few (run_ops-IsSound turn (created_items ops) ctx ops 0 nothing_done tx s)
    ]

store_vocab-IsSound :
    (turn : Turn) (es : List VocabEntry) (tx : Tx)
    → IsSound tx.tables
    → IsSound (store_vocab turn es tx).1.tables
unfolding store_vocab
store_vocab-IsSound turn [] tx s = s
store_vocab-IsSound turn (e ∷ es) tx s =
    store_vocab-IsSound turn es _ (same_items-IsSound (ground arith) s)

items-store_held : (hs : List HeldWriteRecord) (t : Tables) → (store_held hs t).items ≡ t.items
unfolding insert_held_write
items-store_held [] t = refl
items-store_held (h ∷ hs) t = items-store_held hs (insert_held_write h t)

items-version_row :
    (turn : Turn) (row : WriteLogRecord) (t : Tables) → (version_row turn row t).items ≡ t.items
unfolding insert_version
items-version_row turn row t = ground arith

items-write_versions :
    (turn : Turn) (rows : List WriteLogRecord) (t : Tables)
    → (write_versions turn rows t).items ≡ t.items
unfolding write_versions
items-write_versions turn [] t = refl
items-write_versions turn (row ∷ rows) t =
    items-write_versions turn rows (version_row turn row t) ∙ items-version_row turn row t

-- The end of a transaction stores the log, the held writes and the versions.
tables_at_end :
    (turn : Turn) (r : CommitResult) (t : Tables)
    → IsSound t
    → IsSound (
        write_versions turn
          (rows_of r.outcomes)
          (store_held r.held (insert_write_log (rows_of r.outcomes) t)))
unfolding insert_write_log
tables_at_end turn r t s =
    same_items-IsSound
      (items-write_versions turn (rows_of r.outcomes)
          (store_held r.held (insert_write_log (rows_of r.outcomes) t))
        ∙ items-store_held r.held (insert_write_log (rows_of r.outcomes) t))
      s

transaction-IsSound :
    (turn : Turn) (vocab : List VocabEntry) (ops : List Op) (tx : Tx)
    → IsSound tx.tables
    → IsSound (transaction turn vocab ops tx).1.tables
unfolding transaction
transaction-IsSound turn vocab ops tx s =
    let turn' = continued turn tx.tables in
    stays_bind IsSound (store_vocab turn' vocab) _ tx (store_vocab-IsSound turn' vocab tx s)
      (λ _ u s'.
        stays_bind IsSound (apply_all turn' ops) _ u (apply_all-IsSound turn' ops u s')
          (λ r v s''. tables_at_end turn' r v.tables s''))

close-IsSound :
    (o : Outcome CommitResult) (tx : Tx) (t : Tables)
    → IsSound tx.tables
    → IsSound t
    → IsSound (close (o, tx) t).1
close-IsSound (Outcome.ok r) tx t s h = s
close-IsSound (Outcome.skip r) tx t s h = h
close-IsSound (Outcome.fail e) tx t s h = h

-- Whatever is committed, in whatever turn, confirmed or not, and whether the commit goes through
-- or fails: where every item of the items table had a lifecycle state of its kind and none was a
-- secret, the same holds of the items table afterwards. Held writes are not looked at.
pub commit-IsSound : (w : Writer) (t : Tables) → IsSound t → IsSound (commit w t).1.1
unfolding commit
commit-IsSound w t s = elim (Bool-cases w.committed) [
  | inl again ↦ rw again s
  | inr first ↦
      let start : Tx = record { tables = t; draws = 0 } in
      rw first (
        close-IsSound (transaction w.turn w.vocab w.ops start).0
          (transaction w.turn w.vocab w.ops start).1 t
          (transaction-IsSound w.turn w.vocab w.ops start s) s)
]
