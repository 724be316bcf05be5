-- ===== src/Memory/Exec.antt =====
-- What a step of the writer does: it returns, skips its op, or fails the whole commit; and the
-- state it leaves. What was written before a skip stays written.
pub mod Rules
use nd_mind.Base.{ℕ, suc, String, Bool, true, false, Option, none, some, ◌≡◌, refl}
use nd_mind.Memory.Tables.{Tables}

-- The exceptions that leave the transaction.
pub data Error : Type 0 where
  unknown_fields invalid_state no_entity wrong_workspace already_committed : Error

pub data Outcome {ℓ} (A : Type ℓ) : Type ℓ where
  ok : A → Outcome A
  skip : String → Outcome A
  fail : Error → Outcome A

-- The working copy of the tables, and how many identifiers were drawn from `new_id`.
pub record Tx : Type 0 where
  pub tables : Tables
  pub draws : ℕ

abbrev pub Exec {ℓ} : Type ℓ → Type ℓ
Exec A = Tx → Outcome A × Tx

module _ {ℓ} {A : Type ℓ} where
  abbrev pub pure : A → Exec A
  pure a tx = (ok a, tx)

  abbrev pub raise : Error → Exec A
  raise e tx = (fail e, tx)

  abbrev pub give_up : String → Exec A
  give_up reason tx = (skip reason, tx)

  abbrev pub reads : (Tables → A) → Exec A
  reads f tx = (ok (f tx.tables), tx)

abbrev pub writes : (Tables → Tables) → Exec (Unit {0})
writes f tx = (ok tt, record tx { tables = f tx.tables })

module _ {ℓ κ} {A : Type ℓ} {B : Type κ} where
  abbrev pub continue : Outcome A → (A → Exec B) → Exec B
  continue (ok a) f tx = f a tx
  continue (skip r) f tx = (skip r, tx)
  continue (fail e) f tx = (fail e, tx)

  infixl 10 ◌>>=◌ ◌>>◌
  abbrev pub ◌>>=◌ : Exec A → (A → Exec B) → Exec B
  ◌>>=◌ m f tx = continue (m tx).0 f (m tx).1

  abbrev pub ◌>>◌ : Exec A → Exec B → Exec B
  ◌>>◌ m k = ◌>>=◌ m (λ _. k)

abbrev pub raise_if : Bool → Error → Exec (Unit {0})
raise_if true e = raise e
raise_if false e = pure tt

abbrev pub skip_if : Bool → String → Exec (Unit {0})
skip_if true reason = give_up reason
skip_if false reason = pure tt

-- The value of an option, or a skipped op.
abbrev pub or_skip {ℓ} : {A : Type ℓ} → Option A → String → Exec A
or_skip none reason = give_up reason
or_skip (some a) reason = pure a
