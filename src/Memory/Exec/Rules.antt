-- ===== src/Memory/Exec/Rules.antt =====
-- Postconditions of the writer's steps, with a rule for each way to build a step.
use nd_mind.Memory.Tables.{Tables}
use nd_mind.Memory.Exec.{Exec, Outcome, Tx, ◌>>=◌, continue}

-- What holds where a step returns, where it skips its op, and where it fails.
abbrev pub Ensures {ℓ} :
    {A : Type ℓ} → (A → Tx → Type 0) → (Tx → Type 0) → (Tx → Type 0) → Outcome A → Tx → Type 0
Ensures Q S F (Outcome.ok a) tx = Q a tx
Ensures Q S F (Outcome.skip _) tx = S tx
Ensures Q S F (Outcome.fail _) tx = F tx

-- The postcondition of a step from a state.
abbrev pub After {ℓ} :
    {A : Type ℓ} → (A → Tx → Type 0) → (Tx → Type 0) → (Tx → Type 0) → Exec A → Tx → Type 0
After Q S F m tx = Ensures Q S F (m tx).0 (m tx).1

module _ {ℓ κ} {A : Type ℓ} {B : Type κ} (Q : A → Tx → Type 0) (R : B → Tx → Type 0)
    (S F : Tx → Type 0) where
  Ensures-continue :
      (o : Outcome A) (f : A → Exec B) (tx : Tx)
      → Ensures Q S F o tx
      → ((a : A) → Q a tx → After R S F (f a) tx)
      → Ensures R S F (continue o f tx).0 (continue o f tx).1
  Ensures-continue (Outcome.ok a) f tx q k = k a q
  Ensures-continue (Outcome.skip r) f tx q k = q
  Ensures-continue (Outcome.fail e) f tx q k = q

  -- One step, then the rest from any state that the step may leave.
  pub After-bind :
      (m : Exec A) (f : A → Exec B) (tx : Tx)
      → After Q S F m tx
      → ((a : A) (tx' : Tx) → Q a tx' → After R S F (f a) tx')
      → After R S F (m >>= f) tx
  After-bind m f tx q k = Ensures-continue (m tx).0 f (m tx).1 q (λ a. k a (m tx).1)

-- A property of the tables that both parts keep.
module _ {ℓ κ} {A : Type ℓ} {B : Type κ} (P : Tables → Type 0) where
  stays_continue :
      (o : Outcome A) (f : A → Exec B) (tx : Tx)
      → P tx.tables
      → ((a : A) → P (f a tx).1.tables)
      → P (continue o f tx).1.tables
  stays_continue (Outcome.ok a) f tx p k = k a
  stays_continue (Outcome.skip r) f tx p k = p
  stays_continue (Outcome.fail e) f tx p k = p

  pub stays_bind :
      (m : Exec A) (f : A → Exec B) (tx : Tx)
      → P (m tx).1.tables
      → ((a : A) (u : Tx) → P u.tables → P (f a u).1.tables)
      → P ((m >>= f) tx).1.tables
  stays_bind m f tx p k = stays_continue (m tx).0 f (m tx).1 p (λ a. k a (m tx).1 p)
