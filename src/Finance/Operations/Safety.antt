-- ===== src/Finance/Operations/Safety.antt =====
-- The parts that the handlers share keep the ledger sound.
use mathlib.Core.Bool.{true}
use bonde_backend.Common.{none, some, true, false, if◌then◌else◌}
use mathlib.Core.Option.{none}
use bonde_backend.Common.Http.{err, ok}
use bonde_backend.Finance.Kept.{
  then-Keeps, kept_rules, IsKept-refl, IsKept-trans, Keeps, moved-Keeps, ok-Keeps, IsKept,
  bind-Keeps,
}
use bonde_backend.Common.Http.{Result}
use bonde_backend.Common.Int.{ℤ}
use bonde_backend.Finance.Database.{Database, TransactionType}
use bonde_backend.Finance.Runtime.{Runtime}
use bonde_backend.Finance.Types.{Reference, Currency}
use bonde_backend.Finance.Operations.{
  when_some, or_else, transact, attempt, finished, Attempt, return_balance, allocation,
  return_allocation,
}
use bonde_backend.Finance.Ledger.{Store}
use bonde_backend.Finance.Projections.{project_allocation_return, project}
use bonde_backend.Common.{Bool, some, Option, ℕ}

pub project-Keeps :
    (id user : ℕ) (type : TransactionType) (amount : ℕ) (currency : Currency)
    (reference : Reference) (card : Option ℕ) (db : Database)
    → Keeps db.ledger (project id user type amount currency reference card db)
unfolding project
project-Keeps id user type amount currency reference card db = search kept_rules

pub project_allocation_return-Keeps :
    (id user card : ℕ) (currency : Currency) (amount : ℤ) (reference : Reference) (db : Database)
    → Keeps db.ledger (project_allocation_return id user card currency amount reference db)
unfolding project_allocation_return
project_allocation_return-Keeps id user card currency amount reference db = search kept_rules

module _ (rt : Runtime) where
  return_balance-Keeps :
      (id user card : ℕ) (currency : Currency) (reference : Reference) (found : Option ℤ)
      (db : Database)
      → Keeps db.ledger (return_balance rt id user card currency reference found db)
  unfolding return_balance
  return_balance-Keeps id user card currency reference none db = search kept_rules
  return_balance-Keeps id user card currency reference (some balance) db =
      search (kept_rules, moved-Keeps, project_allocation_return-Keeps)

  pub return_allocation-Keeps :
      (id user card : ℕ) (currency : Currency) (reference : Reference) (db : Database)
      → Keeps db.ledger (return_allocation rt id user card currency reference db)
  unfolding return_allocation
  return_allocation-Keeps id user card currency reference db =
      return_balance-Keeps id user card currency reference (allocation card currency db.ledger) db

pub or_else-IsKept :
    (s t : Store) (run : Result Database) (caught : Database)
    → Keeps t run
    → IsKept s t
    → IsKept s caught.ledger
    → IsKept s (or_else run caught).ledger
or_else-IsKept s t (ok done) caught h kept unmoved = IsKept-trans kept h
or_else-IsKept s t (err e) caught h kept unmoved = unmoved

pub when_some-Keeps :
    (s : Store) {A : Type 0} (value : Option A) (db : Database) (next : A → Result Database)
    → IsKept s db.ledger
    → ((a : A) → Keeps s (next a))
    → Keeps s (when_some value db next)
when_some-Keeps s none db next kept h = kept
when_some-Keeps s (some a) db next kept h = h a

-- Writes that stand, when the handler throws and when it does not.
abbrev pub Leaves : Store → Attempt → Type 0
Leaves s a = IsKept s a.0.ledger

module _ (s : Store) where
  pub finished-Leaves : (db : Database) → IsKept s db.ledger → Leaves s (finished db)
  finished-Leaves db kept = kept

  pub attempt-Leaves :
      {A : Type 0} (db : Database) (call : Result A) (next : A → Attempt)
      → IsKept s db.ledger
      → ((a : A) → Leaves s (next a))
      → Leaves s (attempt db call next)
  attempt-Leaves db (ok a) next kept h = h a
  attempt-Leaves db (err e) next kept h = kept

  pub transact-Leaves :
      (db : Database) (run : Result Database) (next : Database → Attempt)
      → Keeps db.ledger run
      → IsKept s db.ledger
      → ((after : Database) → IsKept s after.ledger → Leaves s (next after))
      → Leaves s (transact db run next)
  transact-Leaves db (ok after) next h kept k = k after (IsKept-trans kept h)
  transact-Leaves db (err e) next h kept k = kept

  pub if-Leaves :
      (b : Bool) (x y : Attempt) → Leaves s x → Leaves s y → Leaves s (if b then x else y)
  if-Leaves true x y hx hy = hx
  if-Leaves false x y hx hy = hy

pub ruleset attempt_rules = (transact-Leaves, attempt-Leaves, if-Leaves, IsKept-refl, IsKept-trans)
