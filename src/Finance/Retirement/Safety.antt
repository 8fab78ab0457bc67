-- ===== src/Finance/Retirement/Safety.antt =====
-- The retirement of a card keeps the ledger sound.
use mathlib.Core.Option.{none}
use bonde_backend.Finance.Operations.Safety.{
  or_else-IsKept, transact-Leaves, return_allocation-Keeps, Leaves,
}
use bonde_backend.Finance.Providers.{RemoteStatus}
use bonde_backend.Finance.Kept.{IsKept-refl, call-Keeps, kept_rules, IsKept, Keeps}
use bonde_backend.Finance.Retirement.Process.{
  RetireReplies, retire_process, retire_at_issuer, retire_in_transaction,
}
use bonde_backend.Common.Text.{Text}
use bonde_backend.Finance.Database.{Operation, RetirementReason, Database, Card}
use bonde_backend.Finance.Runtime.{Runtime}
use bonde_backend.Finance.Ledger.{Store}
use bonde_backend.Finance.Retirement.{
  retire_now, enqueue, release, lease, ensure_due, mark_if, mark,
}
use bonde_backend.Common.{arith, some, Bool, Option, ℕ, ◌≡◌, true}

mark-ledger :
    (key fresh : ℕ) (card : Card) (reason : RetirementReason) (enqueues : Bool) (now : ℕ)
    (db : Database)
    → (mark key fresh card reason enqueues now db).ledger ≡ db.ledger
unfolding mark enqueue retire_now
mark-ledger key fresh card reason enqueues now db = ground arith

pub mark-IsKept :
    (s : Store) (key fresh : ℕ) (card : Card) (reason : RetirementReason) (enqueues : Bool)
    (now : ℕ) (db : Database)
    → IsKept s db.ledger
    → IsKept s (mark key fresh card reason enqueues now db).ledger
mark-IsKept s key fresh card reason enqueues now db kept =
    rw (mark-ledger key fresh card reason enqueues now db) kept

pub mark_if-IsKept :
    (s : Store) (key fresh : ℕ) (card : Card) (reason : Option RetirementReason) (now : ℕ)
    (db : Database)
    → IsKept s db.ledger
    → IsKept s (mark_if key fresh card reason now db).ledger
unfolding mark_if
mark_if-IsKept s key fresh card none now db kept = kept
mark_if-IsKept s key fresh card (some reason) now db kept =
    mark-IsKept s key fresh card reason true now db kept

pub ensure_due-Keeps :
    (parse : Text → Option ℕ) (month_start : ℕ → ℕ) (key fresh user card now : ℕ) (db : Database)
    → Keeps db.ledger (ensure_due parse month_start key fresh user card now db)
unfolding ensure_due
ensure_due-Keeps parse month_start key fresh user card now db = search (kept_rules, mark_if-IsKept)

pub lease-Keeps :
    (card operation now : ℕ) (db : Database) → Keeps db.ledger (lease card operation now db)
unfolding lease
lease-Keeps card operation now db = search kept_rules

module _ (rt : Runtime) where
  retire_in_transaction-Keeps :
      (op : Operation) (card : Card) (status : RemoteStatus) (db : Database)
      → Keeps db.ledger (retire_in_transaction rt op card status db)
  unfolding retire_in_transaction
  retire_in_transaction-Keeps op card status db =
      search (kept_rules, call-Keeps, return_allocation-Keeps) depth 8

  retire_at_issuer-Keeps :
      (replies : RetireReplies) (op : Operation) (card : ℕ) (db : Database)
      → Keeps db.ledger (retire_at_issuer rt replies op card db)
  unfolding retire_at_issuer
  retire_at_issuer-Keeps replies op card db =
      search (kept_rules, retire_in_transaction-Keeps) depth 8

  pub retire_process-Leaves :
      (replies : RetireReplies) (op : Operation) (card now : ℕ) (db : Database)
      → Leaves db.ledger (retire_process rt replies op card now db)
  unfolding retire_process release
  retire_process-Leaves replies op card now db =
      transact-Leaves db.ledger db (lease card op.id now db) _ (lease-Keeps card op.id now db)
        (IsKept-refl db.ledger)
        (λ leased kept.
          or_else-IsKept db.ledger leased.ledger (retire_at_issuer rt replies op card leased) _
            (retire_at_issuer-Keeps replies op card leased) kept kept)
