-- ===== src/Finance/Steps.antt =====
-- What may happen to the finance tables, in any order: the issuer asks (FinanceAuthorizations), a provider
-- reports (FinanceEvents), and the worker takes an operation, asks after one, or takes back a lease
-- (FinanceWorker). Each step names the arguments of its call; those of two calls are independent.
pub mod Deposits
pub mod Purchases
mod Tests
use bonde_backend.Finance.Authorizations.Safety.{authorize-IsKept}
use bonde_backend.Finance.Worker.Reconcile.{reconcile_operation, Questions}
use bonde_backend.Finance.Events.Inbox.{process_event, Answers}
use bonde_backend.Finance.Ledger.Sums.{total}
use bonde_backend.Finance.Worker.Runs.{reconcile_operation-Leaves, process_operation-Leaves}
use bonde_backend.Finance.Authorizations.{answer, authorize}
use bonde_backend.Finance.Types.{Currency}
use bonde_backend.Finance.Events.Runs.{process_event-IsKept}
use bonde_backend.Finance.Requests.{RawAuthorization}
use bonde_backend.Finance.Ledger.Accounts.{IsValid}
use bonde_backend.Finance.Kept.{IsKept-trans, IsKept-refl, IsKept}
use bonde_backend.Finance.Runtime.{Runtime}
use bonde_backend.Finance.Worker.Queue.{process_operation, Replies, expire_leases}
use bonde_backend.Finance.Events.{receive}
use bonde_backend.Finance.Database.{Operation, InboxRow, EventType, Database}
use bonde_backend.Common.{Option, Bool, ℕ, refl, ◌≡◌}

pub data Step : Database → Database → Type 0 where
  authorizes :
      (rt : Runtime) (raw : RawAuthorization) (now : ℕ) (db : Database)
      → Step db (authorize rt raw now db).1
  receives :
      (fresh : ℕ) (safe_haven : Bool) (type : EventType) (reference id : ℕ) (session : Option ℕ)
      (db : Database)
      → Step db (receive fresh safe_haven type reference id session db)
  handles :
      (rt : Runtime) (row : InboxRow) (answers : Answers) (now : ℕ) (db : Database)
      → Step db (process_event rt row answers now db)
  processes :
      (rt : Runtime) (replies : Replies) (id now : ℕ) (db : Database)
      → Step db (process_operation rt replies id now db).0
  reconciles :
      (rt : Runtime) (ask : Questions) (op : Operation) (now : ℕ) (db : Database)
      → Step db (reconcile_operation rt ask op now db).0
  expires : (now : ℕ) (db : Database) → Step db (expire_leases now db)

infixr 5 ◌∷ₛ◌
pub data Steps : Database → Database → Type 0 where
  stop : {db : Database} → Steps db db
  ◌∷ₛ◌ : {db db₁ db₂ : Database} → Step db db₁ → Steps db₁ db₂ → Steps db db₂

Step-IsKept : {db db' : Database} → Step db db' → IsKept db.ledger db'.ledger
unfolding expire_leases receive
Step-IsKept (authorizes rt raw now db) = authorize-IsKept rt raw now db
Step-IsKept (receives fresh safe_haven type reference id session db) = IsKept-refl db.ledger
Step-IsKept (handles rt row answers now db) = process_event-IsKept rt row answers now db
Step-IsKept (processes rt replies id now db) = process_operation-Leaves rt replies id now db
Step-IsKept (reconciles rt ask op now db) = reconcile_operation-Leaves rt ask op now db
Step-IsKept (expires now db) = IsKept-refl db.ledger

pub Steps-IsKept : {db db' : Database} → Steps db db' → IsKept db.ledger db'.ledger
Steps-IsKept (stop {db = db}) = IsKept-refl db.ledger
Steps-IsKept (step ∷ₛ steps) = IsKept-trans (Step-IsKept step) (Steps-IsKept steps)

-- After any sequence of purchases, reports and operations, in any order and whatever the providers answer,
-- a valid ledger is valid, and the sum of all balances in each currency is what it was: no call makes money
-- or loses it, also when it throws.
pub Steps-conserve :
    {db db' : Database}
    → Steps db db'
    → IsValid db.ledger
    → IsValid db'.ledger
      × ((c : Currency) → total c db'.ledger.accounts ≡ total c db.ledger.accounts)
Steps-conserve steps v = let kept = Steps-IsKept steps in (kept.valid v, kept.conserved v)
