-- ===== src/Finance/Operations.antt =====
-- What the services that carry out an operation share: the rows they read and write, their postings, and
-- the return of a closed card's allocation to the wallet of its user. An update by an id that a foreign
-- key or a row already read guarantees does not throw.
pub mod Safety
pub mod Returns
mod Tests
use bonde_backend.Finance.Projections.{project_allocation_return}
use bonde_backend.Finance.Policy.{is_held}
use bonde_backend.Common.{false, true, [], ◌∷◌, if◌then◌else◌}
use bonde_backend.Common.{is_some}
use bonde_backend.Common.Int.{pos, ltb_ℤ, negate, ℤ}
use bonde_backend.Finance.Ledger.{
  reference_eq, post, Journal, hundredths, Posting, find_account, Kind, Store,
}
use bonde_backend.Common.Table.{find_first, count_where, update_many}
use bonde_backend.Common.Http.{◌>>=◌, other_error, ok, or_throw, err, Exception, Result}
use bonde_backend.Finance.Runtime.{Runtime}
use bonde_backend.Finance.Types.{wallet_key, card_key, AccountKey, Reference, Currency}
use bonde_backend.Finance.Database.{
  succeeded, held, Authorization, Card, InboxRow, Transaction, resume, InboxStatus,
  TransactionStatus, OperationStatus, Operation, Database,
}
use bonde_backend.Common.{◌&&◌, some, List, Bool, ◌==◌, none, Option, ℕ}

-- Writes that stand, and what was thrown after them.
abbrev pub Attempt : Type 0
Attempt = Database × Option Exception

-- `await` of a call that writes nothing when it throws, with the writes before it.
abbrev pub attempt : {A : Type 0} → Database → Result A → (A → Attempt) → Attempt
attempt db (err e) next = (db, some e)
attempt db (ok a) next = next a

-- `await this.prisma.$transaction(…)`, and then the rest.
abbrev pub transact : Database → Result Database → (Database → Attempt) → Attempt
transact db run next = attempt db run next

-- `try { await this.prisma.$transaction(…) } catch { … }`
abbrev pub or_else : Result Database → Database → Database
or_else (ok done) caught = done
or_else (err e) caught = caught

-- `if (value) …`, for a value that may be missing
abbrev pub when_some : {A : Type 0} → Option A → Database → (A → Result Database) → Result Database
when_some none db next = ok db
when_some (some a) db next = next a

abbrev pub finished : Database → Attempt
finished db = (db, none)

abbrev pub find_operation : ℕ → Database → Result Operation
find_operation id db =
    or_throw (find_first (λ (op : Operation). op.id == id) db.operations)
      (other_error "No FinanceOperation found")

abbrev pub is_succeeded : OperationStatus → Bool
is_succeeded status = elim status [ succeeded ↦ true | _ ↦ false ]

abbrev pub update_operation : ℕ → (Operation → Operation) → Database → Database
update_operation id f db = record db {
  operations = update_many (λ (op : Operation). op.id == id) f db.operations;
}

-- `{ status, leaseUntil: null }`
abbrev pub set_operation : ℕ → OperationStatus → Database → Database
set_operation id status db =
    update_operation id (λ (op : Operation). record op { status = status; lease_until = none }) db

abbrev pub set_transactions : ℕ → TransactionStatus → Database → Database
set_transactions id status db = record db {
  transactions =
      update_many (λ (t : Transaction). t.id == id)
        (λ (t : Transaction). record t { status = status }) db.transactions;
}

abbrev pub set_inbox : ℕ → InboxStatus → Database → Database
set_inbox id status db = record db {
  inbox =
      update_many (λ (row : InboxRow). row.id == id)
        (λ (row : InboxRow). record row { status = status }) db.inbox;
}

abbrev pub find_card : ℕ → Database → Result Card
find_card id db =
    or_throw (find_first (λ (c : Card). c.id == id) db.cards) (other_error "No Card found")

-- `financeAuthorization.count({ where: { cardId, status: 'HELD' } })`
abbrev pub count_held : ℕ → Database → ℕ
count_held card db =
    count_where (λ (a : Authorization). a.card_id == card && is_held a) db.authorizations

abbrev pub user_posting : ℕ → Currency → AccountKey → Kind → ℤ → Posting
user_posting user currency key kind amount = record {
  key = key;
  currency = currency;
  amount = hundredths amount;
  user_id = some user;
  kind = kind;
}

abbrev pub system_posting : Currency → AccountKey → Kind → ℤ → Posting
system_posting currency key kind amount = record {
  key = key;
  currency = currency;
  amount = hundredths amount;
  user_id = none;
  kind = kind;
}

abbrev pub with_ledger : Database → Store → Database
with_ledger db s = record db { ledger = s }

-- The account of a closed card, if it holds money.
abbrev pub allocation : ℕ → Currency → Store → Option ℤ
allocation card currency s = elim (find_account (card_key card currency) s.accounts) [
  | none ↦ none
  | some account ↦ if ltb_ℤ (pos 0) account.balance then some account.balance else none
]

abbrev pub return_postings : ℕ → ℕ → Currency → ℤ → List Posting
return_postings user card currency balance =
    user_posting user currency (card_key card currency) Kind.card (negate balance)
    ∷ user_posting user currency (wallet_key user currency) Kind.wallet balance
    ∷ []

module _ (rt : Runtime) where
  unfoldable pub return_balance :
      ℕ → ℕ → ℕ → Currency → Reference → Option ℤ → Database → Result Database
  return_balance id user card currency reference none db = ok db
  return_balance id user card currency reference (some balance) db =
      post rt.before rt.new_journal reference (return_postings user card currency balance) db.ledger
      >>= λ ledger.
          project_allocation_return id user card currency balance reference (with_ledger db ledger)

  -- `if (account?.balance.gt(0)) { await this.ledger.post(…); await projectAllocationReturn(…) }`; `id` is
  -- that of the feed's row.
  unfoldable pub return_allocation : ℕ → ℕ → ℕ → Currency → Reference → Database → Result Database
  return_allocation id user card currency reference db =
      return_balance id user card currency reference (allocation card currency db.ledger) db
