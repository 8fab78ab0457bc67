-- ===== src/Finance/Worker.antt =====
-- src/modules/finance/finance-worker.service.ts: the operations on money that wait for a provider. This
-- file has what ends them without success; the children have one handler each.
pub mod Safety
pub mod Issue
pub mod Withdrawal
pub mod Lifecycle
pub mod Queue
pub mod Reconcile
pub mod Outcomes
pub mod Searches
pub mod Samples
mod Tests
pub mod Runs
use bonde_backend.Common.Table.{update_many}
use bonde_backend.Finance.Retirement.{update_card}
use bonde_backend.Common.Text.{text_eq}
use bonde_backend.Finance.Operations.{
  with_ledger, set_operation, set_transactions, find_operation, user_posting,
}
use bonde_backend.Common.Int.{pos, negate, ℤ}
use bonde_backend.Common.Http.{provider_error, ok, throw_if, ◌>>◌, ◌>>=◌, Result}
use bonde_backend.Common.{map, same_id, none, not, [], ◌&&◌, some, false, same_id}
use bonde_backend.Finance.Ledger.{post, Kind, Posting}
use bonde_backend.Finance.Types.{Prefix, wallet_key, hold_key, AccountKey}
use bonde_backend.Common.{◌∷◌, true, if◌then◌else◌}
use bonde_backend.Finance.Runtime.{Runtime}
use bonde_backend.Finance.Providers.{has_failed, is_completed, Transfer}
use bonde_backend.Finance.Database.{
  cancelled, Card, fail, withdraw, issue, pending, failed, succeeded, resume, reversed, Database,
  Operation, OperationKind, OperationStatus,
}
use bonde_backend.Common.{List, ◌+◌, Bool, ℕ}

-- `['FAILED', 'SUCCEEDED', 'REVERSED'].includes(status)`
abbrev pub is_final : OperationStatus → Bool
is_final failed = true
is_final succeeded = true
is_final reversed = true
is_final _ = false

-- `['ISSUE', 'WITHDRAW'].includes(kind)`: the kinds that hold money from the wallet.
abbrev pub holds_funds : OperationKind → Bool
holds_funds issue = true
holds_funds withdraw = true
holds_funds _ = false

abbrev pub total_held : Operation → ℕ
total_held op = op.amount + op.fee

-- `this.posting(op, …)`
abbrev pub op_posting : Operation → AccountKey → Kind → ℤ → Posting
op_posting op key kind amount = user_posting op.user_id op.currency key kind amount

abbrev pub from_hold : Operation → Posting
from_hold op = op_posting op (hold_key op.id op.currency) Kind.hold (negate (pos (total_held op)))

abbrev pub release_postings : Operation → List Posting
release_postings op =
    from_hold op
    ∷ op_posting op (wallet_key op.user_id op.currency) Kind.wallet (pos (total_held op))
    ∷ []

-- `card.update({ where: { id: op.cardId } })`
abbrev pub update_op_card : Operation → (Card → Card) → Database → Database
update_op_card op f db = record db {
  cards = update_many (λ (c : Card). same_id op.card_id (some c.id)) f db.cards;
}

-- `if (op.kind === 'ISSUE' && op.cardId)`
abbrev pub cancel_unissued : Operation → Card → Card
cancel_unissued op card = elim op.kind [ issue ↦ record card { status = cancelled } | _ ↦ card ]

abbrev pub close_unissued : Operation → Database → Database
close_unissued op db = update_op_card op (cancel_unissued op) db

-- `settleSweep`
abbrev pub sweep_status : Transfer → OperationStatus
sweep_status transfer =
    if transfer.is_reversed
    then reversed
    else if is_completed transfer.status
    then succeeded
    else if has_failed transfer.status
    then failed
    else pending

module _ (rt : Runtime) where
  unfoldable pub return_funds_of : Operation → Database → Result Database
  return_funds_of op db = do
    ledger ←
        if holds_funds op.kind
        then post rt.before rt.new_journal (record { prefix = Prefix.release; id = op.id })
            (release_postings op) db.ledger
        else ok db.ledger
    ok (
        set_transactions op.id fail
          (set_operation op.id failed (close_unissued op (with_ledger db ledger))))

  unfoldable pub fail_operation : Operation → Database → Result Database
  fail_operation op db = do
    current ← find_operation op.id db
    if is_final current.status then ok db else return_funds_of op db

  -- What the transfer must say of the payment: whose it is, and how much.
  abbrev pub is_payment_of : Operation → Transfer → Bool
  is_payment_of op transfer =
      same_id transfer.payment_reference (some op.id)
      && text_eq transfer.amount_text (rt.amount_text op.amount)

  unfoldable pub settle_sweep : Operation → Transfer → Database → Result Database
  settle_sweep op transfer db = do
    throw_if (not (is_payment_of op transfer)) (provider_error false 400)
    ok (set_operation op.id (sweep_status transfer) db)
