-- ===== src/Finance/Events/Bank.antt =====
-- `bankEvent` of src/modules/finance/finance-events.service.ts: a transfer to a customer's bank account, or
-- from it. What the feed says of the fees is not modelled.
use bonde_backend.Finance.Capabilities.{bearer_unknown}
use bonde_backend.Finance.Worker.Withdrawal.{settle_withdrawal}
use bonde_backend.Finance.Worker.{settle_sweep}
use bonde_backend.Common.Int.{pos, negate}
use bonde_backend.Finance.Projections.{project}
use bonde_backend.Finance.Worker.Reconcile.{is_sweep}
use bonde_backend.Common.Table.{find_first}
use bonde_backend.Finance.Types.{wallet_key, Prefix, bank_clearing, system_key, Reference, ngn}
use bonde_backend.Finance.Amount.{amount_of, money}
use bonde_backend.Finance.Operations.{
  is_succeeded, user_posting, with_ledger, finished, transact, update_operation, set_inbox, attempt,
  find_operation, Attempt, system_posting,
}
use bonde_backend.Common.Text.{text_eq, Text}
use bonde_backend.Finance.Runtime.{Runtime}
use bonde_backend.Finance.Database.{
  EventType, account_debit, reversed, processed, deposit, account_credit, queued, withdraw,
  InboxRow, OperationStatus, sweep, Database, Operation, Customer,
}
use bonde_backend.Finance.Ledger.{has_journal, Kind, post, Posting}
use bonde_backend.Finance.Capabilities.{sender_bears, recipient_bears, FeeBearer}
use bonde_backend.Finance.Providers.{
  unusable, unreadable, has_failed, read_string, finer, is_completed, exact, TransferStatus,
  Transfer, Fees,
}
use bonde_backend.Common.{
  ℕ, ◌-◌, Bool, true, false, not, ◌&&◌, ◌||◌, none, some, List, [], ◌∷◌, leb, ◌==◌, same_id,
  is_some, if◌then◌else◌,
}
use bonde_backend.Common.Http.{
  constraint_violation, other_error, provider_error, Result, ok, err, ◌>>=◌, ◌>>◌, throw_if,
  or_throw,
}

-- `gross.sub(fees).toFixed(2)`
unfoldable pub net_text : ℕ → Fees → Result Text
net_text gross unreadable = err (other_error "Invalid argument")
net_text gross unusable = err (provider_error true 400)
net_text gross (exact fees) =
    ok (if leb fees gross then money (gross - fees) else b'-' ∷ money (fees - gross))
net_text gross (finer text) = ok (text gross)

-- The amount that the customer is due: for an unknown bearer the report waits.
abbrev due_text : FeeBearer → ℕ → Text → Result Text
due_text recipient_bears gross net = ok net
due_text sender_bears gross net = ok (money gross)
due_text bearer_unknown gross net = err (provider_error true 409)

unfoldable pub credited : FeeBearer → Transfer → Result ℕ
credited bearer incoming = do
  gross ← amount_of incoming.amount_text false
  net ← net_text gross incoming.fees
  text ← due_text bearer gross net
  amount_of text false

abbrev pub deposit_postings : ℕ → ℕ → List Posting
deposit_postings user amount =
    system_posting ngn (system_key bank_clearing ngn) Kind.clearing (negate (pos amount))
    ∷ user_posting user ngn (wallet_key user ngn) Kind.wallet (pos amount)
    ∷ []

abbrev is_account_of : ℕ → Customer → Bool
is_account_of number customer =
    customer.is_bank_ready && same_id customer.bank_account_number (some number)

-- `financeOperation.create`: `(userId, idempotencyKey)` is unique.
abbrev pub create_operation : Operation → Database → Result Database
create_operation op db = do
  throw_if
      (is_some (
        find_first
          (λ (o : Operation). o.user_id == op.user_id && o.idempotency_key == op.idempotency_key)
          db.operations))
      constraint_violation
  ok (record db { operations = op ∷ db.operations })

abbrev is_reversed : OperationStatus → Bool
is_reversed status = elim status [ reversed ↦ true | _ ↦ false ]

abbrev pub reversal_postings : Operation → List Posting
reversal_postings op =
    system_posting op.currency (system_key bank_clearing op.currency) Kind.clearing
      (negate (pos op.amount))
    ∷ user_posting op.user_id op.currency (wallet_key op.user_id op.currency) Kind.wallet
        (pos op.amount)
    ∷ []

-- `status` is one of those that end a transfer.
abbrev is_terminal : TransferStatus → Bool
is_terminal status = is_completed status || has_failed status

abbrev is_payout : Operation → Bool
is_payout op = elim op.kind [ withdraw ↦ true | sweep ↦ true | _ ↦ false ]

-- What `/transfers/tqs` answers must be of the transfer that was reported.
unfoldable pub read_transfer : InboxRow → Result Transfer → Result Transfer
read_transfer row answer = do
  session ← or_throw row.session_id (provider_error true 400)
  found ← answer
  throw_if (not (same_id found.id (some row.object_id) && same_id found.session_id (some session)))
      (provider_error true 400)
  ok found

module _ (rt : Runtime) where
  abbrev pub sweep_operation : Customer → ℕ → ℕ → Operation
  sweep_operation customer id amount = record {
    id = rt.new_operation;
    user_id = customer.user_id;
    card_id = none;
    idempotency_key = rt.sweep_key id;
    kind = sweep;
    status = queued;
    lease_until = none;
    currency = ngn;
    amount = amount;
    fee = 0;
    provider_reference = none;
    account_number = customer.bank_account_number;
    bank_code = none;
    account_name = none;
  }

  -- A deposit that has no journal yet.
  unfoldable pub deposit_now : Customer → ℕ → ℕ → Database → Result Database
  deposit_now customer id amount db = do
    let reference : Reference = record { prefix = Prefix.deposit; id = id }
    ledger ←
        post rt.before rt.new_journal reference (deposit_postings customer.user_id amount) db.ledger
    shown ←
        project rt.new_transaction customer.user_id deposit amount ngn reference none
          (with_ledger db ledger)
    create_operation (sweep_operation customer id amount) shown

  unfoldable pub deposit_in_transaction : Customer → ℕ → ℕ → ℕ → Database → Result Database
  deposit_in_transaction customer inbox id amount db =
      (if has_journal (record { prefix = Prefix.deposit; id = id }) db.ledger
        then ok db
        else deposit_now customer id amount db)
      >>= λ deposited. ok (set_inbox inbox processed deposited)

  unfoldable pub bank_credit : ℕ → ℕ → Transfer → Database → Result Database
  bank_credit inbox id incoming db = do
    throw_if (not (is_completed incoming.status) || not incoming.is_inwards || incoming.is_reversed)
        (provider_error true 400)
    number ← read_string incoming.credit_account
    customer ← or_throw (find_first (is_account_of number) db.customers) (provider_error true 404)
    throw_if (not (is_some incoming.account && same_id incoming.account customer.bank_account_id))
        (provider_error true 400)
    amount ← credited rt.config.incoming_fee_bearer incoming
    deposit_in_transaction customer inbox id amount db

  unfoldable pub reverse_payout : Operation → ℕ → OperationStatus → Database → Result Database
  reverse_payout op id status db = do
    throw_if (not (is_succeeded status || is_reversed status)) (provider_error false 409)
    if is_reversed status then ok db else do
      ledger ←
          post rt.before rt.new_journal (record { prefix = Prefix.payout_reversal; id = id })
            (reversal_postings op) db.ledger
      ok (
          update_operation op.id (λ (o : Operation). record o { status = reversed })
            (with_ledger db ledger))

  unfoldable pub bank_reversal : Operation → ℕ → ℕ → Transfer → Database → Result Database
  bank_reversal op inbox id outgoing db = do
    throw_if
        (not (
          is_some op.account_number
          && same_id outgoing.credit_account op.account_number
          && same_id outgoing.institution_code op.bank_code
          && text_eq outgoing.amount_text (rt.amount_text op.amount)))
        (provider_error false 400)
    current ← find_operation op.id db
    reversed_db ← reverse_payout op id current.status db
    ok (set_inbox inbox processed reversed_db)

  unfoldable pub payout_event : Operation → ℕ → ℕ → Transfer → Database → Attempt
  payout_event op inbox id outgoing db =
      if is_sweep op.kind
      then transact db (settle_sweep rt op outgoing db)
          (λ settled. finished (set_inbox inbox processed settled))
      else if outgoing.is_reversed
      then transact db (bank_reversal op inbox id outgoing db) finished
      else transact db (settle_withdrawal rt op outgoing db) λ settled.
        if is_terminal outgoing.status
        then finished (set_inbox inbox processed settled)
        else (settled, some (provider_error false 202))

  unfoldable pub bank_debit : ℕ → ℕ → Transfer → Database → Attempt
  bank_debit inbox id outgoing db =
      attempt db
        (read_string outgoing.payment_reference >>= λ number.
          or_throw (find_first (λ (o : Operation). o.id == number && is_payout o) db.operations)
            (provider_error true 404))
        λ op. payout_event op inbox id outgoing db

  unfoldable pub bank_kind : EventType → ℕ → ℕ → Transfer → Database → Attempt
  bank_kind account_credit inbox id found db = transact db (bank_credit inbox id found db) finished
  bank_kind account_debit inbox id found db = bank_debit inbox id found db
  bank_kind _ inbox id found db = (db, some (provider_error true 400))

  unfoldable pub bank_event : InboxRow → Result Transfer → Database → Attempt
  bank_event row answer db =
      attempt db (read_transfer row answer)
        (λ found. bank_kind row.event_type row.id row.object_id found db)
