-- ===== src/Finance/Worker/Withdrawal.antt =====
-- `withdraw`, `sweep` and `settleWithdrawal` of src/modules/finance/finance-worker.service.ts: a payment from a
-- wallet to a bank account. The fee that is written into the feed's row is not modelled.
use bonde_backend.Common.Int.{negate, pos}
use bonde_backend.Finance.Types.{Prefix, fee_variance, bank_clearing, system_key, wallet_key}
use bonde_backend.Finance.Operations.{
  is_succeeded, finished, transact, with_ledger, set_operation, set_transactions, attempt,
  find_operation, system_posting, Attempt, update_operation,
}
use bonde_backend.Common.Table.{find_first}
use bonde_backend.Finance.Worker.{
  settle_sweep, fail_operation, is_payment_of, from_hold, op_posting,
}
use bonde_backend.Finance.Providers.{
  is_completed, unusable, read_string, has_failed, exact, unreadable, definitive, finer, Transfer,
  Fees,
}
use bonde_backend.Finance.Ledger.{not_a_money_value, Kind, post, Posting}
use bonde_backend.Finance.Runtime.{Runtime}
use bonde_backend.Finance.Database.{
  OperationStatus, reversed, failed, success, succeeded, review, pending, other_event, Database,
  fee_variance_of, InboxRow, Operation,
}
use bonde_backend.Common.{
  ℕ, ◌+◌, ◌-◌, Bool, true, false, not, ◌&&◌, Option, none, some, List, [], ◌∷◌, ltb, ◌==◌, same_id,
  is_some, if◌then◌else◌,
}
use bonde_backend.Common.Http.{other_error, provider_error, Result, ok, err, ◌>>=◌, ◌>>◌, throw_if}

-- The bank takes its actual fee; the quoted one was held, so the difference goes back to the wallet, or
-- is the treasury's expense.
abbrev pub difference : Operation → ℕ → List Posting
difference op actual =
    if ltb actual op.fee
    then op_posting op (wallet_key op.user_id op.currency) Kind.wallet (pos (op.fee - actual)) ∷ []
    else if ltb op.fee actual
    then system_posting op.currency (system_key fee_variance op.currency) Kind.expense
        (negate (pos (actual - op.fee)))
      ∷ []
    else []

abbrev pub payout_postings : Operation → ℕ → List Posting
payout_postings op actual =
    from_hold op
    ∷ system_posting op.currency (system_key bank_clearing op.currency) Kind.clearing
        (pos (op.amount + actual))
    ∷ difference op actual

-- A fee with more than two decimal places: `post` throws at its second line, whatever follows.
abbrev pub unpostable : Operation → List Posting
unpostable op =
    from_hold op
    ∷ record (system_posting op.currency (system_key bank_clearing op.currency) Kind.clearing
        (pos 0)) { amount = not_a_money_value }
    ∷ []

-- The postings for the actual fee, and whether it exceeds the quoted one.
unfoldable pub read_fees : Operation → Fees → Result (List Posting × Bool)
read_fees op unreadable = err (other_error "Invalid argument")
read_fees op unusable = err (provider_error false 502)
read_fees op (finer text) = ok (unpostable op, false)
read_fees op (exact actual) = ok (payout_postings op actual, ltb op.fee actual)

abbrev is_variance : ℕ → InboxRow → Bool
is_variance id row =
    row.is_safe_haven && elim row.reference [ fee_variance_of other ↦ other == id | _ ↦ false ]

abbrev pub variance_row : ℕ → Operation → InboxRow
variance_row fresh op = record {
  id = fresh;
  is_safe_haven = true;
  reference = fee_variance_of op.id;
  event_type = other_event 0;
  object_id = op.id;
  session_id = none;
  card_id = none;
  status = review;
}

-- When the fee exceeds its quote, `financeInbox.upsert` with an empty update.
abbrev pub report_variance : Bool → ℕ → Operation → Database → Database
report_variance exceeds fresh op db = record db {
  inbox =
      if exceeds && not (is_some (find_first (is_variance op.id) db.inbox))
      then variance_row fresh op ∷ db.inbox
      else db.inbox;
}

-- The refund that `FAILED` and `REVERSED` stand for has been posted.
abbrev pub is_refunded : OperationStatus → Bool
is_refunded failed = true
is_refunded reversed = true
is_refunded _ = false

module _ (rt : Runtime) where
  unfoldable pub pay_out : Operation → List Posting → Database → Result Database
  pay_out op lines db = do
    ledger ←
        post rt.before rt.new_journal (record { prefix = Prefix.payout; id = op.id }) lines
          db.ledger
    ok (set_transactions op.id success (set_operation op.id succeeded (with_ledger db ledger)))

  unfoldable pub settle_now :
      Operation → List Posting → Bool → OperationStatus → Database → Result Database
  settle_now op lines exceeds status db = do
    throw_if (is_refunded status) (provider_error false 409)
    paid ← pay_out op lines db
    ok (report_variance exceeds rt.new_inbox op paid)

  unfoldable pub settle_completed : Operation → Fees → Database → Result Database
  settle_completed op fees db = do
    (lines, exceeds) ← read_fees op fees
    current ← find_operation op.id db
    if is_succeeded current.status then ok db else settle_now op lines exceeds current.status db

  -- From the treasury to the payee.
  abbrev pub is_between : Operation → Transfer → Bool
  is_between op payment =
      same_id payment.debit_account (some rt.treasury_account)
      && same_id payment.credit_account op.account_number
      && same_id payment.institution_code op.bank_code

  unfoldable pub settle_withdrawal : Operation → Transfer → Database → Result Database
  settle_withdrawal op payment db = do
    throw_if (not (is_between op payment)) (provider_error false 400)
    throw_if (not (is_payment_of rt op payment)) (provider_error false 502)
    if has_failed payment.status
        then fail_operation rt op db
        else if is_completed payment.status
        then settle_completed op payment.fees db
        else ok db

  -- `resolved.accountName !== command.accountName`; the name and the session of the enquiry.
  unfoldable pub send_payment :
      Result (Option ℕ × Option ℕ) → Result Transfer → Operation → Result (ℕ × Transfer)
  send_payment resolved sent op = do
    (name, session) ← definitive resolved
    throw_if (not (same_id name op.account_name)) (provider_error true 400)
    _ ← read_string session
    payment ← sent
    id ← read_string payment.session_id
    ok (id, payment)

  abbrev pub await_provider : Operation → ℕ → Database → Database
  await_provider op id db =
      update_operation op.id
        (λ (o : Operation). record o {
          provider_reference = some id;
          status = pending;
          lease_until = none;
        })
        db

  unfoldable pub withdraw_funds :
      Result (Option ℕ × Option ℕ) → Result Transfer → Operation → Database → Attempt
  withdraw_funds resolved sent op db = attempt db (send_payment resolved sent op) λ (id, payment).
      transact (await_provider op id db) (settle_withdrawal op payment (await_provider op id db))
        finished

  -- `sweep`: a customer's bank account is emptied into the treasury's.
  unfoldable pub sweep_account :
      Result (Option ℕ) → Result Transfer → Operation → Database → Attempt
  sweep_account enquiry sent op db =
      attempt db
        (do
          _ ← read_string op.account_number
          session ← enquiry
          _ ← read_string session
          payment ← sent
          id ← read_string payment.session_id
          ok (id, payment))
        λ (id, payment).
          transact (await_provider op id db) (settle_sweep rt op payment (await_provider op id db))
            finished
