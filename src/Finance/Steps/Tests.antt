-- ===== src/Finance/Steps/Tests.antt =====
-- A withdrawal that the bank completes, and a report of it that comes too late to pay it again.
use bonde_backend.Finance.Steps.Purchases.{settle_once}
use bonde_backend.Finance.Events.Samples.{auth, purchasing}
use bonde_backend.Finance.Events.Transactions.{settle, capture, budget_alerts, Settlement}
use bonde_backend.Finance.Retirement.{mark_if}
use bonde_backend.Finance.Policy.{snapshot, sum_remaining, primary_rule}
use bonde_backend.Finance.Projections.{project}
use bonde_backend.Finance.Steps.Deposits.{deposit_once}
use bonde_backend.Finance.Events.Bank.{deposit_now, deposit_in_transaction}
use bonde_backend.Common.Http.{ok}
use bonde_backend.Finance.Operations.{or_else, find_operation}
use bonde_backend.Common.Int.{negate, ◌+ℤ◌}
use bonde_backend.Finance.Types.{AccountKey-discrete, Currency-discrete, Prefix-discrete}
use bonde_backend.Finance.Ledger.{insert_line, Kind-discrete}
use bonde_backend.Common.Text.{Text-discrete}
use bonde_backend.Finance.Ledger.{
  may_change, find_account, upsert_account, apply_line, apply_lines, sort_lines, create_journal,
  some_nonzero, put_line, find_line, add_sum, posting_amount, collect, post,
}
use bonde_backend.Finance.Worker.{return_funds_of, fail_operation}
use bonde_backend.Finance.Worker.Withdrawal.{
  pay_out, read_fees, settle_now, settle_completed, settle_withdrawal, send_payment, withdraw_funds,
}
use bonde_backend.Finance.Steps.{Steps, ◌∷ₛ◌, Step, Steps-conserve}
use bonde_backend.Finance.Providers.{exact, transfer_completed}
use bonde_backend.Finance.Ledger.Sums.{total}
use bonde_backend.Finance.Worker.Samples.{
  withdrawal_op, held_ledger-IsValid, withdrawing, held_ledger, transfer_of, replies,
}
use bonde_backend.Finance.Types.{AccountKey-discrete, currency_of, Currency}
use bonde_backend.Finance.Events.{receive}
use bonde_backend.Finance.Samples.{card, database, runtime}
use bonde_backend.Finance.Worker.Queue.{
  expire_leases, handle_throw, handle_kind, claim, can_claim, process_operation,
}
use bonde_backend.Finance.Ledger.Accounts.{IsValid}
use bonde_backend.Finance.Database.{Customer, succeeded, account_debit, Database}
use bonde_backend.Common.{false, refl, ◌≡◌, some, true}

abbrev processed_db : Database
processed_db =
    (process_operation runtime (replies (transfer_of transfer_completed (exact 4))) 20 5
      withdrawing).0

abbrev reported : Database
reported = receive 61 true account_debit 9 500 (some 501) processed_db

Steps-conserve_example :
    IsValid reported.ledger
    × ((c : Currency) → total c reported.ledger.accounts ≡ total c held_ledger.accounts)
Steps-conserve_example =
    Steps-conserve
      (Step.processes runtime (replies (transfer_of transfer_completed (exact 4))) 20 5 withdrawing
        ∷ₛ Step.receives 61 true account_debit 9 500 (some 501) processed_db
        ∷ₛ Steps.stop)
      held_ledger-IsValid

paid_out_once :
    (find_operation 20 processed_db
      ≡ ok (record withdrawal_op { status = succeeded; provider_reference = some 501 }))
unfolding process_operation can_claim claim handle_kind handle_throw withdraw_funds send_payment
    settle_withdrawal settle_completed settle_now read_fees pay_out fail_operation return_funds_of
    post collect currency_of posting_amount add_sum find_line put_line some_nonzero create_journal
    sort_lines apply_lines apply_line upsert_account find_account may_change AccountKey-discrete
    Currency-discrete Kind-discrete Prefix-discrete Text-discrete ◌+ℤ◌ negate
paid_out_once = refl

abbrev customer : Customer
customer = record {
  user_id = 7;
  is_ready = true;
  bank_account_number = some 70;
  bank_account_id = some 71;
  is_bank_ready = true;
}

abbrev deposited : Database
deposited = or_else (deposit_in_transaction runtime customer 61 500 300 database) database

abbrev deposited_again : Database
deposited_again =
    or_else (deposit_in_transaction runtime customer 62 500 900 (expire_leases 9 deposited))
      database

deposits : deposit_in_transaction runtime customer 61 500 300 database ≡ ok deposited
unfolding deposit_in_transaction deposit_now project post collect currency_of posting_amount add_sum
    find_line put_line some_nonzero create_journal sort_lines insert_line apply_lines apply_line
    upsert_account find_account may_change AccountKey-discrete Currency-discrete Kind-discrete
    Prefix-discrete ◌+ℤ◌ negate
deposits = refl

deposits_again :
    deposit_in_transaction runtime customer 62 500 900 (expire_leases 9 deposited)
    ≡ ok deposited_again
unfolding expire_leases deposit_in_transaction deposit_now project post collect currency_of
    posting_amount add_sum find_line put_line some_nonzero create_journal sort_lines insert_line
    apply_lines apply_line upsert_account find_account may_change AccountKey-discrete
    Currency-discrete Kind-discrete Prefix-discrete ◌+ℤ◌ negate
deposits_again = refl

deposit_once_example : deposited_again.ledger ≡ (expire_leases 9 deposited).ledger
deposit_once_example =
    deposit_once runtime runtime customer customer 61 62 500 300 900 database deposited
      (expire_leases 9 deposited) deposited_again deposits (Step.expires 9 deposited ∷ₛ Steps.stop)
      deposits_again

abbrev bought : Settlement
bought = record { inbox = 61; id = 900; amount = 300; auth = auth; card = card }

abbrev settled_db : Database
settled_db = or_else (settle runtime bought false 5 purchasing) purchasing

abbrev reported_again : Database
reported_again = or_else (settle runtime bought false 9 (expire_leases 9 settled_db)) purchasing

settles : settle runtime bought false 5 purchasing ≡ ok settled_db
unfolding expire_leases settle capture project budget_alerts snapshot mark_if sum_remaining
    primary_rule post collect currency_of posting_amount add_sum find_line put_line some_nonzero
    create_journal sort_lines insert_line apply_lines apply_line upsert_account find_account
    may_change AccountKey-discrete Currency-discrete Kind-discrete Prefix-discrete ◌+ℤ◌ negate
settles = refl

settles_again : settle runtime bought false 9 (expire_leases 9 settled_db) ≡ ok reported_again
unfolding expire_leases settle capture project budget_alerts snapshot mark_if sum_remaining
    primary_rule post collect currency_of posting_amount add_sum find_line put_line some_nonzero
    create_journal sort_lines insert_line apply_lines apply_line upsert_account find_account
    may_change AccountKey-discrete Currency-discrete Kind-discrete Prefix-discrete ◌+ℤ◌ negate
settles_again = refl

settle_once_example : reported_again.ledger ≡ (expire_leases 9 settled_db).ledger
settle_once_example =
    settle_once runtime runtime bought bought false 5 9 purchasing settled_db
      (expire_leases 9 settled_db) reported_again refl settles
      (Step.expires 9 settled_db ∷ₛ Steps.stop) settles_again
