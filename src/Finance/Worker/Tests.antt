-- ===== src/Finance/Worker/Tests.antt =====
-- Runs of the worker on a withdrawal.
use bonde_backend.Common.Text.{Text-discrete}
use bonde_backend.Common.Int.{pos, negate, ◌+ℤ◌}
use bonde_backend.Finance.Worker.Searches.{search_pages_lem, IsMatch}
use bonde_backend.Finance.Worker.Outcomes.{
  settle_withdrawal_once, fail_operation_returns, fail_operation_once,
}
use bonde_backend.Finance.Ledger.{
  Kind-discrete, may_change, find_account, upsert_account, apply_line, apply_lines, sort_lines,
  create_journal, some_nonzero, put_line, find_line, add_sum, posting_amount, collect, post,
}
use bonde_backend.Finance.Ledger.Accounts.{balance_of}
use bonde_backend.Finance.Samples.{runtime}
use bonde_backend.Finance.Operations.{find_operation, or_else}
use bonde_backend.Common.Http.{ok}
use bonde_backend.Finance.Worker.Samples.{
  held_ledger-IsValid, held_ledger, withdrawing, transfer_of, withdrawal_op,
}
use bonde_backend.Finance.Worker.Reconcile.{search_pages, Pages}
use bonde_backend.Finance.Worker.Withdrawal.{
  pay_out, read_fees, settle_now, settle_completed, settle_withdrawal,
}
use bonde_backend.Finance.Providers.{exact, transfer_completed, Transfer}
use bonde_backend.Finance.Types.{
  wallet_key, ngn, hold_key, Prefix-discrete, Currency-discrete, AccountKey-discrete, currency_of,
  AccountKey,
}
use bonde_backend.Finance.Worker.{return_funds_of, fail_operation}
use bonde_backend.Finance.Database.{failed, succeeded, Operation, Database}
use bonde_backend.Common.{◌⊎◌, ◌<◌, ◌≤◌, ℕ, refl, ◌≡◌, some, none, [], ◌∷◌}

abbrev after_failure : Database
after_failure = or_else (fail_operation runtime withdrawal_op withdrawing) withdrawing

fails : fail_operation runtime withdrawal_op withdrawing ≡ ok after_failure
unfolding fail_operation return_funds_of post collect currency_of posting_amount add_sum find_line
    put_line some_nonzero create_journal sort_lines apply_lines apply_line upsert_account
    find_account may_change AccountKey-discrete Currency-discrete Kind-discrete Prefix-discrete ◌+ℤ◌
    negate
fails = refl

fail_operation_once_example : fail_operation runtime withdrawal_op after_failure ≡ ok after_failure
fail_operation_once_example =
    fail_operation_once runtime withdrawal_op withdrawing after_failure fails

fail_operation_returns_example :
    (balance_of (hold_key 20 ngn) after_failure.ledger.accounts
      ≡ balance_of (hold_key 20 ngn) held_ledger.accounts +ℤ negate (pos 310))
    × (balance_of (wallet_key 7 ngn) after_failure.ledger.accounts
        ≡ balance_of (wallet_key 7 ngn) held_ledger.accounts +ℤ pos 310)
    × ((k : AccountKey)
        → (balance_of k after_failure.ledger.accounts ≡ balance_of k held_ledger.accounts)
          ⊎ (k ≡ hold_key 20 ngn)
          ⊎ (k ≡ wallet_key 7 ngn))
    × (find_operation 20 after_failure
        ≡ ok (record withdrawal_op { status = failed; lease_until = none }))
fail_operation_returns_example =
    fail_operation_returns runtime withdrawal_op withdrawal_op withdrawing after_failure
      held_ledger-IsValid refl refl refl fails

abbrev paid : Transfer
paid = transfer_of transfer_completed (exact 4)

abbrev paid_out : Database
paid_out = or_else (settle_withdrawal runtime withdrawal_op paid withdrawing) withdrawing

abbrev settled_withdrawal : Operation
settled_withdrawal = record withdrawal_op { status = succeeded }

abbrev paid_again : Database
paid_again = or_else (settle_withdrawal runtime withdrawal_op paid paid_out) withdrawing

is_paid : find_operation 20 paid_out ≡ ok settled_withdrawal
unfolding settle_withdrawal settle_completed settle_now read_fees pay_out fail_operation
    return_funds_of post collect currency_of posting_amount add_sum find_line put_line some_nonzero
    create_journal sort_lines apply_lines apply_line upsert_account find_account may_change
    AccountKey-discrete Currency-discrete Kind-discrete Prefix-discrete Text-discrete ◌+ℤ◌ negate
is_paid = refl

pays_again : settle_withdrawal runtime withdrawal_op paid paid_out ≡ ok paid_again
unfolding settle_withdrawal settle_completed settle_now read_fees pay_out fail_operation
    return_funds_of post collect currency_of posting_amount add_sum find_line put_line some_nonzero
    create_journal sort_lines apply_lines apply_line upsert_account find_account may_change
    AccountKey-discrete Currency-discrete Kind-discrete Prefix-discrete Text-discrete ◌+ℤ◌ negate
pays_again = refl

settle_withdrawal_once_example : paid_again ≡ paid_out
settle_withdrawal_once_example =
    settle_withdrawal_once runtime withdrawal_op settled_withdrawal paid paid_out paid_again is_paid
      refl pays_again

abbrev pages : Pages
pages n = ok (
    some (
      record { operation = some 20; id = some 500 }
      ∷ record { operation = some 21; id = some 501 }
      ∷ []))

search_pages_example : (p : ℕ) × (0 ≤ p) × (p < 10) × IsMatch 20 pages 500 p
unfolding search_pages
search_pages_example = search_pages_lem 20 pages 0 10 500 refl
