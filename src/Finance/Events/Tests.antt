-- ===== src/Finance/Events/Tests.antt =====
-- A purchase that is settled.
use bonde_backend.Finance.Events.Samples.{purchasing, auth, settlement}
use bonde_backend.Common.Int.{negate, ◌+ℤ◌}
use bonde_backend.Finance.Samples.{runtime}
use bonde_backend.Finance.Ledger.{Kind-discrete, may_change, find_account, upsert_account}
use bonde_backend.Finance.Ledger.{
  upsert_account, apply_line, apply_lines, insert_line, sort_lines, create_journal, some_nonzero,
  put_line, find_line, add_sum, posting_amount, collect, post,
}
use bonde_backend.Common.Text.{span_digits}
use bonde_backend.Finance.Amount.{fraction, digits_value, match_amount, amount_of}
use bonde_backend.Finance.Retirement.{mark_if}
use bonde_backend.Finance.Policy.{primary_rule, sum_remaining, snapshot}
use bonde_backend.Finance.Projections.{project}
use bonde_backend.Finance.Events.Settlements.{transaction_event-AreWithin}
use bonde_backend.Common.Http.{ok}
use bonde_backend.Finance.Types.{
  Prefix-discrete, Currency-discrete, AccountKey-discrete, currency_of,
}
use bonde_backend.Finance.Events.Limits.{AreWithin}
use bonde_backend.Finance.Events.Transactions.{
  budget_alerts, capture, settle, settle_open, settle_in_transaction, read_settlement, find_settled,
  transaction_event,
}
use bonde_backend.Finance.Database.{Database}
use bonde_backend.Common.{arith, refl, ◌≡◌, [], ◌∷◌, false}

abbrev settled_db : Database
settled_db = (transaction_event runtime 61 900 false (ok settlement) 5 purchasing).0

settles : (settled_db.authorizations ≡ record auth { settled = 300 } ∷ [])
unfolding transaction_event find_settled read_settlement settle_in_transaction settle_open settle
    capture project budget_alerts snapshot mark_if amount_of match_amount span_digits digits_value
    fraction post collect currency_of posting_amount add_sum find_line put_line some_nonzero
    create_journal sort_lines insert_line apply_lines apply_line upsert_account find_account
    may_change AccountKey-discrete Currency-discrete Kind-discrete Prefix-discrete ◌+ℤ◌ negate
    sum_remaining primary_rule
settles = refl

transaction_event-AreWithin_example : AreWithin settled_db.authorizations
transaction_event-AreWithin_example =
    transaction_event-AreWithin runtime 61 900 false (ok settlement) 5 purchasing
      ((omega arith, omega arith), refl, tt)
