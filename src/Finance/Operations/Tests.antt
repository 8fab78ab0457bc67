-- ===== src/Finance/Operations/Tests.antt =====
-- The money of a card is returned.
use bonde_backend.Common.Http.{ok}
use bonde_backend.Finance.Operations.Returns.{return_allocation_empties}
use bonde_backend.Finance.Ledger.{
  Kind-discrete, may_change, find_account, upsert_account, apply_line, apply_lines, insert_line,
  sort_lines, create_journal, some_nonzero, put_line, find_line, add_sum, posting_amount, collect,
  post,
}
use bonde_backend.Finance.Ledger.Accounts.{balance_of}
use bonde_backend.Finance.Samples.{card_funded-IsValid, database, runtime}
use bonde_backend.Finance.Projections.{project_allocation_return}
use bonde_backend.Common.Int.{negate, ◌+ℤ◌, pos, ltb_ℤ}
use bonde_backend.Finance.Operations.{return_balance, or_else, return_allocation}
use bonde_backend.Finance.Database.{Database}
use bonde_backend.Finance.Types.{
  Prefix-discrete, Currency-discrete, AccountKey-discrete, currency_of, card_key, ngn, Prefix,
  Reference,
}
use bonde_backend.Common.{refl, ◌≡◌, false}

abbrev reference : Reference
reference = record { prefix = Prefix.retire; id = 3 }

abbrev returned : Database
returned = or_else (return_allocation runtime 5 7 3 ngn reference database) database

returns : return_allocation runtime 5 7 3 ngn reference database ≡ ok returned
unfolding return_allocation return_balance project_allocation_return post collect currency_of
    posting_amount add_sum find_line put_line some_nonzero create_journal sort_lines insert_line
    apply_lines apply_line upsert_account find_account may_change AccountKey-discrete
    Currency-discrete Kind-discrete Prefix-discrete ◌+ℤ◌ negate
returns = refl

return_allocation_empties_example :
    ltb_ℤ (pos 0) (balance_of (card_key 3 ngn) returned.ledger.accounts) ≡ false
return_allocation_empties_example =
    return_allocation_empties runtime 5 7 3 ngn reference database returned card_funded-IsValid
      returns
