-- ===== src/Finance/Worker/Samples.antt =====
-- A withdrawal of 3.00 with a fee of 0.10, for the tests: the bank account it goes to, and the money that is
-- held for it.
use bonde_backend.Finance.Ledger.Journals.{post-IsValid}
use bonde_backend.Finance.Ledger.Accounts.{IsValid}
use bonde_backend.Common.Int.{negate, ◌+ℤ◌, pos, negsuc}
use bonde_backend.Finance.Worker.Queue.{Replies}
use bonde_backend.Finance.Samples.{empty, by_nothing, database}
use bonde_backend.Common.Http.{ok, err, provider_error, Exception}
use bonde_backend.Finance.Providers.{issuer_other, Fees, Transfer, IssuedCard, TransferStatus}
use bonde_backend.Finance.Types.{
  Prefix-discrete, Currency-discrete, AccountKey-discrete, currency_of, ngn, bank_clearing,
  hold_key, Prefix, system_key, Reference,
}
use bonde_backend.Finance.Ledger.{
  Kind-discrete, may_change, find_account, upsert_account, apply_line, apply_lines, sort_lines,
  create_journal, some_nonzero, put_line, find_line, add_sum, posting_amount, Kind, hundredths,
  collect, post, Store, Posting,
}
use bonde_backend.Finance.Database.{queued, withdraw, Database, Operation}
use bonde_backend.Common.{refl, some, none, [], ◌∷◌, List, false}

abbrev pub withdrawal_op : Operation
withdrawal_op = record {
  id = 20;
  user_id = 7;
  card_id = none;
  idempotency_key = 1;
  kind = withdraw;
  status = queued;
  lease_until = none;
  currency = ngn;
  amount = 300;
  fee = 10;
  provider_reference = none;
  account_number = some 70;
  bank_code = some 1;
  account_name = some 5;
}

abbrev pub holding : List Posting
holding =
    record {
      key = system_key bank_clearing ngn;
      currency = ngn;
      amount = hundredths (negsuc 309);
      user_id = none;
      kind = Kind.clearing;
    }
    ∷ record {
      key = hold_key 20 ngn;
      currency = ngn;
      amount = hundredths (pos 310);
      user_id = some 7;
      kind = Kind.hold;
    }
    ∷ []

abbrev pub reserve_reference : Reference
reserve_reference = record { prefix = Prefix.reserve; id = 20 }

abbrev pub held_ledger : Store
held_ledger = record {
  accounts =
      record {
        key = hold_key 20 ngn;
        currency = ngn;
        kind = Kind.hold;
        user_id = some 7;
        balance = pos 310;
      }
      ∷ record {
        key = system_key bank_clearing ngn;
        currency = ngn;
        kind = Kind.clearing;
        user_id = none;
        balance = negsuc 309;
      }
      ∷ [];
  journals = record { id = 1; reference = reserve_reference } ∷ [];
  entries =
      record { journal_id = 1; account_key = hold_key 20 ngn; amount = pos 310 }
      ∷ record { journal_id = 1; account_key = system_key bank_clearing ngn; amount = negsuc 309 }
      ∷ [];
}

pub held_ledger-IsValid : IsValid held_ledger
unfolding post collect currency_of posting_amount add_sum find_line put_line some_nonzero
    create_journal sort_lines apply_lines apply_line upsert_account find_account may_change
    AccountKey-discrete Currency-discrete Kind-discrete Prefix-discrete ◌+ℤ◌ negate
held_ledger-IsValid =
    post-IsValid by_nothing 1 reserve_reference holding empty held_ledger
      (record { distinct = tt; solvent = tt; reconciled = λ k. refl }) refl

abbrev pub withdrawing : Database
withdrawing = record database { ledger = held_ledger; operations = withdrawal_op ∷ [] }

abbrev pub transfer_of : TransferStatus → Fees → Transfer
transfer_of status fees = record {
  id = some 500;
  session_id = some 501;
  is_inwards = false;
  is_reversed = false;
  status = status;
  account = none;
  debit_account = some 99;
  credit_account = some 70;
  institution_code = some 1;
  payment_reference = some 20;
  amount_text = 300 ∷ [];
  fees = fees;
}

abbrev pub nothing_issued : IssuedCard
nothing_issued = record {
  id = none;
  status = issuer_other;
  masked_pan = none;
  expiry_year = none;
  expiry_month = none;
}

abbrev unanswered : Exception
unanswered = provider_error false 0

abbrev pub replies : Transfer → Replies
replies sent = record {
  retire = record { card = err unanswered; switched_off = ok tt; card_after = err unanswered };
  funding_source = err unanswered;
  issued = ok nothing_issued;
  resolved = ok (some 5, some 502);
  enquiry = err unanswered;
  sent = ok sent;
  switched = ok tt;
}
