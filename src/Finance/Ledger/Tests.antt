-- ===== src/Finance/Ledger/Tests.antt =====
-- A ledger with one funded wallet.
use bonde_backend.Common.{ℕ, ◌≡◌, ◌≢◌, refl, Bool, none, some, false, [], ◌∷◌, List, inl}
use bonde_backend.Common.Int.{negate, ℤ, pos, negsuc, ◌+ℤ◌}
use bonde_backend.Common.Http.{ok, err, bad_request}
use bonde_backend.Finance.Types.{
  Prefix-discrete, Prefix, Reference, currency_of, AccountKey, wallet_key, card_key, system_key,
  bank_clearing, ngn, AccountKey-discrete, Currency-discrete,
}
use bonde_backend.Finance.Ledger.{
  Kind-discrete, may_change, find_account, upsert_account, apply_line, apply_lines, sort_lines,
  create_journal, some_nonzero, put_line, find_line, add_sum, posting_amount, collect, Posting,
  Kind, hundredths, Store, post,
}
use bonde_backend.Finance.Ledger.Sums.{net_to, total}
use bonde_backend.Finance.Ledger.Accounts.{IsValid, balance_of}
use bonde_backend.Finance.Ledger.Journals.{
  post-IsValid, post_balances, post_conserves, post_unbalanced, post_replayed,
}

abbrev by_nothing : AccountKey → AccountKey → Bool
by_nothing a b = false

abbrev bank : ℕ → Reference
bank n = record { prefix = Prefix.deposit; id = n }

abbrev empty : Store
empty = record { accounts = []; journals = []; entries = [] }

empty-IsValid : IsValid empty
empty-IsValid = record { distinct = tt; solvent = tt; reconciled = λ k. refl }

-- 500.00 arrive at the bank, and 120.00 of them are allocated to a card.
abbrev deposit : List Posting
deposit =
    record {
      key = system_key bank_clearing ngn;
      currency = ngn;
      amount = hundredths (negsuc 49999);
      user_id = none;
      kind = Kind.clearing;
    }
    ∷ record {
      key = wallet_key 7 ngn;
      currency = ngn;
      amount = hundredths (pos 50000);
      user_id = some 7;
      kind = Kind.wallet;
    }
    ∷ []

abbrev allocate : ℤ → ℤ → List Posting
allocate out in' =
    record {
      key = wallet_key 7 ngn;
      currency = ngn;
      amount = hundredths out;
      user_id = some 7;
      kind = Kind.wallet;
    }
    ∷ record {
      key = card_key 3 ngn;
      currency = ngn;
      amount = hundredths in';
      user_id = some 7;
      kind = Kind.card;
    }
    ∷ []

abbrev funded : Store
funded = record {
  accounts =
      record {
        key = wallet_key 7 ngn;
        currency = ngn;
        kind = Kind.wallet;
        user_id = some 7;
        balance = pos 50000;
      }
      ∷ record {
        key = system_key bank_clearing ngn;
        currency = ngn;
        kind = Kind.clearing;
        user_id = none;
        balance = negsuc 49999;
      }
      ∷ [];
  journals = record { id = 1; reference = bank 100 } ∷ [];
  entries =
      record { journal_id = 1; account_key = wallet_key 7 ngn; amount = pos 50000 }
      ∷ record { journal_id = 1; account_key = system_key bank_clearing ngn; amount = negsuc 49999 }
      ∷ [];
}

deposit_posts : post by_nothing 1 (bank 100) deposit empty ≡ ok funded
unfolding post collect currency_of posting_amount add_sum find_line put_line some_nonzero
    create_journal sort_lines apply_lines apply_line upsert_account find_account may_change
    AccountKey-discrete Currency-discrete Kind-discrete Prefix-discrete ◌+ℤ◌ negate
deposit_posts = refl

-- An allocation beyond the wallet's balance is refused.
overdraft :
    post by_nothing 2 (bank 101) (allocate (negsuc 50000) (pos 50001)) funded
    ≡ err (bad_request "Insufficient available funds")
unfolding post collect currency_of posting_amount add_sum find_line put_line some_nonzero
    create_journal sort_lines apply_lines apply_line upsert_account find_account may_change
    AccountKey-discrete Currency-discrete Kind-discrete Prefix-discrete ◌+ℤ◌ negate
overdraft = refl

post-IsValid_example : IsValid funded
post-IsValid_example =
    post-IsValid by_nothing 1 (bank 100) deposit empty funded empty-IsValid deposit_posts

post_balances_example :
    balance_of (wallet_key 7 ngn) funded.accounts
    ≡ balance_of (wallet_key 7 ngn) empty.accounts +ℤ net_to (wallet_key 7 ngn) deposit
post_balances_example =
    post_balances by_nothing 1 (bank 100) deposit empty funded empty-IsValid deposit_posts
      (wallet_key 7 ngn)

post_conserves_example : total ngn funded.accounts ≡ total ngn empty.accounts
post_conserves_example =
    post_conserves by_nothing 1 (bank 100) deposit empty funded empty-IsValid deposit_posts ngn

post_unbalanced_example :
    post by_nothing 2 (bank 101) (allocate (negsuc 9) (pos 11)) funded ≢ ok funded
unfolding Currency-discrete ◌+ℤ◌
post_unbalanced_example =
    post_unbalanced by_nothing 2 (bank 101) (allocate (negsuc 9) (pos 11)) funded funded ngn
      (inl (λ e. cc))

post_replayed_example : post by_nothing 2 (bank 100) deposit funded ≢ ok funded
post_replayed_example =
    post_replayed by_nothing 1 2 (bank 100) deposit deposit empty funded funded deposit_posts
