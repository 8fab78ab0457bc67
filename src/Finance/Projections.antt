-- ===== src/Finance/Projections.antt =====
-- src/modules/finance/finance-projections.ts, and `project` of finance-events.service.ts: what the feed
-- of a user shows of a movement of money.
use bonde_backend.Common.{ℕ, ◌&&◌, Option, some, ◌∷◌, ◌==◌, is_some}
use bonde_backend.Common.Table.{find_first}
use bonde_backend.Common.Int.{ℤ, pos}
use bonde_backend.Common.Http.{
  constraint_violation, throw_if, ◌>>◌, other_error, Result, ok, ◌>>=◌, or_throw,
}
use bonde_backend.Finance.Types.{Currency, Reference}
use bonde_backend.Finance.Database.{
  Database, Wallet, UserAccount, Transaction, TransactionType, payment, transfer, success,
  NotificationTitle, purchase_settled, funds_received,
}

-- `wallet.findFirst({ where: { account: { userId } } })`
abbrev pub find_wallet : ℕ → Database → Option Wallet
find_wallet user db =
    find_first
      (λ (w : Wallet).
        is_some
          (find_first (λ (a : UserAccount). a.id == w.account_id && a.user_id == user) db.accounts))
      db.wallets

abbrev pub add_transaction : Transaction → Database → Database
add_transaction t db = record db { transactions = t ∷ db.transactions }

-- `id` is the operation's id, or a new one; the `create` throws if a row of the feed has it.
unfoldable pub project_allocation_return :
    ℕ → ℕ → ℕ → Currency → ℤ → Reference → Database → Result Database
project_allocation_return id user card currency amount reference db = do
  _ ← or_throw (find_wallet user db) (other_error "No Wallet found")
  throw_if (is_some (find_first (λ (t : Transaction). t.id == id) db.transactions))
      constraint_violation
  ok (
      add_transaction
        (record {
          id = id;
          user_id = user;
          card_id = some card;
          transaction_type = transfer;
          status = success;
          amount = amount;
          currency = currency;
          reference = some reference;
        })
        db)

abbrev title_of : TransactionType → NotificationTitle
title_of payment = purchase_settled
title_of _ = funds_received

unfoldable pub project :
    ℕ → ℕ → TransactionType → ℕ → Currency → Reference → Option ℕ → Database → Result Database
project id user type amount currency reference card db = do
  account ←
      or_throw (find_first (λ (a : UserAccount). a.user_id == user) db.accounts)
        (other_error "No Account found")
  _ ←
      or_throw (find_first (λ (w : Wallet). w.account_id == account.id) db.wallets)
        (other_error "No Wallet found")
  ok
      (record (add_transaction
        (record {
          id = id;
          user_id = user;
          card_id = card;
          transaction_type = type;
          status = success;
          amount = pos amount;
          currency = currency;
          reference = some reference;
        })
        db) { notifications = record { user_id = user; title = title_of type } ∷ db.notifications })
