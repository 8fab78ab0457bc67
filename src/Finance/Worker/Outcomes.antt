-- ===== src/Finance/Worker/Outcomes.antt =====
-- How an operation of the worker ends, and that it ends once.
use bonde_backend.Common.{sym, inl, inr, ◌⊎◌, not}
use bonde_backend.Finance.Ledger.Journals.{post_balances}
use bonde_backend.Finance.Ledger.Sums.{net_to}
use bonde_backend.Common.Int.{int_laws, negate, pos, ◌+ℤ◌}
use bonde_backend.Finance.Providers.{is_completed, has_failed, Fees, Transfer}
use bonde_backend.Finance.Types.{AccountKey-discrete, wallet_key, hold_key, AccountKey}
use bonde_backend.Finance.Worker.Withdrawal.{
  is_between, read_fees, settle_now, settle_withdrawal, settle_completed,
}
use bonde_backend.Finance.Ledger.Accounts.{balance_of, IsValid}
use bonde_backend.Common.Table.{find_first-update_many, find_first, update_many}
use bonde_backend.Common.{List, ◌==◌, ap, arith, if◌then◌else◌}
use bonde_backend.Finance.Ledger.{Posting, post}
use bonde_backend.Common.Http.{
  provider_error, throw_if-ok, or_throw, or_throw-ok, other_error, ok_of_bind, ok,
}
use bonde_backend.Finance.Operations.{is_succeeded, or_else, find_operation}
use bonde_backend.Finance.Database.{
  reversed, succeeded, OperationStatus, failed, Database, Operation,
}
use bonde_backend.Finance.Worker.{
  is_payment_of, release_postings, Prefix, is_final, holds_funds, fail_operation, return_funds_of,
}
use bonde_backend.Finance.Runtime.{Runtime}
use bonde_backend.Common.{◌+◌, none, Bool, ℕ, refl, ◌≡◌, true, false}

-- An operation is found as an update by its id has left it.
find_updated :
    (id : ℕ) (f : Operation → Operation)
    → ((op : Operation) → (f op).id ≡ op.id)
    → (db db' : Database) (current : Operation)
    → update_many (λ (op : Operation). op.id == id) f db.operations ≡ db'.operations
    → find_operation id db ≡ ok current
    → find_operation id db' ≡ ok (f current)
find_updated id f same db db' current updated found =
    let missing = other_error "No FinanceOperation found" in
    let there =
      or_throw-ok (find_first (λ (op : Operation). op.id == id) db.operations) missing found in
    ap (λ o. or_throw o missing)
      (rw updated at (
        find_first-update_many (λ (op : Operation). op.id == id) f
          (λ op. ap (λ n. n == id) (same op)) db.operations there))

module _ (rt : Runtime) where
  -- What a call of `fail` that returns has found and done.
  returned-Posted :
      (op : Operation) (db db' : Database)
      → holds_funds op.kind ≡ true
      → return_funds_of rt op db ≡ ok db'
      → post rt.before rt.new_journal
          (record { prefix = Prefix.release; id = op.id })
          (release_postings op)
          db.ledger
        ≡ ok db'.ledger
  unfolding return_funds_of
  returned-Posted op db db' held h =
      let (t, posted, same) =
        ok_of_bind
          (if holds_funds op.kind
            then post rt.before rt.new_journal (record { prefix = Prefix.release; id = op.id })
                (release_postings op) db.ledger
            else ok db.ledger)
          _ h in
      grind (arith, held, posted, same)

  -- Once an operation has failed, succeeded or been reversed, no call of `fail` changes any table.
  fail_operation-final :
      (op current : Operation) (db : Database)
      → find_operation op.id db ≡ ok current
      → is_final current.status ≡ true
      → fail_operation rt op db ≡ ok db
  unfolding fail_operation
  fail_operation-final op current db found final = rw (found, final) refl

  returned-status :
      (op current : Operation) (db db' : Database)
      → find_operation op.id db ≡ ok current
      → return_funds_of rt op db ≡ ok db'
      → find_operation op.id db' ≡ ok (record current { status = failed; lease_until = none })
  unfolding return_funds_of
  returned-status op current db db' found h =
      let (t, posted, same) =
        ok_of_bind
          (if holds_funds op.kind
            then post rt.before rt.new_journal (record { prefix = Prefix.release; id = op.id })
                (release_postings op) db.ledger
            else ok db.ledger)
          _ h in
      find_updated op.id (λ (o : Operation). record o { status = failed; lease_until = none })
        (λ o. refl) db db' current (ap (λ r. (or_else r db).operations) same) found

  -- A call of `fail` that returns leaves the operation in a final status, so that a second call changes
  -- nothing: its funds are returned once.
  pub fail_operation_once :
      (op : Operation) (db db' : Database)
      → fail_operation rt op db ≡ ok db'
      → fail_operation rt op db' ≡ ok db'
  unfolding fail_operation
  fail_operation_once op db db' h =
      let (current, found, h₁) = ok_of_bind (find_operation op.id db) _ h in
      go current found (is_final current.status) refl h₁
    where
      go :
          (current : Operation)
          → find_operation op.id db ≡ ok current
          → (b : Bool) → is_final current.status ≡ b
          → (if b then ok db else return_funds_of rt op db) ≡ ok db'
          → fail_operation rt op db' ≡ ok db'
      go current found true final same = grind (arith, found, final, same)
      go current found false final returned =
          fail_operation-final op _ db' (returned-status op current db db' found returned) refl

  hold_released :
      (op : Operation)
      → net_to (hold_key op.id op.currency) (release_postings op)
        ≡ negate (pos (op.amount + op.fee))
  hold_released op = grind int_laws

  wallet_credited :
      (op : Operation)
      → net_to (wallet_key op.user_id op.currency) (release_postings op) ≡ pos (op.amount + op.fee)
  wallet_credited op = grind int_laws

  -- No third account is in the call.
  other_kept :
      (op : Operation) (k : AccountKey)
      → (net_to k (release_postings op) ≡ pos 0)
        ⊎ (k ≡ hold_key op.id op.currency)
        ⊎ (k ≡ wallet_key op.user_id op.currency)
  other_kept op k = elim (AccountKey-discrete (hold_key op.id op.currency) k) [
    | yes same ↦ inr (inl (sym same))
    | no not_hold ↦ elim (AccountKey-discrete (wallet_key op.user_id op.currency) k) [
      | yes same ↦ inr (inr (sym same))
      | no not_wallet ↦ inl (grind (arith, not_hold, not_wallet))
    ]
  ]

  -- A call of `fail` that returns, for an issue or a withdrawal that has not ended, in valid tables, takes
  -- the amount and the fee of the operation from its hold, adds them to the wallet of its user, touches no
  -- other balance, and marks the operation failed.
  pub fail_operation_returns :
      (op current : Operation) (db db' : Database)
      → IsValid db.ledger
      → holds_funds op.kind ≡ true
      → find_operation op.id db ≡ ok current
      → is_final current.status ≡ false
      → fail_operation rt op db ≡ ok db'
      → let hold = hold_key op.id op.currency in
        let wallet = wallet_key op.user_id op.currency in
        (balance_of hold db'.ledger.accounts
          ≡ balance_of hold db.ledger.accounts +ℤ negate (pos (op.amount + op.fee)))
        × (balance_of wallet db'.ledger.accounts
            ≡ balance_of wallet db.ledger.accounts +ℤ pos (op.amount + op.fee))
        × ((k : AccountKey)
            → (balance_of k db'.ledger.accounts ≡ balance_of k db.ledger.accounts)
              ⊎ (k ≡ hold)
              ⊎ (k ≡ wallet))
        × (find_operation op.id db' ≡ ok (record current { status = failed; lease_until = none }))
  unfolding fail_operation
  fail_operation_returns op current db db' v held found open_now h =
      let returned : return_funds_of rt op db ≡ ok db' = grind (arith, found, open_now, h) in
      let moved =
        post_balances rt.before rt.new_journal (record { prefix = Prefix.release; id = op.id })
          (release_postings op) db.ledger db'.ledger v (returned-Posted op db db' held returned) in
      (
        rw (hold_released op) at (moved (hold_key op.id op.currency)),
        rw (wallet_credited op) at (moved (wallet_key op.user_id op.currency)),
        λ k. elim (other_kept op k) [
          | inl unmoved ↦ inl (grind (int_laws, moved k, unmoved))
          | inr named ↦ inr named
        ],
        returned-status op current db db' found returned,
      )

  settled-final :
      (op : Operation) (lines : List Posting) (exceeds : Bool) (status : OperationStatus)
      (db db' : Database)
      → is_final status ≡ true
      → (if is_succeeded status then ok db else settle_now rt op lines exceeds status db) ≡ ok db'
      → db' ≡ db
  unfolding settle_now
  settled-final op lines exceeds succeeded db db' final h = cc
  settled-final op lines exceeds failed db db' final h = cc
  settled-final op lines exceeds reversed db db' final h = cc
  settled-final op lines exceeds _ db db' final h = cc

  settle_completed-final :
      (op current : Operation) (fees : Fees) (db db' : Database)
      → find_operation op.id db ≡ ok current
      → is_final current.status ≡ true
      → settle_completed rt op fees db ≡ ok db'
      → db' ≡ db
  unfolding settle_completed
  settle_completed-final op current fees db db' found final h =
      let (read, fees_read, h₁) = ok_of_bind (read_fees op fees) _ h in
      settled-final op read.0 read.1 current.status db db' final (rw found at h₁)

  -- Once a withdrawal has failed, succeeded or been reversed, whatever the bank says of its transfer, no
  -- call of `settleWithdrawal` that returns changes any table: it is paid once, or returned once.
  pub settle_withdrawal_once :
      (op current : Operation) (paid : Transfer) (db db' : Database)
      → find_operation op.id db ≡ ok current
      → is_final current.status ≡ true
      → settle_withdrawal rt op paid db ≡ ok db'
      → db' ≡ db
  unfolding settle_withdrawal
  settle_withdrawal_once op current paid db db' found final h =
      let (_, h₁) = throw_if-ok (not (is_between rt op paid)) (provider_error false 400) _ h in
      let (_, h₂) = throw_if-ok (not (is_payment_of rt op paid)) (provider_error false 502) _ h₁ in
      go (has_failed paid.status) (is_completed paid.status) h₂
    where
      go :
          (b c : Bool)
          → (if b
              then fail_operation rt op db
              else if c
              then settle_completed rt op paid.fees db
              else ok db)
            ≡ ok db'
          → db' ≡ db
      go true c returned = let final_call = fail_operation-final op current db found final in cc
      go false true returned =
          settle_completed-final op current paid.fees db db' found final returned
      go false false returned = cc
