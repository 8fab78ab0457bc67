-- ===== src/Finance/Worker/Safety.antt =====
-- The handlers of the worker keep the ledger sound.
use bonde_backend.Common.Http.{Result}
use bonde_backend.Finance.Operations.Safety.{attempt_rules, Leaves, return_allocation-Keeps}
use bonde_backend.Finance.Kept.{call-Keeps, kept_rules, Posts, Keeps}
use bonde_backend.Common.Int.{ℤ}
use bonde_backend.Finance.Ledger.{Posting, Store}
use bonde_backend.Finance.Providers.{Fees, IssuedCard, RemoteStatus, Transfer}
use bonde_backend.Finance.Database.{OperationStatus, Database, Operation}
use bonde_backend.Finance.Worker.Lifecycle.{lifecycle_now, close_card, finish_lifecycle}
use bonde_backend.Finance.Worker.Withdrawal.{
  sweep_account, withdraw_funds, settle_now, settle_completed, settle_withdrawal, pay_out,
}
use bonde_backend.Finance.Worker.Issue.{
  FundingSource, issue_card, finish_issue, issue_now, post_issue,
}
use bonde_backend.Finance.Worker.{return_funds_of, settle_sweep, fail_operation}
use bonde_backend.Finance.Runtime.{Runtime}
use bonde_backend.Common.{Option, Bool, List, ℕ}

module _ (rt : Runtime) where
  pub fail_operation-Keeps :
      (op : Operation) (db : Database) → Keeps db.ledger (fail_operation rt op db)
  unfolding fail_operation return_funds_of
  fail_operation-Keeps op db = search kept_rules

  pub settle_sweep-Keeps :
      (op : Operation) (paid : Transfer) (db : Database)
      → Keeps db.ledger (settle_sweep rt op paid db)
  unfolding settle_sweep
  settle_sweep-Keeps op paid db = search kept_rules

  post_issue-Posts : (op : Operation) (card : ℕ) (s : Store) → Posts s (post_issue rt op card s)
  unfolding post_issue
  post_issue-Posts op card s = search kept_rules

  issue_now-Keeps :
      (op : Operation) (id : ℕ) (status : RemoteStatus) (year : ℤ) (month : ℕ) (db : Database)
      → Keeps db.ledger (issue_now rt op id status year month db)
  unfolding issue_now
  issue_now-Keeps op id status year month db = search (kept_rules, post_issue-Posts)

  pub finish_issue-Keeps :
      (op : Operation) (issued : IssuedCard) (db : Database)
      → Keeps db.ledger (finish_issue rt op issued db)
  unfolding finish_issue
  finish_issue-Keeps op issued db = search (kept_rules, issue_now-Keeps)

  pay_out-Keeps :
      (op : Operation) (lines : List Posting) (db : Database)
      → Keeps db.ledger (pay_out rt op lines db)
  unfolding pay_out
  pay_out-Keeps op lines db = search kept_rules

  settle_now-Keeps :
      (op : Operation) (lines : List Posting) (exceeds : Bool) (status : OperationStatus)
      (db : Database)
      → Keeps db.ledger (settle_now rt op lines exceeds status db)
  unfolding settle_now
  settle_now-Keeps op lines exceeds status db = search (kept_rules, call-Keeps, pay_out-Keeps)

  settle_completed-Keeps :
      (op : Operation) (fees : Fees) (db : Database)
      → Keeps db.ledger (settle_completed rt op fees db)
  unfolding settle_completed
  settle_completed-Keeps op fees db = search (kept_rules, settle_now-Keeps)

  pub settle_withdrawal-Keeps :
      (op : Operation) (paid : Transfer) (db : Database)
      → Keeps db.ledger (settle_withdrawal rt op paid db)
  unfolding settle_withdrawal
  settle_withdrawal-Keeps op paid db =
      search (kept_rules, settle_completed-Keeps, fail_operation-Keeps)

  close_card-Keeps :
      (op : Operation) (card : ℕ) (db : Database) → Keeps db.ledger (close_card rt op card db)
  unfolding close_card
  close_card-Keeps op card db = search (kept_rules, return_allocation-Keeps)

  lifecycle_now-Keeps :
      (op : Operation) (card now : ℕ) (db : Database)
      → Keeps db.ledger (lifecycle_now rt op card now db)
  unfolding lifecycle_now
  lifecycle_now-Keeps op card now db = search (kept_rules, call-Keeps, close_card-Keeps) depth 8

  pub finish_lifecycle-Keeps :
      (op : Operation) (card now : ℕ) (db : Database)
      → Keeps db.ledger (finish_lifecycle rt op card now db)
  unfolding finish_lifecycle
  finish_lifecycle-Keeps op card now db = search (kept_rules, lifecycle_now-Keeps)

  pub issue_card-Leaves :
      (source : Result FundingSource) (created : Result IssuedCard) (op : Operation) (db : Database)
      → Leaves db.ledger (issue_card rt source created op db)
  unfolding issue_card
  issue_card-Leaves source created op db = search (attempt_rules, finish_issue-Keeps)

  pub withdraw_funds-Leaves :
      (resolved : Result (Option ℕ × Option ℕ)) (sent : Result Transfer) (op : Operation)
      (db : Database)
      → Leaves db.ledger (withdraw_funds rt resolved sent op db)
  unfolding withdraw_funds
  withdraw_funds-Leaves resolved sent op db = search (attempt_rules, settle_withdrawal-Keeps)

  pub sweep_account-Leaves :
      (enquiry : Result (Option ℕ)) (sent : Result Transfer) (op : Operation) (db : Database)
      → Leaves db.ledger (sweep_account rt enquiry sent op db)
  unfolding sweep_account
  sweep_account-Leaves enquiry sent op db = search (attempt_rules, settle_sweep-Keeps)
