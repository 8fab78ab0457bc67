-- ===== src/Finance/Events/Safety.antt =====
-- The reports of the bank and of the issuer keep the ledger sound, when their handlers throw and when they
-- do not.
use bonde_backend.Common.{◌==◌, not, ◌&&◌, is_some}
use bonde_backend.Finance.Operations.{count_held, with_ledger, find_card}
use bonde_backend.Finance.Retirement.{mark}
use bonde_backend.Finance.Retirement.Safety.{mark-IsKept}
use bonde_backend.Common.{if◌then◌else◌}
use bonde_backend.Finance.Worker.Safety.{settle_withdrawal-Keeps, settle_sweep-Keeps}
use bonde_backend.Common.Http.{Result}
use bonde_backend.Finance.Operations.Safety.{
  project-Keeps, return_allocation-Keeps, when_some-Keeps, attempt_rules, Leaves,
}
use bonde_backend.Finance.Kept.{
  if-Keeps, bind-Keeps, then-Keeps, moved-Keeps, IsKept-refl, call-Keeps, post-Posts, kept_rules,
  posted-Keeps, IsKept, Keeps,
}
use bonde_backend.Finance.Providers.{
  is_remote_active, is_remote_canceled, RemoteCard, RemoteStatus, Transfer,
}
use bonde_backend.Finance.Events.Cards.{
  requeue, closing_reason, mark_closed, RemoteAuthorization, retire_again, card_in_transaction,
  declined_in_transaction, card_event, mirror_card, declined_event, return_declined,
}
use bonde_backend.Finance.Events.Bank.{
  create_operation, bank_debit, deposit_in_transaction, bank_event, bank_kind, payout_event,
  bank_reversal, reverse_payout, bank_credit, deposit_now,
}
use bonde_backend.Finance.Runtime.{Runtime}
use bonde_backend.Finance.Database.{
  EventType, Authorization, InboxRow, OperationStatus, Customer, Database, Card, Operation,
  account_credit, account_debit,
}
use bonde_backend.Common.{Bool, ℕ, true, false}

pub create_operation-Keeps :
    (op : Operation) (db : Database) → Keeps db.ledger (create_operation op db)
create_operation-Keeps op db = search kept_rules

module _ (rt : Runtime) where
  deposit_now-Keeps :
      (customer : Customer) (id amount : ℕ) (db : Database)
      → Keeps db.ledger (deposit_now rt customer id amount db)
  unfolding deposit_now
  deposit_now-Keeps customer id amount db =
      posted-Keeps db.ledger _ _ (post-Posts db.ledger _ _ _ _) (λ t kept.
        then-Keeps db.ledger t _ _ (project-Keeps _ _ _ _ _ _ _ (with_ledger db t)) kept
          (λ shown before.
            moved-Keeps db.ledger shown.ledger _ (create_operation-Keeps _ shown) before))

  bank_credit-Keeps :
      (inbox id : ℕ) (incoming : Transfer) (db : Database)
      → Keeps db.ledger (bank_credit rt inbox id incoming db)
  unfolding bank_credit deposit_in_transaction
  bank_credit-Keeps inbox id incoming db =
      search (kept_rules, call-Keeps, deposit_now-Keeps) depth 12

  reverse_payout-Keeps :
      (op : Operation) (id : ℕ) (status : OperationStatus) (db : Database)
      → Keeps db.ledger (reverse_payout rt op id status db)
  unfolding reverse_payout
  reverse_payout-Keeps op id status db = search kept_rules

  bank_reversal-Keeps :
      (op : Operation) (inbox id : ℕ) (outgoing : Transfer) (db : Database)
      → Keeps db.ledger (bank_reversal rt op inbox id outgoing db)
  unfolding bank_reversal
  bank_reversal-Keeps op inbox id outgoing db =
      search (kept_rules, call-Keeps, reverse_payout-Keeps) depth 8

  payout_event-Leaves :
      (op : Operation) (inbox id : ℕ) (outgoing : Transfer) (db : Database)
      → Leaves db.ledger (payout_event rt op inbox id outgoing db)
  unfolding payout_event
  payout_event-Leaves op inbox id outgoing db =
      search (attempt_rules, settle_sweep-Keeps, bank_reversal-Keeps, settle_withdrawal-Keeps) depth
        8

  bank_kind-Leaves :
      (type : EventType) (inbox id : ℕ) (found : Transfer) (db : Database)
      → Leaves db.ledger (bank_kind rt type inbox id found db)
  unfolding bank_kind bank_debit
  bank_kind-Leaves account_credit inbox id found db = search (attempt_rules, bank_credit-Keeps)
  bank_kind-Leaves account_debit inbox id found db = search (attempt_rules, payout_event-Leaves)
  bank_kind-Leaves _ inbox id found db = IsKept-refl db.ledger

  pub bank_event-Leaves :
      (row : InboxRow) (answer : Result Transfer) (db : Database)
      → Leaves db.ledger (bank_event rt row answer db)
  unfolding bank_event
  bank_event-Leaves row answer db = search (attempt_rules, bank_kind-Leaves)

  return_declined-Keeps :
      (a : Authorization) (db : Database) → Keeps db.ledger (return_declined rt a db)
  unfolding return_declined
  return_declined-Keeps a db = search kept_rules

  pub declined_event-Keeps :
      (inbox id : ℕ) (answer : Result RemoteAuthorization) (db : Database)
      → Keeps db.ledger (declined_event rt inbox id answer db)
  unfolding declined_event declined_in_transaction
  declined_event-Keeps inbox id answer db =
      search (when_some-Keeps, kept_rules, call-Keeps, return_declined-Keeps) depth 12

  mark_closed-IsKept :
      (card : Card) (status : RemoteStatus) (now : ℕ) (db : Database)
      → IsKept db.ledger (mark_closed rt card status now db).ledger
  mark_closed-IsKept card status now db = go (is_remote_canceled status)
    where
      go :
          (b : Bool)
          → IsKept db.ledger
              (if b
                then mark
                    (rt.retire_key card.id)
                    rt.new_operation
                    card
                    (closing_reason card)
                    false
                    now
                    db
                else db).ledger
      go true = mark-IsKept db.ledger _ _ card _ false now db (IsKept-refl db.ledger)
      go false = IsKept-refl db.ledger

  mirror_card-Keeps :
      (inbox : ℕ) (card : Card) (remote : RemoteStatus) (db : Database)
      → Keeps db.ledger (mirror_card rt inbox card remote db)
  unfolding mirror_card
  mirror_card-Keeps inbox card remote db =
      search (kept_rules, call-Keeps, return_allocation-Keeps) depth 8

  card_in_transaction-Keeps :
      (inbox : ℕ) (card : Card) (remote : RemoteStatus) (now : ℕ) (db : Database)
      → Keeps db.ledger (card_in_transaction rt inbox card remote now db)
  unfolding card_in_transaction retire_again
  card_in_transaction-Keeps inbox card remote now db =
      bind-Keeps db.ledger (find_card card.id db) _ (λ current.
        if-Keeps db.ledger (is_some current.retired_at && is_remote_active remote) _ _
          (mark-IsKept db.ledger _ _ current (closing_reason current) true now (requeue current db)
            (IsKept-refl db.ledger))
          (if-Keeps db.ledger
            (is_remote_canceled remote
              && not (count_held card.id (mark_closed rt current remote now db) == 0))
            _ _ (mark_closed-IsKept current remote now db)
            (moved-Keeps db.ledger (mark_closed rt current remote now db).ledger _
              (mirror_card-Keeps inbox card remote (mark_closed rt current remote now db))
              (mark_closed-IsKept current remote now db))))

  pub card_event-Keeps :
      (inbox id : ℕ) (answer : Result RemoteCard) (now : ℕ) (db : Database)
      → Keeps db.ledger (card_event rt inbox id answer now db)
  unfolding card_event
  card_event-Keeps inbox id answer now db = search (kept_rules, card_in_transaction-Keeps) depth 8
