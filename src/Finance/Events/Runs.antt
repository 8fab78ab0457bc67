-- ===== src/Finance/Events/Runs.antt =====
-- The settlement of purchases, and a whole run of the inbox, keep the ledger sound.
use bonde_backend.Finance.Retirement.Safety.{mark_if-IsKept}
use bonde_backend.Finance.Policy.{snapshot}
use mathlib.Core.Option.{none}
use bonde_backend.Finance.Events.Safety.{card_event-Keeps, bank_event-Leaves, declined_event-Keeps}
use bonde_backend.Finance.Operations.Safety.{project-Keeps, attempt_rules, Leaves}
use bonde_backend.Finance.Kept.{
  bind-Keeps, then-Keeps, post-Posts, IsKept-trans, posted-Keeps, IsKept-refl, guard-Keeps,
  kept_rules, IsKept, Keeps,
}
use bonde_backend.Finance.Operations.{Attempt}
use bonde_backend.Common.Http.{Result}
use bonde_backend.Finance.Ledger.{Store}
use bonde_backend.Finance.Events.{catch_event}
use bonde_backend.Finance.Events.Transactions.{
  RemoteTransaction, settle_nothing, settle_open, Settlement, transaction_event,
  settle_in_transaction, settle, refund, capture, reverse_hold, budget_alerts,
}
use bonde_backend.Finance.Events.Inbox.{
  Turn, Answers, process_event, handle_event, sudo_kind, process_events,
}
use bonde_backend.Finance.Runtime.{Runtime}
use bonde_backend.Common.{some, Bool, ℕ, true, false, [], ◌∷◌, List}
use bonde_backend.Finance.Database.{
  Database, EventType, Card, InboxRow, transaction_created, transaction_refund,
  authorization_declined, card_updated, card_terminated,
}

module _ (rt : Runtime) where
  pub budget_alerts-Keeps :
      (card : Card) (amount now : ℕ) (db : Database)
      → Keeps db.ledger (budget_alerts rt card amount now db)
  unfolding budget_alerts
  budget_alerts-Keeps card amount now db = search kept_rules

  reverse_hold-Keeps : (t : Settlement) (db : Database) → Keeps db.ledger (reverse_hold rt t db)
  unfolding reverse_hold
  reverse_hold-Keeps t db = search kept_rules

  capture-Keeps :
      (t : Settlement) (current : Card) (now : ℕ) (db : Database)
      → Keeps db.ledger (capture rt t current now db)
  unfolding capture
  capture-Keeps t current now db = guard-Keeps db.ledger _ _ _ (
      posted-Keeps db.ledger _ _ (post-Posts db.ledger _ _ _ _) (λ s kept.
        then-Keeps db.ledger s _ _ (project-Keeps _ _ _ _ _ _ _ _) kept (λ shown before.
          then-Keeps db.ledger shown.ledger _ _ (budget_alerts-Keeps t.card t.amount now _) before
            (λ alerted sound.
              bind-Keeps db.ledger (snapshot rt.parse rt.month_start current now alerted) _
                (λ usage. mark_if-IsKept db.ledger _ _ current usage.reason now alerted sound)))))

  refund-Keeps :
      (t : Settlement) (to_wallet : Bool) (db : Database)
      → Keeps db.ledger (refund rt t to_wallet db)
  unfolding refund
  refund-Keeps t to_wallet db = guard-Keeps db.ledger _ _ _ (
      posted-Keeps db.ledger _ _ (post-Posts db.ledger _ _ _ _) (λ s kept.
        then-Keeps db.ledger s _ _ (project-Keeps _ _ _ _ _ _ _ _) kept (λ shown before. before)))

  settle-Keeps :
      (t : Settlement) (refunds : Bool) (now : ℕ) (db : Database)
      → Keeps db.ledger (settle rt t refunds now db)
  unfolding settle
  settle-Keeps t refunds now db =
      search (kept_rules, reverse_hold-Keeps, refund-Keeps, capture-Keeps) depth 8

  settle_in_transaction-Keeps :
      (inbox id amount auth : ℕ) (card : Card) (refunds : Bool) (now : ℕ) (db : Database)
      → Keeps db.ledger (settle_in_transaction rt inbox id amount auth card refunds now db)
  unfolding settle_in_transaction settle_open settle_nothing
  settle_in_transaction-Keeps inbox id amount auth card refunds now db =
      search (kept_rules, settle-Keeps) depth 12

  transaction_event-Leaves :
      (inbox id : ℕ) (refunds : Bool) (answer : Result RemoteTransaction) (now : ℕ) (db : Database)
      → Leaves db.ledger (transaction_event rt inbox id refunds answer now db)
  unfolding transaction_event
  transaction_event-Leaves inbox id refunds answer now db =
      search (attempt_rules, settle_in_transaction-Keeps) depth 8

  sudo_kind-Leaves :
      (type : EventType) (inbox id : ℕ) (answers : Answers) (now : ℕ) (db : Database)
      → Leaves db.ledger (sudo_kind rt type inbox id answers now db)
  unfolding sudo_kind
  sudo_kind-Leaves authorization_declined inbox id answers now db =
      search (attempt_rules, declined_event-Keeps)
  sudo_kind-Leaves card_updated inbox id answers now db = search (attempt_rules, card_event-Keeps)
  sudo_kind-Leaves card_terminated inbox id answers now db =
      search (attempt_rules, card_event-Keeps)
  sudo_kind-Leaves transaction_created inbox id answers now db =
      transaction_event-Leaves inbox id false answers.transaction_found now db
  sudo_kind-Leaves transaction_refund inbox id answers now db =
      transaction_event-Leaves inbox id true answers.transaction_found now db
  sudo_kind-Leaves _ inbox id answers now db = IsKept-refl db.ledger

  handle_event-Leaves :
      (row : InboxRow) (answers : Answers) (now : ℕ) (db : Database)
      → Leaves db.ledger (handle_event rt row answers now db)
  unfolding handle_event
  handle_event-Leaves row answers now db =
      search (attempt_rules, bank_event-Leaves, sudo_kind-Leaves)

  catch_event-IsKept :
      (s : Store) (inbox : ℕ) (a : Attempt) → Leaves s a → IsKept s (catch_event inbox a).ledger
  unfolding catch_event
  catch_event-IsKept s inbox (db, none) kept = kept
  catch_event-IsKept s inbox (db, some e) kept = kept

  pub process_event-IsKept :
      (row : InboxRow) (answers : Answers) (now : ℕ) (db : Database)
      → IsKept db.ledger (process_event rt row answers now db).ledger
  unfolding process_event
  process_event-IsKept row answers now db =
      catch_event-IsKept db.ledger row.id _ (handle_event-Leaves row answers now db)

-- Every run of the inbox keeps a valid ledger valid and the sum of all balances in each currency as it was,
-- whatever reports wait and whatever the providers answer.
pub process_events-IsKept :
    (rows : List InboxRow) (turns : InboxRow → Turn) (db : Database)
    → IsKept db.ledger (process_events rows turns db).ledger
unfolding process_events
process_events-IsKept [] turns db = IsKept-refl db.ledger
process_events-IsKept (row ∷ rows) turns db =
    IsKept-trans
      (process_event-IsKept (turns row).runtime row (turns row).answers (turns row).now db)
      (process_events-IsKept rows turns _)
