-- ===== src/Finance/Events/Inbox.antt =====
-- `run` and `sudoEvent` of src/modules/finance/finance-events.service.ts: the reports that wait are given to
-- their handlers, the oldest first.
use bonde_backend.Finance.Events.Bank.{bank_event}
use bonde_backend.Finance.Events.Transactions.{transaction_event, RemoteTransaction}
use bonde_backend.Common.Table.{find_many}
use bonde_backend.Finance.Events.{catch_event}
use bonde_backend.Finance.Operations.{finished, transact, Attempt}
use bonde_backend.Finance.Events.Cards.{card_event, declined_event, RemoteAuthorization}
use bonde_backend.Finance.Runtime.{Runtime}
use bonde_backend.Finance.Database.{
  EventType, transaction_refund, transaction_created, card_terminated, card_updated,
  authorization_declined, retry, received, Database, InboxRow,
}
use bonde_backend.Finance.Providers.{RemoteCard, Transfer}
use bonde_backend.Common.{length}
use bonde_backend.Common.{ℕ, Bool, true, false, some, List, [], ◌∷◌, ◌++◌, ltb, if◌then◌else◌}
use bonde_backend.Common.Http.{provider_error, Result}

-- What the providers answer when a report is looked up.
pub record Answers : Type 0 where
  pub transfer_found : Result Transfer
  pub authorization_found : Result RemoteAuthorization
  pub card_found : Result RemoteCard
  pub transaction_found : Result RemoteTransaction

abbrev pub is_waiting : InboxRow → Bool
is_waiting row = elim row.status [ received ↦ true | retry ↦ true | _ ↦ false ]

-- `take` of a query, of the last rows of the list, which are the oldest.
unfoldable pub oldest : {A : Type 0} → ℕ → List A → List A
oldest n [] = []
oldest n (x ∷ xs) = let rest = oldest n xs in if ltb (length rest) n then rest ++ (x ∷ []) else rest

module _ (rt : Runtime) where
  unfoldable pub sudo_kind : EventType → ℕ → ℕ → Answers → ℕ → Database → Attempt
  sudo_kind authorization_declined inbox id answers now db =
      transact db (declined_event rt inbox id answers.authorization_found db) finished
  sudo_kind card_updated inbox id answers now db =
      transact db (card_event rt inbox id answers.card_found now db) finished
  sudo_kind card_terminated inbox id answers now db =
      transact db (card_event rt inbox id answers.card_found now db) finished
  sudo_kind transaction_created inbox id answers now db =
      transaction_event rt inbox id false answers.transaction_found now db
  sudo_kind transaction_refund inbox id answers now db =
      transaction_event rt inbox id true answers.transaction_found now db
  sudo_kind _ inbox id answers now db = (db, some (provider_error true 400))

  unfoldable pub handle_event : InboxRow → Answers → ℕ → Database → Attempt
  handle_event row answers now db =
      if row.is_safe_haven
      then bank_event rt row answers.transfer_found db
      else sudo_kind row.event_type row.id row.object_id answers now db

  -- One report, whose handler may throw.
  unfoldable pub process_event : InboxRow → Answers → ℕ → Database → Database
  process_event row answers now db = catch_event row.id (handle_event row answers now db)

-- One turn of the loop of `run`: what the runtime supplies to it, what the providers answer, and when.
pub record Turn : Type 0 where
  pub runtime : Runtime
  pub answers : Answers
  pub now : ℕ

unfoldable pub process_events : List InboxRow → (InboxRow → Turn) → Database → Database
process_events [] turns db = db
process_events (row ∷ rows) turns db =
    let turn = turns row in
    process_events rows turns (process_event turn.runtime row turn.answers turn.now db)

unfoldable pub run_events : (InboxRow → Turn) → Database → Database
run_events turns db = process_events (oldest 25 (find_many is_waiting db.inbox)) turns db
