-- ===== src/Finance/Retirement/Process.antt =====
-- `process` of src/modules/finance/finance-retirement.service.ts: a card that has been marked is switched
-- off at its issuer, and its money goes back to the wallet.
use bonde_backend.Finance.Types.{Prefix}
use bonde_backend.Common.Int.{pos}
use bonde_backend.Finance.Retirement.{release, lease, update_card}
use bonde_backend.Finance.Operations.{
  or_else, return_allocation, finished, count_held, transact, Attempt, find_card, set_operation,
}
use bonde_backend.Common.Table.{count_where}
use bonde_backend.Finance.Runtime.{Runtime}
use bonde_backend.Finance.Database.{
  unknown, card_was_retired, pending, retired, paused, processed, closed, cancelled, succeeded,
  InboxRow, Card, CardStatus, Operation, Database,
}
use bonde_backend.Finance.Providers.{
  issuer_canceled, is_remote_canceled, issuer_inactive, is_remote_active, RemoteStatus, RemoteCard,
}
use bonde_backend.Common.{
  ℕ, Bool, true, false, not, ◌&&◌, ◌||◌, some, ◌∷◌, ◌==◌, same_id, is_some, if◌then◌else◌,
}
use bonde_backend.Common.Http.{conflict, other_error, Result, ok, ◌>>=◌, ◌>>◌, throw_if, or_throw}

-- What the issuer answers: the card, the request to switch it off, and the card again.
pub record RetireReplies : Type 0 where
  pub card : Result RemoteCard
  pub switched_off : Result (Unit {0})
  pub card_after : Result RemoteCard

-- `['inactive', 'canceled'].includes(status)`
abbrev pub is_off : RemoteStatus → Bool
is_off issuer_inactive = true
is_off issuer_canceled = true
is_off _ = false

abbrev pub confirmed : ℕ → RemoteCard → Result RemoteStatus
confirmed external remote = do
  throw_if (not (same_id remote.id (some external) && is_off remote.status))
      (other_error "Provider deactivation not confirmed")
  ok remote.status

unfoldable pub switch_off : RetireReplies → ℕ → Result RemoteStatus
switch_off replies external = do
  remote ← replies.card
  throw_if (not (same_id remote.id (some external))) (other_error "Provider card mismatch")
  if is_remote_active remote.status
      then replies.switched_off >> (replies.card_after >>= confirmed external)
      else confirmed external remote

-- `financeInbox.count({ where: { cardId, status: { not: 'PROCESSED' } } })`
abbrev pub count_unresolved : ℕ → Database → ℕ
count_unresolved card db =
    count_where
      (λ (row : InboxRow).
        same_id row.card_id (some card) && elim row.status [ processed ↦ false | _ ↦ true ])
      db.inbox

abbrev pub off_status : RemoteStatus → CardStatus
off_status status = if is_remote_canceled status then cancelled else paused

-- The last writes.
abbrev pub close_retired : Operation → ℕ → RemoteStatus → Database → Database
close_retired op card status db =
    let kept : Database = set_operation op.id succeeded (
      update_card card
        (λ (c : Card). record c {
          retirement_status = some (if is_remote_canceled status then closed else retired);
          balance = pos 0;
        })
        db) in
    record kept { history = record { card_id = card; event = card_was_retired } ∷ kept.history }

module _ (rt : Runtime) where
  unfoldable pub retire_in_transaction :
      Operation → Card → RemoteStatus → Database → Result Database
  retire_in_transaction op card status db = do
    current ← find_card card.id db
    throw_if (not (is_some current.retired_at)) (other_error "Missing permanent retirement marker")
    let off : Database =
        update_card card.id (λ (c : Card). record c { status = off_status status }) db
    if not (count_held card.id db == 0) || not (count_unresolved card.id db == 0)
        then ok (set_operation op.id pending off)
        else return_allocation rt op.id card.user_id card.id card.currency
            (record { prefix = Prefix.retire; id = card.id }) off
          >>= λ returned. ok (close_retired op card.id status returned)

  -- The body of the `try`.
  unfoldable pub retire_at_issuer : RetireReplies → Operation → ℕ → Database → Result Database
  retire_at_issuer replies op card_id db = do
    card ← find_card card_id db
    throw_if (not (is_some card.retired_at))
        (conflict "Retirement is waiting for card provisioning")
    external ←
        or_throw card.external_reference_id (conflict "Retirement is waiting for card provisioning")
    status ← switch_off replies external
    retire_in_transaction op card status db

  -- `op.cardId!` is not null for a retirement.
  unfoldable pub retire_process : RetireReplies → Operation → ℕ → ℕ → Database → Attempt
  retire_process replies op card_id now db = transact db (lease card_id op.id now db) λ leased.
      finished (
        release card_id op.id (
          or_else (retire_at_issuer replies op card_id leased)
            (set_operation op.id unknown leased)))
