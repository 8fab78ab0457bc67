-- ===== src/Finance/Events/Cards.antt =====
-- `authorization.declined`, `card.updated` and `card.terminated` in `sudoEvent` of
-- src/modules/finance/finance-events.service.ts: the issuer says what became of a hold or of a card.
use bonde_backend.Finance.Providers.{issuer_active, issuer_inactive, issuer_canceled, issuer_other}
use bonde_backend.Common.Int.{◌+ℤ◌}
use bonde_backend.Common.Table.{update_many}
use bonde_backend.Common.Int.{negate, pos}
use bonde_backend.Finance.Types.{card_key, Prefix, hold_key}
use bonde_backend.Finance.Retirement.{is_retire, mark, update_card}
use bonde_backend.Finance.Events.{
  add_balance, update_authorization, find_issued, find_authorization,
}
use bonde_backend.Finance.Operations.{
  when_some, with_ledger, count_held, return_allocation, find_card, set_inbox, user_posting,
}
use bonde_backend.Finance.Providers.{
  issuer_canceled, issuer_inactive, issuer_active, is_remote_active, is_remote_canceled, RemoteCard,
  RemoteStatus,
}
use bonde_backend.Finance.Policy.{is_held}
use bonde_backend.Finance.Ledger.{Kind, post, Posting}
use bonde_backend.Finance.Runtime.{Runtime}
use bonde_backend.Finance.Database.{
  queued, succeeded, cancelled, Operation, closed, paused, retry, active, other_reason, retiring,
  processed, CardStatus, RetirementReason, Card, Database, declined, Authorization,
}
use bonde_backend.Common.{
  ℕ, ◌-◌, Bool, true, false, not, ◌&&◌, Option, none, some, List, [], ◌∷◌, ltb, ◌==◌, same_id,
  is_some, if◌then◌else◌,
}
use bonde_backend.Common.Http.{
  other_error, provider_error, Result, ok, ◌>>=◌, ◌>>◌, throw_if, or_throw,
}

abbrev pub declined_postings : Authorization → ℕ → List Posting
declined_postings a left =
    user_posting a.user_id a.currency (hold_key a.id a.currency) Kind.hold (negate (pos left))
    ∷ user_posting a.user_id a.currency (card_key a.card_id a.currency) Kind.card (pos left)
    ∷ []

-- What `/authorizations/…` answers.
pub record RemoteAuthorization : Type 0 where
  pub id : Option ℕ
  pub is_declined : Bool

abbrev pub decline_row : Authorization → Authorization
decline_row a = record a { released = a.amount; status = declined }

abbrev pub is_unsettled_hold : Authorization → Bool
is_unsettled_hold a = is_held a && a.settled == 0

-- A retired card that the issuer has made active again is retired again.
abbrev pub requeue : Card → Database → Database
requeue card db =
    record (update_card card.id (λ (c : Card). record c { retirement_status = some retiring }) db) {
      operations =
          update_many
            (λ (op : Operation).
              same_id op.card_id (some card.id)
              && is_retire op
              && elim op.status [ succeeded ↦ true | _ ↦ false ])
            (λ (op : Operation). record op { status = queued }) db.operations;
    }

-- `currentCard.retirementReason ?? 'ISSUER_CLOSED'`
abbrev pub closing_reason : Card → RetirementReason
closing_reason card = elim card.retirement_reason [ none ↦ other_reason 0 | some reason ↦ reason ]

-- `'active'`, `'inactive'` or `'canceled'`
abbrev card_status : RemoteStatus → Option CardStatus
card_status issuer_active = some active
card_status issuer_inactive = some paused
card_status issuer_canceled = some cancelled
card_status issuer_other = none

abbrev pub mirrored : RemoteStatus → CardStatus → Card → Card
mirrored remote status card =
    if is_remote_canceled remote
    then record card { status = status; balance = pos 0; retirement_status = some closed }
    else record card { status = status }

abbrev wait_for_holds : ℕ → Card → Database → Database
wait_for_holds inbox card db =
    set_inbox inbox retry (update_card card.id (λ (c : Card). record c { status = paused }) db)

module _ (rt : Runtime) where
  -- The increment is negative when more was released than held: nothing is posted then, and the cached balance
  -- goes down.
  unfoldable pub return_declined : Authorization → Database → Result Database
  return_declined a db = do
    ledger ←
        if ltb a.released a.amount
        then post rt.before rt.new_journal (record { prefix = Prefix.declined_hold; id = a.id })
            (declined_postings a (a.amount - a.released)) db.ledger
        else ok db.ledger
    ok (
        update_authorization a.id decline_row (
          update_card a.card_id (add_balance (pos a.amount +ℤ negate (pos a.released)))
            (with_ledger db ledger)))

  unfoldable pub declined_in_transaction : ℕ → ℕ → Database → Result Database
  declined_in_transaction inbox id db = do
    current ← or_throw (find_authorization id db) (other_error "No FinanceAuthorization found")
    returned ← if is_unsettled_hold current then return_declined current db else ok db
    ok (set_inbox inbox processed returned)

  unfoldable pub declined_event : ℕ → ℕ → Result RemoteAuthorization → Database → Result Database
  declined_event inbox id answer db = do
    remote ← answer
    throw_if (not (same_id remote.id (some id) && remote.is_declined)) (provider_error false 409)
    when_some (find_authorization id db) (set_inbox inbox processed db)
        (λ a. declined_in_transaction inbox id db)

  -- `mark` reads the reason of a card alone that is not yet retired, which this one is.
  unfoldable pub retire_again : Card → ℕ → Database → Database
  retire_again card now db =
      mark (rt.retire_key card.id) rt.new_operation card (closing_reason card) true now
        (requeue card db)

  abbrev pub mark_closed : Card → RemoteStatus → ℕ → Database → Database
  mark_closed card status now db =
      if is_remote_canceled status
      then mark (rt.retire_key card.id) rt.new_operation card (closing_reason card) false now db
      else db

  -- No hold is outstanding, or the card has not been closed.
  unfoldable pub mirror_card : ℕ → Card → RemoteStatus → Database → Result Database
  mirror_card inbox card remote db = do
    returned ←
        if is_remote_canceled remote
        then return_allocation rt rt.new_transaction card.user_id card.id card.currency
            (record { prefix = Prefix.issuer_close; id = card.id }) db
        else ok db
    status ← or_throw (card_status remote) (provider_error false 409)
    ok (set_inbox inbox processed (update_card card.id (mirrored remote status) returned))

  unfoldable pub card_in_transaction : ℕ → Card → RemoteStatus → ℕ → Database → Result Database
  card_in_transaction inbox card remote now db = do
    current ← find_card card.id db
    if is_some current.retired_at && is_remote_active remote
        then ok (set_inbox inbox processed (retire_again current now db))
        else let marked : Database = mark_closed current remote now db in
          if is_remote_canceled remote && not (count_held card.id marked == 0)
          then ok (wait_for_holds inbox card marked)
          else mirror_card inbox card remote marked

  unfoldable pub card_event : ℕ → ℕ → Result RemoteCard → ℕ → Database → Result Database
  card_event inbox id answer now db = do
    remote ← answer
    throw_if (not (same_id remote.id (some id))) (provider_error true 400)
    card ← or_throw (find_issued id db) (provider_error true 404)
    card_in_transaction inbox card remote.status now db
