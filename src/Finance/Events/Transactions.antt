-- ===== src/Finance/Events/Transactions.antt =====
-- `transaction.created` and `transaction.refund` in `sudoEvent`, and `budgetAlerts`, of
-- src/modules/finance/finance-events.service.ts: a purchase is settled, reversed or refunded.
use bonde_backend.Finance.Projections.{project}
use bonde_backend.Finance.Retirement.{mark_if, is_cancelled, update_card}
use bonde_backend.Common.Int.{pos, negate}
use bonde_backend.Common.Table.{update_many}
use bonde_backend.Finance.Amount.{amount_of}
use bonde_backend.Finance.Events.{
  add_balance, update_authorization, find_issued, find_inbox, find_authorization,
}
use bonde_backend.Finance.Policy.{is_held, is_purchase, snapshot}
use bonde_backend.Finance.Operations.{
  finished, with_ledger, transact, attempt, set_inbox, Attempt, find_card, system_posting,
  user_posting,
}
use bonde_backend.Common.Text.{Text}
use bonde_backend.Finance.Runtime.{Runtime}
use bonde_backend.Finance.Ledger.{has_journal, Kind, post, currency_eq, Store, Posting}
use bonde_backend.Finance.CardPolicy.{budget_alert_titles, BudgetCard, AlertTitle}
use bonde_backend.Finance.Types.{
  wallet_key, card_key, Prefix, card_clearing, Reference, system_key, hold_key, Currency,
}
use bonde_backend.Finance.Database.{
  InboxRow, budget_alert, Database, Notification, Authorization, Card, settled, held, reversed,
  payment, deposit, processed,
}
use bonde_backend.Common.{
  ℕ, ◌+◌, ◌-◌, Bool, true, false, not, ◌&&◌, ◌||◌, Option, some, List, [], ◌∷◌, ltb, ◌==◌, same_id,
  is_some, if◌then◌else◌,
}
use bonde_backend.Common.Http.{
  other_error, provider_error, Result, ok, ◌>>=◌, ◌>>◌, throw_if, or_throw,
}

-- `amount_text` is what `new Decimal(amount).abs().add(fee).add(vat).toFixed(2)` writes, or `none` if it
-- throws; `card` and `authorization` are the ids, given as such or in an object. An authorization may be
-- missing, but in an object it has an id.
pub record RemoteTransaction : Type 0 where
  pub id : Option ℕ
  pub card : Result ℕ
  pub currency : Currency
  pub authorization : Result (Option ℕ)
  pub amount_text : Option Text

abbrev pub budget_card : Card → BudgetCard
budget_card card = record {
  monthly_limit = card.monthly_limit;
  notify_half_spent = card.notify_half_spent;
  notify_low_balance = card.notify_low_balance;
  notify_budget_reached = card.notify_budget_reached;
}

abbrev pub notify_titles : ℕ → List AlertTitle → List Notification → List Notification
notify_titles user [] rows = rows
notify_titles user (title ∷ titles) rows =
    notify_titles user titles (record { user_id = user; title = budget_alert title } ∷ rows)

abbrev pub wants_alerts : Card → Bool
wants_alerts card = card.notify_half_spent || card.notify_low_balance || card.notify_budget_reached

-- The hold is given back, to the last hundredth or in part.
abbrev pub reversal_row : ℕ → Authorization → Authorization
reversal_row amount a = record a {
  released = a.released + amount;
  status = if a.released + amount == a.amount then reversed else held;
}

abbrev pub capture_row : ℕ → Authorization → Authorization
capture_row amount a = record a {
  settled = a.settled + amount;
  status = if a.settled + amount + a.released == a.amount then settled else held;
}

abbrev pub refund_row : ℕ → Authorization → Authorization
refund_row amount a = record a { refunded = a.refunded + amount }

-- What the settlement is of: the authorization, and the card as it was found outside of the transaction.
pub record Settlement : Type 0 where
  pub inbox : ℕ
  pub id : ℕ
  pub amount : ℕ
  pub auth : Authorization
  pub card : Card

abbrev pub reversal_postings : Settlement → List Posting
reversal_postings t =
    user_posting t.card.user_id t.card.currency (hold_key t.auth.id t.card.currency) Kind.hold
      (negate (pos t.amount))
    ∷ user_posting t.card.user_id t.card.currency (card_key t.card.id t.card.currency) Kind.card
        (pos t.amount)
    ∷ []

abbrev pub capture_postings : Settlement → List Posting
capture_postings t =
    user_posting t.card.user_id t.card.currency (hold_key t.auth.id t.card.currency) Kind.hold
      (negate (pos t.amount))
    ∷ system_posting t.card.currency (system_key card_clearing t.card.currency) Kind.clearing
        (pos t.amount)
    ∷ []

-- To the wallet, when the card has been retired or cancelled.
abbrev pub refund_postings : Settlement → Bool → List Posting
refund_postings t to_wallet =
    system_posting t.card.currency (system_key card_clearing t.card.currency) Kind.clearing
      (negate (pos t.amount))
    ∷ user_posting t.card.user_id t.card.currency
        (if to_wallet
          then wallet_key t.card.user_id t.card.currency
          else card_key t.card.id t.card.currency)
        (if to_wallet then Kind.wallet else Kind.card) (pos t.amount)
    ∷ []

abbrev add_capture : Settlement → ℕ → Database → Database
add_capture t now db = record db {
  captures =
      record {
        authorization_id = t.auth.id;
        card_id = t.card.id;
        is_purchase = is_purchase t.auth;
        booked_at = now;
        currency = t.card.currency;
        amount = t.amount;
      }
      ∷ db.captures;
}

abbrev add_spent : ℕ → Card → Card
add_spent amount card = record card { total_spent = card.total_spent + amount }

-- `sudo:${type}:${id}` or `sudo:reversal:${id}`
abbrev pub is_settled : Settlement → Bool → Store → Bool
is_settled t refunds s =
    has_journal (record { prefix = if refunds then Prefix.refund else Prefix.capture; id = t.id }) s
    || has_journal (record { prefix = Prefix.reversal; id = t.id }) s

-- A settlement of nothing, of an authorization that only verified the card.
unfoldable pub settle_nothing : ℕ → Authorization → Database → Result Database
settle_nothing inbox a db = do
  throw_if (is_purchase a) (provider_error true 409)
  ok (set_inbox inbox processed db)

-- The amount and the authorization.
unfoldable pub read_settlement : RemoteTransaction → Card → Result (ℕ × ℕ)
read_settlement remote card = do
  throw_if (not (currency_eq remote.currency card.currency)) (provider_error true 400)
  named ← remote.authorization
  auth ← or_throw named (provider_error true 409)
  text ← or_throw remote.amount_text (other_error "Invalid argument")
  amount ← amount_of text true
  ok (amount, auth)

unfoldable pub find_settled :
    ℕ → Result RemoteTransaction → Database → Result (RemoteTransaction × Card)
find_settled id answer db = do
  remote ← answer
  throw_if (not (same_id remote.id (some id))) (provider_error true 400)
  external ← remote.card
  card ← or_throw (find_issued external db) (provider_error true 400)
  ok (remote, card)

abbrev pub of_card : ℕ → ℕ → Database → Database
of_card inbox card db = record db {
  inbox =
      update_many (λ (row : InboxRow). row.id == inbox)
        (λ (row : InboxRow). record row { card_id = some card }) db.inbox;
}

-- `if (refund && !toWallet)`
abbrev pub refund_balance : Bool → ℕ → Card → Card
refund_balance to_wallet amount card = if to_wallet then card else add_balance (pos amount) card

abbrev pub is_processed : InboxRow → Bool
is_processed row = elim row.status [ processed ↦ true | _ ↦ false ]

module _ (rt : Runtime) where
  -- `budgetAlerts`, for a card as it was found; what is settled in the month has the amount in it.
  unfoldable pub budget_alerts : Card → ℕ → ℕ → Database → Result Database
  budget_alerts card amount now db =
      if is_some card.monthly_limit && wants_alerts card
      then (snapshot rt.parse rt.month_start card now db >>= λ usage. ok (record db {
        notifications =
            notify_titles card.user_id
              (budget_alert_titles (budget_card card) (usage.settled - amount) amount)
              db.notifications;
      }))
      else ok db

  unfoldable pub reverse_hold : Settlement → Database → Result Database
  reverse_hold t db = do
    throw_if (ltb t.auth.amount (t.auth.released + t.amount)) (provider_error false 409)
    ledger ←
        post rt.before rt.new_journal (record { prefix = Prefix.reversal; id = t.id })
          (reversal_postings t) db.ledger
    ok (
        set_inbox t.inbox processed (
          update_card t.card.id (add_balance (pos t.amount))
            (update_authorization t.auth.id (reversal_row t.amount) (with_ledger db ledger))))

  -- `current` is the card's row at the start of the transaction.
  unfoldable pub capture : Settlement → Card → ℕ → Database → Result Database
  capture t current now db = do
    throw_if (ltb t.auth.amount (t.auth.settled + t.amount + t.auth.released))
        (provider_error false 409)
    let reference : Reference = record { prefix = Prefix.capture; id = t.id }
    ledger ← post rt.before rt.new_journal reference (capture_postings t) db.ledger
    shown ←
        project rt.new_transaction t.card.user_id payment t.amount t.card.currency reference
          (some t.card.id)
          (update_card t.card.id (add_spent t.amount)
            (update_authorization t.auth.id (capture_row t.amount) (with_ledger db ledger)))
    alerted ← budget_alerts t.card t.amount now (add_capture t now shown)
    usage ← snapshot rt.parse rt.month_start current now alerted
    ok (
        set_inbox t.inbox processed
          (mark_if (rt.retire_key current.id) rt.new_operation current usage.reason now alerted))

  unfoldable pub refund : Settlement → Bool → Database → Result Database
  refund t to_wallet db = do
    throw_if (ltb t.auth.settled (t.auth.refunded + t.amount)) (provider_error false 409)
    let reference : Reference = record { prefix = Prefix.refund; id = t.id }
    ledger ← post rt.before rt.new_journal reference (refund_postings t to_wallet) db.ledger
    shown ←
        project rt.new_transaction t.card.user_id deposit t.amount t.card.currency reference
          (some t.card.id)
          (update_card t.card.id (refund_balance to_wallet t.amount)
            (update_authorization t.auth.id (refund_row t.amount) (with_ledger db ledger)))
    ok (set_inbox t.inbox processed shown)

  unfoldable pub settle : Settlement → Bool → ℕ → Database → Result Database
  settle t refunds now db = do
    current ← find_card t.card.id db
    if is_settled t refunds db.ledger
        then ok (set_inbox t.inbox processed db)
        else if refunds
        then if t.auth.settled == 0 && is_held t.auth
          then reverse_hold t db
          else refund t (is_some current.retired_at || is_cancelled current) db
        else capture t current now db

  unfoldable pub settle_open : ℕ → ℕ → ℕ → ℕ → Card → Bool → ℕ → Database → Result Database
  settle_open inbox id amount auth_id card refunds now db = do
    auth ← or_throw (find_authorization auth_id db) (provider_error false 409)
    throw_if (not (auth.card_id == card.id)) (provider_error false 409)
    if amount == 0
        then settle_nothing inbox auth db
        else settle (record { inbox = inbox; id = id; amount = amount; auth = auth; card = card })
            refunds now db

  unfoldable pub settle_in_transaction :
      ℕ → ℕ → ℕ → ℕ → Card → Bool → ℕ → Database → Result Database
  settle_in_transaction inbox id amount auth_id card refunds now db = do
    row ← find_inbox inbox db
    if is_processed row then ok db else settle_open inbox id amount auth_id card refunds now db

  unfoldable pub transaction_event :
      ℕ → ℕ → Bool → Result RemoteTransaction → ℕ → Database → Attempt
  transaction_event inbox id refunds answer now db =
      attempt db (find_settled id answer db) λ (remote, card).
        let noted : Database = of_card inbox card.id db in
        attempt noted (read_settlement remote card) λ (amount, auth_id).
          transact noted (settle_in_transaction inbox id amount auth_id card refunds now noted)
            finished
