-- ===== src/Finance/Authorizations.antt =====
-- src/modules/finance/finance-authorizations.service.ts: the issuer asks whether to let a purchase pass.
-- A throw inside the transaction rolls it back, so the tables of a run that throws are not kept.
pub mod Outcome
pub mod Approval
pub mod Safety
pub mod Replay
pub mod Tests
use bonde_backend.Finance.Runtime.{Runtime}
use bonde_backend.Finance.Requests.{RawAuthorization, Request, read_request, type_eq, Context}
use bonde_backend.Finance.Checks.{
  is_unfinished, is_blocked, policy_request, is_verification, rule_decision, limit_decision,
  lacks_funds, needs_approval, is_grant,
}
use bonde_backend.Common.{
  ℕ, ◌+◌, Bool, true, false, not, ◌&&◌, ◌||◌, Option, none, some, List, [], ◌∷◌, leb, ltb, ◌==◌,
  same_id, is_some, if◌then◌else◌, any,
}
use bonde_backend.Common.Table.{find_first, update_many, count_where}
use bonde_backend.Common.Int.{ℤ, pos, ◌+ℤ◌, negate, ltb_ℤ}
use bonde_backend.Common.Text.{Text, text_eq}
use bonde_backend.Common.Http.{provider_error, Result, ok, err, ◌>>=◌, ◌>>◌, throw_if, or_throw}
use bonde_backend.Finance.Types.{Currency, AccountKey, card_key, hold_key, Reference, Prefix}
use bonde_backend.Finance.Amount.{amount_of}
use bonde_backend.Finance.Ledger.{Posting, hundredths, Kind, post, find_account, currency_eq}
use bonde_backend.Finance.CardRules.{CardRules}
use bonde_backend.Finance.CardPolicy.{
  policy_decision, Decline, merchant_not_allowed, PurchaseRequest,
}
use bonde_backend.Finance.Policy.{Snapshot, snapshot, no_rules, is_held, is_purchase}
use bonde_backend.Finance.Capabilities.{FinanceConfig, assert_currency}
use bonde_backend.Finance.Merchants.{Merchant, observe, candidate}
use bonde_backend.Finance.Retirement.{mark_if, update_card}
use bonde_backend.Finance.Database.{
  Card, CardStatus, active, RequestType, purchase, verification, AuthorizationStatus, declined,
  awaiting_approval, retry_approved, approval_used, held, verified, settled, ResponseCode, approved,
  do_not_honour, insufficient_funds, Authorization, Operation, OperationKind, issue, pause, cancel,
  retire, OperationStatus, queued, processing, unknown, MerchantIdentity, Threshold, ThresholdType,
  large_amount, first_time, UserAccount, Customer, Notification, purchase_needs_approval, Database,
}

-- `record(code, status)` and then the code
unfoldable pub record_authorization :
    Context → ResponseCode → AuthorizationStatus → Database → ResponseCode × Database
record_authorization c code status db = (
  code,
  record db {
    authorizations =
        record {
          id = c.request.id;
          user_id = c.card.user_id;
          card_id = c.card.id;
          currency = c.request.currency;
          amount = c.request.amount;
          settled = 0;
          refunded = 0;
          released = 0;
          status = status;
          merchant_id = c.request.merchant.merchant_id;
          merchant_identity_id = c.identity.id;
          request_type = c.request.request_type;
          response_code = code;
          approval_expires_at = none;
          approval_used_at = none;
        }
        ∷ db.authorizations;
  },
)

abbrev use_grant : ℕ → ℕ → Database → Database
use_grant id now db = record db {
  authorizations =
      update_many (λ (a : Authorization). a.id == id)
        (λ (a : Authorization). record a { approval_used_at = some now; status = approval_used })
        db.authorizations;
}

abbrev ask_owner : Context → Database → Database
ask_owner c db = record db {
  notifications =
      record { user_id = c.card.user_id; title = purchase_needs_approval } ∷ db.notifications;
}

abbrev pub hold_postings : Context → List Posting
hold_postings c =
    record {
      key = card_key c.card.id c.request.currency;
      currency = c.request.currency;
      amount = hundredths (negate (pos c.request.amount));
      user_id = some c.card.user_id;
      kind = Kind.card;
    }
    ∷ record {
      key = hold_key c.request.id c.request.currency;
      currency = c.request.currency;
      amount = hundredths (pos c.request.amount);
      user_id = some c.card.user_id;
      kind = Kind.hold;
    }
    ∷ []

-- The card that the issuer names.
abbrev pub is_owner : Request → Card → Bool
is_owner r c =
    c.is_sudo
    && same_id c.external_reference_id (some r.provider_id)
    && currency_eq c.currency r.currency

-- The answer to a request whose id is recorded.
unfoldable pub replayed : Context → Authorization → ResponseCode
replayed c a =
    if a.card_id == c.card.id
      && a.amount == c.request.amount
      && text_eq a.merchant_id c.request.merchant.merchant_id
      && currency_eq a.currency c.request.currency
      && text_eq a.merchant_identity_id c.identity.id
      && type_eq a.request_type c.request.request_type
    then a.response_code
    else do_not_honour

module _ (rt : Runtime) where
  -- The purchase is let pass: the money moves to a hold, and the authorization is recorded.
  unfoldable pub approve : Context → Database → Result (ResponseCode × Database)
  approve c db = do
    let is_zero = c.request.amount == 0
    ledger ←
        if is_zero
        then ok db.ledger
        else post rt.before rt.new_journal
            (record { prefix = Prefix.authorization; id = c.request.id }) (hold_postings c)
            db.ledger
    let debited : Database =
        update_card c.card.id
          (λ (k : Card). record k { balance = k.balance +ℤ negate (pos c.request.amount) })
          (record db { ledger = ledger })
    ok (record_authorization c approved (if is_zero then verified else held) debited)

  unfoldable pub approve_with_grant : Context → ℕ → Database → Result (ResponseCode × Database)
  approve_with_grant c now db =
      if needs_approval c db && not (is_verification c)
      then elim (find_first (is_grant c now) db.authorizations) [
        | none ↦
            let recorded = record_authorization c do_not_honour awaiting_approval db in
            ok (recorded.0, ask_owner c recorded.1)
        | some grant ↦ approve c (use_grant grant.id now db)
      ]
      else approve c db

  unfoldable pub decide_funds : Context → Snapshot → ℕ → Database → Result (ResponseCode × Database)
  decide_funds c usage now db = do
    limits ← limit_decision c usage now
    if is_some limits
        then ok (record_authorization c do_not_honour declined db)
        else if lacks_funds c db
        then ok (record_authorization c insufficient_funds declined db)
        else approve_with_grant c now db

  abbrev offer_candidate : Context → Decline → ℕ → Database → Database
  offer_candidate c merchant_not_allowed now db = candidate c.card c.identity c.request.id now db
  offer_candidate c _ now db = db

  unfoldable pub decide : Context → Snapshot → ℕ → Database → Result (ResponseCode × Database)
  decide c usage now db =
      if is_blocked c usage now db
      then ok (record_authorization c do_not_honour declined db)
      else rule_decision c usage now >>= λ decision. elim decision [
        | some reason ↦
            let recorded = record_authorization c do_not_honour declined db in
            ok (recorded.0, offer_candidate c reason now recorded.1)
        | none ↦ decide_funds c usage now db
      ]

  -- A request that has no record yet.
  unfoldable pub answer_new : Context → ℕ → Database → Result (ResponseCode × Database)
  answer_new c now seen = snapshot rt.parse rt.month_start c.card now seen >>= λ usage.
      decide c usage now
        (mark_if (rt.retire_key c.card.id) rt.new_operation c.card usage.reason now seen)

  -- The transaction, after the card has been found.
  unfoldable pub answer : Request → Card → ℕ → Database → Result (ResponseCode × Database)
  answer r card now db = do
    (identity, seen) ← observe rt.to_upper rt.new_identity card.user_id r.merchant db
    let c : Context = record { request = r; card = card; identity = identity }
    elim (find_first (λ (a : Authorization). a.id == r.id) seen.authorizations) [
      | some a ↦ ok (replayed c a, seen)
      | none ↦ answer_new c now seen
    ]

  unfoldable pub authorize_in_transaction :
      Request → ℕ → Database → Result (ResponseCode × Database)
  authorize_in_transaction r now db = elim (find_first (is_owner r) db.cards) [
    | none ↦ ok (do_not_honour, db)
    | some card ↦ answer r card now db
  ]

  -- `authorize`, with its `catch`; the HTTP status is 200 exactly if the code is `approved`.
  unfoldable pub authorize : RawAuthorization → ℕ → Database → ResponseCode × Database
  authorize raw now db =
      elim (read_request rt.config raw >>= λ r. authorize_in_transaction r now db) [
        | ok answered ↦ answered
        | err e ↦ (do_not_honour, db)
      ]
