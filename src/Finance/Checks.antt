-- ===== src/Finance/Checks.antt =====
-- src/modules/finance/finance-authorizations.service.ts: the checks that `authorize` makes one after the
-- other.
use bonde_backend.Finance.Requests.{type_eq, Context}
use bonde_backend.Common.{
  ℕ, Bool, true, false, not, ◌&&◌, ◌||◌, Option, none, some, leb, ltb, ◌==◌, same_id, is_some,
  if◌then◌else◌,
}
use bonde_backend.Common.Table.{find_first}
use bonde_backend.Common.Int.{pos, ltb_ℤ}
use bonde_backend.Common.Text.{text_eq}
use bonde_backend.Common.Http.{Result}
use bonde_backend.Finance.Types.{card_key}
use bonde_backend.Finance.Ledger.{find_account, currency_eq}
use bonde_backend.Finance.CardPolicy.{policy_decision, Decline, PurchaseRequest}
use bonde_backend.Finance.Policy.{Snapshot, no_rules, is_purchase}
use bonde_backend.Finance.Database.{
  Card, active, verification, retry_approved, held, settled, Authorization, Operation, issue, pause,
  cancel, retire, queued, processing, unknown, Threshold, ThresholdType, large_amount, first_time,
  UserAccount, Customer, Database,
}

abbrev is_active : Card → Bool
is_active card = elim card.status [ active ↦ true | _ ↦ false ]

-- `status: { in: ['QUEUED', 'PROCESSING', 'UNKNOWN'] }`
abbrev pub is_unfinished : Operation → Bool
is_unfinished op = elim op.status [ queued ↦ true | processing ↦ true | unknown ↦ true | _ ↦ false ]

abbrev blocks_purchases : Operation → Bool
blocks_purchases op = elim op.kind [
  | issue ↦ true
  | pause ↦ true
  | cancel ↦ true
  | retire ↦ true
  | _ ↦ false
]

-- The first refusal: the state of the card, of its owner and of the merchant.
unfoldable pub is_blocked : Context → Snapshot → ℕ → Database → Bool
is_blocked c usage now db =
    not (is_active c.card)
    || not usage.controls_valid
    || is_some c.card.retired_at
    || is_some usage.reason
    || is_some c.identity.revoked_at
    || leb c.card.expiration_date now
    || is_some (
        find_first
          (λ (op : Operation).
            same_id op.card_id (some c.card.id) && is_unfinished op && blocks_purchases op)
          db.operations)
    || not (
        is_some
          (find_first (λ (k : Customer). k.user_id == c.card.user_id && k.is_ready) db.customers))
    || not (
        is_some (
          find_first (λ (a : UserAccount). a.user_id == c.card.user_id && a.is_active) db.accounts))

abbrev pub policy_request : Context → PurchaseRequest
policy_request c = record {
  amount = c.request.amount;
  merchant_id = c.identity.id;
  mcc = c.request.merchant.mcc;
}

abbrev pub is_verification : Context → Bool
is_verification c = type_eq c.request.request_type verification

-- The decision by the card's rule; a verification is no use.
unfoldable pub rule_decision : Context → Snapshot → ℕ → Result (Option Decline)
rule_decision c usage now =
    policy_decision usage.rule (policy_request c)
      (record { spent = usage.spent; uses = if is_verification c then 0 else usage.uses }) now

-- The decision by the limits on the card itself.
unfoldable pub limit_decision : Context → Snapshot → ℕ → Result (Option Decline)
limit_decision c usage now =
    policy_decision
      (record no_rules {
        max_spend_limit = c.card.max_spend_limit;
        monthly_limit = c.card.monthly_limit;
      })
      (policy_request c) (record { spent = usage.spent; uses = usage.uses }) now

unfoldable pub lacks_funds : Context → Database → Bool
lacks_funds c db =
    not (c.request.amount == 0)
    && elim (find_account (card_key c.card.id c.request.currency) db.ledger.accounts) [
      | none ↦ true
      | some a ↦ ltb_ℤ a.balance (pos c.request.amount)
    ]

abbrev is_threshold : ℕ → ThresholdType → Threshold → Bool
is_threshold user large_amount t =
    t.user_id == user && elim t.threshold_type [ large_amount ↦ true | _ ↦ false ]
is_threshold user _ t = t.user_id == user && elim t.threshold_type [ first_time ↦ true | _ ↦ false ]

abbrev held_or_settled : Authorization → Bool
held_or_settled a = elim a.status [ held ↦ true | settled ↦ true | _ ↦ false ]

unfoldable pub needs_approval : Context → Database → Bool
needs_approval c db =
    elim (find_first (is_threshold c.card.user_id large_amount) db.thresholds) [
      | none ↦ false
      | some t ↦ t.is_active && ltb t.threshold_value c.request.amount
    ]
    || elim (find_first (is_threshold c.card.user_id first_time) db.thresholds) [
      | none ↦ false
      | some t ↦
          t.is_active
          && not (
              is_some (
                find_first
                  (λ (a : Authorization).
                    a.user_id == c.card.user_id
                    && text_eq a.merchant_identity_id c.identity.id
                    && is_purchase a
                    && held_or_settled a)
                  db.authorizations))
    ]

-- An unused approval for this card, merchant and amount.
abbrev pub is_grant : Context → ℕ → Authorization → Bool
is_grant c now a =
    a.user_id == c.card.user_id
    && a.card_id == c.card.id
    && currency_eq a.currency c.request.currency
    && text_eq a.merchant_identity_id c.identity.id
    && a.amount == c.request.amount
    && elim a.status [ retry_approved ↦ true | _ ↦ false ]
    && not (is_some a.approval_used_at)
    && elim a.approval_expires_at [ none ↦ false | some t ↦ ltb now t ]
