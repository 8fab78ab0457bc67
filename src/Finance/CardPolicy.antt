-- ===== src/Finance/CardPolicy.antt =====
-- src/modules/finance/card-policy.ts: the decision on a purchase, and the alerts on a card's budget.
pub mod Decision
pub mod Budget
mod Tests
use Prim.Native.String.{String}
use bonde_backend.Common.{
  any, ℕ, ◌+◌, ◌*◌, ◌^◌, ◌-◌, Bool, true, false, not, ◌&&◌, ◌||◌, Option, none, some, List, [], ◌∷◌,
  map, ite, leb, ltb, ◌==◌, length, is_some, if◌then◌else◌, ℕ_discrete,
}
use bonde_backend.Common.Int.{ℤ, pos, negsuc}
use bonde_backend.Common.Table.{find_many}
use bonde_backend.Common.Text.{Text, is_digit, span_digits, is_blank, text_eq}
use bonde_backend.Common.Http.{
  Exception, bad_request, other_error, Result, ok, err, ◌>>=◌, ◌>>◌, throw_if,
}
use bonde_backend.Finance.CardRules.{
  RuleType, self_destruct, merchant, time, category, type_is, category_mccs, no_codes, not_a_list,
  codes, Category, CardRules,
}

pub data Decline : Type 0 where
  per_transaction_limit monthly_limit usage_limit time_window merchant_not_allowed
        category_not_allowed :
      Decline

pub record PurchaseRequest : Type 0 where
  pub amount : ℕ
  pub merchant_id : Text
  pub mcc : ℕ

pub record Usage : Type 0 where
  pub spent : ℕ
  pub uses : ℕ

abbrev pub exceeds : ℕ → Option ℕ → Bool
exceeds n none = false
exceeds n (some limit) = ltb limit n

-- `categories.some((c) => categoryMccs[c]?.includes(mcc))`; an inherited property has no `includes`.
unfoldable pub some_category : ℕ → List Category → Result Bool
some_category mcc [] = ok false
some_category mcc (c ∷ cs) =
    let rest = some_category mcc cs in
    elim (category_mccs c) [
      | no_codes ↦ rest
      | not_a_list ↦ err (other_error "includes is not a function")
      | codes ms ↦ if any (λ m. m == mcc) ms then ok true else rest
    ]

unfoldable pub category_decision : CardRules → ℕ → Result (Option Decline)
category_decision rule mcc =
    if type_is category rule.type
    then some_category mcc rule.categories
      >>= (λ found. ok (if found then none else some category_not_allowed))
    else ok none

unfoldable pub policy_decision : CardRules → PurchaseRequest → Usage → ℕ → Result (Option Decline)
policy_decision rule request usage now =
    if exceeds request.amount rule.max_spend_limit
    then ok (some per_transaction_limit)
    else if exceeds (usage.spent + request.amount) rule.monthly_limit
    then ok (some monthly_limit)
    else if type_is self_destruct rule.type && leb rule.usage_limit usage.uses
    then ok (some usage_limit)
    else if type_is time rule.type && (ltb now rule.start || leb rule.end now)
    then ok (some time_window)
    else if type_is merchant rule.type
        && not (any (λ id. text_eq id request.merchant_id) rule.merchant_ids)
    then ok (some merchant_not_allowed)
    else category_decision rule request.mcc

pub data AlertTitle : Type 0 where
  half_spent fifth_remains budget_reached : AlertTitle

pub record BudgetCard : Type 0 where
  pub monthly_limit : Option ℕ
  pub notify_half_spent : Bool
  pub notify_low_balance : Bool
  pub notify_budget_reached : Bool

-- One entry of the table in `budgetAlertTitles`; the ratio is in hundredths, so both sides of a
-- comparison with `monthlyLimit.mul(ratio)` are multiplied by 100.
pub record AlertRule : Type 0 where
  pub enabled : Bool
  pub ratio : ℕ
  pub title : AlertTitle

unfoldable pub alert_rules : BudgetCard → List AlertRule
alert_rules card =
    record { enabled = card.notify_half_spent; ratio = 50; title = half_spent }
    ∷ record { enabled = card.notify_low_balance; ratio = 80; title = fifth_remains }
    ∷ record { enabled = card.notify_budget_reached; ratio = 100; title = budget_reached }
    ∷ []

abbrev pub crosses : ℕ → ℕ → ℕ → AlertRule → Bool
crosses limit before after rule =
    rule.enabled
    && ltb (before * 100) (limit * rule.ratio)
    && leb (limit * rule.ratio) (after * 100)

unfoldable pub budget_alert_titles : BudgetCard → ℕ → ℕ → List AlertTitle
unfolding alert_rules
budget_alert_titles card spent_before amount = elim card.monthly_limit [
  | none ↦ []
  | some limit ↦
      if leb limit 0
      then []
      else map (λ (r : AlertRule). r.title)
          (find_many (crosses limit spent_before (spent_before + amount)) (alert_rules card))
]
