-- ===== src/Finance/CardPolicy/Tests.antt =====
-- The policy on concrete cards.
use bonde_backend.Common.{◌≡◌, refl, ◌+◌, none, some, true, false, [], ◌∷◌, arith, inl, inr}
use bonde_backend.Common.Http.{ok, err, other_error}
use bonde_backend.Finance.CardRules.{
  CardRules, RuleType, RuleType-discrete, Category, category_mccs, codes,
}
use bonde_backend.Finance.CardPolicy.{
  PurchaseRequest, Usage, policy_decision, category_decision, some_category, BudgetCard,
  budget_alert_titles, half_spent,
}
use bonde_backend.Finance.CardPolicy.Decision.{
  Permits, policy_decision_sound, policy_decision_complete,
}
use bonde_backend.Finance.CardPolicy.Budget.{count, alerts, crossing, sum, count-alerts}

abbrev groceries_card : CardRules
groceries_card = record {
  type = some RuleType.category;
  max_spend_limit = some 50000;
  monthly_limit = some 100000;
  usage_limit = 0;
  start = 0;
  end = 0;
  merchant_ids = [];
  categories = Category.dining ∷ Category.groceries ∷ [];
  allow_top_up = none;
  notify_half_spent = none;
  notify_low_balance = none;
  notify_budget_reached = none;
}

abbrev at_grocer : PurchaseRequest
at_grocer = record { amount = 20000; merchant_id = b'm' ∷ []; mcc = 5411 }

abbrev some_spent : Usage
some_spent = record { spent = 30000; uses = 4 }

abbrev alert_card : BudgetCard
alert_card = record {
  monthly_limit = some 100000;
  notify_half_spent = true;
  notify_low_balance = true;
  notify_budget_reached = false;
}

grocery_codes : category_mccs Category.groceries ≡ codes (5411 ∷ [])
unfolding category_mccs
grocery_codes = refl

policy_decision_sound_example : Permits groceries_card at_grocer some_spent 7
unfolding policy_decision category_decision some_category category_mccs RuleType-discrete
policy_decision_sound_example = policy_decision_sound groceries_card at_grocer some_spent 7 refl

covered : Permits groceries_card at_grocer some_spent 7
covered = record {
  single = omega arith;
  monthly = omega arith;
  admitted = inr (inl (5411 ∷ [], grocery_codes, refl));
}

policy_decision_complete_example : policy_decision groceries_card at_grocer some_spent 7 ≡ ok none
unfolding category_mccs
policy_decision_complete_example =
    policy_decision_complete groceries_card at_grocer some_spent 7 ((λ e. cc), ((λ e. cc), tt))
      covered

-- An inherited name passes the validation of categories, and the decision then throws.
inherited_throws :
    policy_decision
      (record groceries_card { categories = Category.inherited 0 ∷ [] })
      at_grocer
      some_spent
      7
    ≡ err (other_error "includes is not a function")
unfolding policy_decision category_decision some_category category_mccs RuleType-discrete
inherited_throws = refl

count-alerts_example :
    count half_spent (alerts alert_card 30000 (15000 ∷ 10000 ∷ 20000 ∷ []))
    ≡ crossing alert_card half_spent 30000 (30000 + sum (15000 ∷ 10000 ∷ 20000 ∷ []))
count-alerts_example = count-alerts alert_card half_spent 30000 (15000 ∷ 10000 ∷ 20000 ∷ [])

one_alert : alerts alert_card 30000 (15000 ∷ 10000 ∷ 20000 ∷ []) ≡ half_spent ∷ []
unfolding alerts budget_alert_titles
one_alert = refl
