-- ===== src/Finance/CardRules/Tests.antt =====
-- Rules as the API receives them.
use bonde_backend.Finance.Amount.{match_amount, fraction, digits_value}
use bonde_backend.Common.{ℕ, ◌≡◌, refl, none, some, false, [], ◌∷◌, Option}
use bonde_backend.Common.Text.{Text}
use bonde_backend.Common.Http.{ok, err, bad_request}
use bonde_backend.Finance.CardRules.{
  RuleType-discrete, bad_flag, bad_usage_limit, bad_limit, bad_type, pos, bad_label, RawRules,
  RawType, RuleType, RawNumber, Item, validate_rules, rules_of, CardRules,
}
use bonde_backend.Finance.CardRules.Validation.{IsWellFormed, validate_rules-IsWellFormed}

abbrev no_dates : Text → Option ℕ
no_dates t = none

-- A card for three purchases of at most 50.00.
abbrev three_uses : RawRules
three_uses = record {
  unsupported_key = false;
  type = some (RawType.listed RuleType.self_destruct);
  max_spend_limit = some (Item.text (b'5' ∷ b'0' ∷ []));
  monthly_limit = none;
  usage_limit = some (RawNumber.integer (pos 3));
  start = none;
  end = none;
  merchant_ids = none;
  pending_merchant_label = none;
  categories = none;
  allow_top_up = none;
  notify_half_spent = none;
  notify_low_balance = none;
  notify_budget_reached = none;
}

abbrev three_uses_rules : CardRules
unfolding rules_of
three_uses_rules = rules_of no_dates three_uses

three_uses_accepted : validate_rules no_dates three_uses ≡ ok three_uses_rules
unfolding validate_rules bad_label bad_type bad_limit bad_usage_limit bad_flag RuleType-discrete
    match_amount digits_value fraction three_uses_rules rules_of
three_uses_accepted = refl

validate_rules-IsWellFormed_example : IsWellFormed three_uses_rules
validate_rules-IsWellFormed_example =
    validate_rules-IsWellFormed no_dates three_uses three_uses_accepted

no_uses :
    validate_rules no_dates (record three_uses { usage_limit = some (RawNumber.integer (pos 0)) })
    ≡ err (bad_request "Invalid usage limit")
unfolding validate_rules bad_label bad_type bad_limit bad_usage_limit bad_flag RuleType-discrete
    match_amount digits_value fraction three_uses_rules rules_of
no_uses = refl
