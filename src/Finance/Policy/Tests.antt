-- ===== src/Finance/Policy/Tests.antt =====
-- The figures of a card for three purchases, with one hold and one capture.
use bonde_backend.Common.Http.{ok}
use bonde_backend.Common.{◌↔◌, false, ℕ, some}
use bonde_backend.Finance.Policy.Usage.{snapshot_measures, IsMeasured}
use bonde_backend.Finance.Policy.Deadline.{snapshot-IsDue, IsDue, IsPast, controlled}
use bonde_backend.Finance.Policy.{
  distinct, completed, sum_amounts, settled_in_month, sum_remaining, primary_rule, snapshot,
  Snapshot,
}
use bonde_backend.Finance.Amount.{match_amount, fraction, digits_value}
use bonde_backend.Finance.CardRules.{
  RuleType-discrete, bad_flag, bad_usage_limit, bad_limit, bad_type, bad_label, RawType, RawNumber,
  Item, validate_rules, rules_of, CardRules, self_destruct,
}
use bonde_backend.Common.Int.{pos}
use bonde_backend.Finance.Types.{Currency-discrete, ngn}
use bonde_backend.Common.{is_some}
use bonde_backend.Common.{◌≤◌, ◌≡◌, refl, none, true, [], ◌∷◌}
use bonde_backend.Finance.Samples.{database, card, no_instant, same_month}
use bonde_backend.Finance.Database.{Card, CardLock, Database, held, purchase, approved}

-- A lock for three purchases of at most 50.00.
abbrev three_uses : CardLock
three_uses = record {
  card_id = 3;
  is_active = true;
  lock_type = self_destruct;
  config = record {
    unsupported_key = false;
    type = some (RawType.listed self_destruct);
    max_spend_limit = some (Item.text (b'5' ∷ b'0' ∷ []));
    monthly_limit = none;
    usage_limit = some (RawNumber.integer (pos 3));
    start = none;
    end = none;
    merchant_ids = none;
    pending_merchant_label = none;
    categories = none;
    allow_top_up = none;
    notify_half_spent = none;
    notify_low_balance = none;
    notify_budget_reached = none;
  };
}

abbrev three_uses_rules : CardRules
unfolding rules_of
three_uses_rules = rules_of no_instant three_uses.config

abbrev locked_card : Card
locked_card = record card {
  creation_lock_type = some self_destruct;
  control_expires_at = some 8000;
}

abbrev one_hold : Database
one_hold = record database {
  locks = three_uses ∷ [];
  captures =
      record {
        authorization_id = 12;
        card_id = 3;
        is_purchase = true;
        booked_at = 4000;
        currency = ngn;
        amount = 2500;
      }
      ∷ [];
  authorizations =
      record {
        id = 11;
        user_id = 7;
        card_id = 3;
        currency = ngn;
        amount = 20000;
        settled = 5000;
        refunded = 0;
        released = 1000;
        status = held;
        merchant_id = b'm' ∷ [];
        merchant_identity_id = b'i' ∷ [];
        request_type = purchase;
        response_code = approved;
        approval_expires_at = none;
        approval_used_at = none;
      }
      ∷ [];
}

abbrev measured : Snapshot
measured = record {
  rule = three_uses_rules;
  controls_valid = true;
  spent = 16500;
  settled = 2500;
  held = 14000;
  uses = 2;
  completed_uses = 1;
  reason = none;
  deadline = 8000;
}

three_uses-valid : validate_rules no_instant three_uses.config ≡ ok three_uses_rules
unfolding validate_rules bad_label bad_type bad_limit bad_usage_limit bad_flag RuleType-discrete
    match_amount digits_value fraction three_uses_rules rules_of
three_uses-valid = refl

one_hold-measured : snapshot no_instant same_month locked_card 5000 one_hold ≡ ok measured
unfolding snapshot primary_rule sum_remaining settled_in_month sum_amounts completed distinct
    validate_rules bad_label bad_type bad_limit bad_usage_limit bad_flag RuleType-discrete
    match_amount digits_value fraction three_uses_rules rules_of Currency-discrete
one_hold-measured = refl

snapshot_measures_example : IsMeasured locked_card 0 one_hold measured
snapshot_measures_example =
    snapshot_measures no_instant same_month locked_card 5000 one_hold measured one_hold-measured

three_uses-type : three_uses_rules.type ≡ some self_destruct
unfolding three_uses_rules rules_of
three_uses-type = refl

snapshot-IsDue_example :
    (measured.rule ≡ three_uses_rules)
    × (measured.controls_valid ≡ true)
    × ((instant : ℕ) → measured.deadline ≤ instant ↔ IsPast locked_card three_uses_rules instant)
    × (is_some measured.reason ≡ true
        ↔ IsDue locked_card three_uses_rules measured.completed_uses 5000)
snapshot-IsDue_example =
    snapshot-IsDue no_instant same_month locked_card 5000 one_hold measured three_uses_rules
      (controlled three_uses refl refl three_uses-valid three_uses-type) one_hold-measured
