-- ===== src/Finance/Policy.antt =====
-- src/modules/finance/finance-policy.service.ts: the usage of a card, its rule and why it must retire.
pub mod Rows
pub mod Usage
pub mod Deadline
pub mod Tests
use bonde_backend.Common.{
  ℕ, ◌+◌, ◌-◌, Bool, true, false, not, ◌&&◌, ◌||◌, Option, none, some, List, [], ◌∷◌, map, min, leb,
  ltb, ◌==◌, length, any, is_some, if◌then◌else◌,
}
use bonde_backend.Common.Table.{find_many, count_where}
use bonde_backend.Common.Http.{other_error, Result, ok, err, ◌>>=◌, ◌>>◌, throw_if}
use bonde_backend.Common.Text.{Text}
use bonde_backend.Finance.Types.{Currency}
use bonde_backend.Finance.Ledger.{currency_eq}
use bonde_backend.Finance.CardRules.{
  RuleType, self_destruct, time, type_is, CardRules, validate_rules,
}
use bonde_backend.Finance.Database.{
  Card, CardLock, Capture, Authorization, RequestType, purchase, verification, AuthorizationStatus,
  held, RetirementReason, time_expired, usage_limit, Database,
}

abbrev pub no_rules : CardRules
no_rules = record {
  type = none;
  max_spend_limit = none;
  monthly_limit = none;
  usage_limit = 0;
  start = 0;
  end = 0;
  merchant_ids = [];
  categories = [];
  allow_top_up = none;
  notify_half_spent = none;
  notify_low_balance = none;
  notify_budget_reached = none;
}

pub record Snapshot : Type 0 where
  pub rule : CardRules
  pub controls_valid : Bool
  pub spent : ℕ
  pub settled : ℕ
  pub held : ℕ
  pub uses : ℕ
  pub completed_uses : ℕ
  pub reason : Option RetirementReason
  pub deadline : ℕ

abbrev pub is_held : Authorization → Bool
is_held a = elim a.status [ held ↦ true | _ ↦ false ]

abbrev pub is_purchase : Authorization → Bool
is_purchase a = elim a.request_type [ purchase ↦ true | verification ↦ false ]

-- The rows that the three queries of `snapshot` read.
abbrev pub active_locks : Card → Database → List CardLock
active_locks card db = find_many (λ (l : CardLock). l.card_id == card.id && l.is_active) db.locks

abbrev pub holds : Card → Database → List Authorization
holds card db =
    find_many (λ (a : Authorization). a.card_id == card.id && is_held a) db.authorizations

-- The ids of a list, each once, as `distinct` and `new Set` keep them.
unfoldable pub distinct : List ℕ → List ℕ
distinct [] = []
distinct (x ∷ xs) = let rest = distinct xs in if any (λ y. y == x) rest then rest else x ∷ rest

unfoldable pub completed : Card → Database → List ℕ
completed card db = distinct (
    map (λ (c : Capture). c.authorization_id)
      (find_many (λ (c : Capture). c.card_id == card.id && c.is_purchase) db.captures))

-- `aggregate({ _sum: { amount } })`
unfoldable pub sum_amounts : List Capture → ℕ
sum_amounts [] = 0
sum_amounts (c ∷ cs) = c.amount + sum_amounts cs

unfoldable pub sum_remaining : List Authorization → Result ℕ
sum_remaining [] = ok 0
sum_remaining (a ∷ rows) = do
  throw_if (ltb a.amount (a.settled + a.released)) (other_error "Invalid authorization reservation")
  rest ← sum_remaining rows
  ok (a.amount - a.settled - a.released + rest)

abbrev pub min_with : ℕ → Option ℕ → ℕ
min_with n none = n
min_with n (some m) = min n m

-- `parse` is `Date.parse`, and `month_start` the first instant of the UTC month of an instant.
module _ (parse : Text → Option ℕ) (month_start : ℕ → ℕ) where
  -- The `try` block: the rule of a card with one matching lock, or of a card with no lock.
  unfoldable pub primary_rule : Option RuleType → List CardLock → Result CardRules
  primary_rule none [] = ok no_rules
  primary_rule none (l ∷ ls) = err (other_error "Unexpected controls on a standard card")
  primary_rule (some t) [] = err (other_error "Conflicting primary controls")
  primary_rule (some t) (l ∷ []) = do
    throw_if (not (type_is t (some l.lock_type))) (other_error "Conflicting primary controls")
    rule ← validate_rules parse l.config
    throw_if (not (type_is t rule.type)) (other_error "Missing primary control configuration")
    ok rule
  primary_rule (some t) (l ∷ m ∷ ls) = err (other_error "Conflicting primary controls")

  -- The `catch` block.
  abbrev pub controls : Result CardRules → CardRules × Bool
  controls (ok rule) = (rule, true)
  controls (err e) = (no_rules, false)

  unfoldable pub settled_in_month : Card → ℕ → Database → ℕ
  settled_in_month card now db = sum_amounts (
      find_many
        (λ (c : Capture).
          c.card_id == card.id
          && leb (month_start now) c.booked_at
          && currency_eq c.currency card.currency)
        db.captures)

  abbrev pub deadline_of : Card → CardRules → ℕ
  deadline_of card rule =
      min_with (min_with card.expiration_date card.control_expires_at)
        (if type_is time rule.type then some rule.end else none)

  abbrev pub reason_of : Card → CardRules → ℕ → ℕ → Option RetirementReason
  reason_of card rule completed_uses now = elim card.retirement_reason [
    | some reason ↦ some reason
    | none ↦
        if leb (deadline_of card rule) now
        then some time_expired
        else if type_is self_destruct rule.type && leb rule.usage_limit completed_uses
        then some usage_limit
        else none
  ]

  -- Holds of purchases with no capture yet.
  abbrev pub reserved : Card → Database → ℕ
  reserved card db =
      count_where
        (λ (a : Authorization). is_purchase a && not (any (λ id. id == a.id) (completed card db)))
        (holds card db)

  unfoldable pub snapshot : Card → ℕ → Database → Result Snapshot
  snapshot card now db = do
    let rule_and_valid = controls (primary_rule card.creation_lock_type (active_locks card db))
    let rule = rule_and_valid.0
    let done = length (completed card db)
    let total = settled_in_month card now db
    held_now ← sum_remaining (holds card db)
    ok (record {
      rule = rule;
      controls_valid = rule_and_valid.1;
      spent = total + held_now;
      settled = total;
      held = held_now;
      uses = done + reserved card db;
      completed_uses = done;
      reason = reason_of card rule done now;
      deadline = deadline_of card rule;
    })
