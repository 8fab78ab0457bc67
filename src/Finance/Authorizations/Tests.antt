-- ===== src/Finance/Authorizations/Tests.antt =====
-- One purchase on a funded card, and its retry.
use bonde_backend.Finance.Requests.{RawAuthorization, Request, read_request}
use bonde_backend.Finance.Checks.{
  is_blocked, rule_decision, limit_decision, lacks_funds, needs_approval,
}
use bonde_backend.Finance.Samples.{database, all_enabled, runtime}
use bonde_backend.Finance.Authorizations.Approval.{authorize_sound, IsGranted, IsRepeated}
use bonde_backend.Finance.Authorizations.Replay.{recorded, authorize_once}
use bonde_backend.Finance.Authorizations.Safety.{authorize_declined}
use bonde_backend.Finance.CardRules.{RuleType-discrete}
use bonde_backend.Finance.CardPolicy.{category_decision, policy_decision}
use bonde_backend.Finance.Retirement.{mark_if}
use bonde_backend.Finance.Policy.{
  distinct, completed, sum_amounts, settled_in_month, primary_rule, sum_remaining, snapshot,
}
use bonde_backend.Finance.Merchants.{upsert_access, upsert_identity, is_country, observe}
use bonde_backend.Finance.Amount.{digits_value, fraction, match_amount, amount_of}
use bonde_backend.Finance.Capabilities.{
  environment_valid, configured, currency_enabled, assert_currency,
}
use bonde_backend.Common.{◌⊎◌, ◌≡◌, ◌≢◌, refl, none, some, [], ◌∷◌}
use bonde_backend.Common.Int.{negate, ◌+ℤ◌}
use bonde_backend.Common.Text.{span_digits, Text-discrete, Text}
use bonde_backend.Common.Http.{ok}
use bonde_backend.Finance.Types.{
  Prefix-discrete, Currency-discrete, AccountKey-discrete, currency_of, ngn,
}
use bonde_backend.Finance.Ledger.{
  Kind-discrete, may_change, find_account, upsert_account, apply_line, apply_lines, sort_lines,
  create_journal, some_nonzero, put_line, find_line, add_sum, posting_amount, collect, post,
}
use bonde_backend.Finance.Database.{purchase, Authorization, Database, approved, do_not_honour}
use bonde_backend.Finance.Authorizations.{
  replayed, held, record_authorization, approve, approve_with_grant, decide_funds, decide,
  answer_new, answer, authorize_in_transaction, authorize,
}

-- 200.00 at a grocer.
abbrev purchase_request : Text → RawAuthorization
purchase_request amount = record {
  id = some 11;
  card = some 30;
  currency = some ngn;
  amount = amount;
  merchant_amount = none;
  merchant =
      some (record { merchant_id = b'm' ∷ []; country = some (b'n' ∷ b'g' ∷ []); mcc = 5411 });
}

abbrev raw : RawAuthorization
raw = purchase_request (b'2' ∷ b'0' ∷ b'0' ∷ [])

abbrev after : Database
after = (authorize runtime raw 5000 database).1

purchase_approved : authorize runtime raw 5000 database ≡ (approved, after)
unfolding authorize read_request amount_of match_amount fraction digits_value assert_currency
    authorize_in_transaction answer observe is_country answer_new snapshot sum_remaining decide
    is_blocked primary_rule settled_in_month sum_amounts completed distinct mark_if rule_decision
    limit_decision policy_decision RuleType-discrete decide_funds lacks_funds approve_with_grant
    needs_approval approve record_authorization upsert_identity upsert_access currency_enabled
    configured environment_valid Text-discrete span_digits replayed category_decision post collect
    currency_of posting_amount add_sum find_line put_line some_nonzero create_journal sort_lines
    apply_lines apply_line upsert_account find_account may_change AccountKey-discrete
    Currency-discrete Kind-discrete Prefix-discrete ◌+ℤ◌ negate
purchase_approved = refl

-- 20.001 is no amount, and 310.00 is above the card's limit for one purchase.
bad_amount :
    authorize runtime (purchase_request (b'2' ∷ b'.' ∷ b'0' ∷ b'0' ∷ b'1' ∷ [])) 5000 database
    ≡ (do_not_honour, database)
unfolding authorize read_request amount_of match_amount fraction digits_value assert_currency
    authorize_in_transaction answer observe is_country answer_new snapshot sum_remaining decide
    is_blocked primary_rule settled_in_month sum_amounts completed distinct mark_if rule_decision
    limit_decision policy_decision RuleType-discrete decide_funds lacks_funds approve_with_grant
    needs_approval approve record_authorization upsert_identity upsert_access currency_enabled
    configured environment_valid Text-discrete span_digits replayed category_decision post collect
    currency_of posting_amount add_sum find_line put_line some_nonzero create_journal sort_lines
    apply_lines apply_line upsert_account find_account may_change AccountKey-discrete
    Currency-discrete Kind-discrete Prefix-discrete ◌+ℤ◌ negate
bad_amount = refl

too_large :
    (authorize runtime (purchase_request (b'3' ∷ b'1' ∷ b'0' ∷ [])) 5000 database).0 ≢ approved
unfolding authorize read_request amount_of match_amount fraction digits_value assert_currency
    authorize_in_transaction answer observe is_country answer_new snapshot sum_remaining decide
    is_blocked primary_rule settled_in_month sum_amounts completed distinct mark_if rule_decision
    limit_decision policy_decision RuleType-discrete decide_funds lacks_funds approve_with_grant
    needs_approval approve record_authorization upsert_identity upsert_access currency_enabled
    configured environment_valid Text-discrete span_digits replayed category_decision post collect
    currency_of posting_amount add_sum find_line put_line some_nonzero create_journal sort_lines
    apply_lines apply_line upsert_account find_account may_change AccountKey-discrete
    Currency-discrete Kind-discrete Prefix-discrete ◌+ℤ◌ negate
too_large e = cc

abbrev request : Request
request = record {
  id = 11;
  provider_id = 30;
  currency = ngn;
  amount = 20000;
  request_type = purchase;
  merchant = record { merchant_id = b'm' ∷ []; country = some (b'n' ∷ b'g' ∷ []); mcc = 5411 };
}

raw_reads : read_request all_enabled raw ≡ ok request
unfolding authorize read_request amount_of match_amount fraction digits_value assert_currency
    authorize_in_transaction answer observe is_country answer_new snapshot sum_remaining decide
    is_blocked primary_rule settled_in_month sum_amounts completed distinct mark_if rule_decision
    limit_decision policy_decision RuleType-discrete decide_funds lacks_funds approve_with_grant
    needs_approval approve record_authorization upsert_identity upsert_access currency_enabled
    configured environment_valid Text-discrete span_digits replayed category_decision post collect
    currency_of posting_amount add_sum find_line put_line some_nonzero create_journal sort_lines
    apply_lines apply_line upsert_account find_account may_change AccountKey-discrete
    Currency-discrete Kind-discrete Prefix-discrete ◌+ℤ◌ negate
raw_reads = refl

abbrev recorded_purchase : Authorization
recorded_purchase = record {
  id = 11;
  user_id = 7;
  card_id = 3;
  currency = ngn;
  amount = 20000;
  settled = 0;
  refunded = 0;
  released = 0;
  status = held;
  merchant_id = b'm' ∷ [];
  merchant_identity_id = b'i' ∷ [];
  request_type = purchase;
  response_code = approved;
  approval_expires_at = none;
  approval_used_at = none;
}

purchase_recorded : recorded 11 after ≡ some recorded_purchase
unfolding authorize read_request amount_of match_amount fraction digits_value assert_currency
    authorize_in_transaction answer observe is_country answer_new snapshot sum_remaining decide
    is_blocked primary_rule settled_in_month sum_amounts completed distinct mark_if rule_decision
    limit_decision policy_decision RuleType-discrete decide_funds lacks_funds approve_with_grant
    needs_approval approve record_authorization upsert_identity upsert_access currency_enabled
    configured environment_valid Text-discrete span_digits replayed category_decision post collect
    currency_of posting_amount add_sum find_line put_line some_nonzero create_journal sort_lines
    apply_lines apply_line upsert_account find_account may_change AccountKey-discrete
    Currency-discrete Kind-discrete Prefix-discrete ◌+ℤ◌ negate
purchase_recorded = refl

authorize_sound_example :
    (r : Request) × (read_request all_enabled raw ≡ ok r)
    × (IsRepeated r database after ⊎ IsGranted runtime r 5000 database after)
authorize_sound_example = authorize_sound runtime raw 5000 database after purchase_approved

authorize_declined_example :
    (authorize runtime (purchase_request (b'3' ∷ b'1' ∷ b'0' ∷ [])) 5000 database).1.ledger
    ≡ database.ledger
authorize_declined_example =
    authorize_declined runtime (purchase_request (b'3' ∷ b'1' ∷ b'0' ∷ [])) 5000 database too_large

authorize_once_example :
    ((authorize runtime raw 6000 after).1.ledger ≡ after.ledger)
    × ((authorize runtime raw 6000 after).1.cards ≡ after.cards)
authorize_once_example =
    authorize_once runtime runtime raw raw request request 5000 6000 database after raw_reads
      raw_reads refl purchase_approved
