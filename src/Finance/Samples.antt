-- ===== src/Finance/Samples.antt =====
-- A user's card with 500.00 on it, for the tests.
use bonde_backend.Common.{◌-◌, ◌&&◌, leb}
use bonde_backend.Common.{map, if◌then◌else◌}
use bonde_backend.Finance.Ledger.Journals.{post-IsValid}
use bonde_backend.Finance.Ledger.Accounts.{IsValid}
use bonde_backend.Finance.Capabilities.{recipient_bears, live_url, production, FinanceConfig}
use bonde_backend.Common.{◌+◌, Option, ℕ, refl, Bool, none, some, false, true, [], ◌∷◌, List}
use bonde_backend.Common.Int.{negate, pos, negsuc, ◌+ℤ◌}
use bonde_backend.Common.Text.{Text}
use bonde_backend.Finance.Types.{
  Prefix-discrete, Currency-discrete, AccountKey-discrete, currency_of, Prefix, AccountKey,
  card_key, system_key, bank_clearing, ngn,
}
use bonde_backend.Finance.Ledger.{
  Kind-discrete, may_change, find_account, upsert_account, apply_line, apply_lines, sort_lines,
  create_journal, some_nonzero, put_line, find_line, add_sum, posting_amount, collect, Posting,
  Kind, hundredths, Store, post,
}
use bonde_backend.Finance.Database.{Card, Database, active}
use bonde_backend.Finance.Runtime.{Runtime}

abbrev pub by_nothing : AccountKey → AccountKey → Bool
by_nothing a b = false

abbrev pub no_instant : Text → Option ℕ
no_instant t = none

abbrev pub same_month : ℕ → ℕ
same_month n = 0

-- `toUpperCase`, on the samples' texts, which are ASCII.
abbrev upper_letter : ℕ → ℕ
upper_letter c = if leb b'a' c && leb c b'z' then c - 32 else c

abbrev pub ascii_upper : Text → Text
ascii_upper t = map upper_letter t

abbrev pub all_enabled : FinanceConfig
all_enabled = record {
  enabled = true;
  environment = production;
  sudo_base_url = live_url;
  safe_haven_base_url = live_url;
  has_sudo_key = true;
  has_sudo_business_id = true;
  has_sudo_webhook_token = true;
  has_safe_haven_client_id = true;
  has_safe_haven_issuer = true;
  has_safe_haven_private_key = true;
  has_safe_haven_bank_code = true;
  has_treasury_account_number = true;
  has_job_token = true;
  incoming_fee_bearer = recipient_bears;
  fees_verified = true;
  treasury_verified = true;
  ngn_enabled = true;
  has_ngn_funding_source_id = true;
  has_ngn_settlement_id = true;
}

abbrev pub runtime : Runtime
runtime = record {
  parse = no_instant;
  month_start = same_month;
  before = by_nothing;
  retire_key = λ id. id;
  sweep_key = λ id. id + 1000;
  config = all_enabled;
  to_upper = ascii_upper;
  new_identity = b'i' ∷ [];
  new_operation = 40;
  new_journal = 2;
  new_transaction = 50;
  amount_text = λ n. n ∷ [];
  date_utc = λ year month. some 9000;
  new_inbox = 60;
  treasury_account = 99;
}

abbrev pub funding : List Posting
funding =
    record {
      key = system_key bank_clearing ngn;
      currency = ngn;
      amount = hundredths (negsuc 49999);
      user_id = none;
      kind = Kind.clearing;
    }
    ∷ record {
      key = card_key 3 ngn;
      currency = ngn;
      amount = hundredths (pos 50000);
      user_id = some 7;
      kind = Kind.card;
    }
    ∷ []

abbrev pub empty : Store
empty = record { accounts = []; journals = []; entries = [] }

abbrev pub card_funded : Store
card_funded = record {
  accounts =
      record {
        key = card_key 3 ngn;
        currency = ngn;
        kind = Kind.card;
        user_id = some 7;
        balance = pos 50000;
      }
      ∷ record {
        key = system_key bank_clearing ngn;
        currency = ngn;
        kind = Kind.clearing;
        user_id = none;
        balance = negsuc 49999;
      }
      ∷ [];
  journals = record { id = 1; reference = record { prefix = Prefix.deposit; id = 100 } } ∷ [];
  entries =
      record { journal_id = 1; account_key = card_key 3 ngn; amount = pos 50000 }
      ∷ record { journal_id = 1; account_key = system_key bank_clearing ngn; amount = negsuc 49999 }
      ∷ [];
}

pub card_funded-IsValid : IsValid card_funded
unfolding post collect currency_of posting_amount add_sum find_line put_line some_nonzero
    create_journal sort_lines apply_lines apply_line upsert_account find_account may_change
    AccountKey-discrete Currency-discrete Kind-discrete Prefix-discrete ◌+ℤ◌ negate
card_funded-IsValid =
    post-IsValid by_nothing 1 (record { prefix = Prefix.deposit; id = 100 }) funding empty
      card_funded (record { distinct = tt; solvent = tt; reconciled = λ k. refl }) refl

abbrev pub card : Card
card = record {
  id = 3;
  user_id = 7;
  is_sudo = true;
  external_reference_id = some 30;
  currency = ngn;
  status = active;
  creation_lock_type = none;
  expiration_date = 9000;
  control_expires_at = none;
  retired_at = none;
  retirement_reason = none;
  retirement_status = none;
  max_spend_limit = some 30000;
  monthly_limit = none;
  rules_version = 1;
  balance = pos 50000;
  total_spent = 0;
  provider_lease_owner = none;
  provider_lease_until = none;
  notify_half_spent = true;
  notify_low_balance = true;
  notify_budget_reached = false;
}

abbrev pub database : Database
database = record {
  ledger = card_funded;
  cards = card ∷ [];
  locks = [];
  authorizations = [];
  captures = [];
  operations = [];
  identities = [];
  access = [];
  enrollments = [];
  candidates = [];
  thresholds = [];
  accounts = record { id = 8; user_id = 7; is_active = true } ∷ [];
  customers =
      record {
        user_id = 7;
        is_ready = true;
        bank_account_number = some 70;
        bank_account_id = some 71;
        is_bank_ready = true;
      }
      ∷ [];
  notifications = [];
  audit_logs = [];
  wallets = record { account_id = 8 } ∷ [];
  transactions = [];
  inbox = [];
  history = [];
}
