-- ===== src/Finance/Runtime.antt =====
-- What the finance services take from outside the repository.
use bonde_backend.Common.{ℕ, Bool, Option}
use bonde_backend.Common.Int.{ℤ}
use bonde_backend.Common.Text.{Text}
use bonde_backend.Finance.Types.{AccountKey}
use bonde_backend.Finance.Capabilities.{FinanceConfig}

-- What the runtime supplies to one call: `Date.parse`, `toUpperCase`, the start of a UTC month, the collation of
-- account keys, the numbers of the texts `retire_<card id>` and `sweep:<transfer id>`, the configuration, new ids, what
-- `Decimal.toString` writes for an amount, the month that `Date.UTC` gives, if it is a date, and the
-- treasury's account number.
pub record Runtime : Type 0 where
  pub parse : Text → Option ℕ
  pub month_start : ℕ → ℕ
  pub before : AccountKey → AccountKey → Bool
  pub retire_key : ℕ → ℕ
  pub sweep_key : ℕ → ℕ
  pub config : FinanceConfig
  pub to_upper : Text → Text
  pub new_identity : Text
  pub new_operation : ℕ
  pub new_journal : ℕ
  pub new_transaction : ℕ
  pub amount_text : ℕ → Text
  pub date_utc : ℤ → ℕ → Option ℕ
  pub new_inbox : ℕ
  pub treasury_account : ℕ
