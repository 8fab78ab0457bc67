-- ===== src/Finance/Capabilities.antt =====
-- src/modules/finance/finance-capabilities.service.ts: which currencies are open for live finance.
use bonde_backend.Common.{Bool, true, false, not, ◌&&◌}
use bonde_backend.Common.Http.{unavailable, Result, ok, ◌>>◌, throw_if}
use bonde_backend.Finance.Types.{Currency, ngn, usd, other}

pub data Environment : Type 0 where
  sandbox production : Environment

-- Which of the two known base URLs a provider's setting equals, if one.
pub data BaseUrl : Type 0 where
  live_url sandbox_url other_url : BaseUrl

-- Who bears the fees of a transfer to a customer's account; the last is 'unknown'.
pub data FeeBearer : Type 0 where
  recipient_bears sender_bears bearer_unknown : FeeBearer

abbrev is_known : FeeBearer → Bool
is_known bearer_unknown = false
is_known _ = true

-- `FinanceConfig`, as far as `view` reads it; a `has_` field says that a text is not empty.
pub record FinanceConfig : Type 0 where
  pub enabled : Bool
  pub environment : Environment
  pub sudo_base_url : BaseUrl
  pub safe_haven_base_url : BaseUrl
  pub has_sudo_key : Bool
  pub has_sudo_business_id : Bool
  pub has_sudo_webhook_token : Bool
  pub has_safe_haven_client_id : Bool
  pub has_safe_haven_issuer : Bool
  pub has_safe_haven_private_key : Bool
  pub has_safe_haven_bank_code : Bool
  pub has_treasury_account_number : Bool
  pub has_job_token : Bool
  pub incoming_fee_bearer : FeeBearer
  pub fees_verified : Bool
  pub treasury_verified : Bool
  pub ngn_enabled : Bool
  pub has_ngn_funding_source_id : Bool
  pub has_ngn_settlement_id : Bool

abbrev is_live : BaseUrl → Bool
is_live live_url = true
is_live _ = false

abbrev is_sandbox : BaseUrl → Bool
is_sandbox sandbox_url = true
is_sandbox _ = false

unfoldable pub environment_valid : FinanceConfig → Bool
environment_valid c = elim c.environment [
  | production ↦ is_live c.sudo_base_url && is_live c.safe_haven_base_url
  | sandbox ↦ is_sandbox c.sudo_base_url && is_sandbox c.safe_haven_base_url
]

unfoldable pub configured : FinanceConfig → Bool
unfolding environment_valid
configured c =
    c.enabled
    && environment_valid c
    && c.has_sudo_key
    && c.has_sudo_business_id
    && c.has_sudo_webhook_token
    && c.has_safe_haven_client_id
    && c.has_safe_haven_issuer
    && c.has_safe_haven_private_key
    && c.has_safe_haven_bank_code
    && c.has_treasury_account_number
    && c.has_job_token
    && is_known c.incoming_fee_bearer
    && c.fees_verified
    && c.treasury_verified

-- `view().currencies[currency].enabled`. An unlisted currency has no entry there; the callers pass
-- none, since reading `enabled` of it throws a TypeError.
unfoldable pub currency_enabled : FinanceConfig → Currency → Bool
unfolding configured
currency_enabled c ngn =
    configured c && c.ngn_enabled && c.has_ngn_funding_source_id && c.has_ngn_settlement_id
currency_enabled c usd = false
currency_enabled c (other n) = false

unfoldable pub assert_currency : FinanceConfig → Currency → Result (Unit {0})
unfolding currency_enabled
assert_currency c currency = do
  throw_if (not c.enabled) (unavailable "Live finance is not enabled")
  throw_if (not (currency_enabled c currency)) (unavailable "cards are not available yet")
  ok tt
