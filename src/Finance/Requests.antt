-- ===== src/Finance/Requests.antt =====
-- src/modules/finance/finance-authorizations.service.ts: what `authorize` reads of a webhook before its
-- transaction.
use bonde_backend.Common.{ℕ, Bool, true, false, Option, none, some, ◌==◌, if◌then◌else◌}
use bonde_backend.Common.Text.{Text}
use bonde_backend.Common.Http.{provider_error, Result, ok, ◌>>=◌, or_throw}
use bonde_backend.Finance.Types.{Currency}
use bonde_backend.Finance.Amount.{amount_of}
use bonde_backend.Finance.Capabilities.{FinanceConfig, assert_currency}
use bonde_backend.Finance.Merchants.{Merchant}
use bonde_backend.Finance.Database.{Card, RequestType, purchase, verification, MerchantIdentity}

-- The body of the webhook. A field that the code reads by `object` or `string` is `none` where they
-- throw; amounts are the texts that `String` gives.
pub record RawAuthorization : Type 0 where
  pub id : Option ℕ
  pub card : Option ℕ
  pub currency : Option Currency
  pub amount : Text
  pub merchant_amount : Option Text
  pub merchant : Option Merchant

pub record Request : Type 0 where
  pub id : ℕ
  pub provider_id : ℕ
  pub currency : Currency
  pub amount : ℕ
  pub request_type : RequestType
  pub merchant : Merchant

-- `pending.merchantAmount !== undefined && amountOf(…, true).isZero()`
abbrev merchant_amount_zero : Option Text → Result Bool
merchant_amount_zero none = ok false
merchant_amount_zero (some t) = amount_of t true >>= (λ n. ok (n == 0))

-- The checks before the transaction.
unfoldable pub read_request : FinanceConfig → RawAuthorization → Result Request
read_request config raw = do
  id ← or_throw raw.id (provider_error false 502)
  card ← or_throw raw.card (provider_error false 502)
  currency ← or_throw raw.currency (provider_error false 502)
  amount ← amount_of raw.amount true
  _ ← assert_currency config currency
  zero_at_merchant ← if amount == 0 then ok true else merchant_amount_zero raw.merchant_amount
  merchant ← or_throw raw.merchant (provider_error false 502)
  ok (record {
    id = id;
    provider_id = card;
    currency = currency;
    amount = amount;
    request_type = if zero_at_merchant then verification else purchase;
    merchant = merchant;
  })

abbrev pub type_eq : RequestType → RequestType → Bool
type_eq purchase purchase = true
type_eq verification verification = true
type_eq _ _ = false

-- What the transaction has read: the request, the card and its merchant's identity.
pub record Context : Type 0 where
  pub request : Request
  pub card : Card
  pub identity : MerchantIdentity
