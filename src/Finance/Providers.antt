-- ===== src/Finance/Providers.antt =====
-- What the finance services read in the answers of the providers (src/modules/finance/providers.ts): a
-- field that is not there is `none`. The calls themselves are not modelled: their answers are arguments.
use bonde_backend.Common.Http.{err, ok, provider_error, or_throw, Result}
use bonde_backend.Common.Int.{ℤ}
use bonde_backend.Common.Text.{Text}
use bonde_backend.Common.{false, true, Option, Bool, ℕ}

-- The `status` of a card at its issuer.
pub data RemoteStatus : Type 0 where
  issuer_active issuer_inactive issuer_canceled issuer_other : RemoteStatus

abbrev pub is_remote_active : RemoteStatus → Bool
is_remote_active issuer_active = true
is_remote_active _ = false

abbrev pub is_remote_canceled : RemoteStatus → Bool
is_remote_canceled issuer_canceled = true
is_remote_canceled _ = false

-- The answer to `/cards/…`.
pub record RemoteCard : Type 0 where
  pub id : Option ℕ
  pub status : RemoteStatus

-- The answer to the creation of a card. `Number` reads an integer in the expiry fields, or else `none`.
pub record IssuedCard : Type 0 where
  pub id : Option ℕ
  pub status : RemoteStatus
  pub masked_pan : Option Text
  pub expiry_year : Option ℤ
  pub expiry_month : Option ℤ

pub data TransferStatus : Type 0 where
  transfer_completed transfer_failed transfer_canceled transfer_other : TransferStatus

-- `new Decimal(fees).add(vat).add(stampDuty)`: the constructor throws, the sum is not finite or is
-- negative, it is a number of hundredths, or it has more decimal places. For the last, `Decimal` writes
-- the given text for the difference of a gross amount and the sum, to two places.
pub data Fees : Type 0 where
  unreadable unusable : Fees
  exact : ℕ → Fees
  finer : (ℕ → Text) → Fees

-- The answer to `/transfers/tqs` and `/transfers`.
pub record Transfer : Type 0 where
  pub id : Option ℕ
  pub session_id : Option ℕ
  pub is_inwards : Bool
  pub is_reversed : Bool
  pub status : TransferStatus
  pub account : Option ℕ
  pub debit_account : Option ℕ
  pub credit_account : Option ℕ
  pub institution_code : Option ℕ
  pub payment_reference : Option ℕ
  pub amount_text : Text
  pub fees : Fees

abbrev pub is_completed : TransferStatus → Bool
is_completed transfer_completed = true
is_completed _ = false

-- `data.status === 'Failed' || data.status === 'Canceled'`
abbrev pub has_failed : TransferStatus → Bool
has_failed transfer_failed = true
has_failed transfer_canceled = true
has_failed _ = false

-- `string(value)`
abbrev pub read_string : {A : Type 0} → Option A → Result A
read_string value = or_throw value (provider_error false 502)

-- `try { … } catch { throw new ProviderError(true, 400) }`
abbrev pub definitive : {A : Type 0} → Result A → Result A
definitive (ok a) = ok a
definitive (err e) = err (provider_error true 400)
