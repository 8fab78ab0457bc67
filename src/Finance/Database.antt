-- ===== src/Finance/Database.antt =====
-- The tables that the finance services share (prisma/schema.prisma), less the columns that nothing
-- modelled reads. Identifiers are numbers, amounts hundredths, instants milliseconds.
use bonde_backend.Common.{ℕ, Bool, Option, List}
use bonde_backend.Common.Int.{ℤ}
use bonde_backend.Common.Text.{Text}
use bonde_backend.Finance.Types.{Currency, Reference}
use bonde_backend.Finance.CardPolicy.{AlertTitle}
use bonde_backend.Finance.Ledger.{Store}
use bonde_backend.Finance.CardRules.{RuleType, RawRules}

pub data CardStatus : Type 0 where
  active paused cancelled : CardStatus

-- `other_reason n` is any other text (`USER_REQUESTED`, `ISSUER_CLOSED`, …).
pub data RetirementReason : Type 0 where
  time_expired usage_limit : RetirementReason
  other_reason : ℕ → RetirementReason

pub data RetirementStatus : Type 0 where
  retiring retired closed : RetirementStatus

pub record Card : Type 0 where
  pub id : ℕ
  pub user_id : ℕ
  pub is_sudo : Bool
  pub external_reference_id : Option ℕ
  pub currency : Currency
  pub status : CardStatus
  pub creation_lock_type : Option RuleType
  pub expiration_date : ℕ
  pub control_expires_at : Option ℕ
  pub retired_at : Option ℕ
  pub retirement_reason : Option RetirementReason
  pub retirement_status : Option RetirementStatus
  pub max_spend_limit : Option ℕ
  pub monthly_limit : Option ℕ
  pub rules_version : ℕ
  pub balance : ℤ
  pub total_spent : ℕ
  pub provider_lease_owner : Option ℕ
  pub provider_lease_until : Option ℕ
  pub notify_half_spent : Bool
  pub notify_low_balance : Bool
  pub notify_budget_reached : Bool

pub record CardLock : Type 0 where
  pub card_id : ℕ
  pub is_active : Bool
  pub lock_type : RuleType
  pub config : RawRules

pub data RequestType : Type 0 where
  purchase verification : RequestType

pub data AuthorizationStatus : Type 0 where
  declined awaiting_approval retry_approved approval_used held verified settled reversed expired :
      AuthorizationStatus

-- The issuer's codes: '00' approved, '05' do not honour, '51' insufficient funds.
pub data ResponseCode : Type 0 where
  approved do_not_honour insufficient_funds : ResponseCode

pub record Authorization : Type 0 where
  pub id : ℕ
  pub user_id : ℕ
  pub card_id : ℕ
  pub currency : Currency
  pub amount : ℕ
  pub settled : ℕ
  pub refunded : ℕ
  pub released : ℕ
  pub status : AuthorizationStatus
  pub merchant_id : Text
  pub merchant_identity_id : Text
  pub request_type : RequestType
  pub response_code : ResponseCode
  pub approval_expires_at : Option ℕ
  pub approval_used_at : Option ℕ

pub record Capture : Type 0 where
  pub authorization_id : ℕ
  pub card_id : ℕ
  pub is_purchase : Bool
  pub booked_at : ℕ
  pub currency : Currency
  pub amount : ℕ

-- A row of `finance_operations`. The last three columns stand in its `request`: the payee's account (for
-- a sweep, the account that is swept), its bank and its name.
pub data OperationKind : Type 0 where
  issue allocate return_funds pause resume cancel rules retire withdraw sweep approve decline
        thresholds merchant_enroll merchant_bind :
      OperationKind

pub data OperationStatus : Type 0 where
  queued processing unknown pending succeeded failed superseded reversed : OperationStatus

pub record Operation : Type 0 where
  pub id : ℕ
  pub user_id : ℕ
  pub card_id : Option ℕ
  pub idempotency_key : ℕ
  pub kind : OperationKind
  pub status : OperationStatus
  pub lease_until : Option ℕ
  pub currency : Currency
  pub amount : ℕ
  pub fee : ℕ
  pub provider_reference : Option ℕ
  pub account_number : Option ℕ
  pub bank_code : Option ℕ
  pub account_name : Option ℕ

pub record MerchantIdentity : Type 0 where
  pub id : Text
  pub merchant_id : Text
  pub country : Text
  pub mcc : ℕ
  pub revoked_at : Option ℕ

pub record MerchantAccess : Type 0 where
  pub user_id : ℕ
  pub identity_id : Text

pub record Enrollment : Type 0 where
  pub id : ℕ
  pub card_id : ℕ
  pub user_id : ℕ
  pub is_pending : Bool
  pub rules_version : ℕ
  pub expires_at : ℕ

pub record Candidate : Type 0 where
  pub enrollment_id : ℕ
  pub identity_id : Text
  pub authorization_id : ℕ

pub data ThresholdType : Type 0 where
  large_amount first_time : ThresholdType
  other_threshold : ℕ → ThresholdType

pub record Threshold : Type 0 where
  pub user_id : ℕ
  pub threshold_type : ThresholdType
  pub threshold_value : ℕ
  pub is_active : Bool

-- A row of `accounts`, and whether a customer's `status` is 'READY'.
pub record UserAccount : Type 0 where
  pub id : ℕ
  pub user_id : ℕ
  pub is_active : Bool

pub record Customer : Type 0 where
  pub user_id : ℕ
  pub is_ready : Bool
  pub bank_account_number : Option ℕ
  pub bank_account_id : Option ℕ
  pub is_bank_ready : Bool

pub record Wallet : Type 0 where
  pub account_id : ℕ

pub data NotificationTitle : Type 0 where
  card_retired purchase_needs_approval purchase_settled funds_received : NotificationTitle
  budget_alert : AlertTitle → NotificationTitle

pub record Notification : Type 0 where
  pub user_id : ℕ
  pub title : NotificationTitle

-- An entry of `audit_logs` for a card's retirement.
pub record AuditLog : Type 0 where
  pub user_id : ℕ
  pub card_id : ℕ
  pub reason : RetirementReason

-- A row of `transactions`, the feed that clients read; `reference` stands in its metadata.
pub data TransactionType : Type 0 where
  deposit payment transfer withdrawal card_funding : TransactionType

pub data TransactionStatus : Type 0 where
  success pending_transaction fail : TransactionStatus

pub record Transaction : Type 0 where
  pub id : ℕ
  pub user_id : ℕ
  pub card_id : Option ℕ
  pub transaction_type : TransactionType
  pub status : TransactionStatus
  pub amount : ℤ
  pub currency : Currency
  pub reference : Option Reference

-- A row of `finance_inbox`: a webhook that has been received, or a fee that exceeds its quote. `reference`
-- is the number of the text in that column, and `id` that of the provider's object.
pub data EventType : Type 0 where
  account_credit account_debit authorization_declined card_updated card_terminated
        transaction_created transaction_refund :
      EventType
  other_event : ℕ → EventType

pub data InboxReference : Type 0 where
  webhook fee_variance_of : ℕ → InboxReference

pub data InboxStatus : Type 0 where
  received processed retry review : InboxStatus

pub record InboxRow : Type 0 where
  pub id : ℕ
  pub is_safe_haven : Bool
  pub reference : InboxReference
  pub event_type : EventType
  pub object_id : ℕ
  pub session_id : Option ℕ
  pub card_id : Option ℕ
  pub status : InboxStatus

-- A row of `card_history`.
pub data CardEvent : Type 0 where
  by_operation : OperationKind → ℕ → CardEvent
  card_was_retired : CardEvent

pub record CardHistory : Type 0 where
  pub card_id : ℕ
  pub event : CardEvent

pub record Database : Type 0 where
  pub ledger : Store
  pub cards : List Card
  pub locks : List CardLock
  pub authorizations : List Authorization
  pub captures : List Capture
  pub operations : List Operation
  pub identities : List MerchantIdentity
  pub access : List MerchantAccess
  pub enrollments : List Enrollment
  pub candidates : List Candidate
  pub thresholds : List Threshold
  pub accounts : List UserAccount
  pub customers : List Customer
  pub notifications : List Notification
  pub audit_logs : List AuditLog
  pub wallets : List Wallet
  pub transactions : List Transaction
  pub inbox : List InboxRow
  pub history : List CardHistory
