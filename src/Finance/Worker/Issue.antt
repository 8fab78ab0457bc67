-- ===== src/Finance/Worker/Issue.antt =====
-- `issue` and `finishIssue` of src/modules/finance/finance-worker.service.ts: a new card at the issuer, and
-- its first money. Its number and the parts of the request to the issuer are not modelled.
use bonde_backend.Common.Table.{find_first}
use bonde_backend.Common.{◌==◌, [], ltb}
use bonde_backend.Finance.Retirement.{update_card}
use bonde_backend.Finance.Types.{SystemAccount, system_key, Prefix, card_key}
use bonde_backend.Common.{is_some}
use bonde_backend.Common.{not, none, length}
use bonde_backend.Finance.Worker.{update_op_card, op_posting, from_hold}
use bonde_backend.Common.{◌&&◌, leb}
use bonde_backend.Finance.Operations.{
  with_ledger, find_card, find_operation, system_posting, finished, transact, set_transactions,
  attempt, Attempt, update_operation,
}
use bonde_backend.Common.{some, false, if◌then◌else◌}
use bonde_backend.Finance.Ledger.{has_journal, find_account, post, Kind, Posting, Store}
use bonde_backend.Common.Http.{
  provider_error, other_error, or_throw, throw_if, ◌>>=◌, ◌>>◌, ok, Result,
}
use bonde_backend.Finance.Runtime.{Runtime}
use bonde_backend.Finance.Database.{
  Customer, failed, pending_transaction, success, paused, active, pending, succeeded, Database,
  Card, OperationStatus, Operation,
}
use bonde_backend.Finance.Providers.{
  definitive, read_string, is_remote_canceled, is_remote_active, RemoteStatus, IssuedCard,
}
use bonde_backend.Common.Int.{◌+ℤ◌, ltb_ℤ, negsuc, pos, ℤ}
use bonde_backend.Common.Text.{is_digit, Text}
use bonde_backend.Common.{true, List, ◌∷◌, Option, Bool, ℕ}

-- `/fundingsources/…`: `object(source.jitGateway)`, and the tests that it and the source pass.
pub record Gateway : Type 0 where
  pub refuses_by_default : Bool
  pub is_ours : Bool

pub record FundingSource : Type 0 where
  pub gateway : Option Gateway
  pub is_gateway : Bool
  pub is_active : Bool

-- `slice(-4)`
unfoldable pub last_four : Text → Text
last_four [] = []
last_four (c ∷ t) = let rest = last_four t in if leb 4 (length t) then rest else c ∷ t

-- `/^\d{4}$/`
abbrev pub is_four_digits : Text → Bool
is_four_digits (a ∷ b ∷ c ∷ d ∷ []) = is_digit a && is_digit b && is_digit c && is_digit d
is_four_digits _ = false

-- The month must be from 1 to 12.
abbrev month_of : ℤ → Option ℕ
month_of (pos n) = if leb 1 n && leb n 12 then some n else none
month_of (negsuc n) = none

abbrev pub expiry_parts : Bool → Option ℤ → Option ℤ → Option (ℤ × ℕ)
expiry_parts true (some year) (some month) = elim (month_of month) [
  | none ↦ none
  | some n ↦ some (if ltb_ℤ year (pos 100) then year +ℤ pos 2000 else year, n)
]
expiry_parts _ _ _ = none

-- The checks of `finishIssue`: the card's id, and the year and month at whose end it expires.
unfoldable pub read_issued : IssuedCard → Result (ℕ × ℤ × ℕ)
read_issued issued = do
  throw_if (is_remote_canceled issued.status) (provider_error false 409)
  id ← read_string issued.id
  pan ← read_string issued.masked_pan
  expiry ←
      or_throw
        (expiry_parts (is_four_digits (last_four pan)) issued.expiry_year issued.expiry_month)
        (provider_error false 502)
  ok (id, expiry.0, expiry.1)

abbrev pub issue_postings : Operation → ℕ → List Posting
issue_postings op card =
    from_hold op
    ∷ op_posting op (card_key card op.currency) Kind.card (pos op.amount)
    ∷ (if ltb 0 op.fee
        then system_posting op.currency (system_key SystemAccount.fees op.currency) Kind.fees
            (pos op.fee)
          ∷ []
        else [])

abbrev pub is_issued : OperationStatus → Bool
is_issued succeeded = true
is_issued failed = true
is_issued _ = false

-- What the issuer's card says, and the balance of its account.
abbrev pub issued_card : ℕ → RemoteStatus → ℕ → ℤ → Card → Card
issued_card id status expiry balance card = record card {
  external_reference_id = some id;
  expiration_date = expiry;
  balance = balance;
  status = if is_remote_active status && not (is_some card.retired_at) then active else paused;
}

module _ (rt : Runtime) where
  unfoldable pub post_issue : Operation → ℕ → Store → Result Store
  post_issue op card s =
      if has_journal (record { prefix = Prefix.issue; id = op.id }) s
      then ok s
      else post rt.before rt.new_journal (record { prefix = Prefix.issue; id = op.id })
          (issue_postings op card) s

  abbrev pub issued_rows : Operation → ℕ → RemoteStatus → ℕ → ℕ → ℤ → Database → Database
  issued_rows op id status card expiry balance db =
      update_operation op.id
        (λ (o : Operation). record o {
          provider_reference = some id;
          status = if is_remote_active status then succeeded else pending;
          lease_until = none;
        })
        (set_transactions op.id (if is_remote_active status then success else pending_transaction)
          (update_card card (issued_card id status expiry balance) db))

  unfoldable pub issue_now : Operation → ℕ → RemoteStatus → ℤ → ℕ → Database → Result Database
  issue_now op id status year month db = do
    card_id ← or_throw op.card_id (other_error "No card")
    ledger ← post_issue op card_id db.ledger
    card ← find_card card_id db
    account ←
        or_throw (find_account (card_key card_id op.currency) ledger.accounts)
          (other_error "No FinanceAccount found")
    expiry ← or_throw (rt.date_utc year month) (other_error "Invalid Date")
    ok (issued_rows op id status card_id expiry account.balance (with_ledger db ledger))

  unfoldable pub finish_issue : Operation → IssuedCard → Database → Result Database
  finish_issue op issued db = do
    (id, year, month) ← read_issued issued
    current ← find_operation op.id db
    if is_issued current.status then ok db else issue_now op id issued.status year month db

-- `/fundingsources` and the creation of the card, when the source is the one that asks this service.
unfoldable pub open_card :
    Result FundingSource → Result IssuedCard → Operation → Database → Result (ℕ × IssuedCard)
open_card source created op db = do
  _ ←
      or_throw (find_first (λ (c : Customer). c.user_id == op.user_id) db.customers)
        (other_error "No FinanceCustomer found")
  found ← definitive source
  gateway ← read_string found.gateway
  throw_if
      (not (found.is_gateway && found.is_active && gateway.refuses_by_default && gateway.is_ours))
      (provider_error true 400)
  issued ← created
  id ← read_string issued.id
  ok (id, issued)

module _ (rt : Runtime) where
  unfoldable pub issue_card :
      Result FundingSource → Result IssuedCard → Operation → Database → Attempt
  issue_card source created op db = attempt db (open_card source created op db) λ (id, issued).
      let stored : Database =
        update_op_card op (λ (c : Card). record c { external_reference_id = some id })
          (update_operation op.id (λ (o : Operation). record o { provider_reference = some id })
            db) in
      transact stored (finish_issue rt op issued stored) finished
