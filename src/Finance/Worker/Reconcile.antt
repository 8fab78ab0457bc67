-- ===== src/Finance/Worker/Reconcile.antt =====
-- `discover` and `reconcile` of src/modules/finance/finance-worker.service.ts: an operation whose outcome
-- is not known. The providers are asked what they did; nothing that moves money is sent again.
use bonde_backend.Finance.Providers.{issuer_active, issuer_inactive, issuer_canceled}
use bonde_backend.Finance.Worker.Withdrawal.{settle_withdrawal}
use bonde_backend.Finance.Worker.{settle_sweep}
use bonde_backend.Finance.Worker.Issue.{finish_issue}
use bonde_backend.Finance.Retirement.{is_retire}
use bonde_backend.Finance.Worker.Queue.{can_claim, claim}
use bonde_backend.Finance.Worker.Lifecycle.{finish_lifecycle}
use bonde_backend.Finance.Retirement.Process.{retire_process, RetireReplies}
use Prim.Native.Nat.{zero}
use bonde_backend.Finance.Operations.{
  when_some, attempt, transact, finished, update_operation, Attempt, find_card,
}
use bonde_backend.Finance.Runtime.{Runtime}
use bonde_backend.Finance.Database.{
  pending, cancel, Customer, unknown, resume, issue, pause, withdraw, sweep, OperationStatus,
  Database, Operation, OperationKind,
}
use bonde_backend.Finance.Providers.{RemoteCard, RemoteStatus, Transfer, read_string, IssuedCard}
use bonde_backend.Common.Table.{find_first, find_many}
use bonde_backend.Common.{length}
use bonde_backend.Common.{
  ℕ, suc, Bool, true, false, Option, none, some, List, [], ◌∷◌, ltb, ◌==◌, same_id, is_some,
  if◌then◌else◌,
}
use bonde_backend.Common.Http.{other_error, Result, ok, ◌>>=◌, or_throw}

-- A row of a provider's list: the operation that it names, and its id.
pub record Listed : Type 0 where
  pub operation : Option ℕ
  pub id : Option ℕ

-- A bank account in `/accounts`.
pub record BankAccount : Type 0 where
  pub number : Option ℕ
  pub id : Option ℕ

-- The answers to the lists, by page; `none` stands for one that is no array.
abbrev pub Pages : Type 0
Pages = ℕ → Result (Option (List Listed))

abbrev pub of_operation : ℕ → List Listed → List Listed
of_operation op rows = find_many (λ (row : Listed). same_id row.operation (some op)) rows

-- What a page of `size` rows says, of which those that name the operation are given; `rest` is what the
-- following pages say.
abbrev pub read_matches : List Listed → ℕ → Result (Option ℕ) → Result (Option ℕ)
read_matches [] size rest = if ltb size 100 then ok none else rest
read_matches (row ∷ []) size rest = read_string row.id >>= λ id. ok (some id)
read_matches (row ∷ other ∷ more) size rest = ok none

abbrev pub read_page : ℕ → Option (List Listed) → Result (Option ℕ) → Result (Option ℕ)
read_page op none rest = ok none
read_page op (some rows) rest = read_matches (of_operation op rows) (length rows) rest

-- The loop over the pages: `left` are still to be read, from `page` on. The id is `none` when no page
-- decides.
unfoldable pub search_pages : ℕ → Pages → ℕ → ℕ → Result (Option ℕ)
search_pages op pages page zero = ok none
search_pages op pages page (suc left) =
    let rest = search_pages op pages (suc page) left in
    pages page >>= λ answer. read_page op answer rest

-- What the providers answer to the questions of `reconcile`.
pub record Questions : Type 0 where
  pub cards : Pages
  pub accounts : Result (Option (List BankAccount))
  pub transfers : ℕ → Pages
  pub issued : Result IssuedCard
  pub transfer_sent : Result Transfer
  pub card_status : Result RemoteCard
  pub retire : RetireReplies

abbrev pub is_sweep : OperationKind → Bool
is_sweep sweep = true
is_sweep _ = false

abbrev is_withdraw : OperationKind → Bool
is_withdraw withdraw = true
is_withdraw _ = false

abbrev is_issue : OperationKind → Bool
is_issue issue = true
is_issue _ = false

-- `customer?.bankAccountId`, for a sweep whose account the bank does not list
abbrev swept_account : Operation → Database → Option ℕ
swept_account op db =
    if is_sweep op.kind
    then elim (find_first (λ (c : Customer). c.user_id == op.user_id) db.customers) [
      | none ↦ none
      | some customer ↦ customer.bank_account_id
    ]
    else none

-- `result.status === expected`
abbrev pub is_expected : OperationKind → RemoteStatus → Bool
is_expected resume issuer_active = true
is_expected pause issuer_inactive = true
is_expected cancel issuer_canceled = true
is_expected _ _ = false

unfoldable pub search_cards : Questions → Operation → Database → Result (Option ℕ)
search_cards ask op db = do
  _ ←
      or_throw (find_first (λ (c : Customer). c.user_id == op.user_id) db.customers)
        (other_error "No FinanceCustomer found")
  search_pages op.id ask.cards 1 10

-- The transfers of the account that paid.
unfoldable pub search_transfers : Questions → Operation → Result ℕ → Database → Result (Option ℕ)
search_transfers ask op account_number db = ask.accounts >>= λ answer. elim answer [
  | none ↦ ok none
  | some rows ↦ account_number >>= λ number.
      elim (find_first (λ (a : BankAccount). same_id a.number (some number)) rows) [
        | some account ↦ read_string account.id >>= λ id. search_pages op.id (ask.transfers id) 0 10
        | none ↦ elim (swept_account op db) [
          | none ↦ ok none
          | some id ↦ search_pages op.id (ask.transfers id) 0 10
        ]
      ]
]

-- `.catch(…)` of a retirement that threw
abbrev lost_if : Bool → Operation → Database → Database
lost_if thrown op db =
    update_operation op.id
      (λ (o : Operation). if thrown then record o { status = unknown; lease_until = none } else o)
      db

-- `UNKNOWN` or `PENDING`
abbrev pub is_uncertain : OperationStatus → Bool
is_uncertain unknown = true
is_uncertain pending = true
is_uncertain _ = false

abbrev with_reference : Operation → Option ℕ → Operation
with_reference op found = record op { provider_reference = found }

-- `if (found) update`; else the row has no reference and keeps none.
abbrev store_reference : Operation → Option ℕ → Database → Database
store_reference op found db =
    update_operation op.id (λ (o : Operation). if is_some found then with_reference o found else o)
      db

module _ (rt : Runtime) where
  -- The id of the provider's object, if it can be found.
  unfoldable pub discover : Questions → Operation → Database → Result (Option ℕ)
  discover ask op db =
      if is_issue op.kind
      then search_cards ask op db
      else if is_withdraw op.kind
      then search_transfers ask op (ok rt.treasury_account) db
      else if is_sweep op.kind
      then search_transfers ask op (read_string op.account_number) db
      else ok none

  -- A lifecycle operation is done when the issuer's card has the status that it asked for.
  unfoldable pub ask_card : Questions → Operation → ℕ → ℕ → Database → Result Database
  ask_card ask op card_id now db = do
    card ← find_card card_id db
    when_some card.external_reference_id db λ external. do
      remote ← ask.card_status
      if is_expected op.kind remote.status then finish_lifecycle rt op card_id now db else ok db

  -- What has an id at the provider is asked for, by its kind.
  unfoldable pub ask_kind : OperationKind → Questions → Operation → ℕ → Database → Result Database
  ask_kind issue ask op now db =
      when_some op.provider_reference db λ id. do issued ← ask.issued; finish_issue rt op issued db
  ask_kind sweep ask op now db =
      when_some op.provider_reference db
        λ id. do paid ← ask.transfer_sent; settle_sweep rt op paid db
  ask_kind withdraw ask op now db =
      when_some op.provider_reference db
        λ id. do paid ← ask.transfer_sent; settle_withdrawal rt op paid db
  ask_kind pause ask op now db = when_some op.card_id db (λ card. ask_card ask op card now db)
  ask_kind resume ask op now db = when_some op.card_id db (λ card. ask_card ask op card now db)
  ask_kind cancel ask op now db = when_some op.card_id db (λ card. ask_card ask op card now db)
  ask_kind _ ask op now db = ok db

  -- A retirement is claimed and carried out again.
  unfoldable pub retry_retirement : Questions → Operation → ℕ → Database → Attempt
  retry_retirement ask op now db =
      if can_claim is_uncertain op.id db
      then attempt (claim is_uncertain op.id now db) (or_throw op.card_id (other_error "No card"))
          (λ card.
            let (after, thrown) =
              retire_process rt ask.retire op card now (claim is_uncertain op.id now db) in
            finished (lost_if (is_some thrown) op after))
      else finished db

  unfoldable pub reconcile_operation : Questions → Operation → ℕ → Database → Attempt
  reconcile_operation ask op now db =
      if is_retire op
      then retry_retirement ask op now db
      else if is_some op.provider_reference
      then transact db (ask_kind op.kind ask op now db) finished
      else attempt db (discover ask op db) (λ found.
        transact (store_reference op found db)
          (ask_kind op.kind ask (with_reference op found) now (store_reference op found db))
          finished)
