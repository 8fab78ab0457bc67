-- ===== src/Finance/Worker/Lifecycle.antt =====
-- `lifecycle`, `finishLifecycle` and `process` of src/modules/finance/finance-worker.service.ts: a card is
-- paused, resumed or cancelled, and an operation in the queue is given to its handler.
use bonde_backend.Finance.Types.{Prefix}
use bonde_backend.Finance.Operations.{
  when_some, is_succeeded, transact, finished, set_transactions, attempt, return_allocation,
  Attempt, find_operation, find_card, count_held, set_operation,
}
use bonde_backend.Finance.Retirement.{release, lease, ensure_due, update_card, is_cancelled}
use bonde_backend.Common.Int.{pos}
use bonde_backend.Finance.Policy.{snapshot, Snapshot}
use bonde_backend.Finance.Runtime.{Runtime}
use bonde_backend.Finance.Database.{
  success, pause, succeeded, superseded, by_operation, paused, closed, cancelled, active, cancel,
  resume, RetirementReason, Database, CardStatus, Operation, Card, OperationKind,
}
use bonde_backend.Common.{
  ℕ, Bool, true, false, not, ◌||◌, Option, none, some, ◌∷◌, ◌==◌, is_some, if◌then◌else◌,
}
use bonde_backend.Common.Http.{provider_error, Result, ok, ◌>>=◌, ◌>>◌, throw_if, or_throw}

abbrev pub is_resume : OperationKind → Bool
is_resume resume = true
is_resume _ = false

abbrev pub is_cancel : OperationKind → Bool
is_cancel cancel = true
is_cancel _ = false

-- `op.kind === 'RESUME' ? 'ACTIVE' : op.kind === 'PAUSE' ? 'PAUSED' : 'CANCELLED'`
abbrev pub local_status : OperationKind → CardStatus
local_status resume = active
local_status pause = paused
local_status _ = cancelled

-- The card of a policy's snapshot must not be made active.
abbrev pub must_stay_off : Card → Snapshot → Bool
must_stay_off card usage =
    is_some card.retired_at || is_some usage.reason || not usage.controls_valid || is_cancelled card

abbrev pub lifecycle_card : OperationKind → Card → Card
lifecycle_card kind card =
    if is_cancel kind
    then record card {
      status = local_status kind;
      balance = pos 0;
      retirement_status = some closed;
    }
    else record card { status = local_status kind }

-- The last writes of `finishLifecycle`.
abbrev pub lifecycle_rows : Operation → ℕ → Database → Database
lifecycle_rows op card_id db =
    let moved : Database = update_card card_id (lifecycle_card op.kind) db in
    let noted : Database = record moved {
      history = record { card_id = card_id; event = by_operation op.kind op.id } ∷ moved.history;
    } in
    set_transactions op.id success (set_operation op.id succeeded noted)

abbrev pub supersede : Operation → Database → Database
supersede op db = set_operation op.id superseded db

module _ (rt : Runtime) where
  -- `op.kind === 'RESUME' && (…)`, and why the card must retire: the snapshot is taken for a resumption
  -- alone.
  unfoldable pub is_superseded :
      Operation → Card → ℕ → Database → Result (Bool × Option RetirementReason)
  is_superseded op card now db =
      if is_resume op.kind
      then (snapshot rt.parse rt.month_start card now db >>= λ usage.
          ok (must_stay_off card usage, usage.reason))
      else ok (false, none)

  unfoldable pub close_card : Operation → ℕ → Database → Result Database
  close_card op card_id db = do
    throw_if (not (count_held card_id db == 0)) (provider_error false 409)
    return_allocation rt op.id op.user_id card_id op.currency
        (record { prefix = Prefix.close; id = op.id }) db

  unfoldable pub lifecycle_now : Operation → ℕ → ℕ → Database → Result Database
  lifecycle_now op card_id now db = do
    local ← find_card card_id db
    (blocked, reason) ← is_superseded op local now db
    if blocked then ok (supersede op db) else do
      returned ← if is_cancel op.kind then close_card op card_id db else ok db
      ok (lifecycle_rows op card_id returned)

  unfoldable pub finish_lifecycle : Operation → ℕ → ℕ → Database → Result Database
  finish_lifecycle op card_id now db = do
    current ← find_operation op.id db
    if is_succeeded current.status then ok db else lifecycle_now op card_id now db

  -- `if (snapshot.reason) await this.retirement.ensureDue(card.userId, card.id)`, in a transaction of its own
  unfoldable pub ensure_due_if : Option RetirementReason → Card → ℕ → Database → Result Database
  ensure_due_if reason card now db = when_some reason db λ due.
      ensure_due rt.parse rt.month_start (rt.retire_key card.id) rt.new_operation card.user_id
        card.id now db

  -- The reads before the issuer is called: the card, and whether it must stay off.
  unfoldable pub read_lifecycle :
      Operation → ℕ → ℕ → Database → Result (Card × Bool × Option RetirementReason)
  read_lifecycle op card_id now db = do
    card ← find_card card_id db
    _ ← or_throw card.external_reference_id (provider_error true 400)
    blocked ← is_superseded op card now db
    ok (card, blocked.0, blocked.1)

  unfoldable pub lifecycle_leased : Result (Unit {0}) → Operation → ℕ → ℕ → Database → Attempt
  lifecycle_leased called op card_id now db =
      attempt db (read_lifecycle op card_id now db) λ (card, blocked, reason).
        if blocked
        then transact db (ensure_due_if reason card now db)
            (λ ensured. finished (supersede op ensured))
        else transact db (called >> finish_lifecycle op card_id now db) finished

  unfoldable pub lifecycle : Result (Unit {0}) → Operation → ℕ → ℕ → Database → Attempt
  lifecycle called op card_id now db = attempt db (lease card_id op.id now db) λ leased.
      let (after, thrown) = lifecycle_leased called op card_id now leased in
      (release card_id op.id after, thrown)
