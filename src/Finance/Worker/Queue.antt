-- ===== src/Finance/Worker/Queue.antt =====
-- `process` and the expiry of leases in src/modules/finance/finance-worker.service.ts: an
-- operation in the queue is claimed and given to its handler.
use bonde_backend.Finance.Worker.Lifecycle.{lifecycle}
use bonde_backend.Finance.Worker.Withdrawal.{withdraw_funds, sweep_account}
use bonde_backend.Finance.Worker.{fail_operation}
use bonde_backend.Finance.Providers.{Transfer, IssuedCard}
use bonde_backend.Finance.Operations.{find_operation, transact, finished, attempt, Attempt}
use bonde_backend.Common.Table.{count_where, update_many}
use bonde_backend.Finance.Worker.Issue.{issue_card, FundingSource}
use bonde_backend.Finance.Runtime.{Runtime}
use bonde_backend.Finance.Database.{
  OperationKind, cancel, resume, pause, withdraw, sweep, issue, retire, unknown, queued, processing,
  OperationStatus, Database, Operation,
}
use bonde_backend.Finance.Retirement.Process.{retire_process, RetireReplies}
use bonde_backend.Common.{
  ℕ, ◌+◌, Bool, true, false, not, ◌&&◌, Option, none, some, ltb, ◌==◌, if◌then◌else◌,
}
use bonde_backend.Common.Http.{Exception, other_error, provider_error, Result, or_throw}

-- What the providers answer while one operation is carried out.
pub record Replies : Type 0 where
  pub retire : RetireReplies
  pub funding_source : Result FundingSource
  pub issued : Result IssuedCard
  pub resolved : Result (Option ℕ × Option ℕ)
  pub enquiry : Result (Option ℕ)
  pub sent : Result Transfer
  pub switched : Result (Unit {0})

-- `updateMany({ where: { status: 'PROCESSING', leaseUntil: { lt: new Date() } }, data: { status: 'UNKNOWN' } })`
abbrev lease_expired : ℕ → Operation → Bool
lease_expired now op = elim op.status [
  | processing ↦ elim op.lease_until [ none ↦ false | some until ↦ ltb until now ]
  | _ ↦ false
]

unfoldable pub expire_leases : ℕ → Database → Database
expire_leases now db = record db {
  operations =
      update_many (lease_expired now) (λ (op : Operation). record op { status = unknown })
        db.operations;
}

abbrev pub is_claimable : (OperationStatus → Bool) → ℕ → Operation → Bool
is_claimable from id op = op.id == id && from op.status

abbrev pub claimed : ℕ → Operation → Operation
claimed now op = record op { status = processing; lease_until = some (now + 60000) }

-- The claim of one worker, and whether its `count` is positive: the row is in a status that `from` allows.
unfoldable pub can_claim : (OperationStatus → Bool) → ℕ → Database → Bool
can_claim from id db = not (count_where (is_claimable from id) db.operations == 0)

unfoldable pub claim : (OperationStatus → Bool) → ℕ → ℕ → Database → Database
claim from id now db = record db {
  operations = update_many (is_claimable from id) (claimed now) db.operations;
}

abbrev pub is_queued : OperationStatus → Bool
is_queued queued = true
is_queued _ = false

-- `updateMany({ where: { id, status: 'PROCESSING' }, data: { status: 'UNKNOWN', leaseUntil: null } })`
unfoldable pub lose_track : ℕ → Database → Database
lose_track id db = record db {
  operations =
      update_many
        (λ (op : Operation). op.id == id && elim op.status [ processing ↦ true | _ ↦ false ])
        (λ (op : Operation). record op { status = unknown; lease_until = none }) db.operations;
}

abbrev with_card : Operation → Database → (ℕ → Attempt) → Attempt
with_card op db next = attempt db (or_throw op.card_id (other_error "No card")) next

abbrev pub is_definitive : Exception → Bool
is_definitive (provider_error true status) = true
is_definitive _ = false

module _ (rt : Runtime) where
  -- The handler of the operation's kind; the other kinds have none.
  unfoldable pub handle_kind : OperationKind → Replies → Operation → ℕ → Database → Attempt
  handle_kind retire replies op now db =
      with_card op db (λ card. retire_process rt replies.retire op card now db)
  handle_kind issue replies op now db = issue_card rt replies.funding_source replies.issued op db
  handle_kind sweep replies op now db = sweep_account rt replies.enquiry replies.sent op db
  handle_kind withdraw replies op now db = withdraw_funds rt replies.resolved replies.sent op db
  handle_kind pause replies op now db =
      with_card op db (λ card. lifecycle rt replies.switched op card now db)
  handle_kind resume replies op now db =
      with_card op db (λ card. lifecycle rt replies.switched op card now db)
  handle_kind cancel replies op now db =
      with_card op db (λ card. lifecycle rt replies.switched op card now db)
  handle_kind _ replies op now db = finished db

  -- The `catch` of `process`.
  unfoldable pub handle_throw : Operation → Attempt → Attempt
  handle_throw op (db, none) = finished db
  handle_throw op (db, some e) =
      if is_definitive e
      then transact db (fail_operation rt op db) finished
      else finished (lose_track op.id db)

  unfoldable pub process_operation : Replies → ℕ → ℕ → Database → Attempt
  process_operation replies id now db =
      if can_claim is_queued id db
      then attempt (claim is_queued id now db) (find_operation id (claim is_queued id now db))
          (λ op. handle_throw op (handle_kind op.kind replies op now (claim is_queued id now db)))
      else finished db
