-- ===== src/Finance/Worker/Runs.antt =====
-- Whatever the providers answer, the worker keeps the ledger sound, when its handlers throw and when they
-- do not.
use bonde_backend.Finance.Database.{retire}
use bonde_backend.Finance.Kept.{kept_rules, Keeps, unit-Keeps, IsKept-trans, IsKept-refl}
use mathlib.Core.Option.{none}
use bonde_backend.Finance.Retirement.Safety.{ensure_due-Keeps, retire_process-Leaves, lease-Keeps}
use bonde_backend.Finance.Worker.Safety.{
  settle_withdrawal-Keeps, settle_sweep-Keeps, withdraw_funds-Leaves, finish_issue-Keeps,
  sweep_account-Leaves, issue_card-Leaves, fail_operation-Keeps, finish_lifecycle-Keeps,
}
use bonde_backend.Finance.Operations.{Attempt}
use bonde_backend.Finance.Operations.Safety.{
  attempt-Leaves, if-Leaves, when_some-Keeps, transact-Leaves, attempt_rules, Leaves,
}
use bonde_backend.Finance.Ledger.{Store}
use bonde_backend.Finance.Database.{
  cancel, resume, pause, withdraw, sweep, issue, Card, RetirementReason, OperationKind, Database,
  Operation,
}
use bonde_backend.Finance.Retirement.{lease, release}
use bonde_backend.Common.Http.{Result}
use bonde_backend.Finance.Worker.Reconcile.{
  is_uncertain, retry_retirement, ask_kind, ask_card, Questions, reconcile_operation,
}
use bonde_backend.Finance.Worker.Queue.{
  is_queued, can_claim, handle_kind, claim, lose_track, Replies, process_operation, handle_throw,
}
use bonde_backend.Finance.Worker.Lifecycle.{ensure_due_if, lifecycle, lifecycle_leased}
use bonde_backend.Finance.Runtime.{Runtime}
use bonde_backend.Common.{Option, some, ℕ}

module _ (rt : Runtime) where
  ensure_due_if-Keeps :
      (reason : Option RetirementReason) (card : Card) (now : ℕ) (db : Database)
      → Keeps db.ledger (ensure_due_if rt reason card now db)
  unfolding ensure_due_if
  ensure_due_if-Keeps reason card now db = search (when_some-Keeps, IsKept-refl, ensure_due-Keeps)

  lifecycle_leased-Leaves :
      (called : Result (Unit {0})) (op : Operation) (card now : ℕ) (db : Database)
      → Leaves db.ledger (lifecycle_leased rt called op card now db)
  unfolding lifecycle_leased
  lifecycle_leased-Leaves called op card now db =
      search (attempt_rules, unit-Keeps, ensure_due_if-Keeps, finish_lifecycle-Keeps) depth 8

  pub lifecycle-Leaves :
      (called : Result (Unit {0})) (op : Operation) (card now : ℕ) (db : Database)
      → Leaves db.ledger (lifecycle rt called op card now db)
  unfolding lifecycle release
  lifecycle-Leaves called op card now db =
      transact-Leaves db.ledger db (lease card op.id now db) _ (lease-Keeps card op.id now db)
        (IsKept-refl db.ledger)
        (λ leased kept. IsKept-trans kept (lifecycle_leased-Leaves called op card now leased))

  handle_kind-Leaves :
      (kind : OperationKind) (replies : Replies) (op : Operation) (now : ℕ) (db : Database)
      → Leaves db.ledger (handle_kind rt kind replies op now db)
  unfolding handle_kind
  handle_kind-Leaves retire replies op now db = search (attempt_rules, retire_process-Leaves)
  handle_kind-Leaves issue replies op now db = search (attempt_rules, issue_card-Leaves)
  handle_kind-Leaves sweep replies op now db = search (attempt_rules, sweep_account-Leaves)
  handle_kind-Leaves withdraw replies op now db = search (attempt_rules, withdraw_funds-Leaves)
  handle_kind-Leaves pause replies op now db = search (attempt_rules, lifecycle-Leaves)
  handle_kind-Leaves resume replies op now db = search (attempt_rules, lifecycle-Leaves)
  handle_kind-Leaves cancel replies op now db = search (attempt_rules, lifecycle-Leaves)
  handle_kind-Leaves _ replies op now db = IsKept-refl db.ledger

  handle_throw-Leaves :
      (s : Store) (op : Operation) (a : Attempt) → Leaves s a → Leaves s (handle_throw rt op a)
  unfolding handle_throw lose_track
  handle_throw-Leaves s op (db, none) kept = kept
  handle_throw-Leaves s op (db, some e) kept = search (attempt_rules, fail_operation-Keeps)

  pub process_operation-Leaves :
      (replies : Replies) (id now : ℕ) (db : Database)
      → Leaves db.ledger (process_operation rt replies id now db)
  unfolding process_operation claim
  process_operation-Leaves replies id now db =
      if-Leaves db.ledger (can_claim is_queued id db) _ _
        (attempt-Leaves db.ledger (claim is_queued id now db) _ _ (IsKept-refl db.ledger) (λ op.
          handle_throw-Leaves db.ledger op _
            (handle_kind-Leaves op.kind replies op now (claim is_queued id now db))))
        (IsKept-refl db.ledger)

  ask_card-Keeps :
      (ask : Questions) (op : Operation) (card now : ℕ) (db : Database)
      → Keeps db.ledger (ask_card rt ask op card now db)
  unfolding ask_card
  ask_card-Keeps ask op card now db =
      search (when_some-Keeps, kept_rules, finish_lifecycle-Keeps) depth 8

  ask_kind-Keeps :
      (kind : OperationKind) (ask : Questions) (op : Operation) (now : ℕ) (db : Database)
      → Keeps db.ledger (ask_kind rt kind ask op now db)
  unfolding ask_kind
  ask_kind-Keeps issue ask op now db = search (when_some-Keeps, kept_rules, finish_issue-Keeps)
  ask_kind-Keeps sweep ask op now db = search (when_some-Keeps, kept_rules, settle_sweep-Keeps)
  ask_kind-Keeps withdraw ask op now db =
      search (when_some-Keeps, kept_rules, settle_withdrawal-Keeps)
  ask_kind-Keeps pause ask op now db = search (when_some-Keeps, kept_rules, ask_card-Keeps)
  ask_kind-Keeps resume ask op now db = search (when_some-Keeps, kept_rules, ask_card-Keeps)
  ask_kind-Keeps cancel ask op now db = search (when_some-Keeps, kept_rules, ask_card-Keeps)
  ask_kind-Keeps _ ask op now db = IsKept-refl db.ledger

  retry_retirement-Leaves :
      (ask : Questions) (op : Operation) (now : ℕ) (db : Database)
      → Leaves db.ledger (retry_retirement rt ask op now db)
  unfolding retry_retirement claim
  retry_retirement-Leaves ask op now db =
      if-Leaves db.ledger (can_claim is_uncertain op.id db) _ _
        (attempt-Leaves db.ledger (claim is_uncertain op.id now db) _ _ (IsKept-refl db.ledger)
          (λ card.
            retire_process-Leaves rt ask.retire op card now (claim is_uncertain op.id now db)))
        (IsKept-refl db.ledger)

  pub reconcile_operation-Leaves :
      (ask : Questions) (op : Operation) (now : ℕ) (db : Database)
      → Leaves db.ledger (reconcile_operation rt ask op now db)
  unfolding reconcile_operation
  reconcile_operation-Leaves ask op now db =
      search (attempt_rules, ask_kind-Keeps, retry_retirement-Leaves) depth 8
