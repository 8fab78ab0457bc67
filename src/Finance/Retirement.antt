-- ===== src/Finance/Retirement.antt =====
-- src/modules/finance/finance-retirement.service.ts: the permanent retirement of a card, and the lease
-- that serializes the writes to the card's provider.
pub mod Process
pub mod Safety
pub mod Marks
pub mod Tests
use bonde_backend.Common.{
  ℕ, ◌+◌, Bool, true, false, not, ◌&&◌, ◌||◌, Option, none, some, List, [], ◌∷◌, leb, ltb, ◌==◌,
  same_id, is_some, if◌then◌else◌,
}
use bonde_backend.Common.Table.{find_first, update_many, count_where}
use bonde_backend.Common.Text.{Text}
use bonde_backend.Common.Http.{
  not_found, conflict, Result, ok, err, ◌>>=◌, ◌>>◌, throw_if, or_throw,
}
use bonde_backend.Finance.Database.{
  Card, CardStatus, cancelled, RetirementReason, RetirementStatus, retiring, Operation,
  OperationKind, OperationStatus, retire, queued, failed, superseded, Notification, card_retired,
  AuditLog, Database,
}
use bonde_backend.Finance.Policy.{Snapshot, snapshot}

-- `card.update({ where: { id } })`
abbrev pub update_card : ℕ → (Card → Card) → Database → Database
update_card id f db = record db { cards = update_many (λ (c : Card). c.id == id) f db.cards }

abbrev pub is_retire : Operation → Bool
is_retire op = elim op.kind [ retire ↦ true | _ ↦ false ]

-- `status: { notIn: ['FAILED', 'SUPERSEDED'] }`
abbrev pub is_open : Operation → Bool
is_open op = elim op.status [ failed ↦ false | superseded ↦ false | _ ↦ true ]

-- `key` is `retire_${card.id}`, and `fresh` the new row's id. `(userId, idempotencyKey)` is unique.
unfoldable pub enqueue : ℕ → ℕ → Card → Database → Database
enqueue key fresh card db =
    if is_some (
      find_first
        (λ (op : Operation). same_id op.card_id (some card.id) && is_retire op && is_open op)
        db.operations)
    then db
    else let same = λ (op : Operation). op.user_id == card.user_id && op.idempotency_key == key in
      if is_some (find_first same db.operations)
      then record db {
        operations =
            update_many same (λ (op : Operation). record op { status = queued; lease_until = none })
              db.operations;
      }
      else record db {
        operations =
            record {
              id = fresh;
              user_id = card.user_id;
              card_id = some card.id;
              idempotency_key = key;
              kind = retire;
              status = queued;
              lease_until = none;
              currency = card.currency;
              amount = 0;
              fee = 0;
              provider_reference = none;
              account_number = none;
              bank_code = none;
              account_name = none;
            }
            ∷ db.operations;
      }

-- The first half of `mark`, for a card that is not yet retired.
unfoldable pub retire_now : Card → RetirementReason → ℕ → Database → Database
retire_now card reason now db = record db {
  cards =
      update_many (λ (c : Card). c.id == card.id)
        (λ (c : Card). record c {
          retired_at = some now;
          retirement_reason = some reason;
          retirement_status = some retiring;
        })
        db.cards;
  audit_logs =
      record { user_id = card.user_id; card_id = card.id; reason = reason } ∷ db.audit_logs;
  notifications = record { user_id = card.user_id; title = card_retired } ∷ db.notifications;
}

unfoldable pub mark : ℕ → ℕ → Card → RetirementReason → Bool → ℕ → Database → Database
mark key fresh card reason enqueues now db =
    let marked : Database = if is_some card.retired_at then db else retire_now card reason now db in
    if enqueues then enqueue key fresh card marked else marked

abbrev pub is_cancelled : Card → Bool
is_cancelled c = elim c.status [ cancelled ↦ true | _ ↦ false ]

-- `if (snapshot.reason) await this.mark(tx, card, snapshot.reason)`
unfoldable pub mark_if : ℕ → ℕ → Card → Option RetirementReason → ℕ → Database → Database
mark_if key fresh card none now db = db
mark_if key fresh card (some reason) now db = mark key fresh card reason true now db

module _ (parse : Text → Option ℕ) (month_start : ℕ → ℕ) where
  unfoldable pub ensure_due : ℕ → ℕ → ℕ → ℕ → ℕ → Database → Result Database
  ensure_due key fresh user card_id now db = do
    card ←
        or_throw
          (find_first (λ (c : Card). c.id == card_id && c.user_id == user && c.is_sudo) db.cards)
          (not_found "Card not found")
    let due : Result Database = do
      usage ← snapshot parse month_start card now db
      ok (mark_if key fresh card usage.reason now db)
    if is_cancelled card then ok db else due

-- The card whose lease is free or has run out.
abbrev pub may_lease : ℕ → ℕ → Card → Bool
may_lease card_id now c =
    c.id == card_id && elim c.provider_lease_until [ none ↦ true | some until ↦ ltb until now ]

unfoldable pub lease : ℕ → ℕ → ℕ → Database → Result Database
lease card_id operation now db =
    if count_where (may_lease card_id now) db.cards == 0
    then err (conflict "Another provider action is processing")
    else ok (record db {
      cards =
          update_many (may_lease card_id now)
            (λ (c : Card). record c {
              provider_lease_owner = some operation;
              provider_lease_until = some (now + 60000);
            })
            db.cards;
    })

unfoldable pub release : ℕ → ℕ → Database → Database
release card_id operation db = record db {
  cards =
      update_many (λ (c : Card). c.id == card_id && same_id c.provider_lease_owner (some operation))
        (λ (c : Card). record c { provider_lease_owner = none; provider_lease_until = none })
        db.cards;
}
