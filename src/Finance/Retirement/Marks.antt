-- ===== src/Finance/Retirement/Marks.antt =====
-- The lease on a card's provider and the marks of retirement.
use bonde_backend.Common.{is_some}
use bonde_backend.Common.{All}
use bonde_backend.Common.{same_id}
use bonde_backend.Common.{
  ℕ, ◌+◌, ◌≤◌, ◌≡◌, ◌≢◌, refl, arith, none, some, List, [], ◌∷◌, Bool, true, false, inl, inr, ◌==◌,
  ◌&&◌, Bool-cases,
}
use bonde_backend.Common.Http.{Result, ok, err, conflict}
use bonde_backend.Common.Table.{count_where, update_many, find_first}
use bonde_backend.Finance.Database.{queued, Card, Database, Operation, RetirementReason}
use bonde_backend.Finance.Retirement.{lease, release, may_lease, mark, enqueue, is_retire, is_open}

abbrev leased : ℕ → ℕ → Card → Card
leased operation now c = record c {
  provider_lease_owner = some operation;
  provider_lease_until = some (now + 60000);
}

abbrev pub has_id : ℕ → Card → Bool
has_id card_id c = c.id == card_id

absent-unleasable :
    (card_id now : ℕ) (rows : List Card)
    → count_where (has_id card_id) rows ≡ 0
    → count_where (may_lease card_id now) rows ≡ 0
absent-unleasable card_id now [] h = refl
absent-unleasable card_id now (c ∷ rows) h = ground (arith, absent-unleasable card_id now rows)

absent-untouched :
    (card_id operation now later : ℕ) (rows : List Card)
    → count_where (has_id card_id) rows ≡ 0
    → count_where
        (may_lease card_id later)
        (update_many (may_lease card_id now) (leased operation now) rows)
      ≡ 0
absent-untouched card_id operation now later [] h = refl
absent-untouched card_id operation now later (c ∷ rows) h =
    ground (arith, absent-untouched card_id operation now later rows)

leased-unleasable :
    (card_id operation now later : ℕ) (rows : List Card)
    → count_where (has_id card_id) rows ≤ 1
    → later ≤ now + 60000
    → count_where (may_lease card_id now) rows ≢ 0
    → count_where
        (may_lease card_id later)
        (update_many (may_lease card_id now) (leased operation now) rows)
      ≡ 0
leased-unleasable card_id operation now later [] unique soon some_free = refl
leased-unleasable card_id operation now later (c ∷ rows) unique soon some_free = ground (
  arith,
  unique,
  soon,
  some_free,
  leased-unleasable card_id operation now later rows,
  absent-unleasable card_id now rows,
  absent-untouched card_id operation now later rows,
)

-- For one minute after an operation has obtained the lease of a card, no operation obtains it, if
-- no two cards have the card's id.
pub lease_excludes :
    (card_id operation other now later : ℕ) (db db' : Database)
    → count_where (has_id card_id) db.cards ≤ 1
    → lease card_id operation now db ≡ ok db'
    → later ≤ now + 60000
    → lease card_id other later db' ≡ err (conflict "Another provider action is processing")
unfolding lease
lease_excludes card_id operation other now later db db' unique h soon =
    elim (Bool-cases (count_where (may_lease card_id now) db.cards == 0)) [
      | inl free ↦ ground (arith, h, free)
      | inr busy ↦
          ground
            (arith, h, busy, leased-unleasable card_id operation now later db.cards unique soon)
    ]

released-leasable :
    (card_id operation now later : ℕ) (rows : List Card)
    → count_where (may_lease card_id now) rows ≢ 0
    → count_where (may_lease card_id later) (
        update_many
          (λ (c : Card). c.id == card_id && same_id c.provider_lease_owner (some operation))
          (λ (c : Card). record c { provider_lease_owner = none; provider_lease_until = none })
          (update_many (may_lease card_id now) (leased operation now) rows))
      ≢ 0
released-leasable card_id operation now later [] some_free = λ e. some_free refl
released-leasable card_id operation now later (c ∷ rows) some_free =
    ground (arith, some_free, released-leasable card_id operation now later rows)

abbrev pub is_ok : Result Database → Bool
is_ok (ok db) = true
is_ok (err e) = false

-- Once its holder has released the lease, any operation obtains it at any time.
pub release_frees :
    (card_id operation other now later : ℕ) (db db' : Database)
    → lease card_id operation now db ≡ ok db'
    → is_ok (lease card_id other later (release card_id operation db')) ≡ true
unfolding lease release
release_frees card_id operation other now later db db' h =
    elim (Bool-cases (count_where (may_lease card_id now) db.cards == 0)) [
      | inl free ↦ ground (arith, h, free)
      | inr busy ↦ ground (arith, h, busy, released-leasable card_id operation now later db.cards)
    ]

kept_rows :
    (card_id other : ℕ) (rows : List Card)
    → All (λ (c : Card). c.provider_lease_owner ≢ some other) rows
    → update_many
        (λ (c : Card). c.id == card_id && same_id c.provider_lease_owner (some other))
        (λ (c : Card). record c { provider_lease_owner = none; provider_lease_until = none })
        rows
      ≡ rows
kept_rows card_id other [] none_owned = refl
kept_rows card_id other (c ∷ rows) none_owned =
    ground (arith, none_owned, kept_rows card_id other rows)

-- An operation that holds no lease releases none.
pub release_foreign :
    (card_id other : ℕ) (db : Database)
    → All (λ (c : Card). c.provider_lease_owner ≢ some other) db.cards
    → (release card_id other db).cards ≡ db.cards
unfolding release
release_foreign card_id other db none_owned = kept_rows card_id other db.cards none_owned

-- A card that is retired already is not marked again: its reason and date stay, and nothing is logged.
pub mark_retired :
    (key fresh : ℕ) (card : Card) (reason : RetirementReason) (enqueues : Bool) (now : ℕ)
    (db : Database)
    → is_some card.retired_at ≡ true
    → ((mark key fresh card reason enqueues now db).cards ≡ db.cards)
      × ((mark key fresh card reason enqueues now db).audit_logs ≡ db.audit_logs)
      × ((mark key fresh card reason enqueues now db).notifications ≡ db.notifications)
unfolding mark enqueue
mark_retired key fresh card reason enqueues now db retired = ground (arith, retired)

-- An open retirement operation of the card.
abbrev pub is_retiring : Card → Operation → Bool
is_retiring card op = same_id op.card_id (some card.id) && is_retire op && is_open op

abbrev pub has_key : ℕ → Card → Operation → Bool
has_key key card op = op.user_id == card.user_id && op.idempotency_key == key

-- The owner's operation under the key, if any, is a retirement of the card.
abbrev pub OwnsKey : ℕ → Card → Operation → Type 0
OwnsKey key card op =
    has_key key card op ≡ true → (op.card_id ≡ some card.id) × (is_retire op ≡ true)

requeued :
    (key : ℕ) (card : Card) (rows : List Operation)
    → All (OwnsKey key card) rows
    → is_some (find_first (has_key key card) rows) ≡ true
    → is_some (
        find_first (is_retiring card) (
          update_many
            (has_key key card)
            (λ (op : Operation). record op { status = queued; lease_until = none })
            rows))
      ≡ true
requeued key card [] owned found = cc
requeued key card (op ∷ rows) owned found =
    ground (arith, owned.0, found, requeued key card rows owned.1)

-- If what the owner has under the key is a retirement of the card: after `enqueue` an open
-- retirement of the card is recorded, and enqueueing again changes nothing.
pub enqueue_once :
    (key fresh other : ℕ) (card : Card) (db : Database)
    → All (OwnsKey key card) db.operations
    → (is_some (find_first (is_retiring card) (enqueue key fresh card db).operations) ≡ true)
      × (enqueue key other card (enqueue key fresh card db) ≡ enqueue key fresh card db)
unfolding enqueue
enqueue_once key fresh other card db owned = ground (arith, requeued key card db.operations owned)
