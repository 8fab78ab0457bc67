-- ===== src/Finance/Events.antt =====
-- src/modules/finance/finance-events.service.ts: what the providers report. This file has the inbox that
-- keeps the reports; the children have one handler each.
pub mod Bank
pub mod Cards
pub mod Transactions
pub mod Inbox
pub mod Runs
pub mod Limits
pub mod Bounded
pub mod Settlements
pub mod Samples
mod Tests
pub mod Safety
use bonde_backend.Common.Table.{update_many, find_first}
use bonde_backend.Common.Int.{◌+ℤ◌, ℤ}
use bonde_backend.Finance.Operations.{set_inbox, Attempt}
use bonde_backend.Finance.Database.{
  retry, received, Card, review, webhook, Authorization, Database, InboxStatus, EventType, InboxRow,
}
use bonde_backend.Common.{
  ℕ, suc, ◌+◌, ◌-◌, ◌≡◌, refl, Bool, true, false, not, ◌&&◌, ◌||◌, Option, none, some, List, [],
  ◌∷◌, ◌++◌, leb, ltb, ◌==◌, same_id, is_some, if◌then◌else◌,
}
use bonde_backend.Common.Http.{
  Exception, other_error, provider_error, Result, ok, err, ◌>>=◌, ◌>>◌, throw_if, or_throw,
}

abbrev pub reference_is : Bool → ℕ → InboxRow → Bool
reference_is safe_haven reference row =
    (if row.is_safe_haven then safe_haven else not safe_haven)
    && elim row.reference [ webhook other ↦ other == reference | _ ↦ false ]

-- `upsert` with an empty update: a report that has been kept is not kept again. `reference` is the number of the
-- text that the event's type, the object's id and what tells its deliveries apart make.
unfoldable pub receive : ℕ → Bool → EventType → ℕ → ℕ → Option ℕ → Database → Database
receive fresh safe_haven type reference id session db = record db {
  inbox =
      if is_some (find_first (reference_is safe_haven reference) db.inbox)
      then db.inbox
      else record {
        id = fresh;
        is_safe_haven = safe_haven;
        reference = webhook reference;
        event_type = type;
        object_id = id;
        session_id = session;
        card_id = none;
        status = received;
      }
        ∷ db.inbox;
}

-- The `catch` of `run`.
abbrev pub catch_status : Exception → InboxStatus
catch_status (provider_error true status) = review
catch_status _ = retry

unfoldable pub catch_event : ℕ → Attempt → Database
catch_event inbox (db, none) = db
catch_event inbox (db, some e) = set_inbox inbox (catch_status e) db

-- `financeInbox.findUniqueOrThrow({ where: { id } })`
abbrev pub find_inbox : ℕ → Database → Result InboxRow
find_inbox id db =
    or_throw (find_first (λ (row : InboxRow). row.id == id) db.inbox)
      (other_error "No FinanceInbox found")

abbrev pub find_authorization : ℕ → Database → Option Authorization
find_authorization id db = find_first (λ (a : Authorization). a.id == id) db.authorizations

abbrev pub update_authorization : ℕ → (Authorization → Authorization) → Database → Database
update_authorization id f db = record db {
  authorizations = update_many (λ (a : Authorization). a.id == id) f db.authorizations;
}

-- `card.findFirst({ where: { externalReferenceId, issuer: 'sudo' } })`
abbrev pub find_issued : ℕ → Database → Option Card
find_issued external db =
    find_first (λ (c : Card). c.is_sudo && same_id c.external_reference_id (some external)) db.cards

-- `balance: { increment: amount }`
abbrev pub add_balance : ℤ → Card → Card
add_balance amount card = record card { balance = card.balance +ℤ amount }
